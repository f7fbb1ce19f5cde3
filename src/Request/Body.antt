-- ===== src/Request/Body.antt =====
-- The body of a request, received in any pieces.
use niubix.Base.{
  ℕ, ◌-◌, ◌≤◌, ◌<◌, ◌≡◌, refl, sym, ◌∙◌, true, false, List, [], ◌∷◌, ◌++◌, Option, none, some,
  length, length-append, leb, ltb, min, take_all,
}
use niubix.Request.State.{Frontend, forward_to_backend}
use niubix.Request.Handle.{Env, Outcome, returned, undefined, handle_body, handle_data}
use mathlib.Core.List.{append_assoc, append-nil}
use native.Mathlib.Omega.{arith}

-- `on_read` for each piece of data in turn; the connection goes on while `handle_data` returns true.
unfoldable pub continued : (Frontend → Option Frontend) → Option Outcome → Option Frontend
continued rest none = none
continued rest (some (undefined f)) = none
continued rest (some (returned (false, s))) = none
continued rest (some (returned (true, s))) = rest s

unfoldable pub receive : Env → List (List ℕ) → Frontend → Option Frontend
receive env [] s = some s
receive env (piece ∷ pieces) s = continued (receive env pieces) (handle_data env piece s)

-- `recv` returns at least one byte.
abbrev pub AllReceived : List (List ℕ) → Type 0
AllReceived [] = Unit {0}
AllReceived (piece ∷ pieces) = (0 < length piece) × AllReceived pieces

abbrev pub joined : List (List ℕ) → List ℕ
joined [] = []
joined (piece ∷ pieces) = piece ++ joined pieces

-- The frontend behind some bytes of a body.
abbrev pub passed : List ℕ → Frontend → Frontend
passed bytes s = record s {
  forwarded = s.forwarded ++ bytes;
  content_length = s.content_length - length bytes;
}

handle_data-body :
    (env : Env) (piece : List ℕ) (s : Frontend)
    → s.has_backend ≡ true
    → s.partial_buf ≡ []
    → 0 < length piece
    → length piece ≤ s.content_length
    → handle_data env piece s ≡ some (returned (true, passed piece s))
unfolding handle_data handle_body forward_to_backend
handle_data-body env piece s b e l le =
    let whole : min (length piece) s.content_length ≡ length piece = omega (arith, le) in
    let some_left : ltb 0 s.content_length ≡ true = ground (arith, l, le) in
    let done : leb (length piece) (length piece) ≡ true = ground arith in
    simp (e, some_left, whole, take_all (length piece) piece (omega arith), b, done) refl

sent_as :
    (s : Frontend) (f f' : List ℕ) (n n' : ℕ)
    → f ≡ f'
    → n ≡ n'
    → some (record s { forwarded = f; content_length = n })
      ≡ some (record s { forwarded = f'; content_length = n' })
sent_as s f f' n n' e e' = rw (e, e') refl

-- If a backend is connected, no earlier part of a request is kept, and the pieces are not more than the
-- body that is missing, then the connection goes on, exactly their bytes are forwarded, in their order,
-- the missing length becomes less by as many bytes, and nothing else changes.
pub receive-body :
    (env : Env) (pieces : List (List ℕ)) (s : Frontend)
    → s.has_backend ≡ true
    → s.partial_buf ≡ []
    → AllReceived pieces
    → length (joined pieces) ≤ s.content_length
    → receive env pieces s ≡ some (passed (joined pieces) s)
unfolding receive continued
receive-body env [] s b e all le = sent_as s _ _ _ _ (sym (append-nil s.forwarded)) (omega arith)
receive-body env (piece ∷ pieces) s b e (l, all) le =
    let total = length-append piece (joined pieces) in
    let s' = passed piece s in
    let here = handle_data-body env piece s b e l (omega (arith, total, le)) in
    let rest = receive-body env pieces s' b e all (omega (arith, total, le)) in
    rw here (
      rest
      ∙ sent_as s _ _ _ _ (append_assoc s.forwarded piece (joined pieces)) (omega (arith, total)))
