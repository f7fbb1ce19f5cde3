-- ===== src/Admin/Requests/Ends.antt =====
-- The loops of the administrator's `handle_request` end, whatever is received.
use niubix.Base.{ℕ, zero, suc, ◌+◌, ◌≤◌, ◌<◌, List, length, Bool-cases, inl, inr, leb}
use niubix.Parser.{Ret, Parser, new_parser}
use niubix.Parser.RequestLine.{parse_request_line}
use niubix.Parser.RequestLine.Bounds.{Recorded, request_line-Recorded}
use niubix.Parser.HeaderLine.{parse_header_line}
use niubix.Parser.HeaderLine.Bounds.{Moves, header_line-Moves}
use niubix.Request.Complete.{max_full_req_len}
use niubix.Request.Handle.{too_long}
use niubix.Admin.{Env, Admin}
use niubix.Admin.Commands.{Answer, done, refused, threw, a_complete_req}
use niubix.Admin.Requests.{
  Flow, returns, next, throws, no_fuel, bad_request, answered, header_turn, headers_loop, line_turn,
  request_turn, requests_loop, handle_request, Received, data_in, ended, nothing_yet, on_read,
}
use native.Mathlib.Omega.{arith}

-- The part ends, and another request starts behind `i`.
abbrev EndsBehind : ℕ → Flow → Type 0
EndsBehind i (next p s) = i < p.start
EndsBehind i no_fuel = ⊥
EndsBehind i _ = Unit {0}

weaken : (i j : ℕ) (f : Flow) → i ≤ j → EndsBehind j f → EndsBehind i f
weaken i j (returns r) le h = tt
weaken i j (next p s) le h = omega (arith, le, h)
weaken i j throws le h = tt
weaken i j no_fuel le h = h

-- It ends with a result: what `on_read` returns and the new state, or an exception.
abbrev pub Ends : Flow → Type 0
Ends (returns r) = Unit {0}
Ends throws = Unit {0}
Ends _ = ⊥

module _ (env : Env) (buf : List ℕ) where
  answered-Ends :
      (i : ℕ) (p : Parser) (s : Admin) (a : Answer)
      → i < p.start
      → EndsBehind i (answered env p s a)
  unfolding answered bad_request
  answered-Ends i p s (done s') h = h
  answered-Ends i p s (refused err) h = tt
  answered-Ends i p s threw h = tt

  header_turn-Ends :
      (i : ℕ) (rest : Parser → Admin → Flow) (r : Ret × Parser) (s : Admin)
      → Moves i (length buf) r
      → ((p : Parser) → i < p.start → p.start ≤ length buf → EndsBehind i (rest p s))
      → EndsBehind i (header_turn env buf rest r s)
  unfolding header_turn bad_request
  header_turn-Ends i rest (Ret.parse_ok, p) s m h = h p m.0 m.1
  header_turn-Ends i rest (Ret.end_of_req, p) s m h =
      elim (Bool-cases (too_long max_full_req_len p)) [
        | inl e ↦ rw e tt
        | inr e ↦ rw e (answered-Ends i p s (a_complete_req env buf p s) m.0)
      ]
  header_turn-Ends i rest (Ret.partial_req, p) s m h = tt
  header_turn-Ends i rest (_, p) s m h = tt

  headers_loop-Ends :
      (k : ℕ) (p : Parser) (s : Admin)
      → p.start ≤ length buf
      → length buf < k + p.start
      → EndsBehind p.start (headers_loop env buf k p s)
  unfolding headers_loop
  headers_loop-Ends zero p s le h = absurd (omega (arith, le, h))
  headers_loop-Ends (suc k) p s le h =
      header_turn-Ends p.start (headers_loop env buf k) (parse_header_line buf p) s
        (header_line-Moves buf p le)
        (λ p' lt le'.
          weaken p.start p'.start _ (omega (arith, lt))
            (headers_loop-Ends k p' s le' (omega (arith, h, lt))))

  line_turn-Ends :
      (i : ℕ) (r : Ret × Parser) (s : Admin)
      → Recorded i (length buf) r
      → EndsBehind i (line_turn env buf r s)
  unfolding line_turn bad_request
  line_turn-Ends i (Ret.parse_ok, p) s ((r, m, u, e, us, ue, a, b, c, d), le) =
      weaken i p.start _ (omega (arith, a, b, d))
        (headers_loop-Ends (suc (length buf)) p s le (omega arith))
  line_turn-Ends i (Ret.partial_req, p) s h = tt
  line_turn-Ends i (_, p) s h = tt

  request_turn-Ends :
      (i : ℕ) (rest : Parser → Admin → Flow) (f : Flow)
      → EndsBehind i f
      → ((p : Parser) (s : Admin) → i < p.start → p.start ≤ length buf → Ends (rest p s))
      → Ends (request_turn env buf rest f)
  unfolding request_turn
  request_turn-Ends i rest (returns r) h others = tt
  request_turn-Ends i rest throws h others = tt
  request_turn-Ends i rest (next p s) h others = elim (Bool-cases (leb (length buf) p.start)) [
    | inl e ↦ rw e tt
    | inr e ↦ rw e (others p s h (ground (arith, e)))
  ]
  request_turn-Ends i rest no_fuel h others = absurd h

  requests_loop-Ends :
      (k : ℕ) (p : Parser) (s : Admin)
      → p.start ≤ length buf
      → length buf < k + p.start
      → Ends (requests_loop env buf k p s)
  unfolding requests_loop
  requests_loop-Ends zero p s le h = absurd (omega (arith, le, h))
  requests_loop-Ends (suc k) p s le h =
      request_turn-Ends p.start (requests_loop env buf k)
        (line_turn env buf (parse_request_line buf p) s)
        (line_turn-Ends p.start (parse_request_line buf p) s (request_line-Recorded buf p le))
        (λ p' s' lt le'. requests_loop-Ends k p' s' le' (omega (arith, h, lt)))

-- Whatever the administrator's connection receives, `on_read` ends: it returns, or a command throws.
pub on_read-Ends : (env : Env) (r : Received) (s : Admin) → Ends (on_read env r s)
unfolding on_read handle_request
on_read-Ends env (data_in buf) s =
    requests_loop-Ends env buf (suc (length buf)) (new_parser 0) s (omega arith) (omega arith)
on_read-Ends env ended s = tt
on_read-Ends env nothing_yet s = tt
