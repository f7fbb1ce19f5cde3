-- ===== src/Request/Partial.antt =====
-- The buffer of a request that was not complete.
use niubix.Base.{ℕ, ◌≡◌, refl, ap, ◌∙◌, false, List, [], ◌∷◌, ◌++◌, some}
use niubix.Request.State.{Frontend, is_empty}
use niubix.Request.Handle.{Env, Outcome, returned, undefined, gathered, handle_data}
use niubix.Request.Keeps.{Cause, EndsKept}
use niubix.Request.Ends.{handle_data-kept}

empty-append : (xs ys : List ℕ) → is_empty xs ≡ false → is_empty (xs ++ ys) ≡ false
empty-append [] ys e = cc e
empty-append (x ∷ xs) ys e = refl

-- The buffer holds `bytes` at a return; an undefined call has one of its causes.
abbrev pub Buffers : List ℕ → Frontend → Outcome → Type 0
Buffers bytes s (returned r) = r.1.partial_buf ≡ bytes
Buffers bytes s (undefined f) = Cause s.matched_app f

gathered_all :
    (rbuf : List ℕ) (s : Frontend)
    → is_empty s.partial_buf ≡ false
    → (gathered rbuf s).1.partial_buf ≡ s.partial_buf ++ rbuf
gathered_all rbuf s e = simp e refl

kept-Buffers :
    (q bytes : List ℕ) (s : Frontend) (r : Outcome)
    → q ≡ bytes
    → is_empty bytes ≡ false
    → EndsKept q s.matched_app r
    → Buffers bytes s r
kept-Buffers q bytes s (returned r) e full k = k (ap is_empty e ∙ full) ∙ e
kept-Buffers q bytes s (undefined f) e full k = k

-- Once a part of a request was kept, the buffer is never emptied: `handle_data` ends, and if it returns it has
-- put what it received behind the kept part, also when the request has been completed and forwarded, so the
-- next call starts with that request again. It does not return only if it makes an undefined call: no app is
-- matched yet, or the app asks for `X-Forwarded-For`.
pub handle_data-partial :
    (env : Env) (rbuf : List ℕ) (s : Frontend)
    → is_empty s.partial_buf ≡ false
    → (r : Outcome) × (handle_data env rbuf s ≡ some r) × Buffers (s.partial_buf ++ rbuf) s r
handle_data-partial env rbuf s e =
    let (r, done, k) = handle_data-kept env rbuf s in
    let full = empty-append s.partial_buf rbuf e in
    (r, done, kept-Buffers _ _ s r (gathered_all rbuf s e) full k)
