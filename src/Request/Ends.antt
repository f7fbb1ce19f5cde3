-- ===== src/Request/Ends.antt =====
-- The loops of `handle_request` end, whatever is received.
use niubix.Base.{
  ℕ, zero, suc, ◌+◌, ◌-◌, ◌≤◌, ◌<◌, ◌≡◌, refl, subst, true, List, Option, none, some, length,
  Bool-cases, inl, inr, leb, ltb, min, drop,
}
use niubix.Parser.{Ret, Parser, new_parser}
use niubix.Parser.RequestLine.{parse_request_line}
use niubix.Parser.RequestLine.Bounds.{Recorded, request_line-Recorded}
use niubix.Parser.HeaderLine.{parse_header_line}
use niubix.Parser.HeaderLine.Bounds.{Moves, header_line-Moves}
use niubix.Request.State.{Frontend, ParseReqResult, no_result, is_empty}
use niubix.Request.Complete.{a_complete_req}
use niubix.Request.Filter.{Filtered, filter_headers}
use niubix.Request.Keeps.{Cause, EndsKept, EndKeeps, data-Keeps}
use niubix.Request.Handle.{
  Env, Flow, returns, next, no_fuel, Outcome, returned, undefined, completed, with_payload,
  end_of_headers, header_filtered, header_turn, headers_loop, line_turn, request_turn,
  requests_loop, handle_request, handle_body, handle_data, gathered,
}
use native.Mathlib.Omega.{arith}

-- The part ends, and another request starts behind `i`.
abbrev EndsBehind : ℕ → Flow → Type 0
EndsBehind i (returns r) = Unit {0}
EndsBehind i (next p s) = i < p.start
EndsBehind i no_fuel = ⊥

weaken : (i j : ℕ) (f : Flow) → i ≤ j → EndsBehind j f → EndsBehind i f
weaken i j (returns r) le h = h
weaken i j (next p s) le h = omega (arith, le, h)
weaken i j no_fuel le h = h

module _ (env : Env) (buf : List ℕ) where
  completed-Ends :
      (i : ℕ) (p : Parser) (o : Option Frontend) → i < p.start → EndsBehind i (completed p o)
  unfolding completed
  completed-Ends i p none h = tt
  completed-Ends i p (some s) h = h

  end_of_headers-Ends :
      (i : ℕ) (p : Parser) (prr : ParseReqResult) (s : Frontend)
      → i < p.start
      → EndsBehind i (end_of_headers env buf p prr s)
  unfolding end_of_headers
  end_of_headers-Ends i p prr s h =
      let far : i < p.start + min s.content_length (length buf - p.start) = omega (arith, h) in
      ground (
        arith,
        completed-Ends i p (a_complete_req buf p prr s) h,
        completed-Ends i
            (record p { start = p.start + min s.content_length (length buf - p.start) })
            (a_complete_req buf p (with_payload env buf p prr s) s) far,
      )

  header_filtered-Ends :
      (i : ℕ) (rest : Parser → ParseReqResult → Frontend → Flow) (p : Parser) (f : Filtered)
      → ((prr : ParseReqResult) (s : Frontend) → EndsBehind i (rest p prr s))
      → EndsBehind i (header_filtered env buf rest p f)
  unfolding header_filtered
  header_filtered-Ends i rest p (some err, prr, s) h = tt
  header_filtered-Ends i rest p (none, prr, s) h = h prr s

  header_turn-Ends :
      (i : ℕ) (rest : Parser → ParseReqResult → Frontend → Flow) (r : Ret × Parser)
      (prr : ParseReqResult) (s : Frontend)
      → Moves i (length buf) r
      → ((p : Parser) (prr : ParseReqResult) (s : Frontend)
          → i < p.start
          → p.start ≤ length buf
          → EndsBehind i (rest p prr s))
      → EndsBehind i (header_turn env buf rest r prr s)
  unfolding header_turn
  header_turn-Ends i rest (Ret.parse_ok, p) prr s m h =
      header_filtered-Ends i rest p (filter_headers buf p prr s) (λ prr' s'. h p prr' s' m.0 m.1)
  header_turn-Ends i rest (Ret.end_of_req, p) prr s m h = end_of_headers-Ends i p prr s m.0
  header_turn-Ends i rest (Ret.partial_req, p) prr s m h = tt
  header_turn-Ends i rest (_, p) prr s m h = tt

  headers_loop-Ends :
      (k : ℕ) (p : Parser) (prr : ParseReqResult) (s : Frontend)
      → p.start ≤ length buf
      → length buf < k + p.start
      → EndsBehind p.start (headers_loop env buf k p prr s)
  unfolding headers_loop
  headers_loop-Ends zero p prr s le h = absurd (omega (arith, le, h))
  headers_loop-Ends (suc k) p prr s le h =
      header_turn-Ends p.start (headers_loop env buf k) (parse_header_line buf p) prr s
        (header_line-Moves buf p le)
        (λ p' prr' s' lt le'.
          weaken p.start p'.start _ (omega (arith, lt))
            (headers_loop-Ends k p' prr' s' le' (omega (arith, h, lt))))

  line_turn-Ends :
      (i : ℕ) (r : Ret × Parser) (s : Frontend)
      → Recorded i (length buf) r
      → EndsBehind i (line_turn env buf r s)
  unfolding line_turn
  line_turn-Ends i (Ret.parse_ok, p) s ((r, m, u, e, us, ue, a, b, c, d), le) =
      weaken i p.start _ (omega (arith, a, b, d))
        (headers_loop-Ends (suc (length buf)) p no_result s le (omega arith))
  line_turn-Ends i (Ret.partial_req, p) s h = tt
  line_turn-Ends i (_, p) s h = tt

  abbrev Ends : Option Outcome → Type 0
  Ends o = (r : Outcome) × (o ≡ some r)

  request_turn-Ends :
      (i : ℕ) (rest : Parser → Frontend → Option Outcome) (f : Flow)
      → EndsBehind i f
      → ((p : Parser) (s : Frontend) → i < p.start → p.start ≤ length buf → Ends (rest p s))
      → Ends (request_turn env buf rest f)
  unfolding request_turn
  request_turn-Ends i rest (returns r) h others = (r, refl)
  request_turn-Ends i rest (next p s) h others = elim (Bool-cases (leb (length buf) p.start)) [
    | inl e ↦ rw e (returned (true, s), refl)
    | inr e ↦ rw e (others p s h (ground (arith, e)))
  ]
  request_turn-Ends i rest no_fuel h others = absurd h

  requests_loop-Ends :
      (k : ℕ) (p : Parser) (s : Frontend)
      → p.start ≤ length buf
      → length buf < k + p.start
      → Ends (requests_loop env buf k p s)
  unfolding requests_loop
  requests_loop-Ends zero p s le h = absurd (omega (arith, le, h))
  requests_loop-Ends (suc k) p s le h =
      request_turn-Ends p.start (requests_loop env buf k)
        (line_turn env buf (parse_request_line buf p) s)
        (line_turn-Ends p.start (parse_request_line buf p) s (request_line-Recorded buf p le))
        (λ p' s' lt le'. requests_loop-Ends k p' s' le' (omega (arith, h, lt)))

data_ends :
    (env : Env) (rbuf : List ℕ) (s : Frontend) → (r : Outcome) × (handle_data env rbuf s ≡ some r)
unfolding handle_data handle_body handle_request
data_ends env rbuf s =
    let s' = (gathered rbuf s).1 in
    let buf = (gathered rbuf s).0 in
    let n = min (length buf) s'.content_length in
    let more : (b : List ℕ) (t : Frontend) → Ends env b (handle_request env b t) = λ b t.
      requests_loop-Ends env b (suc (length b)) (new_parser 0) t (omega arith) (omega arith) in
    elim (Bool-cases (ltb 0 s'.content_length)) [
      | inl e ↦ elim (Bool-cases (leb (length buf) n)) [
        | inl e' ↦ simp (e, e') (_, refl)
        | inr e' ↦ simp (e, e') (more (drop n buf) _)
      ]
      | inr e ↦ simp e (more buf s')
    ]

gathered-app : (rbuf : List ℕ) (s : Frontend) → (gathered rbuf s).1.matched_app ≡ s.matched_app
gathered-app rbuf s = elim (Bool-cases (is_empty s.partial_buf)) [
  | inl e ↦ simp e refl
  | inr e ↦ simp e refl
]

data_kept :
    (env : Env) (rbuf : List ℕ) (s : Frontend)
    → EndKeeps (gathered rbuf s).1.partial_buf s.matched_app (handle_data env rbuf s)
unfolding handle_data
data_kept env rbuf s =
    let (buf, s') = gathered rbuf s in
    data-Keeps s'.partial_buf s.matched_app env buf s' (refl, gathered-app rbuf s)

-- How the handling of received data ends, and what is then in the buffer.
pub handle_data-kept :
    (env : Env) (rbuf : List ℕ) (s : Frontend)
    → (r : Outcome) × (handle_data env rbuf s ≡ some r)
      × EndsKept (gathered rbuf s).1.partial_buf s.matched_app r
handle_data-kept env rbuf s =
    let (r, done) = data_ends env rbuf s in
    (r, done, subst (EndKeeps _ s.matched_app) done (data_kept env rbuf s))

-- A return, or an undefined call with its cause.
abbrev pub Returns : Frontend → Outcome → Type 0
Returns s (returned r) = Unit {0}
Returns s (undefined f) = Cause s.matched_app f

kept-Returns : (q : List ℕ) (s : Frontend) (r : Outcome) → EndsKept q s.matched_app r → Returns s r
kept-Returns q s (returned r) k = tt
kept-Returns q s (undefined f) k = k

-- Whatever is received in whatever state, `handle_data` ends: no loop runs for ever, since each request line
-- and each header line takes the parser further. It returns, but for two undefined calls: a null host is only
-- compared if no app was matched before, and a negative length is only copied if the matched app asks for
-- `X-Forwarded-For`.
pub handle_data_ends :
    (env : Env) (rbuf : List ℕ) (s : Frontend)
    → (r : Outcome) × (handle_data env rbuf s ≡ some r) × Returns s r
handle_data_ends env rbuf s =
    let (r, done, k) = handle_data-kept env rbuf s in (r, done, kept-Returns _ s r k)
