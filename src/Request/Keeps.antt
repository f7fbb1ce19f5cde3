-- ===== src/Request/Keeps.antt =====
-- What stays as it is while received data is handled, and what leads to an undefined call.
use niubix.Base.{
  ℕ, zero, suc, ◌-◌, ◌≡◌, refl, sym, ap, ◌∙◌, Bool, true, false, List, Option, none, some, length,
  Bool-cases, inl, inr, leb, ltb, if◌then◌else◌, min, take, drop, get_or,
}
use niubix.Parser.{Ret, Parser, new_parser, index}
use niubix.Parser.RequestLine.{parse_request_line}
use niubix.Parser.HeaderLine.{parse_header_line}
use niubix.Parser.Chunked.{lower}
use niubix.Request.State.{
  Conf, Frontend, ParseReqResult, no_result, is_null, is_empty, forward_to_backend,
  response_err_and_close, handle_partial_req, save_received_data_before_match_app,
}
use niubix.Request.Filter.{
  Filtered, filter_headers, filter_host, filter_matched, filter_body, filter_length,
  filter_encoding,
}
use niubix.Request.Complete.{
  max_full_req_len, a_complete_req, complete_for, with_forwarded_for, forward_req, forward_as_is,
  forward_hbuf, forward_payload, payload_of, the_hbuf,
}
use niubix.Request.Handle.{
  Env, Fault, null_host, bad_copy, Outcome, returned, undefined, Flow, returns, next, no_fuel,
  match_app, to_match_app_by_host, completed, keep_partial, end_of_headers, header_filtered,
  header_turn, headers_loop, line_turn, request_turn, requests_loop, handle_request, handle_body,
  too_long, with_payload,
}
use native.Mathlib.Omega.{arith}

is_null-none : {A : Type 0} (o : Option A) → is_null o ≡ true → o ≡ none
is_null-none none e = refl
is_null-none (some a) e = cc e

-- What leads to each of the undefined calls: no app is matched yet, or one that asks for `X-Forwarded-For`.
abbrev pub Cause : Option Conf → Fault → Type 0
Cause m null_host = m ≡ none
Cause m bad_copy = (cf : Conf) × (m ≡ some cf) × (cf.with_x_forwarded_for ≡ true)

module _ (q : List ℕ) (m : Option Conf) where
  -- The part of a request that was kept, and the app, do not change while requests are handled.
  abbrev pub Keeps : Frontend → Type 0
  Keeps s = (s.partial_buf ≡ q) × (s.matched_app ≡ m)

  Keeps-if : (b : Bool) (s t : Frontend) → Keeps s → Keeps t → Keeps (if b then s else t)
  Keeps-if true s t k l = k
  Keeps-if false s t k l = l

  forward-Keeps : (bytes : List ℕ) (s : Frontend) → Keeps s → Keeps (forward_to_backend bytes s)
  unfolding forward_to_backend
  forward-Keeps bytes s k = Keeps-if s.has_backend _ s k k

  payload-Keeps : (payload : List ℕ) (s : Frontend) → Keeps s → Keeps (forward_payload payload s)
  unfolding forward_payload
  payload-Keeps payload s k = Keeps-if (is_empty payload) s _ k (forward-Keeps payload s k)

  -- Behind `a_complete_req`: with the frontend that it leaves, or with a copy of a negative length.
  abbrev Completes : Option Frontend → Type 0
  Completes none = Cause m bad_copy
  Completes (some s) = Keeps s

  hbuf-Keeps :
      (buf : List ℕ) (p : Parser) (prr : ParseReqResult) (s : Frontend) (cf : Conf)
      → (the_hbuf buf p prr s cf ≡ none → cf.with_x_forwarded_for ≡ true)
  unfolding with_forwarded_for
  hbuf-Keeps buf p prr s cf = elim (Bool-cases cf.with_x_forwarded_for) [
    | inl f ↦ λ e. f
    | inr f ↦ simp f (λ e. cc e)
  ]

  forward_req-Keeps :
      (buf : List ℕ) (p : Parser) (payload : List ℕ) (s : Frontend) (o : Option (List ℕ))
      → Keeps s
      → (o ≡ none → Cause m bad_copy)
      → Completes (forward_req buf p payload s o)
  unfolding forward_req forward_as_is forward_hbuf
  forward_req-Keeps buf p payload s none k c = c refl
  forward_req-Keeps buf p payload s (some hbuf) k c =
      Keeps-if (is_empty hbuf) _ _ (payload-Keeps payload _ (forward-Keeps _ s k))
        (Keeps-if _ _ _ (forward-Keeps _ _ k) (payload-Keeps payload _ (forward-Keeps _ s k)))

  complete-Keeps :
      (buf : List ℕ) (p : Parser) (prr : ParseReqResult) (s : Frontend) (o : Option Conf)
      → o ≡ m
      → Keeps s
      → Completes (complete_for buf p prr s o)
  unfolding complete_for
  complete-Keeps buf p prr s none e k = k
  complete-Keeps buf p prr s (some cf) e k =
      forward_req-Keeps buf p (payload_of buf prr) s (the_hbuf buf p prr s cf) k
        (λ h. (cf, sym e, hbuf-Keeps buf p prr s cf h))

  abbrev Same : Frontend → Frontend → Type 0
  Same s s' = (s'.partial_buf ≡ s.partial_buf) × (s'.matched_app ≡ s.matched_app)

  length-Keeps :
      (buf : List ℕ) (p : Parser) (prr : ParseReqResult) (s : Frontend)
      → Same s (filter_length buf p prr s).2
  unfolding filter_length
  length-Keeps buf p prr s = ground arith

  body-Keeps :
      (buf : List ℕ) (p : Parser) (prr : ParseReqResult) (s : Frontend)
      → Same s (filter_body buf p prr s).2
  unfolding filter_body filter_encoding
  body-Keeps buf p prr s = ground (arith, length-Keeps buf p prr s)

  matched-Keeps :
      (first : ℕ) (buf : List ℕ) (p : Parser) (prr : ParseReqResult) (s : Frontend)
      (o : Option Conf)
      → Same s (filter_matched first buf p prr s o).2
  unfolding filter_matched
  matched-Keeps first buf p prr s none = body-Keeps buf p prr s
  matched-Keeps first buf p prr s (some cf) = ground (arith, body-Keeps buf p prr s)

  filter-Keeps :
      (buf : List ℕ) (p : Parser) (prr : ParseReqResult) (s : Frontend)
      → Same s (filter_headers buf p prr s).2
  unfolding filter_headers filter_host
  filter-Keeps buf p prr s =
      let matched =
        matched-Keeps (lower (get_or buf (index p.header_name_start) 0)) buf p prr s
          s.matched_app in
      ground (arith, matched)

  -- A part of a request that was kept is not given up.
  abbrev pub EndsKept : Outcome → Type 0
  EndsKept (returned r) = is_empty q ≡ false → r.1.partial_buf ≡ q
  EndsKept (undefined f) = Cause m f

  then-Keeps : (s s' : Frontend) → Same s s' → Keeps s → Keeps s'
  then-Keeps s s' (e, f) (k, l) = (e ∙ k, f ∙ l)

  abbrev FlowKeeps : Flow → Type 0
  FlowKeeps (returns r) = EndsKept r
  FlowKeeps (next p s) = Keeps s
  FlowKeeps no_fuel = Unit {0}

  abbrev pub EndKeeps : Option Outcome → Type 0
  EndKeeps none = Unit {0}
  EndKeeps (some r) = EndsKept r

  module _ (env : Env) (buf : List ℕ) where
    partial-Keeps :
        (limit : ℕ) (p : Parser) (s : Frontend)
        → Keeps s
        → EndsKept (returned (keep_partial env buf limit p s))
    unfolding keep_partial response_err_and_close handle_partial_req
    partial-Keeps limit p s (k, l) some_kept =
        let full : is_empty s.partial_buf ≡ false = ap is_empty k ∙ some_kept in
        elim (Bool-cases (too_long limit p)) [ inl t ↦ rw t k | inr t ↦ simp (t, full) k ]

    completed-Keeps : (p : Parser) (o : Option Frontend) → Completes o → FlowKeeps (completed p o)
    unfolding completed
    completed-Keeps p none c = c
    completed-Keeps p (some s) k = k

    -- The data is saved, and the app is looked for.
    match-Keeps :
        (s : Frontend) (host : Option (List ℕ))
        → Keeps s
        → is_null s.matched_app ≡ true
        → s.host ≡ host
        → EndsKept (to_match_app_by_host env (save_received_data_before_match_app buf s))
    unfolding to_match_app_by_host match_app save_received_data_before_match_app
    match-Keeps s none (k, l) n h = simp (n, h) (is_null-none m (rw l at n))
    match-Keeps s (some host) (k, l) n h = simp (n, h) (λ some_kept. ground (arith, k))

    headers-Keeps :
        (p : Parser) (prr : ParseReqResult) (s : Frontend)
        → Keeps s
        → FlowKeeps (end_of_headers env buf p prr s)
    unfolding end_of_headers response_err_and_close a_complete_req
    headers-Keeps p prr s k =
        let body = with_payload env buf p prr s in
        let done = complete-Keeps buf p prr s s.matched_app k.1 k in
        let sent = complete-Keeps buf p body s s.matched_app k.1 k in
        elim (Bool-cases (too_long max_full_req_len p)) [
          | inl t ↦ simp t (λ some_kept. k.0)
          | inr t ↦ elim (Bool-cases (is_null s.matched_app)) [
            | inl n ↦ simp (t, n) (match-Keeps s s.host k n refl)
            | inr n ↦ elim (Bool-cases (ltb 0 s.content_length)) [
              | inl c ↦ simp (t, n, c) (completed-Keeps _ _ sent)
              | inr c ↦ simp (t, n, c) (completed-Keeps _ _ done)
            ]
          ]
        ]

    filtered-Keeps :
        (rest : Parser → ParseReqResult → Frontend → Flow) (p : Parser) (f : Filtered)
        → Keeps f.2
        → ((prr : ParseReqResult) (s : Frontend) → Keeps s → FlowKeeps (rest p prr s))
        → FlowKeeps (header_filtered env buf rest p f)
    unfolding header_filtered response_err_and_close
    filtered-Keeps rest p (some err, prr, s) k h = λ some_kept. k.0
    filtered-Keeps rest p (none, prr, s) k h = h prr s k

    turn-Keeps :
        (rest : Parser → ParseReqResult → Frontend → Flow) (r : Ret × Parser) (prr : ParseReqResult)
        (s : Frontend)
        → Keeps s
        → ((p : Parser) (prr : ParseReqResult) (s : Frontend) → Keeps s → FlowKeeps (rest p prr s))
        → FlowKeeps (header_turn env buf rest r prr s)
    unfolding header_turn response_err_and_close
    turn-Keeps rest (Ret.parse_ok, p) prr s k h =
        filtered-Keeps rest p (filter_headers buf p prr s)
          (then-Keeps s (filter_headers buf p prr s).2 (filter-Keeps buf p prr s) k) (h p)
    turn-Keeps rest (Ret.partial_req, p) prr s k h = partial-Keeps _ p s k
    turn-Keeps rest (Ret.end_of_req, p) prr s k h = headers-Keeps p prr s k
    turn-Keeps rest (_, p) prr s k h = λ some_kept. k.0

    headers_loop-Keeps :
        (n : ℕ) (p : Parser) (prr : ParseReqResult) (s : Frontend)
        → Keeps s
        → FlowKeeps (headers_loop env buf n p prr s)
    unfolding headers_loop
    headers_loop-Keeps zero p prr s k = tt
    headers_loop-Keeps (suc n) p prr s k =
        turn-Keeps (headers_loop env buf n) (parse_header_line buf p) prr s k (headers_loop-Keeps n)

    line-Keeps : (r : Ret × Parser) (s : Frontend) → Keeps s → FlowKeeps (line_turn env buf r s)
    unfolding line_turn response_err_and_close
    line-Keeps (Ret.parse_ok, p) s k = headers_loop-Keeps (suc (length buf)) p no_result s k
    line-Keeps (Ret.partial_req, p) s k = partial-Keeps _ p s k
    line-Keeps (_, p) s k = λ some_kept. k.0

    request-Keeps :
        (rest : Parser → Frontend → Option Outcome) (f : Flow)
        → FlowKeeps f
        → ((p : Parser) (s : Frontend) → Keeps s → EndKeeps (rest p s))
        → EndKeeps (request_turn env buf rest f)
    unfolding request_turn
    request-Keeps rest (returns r) k h = k
    request-Keeps rest (next p s) k h = elim (Bool-cases (leb (length buf) p.start)) [
      | inl e ↦ rw e (λ some_kept. k.0)
      | inr e ↦ rw e (h p s k)
    ]
    request-Keeps rest no_fuel k h = tt

    requests-Keeps :
        (n : ℕ) (p : Parser) (s : Frontend) → Keeps s → EndKeeps (requests_loop env buf n p s)
    unfolding requests_loop
    requests-Keeps zero p s k = tt
    requests-Keeps (suc n) p s k =
        request-Keeps (requests_loop env buf n) (line_turn env buf (parse_request_line buf p) s)
          (line-Keeps (parse_request_line buf p) s k) (requests-Keeps n)

  pub data-Keeps :
      (env : Env) (buf : List ℕ) (s : Frontend)
      → Keeps s
      → EndKeeps
          (if ltb 0 s.content_length then handle_body env buf s else handle_request env buf s)
  unfolding handle_body handle_request
  data-Keeps env buf s k =
      let n = min (length buf) s.content_length in
      let s' = forward_to_backend (take n buf) s in
      let left = record s' { content_length = s'.content_length - n } in
      elim (Bool-cases (ltb 0 s.content_length)) [
        | inr e ↦ rw e (requests-Keeps env buf (suc (length buf)) (new_parser 0) s k)
        | inl e ↦ elim (Bool-cases (leb (length buf) n)) [
          | inl e' ↦ simp (e, e') (λ some_kept. (forward-Keeps (take n buf) s k).0)
          | inr e' ↦
              simp (e, e')
                (requests-Keeps env (drop n buf) (suc (length (drop n buf))) (new_parser 0) left
                  (forward-Keeps (take n buf) s k))
        ]
      ]
