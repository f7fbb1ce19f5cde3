-- ===== src/Request/Rewrite.antt =====
-- What `a_complete_req` forwards for a request whose headers it changes.
use niubix.Base.{
  ℕ, ◌+◌, ◌-◌, ◌≡◌, refl, sym, ap, ◌∙◌, Bool, true, false, not, ◌&&◌, ◌||◌, List, [], ◌∷◌, ◌++◌,
  none, some, length, Bool-cases, inl, inr, leb, if◌then◌else◌, take, drop, tail,
}
use niubix.Parser.{Parser, index}
use niubix.Request.State.{
  Conf, Frontend, ParseReqResult, slice, is_empty, sub_64, forward_to_backend,
}
use niubix.Request.Complete.{
  crlf, x_real_ip_text, x_forwarded_for_text, hbuf_size, received, is_behind, can_copy, built,
  with_forwarded_for, with_real_ip, forward_payload, forward_hbuf, payload_of, forward_req,
  complete_for, a_complete_req,
}
use mathlib.Core.List.{append_assoc, append-nil}
use native.Mathlib.Omega.{arith}

-- A header line that is added.
abbrev pub added : List ℕ → List ℕ → List ℕ
added text value = text ++ (value ++ crlf)

-- The app asks for a header that the request does not have, or continues one.
abbrev pub is_changed : ParseReqResult → Conf → Bool
is_changed prr cf = cf.with_x_forwarded_for || (cf.with_x_real_ip && not prr.x_real_ip_exist)

-- The line that the app asks for and the request does not have.
abbrev pub new_real_ip : ParseReqResult → Frontend → Conf → List ℕ
new_real_ip prr s cf =
    if cf.with_x_real_ip && not prr.x_real_ip_exist then added x_real_ip_text s.remote_addr else []

-- What becomes of the header lines of a request that starts at `at`: they are left, or get the client's
-- address as a new `X-Forwarded-For`, or are cut behind the one that there is, whose last value
-- gets the address of the proxy behind it.
pub data NewLines (at : ℕ) (prr : ParseReqResult) (s : Frontend) (cf : Conf) (lines : List ℕ)
    : List ℕ → Type 0 where
  as_received : cf.with_x_forwarded_for ≡ false → NewLines at prr s cf lines lines
  begun :
      cf.with_x_forwarded_for ≡ true
      → prr.xff_start ≡ none
      → NewLines at prr s cf lines (lines ++ added x_forwarded_for_text s.remote_addr)
  cut_short :
      {i : ℕ} (upto lost : List ℕ)
      → cf.with_x_forwarded_for ≡ true
      → prr.xff_start ≡ some i
      → prr.xff_end ≡ some (at + length upto)
      → lines ≡ upto ++ lost
      → NewLines at prr s cf lines (upto ++ added (44 ∷ 32 ∷ []) s.local_addr)

not_empty : (xs : List ℕ) (y : ℕ) (ys : List ℕ) → is_empty (xs ++ (y ∷ ys)) ≡ false
not_empty [] y ys = refl
not_empty (x ∷ xs) y ys = refl

drop_front : (xs ys : List ℕ) → drop (length xs) (xs ++ ys) ≡ ys
drop_front [] ys = refl
drop_front (x ∷ xs) ys = drop_front xs ys

take_front : (xs ys : List ℕ) → take (length xs) (xs ++ ys) ≡ xs
take_front [] ys = refl
take_front (x ∷ xs) ys = ap (◌∷◌ x) (take_front xs ys)

-- The bytes between the ends of two parts.
slice_mid :
    (before mid behind : List ℕ)
    → slice (before ++ (mid ++ behind)) (length before) (length before + length mid) ≡ mid
slice_mid before mid behind =
    let n : length before + length mid - length before ≡ length mid = omega arith in
    rw (n, drop_front before (mid ++ behind)) (take_front mid behind)

module _ (before lines behind : List ℕ) (p : Parser) (prr : ParseReqResult) (s : Frontend)
    (cf : Conf) (starts : p.req_start ≡ some (length before))
    (ends : p.req_end ≡ some (length before + length lines)) where
  abbrev whole : List ℕ
  whole = before ++ (lines ++ behind)

  received-lines : received whole p ≡ lines
  received-lines = simp (starts, ends) (slice_mid before lines behind)

  upto-lines :
      (upto lost : List ℕ)
      → prr.xff_end ≡ some (length before + length upto)
      → lines ≡ upto ++ lost
      → (slice whole (index p.req_start) (index prr.xff_end) ≡ upto) × (can_copy p prr ≡ true)
  upto-lines upto lost e split =
      let reach : leb (length before) (length before + length upto) ≡ true = ground arith in
      let same : before ++ (upto ++ (lost ++ behind)) ≡ whole =
        ap (λ x. before ++ x) (sym (append_assoc upto lost behind))
        ∙ ap (λ x. before ++ (x ++ behind)) (sym split) in
      (
        simp (starts, e, ← same) (slice_mid before upto (lost ++ behind)),
        ap (λ o. is_behind o prr.xff_end) starts ∙ ap (is_behind (some (length before))) e ∙ reach,
      )

  -- What is in `hbuf` behind the first `if`.
  copied-new :
      (new : List ℕ)
      → NewLines (length before) prr s cf lines new
      → with_forwarded_for whole p prr s cf ≡ some (if cf.with_x_forwarded_for then new else [])
  unfolding with_forwarded_for
  copied-new new (as_received f) = simp f refl
  copied-new new (begun f e) =
      simp (f, e) (ap (λ x. some (x ++ added x_forwarded_for_text s.remote_addr)) received-lines)
  copied-new new (cut_short upto lost f e x split) =
      let (same, ok) = upto-lines upto lost x split in
      simp (f, e, ok) (ap (λ t. some (t ++ added (44 ∷ 32 ∷ []) s.local_addr)) same)

  new-some :
      (new : List ℕ)
      → NewLines (length before) prr s cf lines new
      → cf.with_x_forwarded_for ≡ true
      → is_empty new ≡ false
  new-some new (as_received f) t = cc (f, t)
  new-some new (begun f e) t = not_empty lines 88 (tail (added x_forwarded_for_text s.remote_addr))
  new-some new (cut_short upto lost f e x split) t =
      not_empty upto 44 (tail (added (44 ∷ 32 ∷ []) s.local_addr))

  -- `h` becomes the new header, and is not empty.
  abbrev Renews : List ℕ → List ℕ → Type 0
  Renews new h = (h ++ crlf ≡ (new ++ new_real_ip prr s cf) ++ crlf) × (is_empty h ≡ false)

  behind-Renews :
      (new : List ℕ) → is_empty new ≡ false → Renews new (with_real_ip whole p prr s cf new)
  unfolding with_real_ip
  behind-Renews new full = elim (Bool-cases (cf.with_x_real_ip && not prr.x_real_ip_exist)) [
    | inl r ↦ simp (r, full) (refl, not_empty new _ _)
    | inr r ↦ simp r (ap (λ x. x ++ crlf) (sym (append-nil new)), full)
  ]

  alone-Renews :
      (cf.with_x_real_ip && not prr.x_real_ip_exist) ≡ true
      → Renews lines (with_real_ip whole p prr s cf [])
  unfolding with_real_ip
  alone-Renews r = simp (r, received-lines) (refl, not_empty lines _ _)

  left-lines :
      (new : List ℕ)
      → NewLines (length before) prr s cf lines new
      → cf.with_x_forwarded_for ≡ false
      → new ≡ lines
  left-lines new (as_received f) t = refl
  left-lines new (begun f e) t = cc (f, t)
  left-lines new (cut_short upto lost f e x split) t = cc (f, t)

  hbuf-Renews :
      (new : List ℕ)
      → NewLines (length before) prr s cf lines new
      → is_changed prr cf ≡ true
      → Renews new (with_real_ip whole p prr s cf (if cf.with_x_forwarded_for then new else []))
  hbuf-Renews new n c = elim (Bool-cases cf.with_x_forwarded_for) [
    | inl f ↦ simp f (behind-Renews new (new-some new n f))
    | inr f ↦
        let r : (cf.with_x_real_ip && not prr.x_real_ip_exist) ≡ true = ground (arith, c, f) in
        simp (f, left-lines new n f) (alone-Renews r)
  ]

sub_64_zero : (n : ℕ) → sub_64 n 0 ≡ n
unfolding sub_64
sub_64_zero n = ground arith

-- The header and the payload go out in one piece or in two: it makes no difference.
hbuf-forwards :
    (hbuf payload : List ℕ) (s : Frontend)
    → s.has_backend ≡ true
    → forward_hbuf hbuf payload s ≡ record s {
      forwarded = s.forwarded ++ ((hbuf ++ crlf) ++ payload);
      content_length = sub_64 s.content_length (length payload);
    }
unfolding forward_hbuf forward_payload forward_to_backend
hbuf-forwards hbuf [] s b = rw (b, sub_64_zero s.content_length, append-nil (hbuf ++ crlf)) refl
hbuf-forwards hbuf (x ∷ payload) s b =
    let room = leb (length (x ∷ payload)) (hbuf_size - length (hbuf ++ crlf)) in
    elim (Bool-cases room) [
      | inl e ↦ rw (b, e) refl
      | inr e ↦ rw (b, e, ← append_assoc s.forwarded (hbuf ++ crlf) (x ∷ payload)) refl
    ]

forwards_hbuf :
    (buf : List ℕ) (p : Parser) (prr : ParseReqResult) (s : Frontend) (cf : Conf) (h : List ℕ)
    → s.matched_app ≡ some cf
    → s.has_backend ≡ true
    → with_forwarded_for buf p prr s cf ≡ some h
    → is_empty (with_real_ip buf p prr s cf h) ≡ false
    → a_complete_req buf p prr s
      ≡ some (record s {
        forwarded = s.forwarded ++ ((with_real_ip buf p prr s cf h ++ crlf) ++ payload_of buf prr);
        content_length = sub_64 s.content_length (length (payload_of buf prr));
      })
unfolding a_complete_req complete_for forward_req
forwards_hbuf buf p prr s cf h m b e full =
    ap (complete_for buf p prr s) m
    ∙ ap (forward_req buf p (payload_of buf prr) s) (ap (built (with_real_ip buf p prr s cf)) e)
    ∙ rw full (ap some (hbuf-forwards (with_real_ip buf p prr s cf h) (payload_of buf prr) s b))

-- A request lies in the received data, and its app asks for a header that it does not have, or continues
-- one. Then the backend is sent the header lines as they have become, the line `X-Real-IP` if the app asks
-- for it and the request has none, the empty line, and the payload that was received with it, whether or not
-- they fit in the buffer together; the missing length of the body becomes less by that payload, and nothing
-- else changes.
pub complete-forwards :
    (before lines behind new : List ℕ) (p : Parser) (prr : ParseReqResult) (s : Frontend)
    (cf : Conf)
    → p.req_start ≡ some (length before)
    → p.req_end ≡ some (length before + length lines)
    → NewLines (length before) prr s cf lines new
    → s.matched_app ≡ some cf
    → s.has_backend ≡ true
    → is_changed prr cf ≡ true
    → let payload = payload_of (before ++ (lines ++ behind)) prr in
      a_complete_req (before ++ (lines ++ behind)) p prr s
      ≡ some (record s {
        forwarded = s.forwarded ++ (((new ++ new_real_ip prr s cf) ++ crlf) ++ payload);
        content_length = sub_64 s.content_length (length payload);
      })
complete-forwards before lines behind new p prr s cf starts ends n m b c =
    let buf = before ++ (lines ++ behind) in
    let copied = copied-new before lines behind p prr s cf starts ends new n in
    let (same, full) = hbuf-Renews before lines behind p prr s cf starts ends new n c in
    forwards_hbuf buf p prr s cf _ m b copied full
    ∙ ap
        (λ h. some (record s {
          forwarded = s.forwarded ++ (h ++ payload_of buf prr);
          content_length = sub_64 s.content_length (length (payload_of buf prr));
        }))
        same
