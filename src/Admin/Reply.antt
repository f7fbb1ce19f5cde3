-- ===== src/Admin/Reply.antt =====
-- What the client of the administrator's connection reads from a reply.
use niubix.Base.{
  ℕ, zero, suc, ◌+◌, ◌-◌, ◌*◌, ◌==◌, ◌&&◌, ◌/◌, ◌%◌, ◌<◌, ◌≤◌, ◌≡◌, refl, ap, ◌∙◌, ◌⊎◌, inl, inr,
  true, false, List, [], ◌∷◌, ◌++◌, Bool-cases, length-take, leb→le, none, ltb, leb, length, take,
}
use niubix.Request.Text.{is_digit, digits_value}
use niubix.Http.Framing.{stated_length, body, after, strip, found_or}
use niubix.Admin.{Env, Json, Admin, digits, decimal, reply_text, response_json}
use native.Mathlib.Omega.{arith}
use mathlib.Core.List.{append_assoc}

-- Every byte is a digit.
abbrev AreDigits : List ℕ → Type 0
AreDigits [] = Unit {0}
AreDigits (c ∷ chars) = (48 ≤ c) × (c ≤ 57) × AreDigits chars

AreDigits-snoc : (ds : List ℕ) (d : ℕ) → AreDigits ds → 48 ≤ d → d ≤ 57 → AreDigits (ds ++ d ∷ [])
AreDigits-snoc [] d h a b = (a, b, tt)
AreDigits-snoc (c ∷ ds) d (a', b', h) a b = (a', b', AreDigits-snoc ds d h a b)

digits-AreDigits : (k n : ℕ) → AreDigits (digits k n)
unfolding digits
digits-AreDigits zero n = tt
digits-AreDigits (suc k) n = elim (Bool-cases (ltb n 10)) [
  | inl e ↦ rw e (omega arith, ground (arith, e), tt)
  | inr e ↦ rw e (
      AreDigits-snoc (digits k (n / 10)) (48 + n % 10) (digits-AreDigits k (n / 10)) (omega arith)
        (omega arith))
]

value_step :
    (v n m : ℕ) (rest : List ℕ)
    → n < 10
    → v * 10 + n ≡ m
    → digits_value v ((48 + n) ∷ rest) ≡ digits_value m rest
unfolding digits_value is_digit
value_step v n m rest h s =
    let e : v * 10 + (48 + n - 48) ≡ m = omega arith in
    let d : (leb 48 (48 + n) && leb (48 + n) 57) ≡ true = ground (arith, h) in rw (d, e) refl

-- A number that was printed is read back.
digits_value-digits :
    (k n : ℕ) (rest : List ℕ) → n < k → digits_value 0 (digits k n ++ rest) ≡ digits_value n rest
unfolding digits
digits_value-digits zero n rest h = absurd (omega arith)
digits_value-digits (suc k) n rest h = elim (Bool-cases (ltb n 10)) [
  | inl e ↦ rw e (value_step 0 n n rest (ground (arith, e)) (omega arith))
  | inr e ↦
      rw (e, append_assoc (digits k (n / 10)) ((48 + n % 10) ∷ []) rest)
        (digits_value-digits k (n / 10) ((48 + n % 10) ∷ rest) (ground (arith, e))
          ∙ value_step (n / 10) (n % 10) n rest (omega arith) (omega arith))
]

strip-other :
    (a c : ℕ) (pattern text : List ℕ) → (a == c) ≡ false → strip (a ∷ pattern) (c ∷ text) ≡ none
unfolding strip
strip-other a c pattern text e = rw e refl

after-skip :
    (pattern : List ℕ) (c : ℕ) (text : List ℕ)
    → strip pattern (c ∷ text) ≡ none
    → after pattern (c ∷ text) ≡ after pattern text
unfolding after
after-skip pattern c text h = ap (λ o. found_or o (after pattern text)) h

after-digits :
    (pattern ds rest : List ℕ)
    → AreDigits ds
    → after (13 ∷ pattern) (ds ++ rest) ≡ after (13 ∷ pattern) rest
after-digits pattern [] rest h = refl
after-digits pattern (d ∷ ds) rest (a, b, h) =
    after-skip (13 ∷ pattern) d (ds ++ rest)
      (strip-other 13 d pattern (ds ++ rest) (ground (arith, a)))
    ∙ after-digits pattern ds rest h

reply-stated_length : (text : List ℕ) → stated_length (reply_text text) ≡ length text
unfolding stated_length reply_text after strip decimal digits_value is_digit
reply-stated_length text = digits_value-digits (suc (length text)) (length text) _ (omega arith)

reply-body : (text : List ℕ) → body (reply_text text) ≡ text
unfolding body reply_text after strip decimal
reply-body text =
    after-digits (10 ∷ 13 ∷ 10 ∷ []) (digits (suc (length text)) (length text)) _
      (digits-AreDigits _ _)

reply-long : (text : List ℕ) → 0 < length (reply_text text)
unfolding reply_text
reply-long text = omega arith

cut-shorter :
    (n : ℕ) (text : List ℕ)
    → n ≤ length (reply_text text)
    → length (take (n - 1) (reply_text text)) < length (reply_text text)
cut-shorter n text h =
    let full : 0 < length (reply_text text) = reply-long text in
    omega (arith, length-take (n - 1) (reply_text text), h, full)

-- What is sent for `text`, by whether the reply fits.
abbrev pub Replied : Env → List ℕ → List ℕ → Type 0
Replied env text reply =
    let whole = reply_text text in
    ((length whole < env.wio_buf_size)
      × (reply ≡ whole)
      × (stated_length reply ≡ length (body reply))
      × (body reply ≡ text))
    ⊎ ((env.wio_buf_size ≤ length whole)
        × (reply ≡ take (env.wio_buf_size - 1) whole)
        × (length reply < length whole))

-- `response_json` sends one text. If the whole reply is shorter than the worker's buffer, it is sent, its header
-- states the length of its body, and the body is the printed object; if not, all but one byte of the buffer is
-- sent, which is less than the whole reply.
pub response_json-reply :
    (env : Env) (resp : Json) (s : Admin)
    → (reply : List ℕ) × ((response_json env resp s).sent ≡ s.sent ++ reply ∷ [])
      × Replied env (env.dump resp) reply
unfolding response_json
response_json-reply env resp s =
    let text = env.dump resp in
    elim (Bool-cases (leb env.wio_buf_size (length (reply_text text)))) [
      | inl e ↦
          let le = leb→le _ _ e in
          rw e (_, refl, inr (le, refl, cut-shorter env.wio_buf_size text le))
      | inr e ↦ rw e (
        reply_text text,
        refl,
        inl (
          ground (arith, e),
          refl,
          rw (reply-body text) (reply-stated_length text),
          reply-body text,
        ),
      )
    ]
