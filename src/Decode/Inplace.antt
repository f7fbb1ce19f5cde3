-- ===== src/Decode/Inplace.antt =====
-- src/http.cpp, `http::url_decode` against decoding into a new string.
use niubix.Base.{
  ℕ, zero, suc, ◌+◌, ◌-◌, ◌≤◌, ◌<◌, Bool, ◌&&◌, List, [], ◌∷◌, leb, ◌==◌, if◌then◌else◌, get_or,
  set, ◌≡◌, refl, ◌∙◌, ap, length, length-set, get_or-set_self, get_or-set_ne, Bool-cases, true,
  false, inl, inr,
}
use niubix.Decode.{isxdigit, htoi, plain, url_loop, url_decode}
use native.Mathlib.Omega.{arith}

abbrev is_escape : ℕ → ℕ → ℕ → Bool
is_escape c a b = (c == 37) && isxdigit a && isxdigit b

-- Percent-decoding: `%` and two hexadecimal digits stand for a byte, `+` for a space.
unfoldable pub decode : List ℕ → List ℕ
decode [] = []
decode (c ∷ []) = plain c ∷ []
decode (c ∷ a ∷ []) = plain c ∷ plain a ∷ []
decode (c ∷ a ∷ b ∷ rest) =
    if is_escape c a b then htoi a b ∷ decode rest else plain c ∷ decode (a ∷ b ∷ rest)

-- The part of the buffer that is still to be read.
abbrev Holds : List ℕ → ℕ → List ℕ → Type 0
Holds buf i src = (k : ℕ) → k < length src → get_or buf (i + k) 0 ≡ get_or src k 0

-- What a run from `buf` leaves, when it writes `out` from `dest` on.
abbrev Written : List ℕ → ℕ → List ℕ → List ℕ × ℕ → Type 0
Written buf dest out (buf', n) =
    (n ≡ dest + length out)
    × (get_or buf' n 0 ≡ 0)
    × ((j : ℕ) → j < length out → get_or buf' (dest + j) 0 ≡ get_or out j 0)
    × ((j : ℕ) → j < dest → get_or buf' j 0 ≡ get_or buf j 0)

written_first :
    (buf : List ℕ) (dest v : ℕ) (out : List ℕ)
    → get_or buf dest 0 ≡ v
    → ((j : ℕ) → j < length out → get_or buf (suc dest + j) 0 ≡ get_or out j 0)
    → (j : ℕ) → j < suc (length out)
    → get_or buf (dest + j) 0 ≡ get_or (v ∷ out) j 0
written_first buf dest v out first new zero p = ap (λ j. get_or buf j 0) (omega arith) ∙ first
written_first buf dest v out first new (suc j) p =
    ap (λ i. get_or buf i 0) (omega arith) ∙ new j (omega (arith, p))

Written-cons :
    (buf : List ℕ) (dest v : ℕ) (out : List ℕ) (r : List ℕ × ℕ)
    → dest < length buf
    → Written (set buf dest v) (suc dest) out r
    → Written buf dest (v ∷ out) r
Written-cons buf dest v out (buf', n) h (e, z, new, old) =
    let first : get_or buf' dest 0 ≡ v = old dest (omega arith) ∙ get_or-set_self buf dest v 0 h in
    (
      omega (arith, e),
      z,
      written_first buf' dest v out first new,
      λ j p. old j (omega (arith, p)) ∙ get_or-set_ne buf dest j v 0 (λ q. omega (arith, p, q)),
    )

Holds-set :
    (buf : List ℕ) (i dest v : ℕ) (src : List ℕ)
    → dest < i
    → Holds buf i src
    → Holds (set buf dest v) i src
Holds-set buf i dest v src h b k p =
    get_or-set_ne buf dest (i + k) v 0 (λ q. omega (arith, h, q)) ∙ b k p

Holds-tail : (buf : List ℕ) (i c : ℕ) (src : List ℕ) → Holds buf i (c ∷ src) → Holds buf (i + 1) src
Holds-tail buf i c src h k p = ap (λ j. get_or buf j 0) (omega arith) ∙ h (suc k) (omega (arith, p))

-- The test of a round for an escape.
abbrev escape_at : ℕ → List ℕ → ℕ → Bool
escape_at len buf i =
    (get_or buf i 0 == 37)
    && leb 2 len
    && isxdigit (get_or buf (i + 1) 0)
    && isxdigit (get_or buf (i + 2) 0)

few-escape : (a b c : Bool) → (a && false && b && c) ≡ false
few-escape true b c = refl
few-escape false b c = refl

url_loop-one :
    (k len : ℕ) (buf : List ℕ) (i dest : ℕ)
    → escape_at len buf i ≡ false
    → url_loop (suc k) (suc len) buf i dest
      ≡ url_loop k len (set buf dest (plain (get_or buf i 0))) (i + 1) (suc dest)
unfolding url_loop
url_loop-one k len buf i dest h = rw h refl

url_loop-escaped :
    (k len : ℕ) (buf : List ℕ) (i dest : ℕ)
    → escape_at len buf i ≡ true
    → url_loop (suc k) (suc len) buf i dest
      ≡ url_loop k
          (len - 2)
          (set buf dest (htoi (get_or buf (i + 1) 0) (get_or buf (i + 2) 0)))
          (i + 3)
          (suc dest)
unfolding url_loop
url_loop-escaped k len buf i dest h = rw h refl

url_loop-end :
    (k : ℕ) (buf : List ℕ) (i dest : ℕ) → url_loop k 0 buf i dest ≡ (set buf dest 0, dest)
unfolding url_loop
url_loop-end zero buf i dest = refl
url_loop-end (suc k) buf i dest = refl

-- What the loop is to do with any buffer that holds `src`, in `k` rounds.
abbrev Decodes : ℕ → List ℕ → Type 0
Decodes k src =
    (buf : List ℕ) (i dest : ℕ)
    → dest ≤ i
    → i + length src < length buf
    → Holds buf i src
    → Written buf dest (decode src) (url_loop k (length src) buf i dest)

Decodes-end : (k : ℕ) → Decodes k []
unfolding decode
Decodes-end k buf i dest a b h = rw (url_loop-end k buf i dest) (
  omega arith,
  get_or-set_self buf dest 0 0 (omega (arith, a, b)),
  λ j p. absurd (omega (arith, p)),
  λ j p. get_or-set_ne buf dest j 0 0 (λ q. omega (arith, p, q)),
)

-- A round that takes one character.
one_round :
    (k c : ℕ) (src : List ℕ) (buf : List ℕ) (i dest : ℕ)
    → Decodes k src
    → dest ≤ i
    → i + length (c ∷ src) < length buf
    → Holds buf i (c ∷ src)
    → escape_at (length src) buf i ≡ false
    → Written buf dest (plain c ∷ decode src) (url_loop (suc k) (suc (length src)) buf i dest)
one_round k c src buf i dest ih a b h e =
    let here : get_or buf i 0 ≡ c = ap (λ j. get_or buf j 0) (omega arith) ∙ h 0 (omega arith) in
    let rest =
      Holds-set buf (i + 1) dest (plain c) src (omega (arith, a)) (Holds-tail buf i c src h) in
    rw (url_loop-one k (length src) buf i dest e, here)
      (Written-cons buf dest (plain c) (decode src) _ (omega (arith, a, b)) (
        ih (set buf dest (plain c)) (i + 1) (suc dest) (omega (arith, a))
          (omega (arith, b, length-set buf dest (plain c))) rest))

all_but_true : (a b c : Bool) → (a && true && b && c) ≡ (a && b && c)
all_but_true true b c = refl
all_but_true false b c = refl

leb_two : (n : ℕ) → leb 2 (suc (suc n)) ≡ true
leb_two n = ground arith

escape_at_lem :
    (buf : List ℕ) (i c a b : ℕ) (rest : List ℕ)
    → Holds buf i (c ∷ a ∷ b ∷ rest)
    → escape_at (length (a ∷ b ∷ rest)) buf i ≡ is_escape c a b
escape_at_lem buf i c a b rest h =
    let here : get_or buf i 0 ≡ c = ap (λ j. get_or buf j 0) (omega arith) ∙ h 0 (omega arith) in
    rw (here, h 1 (omega arith), h 2 (omega arith), leb_two (length rest))
      (all_but_true (c == 37) (isxdigit a) (isxdigit b))

escape_round :
    (k c a b : ℕ) (rest : List ℕ) (buf : List ℕ) (i dest : ℕ)
    → Decodes k rest
    → dest ≤ i
    → i + length (c ∷ a ∷ b ∷ rest) < length buf
    → Holds buf i (c ∷ a ∷ b ∷ rest)
    → is_escape c a b ≡ true
    → Written buf dest
        (htoi a b ∷ decode rest)
        (url_loop (suc k) (suc (length (a ∷ b ∷ rest))) buf i dest)
escape_round k c a b rest buf i dest ih p q h e =
    let v = htoi a b in
    let behind : Holds buf (i + 3) rest =
      λ j r. ap (λ m. get_or buf m 0) (omega arith) ∙ h (suc (suc (suc j))) (omega (arith, r)) in
    let left : suc (suc (length rest)) - 2 ≡ length rest = omega arith in
    rw
      (
        url_loop-escaped k (length (a ∷ b ∷ rest)) buf i dest
            (escape_at_lem buf i c a b rest h ∙ e),
        h 1 (omega arith),
        h 2 (omega arith),
        left,
      )
      (Written-cons buf dest v (decode rest) _ (omega (arith, p, q)) (
        ih (set buf dest v) (i + 3) (suc dest) (omega (arith, p))
          (omega (arith, q, length-set buf dest v))
          (Holds-set buf (i + 3) dest v rest (omega (arith, p)) behind)))

Decodes-all : (k : ℕ) (src : List ℕ) → length src ≤ k → Decodes k src
unfolding decode
Decodes-all k [] l = Decodes-end k
Decodes-all zero (c ∷ src) l = absurd (omega (arith, l))
Decodes-all (suc k) (c ∷ []) l = λ buf i dest p q h.
    one_round k c [] buf i dest (Decodes-end k) p q h (few-escape (get_or buf i 0 == 37) _ _)
Decodes-all (suc k) (c ∷ a ∷ []) l = λ buf i dest p q h.
    one_round k c (a ∷ []) buf i dest (Decodes-all k (a ∷ []) (omega (arith, l))) p q h
      (few-escape (get_or buf i 0 == 37) _ _)
Decodes-all (suc k) (c ∷ a ∷ b ∷ rest) l = λ buf i dest p q h. elim (Bool-cases (is_escape c a b)) [
  | inl e ↦
      rw e (escape_round k c a b rest buf i dest (Decodes-all k rest (omega (arith, l))) p q h e)
  | inr e ↦ rw e (
      one_round k c (a ∷ b ∷ rest) buf i dest (Decodes-all k (a ∷ b ∷ rest) (omega (arith, l))) p q
        h (escape_at_lem buf i c a b rest h ∙ e))
]

-- If the buffer starts with `src` and has a byte behind it, `url_decode` returns the length of the
-- decoded `src` and leaves it at the start of the buffer, with a zero behind it.
pub url_decode-decode :
    (buf src : List ℕ)
    → length src < length buf
    → ((k : ℕ) → k < length src → get_or buf k 0 ≡ get_or src k 0)
    → let (buf', n) = url_decode buf (length src) in
      (n ≡ length (decode src))
      × (get_or buf' n 0 ≡ 0)
      × ((j : ℕ) → j < length (decode src) → get_or buf' j 0 ≡ get_or (decode src) j 0)
unfolding url_decode
url_decode-decode buf src h held =
    let at_start : Holds buf 0 src = λ k p. ap (λ j. get_or buf j 0) (omega arith) ∙ held k p in
    let (n, z, new, old) =
      Decodes-all (length src) src (omega arith) buf 0 0 (omega arith) (omega (arith, h))
        at_start in
    (
      omega (arith, n),
      z,
      λ j p.
          let same : j ≡ 0 + j = omega arith in
          ap (λ i. get_or (url_decode buf (length src)).0 i 0) same ∙ new j p,
    )
