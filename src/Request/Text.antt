-- ===== src/Request/Text.antt =====
-- What the code uses of the C library on strings: `strncasecmp`, `memchr` and `strtoll`.
use niubix.Base.{
  ℕ, ◌+◌, ◌-◌, ◌*◌, ◌==◌, ◌^◌, Bool, true, false, ◌&&◌, ◌||◌, List, [], ◌∷◌, leb, if◌then◌else◌,
}
use niubix.Base.Int.{ℤ, pos, negsuc}

unfoldable pub to_lower : ℕ → ℕ
to_lower c = if leb 65 c && leb c 90 then c + 32 else c

-- `strncasecmp` of strings of one length, and 0.
unfoldable pub same_text : List ℕ → List ℕ → Bool
same_text [] [] = true
same_text (a ∷ xs) (b ∷ ys) = (to_lower a == to_lower b) && same_text xs ys
same_text _ _ = false

-- The bytes before the first `sep`: `memchr`, and what is in front of its result.
unfoldable pub before : ℕ → List ℕ → List ℕ
before sep [] = []
before sep (b ∷ bytes) = if b == sep then [] else b ∷ before sep bytes

unfoldable pub is_digit : ℕ → Bool
is_digit c = leb 48 c && leb c 57

unfoldable pub is_space : ℕ → Bool
is_space c = (c == 32) || (leb 9 c && leb c 13)

abbrev pub llong_max : ℕ
llong_max = 2 ^ 63 - 1

-- The number that the leading digits write, behind those that wrote `n`.
unfoldable pub digits_value : ℕ → List ℕ → ℕ
digits_value n [] = n
digits_value n (c ∷ chars) =
    let rest = digits_value (n * 10 + (c - 48)) chars in if is_digit c then rest else n

-- `strtoll(s, nullptr, 10)` and whether it sets `errno` to `ERANGE`.
abbrev pub clamp_pos : ℕ → ℤ × Bool
clamp_pos n = if leb n llong_max then (pos n, false) else (pos llong_max, true)

abbrev pub clamp_neg : ℕ → ℤ × Bool
clamp_neg n =
    if n == 0
    then (pos 0, false)
    else if leb n (2 ^ 63)
    then (negsuc (n - 1), false)
    else (negsuc llong_max, true)

unfoldable pub strtoll : List ℕ → ℤ × Bool
strtoll [] = (pos 0, false)
strtoll (c ∷ chars) =
    let rest = strtoll chars in
    if is_space c
    then rest
    else if c == 45
    then clamp_neg (digits_value 0 chars)
    else if c == 43
    then clamp_pos (digits_value 0 chars)
    else clamp_pos (digits_value 0 (c ∷ chars))

-- A `long long` that is stored as a `uint64_t`.
unfoldable pub to_uint64 : ℤ → ℕ
to_uint64 (pos n) = n
to_uint64 (negsuc n) = 2 ^ 64 - 1 - n
