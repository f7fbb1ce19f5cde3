-- ===== src/Config/Addr.antt =====
-- src/inet_addr.h: `parse_ip_port` and the checks of `parse_v4_addr`.
use niubix.Base.{
  ℕ, suc, ◌+◌, ◌-◌, ◌==◌, ◌^◌, Bool, false, not, ◌&&◌, List, [], ◌∷◌, Option, none, some, ltb, leb,
  if◌then◌else◌, length, take, drop,
}
use niubix.Base.Int.{ℤ, pos, negsuc, ltb_ℤ}
use niubix.Request.Text.{is_space, is_digit, digits_value}

abbrev pub starts_with_digit : List ℕ → Bool
starts_with_digit s = elim s as (λ _. Bool) [ [] ↦ false | c ∷ chars ↦ is_digit c ]

-- `std::stoi`: `none` is an exception, for a string without a number or a number that `int` does not hold.
unfoldable pub positive : List ℕ → Option ℤ
positive s =
    let n = digits_value 0 s in if starts_with_digit s && ltb n (2 ^ 31) then some (pos n) else none

unfoldable pub negative : List ℕ → Option ℤ
negative s =
    let n = digits_value 0 s in
    if starts_with_digit s && leb n (2 ^ 31)
    then some (if n == 0 then pos 0 else negsuc (n - 1))
    else none

unfoldable pub stoi : List ℕ → Option ℤ
stoi [] = none
stoi (c ∷ chars) =
    let rest = stoi chars in
    if is_space c
    then rest
    else if c == 45
    then negative chars
    else if c == 43
    then positive chars
    else positive (c ∷ chars)

-- The index of the first and of the last colon.
unfoldable pub find_colon : ℕ → List ℕ → Option ℕ
find_colon i [] = none
find_colon i (c ∷ chars) = let rest = find_colon (suc i) chars in if c == 58 then some i else rest

unfoldable pub rfind_colon : ℕ → List ℕ → Option ℕ
rfind_colon i [] = none
rfind_colon i (c ∷ chars) = elim (rfind_colon (suc i) chars) as (λ _. Option ℕ) [
  | some k ↦ some k
  | none ↦ if c == 58 then some i else none
]

-- The address and the port on the two sides of the colon at `p`, which is at 0 or not before `least`.
unfoldable pub at_colon : ℕ → List ℕ → Option ℕ → Option (List ℕ × ℤ)
at_colon least addr none = none
at_colon least addr (some p) =
    if ltb 0 p && ltb p least
    then none
    else elim (stoi (drop (p + 1) addr)) as (λ _. Option (List ℕ × ℤ)) [
      | none ↦ none
      | some port ↦ some (take p addr, port)
    ]

abbrev pub is_ipv6 : List ℕ → Bool
is_ipv6 addr = elim addr as (λ _. Bool) [ [] ↦ false | c ∷ chars ↦ c == 91 ]

-- The brackets of an IPv6 address: `addr.substr(1, p - 1)`.
abbrev pub without_first : Option (List ℕ × ℤ) → Option (List ℕ × ℤ)
without_first o = elim o as (λ _. Option (List ℕ × ℤ)) [
  | none ↦ none
  | some r ↦ some (drop 1 r.0, r.1)
]

unfoldable pub parse_ip_port : List ℕ → Option (List ℕ × ℤ)
parse_ip_port addr =
    if ltb (length addr) 2
    then none
    else if is_ipv6 addr
    then without_first (at_colon 2 addr (rfind_colon 0 addr))
    else at_colon 7 addr (find_colon 0 addr)

-- Whether the result is 0; `inet_pton` is not asked for its own.
abbrev pub is_v4 : Option (List ℕ × ℤ) → Bool
is_v4 o = elim o as (λ _. Bool) [
  | none ↦ false
  | some r ↦ ltb 0 (length r.0) && not (ltb_ℤ r.1 (pos 1)) && not (ltb_ℤ (pos 65535) r.1)
]

unfoldable pub parse_v4_addr : List ℕ → Bool
parse_v4_addr addr = is_v4 (at_colon 7 addr (find_colon 0 addr))
