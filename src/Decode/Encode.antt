-- ===== src/Decode/Encode.antt =====
-- src/http.cpp, `http::url_decode` on strings that are encoded.
use niubix.Base.{
  ℕ, ◌+◌, ◌*◌, ◌/◌, ◌%◌, ◌<◌, ltb, List, [], ◌∷◌, if◌then◌else◌, get_or, ◌≡◌, refl, length, true,
}
use niubix.Decode.{isxdigit, digit, htoi, url_decode}
use niubix.Decode.Inplace.{decode, url_decode-decode}
use native.Mathlib.Omega.{arith}

-- The escapes of a byte: `%` and its two digits, in small letters.
hex_digit : ℕ → ℕ
hex_digit d = if ltb d 10 then 48 + d else 87 + d

-- Every byte written as an escape.
pub encode : List ℕ → List ℕ
encode [] = []
encode (b ∷ bs) = 37 ∷ hex_digit (b / 16) ∷ hex_digit (b % 16) ∷ encode bs

abbrev pub AreBytes : List ℕ → Type 0
AreBytes [] = Unit {0}
AreBytes (b ∷ bs) = (b < 256) × AreBytes bs

hex_digit-digit : (d : ℕ) → d < 16 → digit (hex_digit d) ≡ d
unfolding hex_digit
hex_digit-digit d h = ground arith

hex_digit-isxdigit : (d : ℕ) → d < 16 → isxdigit (hex_digit d) ≡ true
unfolding hex_digit
hex_digit-isxdigit d h = ground arith

decode-encode : (bs : List ℕ) → AreBytes bs → decode (encode bs) ≡ bs
unfolding decode encode htoi
decode-encode [] h = refl
decode-encode (b ∷ bs) (l, h) =
    let high : b / 16 < 16 = omega arith in
    let low : b % 16 < 16 = omega arith in
    let sum : b / 16 * 16 + b % 16 ≡ b = omega arith in
    rw
      (
        hex_digit-isxdigit (b / 16) high,
        hex_digit-isxdigit (b % 16) low,
        hex_digit-digit (b / 16) high,
        hex_digit-digit (b % 16) low,
        sum,
        decode-encode bs h,
      )
      refl

-- If the buffer starts with the escapes of some bytes and has a byte behind them, `url_decode` returns
-- how many bytes they are and leaves them at the start of the buffer, with a zero behind them.
pub url_decode-encode :
    (buf bs : List ℕ)
    → AreBytes bs
    → length (encode bs) < length buf
    → ((k : ℕ) → k < length (encode bs) → get_or buf k 0 ≡ get_or (encode bs) k 0)
    → let (buf', n) = url_decode buf (length (encode bs)) in
      (n ≡ length bs)
      × (get_or buf' n 0 ≡ 0)
      × ((j : ℕ) → j < length bs → get_or buf' j 0 ≡ get_or bs j 0)
url_decode-encode buf bs bytes h held =
    let (n, z, same) = url_decode-decode buf (encode bs) h held in
    let e = decode-encode bs bytes in (rw e at n, z, rw e at same)
