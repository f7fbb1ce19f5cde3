-- ===== src/Decode/Tests.antt =====
-- Strings on which `url_decode` runs.
use niubix.Base.{ℕ, ◌<◌, List, [], ◌∷◌, ◌++◌, ◌≡◌, refl, length, get_or, get_or-append_left}
use niubix.Decode.{url_decode, url_loop, htoi}
use niubix.Decode.Inplace.{decode, url_decode-decode}
use native.Mathlib.Omega.{arith}

-- `a+%4a%`, with a byte behind it.
abbrev text : List ℕ
text = 97 ∷ 43 ∷ 37 ∷ 52 ∷ 97 ∷ 37 ∷ []

text_decoded : url_decode (text ++ 7 ∷ []) 6 ≡ (97 ∷ 32 ∷ 74 ∷ 37 ∷ 0 ∷ 37 ∷ 7 ∷ [], 4)
unfolding url_decode url_loop htoi
text_decoded = refl

text_held : (k : ℕ) → k < length text → get_or (text ++ 7 ∷ []) k 0 ≡ get_or text k 0
text_held k h = get_or-append_left text (7 ∷ []) k 0 h

url_decode-decode_example :
    let (buf, n) = url_decode (text ++ 7 ∷ []) 6 in
    (n ≡ length (decode text))
    × (get_or buf n 0 ≡ 0)
    × ((j : ℕ) → j < length (decode text) → get_or buf j 0 ≡ get_or (decode text) j 0)
url_decode-decode_example = url_decode-decode (text ++ 7 ∷ []) text (omega arith) text_held
