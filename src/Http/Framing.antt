-- ===== src/Http/Framing.antt =====
-- What a client reads from the replies.
use niubix.Base.{
  ℕ, ◌==◌, ◌≡◌, refl, Bool, true, false, not, List, [], ◌∷◌, ◌++◌, Option, none, some,
  if◌then◌else◌, length, drop, same_bytes, codes,
}
use niubix.Request.Text.{is_digit, digits_value, before}
use niubix.Http.Replies.{
  HttpErr, err_200, err_400, err_401, err_403, err_404, err_405, err_407, err_408, err_410, err_411,
  err_413, err_414, err_421, err_422, err_425, err_429, err_500, err_501, err_502, err_503, err_504,
  err_505, err_code, err_msg,
}
use niubix.Http.Reason.{get_reason, find_reason}

-- What follows `pattern` at the start of a text, and what follows its first occurrence.
unfoldable pub strip : List ℕ → List ℕ → Option (List ℕ)
strip [] text = some text
strip (p ∷ pattern) [] = none
strip (p ∷ pattern) (c ∷ text) = let rest = strip pattern text in if p == c then rest else none

abbrev pub found_or : Option (List ℕ) → List ℕ → List ℕ
found_or none rest = rest
found_or (some found) rest = found

unfoldable pub after : List ℕ → List ℕ → List ℕ
after pattern [] = []
after pattern (c ∷ text) = found_or (strip pattern (c ∷ text)) (after pattern text)

-- The parts of a reply: the status line behind the version, the number and the text in it, the length that
-- the header states, and the body.
pub status_line : List ℕ → List ℕ
unfolding before
status_line msg = before 13 (drop 9 msg)

pub status : List ℕ → ℕ
unfolding digits_value is_digit
status msg = digits_value 0 (drop 9 msg)

unfoldable pub stated_length : List ℕ → ℕ
unfolding after strip digits_value is_digit
stated_length msg = digits_value 0 (after (codes "\r\nContent-length: ") msg)

unfoldable pub body : List ℕ → List ℕ
unfolding after strip
body msg = after (codes "\r\n\r\n") msg

pub starts : List ℕ → List ℕ → Bool
unfolding strip
starts pattern text = elim (strip pattern text) as (λ _. Bool) [ none ↦ false | some rest ↦ true ]

-- The replies whose text is not that of `get_reason` for their status.
abbrev pub has_own_reason : HttpErr → Bool
has_own_reason err_400 = true
has_own_reason err_407 = true
has_own_reason err_413 = true
has_own_reason err_502 = true
has_own_reason err_505 = true
has_own_reason _ = false

-- A reply that is whole: its status is that of the table, the stated length is that of the body, the
-- body's title is the status line, and the text of the status is the reason, unless it has its own.
abbrev pub IsFramed : HttpErr → Type 0
IsFramed e =
    (starts (codes "HTTP/1.1 ") (err_msg e) ≡ true)
    × (status (err_msg e) ≡ err_code e)
    × (stated_length (err_msg e) ≡ length (body (err_msg e)))
    × (starts (codes "<html><body><h1>" ++ status_line (err_msg e) ++ codes "</h1>")
          (body (err_msg e))
        ≡ true)
    × (same_bytes (drop 4 (status_line (err_msg e))) (codes (get_reason (err_code e)))
        ≡ not (has_own_reason e))

-- Every reply of the table is whole: a client that reads as many bytes as `Content-length` states has
-- read exactly the body, the status is the one of the code, and it stands in the body too.
pub err_msg-IsFramed : (e : HttpErr) → IsFramed e
unfolding starts strip after status_line status stated_length body before digits_value is_digit
    err_code err_msg same_bytes get_reason find_reason
err_msg-IsFramed err_200 = (refl, refl, refl, refl, refl)
err_msg-IsFramed err_400 = (refl, refl, refl, refl, refl)
err_msg-IsFramed err_401 = (refl, refl, refl, refl, refl)
err_msg-IsFramed err_403 = (refl, refl, refl, refl, refl)
err_msg-IsFramed err_404 = (refl, refl, refl, refl, refl)
err_msg-IsFramed err_405 = (refl, refl, refl, refl, refl)
err_msg-IsFramed err_407 = (refl, refl, refl, refl, refl)
err_msg-IsFramed err_408 = (refl, refl, refl, refl, refl)
err_msg-IsFramed err_410 = (refl, refl, refl, refl, refl)
err_msg-IsFramed err_411 = (refl, refl, refl, refl, refl)
err_msg-IsFramed err_413 = (refl, refl, refl, refl, refl)
err_msg-IsFramed err_414 = (refl, refl, refl, refl, refl)
err_msg-IsFramed err_421 = (refl, refl, refl, refl, refl)
err_msg-IsFramed err_422 = (refl, refl, refl, refl, refl)
err_msg-IsFramed err_425 = (refl, refl, refl, refl, refl)
err_msg-IsFramed err_429 = (refl, refl, refl, refl, refl)
err_msg-IsFramed err_500 = (refl, refl, refl, refl, refl)
err_msg-IsFramed err_501 = (refl, refl, refl, refl, refl)
err_msg-IsFramed err_502 = (refl, refl, refl, refl, refl)
err_msg-IsFramed err_503 = (refl, refl, refl, refl, refl)
err_msg-IsFramed err_504 = (refl, refl, refl, refl, refl)
err_msg-IsFramed err_505 = (refl, refl, refl, refl, refl)
