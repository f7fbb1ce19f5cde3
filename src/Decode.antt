-- ===== src/Decode.antt =====
-- src/http.cpp, `http::url_decode` and the `htoi` that it uses. The string is decoded in place: the
-- buffer is a list of bytes, `data_at` the index of the next one to read, `dest` that of the next one to
-- write.
pub mod Inplace
pub mod Encode
mod Tests
use niubix.Base.{
  ℕ, zero, suc, ◌+◌, ◌-◌, ◌*◌, Bool, ◌&&◌, ◌||◌, List, [], ◌∷◌, leb, ◌==◌, if◌then◌else◌, get_or,
  set,
}

-- `isxdigit`, of the C library.
abbrev pub isxdigit : ℕ → Bool
isxdigit c = (leb 48 c && leb c 57) || (leb 65 c && leb c 70) || (leb 97 c && leb c 102)

-- A digit, where `isupper` and `tolower` lower the capitals.
abbrev pub digit : ℕ → ℕ
digit s =
    let c = if leb 65 s && leb s 90 then s + 32 else s in
    if leb 48 c && leb c 57 then c - 48 else c - 97 + 10

pub htoi : ℕ → ℕ → ℕ
htoi s0 s1 = digit s0 * 16 + digit s1

-- What is written for a character that starts no escape.
abbrev pub plain : ℕ → ℕ
plain c = if c == 43 then 32 else c

-- The `while`, with what is behind it, for `len` characters left; each round takes one at least, so
-- that many rounds are enough.
pub url_loop : ℕ → ℕ → List ℕ → ℕ → ℕ → List ℕ × ℕ
url_loop k zero buf data_at dest = (set buf dest 0, dest)
url_loop zero (suc len) buf data_at dest = (buf, dest)
url_loop (suc k) (suc len) buf data_at dest =
    let c = get_or buf data_at 0 in
    let a = get_or buf (data_at + 1) 0 in
    let b = get_or buf (data_at + 2) 0 in
    let escaped = url_loop k (len - 2) (set buf dest (htoi a b)) (data_at + 3) (suc dest) in
    let one = url_loop k len (set buf dest (plain c)) (data_at + 1) (suc dest) in
    if (c == 37) && leb 2 len && isxdigit a && isxdigit b then escaped else one

-- `str` is the start of the buffer; the length of the decoded string is returned.
pub url_decode : List ℕ → ℕ → List ℕ × ℕ
url_decode buf len = url_loop len len buf 0 0
