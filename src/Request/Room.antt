-- ===== src/Request/Room.antt =====
-- `hbuf`, the array of `a_complete_req`, has room for what is copied into it.
use niubix.Base.{
  ℕ, zero, suc, ◌+◌, ◌-◌, ◌≤◌, ◌<◌, ◌≡◌, ap, ◌∙◌, subst, not, ◌&&◌, List, [], ◌∷◌, ◌++◌, Option,
  none, some, length, length-append, Bool-cases, inl, inr, take, drop,
}
use niubix.Parser.{Parser, index}
use niubix.Request.State.{Conf, Frontend, ParseReqResult, slice, is_null, is_empty}
use niubix.Request.Complete.{
  crlf, x_real_ip_text, x_forwarded_for_text, addr_len, max_full_req_len, hbuf_size, received,
  can_copy, built, with_forwarded_for, with_real_ip, the_hbuf,
}
use niubix.Request.Rewrite.{added}
use native.Mathlib.Omega.{arith}

length-take_le : (n : ℕ) (xs : List ℕ) → length (take n xs) ≤ n
length-take_le zero xs = omega arith
length-take_le (suc n) [] = omega arith
length-take_le (suc n) (x ∷ xs) = omega (arith, length-take_le n xs)

length-added : (text value : List ℕ) → length (added text value) ≡ length text + (length value + 2)
length-added text value =
    length-append text (value ++ crlf) ∙ ap (λ n. length text + n) (length-append value crlf)

-- The lengths of what is in `hbuf` behind the first `if`, if it is there.
abbrev CopyFits : Option (List ℕ) → Type 0
CopyFits none = Unit {0}
CopyFits (some h) = length h ≤ 8254

copied-CopyFits :
    (buf : List ℕ) (p : Parser) (prr : ParseReqResult) (s : Frontend) (cf : Conf)
    → index p.req_end + 2 ≤ index p.req_start + max_full_req_len
    → index prr.xff_end ≤ index p.req_end
    → length s.local_addr < addr_len
    → length s.remote_addr < addr_len
    → CopyFits (with_forwarded_for buf p prr s cf)
unfolding with_forwarded_for
copied-CopyFits buf p prr s cf short inside l r =
    let all = received buf p in
    let part = slice buf (index p.req_start) (index prr.xff_end) in
    let all_le =
      length-take_le (index p.req_end - index p.req_start) (drop (index p.req_start) buf) in
    let part_le =
      length-take_le (index prr.xff_end - index p.req_start) (drop (index p.req_start) buf) in
    let new = length-added x_forwarded_for_text s.remote_addr in
    let more = length-added (44 ∷ 32 ∷ []) s.local_addr in
    elim (Bool-cases cf.with_x_forwarded_for) [
      | inr f ↦ simp f (omega arith)
      | inl f ↦ elim (Bool-cases (is_null prr.xff_start)) [
        | inl n ↦
            simp (f, n)
              (omega (
                arith,
                length-append all (added x_forwarded_for_text s.remote_addr),
                new,
                all_le,
                short,
                r,
              ))
        | inr n ↦ elim (Bool-cases (can_copy p prr)) [
          | inr o ↦ simp (f, n, o) tt
          | inl o ↦
              simp (f, n, o)
                (omega (
                  arith,
                  length-append part (added (44 ∷ 32 ∷ []) s.local_addr),
                  more,
                  part_le,
                  short,
                  inside,
                  l,
                ))
        ]
      ]
    ]

-- What the second `if` adds.
real_ip-fits :
    (buf : List ℕ) (p : Parser) (prr : ParseReqResult) (s : Frontend) (cf : Conf) (h : List ℕ)
    → index p.req_end + 2 ≤ index p.req_start + max_full_req_len
    → length s.remote_addr < addr_len
    → length h ≤ 8254
    → length (with_real_ip buf p prr s cf h) ≤ 8312
unfolding with_real_ip
real_ip-fits buf p prr s cf h short r le =
    let all = received buf p in
    let new = added x_real_ip_text s.remote_addr in
    let all_le =
      length-take_le (index p.req_end - index p.req_start) (drop (index p.req_start) buf) in
    let new_le = length-added x_real_ip_text s.remote_addr in
    elim (Bool-cases (cf.with_x_real_ip && not prr.x_real_ip_exist)) [
      | inr i ↦ simp i (omega (arith, le))
      | inl i ↦ elim (Bool-cases (is_empty h)) [
        | inl e ↦ simp (i, e) (omega (arith, length-append all new, new_le, all_le, short, r))
        | inr e ↦ simp (i, e) (omega (arith, length-append h new, new_le, le, r))
      ]
    ]

-- And behind the second.
abbrev BuiltFits : Option (List ℕ) → Type 0
BuiltFits none = Unit {0}
BuiltFits (some h) = length h ≤ 8312

built-fits :
    (buf : List ℕ) (p : Parser) (prr : ParseReqResult) (s : Frontend) (cf : Conf)
    → index p.req_end + 2 ≤ index p.req_start + max_full_req_len
    → length s.remote_addr < addr_len
    → (o : Option (List ℕ)) → CopyFits o
    → BuiltFits (built (with_real_ip buf p prr s cf) o)
built-fits buf p prr s cf short r none c = tt
built-fits buf p prr s cf short r (some h) c = real_ip-fits buf p prr s cf h short r c

-- If the headers are those of a request that was not refused for its length, `xff_end` is not behind them, and
-- the addresses fit in their arrays, then the header that `a_complete_req` builds fits in `hbuf` with its empty
-- line, whatever the app asks for, provided that no negative length is copied.
pub hbuf-fits :
    (buf : List ℕ) (p : Parser) (prr : ParseReqResult) (s : Frontend) (cf : Conf) (hbuf : List ℕ)
    → index p.req_end + 2 ≤ index p.req_start + max_full_req_len
    → index prr.xff_end ≤ index p.req_end
    → length s.local_addr < addr_len
    → length s.remote_addr < addr_len
    → the_hbuf buf p prr s cf ≡ some hbuf
    → length (hbuf ++ crlf) ≤ hbuf_size
hbuf-fits buf p prr s cf hbuf short inside l r e =
    let copied = copied-CopyFits buf p prr s cf short inside l r in
    let built = built-fits buf p prr s cf short r (with_forwarded_for buf p prr s cf) copied in
    let fits : length hbuf ≤ 8312 = subst BuiltFits e built in
    omega (arith, length-append hbuf crlf, fits)
