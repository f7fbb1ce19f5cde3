-- ===== src/Request/Complete.antt =====
-- `http_frontend::a_complete_req`: a request whose headers are complete is forwarded, with the headers
-- that the app asks for.
use niubix.Base.{
  ℕ, ◌+◌, ◌-◌, Bool, false, not, ◌&&◌, List, [], ◌∷◌, ◌++◌, Option, none, some, leb, if◌then◌else◌,
  drop, take, length,
}
use niubix.Parser.{Parser, index}
use niubix.Request.State.{
  Conf, Frontend, ParseReqResult, slice, is_null, is_empty, sub_64, forward_to_backend,
}

abbrev pub crlf : List ℕ
crlf = 13 ∷ 10 ∷ []

-- `X-Real-IP: ` and `X-Forwarded-For: `.
abbrev pub x_real_ip_text : List ℕ
x_real_ip_text = 88 ∷ 45 ∷ 82 ∷ 101 ∷ 97 ∷ 108 ∷ 45 ∷ 73 ∷ 80 ∷ 58 ∷ 32 ∷ []

abbrev pub x_forwarded_for_text : List ℕ
x_forwarded_for_text =
    88 ∷ 45 ∷ 70 ∷ 111 ∷ 114 ∷ 119 ∷ 97 ∷ 114 ∷ 100 ∷ 101 ∷ 100 ∷ 45 ∷ 70 ∷ 111 ∷ 114 ∷ 58 ∷ 32 ∷ []

-- INET6_ADDRSTRLEN, and the size of `hbuf`: MAX_FULL_REQ_LEN and `extra_len`.
abbrev pub addr_len : ℕ
addr_len = 46

abbrev pub max_full_req_len : ℕ
max_full_req_len = 8192

abbrev pub hbuf_size : ℕ
hbuf_size = max_full_req_len + (11 + addr_len + 2 + 17 + addr_len + 2)

-- The header lines as received, without the empty line.
abbrev pub received : List ℕ → Parser → List ℕ
received buf p = slice buf (index p.req_start) (index p.req_end)

-- `xff_end` is not null and not in front of the request.
abbrev pub is_behind : Option ℕ → Option ℕ → Bool
is_behind start none = false
is_behind start (some e) = leb (index start) e

abbrev pub can_copy : Parser → ParseReqResult → Bool
can_copy p prr = is_behind p.req_start prr.xff_end

-- What stands in `hbuf` behind the first `if`; `copy_len` is its length. `none` is a `memcpy` whose length is
-- negative, `xff_end - req_start` for an `xff_end` that is null or belongs to an earlier header.
unfoldable pub with_forwarded_for :
    List ℕ → Parser → ParseReqResult → Frontend → Conf → Option (List ℕ)
with_forwarded_for buf p prr s cf =
    if not cf.with_x_forwarded_for
    then some []
    else if is_null prr.xff_start
    then some (received buf p ++ (x_forwarded_for_text ++ (s.remote_addr ++ crlf)))
    else if can_copy p prr
    then some (
        slice buf (index p.req_start) (index prr.xff_end)
        ++ ((44 ∷ 32 ∷ []) ++ (s.local_addr ++ crlf)))
    else none

-- And behind the second.
unfoldable pub with_real_ip : List ℕ → Parser → ParseReqResult → Frontend → Conf → List ℕ → List ℕ
with_real_ip buf p prr s cf hbuf =
    let copied = if is_empty hbuf then received buf p else hbuf in
    if cf.with_x_real_ip && not prr.x_real_ip_exist
    then copied ++ (x_real_ip_text ++ (s.remote_addr ++ crlf))
    else hbuf

-- `forward payload`.
unfoldable pub forward_payload : List ℕ → Frontend → Frontend
forward_payload payload s =
    let s' = forward_to_backend payload s in
    if is_empty payload
    then s
    else record s' { content_length = sub_64 s'.content_length (length payload) }

-- The header was not changed.
unfoldable pub forward_as_is : List ℕ → Parser → List ℕ → Frontend → Frontend
forward_as_is buf p payload s =
    forward_payload payload
      (forward_to_backend (slice buf (index p.req_start) (index p.req_end_with_crlf)) s)

-- The header is sent from `hbuf`, together with the payload if that fits.
unfoldable pub forward_hbuf : List ℕ → List ℕ → Frontend → Frontend
forward_hbuf hbuf payload s =
    let head = hbuf ++ crlf in
    if not (is_empty payload) && leb (length payload) (hbuf_size - length head)
    then forward_to_backend (head ++ payload)
        (record s { content_length = sub_64 s.content_length (length payload) })
    else forward_payload payload (forward_to_backend head s)

-- Behind a copy that was made.
abbrev pub built : (List ℕ → List ℕ) → Option (List ℕ) → Option (List ℕ)
built f none = none
built f (some hbuf) = some (f hbuf)

-- The header in `hbuf`, without its empty line; empty if it is not changed.
abbrev pub the_hbuf : List ℕ → Parser → ParseReqResult → Frontend → Conf → Option (List ℕ)
the_hbuf buf p prr s cf = built (with_real_ip buf p prr s cf) (with_forwarded_for buf p prr s cf)

-- The payload that came with the header.
abbrev pub payload_of : List ℕ → ParseReqResult → List ℕ
payload_of buf prr = take prr.payload_len (drop (index prr.payload) buf)

-- `none` is the `memcpy` of above.
unfoldable pub forward_req : List ℕ → Parser → List ℕ → Frontend → Option (List ℕ) → Option Frontend
forward_req buf p payload s none = none
forward_req buf p payload s (some hbuf) =
    some (if is_empty hbuf then forward_as_is buf p payload s else forward_hbuf hbuf payload s)

-- For the app that is matched, if any.
unfoldable pub complete_for :
    List ℕ → Parser → ParseReqResult → Frontend → Option Conf → Option Frontend
complete_for buf p prr s none = some s
complete_for buf p prr s (some cf) =
    forward_req buf p (payload_of buf prr) s (the_hbuf buf p prr s cf)

unfoldable pub a_complete_req : List ℕ → Parser → ParseReqResult → Frontend → Option Frontend
a_complete_req buf p prr s = complete_for buf p prr s s.matched_app
