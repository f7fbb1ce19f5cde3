-- ===== src/Request/Filter.antt =====
-- `http_frontend::filter_headers`: what is taken from each header line.
use niubix.Base.{
  ℕ, ◌-◌, ◌==◌, Bool, true, false, not, ◌&&◌, ◌||◌, List, [], ◌∷◌, Option, none, some, ltb,
  if◌then◌else◌, get_or, drop,
}
use niubix.Parser.{Method, Ret, Parser, index}
use niubix.Parser.Chunked.{lower}
use niubix.Request.State.{Conf, Err, Frontend, ParseReqResult, slice, is_null, is_empty}
use niubix.Request.Text.{same_text, before, strtoll, to_uint64, llong_max}

-- `Host`, `X-Real-IP`, `X-Forwarded-For`, `Content-Length` and `Transfer-Encoding`.
abbrev pub host_name : List ℕ
host_name = 72 ∷ 111 ∷ 115 ∷ 116 ∷ []

abbrev pub x_real_ip_name : List ℕ
x_real_ip_name = 88 ∷ 45 ∷ 82 ∷ 101 ∷ 97 ∷ 108 ∷ 45 ∷ 73 ∷ 80 ∷ []

abbrev pub x_forwarded_for_name : List ℕ
x_forwarded_for_name =
    88 ∷ 45 ∷ 70 ∷ 111 ∷ 114 ∷ 119 ∷ 97 ∷ 114 ∷ 100 ∷ 101 ∷ 100 ∷ 45 ∷ 70 ∷ 111 ∷ 114 ∷ []

abbrev pub content_length_name : List ℕ
content_length_name =
    67 ∷ 111 ∷ 110 ∷ 116 ∷ 101 ∷ 110 ∷ 116 ∷ 45 ∷ 76 ∷ 101 ∷ 110 ∷ 103 ∷ 116 ∷ 104 ∷ []

abbrev pub transfer_encoding_name : List ℕ
transfer_encoding_name =
    84 ∷ 114 ∷ 97 ∷ 110 ∷ 115 ∷ 102 ∷ 101 ∷ 114 ∷ 45 ∷ 69 ∷ 110 ∷ 99 ∷ 111 ∷ 100 ∷ 105 ∷ 110 ∷ 103
    ∷ []

-- The result: `none` for 0.
abbrev pub Filtered : Type 0
Filtered = Option Err × ParseReqResult × Frontend

abbrev pub header_name : List ℕ → Parser → List ℕ
header_name buf p = slice buf (index p.header_name_start) (index p.header_name_end)

abbrev pub bad_request : Err
bad_request = Err.parser_err Ret.http_err_400

-- `host` stays null for an empty host, and then the request is refused.
unfoldable pub filter_host : List ℕ → Parser → ParseReqResult → Frontend → Filtered
filter_host buf p prr s =
    let value = before 58 (slice buf (index p.value_start) (index p.value_end)) in
    if same_text (header_name buf p) host_name
      && not (is_null p.value_start)
      && not (is_empty value)
    then (none, prr, record s { host = some value })
    else (some bad_request, prr, s)

unfoldable pub filter_x : List ℕ → Parser → Conf → ParseReqResult → ParseReqResult
filter_x buf p cf prr =
    if cf.with_x_real_ip && not prr.x_real_ip_exist && same_text (header_name buf p) x_real_ip_name
    then record prr { x_real_ip_exist = true }
    else if cf.with_x_forwarded_for
        && is_null prr.xff_start
        && same_text (header_name buf p) x_forwarded_for_name
    then record prr { xff_start = p.header_name_start; xff_end = p.value_end }
    else prr

-- `LLONG_MAX` and a range error that is left from any call are refused.
unfoldable pub filter_length : List ℕ → Parser → ParseReqResult → Frontend → Filtered
filter_length buf p prr s =
    let (value, overflow) = strtoll (drop (index p.value_start) buf) in
    let s' = record s { range_error = overflow || s.range_error } in
    let n = to_uint64 value in
    if is_null p.value_start
    then (some Err.http_err_411, prr, s)
    else if ltb 19 (index p.value_end - index p.value_start)
    then (some (Err.parser_err Ret.http_err_413), prr, s)
    else if get_or buf (index p.value_start) 0 == 45
    then (some bad_request, prr, s)
    else if (n == llong_max) || s'.range_error
    then (some (Err.parser_err Ret.http_err_413), prr, s')
    else (none, prr, record s' { content_length = n })

-- Chunked transfer is refused as any other coding is.
unfoldable pub filter_encoding : Parser → ParseReqResult → Frontend → Filtered
filter_encoding p prr s =
    if is_null p.value_start then (some bad_request, prr, s) else (some Err.http_err_501, prr, s)

abbrev pub has_body : Method → Bool
has_body Method.http_post = true
has_body Method.http_put = true
has_body _ = false

unfoldable pub filter_body : List ℕ → Parser → ParseReqResult → Frontend → Filtered
filter_body buf p prr s =
    if not (has_body p.method)
    then (none, prr, s)
    else if same_text (header_name buf p) content_length_name
    then filter_length buf p prr s
    else if same_text (header_name buf p) transfer_encoding_name
    then filter_encoding p prr s
    else (none, prr, s)

-- The headers of an app that is matched: `first` is the first letter of the name.
unfoldable pub filter_matched :
    ℕ → List ℕ → Parser → ParseReqResult → Frontend → Option Conf → Filtered
filter_matched first buf p prr s none = filter_body buf p prr s
filter_matched first buf p prr s (some cf) =
    if first == 120 then (none, filter_x buf p cf prr, s) else filter_body buf p prr s

unfoldable pub filter_headers : List ℕ → Parser → ParseReqResult → Frontend → Filtered
filter_headers buf p prr s =
    let first = lower (get_or buf (index p.header_name_start) 0) in
    if is_null s.host && (first == 104)
    then filter_host buf p prr s
    else filter_matched first buf p prr s s.matched_app
