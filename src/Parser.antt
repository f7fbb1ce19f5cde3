-- ===== src/Parser.antt =====
-- src/http_parser.h and src/http_parser.cpp: the automata of `http_parser` over the received bytes.
-- The buffer is the list of its bytes; a pointer into it is the index of a byte, `none` stands for
-- `nullptr`, and `end` is the length of the list, which the automata are given as an argument.
pub mod RequestLine
pub mod HeaderLine
pub mod Chunked
pub mod Uri
use niubix.Base.{ℕ, zero, suc, ◌+◌, ◌-◌, ◌*◌, Option, none, some, ltb, if◌then◌else◌}
use niubix.Base.Int.{ℤ, pos, negsuc}

-- The methods of src/http.h.
pub data Method : Type 0 where
  http_unknown http_get http_post http_put http_delete http_head : Method

-- What the automata return: the parser's own results, and the errors of src/http.h.
pub data Ret : Type 0 where
  partial_req parse_ok end_of_req : Ret
  http_err_200 http_err_400 http_err_405 http_err_413 http_err_414 http_err_505 : Ret

-- `http_major` and `http_minor` are one byte each.
pub record Parser : Type 0 where
  pub http_major : ℕ
  pub http_minor : ℕ
  pub method : Method
  pub start : ℕ
  pub req_start : Option ℕ
  pub req_end : Option ℕ
  pub req_end_with_crlf : Option ℕ
  pub uri_start : Option ℕ
  pub uri_end : Option ℕ
  pub header_name_start : Option ℕ
  pub header_name_end : Option ℕ
  pub header_start : Option ℕ
  pub value_start : Option ℕ
  pub value_end : Option ℕ

-- The constructor `http_parser(start, end)`.
abbrev pub new_parser : ℕ → Parser
new_parser start = record {
  http_major = 0;
  http_minor = 0;
  method = http_unknown;
  start = start;
  req_start = none;
  req_end = none;
  req_end_with_crlf = none;
  uri_start = none;
  uri_end = none;
  header_name_start = none;
  header_name_end = none;
  header_start = none;
  value_start = none;
  value_end = none;
}

-- A `char` is signed: the upper half of the bytes is negative.
abbrev pub signed_char : ℕ → ℤ
signed_char b = if ltb b 128 then pos b else negsuc (255 - b)

-- The index of a pointer that is read.
abbrev pub index : Option ℕ → ℕ
index none = 0
index (some i) = i

abbrev pub cr : ℕ
cr = 13

abbrev pub lf : ℕ
lf = 10

abbrev pub max_extra_spaces : ℕ
max_extra_spaces = 8

abbrev pub max_uri_len : ℕ
max_uri_len = 2048
