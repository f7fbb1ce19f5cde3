-- ===== src/Parser/RequestLine/Tests.antt =====
-- Request lines on which `parse_request_line` runs.
use niubix.Base.{ℕ, List, [], ◌∷◌, some, ◌≡◌, refl, length}
use niubix.Parser.{Method, Ret, new_parser}
use niubix.Parser.RequestLine.{
  line_loop, line_next, line_go, line_step, method_of, end_method, parse_request_line,
}
use niubix.Parser.RequestLine.Print.{Request, IsRequest, parse-print, print}
use niubix.Parser.RequestLine.Bounds.{Recorded, request_line-Recorded}
use niubix.Base.Int.{◌+ℤ◌}
use native.Mathlib.Omega.{arith}

-- `GET /a HTTP/1.1`, with a space more behind the method.
abbrev request : Request
request = record {
  method = Method.http_get;
  spaces = 1;
  path = 97 ∷ [];
  spaces_after = 0;
  major = 1;
  minor = 1;
}

abbrev request-IsRequest : IsRequest request
request-IsRequest = record {
  known = λ e. ground arith;
  spaces = omega arith;
  path = ((λ e. omega (arith, e)), (λ e. omega (arith, e)), tt);
  path_len = omega arith;
  spaces_after = omega arith;
  major = omega arith;
  major_le = omega arith;
  minor = omega arith;
}

abbrev line : List ℕ
line = print request (72 ∷ [])

parse-print_example : parse_request_line line (new_parser 0) ≡ (
  Ret.parse_ok,
  record (new_parser 0) {
    http_major = 1;
    http_minor = 1;
    method = Method.http_get;
    start = 18;
    req_start = some 0;
    uri_start = some 5;
    uri_end = some 7;
  },
)
parse-print_example = parse-print line (72 ∷ []) (new_parser 0) request request-IsRequest refl

request_line-Recorded_example : Recorded 0 (length line) (parse_request_line line (new_parser 0))
request_line-Recorded_example = request_line-Recorded line (new_parser 0) (omega arith)

-- `TEG / HTTP/1.256` is read as a `GET` of version 1.0.
odd_request :
    parse_request_line
      (84 ∷ 69 ∷ 71 ∷ 32 ∷ 47 ∷ 32 ∷ 72 ∷ 84 ∷ 84 ∷ 80 ∷ 47 ∷ 49 ∷ 46 ∷ 50 ∷ 53 ∷ 54 ∷ 13 ∷ 10 ∷ [])
      (new_parser 0)
    ≡ (
      Ret.parse_ok,
      record (new_parser 0) {
        http_major = 1;
        http_minor = 0;
        method = Method.http_get;
        start = 18;
        req_start = some 0;
        uri_start = some 4;
        uri_end = some 5;
      },
    )
unfolding parse_request_line line_loop line_next line_go line_step method_of end_method ◌+ℤ◌
odd_request = refl
