-- ===== src/Admin/Requests.antt =====
-- `admin::on_read` and `admin::handle_request`.
pub mod Ends
use niubix.Base.{
  ℕ, zero, suc, Bool, true, false, List, Option, none, some, if◌then◌else◌, leb, length, codes,
}
use niubix.Parser.{Ret, Parser, new_parser}
use niubix.Parser.RequestLine.{parse_request_line}
use niubix.Parser.HeaderLine.{parse_header_line}
use niubix.Request.Complete.{max_full_req_len}
use niubix.Request.Handle.{too_long}
use niubix.Http.Replies.{HttpErr}
use niubix.Admin.{Env, Admin, response_error}
use niubix.Admin.Commands.{Answer, done, refused, threw, err_of, a_complete_req}

-- How a part of `handle_request` ends: with a `return`, with the next request, with an exception, or out
-- of fuel.
pub data Flow : Type 0 where
  returns : Bool × Admin → Flow
  next : Parser → Admin → Flow
  throws no_fuel : Flow

unfoldable pub bad_request : Env → HttpErr → Admin → Flow
bad_request env err s = returns (false, response_error env err (codes "Bad request") s)

unfoldable pub answered : Env → Parser → Admin → Answer → Flow
answered env p s (done s') = next p s'
answered env p s (refused err) = bad_request env err s
answered env p s threw = throws

module _ (env : Env) (buf : List ℕ) where
  unfoldable pub header_turn : (Parser → Admin → Flow) → Ret × Parser → Admin → Flow
  header_turn rest (Ret.parse_ok, p) s = rest p s
  header_turn rest (Ret.partial_req, p) s = bad_request env HttpErr.err_400 s
  header_turn rest (Ret.end_of_req, p) s =
      if too_long max_full_req_len p
      then bad_request env HttpErr.err_400 s
      else answered env p s (a_complete_req env buf p s)
  header_turn rest (ret, p) s = bad_request env (err_of ret) s

  -- The inner loop, on fuel.
  unfoldable pub headers_loop : ℕ → Parser → Admin → Flow
  headers_loop zero p s = no_fuel
  headers_loop (suc k) p s = header_turn (headers_loop k) (parse_header_line buf p) s

  unfoldable pub line_turn : Ret × Parser → Admin → Flow
  line_turn (Ret.partial_req, p) s = bad_request env HttpErr.err_400 s
  line_turn (Ret.parse_ok, p) s = headers_loop (suc (length buf)) p s
  line_turn (ret, p) s = bad_request env (err_of ret) s

  -- Behind a request: on with the next one, if there is more data.
  unfoldable pub request_turn : (Parser → Admin → Flow) → Flow → Flow
  request_turn rest (next p s) = if leb (length buf) p.start then returns (true, s) else rest p s
  request_turn rest flow = flow

  -- The outer loop, on fuel.
  unfoldable pub requests_loop : ℕ → Parser → Admin → Flow
  requests_loop zero p s = no_fuel
  requests_loop (suc k) p s =
      request_turn (requests_loop k) (line_turn (parse_request_line buf p) s)

unfoldable pub handle_request : Env → List ℕ → Admin → Flow
handle_request env buf s = requests_loop env buf (suc (length buf)) (new_parser 0) s

-- What `recv` gives: data, the end, or nothing yet.
pub data Received : Type 0 where
  data_in : List ℕ → Received
  ended nothing_yet : Received

unfoldable pub on_read : Env → Received → Admin → Flow
on_read env (data_in buf) s = handle_request env buf s
on_read env ended s = returns (false, s)
on_read env nothing_yet s = returns (true, s)
