-- ===== src/Request/Handle.antt =====
-- `http_frontend::handle_data`, `handle_request` and `to_match_app_by_host`.
use niubix.Base.{
  ℕ, zero, suc, ◌+◌, ◌-◌, Bool, true, false, not, ◌||◌, List, [], ◌∷◌, ◌++◌, Option, none, some,
  leb, ltb, if◌then◌else◌, drop, take, length, min,
}
use niubix.Parser.{Ret, Parser, new_parser, index, max_uri_len}
use niubix.Parser.RequestLine.{parse_request_line}
use niubix.Parser.HeaderLine.{parse_header_line}
use niubix.Request.State.{
  Conf, Err, Frontend, ParseReqResult, no_result, slice, is_null, is_empty, forward_to_backend,
  response_err_and_close, handle_partial_req, save_received_data_before_match_app,
}
use niubix.Request.Filter.{Filtered, bad_request, filter_headers}
use niubix.Request.Complete.{max_full_req_len, a_complete_req}

-- What the methods get from elsewhere: the app that `app::match_app_by_host` finds for a host, whether
-- `to_connect_backend` succeeds, and the byte in memory behind the received data.
pub record Env : Type 0 where
  pub match_app_by_host : List ℕ → Option Conf
  pub connects : Bool
  pub beyond : ℕ

-- What the process does that C++ does not define: a null host is given to `strcasecmp`, or a negative length to
-- `memcpy`.
pub data Fault : Type 0 where
  null_host bad_copy : Fault

-- The end of a method: its `return`, or such a call.
pub data Outcome : Type 0 where
  returned : Bool × Frontend → Outcome
  undefined : Fault → Outcome

-- How a part of `handle_request` ends: for good, with the next request, or out of fuel.
pub data Flow : Type 0 where
  returns : Outcome → Flow
  next : Parser → Frontend → Flow
  no_fuel : Flow

abbrev pub returned_flow : Bool × Frontend → Flow
returned_flow r = returns (returned r)

-- `parser.start - parser.req_start > limit`; from a null pointer the difference is an address.
abbrev pub too_long : ℕ → Parser → Bool
too_long limit p = elim p.req_start as (λ _. Bool) [
  | none ↦ true
  | some r ↦ ltb limit (p.start - r)
]

-- The data is connected to the app for its host, and no more is read until the backend answers.
unfoldable pub match_app : Env → List ℕ → Frontend → Bool × Frontend
match_app env host s =
    let s' = record s { matched_app = env.match_app_by_host host } in
    if is_null s'.matched_app || not env.connects
    then (false, s')
    else (true, record s' { has_backend = true })

-- `host` is null if no header line was taken for it.
unfoldable pub to_match_app_by_host : Env → Frontend → Outcome
to_match_app_by_host env s = elim s.host as (λ _. Outcome) [
  | none ↦ undefined null_host
  | some host ↦ returned (match_app env host s)
]

-- Behind `a_complete_req`.
unfoldable pub completed : Parser → Option Frontend → Flow
completed p none = returns (undefined bad_copy)
completed p (some s) = next p s

module _ (env : Env) (buf : List ℕ) where
  -- The bytes of a request that is not complete: `start` is one past the end of the data.
  unfoldable pub keep_partial : ℕ → Parser → Frontend → Bool × Frontend
  keep_partial limit p s =
      if too_long limit p
      then response_err_and_close bad_request s
      else (true, handle_partial_req (slice (buf ++ env.beyond ∷ []) (index p.req_start) p.start) s)

  -- A body of a known length: as much of it as was received.
  abbrev pub with_payload : Parser → ParseReqResult → Frontend → ParseReqResult
  with_payload p prr s = record prr {
    payload = some p.start;
    payload_len = min s.content_length (length buf - p.start);
  }

  unfoldable pub end_of_headers : Parser → ParseReqResult → Frontend → Flow
  end_of_headers p prr s =
      let body = with_payload p prr s in
      if too_long max_full_req_len p
      then returned_flow (response_err_and_close bad_request s)
      else if is_null s.matched_app
      then returns (to_match_app_by_host env (save_received_data_before_match_app buf s))
      else if ltb 0 s.content_length
      then completed (record p { start = p.start + body.payload_len }) (a_complete_req buf p body s)
      else completed p (a_complete_req buf p prr s)

  -- A header line that was parsed; `rest` is the loop behind it.
  unfoldable pub header_filtered :
      (Parser → ParseReqResult → Frontend → Flow) → Parser → Filtered → Flow
  header_filtered rest p (some err, prr, s) = returned_flow (response_err_and_close err s)
  header_filtered rest p (none, prr, s) = rest p prr s

  unfoldable pub header_turn :
      (Parser → ParseReqResult → Frontend → Flow) → Ret × Parser → ParseReqResult → Frontend → Flow
  header_turn rest (Ret.parse_ok, p) prr s = header_filtered rest p (filter_headers buf p prr s)
  header_turn rest (Ret.partial_req, p) prr s = returned_flow (keep_partial max_full_req_len p s)
  header_turn rest (Ret.end_of_req, p) prr s = end_of_headers p prr s
  header_turn rest (ret, p) prr s = returned_flow (response_err_and_close (Err.parser_err ret) s)

  -- The inner loop, on fuel.
  unfoldable pub headers_loop : ℕ → Parser → ParseReqResult → Frontend → Flow
  headers_loop zero p prr s = no_fuel
  headers_loop (suc k) p prr s = header_turn (headers_loop k) (parse_header_line buf p) prr s

  abbrev pub fuel : ℕ
  fuel = suc (length buf)

  unfoldable pub line_turn : Ret × Parser → Frontend → Flow
  line_turn (Ret.partial_req, p) s = returned_flow (keep_partial max_uri_len p s)
  line_turn (Ret.parse_ok, p) s = headers_loop fuel p no_result s
  line_turn (ret, p) s = returned_flow (response_err_and_close (Err.parser_err ret) s)

  -- Behind a request: on with the next one, if there is more data.
  unfoldable pub request_turn : (Parser → Frontend → Option Outcome) → Flow → Option Outcome
  request_turn rest (returns r) = some r
  request_turn rest (next p s) =
      if leb (length buf) p.start then some (returned (true, s)) else rest p s
  request_turn rest no_fuel = none

  -- The outer loop, on fuel.
  unfoldable pub requests_loop : ℕ → Parser → Frontend → Option Outcome
  requests_loop zero p s = none
  requests_loop (suc k) p s =
      request_turn (requests_loop k) (line_turn (parse_request_line buf p) s)

-- `none` is out of fuel.
unfoldable pub handle_request : Env → List ℕ → Frontend → Option Outcome
handle_request env buf s = requests_loop env buf (suc (length buf)) (new_parser 0) s

-- The received bytes behind those of a request that was not complete.
abbrev pub gathered : List ℕ → Frontend → List ℕ × Frontend
gathered rbuf s =
    let all = s.partial_buf ++ rbuf in
    if is_empty s.partial_buf then (rbuf, s) else (all, record s { partial_buf = all })

-- The part of a body that is still missing is forwarded first.
unfoldable pub handle_body : Env → List ℕ → Frontend → Option Outcome
handle_body env buf s =
    let n = min (length buf) s.content_length in
    let s' = forward_to_backend (take n buf) s in
    let s1 = record s' { content_length = s'.content_length - n } in
    if leb (length buf) n then some (returned (true, s1)) else handle_request env (drop n buf) s1

unfoldable pub handle_data : Env → List ℕ → Frontend → Option Outcome
handle_data env rbuf s =
    let (buf, s') = gathered rbuf s in
    if ltb 0 s'.content_length then handle_body env buf s' else handle_request env buf s'
