-- ===== src/Parser/HeaderLine.antt =====
-- src/http_parser.cpp, `http_parser::parse_header_line`.
pub mod Print
pub mod Bounds
mod Tests
use niubix.Base.{
  ℕ, zero, suc, ◌+◌, Bool, true, false, not, ◌||◌, List, [], ◌∷◌, Option, none, some, ◌==◌,
  if◌then◌else◌, drop,
}
use niubix.Base.Int.{pos, ltb_ℤ}
use niubix.Parser.{Ret, Parser, signed_char, cr, lf}

pub data HeaderState : Type 0 where
  st_start st_name st_space_before_value st_value st_space_after_value st_almost_done : HeaderState
  st_req_almost_done st_req_end st_end : HeaderState

-- One round of the loop: on with the next character, or a `return`.
pub data Step : Type 0 where
  go : HeaderState → Parser → Step
  fail : Ret → Parser → Step

-- `ch <= 0x20 || ch == 0x7f`, of a signed `ch`.
abbrev pub is_ctl : ℕ → Bool
is_ctl ch = not (ltb_ℤ (pos 32) (signed_char ch)) || (ch == 127)

-- The `switch`, for the character `ch` at `i`.
pub header_step : HeaderState → ℕ → ℕ → Parser → Step
header_step HeaderState.st_start i ch p =
    let named = record p { header_name_start = some i; header_start = some i } in
    if ch == cr
    then go HeaderState.st_req_almost_done (record p { req_end = some i })
    else if is_ctl ch || (ch == 58)
    then fail Ret.http_err_400 named
    else go HeaderState.st_name named
header_step HeaderState.st_name i ch p =
    if ch == 58
    then go HeaderState.st_space_before_value (record p { header_name_end = some i })
    else if is_ctl ch
    then fail Ret.http_err_400 (record p { req_end = some i })
    else go HeaderState.st_name p
header_step HeaderState.st_space_before_value i ch p =
    if (ch == 32) || (ch == 9)
    then go HeaderState.st_space_before_value p
    else if ch == cr
    then go HeaderState.st_almost_done (record p { req_end = some i })
    else if ch == 0
    then fail Ret.http_err_400 (record p { req_end = some i })
    else go HeaderState.st_value (record p { value_start = some i })
header_step HeaderState.st_value i ch p =
    if ch == 32
    then go HeaderState.st_space_after_value (record p { value_end = some i })
    else if ch == cr
    then go HeaderState.st_almost_done (record p { value_end = some i })
    else go HeaderState.st_value p
header_step HeaderState.st_space_after_value i ch p =
    if ch == 32
    then go HeaderState.st_space_after_value p
    else if ch == cr
    then go HeaderState.st_almost_done p
    else go HeaderState.st_value p
header_step HeaderState.st_almost_done i ch p =
    if ch == lf then go HeaderState.st_end p else fail Ret.http_err_400 p
header_step HeaderState.st_req_almost_done i ch p =
    if ch == lf
    then go HeaderState.st_req_end (record p { req_end_with_crlf = some (i + 1) })
    else fail Ret.http_err_400 p
header_step HeaderState.st_req_end i ch p = go HeaderState.st_req_end p
header_step HeaderState.st_end i ch p = go HeaderState.st_end p

-- The end of a round at `i`: out of the loop in an end state, or on to the rounds `rest`.
pub header_go : (HeaderState → Parser → Ret × Parser) → ℕ → HeaderState → Parser → Ret × Parser
header_go rest i HeaderState.st_end p = (Ret.parse_ok, record p { start = i + 1 })
header_go rest i HeaderState.st_req_end p = (Ret.end_of_req, record p { start = i + 1 })
header_go rest i st p = rest st p

pub header_next : (HeaderState → Parser → Ret × Parser) → ℕ → Step → Ret × Parser
header_next rest i (fail err p) = (err, p)
header_next rest i (go st p) = header_go rest i st p

-- The `for`, with the characters from `i` to `end`.
pub header_loop : List ℕ → ℕ → HeaderState → Parser → Ret × Parser
header_loop [] i st p = (Ret.partial_req, record p { start = i + 1 })
header_loop (ch ∷ chars) i st p = header_next (header_loop chars (suc i)) i (header_step st i ch p)

pub parse_header_line : List ℕ → Parser → Ret × Parser
parse_header_line buf p = header_loop (drop p.start buf) p.start HeaderState.st_start p
