-- ===== src/Parser/RequestLine.antt =====
-- src/http_parser.cpp, `http_parser::parse_request_line`.
pub mod Print
pub mod Bounds
mod Tests
use niubix.Base.{
  ℕ, zero, suc, ◌+◌, ◌-◌, ◌*◌, ◌%◌, ◌^◌, Bool, true, false, not, ◌&&◌, ◌||◌, List, [], ◌∷◌, Option,
  none, some, ltb, ◌==◌, if◌then◌else◌, drop,
}
use niubix.Base.Int.{ℤ, pos, negsuc, ◌+ℤ◌, ltb_ℤ}
use niubix.Parser.{Method, Ret, Parser, signed_char, index, cr, lf, max_extra_spaces, max_uri_len}

pub data LineState : Type 0 where
  st_start st_method st_spaces_before_uri st_after_slash_in_uri st_http_09 : LineState
  st_http_h st_http_ht st_http_htt st_http_http : LineState
  st_first_major_digit st_major_digit st_first_minor_digit st_minor_digit : LineState
  st_almost_done st_end : LineState

-- The function's variables, and the parser that it writes to.
pub record Line : Type 0 where
  pub state : LineState
  pub space_before_uri_pos : ℕ
  pub mv : ℤ
  pub parser : Parser

-- One round of the loop: on with the next character, or a `return`.
pub data Step : Type 0 where
  go : Line → Step
  fail : Ret → Parser → Step

-- The method of which `mv` is the sum of the characters.
pub method_of : ℤ → Option Method
method_of (negsuc n) = none
method_of (pos n) =
    if n == 71 + 69 + 84
    then some Method.http_get
    else if n == 80 + 79 + 83 + 84
    then some Method.http_post
    else if n == 80 + 85 + 84
    then some Method.http_put
    else if n == 72 + 69 + 65 + 68
    then some Method.http_head
    else if n == 68 + 69 + 76 + 69 + 84 + 69
    then some Method.http_delete
    else none

-- A space in `st_method`: the end of the method's name.
pub end_method : Option Method → ℕ → Line → Step
end_method none i l = fail Ret.http_err_405 l.parser
end_method (some m) i l = go (record {
  state = LineState.st_spaces_before_uri;
  space_before_uri_pos = i;
  mv = l.mv;
  parser = record l.parser { method = m };
})

abbrev pub goto : LineState → Line → Step
goto st l = go (record l { state = st })

-- The states that want one character and give up on every other.
abbrev pub expect : ℕ → LineState → Ret → ℕ → Line → Step
expect wanted st err ch l = if ch == wanted then goto st l else fail err l.parser

pub is_get : Method → Bool
is_get Method.http_get = true
is_get _ = false

-- The end of a line of HTTP/0.9.
abbrev pub end_http_09 : Line → Step
end_http_09 l =
    go (record l { state = LineState.st_almost_done; parser = record l.parser { http_minor = 9 } })

-- The `switch`, for the character `ch` at `i`.
pub line_step : LineState → ℕ → ℕ → Line → Step
line_step LineState.st_start i ch l =
    let p = record l.parser { req_start = some i } in
    if ltb (65 - 1) ch && ltb ch (90 - 1)
    then go (record l { state = LineState.st_method; mv = signed_char ch; parser = p })
    else fail Ret.http_err_400 p
line_step LineState.st_method i ch l =
    let mv = l.mv +ℤ signed_char ch in
    if ch == 32
    then end_method (method_of l.mv) i l
    else if ltb_ℤ (pos (90 + 90 + 90 + 90 + 90 + 90)) mv
    then fail Ret.http_err_400 l.parser
    else go (record l { mv = mv })
line_step LineState.st_spaces_before_uri i ch l =
    if ch == 47
    then go (record l {
      state = LineState.st_after_slash_in_uri;
      parser = record l.parser { uri_start = some i };
    })
    else if (ch == 32) && not (ltb max_extra_spaces (i - l.space_before_uri_pos))
    then go l
    else fail Ret.http_err_400 l.parser
line_step LineState.st_after_slash_in_uri i ch l =
    let ended = record l.parser { uri_end = some i } in
    if ch == 32
    then go (record l { state = LineState.st_http_09; parser = ended })
    else if ch == cr
    then end_http_09 (record l { parser = ended })
    else if ltb max_uri_len (i - index l.parser.uri_start)
    then fail Ret.http_err_414 l.parser
    else go l
line_step LineState.st_http_09 i ch l =
    if ch == 72
    then goto LineState.st_http_h l
    else if ch == 32
    then if ltb max_extra_spaces (i - index l.parser.uri_end)
      then fail Ret.http_err_400 l.parser
      else go l
    else if ch == cr
    then if is_get l.parser.method then end_http_09 l else fail Ret.http_err_400 l.parser
    else go l
line_step LineState.st_http_h i ch l = expect 84 LineState.st_http_ht Ret.http_err_400 ch l
line_step LineState.st_http_ht i ch l = expect 84 LineState.st_http_htt Ret.http_err_400 ch l
line_step LineState.st_http_htt i ch l = expect 80 LineState.st_http_http Ret.http_err_400 ch l
line_step LineState.st_http_http i ch l =
    expect 47 LineState.st_first_major_digit Ret.http_err_400 ch l
line_step LineState.st_first_major_digit i ch l =
    let p = record l.parser { http_major = ch - 48 } in
    if ltb ch 49 || ltb 57 ch
    then fail Ret.http_err_400 l.parser
    else if ltb 2 (ch - 48)
    then fail Ret.http_err_505 p
    else go (record l { state = LineState.st_major_digit; parser = p })
line_step LineState.st_major_digit i ch l =
    expect 46 LineState.st_first_minor_digit Ret.http_err_505 ch l
line_step LineState.st_first_minor_digit i ch l =
    if ltb ch 48 || ltb 57 ch
    then fail Ret.http_err_400 l.parser
    else go (record l {
      state = LineState.st_minor_digit;
      parser = record l.parser { http_minor = ch - 48 };
    })
line_step LineState.st_minor_digit i ch l =
    let minor = l.parser.http_minor in
    if ch == cr
    then goto LineState.st_almost_done l
    else if ltb ch 48 || ltb 57 ch
    then fail Ret.http_err_400 l.parser
    else if ltb_ℤ (pos 99) (signed_char minor)
    then fail Ret.http_err_505 l.parser
    else go
        (record l { parser = record l.parser { http_minor = (minor * 10 + (ch - 48)) % 2 ^ 8 } })
line_step LineState.st_almost_done i ch l = expect lf LineState.st_end Ret.http_err_400 ch l
line_step LineState.st_end i ch l = go l

-- The end of a round at `i`: out of the loop in `st_end`, or on to the rounds `rest`.
pub line_go : (Line → Ret × Parser) → ℕ → LineState → Line → Ret × Parser
line_go rest i LineState.st_end l = (Ret.parse_ok, record l.parser { start = i + 1 })
line_go rest i _ l = rest l

pub line_next : (Line → Ret × Parser) → ℕ → Step → Ret × Parser
line_next rest i (fail err p) = (err, p)
line_next rest i (go l) = line_go rest i l.state l

-- The `for`, with the characters from `i` to `end`.
pub line_loop : List ℕ → ℕ → Line → Ret × Parser
line_loop [] i l = (Ret.partial_req, record l.parser { start = i + 1 })
line_loop (ch ∷ chars) i l = line_next (line_loop chars (suc i)) i (line_step l.state i ch l)

pub parse_request_line : List ℕ → Parser → Ret × Parser
parse_request_line buf p =
    line_loop (drop p.start buf) p.start
      (record { state = LineState.st_start; space_before_uri_pos = 0; mv = pos 0; parser = p })
