-- ===== src/Parser/Uri.antt =====
-- src/http_parser.cpp, `http_parser::parse_uri`.
pub mod Print
use niubix.Base.{
  ℕ, zero, suc, ◌+◌, ◌-◌, Bool, true, false, List, [], ◌∷◌, ◌++◌, Option, none, some, ◌==◌, ◌≡◌,
  refl, ◌∙◌, ap, if◌then◌else◌, drop, take, length, add_suc, sym,
}
use niubix.Parser.{Ret, Parser, index}

pub data UriState : Type 0 where
  st_start st_path st_query st_check_fragment st_end : UriState

-- The arguments that the function writes to.
pub record Uri : Type 0 where
  pub path_end : Option ℕ
  pub query_start : Option ℕ
  pub query_end : Option ℕ

-- One round of the loop: on with the next character, or a `return`.
pub data Step : Type 0 where
  go : UriState → Uri → Step
  fail : Ret → Uri → Step

-- The `switch`, for the character `ch` at `i`.
pub uri_step : UriState → ℕ → ℕ → Uri → Step
uri_step UriState.st_start i ch u =
    if ch == 47 then go UriState.st_path u else fail Ret.http_err_400 u
uri_step UriState.st_path i ch u =
    if ch == 63
    then go UriState.st_query (record u { path_end = some i })
    else go UriState.st_path u
uri_step UriState.st_query i ch u =
    if ch == 35
    then go UriState.st_end u
    else go UriState.st_check_fragment (record u { query_start = some i })
uri_step UriState.st_check_fragment i ch u =
    if ch == 35
    then go UriState.st_end (record u { query_end = some i })
    else go UriState.st_check_fragment u
uri_step UriState.st_end i ch u = go UriState.st_end u

-- The code behind the loop, which ended at `i`: a query without an end gets one.
pub end_query : ℕ → Option ℕ → Option ℕ → Option ℕ
end_query i (some s) none = some (i + 1)
end_query i s e = e

abbrev pub uri_end_at : ℕ → Uri → Ret × Uri
uri_end_at i u = (Ret.http_err_200, record u { query_end = end_query i u.query_start u.query_end })

-- The end of a round at `i`: out of the loop in `st_end`, or on to the rounds `rest`.
pub uri_go : (UriState → Uri → Ret × Uri) → ℕ → UriState → Uri → Ret × Uri
uri_go rest i UriState.st_end u = uri_end_at i u
uri_go rest i st u = rest st u

pub uri_next : (UriState → Uri → Ret × Uri) → ℕ → Step → Ret × Uri
uri_next rest i (fail err u) = (err, u)
uri_next rest i (go st u) = uri_go rest i st u

-- The `for`, with the characters from `i` to `uri_end`.
pub uri_loop : List ℕ → ℕ → UriState → Uri → Ret × Uri
uri_loop [] i st u = uri_end_at i u
uri_loop (ch ∷ chars) i st u = uri_next (uri_loop chars (suc i)) i (uri_step st i ch u)

-- `query_end` is the caller's: the function clears the other two only.
pub parse_uri : List ℕ → Parser → Uri → Ret × Uri
parse_uri buf p u =
    let s = index p.uri_start in
    uri_loop (take (index p.uri_end - s) (drop s buf)) s UriState.st_start
      (record u { path_end = none; query_start = none })
