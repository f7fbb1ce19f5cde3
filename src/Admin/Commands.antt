-- ===== src/Admin/Commands.antt =====
-- The commands of `admin`, and `a_complete_req`, which finds the one for a path. `none` is an exception
-- that nothing catches: `std::stoi` throws for a text that does not start with a number.
pub mod Routes
pub mod Effects
use niubix.Base.{
  ℕ, suc, zero, ◌+◌, ◌-◌, ◌==◌, Bool, true, false, not, ◌&&◌, ◌||◌, List, [], ◌∷◌, ◌++◌, Option,
  none, some, if◌then◌else◌, ltb, length, take, drop, replicate, same_bytes, codes,
}
use niubix.Base.Int.{ℤ, pos, ltb_ℤ}
use niubix.App.{Backend}
use niubix.App
use niubix.Config.Addr.{stoi}
use niubix.Decode.{url_decode}
use niubix.Parser.{Ret, Parser, new_parser, index, max_uri_len}
use niubix.Parser.Uri.{Uri, parse_uri}
use niubix.Request.State.{slice, is_empty}
use niubix.Request.Text.{before}
use niubix.Http.Replies.{HttpErr}
use niubix.Admin.{App, Value, Json, Env, Admin, response_json, response_error}
use niubix.Admin.Query.{Params, value_of, parse_query_params}

-- The loop over `app::alls`: the first app of the name, and whether its setter finds the host.
unfoldable pub in_app : List ℕ → (List Backend → List Backend × Bool) → List App → List App × Bool
in_app name setter [] = ([], false)
in_app name setter (ap ∷ aps) =
    let rest = in_app name setter aps in
    let changed = setter ap.backends in
    if same_bytes ap.name name
    then (record ap { backends = changed.0 } ∷ aps, changed.1)
    else (ap ∷ rest.0, rest.1)

-- The answer of a setter, with the setting's name and value.
unfoldable pub set_reply : List ℕ → List ℕ → List ℕ × Value → Bool → Json
set_reply name host setting set_ok =
    let resp =
      setting
      ∷ (codes "host", Value.text host)
      ∷ (codes "name", Value.text name)
      ∷ (codes "msg", Value.text (codes "ok"))
      ∷ (codes "code", Value.number (pos 0))
      ∷ [] in
    if not set_ok
    then (codes "msg", Value.text (codes "not found"))
      ∷ (codes "code", Value.number (pos 404))
      ∷ resp
    else resp

unfoldable pub param_invalid : Env → Admin → Admin
param_invalid env s = response_error env HttpErr.err_400 (codes "param invalid") s

unfoldable pub set_backend_down : Env → List ℕ → Admin → Admin
set_backend_down env query s =
    let params = parse_query_params query in
    let name = value_of (codes "name") params in
    let host = value_of (codes "host") params in
    let down = value_of (codes "down") params in
    let is_true = same_bytes down (codes "true") in
    let r = in_app name (App.set_backend_down host is_true) s.alls in
    if is_empty name || is_empty host || (not is_true && not (same_bytes down (codes "false")))
    then param_invalid env s
    else response_json env (set_reply name host (codes "down", Value.text down) r.1)
        (record s { alls = r.0 })

-- Behind `std::stoi`.
unfoldable pub set_weight : Env → List ℕ → List ℕ → ℤ → Admin → Admin
set_weight env name host weight s =
    let r = in_app name (App.set_backend_weight host weight) s.alls in
    if is_empty name || is_empty host || ltb_ℤ weight (pos 0)
    then param_invalid env s
    else response_json env (set_reply name host (codes "weight", Value.number weight) r.1)
        (record s { alls = r.0 })

unfoldable pub set_backend_weight : Env → List ℕ → Admin → Option Admin
set_backend_weight env query s =
    let params = parse_query_params query in
    let name = value_of (codes "name") params in
    let host = value_of (codes "host") params in
    elim (stoi (value_of (codes "weight") params)) as (λ _. Option Admin) [
      | none ↦ none
      | some weight ↦ some (set_weight env name host weight s)
    ]

abbrev pub message : List ℕ → Json
message msg = (codes "msg", Value.text msg) ∷ (codes "code", Value.number (pos 0)) ∷ []

unfoldable pub shutdown : Env → Admin → Admin
shutdown env s =
    response_json env (message (codes "shutdowning")) (record s { shutdowns = s.shutdowns + 1 })

unfoldable pub reload : Env → Admin → Admin
reload env s =
    response_json env (message (codes "reloading")) (record s { reloads = s.reloads + 1 })

unfoldable pub conf_version : Env → Admin → Admin
conf_version env s =
    response_json env ((codes "conf_version", Value.text env.version) ∷ message (codes "ok")) s

pub data Command : Type 0 where
  to_set_down to_set_weight to_shutdown to_reload to_conf_version : Command

-- `strncmp(s, t, n) == 0`.
unfoldable pub same_start : ℕ → List ℕ → List ℕ → Bool
same_start zero s t = true
same_start (suc n) [] [] = true
same_start (suc n) (a ∷ s) (b ∷ t) = (a == b) && same_start n s t
same_start (suc n) _ _ = false

-- The number is `path_end - uri_buf`; from a null pointer it is larger than any string.
unfoldable pub matches : Option ℕ → List ℕ → List ℕ → Bool
matches none uri path = same_bytes uri path
matches (some n) uri path = same_start n uri path

unfoldable pub command_for : Option ℕ → List ℕ → Option Command
command_for path_end uri =
    if matches path_end uri (codes "/set_backend_down")
    then some to_set_down
    else if matches path_end uri (codes "/set_backend_weight")
    then some to_set_weight
    else if matches path_end uri (codes "/shutdown")
    then some to_shutdown
    else if matches path_end uri (codes "/reload")
    then some to_reload
    else if matches path_end uri (codes "/conf_version")
    then some to_conf_version
    else none

unfoldable pub run_command : Env → Command → List ℕ → Admin → Option Admin
run_command env to_set_down query s = some (set_backend_down env query s)
run_command env to_set_weight query s = set_backend_weight env query s
run_command env to_shutdown query s = some (shutdown env s)
run_command env to_reload query s = some (reload env s)
run_command env to_conf_version query s = some (conf_version env s)

-- An error of the parser as an index of the tables; its other results are none.
unfoldable pub err_of : Ret → HttpErr
err_of Ret.http_err_400 = HttpErr.err_400
err_of Ret.http_err_405 = HttpErr.err_405
err_of Ret.http_err_413 = HttpErr.err_413
err_of Ret.http_err_414 = HttpErr.err_414
err_of Ret.http_err_505 = HttpErr.err_505
err_of _ = HttpErr.err_200

-- A command that was run, or an error.
pub data Answer : Type 0 where
  done : Admin → Answer
  refused : HttpErr → Answer
  threw : Answer

unfoldable pub answer_of : Option Admin → Answer
answer_of none = threw
answer_of (some s) = done s

unfoldable pub routed : Env → List ℕ → Ret × Uri → Admin → Answer
routed env uri (Ret.http_err_200, u) s =
    elim (command_for u.path_end (before 0 uri)) as (λ _. Answer) [
      | none ↦ refused HttpErr.err_404
      | some c ↦
          answer_of (run_command env c (slice uri (index u.query_start) (index u.query_end)) s)
    ]
routed env uri (ret, u) s = refused (err_of ret)

abbrev pub no_uri : Uri
no_uri = record { path_end = none; query_start = none; query_end = none }

-- `uri_buf` behind `strncpy` into a buffer of zeros.
abbrev pub uri_buf_of : List ℕ → List ℕ
uri_buf_of uri = before 0 uri ++ replicate (max_uri_len - length (before 0 uri)) 0

-- The length that `url_decode` returns is not used.
unfoldable pub a_complete_req : Env → List ℕ → Parser → Admin → Answer
a_complete_req env buf p s =
    let uri_len = index p.uri_end - index p.uri_start in
    let uri_buf =
      (url_decode (uri_buf_of (slice buf (index p.uri_start) (index p.uri_end))) uri_len).0 in
    let parser2 = record (new_parser 0) { uri_start = some 0; uri_end = some uri_len } in
    if ltb (max_uri_len - 1) uri_len
    then refused HttpErr.err_400
    else routed env uri_buf (parse_uri uri_buf parser2 no_uri) s
