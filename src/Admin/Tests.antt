-- ===== src/Admin/Tests.antt =====
-- Runs of the administrator's connection.
use niubix.Base.{ℕ, ◌≡◌, refl, List, [], ◌∷◌, ◌++◌, none, some, codes, same_bytes}
use niubix.Base.Int.{pos}
use niubix.App.{Backend, fresh}
use niubix.Config.Addr.{stoi}
use niubix.Request.Text.{before}
use niubix.Admin.{App, Value, Json, Env, Admin, response_json}
use niubix.Admin.Query.{value_of, tokens, assign, parse_query_params}
use niubix.Admin.Commands.{command_for, matches, same_start, to_set_down, set_backend_weight}
use niubix.Admin.Commands.Routes.{routes, first_route, is_start_of, command_for-routes}
use niubix.Admin.Reply.{Replied, response_json-reply}

abbrev no_dump : Json → List ℕ
no_dump j = []

abbrev env : Env
env = record { dump = no_dump; version = codes "1"; admin_ip_white_set = []; wio_buf_size = 4096 }

abbrev shop : Backend
shop = record fresh { host = codes "h" }

abbrev before_commands : Admin
before_commands = record {
  remote_addr = codes "127.0.0.1";
  alls = record { name = codes "a"; backends = shop ∷ [] } ∷ [];
  reloads = 0;
  shutdowns = 0;
  sent = [];
}

-- A short form of the path is taken for the first command that starts with it.
short_path : command_for (some 2) (codes "/s?name=a&host=h&down=true") ≡ some to_set_down
unfolding command_for matches same_start
short_path = refl

-- `std::stoi` of a weight that is missing throws.
no_weight : set_backend_weight env [] before_commands ≡ none
unfolding set_backend_weight value_of parse_query_params tokens assign stoi before
no_weight = refl

command_for-routes_example :
    (command_for (some 2) (codes "/r" ++ 63 ∷ codes "x")
      ≡ first_route (is_start_of (codes "/r")) routes)
    × (command_for none (codes "/r") ≡ first_route (same_bytes (codes "/r")) routes)
command_for-routes_example = command_for-routes (codes "/r") (codes "x")

abbrev resp : Json
resp = (codes "code", Value.number (pos 0)) ∷ []

response_json-reply_example :
    (reply : List ℕ) × ((response_json env resp before_commands).sent
      ≡ before_commands.sent ++ reply ∷ [])
    × Replied env (env.dump resp) reply
response_json-reply_example = response_json-reply env resp before_commands
