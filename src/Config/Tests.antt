-- ===== src/Config/Tests.antt =====
-- A configuration that is accepted, and one that is refused.
use niubix.Base.{same_bytes, ◌^◌, ◌-◌, ℕ, ◌≡◌, refl, true, false, List, [], ◌∷◌, Option, none, some}
use niubix.Base.Int.{pos, negsuc, ◌+ℤ◌}
use niubix.Request.Text.{is_space, is_digit, digits_value, before}
use niubix.Config.Addr.{stoi, positive, find_colon, at_colon, parse_ip_port, parse_v4_addr}
use niubix.Config.Load.{
  BackendJson, AppJson, Loaded, empty_conf, has, has_port, bound_to, http_text, roundrobin_text,
  default_text, protocol_of, parse_balance_policy, backend_protocol_of, load_backends, total_weight,
  good_backend, good_check, backend_conf, push_backend,
}
use niubix.Config.Apps.{
  and_then, named, bind_port, host_of, good_times, weighed, build, push_app, load_app, load_conf,
}
use niubix.Config.Good.{Ensures}
use niubix.Config.Process.{
  Machine, ProcessJson, process_conf, load, load_rest, limit_of, max_fds_of, is_missing, copied,
  to_int,
}
use niubix.Config.Process.Accepted.{IsAccepted, load-IsAccepted}

-- `1.1.1.1:80`.
abbrev address : List ℕ
address = 49 ∷ 46 ∷ 49 ∷ 46 ∷ 49 ∷ 46 ∷ 49 ∷ 58 ∷ 56 ∷ 48 ∷ []

abbrev backend : BackendJson
backend = record {
  weight = pos 2;
  down = false;
  host = address;
  health_check_period = pos 5000;
  health_check_timeout = pos 2000;
  health_check_uri = 47 ∷ [];
}

abbrev default_app : List ℕ → List ℕ → AppJson
default_app name listen = record {
  name = name;
  listen = listen;
  protocol = http_text;
  http_host = default_text;
  balance_policy = roundrobin_text;
  connect_backend_timeout = pos 2000;
  frontend_a_complete_req_timeout = pos 5000;
  frontend_idle_timeout = pos 10000;
  x_forwarded_for = true;
  x_real_ip = true;
  backend_protocol = http_text;
  backends = backend ∷ [];
}

-- On the ports 80 and 81.
abbrev first : AppJson
first = default_app (97 ∷ []) (58 ∷ 56 ∷ 48 ∷ [])

abbrev second : AppJson
second = default_app (98 ∷ []) (58 ∷ 56 ∷ 49 ∷ [])

abbrev or_empty : Option Loaded → Loaded
or_empty o = elim o as (λ _. Loaded) [ none ↦ empty_conf | some l ↦ l ]

abbrev loaded : Loaded
loaded = or_empty (load_conf (first ∷ []) empty_conf)

-- The first app alone is accepted. A default app on each of two ports is refused: both have the empty
-- host.
one_loads :
    (load_conf (first ∷ []) empty_conf ≡ some loaded)
    × (load_conf (first ∷ second ∷ []) empty_conf ≡ none)
unfolding load_conf load_app and_then named bind_port host_of build weighed push_app good_times
    parse_ip_port at_colon find_colon stoi positive digits_value is_digit is_space protocol_of
    parse_balance_policy backend_protocol_of load_backends push_backend good_backend good_check
    backend_conf parse_v4_addr total_weight same_bytes has has_port bound_to ◌+ℤ◌
one_loads = (refl, refl)

abbrev machine : Machine
machine = record { rlim_cur = some (2 ^ 64 - 1); hardware_concurrency = 4 }

abbrev process : ProcessJson
process = record {
  version = [];
  master_log = 109 ∷ [];
  pid_file = 112 ∷ [];
  max_fds = pos 0;
  worker_num = pos 0;
  io_buf_size = pos 0;
  log_dir = 100 ∷ [];
  log_level = 108 ∷ [];
  admin_listen = [];
  admin_ip_white_list = 49 ∷ 44 ∷ 50 ∷ [];
  apps = first ∷ [];
}

-- A process without a limit of descriptors gets the limit -1.
process_loads : load machine process ≡ some (process_conf machine process (negsuc 0) loaded)
unfolding load load_rest limit_of max_fds_of is_missing copied to_int before and_then
process_loads = rw (one_loads.0) refl

load-IsAccepted_example : Ensures (IsAccepted machine process) (load machine process)
load-IsAccepted_example = load-IsAccepted machine process
