-- ===== src/Start/Tests.antt =====
-- Two workers that listen on one port.
use niubix.Base.{ℕ, ◌≡◌, refl, true, false, List, [], ◌∷◌, codes}
use niubix.Base.Int.{pos}
use niubix.Config.Load.{Protocol, Policy, BackendConf, AppConf}
use niubix.Acceptor.{Settings, Results, listen}
use niubix.Start.{open_one, open_workers, open_all, checked, all_checked, run_all}

abbrev settings : Settings
settings = record { sets_rcvbuf = false; reuse_addr = true; reuse_port = true }

abbrev fine : ℕ → Results
fine n = record {
  socket_ok = true;
  rcvbuf_ok = true;
  reuse_addr_ok = true;
  reuse_port_ok = true;
  bind_ok = true;
  listen_ok = true;
  add_ok = true;
}

abbrev on_8080 : List (List ℕ × Protocol)
on_8080 = (codes ":8080", Protocol.http_protocol) ∷ []

-- One backend that asks for a check, and one that does not.
abbrev backend : BackendConf
backend = record {
  weight = pos 1;
  down = false;
  host = [];
  health_check_period = pos 3000;
  health_check_timeout = pos 500;
  health_check_uri = codes "/";
}

abbrev app : AppConf
app = record {
  name = [];
  listen = codes ":8080";
  protocol = Protocol.http_protocol;
  http_host = [];
  is_default = true;
  balance_policy = Policy.roundrobin;
  connect_backend_timeout = pos 2000;
  frontend_a_complete_req_timeout = pos 5000;
  frontend_idle_timeout = pos 10000;
  with_x_forwarded_for = false;
  with_x_real_ip = false;
  backend_protocol = Protocol.http_protocol;
  backend_list = backend ∷ record backend { health_check_period = pos 0 } ∷ [];
}

-- The second backend is not checked.
one_check : all_checked (app ∷ []) ≡ backend ∷ []
unfolding all_checked checked
one_check = refl

-- An address for TCP is accepted by `load_conf`, but not here.
tcp_refused : (run_all settings fine 2 ((codes ":8080", Protocol.tcp_protocol) ∷ []) []).0 ≡ false
unfolding run_all open_all open_workers open_one
tcp_refused = refl
