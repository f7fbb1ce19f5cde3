-- ===== src/Session/Tests.antt =====
-- A session whose backend connects, and one that ends.
use niubix.Base.{◌≡◌, ◌⊎◌, true, false, none, [], ◌∷◌, refl}
use niubix.Base.Int.{pos}
use niubix.App.{fresh}
use niubix.Config.Load.{AppConf, http_protocol, roundrobin}
use niubix.Connector.{at_once, Results}
use niubix.Session.Open.{Opening, on_open_front, accepted}
use niubix.Session.Open.Accept.{Accepted, arriving, on_open_front-Accepted}
use niubix.Session.{
  FrontState, BackState, Task, Session, is_new, connecting, on_open, on_backend_connect_ok, do_task,
  run_task, is_dangling, backend_connect_ok, front_on_close, back_on_close,
}
use niubix.Session.Inv.{IsValid}
use niubix.Session.Reach.{Reach, here, next, connected, task, Reach-IsValid, quiet, close_both}

abbrev started : Session
started = connecting 4 7 0 0

-- Both sides are active.
abbrev running : Session
running = on_backend_connect_ok none true (record (on_open true started) { taskq = [] })

running_reached : Reach started running
unfolding connecting on_open backend_connect_ok on_backend_connect_ok do_task run_task is_dangling
running_reached =
    next (next here (connected true refl))
      (task none true Task.backend_conn_ok [] running refl refl)

Reach-IsValid_example : IsValid 4 7 running
Reach-IsValid_example = Reach-IsValid 4 7 0 0 running_reached

running_quiet :
    (is_new running.back.state ≡ false) × (running.taskq ≡ []) × (running.front.backend_conn ≡ true)
unfolding connecting on_open backend_connect_ok on_backend_connect_ok
running_quiet = (refl, refl, refl)

quiet_example :
    ((running.front.backend_conn ≡ true)
      × (running.back.frontend_conn ≡ true)
      × (running.front.state ≡ FrontState.active_ok)
      × (running.back.state ≡ BackState.active_ok))
    ⊎ ((running.front.freed ≡ true) × (running.back.freed ≡ true))
quiet_example = quiet 4 7 0 0 running running_reached running_quiet.0 running_quiet.1

close_both_example :
    let s' = front_on_close (back_on_close running) in
    (s'.taskq ≡ Task.backend_close ∷ []) × (run_task none true Task.backend_close [] s' ≡ none)
close_both_example =
    close_both 4 7 none true running Reach-IsValid_example running_quiet.2 running_quiet.1

abbrev app : AppConf
app = record {
  name = [];
  listen = [];
  protocol = http_protocol;
  http_host = [];
  is_default = true;
  balance_policy = roundrobin;
  connect_backend_timeout = pos 2000;
  frontend_a_complete_req_timeout = pos 5000;
  frontend_idle_timeout = pos 10000;
  with_x_forwarded_for = false;
  with_x_real_ip = false;
  backend_protocol = http_protocol;
  backend_list = [];
}

-- The backend is connected at once, and its descriptor cannot be polled.
abbrev unpolled : Results
unpolled = record {
  socket_ok = true;
  rcvbuf_ok = true;
  connects = at_once;
  add_ok = false;
  open_ok = true;
}

abbrev arrival : Opening
arrival = record {
  session = arriving 4 7 0 0;
  accepted_num = 0;
  backend_list = record fresh { weight = pos 1 } ∷ [];
  replies = [];
  is_polled = false;
}

on_open_front-Accepted_example :
    Accepted 4 7 0 0 unpolled app arrival
      (accepted (on_open_front true true unpolled (app ∷ []) arrival))
on_open_front-Accepted_example = on_open_front-Accepted 4 7 0 0 true unpolled app arrival refl
