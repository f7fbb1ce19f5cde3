-- ===== src/HealthCheck.antt =====
-- src/health_check.h and src/health_check.cpp: `http_health_check`, which probes one backend, and
-- `http_health_check_conn`, its connection. Times are those of `now_msec`, never 0. The bytes of the
-- request and `destroy` are not here.
pub mod Verdict
pub mod Period
pub mod Pending
mod Tests
use niubix.Base.{ℕ, ◌+◌, ltb, Bool, true, false, not, ◌&&◌, List, [], ◌∷◌, if◌then◌else◌}
use niubix.Base.Int.{ℤ, pos, ◌-ℤ◌, ltb_ℤ}
use niubix.App.{Backend, backend_offline, backend_online}
use niubix.Connector.{
  Call, connect_fail, connect_timeout, fd_set, opened, closed, Results, Outcome, connect,
}

-- The connection; `polled` and `has_timer`: its descriptor is in the poller, its timer is scheduled.
pub record Probe : Type 0 where
  pub my_timer_trigger : Bool
  pub health_check_timeout : ℕ
  pub req_time : ℕ
  pub res_ok_time : ℕ
  pub polled : Bool
  pub has_timer : Bool

-- `has_conn` is `conn != nullptr`; `deletions` counts the calls of `delete` for the connection, and
-- `reports` those of `backend_offline` and `backend_online` of the check.
pub record Check : Type 0 where
  pub ab : Backend
  pub has_conn : Bool
  pub probe : Probe
  pub deletions : ℕ
  pub reports : ℕ

abbrev pub new_probe : Backend → Probe
new_probe ab = record {
  my_timer_trigger = true;
  health_check_timeout = ab.health_check_timeout;
  req_time = 0;
  res_ok_time = 0;
  polled = false;
  has_timer = false;
}

-- What `on_close` reports of the backend.
pub report : Probe → Backend → Backend
report p ab =
    if ltb 0 p.res_ok_time
    then (if ltb_ℤ (pos p.health_check_timeout) (pos p.res_ok_time -ℤ pos p.req_time)
        then backend_offline ab
        else backend_online ab)
    else backend_offline ab

pub on_close : Check → Check
on_close s =
    let has_timer = if not s.probe.my_timer_trigger then false else s.probe.has_timer in
    record s {
      ab = report s.probe s.ab;
      has_conn = false;
      probe = record (s.probe) { has_timer = has_timer };
      deletions = s.deletions + 1;
      reports = s.reports + 1;
    }

pub on_connect_fail : Check → Check
on_connect_fail s = on_close (record s { ab = backend_offline s.ab; reports = s.reports + 1 })

-- `add_ok`: `add_ev` succeeds; `sent`: what `send` returns is not 0, which it is not for a failure either.
pub on_open : ℕ → Bool → Bool → Check → Bool × Check
on_open now add_ok sent s =
    let p = record (s.probe) {
      my_timer_trigger = false;
      has_timer = true;
      polled = true;
      req_time = now;
    } in
    if not add_ok then (false, s) else (sent, record s { probe = p })

-- What `recv` gives: data, the end, or nothing yet.
pub data Received : Type 0 where
  response ended nothing_yet : Received

pub on_read : ℕ → Received → Check → Bool × Check
on_read now response s = (false, record s { probe = record (s.probe) { res_ok_time = now } })
on_read now ended s = (false, s)
on_read now nothing_yet s = (true, s)

pub on_timeout : Check → Check
on_timeout s =
    on_close (record s { probe = record (s.probe) { my_timer_trigger = true; polled = false } })

-- A ready event of the descriptor, with what can be received, or only the end of the connection, and the
-- expiry of the timer.
pub data Event : Type 0 where
  readable : Received → Event
  hup expiry : Event

-- `evpoll::run` removes the descriptor before it calls `on_close`.
abbrev pub unpolled : Check → Check
unpolled s = record s { probe = record (s.probe) { polled = false } }

abbrev pub answered : Bool × Check → Check
answered (true, s) = s
answered (false, s) = on_close (unpolled s)

pub handle : ℕ → Event → Check → Check
handle now (readable r) s = if s.probe.polled then answered (on_read now r s) else s
handle now hup s = if s.probe.polled then on_close (unpolled s) else s
handle now expiry s =
    if s.probe.has_timer
    then on_timeout (record s { probe = record (s.probe) { has_timer = false } })
    else s

-- Any events at any times.
pub run : List (ℕ × Event) → Check → Check
run [] s = s
run ((now, e) ∷ events) s = run events (handle now e s)

-- The calls that the connector makes at once; `on_open` is made with what it needs.
pub called : ℕ → Bool → Bool → List Call → Check → Check
called now add_ok sent [] s = s
called now add_ok sent (connect_fail ∷ calls) s = called now add_ok sent calls (on_connect_fail s)
called now add_ok sent (connect_timeout ∷ calls) s =
    called now add_ok sent calls (on_connect_fail s)
called now add_ok sent (fd_set ∷ calls) s = called now add_ok sent calls s
called now add_ok sent (opened ∷ calls) s =
    called now add_ok sent calls (on_open now add_ok sent s).1
called now add_ok sent (closed ∷ calls) s = called now add_ok sent calls (on_close s)

-- What follows `connect`: the connection is deleted or kept.
pub kept : Outcome → Check → Check
kept o s =
    if not o.result then record s { deletions = s.deletions + 1 } else record s { has_conn = true }

-- `http_health_check::on_timeout`, at each period; the results of the system calls are those that `connect`
-- gets; `sent` is that of `send` in `on_open`.
pub period : ℕ → Results → Bool → ℤ → Check → Check
period now r sent connect_backend_timeout s =
    let o = connect (record r { open_ok = r.add_ok && sent }) connect_backend_timeout false in
    if s.has_conn
    then s
    else kept o (called now r.add_ok sent o.calls (record s { probe = new_probe s.ab }))
