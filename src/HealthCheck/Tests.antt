-- ===== src/HealthCheck/Tests.antt =====
-- A probe that is answered in time, and one that is opened in vain.
use niubix.Base.{ℕ, ◌≡◌, ◌⊎◌, refl, true, false, List, [], ◌∷◌, some}
use niubix.Base.Int.{pos}
use niubix.App.{fresh}
use niubix.Connector.{at_once, Results}
use niubix.HealthCheck.{
  Probe, Check, new_probe, Event, readable, response, nothing_yet, expiry, run, called, period,
}
use niubix.HealthCheck.Verdict.{Gives, verdict, run-Gives}
use niubix.Connector
use niubix.HealthCheck.Pending.{Reports, connect_run-Reports}
use niubix.HealthCheck.Period.{OnePeriod, period-OnePeriod}
use native.Mathlib.Omega.{arith}

abbrev idle : Check
idle = record { ab = fresh; has_conn = false; probe = new_probe fresh; deletions = 0; reports = 0 }

abbrev open_probe : Probe
open_probe = record {
  my_timer_trigger = false;
  health_check_timeout = 500;
  req_time = 1000;
  res_ok_time = 0;
  polled = true;
  has_timer = true;
}

abbrev probing : Check
probing = record idle { has_conn = true; probe = open_probe }

abbrev events : List (ℕ × Event)
events = (1100, readable nothing_yet) ∷ (1400, readable response) ∷ (1500, expiry) ∷ []

answered_in_time : verdict 1000 500 events ≡ some true
unfolding verdict
answered_in_time = refl

run-Gives_example : Gives (verdict 1000 500 events) probing (run events probing)
run-Gives_example =
    run-Gives events probing
      (record { polled = refl; timed = refl; armed = refl; no_response = refl })
      (omega arith, (omega arith, (omega arith, tt)))

abbrev connected_now : Results
connected_now = record {
  socket_ok = true;
  rcvbuf_ok = true;
  connects = at_once;
  add_ok = false;
  open_ok = false;
}

period-OnePeriod_example :
    OnePeriod connected_now true (pos 2000) idle (period 1000 connected_now true (pos 2000) idle)
period-OnePeriod_example = period-OnePeriod 1000 connected_now true (pos 2000) idle refl

-- The connect of a probe runs into its timeout.
connect_run-Reports_example :
    (Connector.run true (Connector.timer ∷ []) Connector.waiting ≡ Connector.waiting)
    ⊎ Reports true (Connector.run true (Connector.timer ∷ []) Connector.waiting).calls idle (
        called 1000 true true
          (Connector.run true (Connector.timer ∷ []) Connector.waiting).calls
          idle)
connect_run-Reports_example = connect_run-Reports 1000 idle refl true true (Connector.timer ∷ [])
