-- ===== src/HealthCheck/Verdict.antt =====
-- What a probe says of its backend.
use niubix.Base.{
  ℕ, ◌+◌, ◌<◌, ◌≡◌, refl, sym, subst, ap, ◌∙◌, ltb, Bool, true, false, not, List, [], ◌∷◌, Option,
  none, some, if◌then◌else◌,
}
use niubix.Base.Int.{◌-ℤ◌}
use niubix.App.{Backend, backend_offline, backend_online}
use niubix.HealthCheck.{
  Probe, Check, report, on_close, on_read, on_timeout, response, ended, nothing_yet, Event,
  readable, hup, expiry, handle, run,
}
use native.Mathlib.Omega.{arith}

-- The first event that ends a probe whose request was sent at `start`, and whether it is a response in time.
unfoldable pub verdict : ℕ → ℕ → List (ℕ × Event) → Option Bool
verdict start limit [] = none
verdict start limit ((now, readable nothing_yet) ∷ events) = verdict start limit events
verdict start limit ((now, readable response) ∷ events) = some (not (ltb (start + limit) now))
verdict start limit (_ ∷ events) = some false

-- A check whose probe is open.
pub record IsOpen (s : Check) : Type 0 where
  pub polled : s.probe.polled ≡ true
  pub timed : s.probe.has_timer ≡ true
  pub armed : s.probe.my_timer_trigger ≡ false
  pub no_response : s.probe.res_ok_time ≡ 0

-- A check whose probe was deleted: nothing calls it again.
pub record IsClosed (s : Check) : Type 0 where
  pub no_conn : s.has_conn ≡ false
  pub unpolled : s.probe.polled ≡ false
  pub untimed : s.probe.has_timer ≡ false

closed_handled : (now : ℕ) (e : Event) (s : Check) → IsClosed s → handle now e s ≡ s
unfolding handle
closed_handled now (readable r) s c = rw c.unpolled refl
closed_handled now hup s c = rw c.unpolled refl
closed_handled now expiry s c = rw c.untimed refl

closed_run : (es : List (ℕ × Event)) (s : Check) → IsClosed s → run es s ≡ s
unfolding run
closed_run [] s c = refl
closed_run ((now, e) ∷ es) s c = ap (run es) (closed_handled now e s c) ∙ closed_run es s c

-- What a verdict does to the backend.
abbrev pub told : Bool → Backend → Backend
told good ab = if good then backend_online ab else backend_offline ab

-- The probe has ended with this verdict, told once, and was deleted once.
pub record Ended (good : Bool) (s s' : Check) : Type 0 where
  pub closed : IsClosed s'
  pub reported : s'.ab ≡ told good s.ab
  pub once : s'.deletions ≡ s.deletions + 1
  pub told_once : s'.reports ≡ s.reports + 1

pub report-silent :
    (p : Probe) (ab : Backend) → p.res_ok_time ≡ 0 → report p ab ≡ backend_offline ab
unfolding report
report-silent p ab e = rw e refl

report-response :
    (p : Probe) (ab : Backend)
    → 0 < p.res_ok_time
    → report p ab ≡ told (not (ltb (p.req_time + p.health_check_timeout) p.res_ok_time)) ab
unfolding report ◌-ℤ◌
report-response p ab h = ground arith

silent-Ended :
    (s s' : Check)
    → s'.ab ≡ backend_offline s.ab
    → IsClosed s'
    → s'.deletions ≡ s.deletions + 1
    → s'.reports ≡ s.reports + 1
    → Ended false s s'
silent-Ended s s' a c d n = record { closed = c; reported = a; once = d; told_once = n }

hup-Ended : (now : ℕ) (s : Check) → IsOpen s → Ended false s (handle now hup s)
unfolding handle on_close
hup-Ended now s o =
    simp (o.polled, o.armed)
      (silent-Ended s _ (report-silent _ s.ab o.no_response)
        (record { no_conn = refl; unpolled = refl; untimed = refl }) refl refl)

expiry-Ended : (now : ℕ) (s : Check) → IsOpen s → Ended false s (handle now expiry s)
unfolding handle on_timeout on_close
expiry-Ended now s o = simp o.timed (
    silent-Ended s _ (report-silent _ s.ab o.no_response)
      (record { no_conn = refl; unpolled = refl; untimed = refl }) refl refl)

ended-Ended : (now : ℕ) (s : Check) → IsOpen s → Ended false s (handle now (readable ended) s)
unfolding handle on_read on_close
ended-Ended now s o =
    simp (o.polled, o.armed)
      (silent-Ended s _ (report-silent _ s.ab o.no_response)
        (record { no_conn = refl; unpolled = refl; untimed = refl }) refl refl)

response-Ended :
    (now : ℕ) (s : Check)
    → IsOpen s
    → 0 < now
    → Ended
        (not (ltb (s.probe.req_time + s.probe.health_check_timeout) now))
        s
        (handle now (readable response) s)
unfolding handle on_read on_close
response-Ended now s o h =
    simp (o.polled, o.armed)
      (record {
        closed = record { no_conn = refl; unpolled = refl; untimed = refl };
        reported = report-response _ s.ab h;
        once = refl;
        told_once = refl;
      })

waiting_handled : (now : ℕ) (s : Check) → IsOpen s → handle now (readable nothing_yet) s ≡ s
unfolding handle on_read
waiting_handled now s o = rw o.polled refl

-- `now_msec` is past 1970.
abbrev pub Timed : List (ℕ × Event) → Type 0
Timed [] = Unit {0}
Timed ((now, e) ∷ es) = (0 < now) × Timed es

-- The effect of a verdict: without one the check is as it was.
abbrev pub Gives : Option Bool → Check → Check → Type 0
Gives none s s' = s' ≡ s
Gives (some good) s s' = Ended good s s'

after_end :
    (good : Bool) (es : List (ℕ × Event)) (s s' : Check)
    → Ended good s s'
    → Ended good s (run es s')
after_end good es s s' e = subst (Ended good s) (sym (closed_run es s' e.closed)) e

-- A probe that is open, under any events in any order: until the first one that ends it nothing changes, and
-- that one gives the verdict, once: the backend is told a good check exactly if it is a response within the
-- timeout, else a bad one. The probe is deleted once, and neither the poller nor the timer calls it again.
pub run-Gives :
    (es : List (ℕ × Event)) (s : Check)
    → IsOpen s
    → Timed es
    → Gives (verdict s.probe.req_time s.probe.health_check_timeout es) s (run es s)
unfolding run verdict
run-Gives [] s o t = refl
run-Gives ((now, readable response) ∷ es) s o (h, t) = after_end _ es s _ (response-Ended now s o h)
run-Gives ((now, readable ended) ∷ es) s o t = after_end _ es s _ (ended-Ended now s o)
run-Gives ((now, readable nothing_yet) ∷ es) s o (h, t) =
    let same = waiting_handled now s o in
    subst (λ s'. Gives (verdict s.probe.req_time s.probe.health_check_timeout es) s (run es s'))
      (sym same) (run-Gives es s o t)
run-Gives ((now, hup) ∷ es) s o t = after_end _ es s _ (hup-Ended now s o)
run-Gives ((now, expiry) ∷ es) s o t = after_end _ es s _ (expiry-Ended now s o)
