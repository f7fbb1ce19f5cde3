-- ===== src/HealthCheck/Pending.antt =====
-- A probe whose connect is in progress, until it is open or over.
use niubix.Base.{
  ℕ, ◌+◌, ◌≡◌, ◌⊎◌, refl, ap, sym, subst, Bool, true, false, ◌&&◌, List, [], ◌∷◌, inl, inr,
  if◌then◌else◌,
}
use niubix.Connector.{
  Call, connect_fail, connect_timeout, fd_set, opened, closed, Pending, Event, run, waiting,
}
use niubix.Connector.Once.{IsOver, run-IsOver}
use niubix.HealthCheck.{Check, new_probe, on_close, on_connect_fail, on_open, called}
use niubix.HealthCheck.Verdict.{IsOpen, report-silent}
use niubix.App.{backend_offline}
use native.Mathlib.Omega.{arith}

-- The probe is open, and nothing was told.
abbrev Opened : Check → Check → Type 0
Opened s s' = IsOpen s' × (s'.ab ≡ s.ab) × (s'.deletions ≡ s.deletions) × (s'.reports ≡ s.reports)

-- The probe has failed: a bad check was told `n` times, and the probe was deleted once.
abbrev Failed : ℕ → Check → Check → Type 0
Failed n s s' =
    (s'.has_conn ≡ false)
    × (s'.ab ≡ backend_offline s.ab)
    × (s'.deletions ≡ s.deletions + 1)
    × (s'.reports ≡ s.reports + n)

-- By the calls that the connector made, and whether `on_open` succeeds.
abbrev pub Reports : Bool → List Call → Check → Check → Type 0
Reports open_ok calls s s' =
    ((calls ≡ fd_set ∷ opened ∷ []) × (open_ok ≡ true) × Opened s s')
    ⊎ ((calls ≡ fd_set ∷ opened ∷ closed ∷ []) × (open_ok ≡ false) × Failed 1 s s')
    ⊎ (((calls ≡ connect_fail ∷ []) ⊎ (calls ≡ connect_timeout ∷ [])) × Failed 2 s s')

module _ (now : ℕ) (s : Check) (new : s.probe ≡ new_probe s.ab) where
  silent : s.probe.res_ok_time ≡ 0
  silent = ap (λ p. p.res_ok_time) new

  on_connect_fail-Failed : Failed 2 s (on_connect_fail s)
  unfolding on_connect_fail on_close backend_offline
  on_connect_fail-Failed =
      (refl, report-silent s.probe (backend_offline s.ab) silent, refl, omega arith)

  opened-Reports :
      (add_ok sent : Bool)
      → let calls = fd_set ∷ opened ∷ (if add_ok && sent then [] else closed ∷ []) in
        Reports (add_ok && sent) calls s (called now add_ok sent calls s)
  unfolding called on_open on_close
  opened-Reports true true = inl (
    refl,
    refl,
    (record { polled = refl; timed = refl; armed = refl; no_response = silent }, refl, refl, refl),
  )
  opened-Reports true false =
      inr (inl (refl, refl, (refl, report-silent _ s.ab silent, refl, refl)))
  opened-Reports false sent =
      inr (inl (refl, refl, (refl, report-silent s.probe s.ab silent, refl, refl)))

  by_calls :
      (add_ok sent : Bool) (p : Pending) (calls : List Call)
      → p.calls ≡ calls
      → Reports (add_ok && sent) calls s (called now add_ok sent calls s)
      → Reports (add_ok && sent) p.calls s (called now add_ok sent p.calls s)
  by_calls add_ok sent p calls e h =
      subst (λ cs. Reports (add_ok && sent) cs s (called now add_ok sent cs s)) (sym e) h

  over-Reports :
      (add_ok sent : Bool) (p : Pending)
      → IsOver (add_ok && sent) p
      → Reports (add_ok && sent) p.calls s (called now add_ok sent p.calls s)
  unfolding called
  over-Reports add_ok sent p o = elim o.told [
    | inl e ↦ by_calls add_ok sent p _ e (inr (inr (inl refl, on_connect_fail-Failed)))
    | inr (inl e) ↦ by_calls add_ok sent p _ e (inr (inr (inr refl, on_connect_fail-Failed)))
    | inr (inr e) ↦ by_calls add_ok sent p _ e (opened-Reports add_ok sent)
  ]

  -- A probe that waits for its connect, whatever events come for that: it still waits, with no call made; or it was
  -- opened, and if that succeeded nothing is told, and if not a bad check is told once; or the connect failed, and
  -- a bad check is told twice. The probe is deleted once if it was not opened or the opening failed.
  pub connect_run-Reports :
      (add_ok sent : Bool) (es : List Event)
      → (run (add_ok && sent) es waiting ≡ waiting)
        ⊎ Reports
            (add_ok && sent)
            (run (add_ok && sent) es waiting).calls
            s
            (called now add_ok sent (run (add_ok && sent) es waiting).calls s)
  connect_run-Reports add_ok sent es = elim (run-IsOver (add_ok && sent) es) [
    | inl e ↦ inl e
    | inr o ↦ inr (over-Reports add_ok sent _ o)
  ]
