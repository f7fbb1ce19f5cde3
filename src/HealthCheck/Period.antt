-- ===== src/HealthCheck/Period.antt =====
-- What a period of the check does.
use niubix.Base.{
  ℕ, ◌+◌, ◌≡◌, ◌⊎◌, refl, sym, subst, Bool, true, false, ◌&&◌, if◌then◌else◌, inl, inr,
}
use niubix.Base.Int.{ℤ}
use niubix.App.{backend_offline}
use niubix.Connector.{Results, Owner, Outcome, connect}
use niubix.Connector.Setup.{
  OpensAtOnce, OpensInVain, Waits, Fails, Settles, opens, opens_in_vain, waits, fails,
  connect-Settles,
}
use niubix.HealthCheck.{Check, new_probe, on_close, on_open, called, kept, period}
use niubix.HealthCheck.Verdict.{IsOpen, report-silent}
use native.Mathlib.Omega.{arith}

-- A probe is on its way, and nothing was told.
abbrev Kept : Check → Check → Type 0
Kept s s' =
    (s'.has_conn ≡ true) × (s'.ab ≡ s.ab) × (s'.deletions ≡ s.deletions) × (s'.reports ≡ s.reports)

-- The connect failed before the probe was opened.
abbrev FailedAtOnce : Check → Check → Type 0
FailedAtOnce s s' =
    (s'.has_conn ≡ false)
    × (s'.ab ≡ s.ab)
    × (s'.deletions ≡ s.deletions + 1)
    × (s'.reports ≡ s.reports)

-- The probe was connected at once and could not be opened.
abbrev OpenedInVain : Check → Check → Type 0
OpenedInVain s s' =
    (s'.has_conn ≡ false)
    × (s'.ab ≡ backend_offline s.ab)
    × (s'.deletions ≡ s.deletions + 2)
    × (s'.reports ≡ s.reports + 1)

-- `on_open` succeeds if its descriptor is polled and its request is sent.
abbrev pub with_open : Results → Bool → Results
with_open r sent = record r { open_ok = r.add_ok && sent }

-- A period, by what the system calls return.
abbrev pub OnePeriod : Results → Bool → ℤ → Check → Check → Type 0
OnePeriod r sent timeout s s' =
    let r' = with_open r sent in
    (OpensAtOnce r' timeout false × Kept s s' × IsOpen s')
    ⊎ (Waits r' timeout false × Kept s s' × (s'.probe ≡ new_probe s.ab))
    ⊎ ((owner : Owner) × Fails r' timeout false owner × FailedAtOnce s s')
    ⊎ (OpensInVain r' timeout false × OpenedInVain s s')

else_branch : (b : Bool) (x y : Check) → b ≡ false → (if b then x else y) ≡ y
else_branch b x y e = rw e refl

module _ (now : ℕ) (s : Check) where
  abbrev begun : Check
  begun = record s { probe = new_probe s.ab }

  opened_well :
      (add_ok sent : Bool) (o : Outcome)
      → o.result ≡ true
      → (add_ok && sent) ≡ true
      → Kept s (kept o (on_open now add_ok sent begun).1)
        × IsOpen (kept o (on_open now add_ok sent begun).1)
  unfolding on_open kept
  opened_well true true o e h = rw e (
    (refl, refl, refl, refl),
    record { polled = refl; timed = refl; armed = refl; no_response = refl },
  )
  opened_well true false o e h = absurd (ground (arith, h))
  opened_well false sent o e h = absurd (ground (arith, h))

  opened_badly :
      (add_ok sent : Bool) (o : Outcome)
      → o.result ≡ false
      → (add_ok && sent) ≡ false
      → OpenedInVain s (kept o (on_close (on_open now add_ok sent begun).1))
  unfolding on_open kept on_close
  opened_badly true true o e h = absurd (ground (arith, h))
  opened_badly true false o e h = rw e (refl, report-silent _ s.ab refl, omega arith, refl)
  opened_badly false sent o e h = rw e (refl, report-silent _ s.ab refl, omega arith, refl)

  connect_kept :
      (r : Results) (sent : Bool) (timeout : ℤ) (o : Outcome)
      → s.has_conn ≡ false
      → Settles (with_open r sent) timeout false o
      → OnePeriod r sent timeout s (kept o (called now r.add_ok sent o.calls begun))
  unfolding called kept
  connect_kept r sent timeout o f (opens h) =
      let (same, is_open) = opened_well r.add_ok sent o refl h.2 in inl (h, same, is_open)
  connect_kept r sent timeout o f (waits h) = inr (inl (h, (refl, refl, refl, refl), refl))
  connect_kept r sent timeout o f (fails {owner = w} h) =
      inr (inr (inl (w, h, (f, refl, refl, refl))))
  connect_kept r sent timeout o f (opens_in_vain h) =
      inr (inr (inr (h, opened_badly r.add_ok sent o refl h.2)))

-- A period of a check that has no probe does what the results of the system calls ask for: if the connect is made
-- at once and the request is sent, the probe is open; if the connect goes on, the probe waits for it; if it fails at
-- once, for whatever reason, the probe is deleted and nothing is told of the backend; if the probe was opened in
-- vain, a bad check is told once, and the probe is deleted twice.
pub period-OnePeriod :
    (now : ℕ) (r : Results) (sent : Bool) (connect_backend_timeout : ℤ) (s : Check)
    → s.has_conn ≡ false
    → OnePeriod r sent connect_backend_timeout s (period now r sent connect_backend_timeout s)
unfolding period
period-OnePeriod now r sent connect_backend_timeout s f =
    let o = connect (with_open r sent) connect_backend_timeout false in
    subst (OnePeriod r sent connect_backend_timeout s) (sym (else_branch s.has_conn s _ f)) (
      connect_kept now s r sent connect_backend_timeout o f
        (connect-Settles (with_open r sent) connect_backend_timeout false).0)
