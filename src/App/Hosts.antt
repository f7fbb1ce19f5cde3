-- ===== src/App/Hosts.antt =====
-- The administrator's changes, by host.
use niubix.Base.{
  ℕ, suc, ◌<◌, ◌≡◌, refl, ◌⊎◌, inl, inr, Bool, true, false, List, [], ◌∷◌, arith, length, set,
  Bool-cases, every_cons, same_bytes,
}
use niubix.Base.Int.{ℤ}
use niubix.App.{Backend, fresh, set_first, set_backend_down, set_backend_weight}
use niubix.App.Choice.{at}

-- Exactly the first backend of the host is changed and true returned; if none has the host, nothing
-- is changed and false returned.
abbrev pub FirstChanged : List ℕ → (Backend → Backend) → List Backend → List Backend × Bool → Type 0
FirstChanged host change bps r =
    (((d : ℕ) → d < length bps → same_bytes (at bps d).host host ≡ false) × (r ≡ (bps, false)))
    ⊎ ((i : ℕ) × (i < length bps)
        × (same_bytes (at bps i).host host ≡ true)
        × ((d : ℕ) → d < i → same_bytes (at bps d).host host ≡ false)
        × (r ≡ (set bps i (change (at bps i)), true)))

set_first_lem :
    (host : List ℕ) (change : Backend → Backend) (bps : List Backend)
    → FirstChanged host change bps (set_first host change bps)
unfolding set_first
set_first_lem host change [] = inl (λ d h. absurd (omega arith), refl)
set_first_lem host change (bp ∷ bps) =
    let Other : Backend → Type 0 = λ b. same_bytes b.host host ≡ false in
    elim (Bool-cases (same_bytes bp.host host)) [
      | inl e ↦ inr (0, omega arith, e, λ d h. absurd (omega arith), rw e refl)
      | inr e ↦ elim (set_first_lem host change bps) [
        | inl (all, r) ↦ inl (every_cons Other fresh bp bps (length bps) e all, rw (e, r) refl)
        | inr (i, h, m, before, r) ↦
            inr (suc i, omega arith, m, every_cons Other fresh bp bps i e before, rw (e, r) refl)
      ]
    ]

-- Both setters change the first backend of the host in the one field and leave the others, and
-- report whether there was one.
pub setters_lem :
    (host : List ℕ) (st : Bool) (weight : ℤ) (bps : List Backend)
    → FirstChanged host (λ bp. record bp { down = st }) bps (set_backend_down host st bps)
      × FirstChanged host
          (λ bp. record bp { weight = weight })
          bps
          (set_backend_weight host weight bps)
unfolding set_backend_down set_backend_weight
setters_lem host st weight bps = (set_first_lem host _ bps, set_first_lem host _ bps)
