-- ===== src/App/Total.antt =====
-- What selections keep: the configuration, the total weight, and the sum of the `current`s.
use niubix.Base.{
  ℕ, zero, suc, ◌<◌, ◌≡◌, refl, ◌∙◌, ap, List, [], ◌∷◌, Option, none, some, arith, length,
  Bool-cases, inl, inr,
}
use niubix.Base.Int.{ℤ, pos, ◌+ℤ◌, int_laws, add_right_cancel}
use niubix.App.{Backend, skipped, charge_at, get_backend_by_smooth_wrr}
use niubix.App.Pass.{bump, bump_all, total_weight}
use niubix.App.Choice.{at, Selects, select-Selects, length-bump_all}

-- The `current`s of all backends, added up.
abbrev pub sum_current : List Backend → ℤ
sum_current [] = pos 0
sum_current (bp ∷ bps) = bp.current +ℤ sum_current bps

sum_current-bump_all :
    (bps : List Backend) → sum_current (bump_all bps) ≡ sum_current bps +ℤ total_weight bps
unfolding bump_all bump total_weight
sum_current-bump_all [] = omega int_laws
sum_current-bump_all (bp ∷ bps) = elim (Bool-cases (skipped bp)) [
  | inl e ↦ rw (e, sum_current-bump_all bps) (omega int_laws)
  | inr e ↦ rw (e, sum_current-bump_all bps) (omega int_laws)
]

sum_current-charge_at :
    (i : ℕ) (t : ℤ) (bps : List Backend)
    → i < length bps
    → sum_current (charge_at i t bps) +ℤ t ≡ sum_current bps
unfolding charge_at
sum_current-charge_at i t [] h = absurd (omega arith)
sum_current-charge_at zero t (bp ∷ bps) h = omega int_laws
sum_current-charge_at (suc i) t (bp ∷ bps) h =
    let ih = sum_current-charge_at i t bps (omega arith) in rw (← ih) (omega int_laws)

selected_sum :
    (bps : List Backend) (r : List Backend × Option ℕ)
    → Selects bps r
    → sum_current r.0 ≡ sum_current bps
selected_sum bps (bps', none) (all, e) = ap sum_current e
selected_sum bps (bps', some j) (c, b, e) =
    let bumped = sum_current-bump_all bps in
    let charged =
      sum_current-charge_at j (total_weight bps) (bump_all bps) (rw length-bump_all b.inside) in
    rw e (add_right_cancel _ _ (total_weight bps) (charged ∙ bumped))

-- A selection leaves the sum of all the `current`s as it was, whichever backends are in service.
pub select-sum_current :
    (bps : List Backend) → sum_current (get_backend_by_smooth_wrr bps).0 ≡ sum_current bps
select-sum_current bps = selected_sum bps _ (select-Selects bps)

-- The configuration: what the loop tests and the weights.
abbrev pub SameConfig : List Backend → List Backend → Type 0
SameConfig [] [] = Unit {0}
SameConfig (a ∷ as') (b ∷ bs) = (skipped a ≡ skipped b) × (a.weight ≡ b.weight) × SameConfig as' bs
SameConfig _ _ = ⊥

pub SameConfig-refl : (bps : List Backend) → SameConfig bps bps
SameConfig-refl [] = tt
SameConfig-refl (bp ∷ bps) = (refl, refl, SameConfig-refl bps)

pub SameConfig-bump_all : (bps : List Backend) → SameConfig (bump_all bps) bps
unfolding bump_all bump skipped
SameConfig-bump_all [] = tt
SameConfig-bump_all (bp ∷ bps) = (ground arith, ground arith, SameConfig-bump_all bps)

pub SameConfig-charge_at :
    (i : ℕ) (t : ℤ) (as' bs : List Backend) → SameConfig as' bs → SameConfig (charge_at i t as') bs
unfolding charge_at skipped
SameConfig-charge_at i t [] bs c = c
SameConfig-charge_at i t (a ∷ as') [] c = elim c [ ]
SameConfig-charge_at zero t (a ∷ as') (b ∷ bs) c = c
SameConfig-charge_at (suc i) t (a ∷ as') (b ∷ bs) (p, q, c) =
    (p, q, SameConfig-charge_at i t as' bs c)

Selects-SameConfig :
    (bps : List Backend) (r : List Backend × Option ℕ) → Selects bps r → SameConfig r.0 bps
Selects-SameConfig bps (bps', none) (all, e) = rw e (SameConfig-refl bps)
Selects-SameConfig bps (bps', some j) (c, b, e) =
    rw e (SameConfig-charge_at j _ (bump_all bps) bps (SameConfig-bump_all bps))

pub select-SameConfig : (bps : List Backend) → SameConfig (get_backend_by_smooth_wrr bps).0 bps
select-SameConfig bps = Selects-SameConfig bps _ (select-Selects bps)

pub total_weight-SameConfig :
    (as' bs : List Backend) → SameConfig as' bs → total_weight as' ≡ total_weight bs
unfolding total_weight
total_weight-SameConfig [] [] c = refl
total_weight-SameConfig [] (b ∷ bs) c = elim c [ ]
total_weight-SameConfig (a ∷ as') [] c = elim c [ ]
total_weight-SameConfig (a ∷ as') (b ∷ bs) (p, q, c) = rw (p, q, total_weight-SameConfig as' bs c)

pub at-SameConfig :
    (as' bs : List Backend) (i : ℕ)
    → SameConfig as' bs
    → (skipped (at as' i) ≡ skipped (at bs i)) × ((at as' i).weight ≡ (at bs i).weight)
at-SameConfig [] [] i c = (refl, refl)
at-SameConfig [] (b ∷ bs) i c = elim c [ ]
at-SameConfig (a ∷ as') [] i c = elim c [ ]
at-SameConfig (a ∷ as') (b ∷ bs) zero (p, q, c) = (p, q)
at-SameConfig (a ∷ as') (b ∷ bs) (suc i) (p, q, c) = at-SameConfig as' bs i c

pub length-SameConfig : (as' bs : List Backend) → SameConfig as' bs → length as' ≡ length bs
length-SameConfig [] [] c = refl
length-SameConfig [] (b ∷ bs) c = elim c [ ]
length-SameConfig (a ∷ as') [] c = elim c [ ]
length-SameConfig (a ∷ as') (b ∷ bs) (p, q, c) = ap suc (length-SameConfig as' bs c)

pub SameConfig-trans :
    (as' bs cs : List Backend) → SameConfig as' bs → SameConfig bs cs → SameConfig as' cs
SameConfig-trans [] [] cs p q = q
SameConfig-trans [] (b ∷ bs) cs p q = elim p [ ]
SameConfig-trans (a ∷ as') [] cs p q = elim p [ ]
SameConfig-trans (a ∷ as') (b ∷ bs) [] p q = elim q [ ]
SameConfig-trans (a ∷ as') (b ∷ bs) (c ∷ cs) (p, p', p'') (q, q', q'') =
    (p ∙ q, p' ∙ q', SameConfig-trans as' bs cs p'' q'')
