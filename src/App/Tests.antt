-- ===== src/App/Tests.antt =====
-- Runs of the backend selection, and the theorems at concrete inputs.
use niubix.Base.{ℕ, zero, suc, ◌+◌, ◌*◌, ◌<◌, ◌≡◌, refl, true, List, [], ◌∷◌, none, some, arith}
use niubix.Base.Int.{pos, ◌+ℤ◌, ◌-ℤ◌}
use niubix.App.{
  Backend, fresh, skipped, get_backend_by_smooth_wrr, wrr_loop, visit, better, charge_best,
  charge_at,
}
use niubix.App.Choice.{Chosen, select_chooses}
use niubix.App.Balanced.{IsServing}
use niubix.App.Fair.{rounds, hits, IsFresh, hits_bound, total_of}
use niubix.App.Cycle.{cycle_exact}

abbrev weighing : ℕ → Backend
weighing w = record fresh { weight = pos w }

-- The weights 5, 1 and 1, with a fourth backend that is down.
abbrev sample : List Backend
sample = weighing 5 ∷ weighing 1 ∷ record (weighing 9) { down = true } ∷ weighing 1 ∷ []

sample_picks :
    (rounds 7 sample).1 ≡ some 0 ∷ some 0 ∷ some 1 ∷ some 0 ∷ some 3 ∷ some 0 ∷ some 0 ∷ []
unfolding rounds get_backend_by_smooth_wrr wrr_loop visit better charge_best charge_at skipped ◌+ℤ◌
    ◌-ℤ◌
sample_picks = refl

nobody_up :
    get_backend_by_smooth_wrr (record (weighing 3) { offline = true } ∷ [])
    ≡ (record (weighing 3) { offline = true } ∷ [], none)
unfolding get_backend_by_smooth_wrr wrr_loop visit charge_best skipped
nobody_up = refl

sample-IsFresh : IsFresh sample
sample-IsFresh zero (h, s) = refl
sample-IsFresh (suc zero) (h, s) = refl
sample-IsFresh (suc (suc zero)) (h, s) = refl
sample-IsFresh (suc (suc (suc zero))) (h, s) = refl
sample-IsFresh (suc (suc (suc (suc d)))) (h, s) = absurd (omega arith)

first_serves : IsServing sample 0
unfolding skipped
first_serves = (omega arith, refl)

cycle_exact_example :
    (hits 0 (rounds (total_of sample) sample).1 ≡ 5) × IsFresh (rounds (total_of sample) sample).0
cycle_exact_example = cycle_exact sample 0 sample-IsFresh first_serves

hits_bound_example : hits 0 (rounds 3 sample).1 * total_of sample < 3 * 5 + total_of sample
hits_bound_example = hits_bound 3 sample 0 sample-IsFresh first_serves

select_chooses_example : Chosen sample (get_backend_by_smooth_wrr sample)
select_chooses_example = select_chooses sample
