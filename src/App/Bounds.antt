-- ===== src/App/Bounds.antt =====
-- How far the `current`s move, which says when the C++ ints do not overflow.
use native.Mathlib.Nat.{zero-mul}
use niubix.Base.{ℕ, zero, suc, ◌*◌, ap, List, [], ◌∷◌, arith, length, Bool-cases, inl, inr}
use niubix.Base.Int.{pos, ◌+ℤ◌, ◌≤ℤ◌, int_laws, pos_part}
use niubix.App.{Backend, skipped}
use niubix.App.Pass.{bump_all, total_weight, score-serving}
use niubix.App.Choice.{at, score, at-bump_all, length-bump_all}
use niubix.App.Total.{length-SameConfig, total_weight-SameConfig}
use niubix.App.Balanced.{
  IsServing, IsBalanced, sum_serving, sum_serving-bump_all, skipped-bump, bumped-IsServing,
  serving_weight, total_pos,
}
use niubix.App.Fair.{
  rounds, rounds-IsBalanced, rounds-SameConfig, IsServing-SameConfig, IsFresh, IsFresh-IsBalanced,
  total_of, pos_pos,
}

-- No backend in service lies `t` or more below zero.
abbrev Above : ℕ → List Backend → Type 0
Above t bps = (d : ℕ) → IsServing bps d → pos 1 ≤ℤ (at bps d).current +ℤ pos t

sum_above :
    (t : ℕ) (bps : List Backend) → Above t bps → pos 0 ≤ℤ sum_serving bps +ℤ pos (length bps * t)
unfolding sum_serving
sum_above t [] h = rw zero-mul (omega int_laws)
sum_above t (bp ∷ bps) h =
    let rest = sum_above t bps (λ d (p, s). h (suc d) (omega arith, s)) in
    elim (Bool-cases (skipped bp)) [
      | inl e ↦ rw e (omega (int_laws, rest))
      | inr e ↦ rw e (omega (int_laws, rest, h 0 (omega arith, e)))
    ]

-- So none lies far above it: the others together cannot make up for more.
one_below :
    (t : ℕ) (bps : List Backend) (i : ℕ)
    → Above t bps
    → IsServing bps i
    → (at bps i).current +ℤ pos t ≤ℤ sum_serving bps +ℤ pos (length bps * t)
unfolding sum_serving
one_below t [] i h (p, s) = absurd (omega arith)
one_below t (bp ∷ bps) zero h (p, s) =
    rw s (omega (int_laws, sum_above t bps (λ d (p, s). h (suc d) (omega arith, s))))
one_below t (bp ∷ bps) (suc i) h (p, s) =
    let rest = one_below t bps i (λ d (p, s). h (suc d) (omega arith, s)) (omega arith, s) in
    elim (Bool-cases (skipped bp)) [
      | inl e ↦ rw e (omega (int_laws, rest))
      | inr e ↦ rw e (omega (int_laws, rest, h 0 (omega arith, e)))
    ]

module _ (bps : List Backend) (b : IsBalanced bps) where
  bumped-Above : (i : ℕ) → IsServing bps i → Above (total_of bps) (bump_all bps)
  bumped-Above i s d sd =
      let (h, e) = bumped-IsServing bps d sd in
      let t = pos_pos (total_weight bps) (total_pos bps i s) in
      rw (at-bump_all bps d h, ← score-serving (at bps d) e, ← t)
        (omega (int_laws, b.low d (h, e), serving_weight (at bps d) e))

  score_bounds :
      (i : ℕ)
      → IsServing bps i
      → (pos 1 ≤ℤ (at bps i).current +ℤ pos (total_of bps))
        × (score (at bps i) ≤ℤ pos (length bps * total_of bps))
  score_bounds i (h, e) =
      let s : IsServing bps i = (h, e) in
      let t = pos_pos (total_weight bps) (total_pos bps i s) in
      let serves : IsServing (bump_all bps) i =
        (rw length-bump_all h, rw (at-bump_all bps i h, skipped-bump) e) in
      let top = one_below (total_of bps) (bump_all bps) i (bumped-Above i s) serves in
      let sum = sum_serving-bump_all bps in
      (
        rw t at (b.low i s),
        omega (int_laws, rw (at-bump_all bps i h, length-bump_all, sum, b.zero_sum, t) at top),
      )

-- From a fresh start, after any number of selections, the `current` of a backend in service, also
-- while the next selection adds its weight, lies above minus the total weight and is at most the
-- number of backends times the total weight.
pub current_bounds :
    (n : ℕ) (bps : List Backend) (i : ℕ)
    → IsFresh bps
    → IsServing bps i
    → let bps' = (rounds n bps).0 in
      (pos 1 ≤ℤ (at bps' i).current +ℤ pos (total_of bps))
      × (score (at bps' i) ≤ℤ pos (length bps * total_of bps))
current_bounds n bps i f s =
    let c = rounds-SameConfig n bps in
    let b = rounds-IsBalanced n bps (IsFresh-IsBalanced bps f) in
    rw (← length-SameConfig _ bps c, ← ap pos_part (total_weight-SameConfig _ bps c))
      (score_bounds _ b i (IsServing-SameConfig _ bps i c s))
