-- ===== src/App/Cycle.antt =====
-- A whole cycle of selections: as many as the total weight.
use native.Mathlib.Decide.{dec_lt}
use native.Mathlib.Nat.{mul-le-mul_right, le_of_mul-le-mul_right}
use niubix.Base.{
  ℕ, zero, suc, ◌+◌, ◌*◌, ◌<◌, ◌≤◌, ◌≡◌, ◌∙◌, sym, ap, List, [], ◌∷◌, arith, Bool-cases, inl, inr,
}
use niubix.Base.Int.{pos, ◌≤ℤ◌, int_laws, pos_part, neg_part}
use niubix.App.{Backend, skipped}
use niubix.App.Choice.{at}
use niubix.App.Total.{at-SameConfig, length-SameConfig}
use niubix.App.Balanced.{IsServing, sum_serving, total_pos}
use niubix.App.Fair.{
  rounds, hits, IsFresh, IsFresh-IsBalanced, rounds-IsBalanced, rounds-SameConfig, fresh_account,
  hits_bound, weight_of, total_of, IsServing-SameConfig,
}

-- No backend is below zero and they add up to nothing, so each stands at zero.
nonneg_sum :
    (bps : List Backend)
    → ((d : ℕ) → IsServing bps d → pos 0 ≤ℤ (at bps d).current)
    → pos 0 ≤ℤ sum_serving bps
unfolding sum_serving
nonneg_sum [] h = omega arith
nonneg_sum (bp ∷ bps) h =
    let rest = nonneg_sum bps (λ d (p, s). h (suc d) (omega arith, s)) in
    elim (Bool-cases (skipped bp)) [
      | inl e ↦ rw e rest
      | inr e ↦ rw e (omega (int_laws, rest, h 0 (omega arith, e)))
    ]

zero_of_sum :
    (bps : List Backend)
    → ((d : ℕ) → IsServing bps d → pos 0 ≤ℤ (at bps d).current)
    → sum_serving bps ≤ℤ pos 0
    → IsFresh bps
unfolding sum_serving
zero_of_sum [] h z d (p, s) = absurd (omega arith)
zero_of_sum (bp ∷ bps) h z zero (p, s) =
    let rest = nonneg_sum bps (λ d (p, s). h (suc d) (omega arith, s)) in
    let z' = rw s at z in omega (int_laws, rest, z', h 0 (p, s))
zero_of_sum (bp ∷ bps) h z (suc d) (p, s) =
    let tail_nonneg : (d : ℕ) → IsServing bps d → pos 0 ≤ℤ (at bps d).current =
      λ d (p, s). h (suc d) (omega arith, s) in
    elim (Bool-cases (skipped bp)) [
      | inl e ↦ zero_of_sum bps tail_nonneg (rw e at z) d (omega arith, s)
      | inr e ↦
          let z' = rw e at z in
          zero_of_sum bps tail_nonneg (omega (int_laws, z', h 0 (omega arith, e))) d
            (omega arith, s)
    ]

quota_le : (h t w : ℕ) → h * t < t * w + t → h * t ≤ t * w
quota_le h t w p = elim (dec_lt w h) [
  | yes over ↦ absurd (omega (arith, mul-le-mul_right t over))
  | no within ↦ omega (arith, mul-le-mul_right {m = h} {n = w} t (omega arith))
]

quota_eq : (h t w : ℕ) → 0 < t → h * t ≡ t * w → h ≡ w
quota_eq h t w p e =
    let up : h ≤ w = le_of_mul-le-mul_right {k = t} (omega arith) p in
    let down : w ≤ h = le_of_mul-le-mul_right {k = t} (omega arith) p in omega arith

-- A cycle brings every serving backend back to zero.
cycle-IsFresh : (bps : List Backend) → IsFresh bps → IsFresh (rounds (total_of bps) bps).0
cycle-IsFresh bps f =
    let t = total_of bps in
    let bps' = (rounds t bps).0 in
    let c = rounds-SameConfig t bps in
    let b = rounds-IsBalanced t bps (IsFresh-IsBalanced bps f) in
    let back : (d : ℕ) → IsServing bps' d → IsServing bps d = λ d (h, s).
      (rw (length-SameConfig bps' bps c) at h, sym (at-SameConfig bps' bps d c).0 ∙ s) in
    let above : (d : ℕ) → IsServing bps' d → pos 0 ≤ℤ (at bps' d).current = λ d s.
      let e = fresh_account t bps d f (back d s) in
      let q =
        quota_le (hits d (rounds t bps).1) t (weight_of bps d) (hits_bound t bps d f (back d s)) in
      omega (int_laws, ap pos_part e, ap neg_part e, q) in
    zero_of_sum bps' above (omega (int_laws, ap pos_part b.zero_sum, ap neg_part b.zero_sum))

-- From a fresh start, over one cycle of as many selections as the total weight, a serving backend is
-- returned exactly as often as its weight says, and the cycle ends in a fresh state again.
pub cycle_exact :
    (bps : List Backend) (i : ℕ)
    → IsFresh bps
    → IsServing bps i
    → (hits i (rounds (total_of bps) bps).1 ≡ weight_of bps i)
      × IsFresh (rounds (total_of bps) bps).0
cycle_exact bps i f s =
    let t = total_of bps in
    let c = rounds-SameConfig t bps in
    let again = cycle-IsFresh bps f in
    let e = fresh_account t bps i f s in
    let z = again i (IsServing-SameConfig (rounds t bps).0 bps i c s) in
    (
      quota_eq _ t (weight_of bps i) (omega (arith, total_pos bps i s))
          (omega (int_laws, ap pos_part e, ap neg_part e, ap pos_part z, ap neg_part z)),
      again,
    )
