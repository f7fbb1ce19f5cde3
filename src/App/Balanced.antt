-- ===== src/App/Balanced.antt =====
-- The invariant of a list in balance: the `current`s in service add up to nothing, and none lies as
-- much as the total weight below zero.
use niubix.Base.{
  ℕ, zero, suc, ◌<◌, ◌≡◌, refl, ◌∙◌, sym, ap, false, List, [], ◌∷◌, Option, none, some, arith,
  if◌then◌else◌, length, Bool-cases, inl, inr, ◌==◌,
}
use niubix.Base.Int.{
  ℤ, pos, ◌+ℤ◌, ◌≤ℤ◌, ltb_ℤ, int_laws, add_right_cancel, ltb_ℤ→lt, ltb_ℤ→ge, pos_part, neg_part,
}
use niubix.App.{Backend, skipped, charge_at, get_backend_by_smooth_wrr}
use niubix.App.Pass.{bump, bump_all, total_weight, score-serving}
use niubix.App.Choice.{
  at, score, IsBest, Selects, select-Selects, length-bump_all, at-selected, at-bump_all,
}
use niubix.App.Total.{
  SameConfig, SameConfig-bump_all, SameConfig-charge_at, at-SameConfig, total_weight-SameConfig,
  length-SameConfig,
}

-- The `current`s of the backends that take part, added up.
unfoldable pub sum_serving : List Backend → ℤ
sum_serving [] = pos 0
sum_serving (bp ∷ bps) = if skipped bp then sum_serving bps else bp.current +ℤ sum_serving bps

abbrev pub IsServing : List Backend → ℕ → Type 0
IsServing bps i = (i < length bps) × (skipped (at bps i) ≡ false)

pub record IsBalanced (bps : List Backend) : Type 0 where
  pub zero_sum : sum_serving bps ≡ pos 0
  pub low : (d : ℕ) → IsServing bps d → pos 1 ≤ℤ (at bps d).current +ℤ total_weight bps

pub serving_weight : (bp : Backend) → skipped bp ≡ false → pos 1 ≤ℤ bp.weight
unfolding skipped
serving_weight bp e = ground arith

total_nonneg : (bps : List Backend) → pos 0 ≤ℤ total_weight bps
unfolding total_weight
total_nonneg [] = omega arith
total_nonneg (bp ∷ bps) = elim (Bool-cases (skipped bp)) [
  | inl e ↦ rw e (total_nonneg bps)
  | inr e ↦ rw e (omega (int_laws, total_nonneg bps, serving_weight bp e))
]

pub total_pos : (bps : List Backend) (i : ℕ) → IsServing bps i → pos 1 ≤ℤ total_weight bps
unfolding total_weight
total_pos [] i (h, e) = absurd (omega arith)
total_pos (bp ∷ bps) zero (h, e) = rw e (omega (int_laws, total_nonneg bps, serving_weight bp e))
total_pos (bp ∷ bps) (suc i) (h, s) = elim (Bool-cases (skipped bp)) [
  | inl e ↦ rw e (total_pos bps i (omega arith, s))
  | inr e ↦ rw e (omega (int_laws, total_nonneg bps, serving_weight bp e))
]

pub skipped-bump : (bp : Backend) → skipped (bump bp) ≡ skipped bp
unfolding bump skipped
skipped-bump bp = ground arith

pub sum_serving-bump_all :
    (bps : List Backend) → sum_serving (bump_all bps) ≡ sum_serving bps +ℤ total_weight bps
unfolding sum_serving bump_all total_weight
sum_serving-bump_all [] = omega int_laws
sum_serving-bump_all (bp ∷ bps) = elim (Bool-cases (skipped bp)) [
  | inl e ↦ rw (skipped-bump bp, e, sum_serving-bump_all bps) refl
  | inr e ↦ rw (skipped-bump bp, e, sum_serving-bump_all bps, ← score-serving bp e) (omega int_laws)
]

sum_serving-charge_at :
    (i : ℕ) (t : ℤ) (bps : List Backend)
    → IsServing bps i
    → sum_serving (charge_at i t bps) +ℤ t ≡ sum_serving bps
unfolding sum_serving charge_at skipped
sum_serving-charge_at i t [] (h, s) = absurd (omega arith)
sum_serving-charge_at zero t (bp ∷ bps) (h, s) = rw s (omega int_laws)
sum_serving-charge_at (suc i) t (bp ∷ bps) (h, s) = elim (Bool-cases (skipped bp)) [
  | inl e ↦ rw e (sum_serving-charge_at i t bps (omega arith, s))
  | inr e ↦ rw (e, ← sum_serving-charge_at i t bps (omega arith, s)) (omega int_laws)
]

-- If nobody in service is above zero, the sum is not either.
sum_serving_low :
    (bps : List Backend)
    → ((d : ℕ) → IsServing bps d → (at bps d).current ≤ℤ pos 0)
    → sum_serving bps ≤ℤ pos 0
unfolding sum_serving
sum_serving_low [] h = omega arith
sum_serving_low (bp ∷ bps) h =
    let rest = sum_serving_low bps (λ d (p, s). h (suc d) (omega arith, s)) in
    elim (Bool-cases (skipped bp)) [
      | inl e ↦ rw e rest
      | inr e ↦ rw e (omega (int_laws, rest, h 0 (omega arith, e)))
    ]

pub bumped-IsServing : (bps : List Backend) (d : ℕ) → IsServing (bump_all bps) d → IsServing bps d
bumped-IsServing bps d (h, s) =
    let inside : d < length bps = rw length-bump_all at h in
    (inside, sym (skipped-bump (at bps d)) ∙ rw (at-bump_all bps d inside) at s)

module _ (bps : List Backend) (b : IsBalanced bps) (j : ℕ) (c : ℤ) (best : IsBest bps j c) where
  -- The greatest score is above zero, since the scores add up to the total weight.
  best_pos : pos 1 ≤ℤ c
  best_pos = elim (Bool-cases (ltb_ℤ (pos 0) c)) [
    | inl e ↦ omega (int_laws, ltb_ℤ→lt (pos 0) c e)
    | inr e ↦
        let none_up : (d : ℕ)
            → IsServing (bump_all bps) d
            → (at (bump_all bps) d).current ≤ℤ pos 0 =
          λ d s.
            let (inside, serves) = bumped-IsServing bps d s in
            rw (at-bump_all bps d inside)
              (omega (arith, best.most d inside serves, ltb_ℤ→ge (pos 0) c e)) in
        absurd (
          omega (
            int_laws,
            sum_serving_low (bump_all bps) none_up,
            ap pos_part (sum_serving-bump_all bps),
            ap neg_part (sum_serving-bump_all bps),
            ap pos_part b.zero_sum,
            ap neg_part b.zero_sum,
            total_pos bps j (best.inside, best.serving),
          ))
  ]

  abbrev after : List Backend
  after = charge_at j (total_weight bps) (bump_all bps)

  after_zero_sum : sum_serving after ≡ pos 0
  after_zero_sum =
      let t = total_weight bps in
      let inside : j < length (bump_all bps) = rw length-bump_all best.inside in
      let serves : skipped (at (bump_all bps) j) ≡ false =
        rw (at-bump_all bps j best.inside, skipped-bump) best.serving in
      add_right_cancel _ _ t (
        sum_serving-charge_at j t (bump_all bps) (inside, serves)
        ∙ sum_serving-bump_all bps
        ∙ ap (λ s. s +ℤ t) b.zero_sum)

  -- A score stays above the bound, and the chosen one, above zero, falls by the total weight.
  after_low : (d : ℕ) → IsServing bps d → pos 1 ≤ℤ (at after d).current +ℤ total_weight bps
  after_low d (h, s) = elim (Bool-cases (j == d)) [
    | inl e ↦
        let same : j ≡ d = ground arith in
        let top : c ≡ score (at bps d) = rw same at best.value in
        rw (at-selected j bps d h, e) (omega (int_laws, rw top at best_pos))
    | inr e ↦
        rw (at-selected j bps d h, e, ← score-serving (at bps d) s)
          (omega (int_laws, b.low d (h, s), serving_weight (at bps d) s))
  ]

  after-SameConfig : SameConfig after bps
  after-SameConfig = SameConfig-charge_at j _ (bump_all bps) bps (SameConfig-bump_all bps)

  after-IsBalanced : IsBalanced after
  after-IsBalanced = record {
    zero_sum = after_zero_sum;
    low = λ d (h, s).
        let c = after-SameConfig in
        rw (total_weight-SameConfig after bps c) (
          after_low d
            (rw (length-SameConfig after bps c) at h, sym (at-SameConfig after bps d c).0 ∙ s));
  }

Selects-IsBalanced :
    (bps : List Backend) (r : List Backend × Option ℕ)
    → IsBalanced bps
    → Selects bps r
    → IsBalanced r.0
Selects-IsBalanced bps (bps', none) b (all, e) = rw e b
Selects-IsBalanced bps (bps', some j) b (c, best, e) = rw e (after-IsBalanced bps b j c best)

-- Every selection keeps a list in balance.
pub select-IsBalanced :
    (bps : List Backend) → IsBalanced bps → IsBalanced (get_backend_by_smooth_wrr bps).0
select-IsBalanced bps b = Selects-IsBalanced bps _ b (select-Selects bps)
