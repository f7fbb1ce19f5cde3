-- ===== src/App/Choice.antt =====
-- Which backend one selection picks.
use native.Mathlib.Decide.{dec_lt}
use niubix.Base.{
  ℕ, zero, suc, ◌<◌, ◌≡◌, refl, ◌∙◌, ap, Bool, true, false, List, [], ◌∷◌, ◌++◌, Option, none, some,
  arith, if◌then◌else◌, get_or, length, length-append, get_or-append_left, get_or-append_self,
  Bool-cases, inl, inr, ◌==◌,
}
use niubix.Base.Int.{ℤ, pos, ◌+ℤ◌, ◌≤ℤ◌, ◌<ℤ◌, ltb_ℤ, int_laws, ltb_ℤ→lt, ltb_ℤ→ge}
use niubix.App.{
  Backend, Best, fresh, skipped, visit, better, wrr_loop, charge_best, get_backend_by_smooth_wrr,
  charge_at, charge,
}
use niubix.App.Pass.{bump, score-serving, bump_all, total_weight, wrr_loop-list, wrr_loop-total}
use mathlib.Core.List.{append-nil, append_assoc}

abbrev pub at : List Backend → ℕ → Backend
at bps i = get_or bps i fresh

-- What the loop compares: a backend's `current` after its weight is added.
abbrev pub score : Backend → ℤ
score bp = (bump bp).current

-- Position `j`, with score `c`, is the first of the greatest scores among those that take part.
pub record IsBest (bps : List Backend) (j : ℕ) (c : ℤ) : Type 0 where
  pub inside : j < length bps
  pub serving : skipped (at bps j) ≡ false
  pub value : c ≡ score (at bps j)
  pub most : (d : ℕ) → d < length bps → skipped (at bps d) ≡ false → score (at bps d) ≤ℤ c
  pub first : (d : ℕ) → d < j → skipped (at bps d) ≡ false → score (at bps d) <ℤ c

abbrev pub BestSoFar : List Backend → Best → Type 0
BestSoFar bps none = (d : ℕ) → d < length bps → skipped (at bps d) ≡ true
BestSoFar bps (some (j, c)) = IsBest bps j c

true_and_false : {b : Bool} → b ≡ true → b ≡ false → ⊥
true_and_false p q = cc

-- A fact about the entries of a list, and about one more, holds of the longer list.
every-snoc {ℓ} :
    (P : Backend → Type ℓ) (xs : List Backend) (y : Backend)
    → ((d : ℕ) → d < length xs → P (at xs d))
    → P y
    → (d : ℕ) → d < length (xs ++ y ∷ [])
    → P (at (xs ++ y ∷ []) d)
every-snoc P xs y h p d q = elim (dec_lt d (length xs)) [
  | yes l ↦ rw (get_or-append_left xs (y ∷ []) d fresh l) (h d l)
  | no l ↦
      let last : d ≡ length xs = omega (arith, length-append {0} xs (y ∷ [])) in
      rw (last, get_or-append_self xs y fresh) p
]

module _ (xs : List Backend) (y : Backend) where
  keep-IsBest :
      (j : ℕ) (c : ℤ)
      → IsBest xs j c
      → (skipped y ≡ false → score y ≤ℤ c)
      → IsBest (xs ++ y ∷ []) j c
  keep-IsBest j c b low =
      let same : (d : ℕ) → d < length xs → at (xs ++ y ∷ []) d ≡ at xs d =
        λ d h. get_or-append_left xs (y ∷ []) d fresh h in
      record {
        inside = omega (arith, length-append {0} xs (y ∷ []), b.inside);
        serving = rw (same j b.inside) b.serving;
        value = rw (same j b.inside) b.value;
        most = every-snoc (λ bp. skipped bp ≡ false → score bp ≤ℤ c) xs y b.most low;
        first = λ d h. rw (same d (omega (arith, b.inside))) (b.first d h);
      }

  take-IsBest :
      skipped y ≡ false
      → ((d : ℕ) → d < length xs → skipped (at xs d) ≡ false → score (at xs d) <ℤ score y)
      → IsBest (xs ++ y ∷ []) (length xs) (score y)
  take-IsBest serves above = record {
    inside = omega (arith, length-append {0} xs (y ∷ []));
    serving = rw (get_or-append_self xs y fresh) serves;
    value = rw (get_or-append_self xs y fresh);
    most =
        every-snoc (λ bp. skipped bp ≡ false → score bp ≤ℤ score y) xs y
          (λ d h s. omega (arith, above d h s)) (λ s. omega arith);
    first = λ d h. rw (get_or-append_left xs (y ∷ []) d fresh h) (above d h);
  }

  replace_best :
      (j : ℕ) (c : ℤ)
      → skipped y ≡ false
      → IsBest xs j c
      → BestSoFar (xs ++ y ∷ []) (better (some (j, c)) (length xs) (score y))
  unfolding better
  replace_best j c e b = elim (Bool-cases (ltb_ℤ c (score y))) [
    | inl up ↦ rw up (take-IsBest e (λ d h s. omega (arith, b.most d h s, ltb_ℤ→lt c (score y) up)))
    | inr down ↦ rw down (keep-IsBest j c b (λ s. ltb_ℤ→ge c (score y) down))
  ]

  visit-BestSoFar :
      (t : ℤ) (best : Best)
      → BestSoFar xs best
      → BestSoFar (xs ++ y ∷ []) (visit (length xs) t best y).2
  unfolding visit better
  visit-BestSoFar t none b = elim (Bool-cases (skipped y)) [
    | inl e ↦ rw e (every-snoc (λ bp. skipped bp ≡ true) xs y b e)
    | inr e ↦ rw (e, score-serving y e) (take-IsBest e (λ d h s. absurd (true_and_false (b d h) s)))
  ]
  visit-BestSoFar t (some (j, c)) b = elim (Bool-cases (skipped y)) [
    | inl e ↦ rw e (keep-IsBest j c b (λ s. absurd (true_and_false e s)))
    | inr e ↦ rw (e, score-serving y e) (replace_best j c e b)
  ]

wrr_loop-BestSoFar :
    (xs bps : List Backend) (t : ℤ) (best : Best)
    → BestSoFar xs best
    → BestSoFar (xs ++ bps) (wrr_loop (length xs) t best bps).2
unfolding wrr_loop
wrr_loop-BestSoFar xs [] t best b = rw append-nil b
wrr_loop-BestSoFar xs (y ∷ bps) t best b =
    let seen = visit (length xs) t best y in
    let longer : length (xs ++ y ∷ []) ≡ suc (length xs) =
      omega (arith, length-append {0} xs (y ∷ [])) in
    let rest : BestSoFar ((xs ++ y ∷ []) ++ bps)
        (wrr_loop (length (xs ++ y ∷ [])) seen.1 seen.2 bps).2 =
      wrr_loop-BestSoFar (xs ++ y ∷ []) bps seen.1 seen.2 (visit-BestSoFar xs y t best b) in
    rw (append_assoc xs (y ∷ []) bps, longer) at rest

-- The backend that a whole loop leaves in `best`.
pub wrr_loop-best : (bps : List Backend) (t : ℤ) → BestSoFar bps (wrr_loop 0 t none bps).2
wrr_loop-best bps t = wrr_loop-BestSoFar [] bps t none (λ d h. absurd (omega arith))

bump_all-skipped :
    (bps : List Backend)
    → ((d : ℕ) → d < length bps → skipped (at bps d) ≡ true)
    → bump_all bps ≡ bps
unfolding bump_all bump
bump_all-skipped [] h = refl
bump_all-skipped (bp ∷ bps) h =
    rw (h 0 (omega arith), bump_all-skipped bps (λ d p. h (suc d) (omega arith)))

-- A selection by its two outcomes.
abbrev pub Selects : List Backend → List Backend × Option ℕ → Type 0
Selects bps (bps', none) = BestSoFar bps none × (bps' ≡ bps)
Selects bps (bps', some j) =
    (c : ℤ) × IsBest bps j c × (bps' ≡ charge_at j (total_weight bps) (bump_all bps))

charge_best-Selects :
    (bps : List Backend) (best : Best)
    → BestSoFar bps best
    → Selects bps (charge_best best (total_weight bps) (bump_all bps))
unfolding charge_best
charge_best-Selects bps none b = (b, bump_all-skipped bps b)
charge_best-Selects bps (some (j, c)) b = (c, b, refl)

pub select-Selects : (bps : List Backend) → Selects bps (get_backend_by_smooth_wrr bps)
unfolding get_backend_by_smooth_wrr
select-Selects bps =
    let total : (wrr_loop 0 (pos 0) none bps).1 ≡ total_weight bps =
      wrr_loop-total 0 (pos 0) none bps ∙ zero_plus (total_weight bps) in
    rw (total, wrr_loop-list 0 (pos 0) none bps)
      (charge_best-Selects bps _ (wrr_loop-best bps (pos 0)))
  where
    zero_plus : (z : ℤ) → pos 0 +ℤ z ≡ z
    zero_plus z = omega int_laws

pub at-bump_all :
    (bps : List Backend) (d : ℕ) → d < length bps → at (bump_all bps) d ≡ bump (at bps d)
unfolding bump_all
at-bump_all [] d h = absurd (omega arith)
at-bump_all (bp ∷ bps) zero h = refl
at-bump_all (bp ∷ bps) (suc d) h = at-bump_all bps d (omega arith)

at-charge_at :
    (i : ℕ) (t : ℤ) (bps : List Backend) (d : ℕ)
    → d < length bps
    → at (charge_at i t bps) d ≡ (if i == d then charge t (at bps d) else at bps d)
unfolding charge_at
at-charge_at i t [] d h = absurd (omega arith)
at-charge_at zero t (bp ∷ bps) zero h = refl
at-charge_at zero t (bp ∷ bps) (suc d) h = ground arith
at-charge_at (suc i) t (bp ∷ bps) zero h = ground arith
at-charge_at (suc i) t (bp ∷ bps) (suc d) h = ground (arith, at-charge_at i t bps d)

pub length-bump_all : (bps : List Backend) → length (bump_all bps) ≡ length bps
unfolding bump_all
length-bump_all [] = refl
length-bump_all (bp ∷ bps) = ap suc (length-bump_all bps)

pub length-charge_at :
    (i : ℕ) (t : ℤ) (bps : List Backend) → length (charge_at i t bps) ≡ length bps
unfolding charge_at
length-charge_at i t [] = refl
length-charge_at zero t (bp ∷ bps) = refl
length-charge_at (suc i) t (bp ∷ bps) = ap suc (length-charge_at i t bps)

-- What a selection of position `j` leaves at position `d`.
pub at-selected :
    (j : ℕ) (bps : List Backend) (d : ℕ)
    → d < length bps
    → at (charge_at j (total_weight bps) (bump_all bps)) d
      ≡ (if j == d then charge (total_weight bps) (bump (at bps d)) else bump (at bps d))
at-selected j bps d h =
    at-charge_at j _ (bump_all bps) d (rw length-bump_all h)
    ∙ ap (λ bp. if j == d then charge (total_weight bps) bp else bp) (at-bump_all bps d h)

-- What one selection promises: of the backends that are up, not taken down and of positive weight
-- it returns the first whose `current` is greatest once each has its own weight added; only these
-- `current`s change, and the chosen one pays the total weight and counts a hit. If there is no such
-- backend it returns none and changes nothing.
abbrev pub Chosen : List Backend → List Backend × Option ℕ → Type 0
Chosen bps (bps', none) = ((d : ℕ) → d < length bps → skipped (at bps d) ≡ true) × (bps' ≡ bps)
Chosen bps (bps', some j) =
    (c : ℤ) × IsBest bps j c
    × ((d : ℕ)
        → d < length bps
        → at bps' d
          ≡ (if j == d then charge (total_weight bps) (bump (at bps d)) else bump (at bps d)))

Selects-Chosen : (bps : List Backend) (r : List Backend × Option ℕ) → Selects bps r → Chosen bps r
Selects-Chosen bps (bps', none) s = s
Selects-Chosen bps (bps', some j) (c, b, e) = (c, b, λ d h. rw e (at-selected j bps d h))

-- One selection, on every list, picks the first backend of the greatest score among those that are
-- up, not taken down and of positive weight, adds to each of these its weight, and takes the total
-- weight from the chosen one; with no such backend it returns none and changes nothing.
pub select_chooses : (bps : List Backend) → Chosen bps (get_backend_by_smooth_wrr bps)
select_chooses bps = Selects-Chosen bps _ (select-Selects bps)
