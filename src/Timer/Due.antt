-- ===== src/Timer/Due.antt =====
-- How many items are due, as a sum over the items that were allocated.
use native.Mathlib.Decide.{ℕ_discrete}
use niubix.Base.{ℕ, zero, suc, ◌+◌, ◌<◌, ◌≤◌, ◌≡◌, ◌≢◌, refl, sym, List, arith, if◌then◌else◌, leb}
use niubix.Timer.{Item, expiry}
use niubix.Timer.Array.{occ}

-- The number of items below `n` that are due.
unfoldable pub due : (ℕ → Item) → List ℕ → ℕ → ℕ → ℕ
due store a now q = if leb (expiry store q) now then occ q a else 0

unfoldable pub sum_below : ℕ → (ℕ → ℕ) → ℕ
sum_below zero f = 0
sum_below (suc n) f = f n + sum_below n f

pub sum_below-same :
    (n : ℕ) (f g : ℕ → ℕ) → ((q : ℕ) → q < n → f q ≡ g q) → sum_below n f ≡ sum_below n g
unfolding sum_below
sum_below-same zero f g h = refl
sum_below-same (suc n) f g h =
    omega (arith, h n (omega arith), sum_below-same n f g (λ q p. h q (omega arith)))

pub sum_below-less :
    (n p : ℕ) (f g : ℕ → ℕ)
    → p < n
    → g p < f p
    → ((q : ℕ) → q ≢ p → g q ≡ f q)
    → sum_below n g < sum_below n f
unfolding sum_below
sum_below-less zero p f g h lt same = absurd (omega arith)
sum_below-less (suc n) p f g h lt same = elim (ℕ_discrete p n) [
  | yes e ↦
      let rest = sum_below-same n g f (λ q r. same q (λ s. omega arith)) in
      let here : g n < f n = rw e at lt in omega arith
  | no e ↦ omega (arith, sum_below-less n p f g (omega arith) lt same, same n (λ s. e (sym s)))
]

pub sum_below-le : (n : ℕ) (f : ℕ → ℕ) → ((q : ℕ) → f q ≤ 1) → sum_below n f ≤ n
unfolding sum_below
sum_below-le zero f h = omega arith
sum_below-le (suc n) f h = omega (arith, h n, sum_below-le n f h)
