-- ===== src/Timer/Array.antt =====
-- Reads, writes and numbers of occurrences in an array of item pointers.
use native.Mathlib.Decide.{ℕ_discrete}
use niubix.Base.{
  ℕ, zero, suc, ◌+◌, ◌<◌, ◌≤◌, ◌≡◌, refl, ap, List, [], ◌∷◌, ◌++◌, arith, ◌==◌, if◌then◌else◌,
  length, set, take,
}
use niubix.Timer.{item_at}

pub item_at-set :
    (a : List ℕ) (i j v : ℕ)
    → i < length a
    → item_at (set a i v) j ≡ (if i == j then v else item_at a j)
item_at-set [] i j v h = absurd (omega arith)
item_at-set (x ∷ a) zero zero v h = refl
item_at-set (x ∷ a) zero (suc j) v h = ground arith
item_at-set (x ∷ a) (suc i) zero v h = ground arith
item_at-set (x ∷ a) (suc i) (suc j) v h = ground (arith, item_at-set a i j v)

-- 1 if the pointers are the same, else 0.
abbrev pub one : ℕ → ℕ → ℕ
one p x = if x == p then 1 else 0

-- How often `p` occurs.
unfoldable pub occ : ℕ → List ℕ → ℕ
occ p [] = 0
occ p (x ∷ a) = one p x + occ p a

pub occ-nil : (p : ℕ) → occ p [] ≡ 0
unfolding occ
occ-nil p = refl

pub occ-cons : (p x : ℕ) (a : List ℕ) → occ p (x ∷ a) ≡ one p x + occ p a
unfolding occ
occ-cons p x a = refl

-- The same pointers, as often.
abbrev pub Same : List ℕ → List ℕ → Type 0
Same a b = (p : ℕ) → occ p a ≡ occ p b

pub occ-set :
    (p : ℕ) (a : List ℕ) (i v : ℕ)
    → i < length a
    → occ p (set a i v) + one p (item_at a i) ≡ occ p a + one p v
unfolding occ
occ-set p [] i v h = absurd (omega arith)
occ-set p (x ∷ a) zero v h = omega arith
occ-set p (x ∷ a) (suc i) v h = omega (arith, occ-set p a i v (omega arith))

pub occ-snoc : (p : ℕ) (a : List ℕ) (x : ℕ) → occ p (a ++ x ∷ []) ≡ occ p a + one p x
unfolding occ
occ-snoc p [] x = omega arith
occ-snoc p (y ∷ a) x = omega (arith, occ-snoc p a x)

pub occ-take :
    (p n : ℕ) (a : List ℕ) → length a ≡ suc n → occ p (take n a) + one p (item_at a n) ≡ occ p a
unfolding occ
occ-take p n [] h = absurd (omega arith)
occ-take p zero (x ∷ []) h = omega arith
occ-take p zero (x ∷ y ∷ a) h = absurd (omega arith)
occ-take p (suc n) (x ∷ a) h = omega (arith, occ-take p n a (omega arith))

pub item_at-take : (n : ℕ) (a : List ℕ) (i : ℕ) → i < n → item_at (take n a) i ≡ item_at a i
item_at-take zero a i h = absurd (omega arith)
item_at-take (suc n) [] i h = refl
item_at-take (suc n) (x ∷ a) zero h = refl
item_at-take (suc n) (x ∷ a) (suc i) h = item_at-take n a i (omega arith)

pub length-take : (n : ℕ) (a : List ℕ) → n ≤ length a → length (take n a) ≡ n
length-take zero a h = refl
length-take (suc n) [] h = absurd (omega arith)
length-take (suc n) (x ∷ a) h = ap suc (length-take n a (omega arith))

pub occ-item_at : (a : List ℕ) (i : ℕ) → i < length a → 0 < occ (item_at a i) a
unfolding occ
occ-item_at [] i h = absurd (omega arith)
occ-item_at (x ∷ a) zero h = ground arith
occ-item_at (x ∷ a) (suc i) h = omega (arith, occ-item_at a i (omega arith))

-- What occurs stands somewhere.
pub position : (p : ℕ) (a : List ℕ) → 0 < occ p a → (i : ℕ) × (i < length a) × (item_at a i ≡ p)
unfolding occ
position p [] h = absurd (omega arith)
position p (x ∷ a) h = elim (ℕ_discrete x p) [
  | yes e ↦ (0, omega arith, e)
  | no e ↦ let (i, l, q) = position p a (ground arith) in (suc i, omega arith, q)
]
