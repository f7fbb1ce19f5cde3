-- ===== src/App/Fair.antt =====
-- How often each backend is picked over many selections with nothing reconfigured in between.
use niubix.Base.{
  ℕ, zero, suc, ◌+◌, ◌*◌, ◌<◌, ◌≡◌, refl, ◌∙◌, ap, Bool, true, false, List, [], ◌∷◌, Option, none,
  some, arith, if◌then◌else◌, Bool-cases, inl, inr, ◌==◌,
}
use niubix.Base.Int.{
  ℤ, pos, negsuc, ◌+ℤ◌, ◌≤ℤ◌, int_laws, times, times-pos, times-add, chain_accounts, pos_part,
  neg_part,
}
use niubix.App.{Backend, skipped, get_backend_by_smooth_wrr}
use niubix.App.Pass.{total_weight, score-serving}
use niubix.App.Choice.{at, Selects, select-Selects, at-selected}
use niubix.App.Total.{
  SameConfig, select-SameConfig, at-SameConfig, total_weight-SameConfig, length-SameConfig,
  SameConfig-refl, SameConfig-trans,
}
use niubix.App.Balanced.{
  IsServing, IsBalanced, sum_serving, select-IsBalanced, total_pos, serving_weight,
}

-- `n` selections: the list that they leave, and what they return, in order.
unfoldable pub rounds : ℕ → List Backend → List Backend × List (Option ℕ)
rounds zero bps = (bps, [])
rounds (suc n) bps =
    let (bps', pick) = get_backend_by_smooth_wrr bps in
    let rest = rounds n bps' in (rest.0, pick ∷ rest.1)

-- How often position `i` is returned.
abbrev pub hit : ℕ → Option ℕ → ℕ
hit i none = 0
hit i (some j) = if j == i then 1 else 0

abbrev pub hits : ℕ → List (Option ℕ) → ℕ
hits i [] = 0
hits i (p ∷ ps) = hit i p + hits i ps

-- One selection pays a serving backend its weight, and takes the total weight from it on a hit.
selected_current :
    (bps : List Backend) (i : ℕ) (r : List Backend × Option ℕ)
    → IsServing bps i
    → Selects bps r
    → (at r.0 i).current +ℤ times (hit i r.1) (total_weight bps)
      ≡ (at bps i).current +ℤ (at bps i).weight
selected_current bps i (bps', none) (h, s) (all, e) = absurd (clash (all i h) s)
  where
    clash : {b : Bool} → b ≡ true → b ≡ false → ⊥
    clash p q = cc
selected_current bps i (bps', some j) (h, s) (c, best, e) = elim (Bool-cases (j == i)) [
  | inl same ↦ rw (e, at-selected j bps i h, same, score-serving (at bps i) s) (omega int_laws)
  | inr other ↦ rw (e, at-selected j bps i h, other, score-serving (at bps i) s) (omega int_laws)
]

pub IsServing-SameConfig :
    (as' bs : List Backend) (i : ℕ) → SameConfig as' bs → IsServing bs i → IsServing as' i
IsServing-SameConfig as' bs i c (h, s) =
    (rw (length-SameConfig as' bs c) h, (at-SameConfig as' bs i c).0 ∙ s)

-- The account of a serving backend over `n` selections.
rounds_account :
    (n : ℕ) (bps : List Backend) (i : ℕ)
    → IsServing bps i
    → (at (rounds n bps).0 i).current +ℤ times (hits i (rounds n bps).1) (total_weight bps)
      ≡ (at bps i).current +ℤ times n (at bps i).weight
unfolding rounds
rounds_account zero bps i s = refl
rounds_account (suc n) bps i s =
    let r = get_backend_by_smooth_wrr bps in
    let c = select-SameConfig bps in
    let one = selected_current bps i r s (select-Selects bps) in
    let ih = rounds_account n r.0 i (IsServing-SameConfig r.0 bps i c s) in
    let ih' = rw (total_weight-SameConfig r.0 bps c, (at-SameConfig r.0 bps i c).1) at ih in
    rw (times-add (hit i r.1) (hits i (rounds n r.0).1) (total_weight bps))
      (chain_accounts _ _ _ _ _ _ _ ih' one)

pub rounds-IsBalanced : (n : ℕ) (bps : List Backend) → IsBalanced bps → IsBalanced (rounds n bps).0
unfolding rounds
rounds-IsBalanced zero bps b = b
rounds-IsBalanced (suc n) bps b = rounds-IsBalanced n _ (select-IsBalanced bps b)

pub rounds-SameConfig : (n : ℕ) (bps : List Backend) → SameConfig (rounds n bps).0 bps
unfolding rounds
rounds-SameConfig zero bps = SameConfig-refl bps
rounds-SameConfig (suc n) bps =
    SameConfig-trans _ _ bps (rounds-SameConfig n _) (select-SameConfig bps)

pub pos_pos : (z : ℤ) → pos 1 ≤ℤ z → z ≡ pos (pos_part z)
pos_pos (pos n) h = refl
pos_pos (negsuc n) h = absurd (omega arith)

-- Serving backends that all stand at zero, as `load_conf` leaves them.
abbrev pub IsFresh : List Backend → Type 0
IsFresh bps = (d : ℕ) → IsServing bps d → (at bps d).current ≡ pos 0

sum_serving-IsFresh : (bps : List Backend) → IsFresh bps → sum_serving bps ≡ pos 0
unfolding sum_serving
sum_serving-IsFresh [] f = refl
sum_serving-IsFresh (bp ∷ bps) f =
    let rest = sum_serving-IsFresh bps (λ d (h, s). f (suc d) (omega arith, s)) in
    elim (Bool-cases (skipped bp)) [
      | inl e ↦ rw e rest
      | inr e ↦ rw (e, rest, f 0 (omega arith, e)) (omega int_laws)
    ]

pub IsFresh-IsBalanced : (bps : List Backend) → IsFresh bps → IsBalanced bps
IsFresh-IsBalanced bps f = record {
  zero_sum = sum_serving-IsFresh bps f;
  low = λ d s. rw (f d s) (omega (int_laws, total_pos bps d s));
}

abbrev pub weight_of : List Backend → ℕ → ℕ
weight_of bps i = pos_part (at bps i).weight

abbrev pub total_of : List Backend → ℕ
total_of bps = pos_part (total_weight bps)

-- The account in natural numbers, from a fresh start.
pub fresh_account :
    (n : ℕ) (bps : List Backend) (i : ℕ)
    → IsFresh bps
    → IsServing bps i
    → (at (rounds n bps).0 i).current +ℤ pos (hits i (rounds n bps).1 * total_of bps)
      ≡ pos (n * weight_of bps i)
fresh_account n bps i f s =
    let t = pos_pos (total_weight bps) (total_pos bps i s) in
    let w = pos_pos (at bps i).weight (serving_weight (at bps i) s.1) in
    let e = rounds_account n bps i s in
    rw (← times-pos, ← times-pos, ← t, ← w) (e ∙ rw (f i s) (omega int_laws))

-- The bound below, after any number of selections.
rounds_low :
    (n : ℕ) (bps : List Backend) (i : ℕ)
    → IsFresh bps
    → IsServing bps i
    → pos 1 ≤ℤ (at (rounds n bps).0 i).current +ℤ pos (total_of bps)
rounds_low n bps i f s =
    let c = rounds-SameConfig n bps in
    let b = rounds-IsBalanced n bps (IsFresh-IsBalanced bps f) in
    let t = pos_pos (total_weight bps) (total_pos bps i s) in
    rw (← t, ← total_weight-SameConfig _ bps c) (b.low i (IsServing-SameConfig _ bps i c s))

-- From a fresh start no serving backend ever runs a whole turn ahead of its share: after any number
-- `n` of selections, `hits * total < n * weight + total`.
pub hits_bound :
    (n : ℕ) (bps : List Backend) (i : ℕ)
    → IsFresh bps
    → IsServing bps i
    → hits i (rounds n bps).1 * total_of bps < n * weight_of bps i + total_of bps
hits_bound n bps i f s =
    let e = fresh_account n bps i f s in
    omega (int_laws, ap pos_part e, ap neg_part e, rounds_low n bps i f s)
