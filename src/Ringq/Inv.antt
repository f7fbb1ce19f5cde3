-- ===== src/Ringq/Inv.antt =====
-- The representation invariant of a ring, the index arithmetic behind it, and how far it grows.
use native.Mathlib.Nat.{mod-eq_of_lt, mod-eq-sub-mod, mod-lt, mod-add-mod}
use native.Mathlib.Decide.{dec_lt}
use niubix.Base.{
  ℕ, zero, suc, ◌+◌, ◌-◌, ◌*◌, ◌%◌, ◌≤◌, ◌<◌, ◌≡◌, ◌≢◌, ap, max, refl, List, get_or, length,
  length-set, length-replicate, arith, Bool-cases, inl, inr, ◌∙◌, ◌⊎◌, ◌==◌,
}
use niubix.Ringq.{Ringq, init, copy, new_size, grow, put, push_back, pop_front, full, empty}

pub record IsValid {ℓ} {A : Type ℓ} (r : Ringq A) : Type 0 where
  pub slots : length r.rq ≡ r.size
  pub head_in : r.head < max 1 r.size
  pub len_in : r.len ≤ r.size
  pub tail_at : r.tail ≡ (r.head + r.len) % r.size

-- An index less than two turns round the ring is reduced by at most one turn.
pub mod_turn : (a n : ℕ) → n ≤ a → a < n + n → a % n ≡ a - n
mod_turn a n h k = mod-eq-sub-mod {n = a} {m = n} h ∙ mod-eq_of_lt (omega arith)

-- Two offsets less than a turn apart name different slots.
pub slot_ne : (n h j k : ℕ) → h < n → j < k → k < n → (h + k) % n ≢ (h + j) % n
slot_ne n h j k p q r = elim (dec_lt (h + k) n) [
  | yes a ↦ λ e. omega (arith, mod-eq_of_lt a, mod-eq_of_lt {n = h + j} {m = n} (omega arith))
  | no a ↦ elim (dec_lt (h + j) n) [
    | yes b ↦ λ e. omega (arith, mod_turn (h + k) n (omega arith) (omega arith), mod-eq_of_lt b)
    | no b ↦ λ e. omega (
      arith,
      mod_turn (h + k) n (omega arith) (omega arith),
      mod_turn (h + j) n (omega arith) (omega arith),
    )
  ]
]

module _ {ℓ} {A : Type ℓ} (blank : A) where
  pub length-copy :
      (r : Ringq A) (k i : ℕ) (newrq : List A) → length (copy blank r k i newrq) ≡ length newrq
  unfolding copy
  length-copy r zero i newrq = refl
  length-copy r (suc k) i newrq =
      length-copy r k (suc i) _ ∙ length-set newrq i (get_or r.rq ((r.head + i) % r.size) blank)

  pub init-IsValid : (n : ℕ) → IsValid (init blank n)
  unfolding init
  init-IsValid n = record {
    slots = length-replicate n blank;
    head_in = omega arith;
    len_in = omega arith;
    tail_at = omega arith;
  }

  pub grow-IsValid : (r : Ringq A) → IsValid r → IsValid (grow blank r)
  unfolding grow new_size
  grow-IsValid r v = record {
    slots = length-copy r r.len 0 _ ∙ length-replicate _ blank;
    head_in = ground arith;
    len_in = ground arith;
    tail_at = ground (arith, mod-eq_of_lt {n = r.len} {m = new_size blank r.size});
  }

  pub grow_room : (r : Ringq A) → IsValid r → (grow blank r).len < (grow blank r).size
  unfolding grow new_size
  grow_room r v = ground arith

  pub put-IsValid : (r : Ringq A) (v : A) → IsValid r → r.len < r.size → IsValid (put blank r v)
  unfolding put
  put-IsValid r v h room = record {
    slots = length-set r.rq r.tail v ∙ h.slots;
    head_in = h.head_in;
    len_in = omega arith;
    tail_at =
        rw h.tail_at (mod-add-mod (r.head + r.len) r.size 1 ∙ ap (λ t. t % r.size) (omega arith));
  }

  pub pop_front-IsValid : (r : Ringq A) → IsValid r → IsValid (pop_front blank r)
  unfolding pop_front empty
  pop_front-IsValid r v = elim (Bool-cases (r.len == 0)) [
    | inl e ↦ rw e v
    | inr e ↦
        let some_left : 0 < r.len = ground arith in
        let shorter : r.head + 1 + (r.len - 1) ≡ r.head + r.len = omega arith in
        rw e (record {
          slots = length-set r.rq r.head blank ∙ v.slots;
          head_in = omega (arith, mod-lt (r.head + 1) {m = r.size} (omega arith));
          len_in = omega arith;
          tail_at = rw (mod-add-mod (r.head + 1) r.size (r.len - 1), shorter) v.tail_at;
        })
  ]

  -- `push_back` grows only a full ring, to at most twice what it holds (two slots if it had none).
  pub push_back-size :
      (r : Ringq A) (v : A)
      → IsValid r
      → ((push_back blank r v).size ≡ r.size)
        ⊎ ((r.len ≡ r.size) × ((push_back blank r v).size ≡ max 2 (r.len * 2)))
  unfolding push_back full grow put new_size
  push_back-size r v h = ground arith

  pub size-pop_front : (r : Ringq A) → (pop_front blank r).size ≡ r.size
  unfolding pop_front empty
  size-pop_front r = ground arith
