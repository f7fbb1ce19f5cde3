-- ===== src/Timer/Expire.antt =====
-- `handle_expired`, for handlers whose `on_timeout` leaves the timers alone.
use native.Mathlib.Decide.{ℕ_discrete, dec_lt}
use niubix.Base.{
  ℕ, zero, suc, ◌+◌, ◌<◌, ◌≤◌, ◌≡◌, ◌≢◌, refl, ap, ◌∙◌, ◌⊎◌, inl, inr, [], length, Option, none,
  some, arith, Bool-cases, Bool, ◌==◌, if◌then◌else◌, ltb, leb, ◌&&◌,
}
use niubix.Timer.{
  Timer, Item, item_at, expiry, update, pop_min, OnTimeout, Expired, done, null_eh, out_of_fuel,
  popped, repeat_item, end_item, finish_item, fire, expire_item, round, next_round, expire_loop,
  handle_expired,
}
use niubix.Timer.Array.{occ, occ-cons, occ-nil, position}
use niubix.Timer.Heap.Up.{insert-IsHeap, insert-occ}
use niubix.Timer.Ops.{IsValid, IsHeap-update, Popped, pop_min_lem}
use niubix.Timer.Due.{due, sum_below, sum_below-less, sum_below-le}

-- What the loop's body makes of a popped item `p`.
record Spent (now p : ℕ) (t t' : Timer) : Type 0 where
  valid : IsValid t'
  next : t'.next ≡ t.next
  others : (q : ℕ) → q ≢ p → (t'.store q ≡ t.store q) × (occ q t'.qheap ≡ occ q t.qheap)
  waits : 0 < occ p t'.qheap → now < expiry t'.store p

abbrev SpentBy : ℕ → ℕ → Timer → Option Timer → Type 0
SpentBy now p t none = ⊥
SpentBy now p t (some t') = Spent now p t t'

module _ (on_timeout : OnTimeout) (calm : (eh now : ℕ) (t : Timer) → (on_timeout eh now t).1 ≡ t)
    (now p : ℕ) (t : Timer) (v : IsValid t) (absent : occ p t.qheap ≡ 0) (mine : p < t.next) where
  unspent : (ti : ℕ → Option ℕ) → Spent now p t (record t { ti = ti })
  unspent ti = record {
    valid = record { heap = v.heap; allocated = v.allocated; once = v.once };
    next = refl;
    others = λ q n. (refl, refl);
    waits = λ w. absurd (omega arith);
  }

  repeat_item-Spent : 0 < (t.store p).interval → Spent now p t (repeat_item now p t)
  repeat_item-Spent h =
      let again : Item = record (t.store p) { expire_at = now + (t.store p).interval } in
      let e = expiry (update t.store p again) in
      let more = insert-occ e t.qheap p in
      record {
        valid = record {
          heap = insert-IsHeap e t.qheap p (IsHeap-update t.store t.qheap p again absent v.heap);
          allocated = λ q n. rw more (ground (arith, v.allocated q n));
          once = λ q. rw more (ground (arith, v.once q));
        };
        next = refl;
        others = λ q n. (ground arith, rw more (ground arith));
        waits = λ w. ground arith;
      }

  finish_item-Spent :
      (again : Bool) (eh : ℕ)
      → (t.store p).eh ≡ some eh
      → SpentBy now p t (finish_item now p (again, t))
  unfolding finish_item end_item
  finish_item-Spent again eh e = elim (Bool-cases (again && ltb 0 (t.store p).interval)) [
    | inl b ↦ rw b (repeat_item-Spent (ground arith))
    | inr b ↦ rw (b, e) (unspent (update t.ti eh none))
  ]

  fire-Spent : (o : Option ℕ) → (t.store p).eh ≡ o → SpentBy now p t (fire on_timeout o now p t)
  unfolding fire
  fire-Spent none e = unspent t.ti
  fire-Spent (some eh) e =
      let same : on_timeout eh now t ≡ ((on_timeout eh now t).0, t) =
        ground (arith, calm eh now t) in
      rw same (finish_item-Spent (on_timeout eh now t).0 eh e)

  -- A calm handler never meets the null pointer.
  expire_item-Spent : SpentBy now p t (expire_item on_timeout now p t)
  unfolding expire_item
  expire_item-Spent = fire-Spent (t.store p).eh refl

-- How the loop has ended, from the timer `t`.
abbrev pub Finished : ℕ → Timer → Expired → Type 0
Finished now t (done delta ps t') =
    IsValid t'
    × ((q : ℕ) → occ q ps ≡ (if leb (expiry t.store q) now then occ q t.qheap else 0))
    × ((q : ℕ)
        → now < expiry t.store q
        → (t'.store q ≡ t.store q) × (occ q t'.qheap ≡ occ q t.qheap))
    × ((i : ℕ) → i < length t'.qheap → now < expiry t'.store (item_at t'.qheap i))
    × (((length t'.qheap ≡ 0) × (delta ≡ 0))
        ⊎ ((0 < length t'.qheap) × (now + delta ≡ expiry t'.store (item_at t'.qheap 0))))
Finished now t null_eh = ⊥
Finished now t out_of_fuel = ⊥

-- The items that are due, at most one for each that was ever allocated.
all_due : ℕ → Timer → ℕ
all_due now t = sum_below t.next (due t.store t.qheap now)

all_due-le-next : (now : ℕ) (t : Timer) → IsValid t → all_due now t ≤ t.next
unfolding all_due due
all_due-le-next now t v = sum_below-le t.next _ (λ q. ground (arith, v.once q))

module _ (now p : ℕ) (t t' : Timer) (first : Popped now 0 t (some p, 0, t')) (v : IsValid t) where
  p_once : occ p t.qheap ≡ 1
  p_once = omega (arith, v.once p, first.1)

  p_gone : occ p t'.qheap ≡ 0
  p_gone = ground (arith, first.2 p, p_once)

  p_allocated : p < t.next
  p_allocated = elim (dec_lt p t.next) [
    | yes l ↦ l
    | no l ↦ absurd (omega (arith, v.allocated p (omega arith), first.1))
  ]

module _ (now p : ℕ) (t t' t'' : Timer) (first : Popped now 0 t (some p, 0, t')) (v : IsValid t)
    (s : Spent now p t' t'') where
  same_store : (q : ℕ) → q ≢ p → t''.store q ≡ t.store q
  same_store q n = (s.others q n).0 ∙ ap (λ f. f q) first.5.0

  same_expiry : (q : ℕ) → q ≢ p → expiry t''.store q ≡ expiry t.store q
  same_expiry q n = ap (λ (i : Item). i.expire_at) (same_store q n)

  same_occ : (q : ℕ) → q ≢ p → occ q t''.qheap ≡ occ q t.qheap
  same_occ q n = (s.others q n).1 ∙ ground (arith, first.2 q)

  fewer_due : all_due now t'' < all_due now t
  unfolding all_due due
  fewer_due =
      let same_next : t''.next ≡ t.next = s.next ∙ first.5.2 in
      let mine = p_allocated now p t t' first v in
      rw same_next (
        sum_below-less t.next p (due t.store t.qheap now) (due t''.store t''.qheap now) mine
          (ground (arith, s.waits, first.3, first.1))
          (λ q n. rw (same_expiry q n, same_occ q n) refl))

  prepend : (r : Expired) → Finished now t'' r → Finished now t (popped p r)
  unfolding popped
  prepend (done delta ps u) (valid, all, kept, idle, delay) = (
    valid,
    λ q. elim (ℕ_discrete q p) [
      | yes e ↦
          rw (e, occ-cons) (ground (arith, all p, s.waits, first.3, p_once now p t t' first v))
      | no e ↦ rw (occ-cons, all q, same_expiry q e, same_occ q e) (ground arith)
    ],
    λ q h. elim (ℕ_discrete q p) [
      | yes e ↦ absurd (omega (arith, first.3, rw e at h))
      | no e ↦
          let (k, l) = kept q (rw (same_expiry q e) h) in (k ∙ same_store q e, l ∙ same_occ q e)
    ],
    idle,
    delay,
  )
  prepend null_eh f = f
  prepend out_of_fuel f = f

none_due :
    (now : ℕ) (t : Timer) (q : ℕ)
    → ((i : ℕ) → i < length t.qheap → now < expiry t.store (item_at t.qheap i))
    → expiry t.store q ≤ now
    → occ q t.qheap ≡ 0
none_due now t q later h = elim (dec_lt 0 (occ q t.qheap)) [
  | yes there ↦
      let (i, l, e) = position q t.qheap there in absurd (omega (arith, rw e at (later i l)))
  | no absent ↦ omega arith
]

module _ (on_timeout : OnTimeout) (calm : (eh now : ℕ) (t : Timer) → (on_timeout eh now t).1 ≡ t)
    (now : ℕ) where
  -- Nothing is due: the loop ends.
  idle-Finished :
      (t : Timer) (delta : ℕ)
      → IsValid t
      → Popped now 0 t (none, delta, t)
      → Finished now t (done delta [] t)
  idle-Finished t delta v (same, later, delay) = (
    v,
    λ q. rw occ-nil (ground (arith, none_due now t q later)),
    λ q h. (refl, refl),
    later,
    delay,
  )

  abbrev Claim : ℕ → Type 0
  Claim k =
      (t : Timer)
      → all_due now t < k
      → IsValid t
      → Finished now t (expire_loop on_timeout k now 0 t)

  next_round-Finished :
      (k p : ℕ) (t t' : Timer) (o : Option Timer)
      → Claim k
      → all_due now t < suc k
      → IsValid t
      → Popped now 0 t (some p, 0, t')
      → SpentBy now p t' o
      → Finished now t (next_round on_timeout (expire_loop on_timeout k now 0) p o)
  unfolding next_round
  next_round-Finished k p t t' none ih f v first s = elim s [ ]
  next_round-Finished k p t t' (some t'') ih f v first s =
      prepend now p t t' t'' first v s _
        (ih t'' (omega (arith, fewer_due now p t t' t'' first v s)) s.valid)

  round-Finished :
      (k : ℕ) (t : Timer) (r : Option ℕ × ℕ × Timer)
      → Claim k
      → all_due now t < suc k
      → IsValid t
      → Popped now 0 t r
      → Finished now t (round on_timeout (expire_loop on_timeout k now) now r)
  unfolding round
  round-Finished k t (none, delta, t') ih f v first =
      rw first.0 (idle-Finished t delta v (refl, first.1, first.2))
  round-Finished k t (some p, delta, t') ih f v first =
      let (valid', there, fewer, is_due, least, (st, ti, nx, zero_delta)) = first in
      let first' : Popped now 0 t (some p, 0, t') =
        (valid', there, fewer, is_due, least, (st, ti, nx, refl)) in
      rw zero_delta (
        next_round-Finished k p t t' _ ih f v first' (
          expire_item-Spent on_timeout calm now p t' valid' (p_gone now p t t' first' v)
            (rw nx (p_allocated now p t t' first' v))))

  expire_loop-Finished : (k : ℕ) → Claim k
  unfolding expire_loop
  expire_loop-Finished zero t f v = absurd (omega arith)
  expire_loop-Finished (suc k) t f v =
      round-Finished k t (pop_min now 0 t) (expire_loop-Finished k) f v (pop_min_lem now 0 t v)

  -- Over a valid heap, with handlers that leave the timers alone and one round of fuel more than
  -- items were ever allocated, `handle_expired` ends; it pops every item that is due exactly once
  -- and no other, leaves the others as they were, nothing that is due, and a valid heap; and it
  -- returns the time until the next item is due, or 0 if none is left. It reports an empty heap.
  pub handle_expired_lem :
      (fuel : ℕ) (t : Timer)
      → t.next < fuel
      → IsValid t
      → ((length t.qheap ≡ 0) × (handle_expired on_timeout fuel now t ≡ none))
        ⊎ ((r : Expired) × (handle_expired on_timeout fuel now t ≡ some r) × Finished now t r)
  unfolding handle_expired
  handle_expired_lem fuel t f v = elim (Bool-cases (length t.qheap == 0)) [
    | inl e ↦ inl (ground arith, rw e refl)
    | inr e ↦
        inr (_, rw e refl, expire_loop-Finished fuel t (omega (arith, all_due-le-next now t v)) v)
  ]
