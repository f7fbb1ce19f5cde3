-- ===== src/Timer/Cancel.antt =====
-- `cancel` and the heap order.
use mathlib.Core.Path.{ap₂}
use niubix.Base.{
  ℕ, zero, suc, ◌+◌, ◌-◌, ◌<◌, ◌≤◌, ◌≡◌, ◌≢◌, refl, ap, ◌∙◌, List, [], ◌∷◌, ◌++◌, length,
  length-append, set, none, some, arith, get_or-append_self, get_or-append_left, lt→ltb, ge→ltb,
}
use niubix.Timer.{
  Timer, Item, item_at, parent, expiry, update, insert, shift_up, up_loop, schedule, add_item,
  follow_root, pop_min, cancel,
}
use niubix.Timer.Array.{occ, occ-snoc, occ-item_at}
use niubix.Timer.Ops.{IsValid, follow_root-qheap, follow_root-store, add_item-store}

set_last : (a : List ℕ) (x : ℕ) → set (a ++ x ∷ []) (length a) x ≡ a ++ x ∷ []
set_last [] x = refl
set_last (y ∷ a) x = ap (◌∷◌ y) (set_last a x)

-- Under a parent that does not expire later, a new item stays where `push_back` puts it.
insert_stays :
    (e : ℕ → ℕ) (a : List ℕ) (item : ℕ)
    → 0 < length a
    → e (item_at a (parent (length a))) ≤ e item
    → insert e a item ≡ a ++ item ∷ []
unfolding insert shift_up up_loop
insert_stays e a item h le =
    let last_index : length (a ++ item ∷ []) - 1 ≡ length a =
      omega (arith, length-append {0} a (item ∷ [])) in
    rw (last_index, get_or-append_self a item 0) (up_loop_stays (length a) h)
  where
    up_loop_stays : (k : ℕ) → 0 < k → up_loop e k (a ++ item ∷ []) item (length a) ≡ a ++ item ∷ []
    up_loop_stays zero p = set_last a item
    up_loop_stays (suc k) p =
        rw
          (
            get_or-append_left a (item ∷ []) (parent (length a)) 0 (omega arith),
            lt→ltb 0 (length a) h,
            ge→ltb (e item) (e (item_at a (parent (length a)))) le,
          )
          (set_last a item)

-- The timer after `cancel` of the handler that holds the item `p`.
abbrev cancelled : ℕ → ℕ → Timer → Timer
cancelled eh p t = record t {
  store = update t.store p (record (t.store p) { eh = none; expire_at = 1 });
  ti = update t.ti eh none;
}

cancel-held : (eh p : ℕ) (t : Timer) → t.ti eh ≡ some p → cancel eh t ≡ cancelled eh p t
unfolding cancel
cancel-held eh p t e = rw (e, cancel) refl

pop_min_early :
    (later delta : ℕ) (t : Timer)
    → later < expiry t.store (item_at t.qheap 0)
    → (pop_min later delta t).0 ≡ none
unfolding pop_min
pop_min_early later delta t h = ground arith

module _ (t : Timer) (eh p : ℕ) (v : IsValid t) (size : 0 < length t.qheap)
    (above : item_at t.qheap (parent (length t.qheap)) ≡ p) (inner : p ≢ item_at t.qheap 0)
    (eh' : ℕ) (item : Item) (later : ℕ) (positive : 0 < item.expire_at)
    (is_due : item.expire_at ≤ later) (early : later < expiry t.store (item_at t.qheap 0)) where
  abbrev added : Timer
  added = add_item eh' item (cancelled eh p t)

  fresh_ne : (i : ℕ) → i < length t.qheap → item_at t.qheap i ≢ t.next
  fresh_ne i h e =
      omega (arith, rw e at (occ-item_at t.qheap i h), v.allocated t.next (omega arith))

  added-qheap : added.qheap ≡ t.qheap ++ t.next ∷ []
  unfolding add_item
  added-qheap =
      insert_stays _ t.qheap t.next size (ground (arith, above, fresh_ne (parent (length t.qheap))))

  added_root : expiry added.store (item_at added.qheap 0) ≡ expiry t.store (item_at t.qheap 0)
  unfolding add_item
  added_root =
      rw (added-qheap, get_or-append_left t.qheap (t.next ∷ []) 0 0 size)
        (ground (arith, inner, fresh_ne 0 size))

  hidden :
      (now : ℕ)
      → let t' = follow_root now added in
        (occ t.next t'.qheap ≡ 1)
        × (expiry t'.store t.next ≤ later)
        × ((pop_min later 0 t').0 ≡ none)
  hidden now =
      let stored : (follow_root now added).store t.next ≡ item =
        ap (λ (f : ℕ → Item). f t.next) (follow_root-store now added)
        ∙ add_item-store eh' item (cancelled eh p t) in
      let root : expiry (follow_root now added).store (item_at (follow_root now added).qheap 0)
          ≡ expiry t.store (item_at t.qheap 0) =
        ap₂ (λ (f : ℕ → Item) (a : List ℕ). expiry f (item_at a 0)) (follow_root-store now added)
          (follow_root-qheap now added)
        ∙ added_root in
      (
        rw (follow_root-qheap now added, added-qheap, occ-snoc)
            (ground (arith, v.allocated t.next)),
        omega (arith, ap (λ (i : Item). i.expire_at) stored),
        pop_min_early later 0 _ (omega (arith, root)),
      )

-- Cancelling a timer marks its item and leaves it in its slot. If that slot is the parent of the next
-- free one and is not the root, a timer scheduled next stays below it, also when it expires before
-- the root: it is in the heap and due, and `pop_min` finds nothing to expire.
pub cancel_hides_due :
    (t : Timer) (eh p eh' delay interval now later : ℕ)
    → IsValid t
    → t.ti eh ≡ some p
    → 0 < length t.qheap
    → item_at t.qheap (parent (length t.qheap)) ≡ p
    → p ≢ item_at t.qheap 0
    → 0 < now + delay
    → now + delay ≤ later
    → later < expiry t.store (item_at t.qheap 0)
    → let t' = (schedule (some eh') delay interval now (cancel eh t)).1 in
      (occ t.next t'.qheap ≡ 1) × (expiry t'.store t.next ≤ later) × ((pop_min later 0 t').0 ≡ none)
unfolding schedule
cancel_hides_due t eh p eh' delay interval now later v held size above inner positive is_due early =
    let item : Item = record { interval = interval; expire_at = now + delay; eh = some eh' } in
    rw (cancel-held eh p t held)
      (hidden t eh p v size above inner eh' item later positive is_due early now)
