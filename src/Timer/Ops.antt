-- ===== src/Timer/Ops.antt =====
-- `schedule`, `pop_min` and the invariant of the timers.
use niubix.Base.{
  ℕ, ◌+◌, ◌<◌, ◌≤◌, ◌≡◌, ◌≢◌, refl, ◌⊎◌, inl, inr, List, ◌∷◌, length, Option, none, some, arith,
  Bool-cases, true, false, ◌==◌, ltb, ltb→lt, ltb→ge,
}
use niubix.Timer.{
  Timer, Item, item_at, parent, expiry, update, schedule, add_item, follow_root, adjust_timerfd,
  pop_min, seconds, nanoseconds,
}
use niubix.Base.Int.{sub_ℕ}
use niubix.Timer.Array.{one, occ, occ-item_at}
use niubix.Timer.Heap.{IsHeap, root_least}
use niubix.Timer.Heap.Up.{insert-IsHeap, insert-occ}
use niubix.Timer.Heap.Down.{remove_root-IsHeap, remove_root-occ}

-- A heap of distinct, allocated items.
pub record IsValid (t : Timer) : Type 0 where
  pub heap : IsHeap (expiry t.store) t.qheap
  pub allocated : (p : ℕ) → t.next ≤ p → occ p t.qheap ≡ 0
  pub once : (p : ℕ) → occ p t.qheap ≤ 1

-- The order only depends on when the items of the heap expire.
pub IsHeap-agree :
    (e f : ℕ → ℕ) (a : List ℕ)
    → ((i : ℕ) → i < length a → e (item_at a i) ≡ f (item_at a i))
    → IsHeap e a
    → IsHeap f a
IsHeap-agree e f a same h c p q = omega (arith, same c q, same (parent c) (omega arith), h c p q)

-- Giving an item that is not in the heap another content leaves the order alone.
pub IsHeap-update :
    (store : ℕ → Item) (a : List ℕ) (p : ℕ) (item : Item)
    → occ p a ≡ 0
    → IsHeap (expiry store) a
    → IsHeap (expiry (update store p item)) a
IsHeap-update store a p item absent =
    IsHeap-agree (expiry store) (expiry (update store p item)) a
      λ i h. ground (arith, occ-item_at a i h)

add_item-IsValid : (eh : ℕ) (item : Item) (t : Timer) → IsValid t → IsValid (add_item eh item t)
unfolding add_item
add_item-IsValid eh item t v =
    let e = expiry (update t.store t.next item) in
    let absent = v.allocated t.next (omega arith) in
    record {
      heap =
          insert-IsHeap e t.qheap t.next (IsHeap-update t.store t.qheap t.next item absent v.heap);
      allocated =
          λ p h. rw (insert-occ e t.qheap t.next p) (ground (arith, v.allocated p (omega arith)));
      once = λ p. rw (insert-occ e t.qheap t.next p) (ground (arith, v.once p, absent));
    }

module _ (eh : ℕ) (item : Item) (t : Timer) where
  add_item-occ : (p : ℕ) → occ p (add_item eh item t).qheap ≡ occ p t.qheap + one p t.next
  unfolding add_item
  add_item-occ = insert-occ (expiry (update t.store t.next item)) t.qheap t.next

  pub add_item-store : (add_item eh item t).store t.next ≡ item
  unfolding add_item
  add_item-store = ground arith

  add_item-store_ne : (p : ℕ) → p ≢ t.next → (add_item eh item t).store p ≡ t.store p
  unfolding add_item
  add_item-store_ne p n = ground arith

  add_item-ti : (add_item eh item t).ti eh ≡ some t.next
  unfolding add_item
  add_item-ti = ground arith

-- `follow_root` changes nothing but the kernel's timer.
follow_root-IsValid : (now : ℕ) (t : Timer) → IsValid t → IsValid (follow_root now t)
unfolding follow_root adjust_timerfd
follow_root-IsValid now t v =
    elim (Bool-cases (expiry t.store (item_at t.qheap 0) == t.timerfd_settime)) [
      | inl e ↦ rw e v
      | inr e ↦ rw e (record { heap = v.heap; allocated = v.allocated; once = v.once })
    ]

module _ (now : ℕ) (t : Timer) where
  pub follow_root-qheap : (follow_root now t).qheap ≡ t.qheap
  unfolding follow_root adjust_timerfd
  follow_root-qheap = ground arith

  pub follow_root-store : (follow_root now t).store ≡ t.store
  unfolding follow_root adjust_timerfd
  follow_root-store = ground arith

  follow_root-ti : (follow_root now t).ti ≡ t.ti
  unfolding follow_root adjust_timerfd
  follow_root-ti = ground arith

  follow_root-settime : (follow_root now t).timerfd_settime ≡ expiry t.store (item_at t.qheap 0)
  unfolding follow_root adjust_timerfd
  follow_root-settime = ground arith

-- How the kernel's timer was set: once, to the time from `now` to `first`, if the time that is recorded
-- was another one, and else not at all.
abbrev pub Armed : ℕ → ℕ → Timer → Timer → Type 0
Armed now first t t' =
    ((first ≡ t.timerfd_settime) × (t'.settimes ≡ t.settimes))
    ⊎ ((first ≢ t.timerfd_settime)
        × (t'.settimes ≡ (seconds (sub_ℕ first now), nanoseconds (sub_ℕ first now)) ∷ t.settimes))

follow_root-Armed :
    (now : ℕ) (t : Timer) → Armed now (expiry t.store (item_at t.qheap 0)) t (follow_root now t)
unfolding follow_root adjust_timerfd
follow_root-Armed now t =
    elim (Bool-cases (expiry t.store (item_at t.qheap 0) == t.timerfd_settime)) [
      | inl e ↦ rw e (inl (ground (arith, e), refl))
      | inr e ↦ rw e (inr (λ same. absurd (ground (arith, e, same)), refl))
    ]

-- What a call of `schedule` for a handler promises.
pub record Scheduled (eh delay interval now : ℕ) (t t' : Timer) : Type 0 where
  pub valid : IsValid t'
  -- Exactly one item more, under a pointer that was free, due after the delay.
  pub added : (p : ℕ) → occ p t'.qheap ≡ occ p t.qheap + one p t.next
  pub item : t'.store t.next ≡ record { interval = interval; expire_at = now + delay; eh = some eh }
  pub kept : (p : ℕ) → p ≢ t.next → t'.store p ≡ t.store p
  pub held : t'.ti eh ≡ some t.next
  -- The time that the kernel's timer is set to is that of the first item to expire.
  pub follows :
      (t'.timerfd_settime ≡ expiry t'.store (item_at t'.qheap 0))
      × ((i : ℕ) → i < length t'.qheap → t'.timerfd_settime ≤ expiry t'.store (item_at t'.qheap i))
  pub armed : Armed now (expiry t'.store (item_at t'.qheap 0)) t t'

schedule-Armed :
    (eh : ℕ) (item : Item) (now : ℕ) (t : Timer)
    → let t' = add_item eh item t in
      Armed now (expiry t'.store (item_at t'.qheap 0)) t (follow_root now t')
unfolding add_item
schedule-Armed eh item now t = follow_root-Armed now (add_item eh item t)

pub schedule_lem :
    (eh delay interval now : ℕ) (t : Timer)
    → IsValid t
    → ((schedule (some eh) delay interval now t).0 ≡ true)
      × Scheduled eh delay interval now t (schedule (some eh) delay interval now t).1
      × (schedule none delay interval now t ≡ (false, t))
unfolding schedule
schedule_lem eh delay interval now t v =
    let item : Item = record { interval = interval; expire_at = now + delay; eh = some eh } in
    let added = add_item eh item t in
    let ok = add_item-IsValid eh item t v in
    let root = follow_root-settime now added in
    (
      refl,
      record {
        valid = follow_root-IsValid now added ok;
        added = λ p. rw (follow_root-qheap now added) (add_item-occ eh item t p);
        item = rw (follow_root-store now added) (add_item-store eh item t);
        kept = λ p n. rw (follow_root-store now added) (add_item-store_ne eh item t p n);
        held = rw (follow_root-ti now added) (add_item-ti eh item t);
        follows = (
          rw (follow_root-qheap now added, follow_root-store now added) root,
          λ i h.
              rw (follow_root-qheap now added, follow_root-store now added, root)
                (root_least (expiry added.store) added.qheap i ok.heap
                  (rw (follow_root-qheap now added) at h)),
        );
        armed =
            rw (follow_root-qheap now added, follow_root-store now added)
              (schedule-Armed eh item now t);
      },
      refl,
    )

-- What `pop_min` promises of a valid heap.
abbrev pub Popped : ℕ → ℕ → Timer → Option ℕ × ℕ × Timer → Type 0
Popped now delta t (none, delta', t') =
    (t' ≡ t)
    × ((i : ℕ) → i < length t.qheap → now < expiry t.store (item_at t.qheap i))
    × (((length t.qheap ≡ 0) × (delta' ≡ delta))
        ⊎ ((0 < length t.qheap) × (now + delta' ≡ expiry t.store (item_at t.qheap 0))))
Popped now delta t (some p, delta', t') =
    IsValid t'
    × (0 < occ p t.qheap)
    × ((q : ℕ) → occ q t'.qheap + one q p ≡ occ q t.qheap)
    × (expiry t.store p ≤ now)
    × ((i : ℕ) → i < length t.qheap → expiry t.store p ≤ expiry t.store (item_at t.qheap i))
    × ((t'.store ≡ t.store) × (t'.ti ≡ t.ti) × (t'.next ≡ t.next) × (delta' ≡ 0))

-- Over a valid heap, `pop_min` removes and returns an item that no other expires before, if that one
-- is due; if nothing is due it changes nothing and gives the time until the first one is, if any.
pub pop_min_lem : (now delta : ℕ) (t : Timer) → IsValid t → Popped now delta t (pop_min now delta t)
unfolding pop_min
pop_min_lem now delta t v = elim (Bool-cases (length t.qheap == 0)) [
  | inl e ↦
      let nothing : length t.qheap ≡ 0 = ground arith in
      rw e (refl, λ i h. absurd (omega arith), inl (nothing, refl))
  | inr e ↦
      let some_left : 0 < length t.qheap = ground arith in
      let least =
        λ (i : ℕ) (h : i < length t.qheap). root_least (expiry t.store) t.qheap i v.heap h in
      elim (Bool-cases (ltb now (expiry t.store (item_at t.qheap 0)))) [
        | inl f ↦
            let later : now < expiry t.store (item_at t.qheap 0) = ltb→lt _ _ f in
            rw (e, f) (refl, λ i h. omega (arith, least i h), inr (some_left, omega arith))
        | inr f ↦
            let fewer = λ (q : ℕ). remove_root-occ (expiry t.store) q t.qheap some_left in
            rw (e, f)
              (
                record {
                  heap = remove_root-IsHeap (expiry t.store) t.qheap v.heap some_left;
                  allocated = λ q h. omega (arith, fewer q, v.allocated q h);
                  once = λ q. omega (arith, fewer q, v.once q);
                },
                occ-item_at t.qheap 0 some_left,
                fewer,
                ltb→ge _ _ f,
                least,
                (refl, refl, refl, refl),
              )
      ]
]
