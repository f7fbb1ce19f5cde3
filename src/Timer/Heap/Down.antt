-- ===== src/Timer/Heap/Down.antt =====
-- `shift_down` restores the order, and only moves items.
use native.Mathlib.Decide.{ℕ_discrete}
use niubix.Base.{
  ℕ, zero, suc, ◌+◌, ◌-◌, ◌<◌, ◌≤◌, ◌≡◌, refl, ap, ◌∙◌, List, [], ◌∷◌, length, length-set, set,
  arith, Bool-cases, inl, inr, ltb, leb, ◌&&◌, ◌==◌, take, if◌then◌else◌, ltb→lt, ltb→ge, leb→le,
}
use niubix.Timer.{
  item_at, parent, child, min_child, min_child_loop, down_loop, shift_down, remove_root,
}
use niubix.Timer.Array.{item_at-set, item_at-take, length-take, one, occ, occ-set, occ-take}
use niubix.Timer.Heap.{key, IsHeap, IsHeapBut}
use niubix.Timer.Heap.Up.{fill, ItemBelow}

module _ (expire_at : ℕ → ℕ) where
  -- Among the children of `idx` up to child number `i` that exist, `m` is one that expires first.
  record IsLeast (a : List ℕ) (idx i m : ℕ) : Type 0 where
    inside : m < length a
    is_child : parent m ≡ idx
    positive : 0 < m
    least :
        (c : ℕ)
        → 0 < c
        → c < length a
        → parent c ≡ idx
        → c ≤ child idx i
        → key expire_at a m ≤ key expire_at a c

  module _ (a : List ℕ) (idx i m : ℕ) (h : i < 3) (l : IsLeast a idx i m) where
    abbrev next : ℕ
    next = child idx (suc i)

    keep_child :
        (next < length a → key expire_at a m ≤ key expire_at a next) → IsLeast a idx (suc i) m
    keep_child le = record {
      inside = l.inside;
      is_child = l.is_child;
      positive = l.positive;
      least = λ c p q e n. elim (ℕ_discrete c next) [
        | yes same ↦ rw same (le (rw same at q))
        | no other ↦ l.least c p q e (omega arith)
      ];
    }

    take_child :
        next < length a → key expire_at a next < key expire_at a m → IsLeast a idx (suc i) next
    take_child inside lt = record {
      inside = inside;
      is_child = omega arith;
      positive = omega arith;
      least = λ c p q e n. elim (ℕ_discrete c next) [
        | yes same ↦ rw same (omega arith)
        | no other ↦ omega (arith, l.least c p q e (omega arith))
      ];
    }

    better_child :
        IsLeast a idx (suc i) (
          if ltb next (length a) && ltb (key expire_at a next) (key expire_at a m) then next else m)
    better_child = elim (Bool-cases (ltb next (length a))) [
      | inl e ↦ elim (Bool-cases (ltb (key expire_at a next) (key expire_at a m))) [
        | inl f ↦ rw (e, f) (take_child (ltb→lt _ _ e) (ltb→lt _ _ f))
        | inr f ↦ rw (e, f) (keep_child (λ p. ltb→ge _ _ f))
      ]
      | inr e ↦ rw e (keep_child (λ p. absurd (omega (arith, ltb→ge _ _ e))))
    ]

  min_child-IsLeast :
      (a : List ℕ) (idx : ℕ) → child idx 0 < length a → IsLeast a idx 3 (min_child expire_at a idx)
  unfolding min_child min_child_loop
  min_child-IsLeast a idx h =
      let start : IsLeast a idx 0 (child idx 0) = record {
        inside = h;
        is_child = omega arith;
        positive = omega arith;
        least = λ c p q e n. let same : c ≡ child idx 0 = omega arith in rw same (omega arith);
      } in
      better_child a idx 2 _ (omega arith)
        (better_child a idx 1 _ (omega arith) (better_child a idx 0 _ (omega arith) start))

  module _ (a : List ℕ) (item idx m : ℕ) (h : IsHeapBut expire_at a idx) (l : IsLeast a idx 3 m)
      (sinks : key expire_at a m < expire_at item) where
    abbrev sunk : List ℕ
    sunk = set a idx (item_at a m)

    sunk_at : (c : ℕ) → item_at sunk c ≡ (if idx == c then item_at a m else item_at a c)
    sunk_at c = item_at-set a idx c (item_at a m) h.inside

    sunk-IsHeapBut : IsHeapBut expire_at sunk m
    sunk-IsHeapBut = record {
      inside = omega (arith, length-set a idx (item_at a m), l.inside);
      edges = λ c p q n o.
          let r : c < length a = rw length-set at q in
          ground (
            arith,
            sunk_at c,
            sunk_at (parent c),
            h.edges c p r,
            h.around m l.positive l.inside l.is_child,
            l.least c p r,
          );
      around = λ c p q e n.
          let r : c < length a = rw length-set at q in
          ground (arith, sunk_at c, sunk_at (parent m), l.is_child, l.positive, h.edges c p r);
    }

    sunk_high : 0 < m → key expire_at sunk (parent m) ≤ expire_at item
    sunk_high p = ground (arith, sunk_at (parent m), l.is_child)

  abbrev FitsAbove : List ℕ → ℕ → ℕ → Type 0
  FitsAbove a item idx = 0 < idx → key expire_at a (parent idx) ≤ expire_at item

  down_loop-IsHeap :
      (k : ℕ) (a : List ℕ) (item idx : ℕ)
      → length a ≤ k + idx
      → IsHeapBut expire_at a idx
      → FitsAbove a item idx
      → IsHeap expire_at (down_loop expire_at k a item idx)
  unfolding down_loop
  down_loop-IsHeap zero a item idx f h high = absurd (omega (arith, h.inside))
  down_loop-IsHeap (suc k) a item idx f h high =
      let m = min_child expire_at a idx in
      elim (Bool-cases (leb (length a) (child idx 0))) [
        | inl e ↦
            let none_there : length a ≤ child idx 0 = leb→le _ _ e in
            rw e (fill expire_at a item idx h (λ c p q r. absurd (omega arith)) high)
        | inr e ↦
            let there : child idx 0 < length a = ground arith in
            let l = min_child-IsLeast a idx there in
            elim (Bool-cases (leb (expire_at item) (key expire_at a m))) [
              | inl g ↦
                  let fits : expire_at item ≤ key expire_at a m = leb→le _ _ g in
                  let low : ItemBelow expire_at a item idx =
                    λ c p q r. omega (arith, l.least c p q r (omega arith)) in
                  rw (e, g) (fill expire_at a item idx h low high)
              | inr g ↦
                  let sinks : key expire_at a m < expire_at item = ground arith in
                  rw (e, g)
                    (down_loop-IsHeap k _ item m
                      (omega (arith, length-set a idx (item_at a m), l.is_child, l.positive))
                      (sunk-IsHeapBut a item idx m h l sinks) (sunk_high a item idx m h l sinks))
            ]
      ]

  down_loop-occ :
      (p k : ℕ) (a : List ℕ) (item idx : ℕ)
      → idx < length a
      → occ p (down_loop expire_at k a item idx) + one p (item_at a idx) ≡ occ p a + one p item
  unfolding down_loop
  down_loop-occ p zero a item idx h = occ-set p a idx item h
  down_loop-occ p (suc k) a item idx h =
      let m = min_child expire_at a idx in
      elim (Bool-cases (leb (length a) (child idx 0))) [
        | inl e ↦ rw e (occ-set p a idx item h)
        | inr e ↦
            let l = min_child-IsLeast a idx (ground arith) in
            let sunk = set a idx (item_at a m) in
            let ih = down_loop-occ p k sunk item m (rw length-set l.inside) in
            let kept : item_at sunk m ≡ item_at a m =
              ground (arith, item_at-set a idx m (item_at a m) h) in
            elim (Bool-cases (leb (expire_at item) (key expire_at a m))) [
              | inl g ↦ rw (e, g) (occ-set p a idx item h)
              | inr g ↦ rw (e, g) (omega (arith, rw kept at ih, occ-set p a idx (item_at a m) h))
            ]
      ]

  shift_down-nil : shift_down expire_at [] 0 ≡ []
  unfolding shift_down down_loop
  shift_down-nil = refl

  shift_down-occ : (p : ℕ) (a : List ℕ) → occ p (shift_down expire_at a 0) ≡ occ p a
  unfolding shift_down
  shift_down-occ p [] = ap (occ p) shift_down-nil
  shift_down-occ p (x ∷ a) =
      omega (arith, down_loop-occ p (length (x ∷ a)) (x ∷ a) (item_at (x ∷ a) 0) 0 (omega arith))

  shift_down-IsHeap :
      (a : List ℕ)
      → (0 < length a → IsHeapBut expire_at a 0)
      → IsHeap expire_at (shift_down expire_at a 0)
  unfolding shift_down
  shift_down-IsHeap [] h = λ c p q. absurd (nothing_below q)
    where
      nothing_below : {c : ℕ} → c < length (shift_down expire_at [] 0) → ⊥
      nothing_below q = omega (arith, rw shift_down-nil at q)
  shift_down-IsHeap (x ∷ a) h =
      down_loop-IsHeap (length (x ∷ a)) (x ∷ a) (item_at (x ∷ a) 0) 0 (omega arith)
        (h (omega arith)) (λ p. absurd (omega arith))

  module _ (a : List ℕ) (n : ℕ) (size : length a ≡ suc n) where
    -- The array that `pop_min` hands to `shift_down`.
    abbrev moved : List ℕ
    moved = set a 0 (item_at a n)

    abbrev cut : List ℕ
    cut = take n moved

    length-moved : length moved ≡ suc n
    length-moved = length-set a 0 (item_at a n) ∙ size

    at_moved : (c : ℕ) → item_at moved c ≡ (if 0 == c then item_at a n else item_at a c)
    at_moved c = item_at-set a 0 c (item_at a n) (omega arith)

    at_cut : (c : ℕ) → 0 < c → c < n → item_at cut c ≡ item_at a c
    at_cut c p q = item_at-take n moved c q ∙ ground (arith, at_moved c)

    length-cut : length cut ≡ n
    length-cut = length-take n moved (omega (arith, length-moved))

    cut-IsHeapBut : IsHeap expire_at a → 0 < length cut → IsHeapBut expire_at cut 0
    cut-IsHeapBut h p = record {
      inside = p;
      edges = λ c p q n o.
          let r = rw length-cut at q in
          rw (at_cut c p r, at_cut (parent c) (omega arith) (omega arith)) (h c p (omega arith));
      around = λ c p q e n. absurd (omega arith);
    }

    cut-occ : (p : ℕ) → occ p cut + one p (item_at a 0) ≡ occ p a
    cut-occ p =
        let last : item_at moved n ≡ item_at a n = ground (arith, at_moved n) in
        omega (
          arith,
          rw last at (occ-take p n moved length-moved),
          occ-set p a 0 (item_at a n) (omega arith),
        )

  -- Taking the root away leaves a heap of the other items.
  pub remove_root-IsHeap :
      (a : List ℕ) → IsHeap expire_at a → 0 < length a → IsHeap expire_at (remove_root expire_at a)
  unfolding remove_root
  remove_root-IsHeap a h p = shift_down-IsHeap _ (cut-IsHeapBut a (length a - 1) (omega arith) h)

  pub remove_root-occ :
      (p : ℕ) (a : List ℕ)
      → 0 < length a
      → occ p (remove_root expire_at a) + one p (item_at a 0) ≡ occ p a
  unfolding remove_root
  remove_root-occ p a h =
      rw (shift_down-occ p (cut a (length a - 1) (omega arith)))
        (cut-occ a (length a - 1) (omega arith) p)
