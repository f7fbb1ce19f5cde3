-- ===== src/Timer/Heap/Up.antt =====
-- `shift_up` restores the order, and only moves items.
use niubix.Base.{
  ℕ, zero, suc, ◌+◌, ◌-◌, ◌<◌, ◌≤◌, ◌≡◌, List, [], ◌∷◌, ◌++◌, length, length-set, length-append,
  set, arith, Bool-cases, inl, inr, ltb, ltb→lt, ltb→ge, lt→ltb, get_or-append_left,
  get_or-append_self,
}
use niubix.Timer.{item_at, parent, up_loop, shift_up, insert}
use niubix.Timer.Array.{item_at-set, one, occ, occ-set, occ-snoc}
use niubix.Timer.Heap.{key, IsHeap, IsHeapBut}

module _ (expire_at : ℕ → ℕ) where
  -- Below the hole nothing expires before the carried item.
  abbrev pub ItemBelow : List ℕ → ℕ → ℕ → Type 0
  ItemBelow a item idx =
      (c : ℕ) → 0 < c → c < length a → parent c ≡ idx → expire_at item ≤ key expire_at a c

  -- Where the item fits, filling the hole with it gives a heap.
  pub fill :
      (a : List ℕ) (item idx : ℕ)
      → IsHeapBut expire_at a idx
      → ItemBelow a item idx
      → (0 < idx → key expire_at a (parent idx) ≤ expire_at item)
      → IsHeap expire_at (set a idx item)
  fill a item idx h low high c p q =
      let r : c < length a = rw length-set at q in
      ground (
        arith,
        item_at-set a idx c item h.inside,
        item_at-set a idx (parent c) item h.inside,
        h.edges c p r,
        low c p r,
      )

  module _ (a : List ℕ) (item idx : ℕ) (h : IsHeapBut expire_at a idx)
      (below : ItemBelow a item idx) (pos_idx : 0 < idx)
      (above : expire_at item < key expire_at a (parent idx)) where
    abbrev risen : List ℕ
    risen = set a idx (item_at a (parent idx))

    risen-IsHeapBut : IsHeapBut expire_at risen (parent idx)
    risen-IsHeapBut = record {
      inside = omega (arith, length-set a idx (item_at a (parent idx)), h.inside);
      edges = λ c p q n m.
          let r : c < length a = rw length-set at q in
          ground (
            arith,
            item_at-set a idx c (item_at a (parent idx)) h.inside,
            item_at-set a idx (parent c) (item_at a (parent idx)) h.inside,
            h.edges c p r,
            h.around c p r,
          );
      around = λ c p q e n.
          let r : c < length a = rw length-set at q in
          ground (
            arith,
            item_at-set a idx c (item_at a (parent idx)) h.inside,
            item_at-set a idx (parent (parent idx)) (item_at a (parent idx)) h.inside,
            h.inside,
            h.edges c p r,
            h.edges (parent idx) n,
          );
    }

    risen-ItemBelow : ItemBelow risen item (parent idx)
    risen-ItemBelow c p q e =
        let r : c < length a = rw length-set at q in
        ground (arith, item_at-set a idx c (item_at a (parent idx)) h.inside, h.edges c p r)

  up_loop-IsHeap :
      (k : ℕ) (a : List ℕ) (item idx : ℕ)
      → idx ≤ k
      → IsHeapBut expire_at a idx
      → ItemBelow a item idx
      → IsHeap expire_at (up_loop expire_at k a item idx)
  unfolding up_loop
  up_loop-IsHeap zero a item idx f h low = fill a item idx h low (λ p. absurd (omega arith))
  up_loop-IsHeap (suc k) a item zero f h low = fill a item 0 h low (λ p. absurd (omega arith))
  up_loop-IsHeap (suc k) a item (suc i) f h low =
      elim (Bool-cases (ltb (expire_at item) (key expire_at a (parent (suc i))))) [
        | inl e ↦
            let above : expire_at item < key expire_at a (parent (suc i)) = ltb→lt _ _ e in
            rw (lt→ltb 0 (suc i) (omega arith), e)
              (up_loop-IsHeap k _ item (parent (suc i)) (omega arith)
                (risen-IsHeapBut a item (suc i) h low (omega arith) above)
                (risen-ItemBelow a item (suc i) h low (omega arith) above))
        | inr e ↦
            rw (lt→ltb 0 (suc i) (omega arith), e) (fill a item (suc i) h low (λ p. ltb→ge _ _ e))
      ]

  up_loop-occ :
      (p k : ℕ) (a : List ℕ) (item idx : ℕ)
      → idx < length a
      → occ p (up_loop expire_at k a item idx) + one p (item_at a idx) ≡ occ p a + one p item
  unfolding up_loop
  up_loop-occ p zero a item idx h = occ-set p a idx item h
  up_loop-occ p (suc k) a item zero h = occ-set p a 0 item h
  up_loop-occ p (suc k) a item (suc i) h =
      let par = parent (suc i) in
      let rest = set a (suc i) (item_at a par) in
      let there : par < length rest = rw length-set (omega arith) in
      let ih = up_loop-occ p k rest item par there in
      let kept : item_at rest par ≡ item_at a par =
        ground (arith, item_at-set a (suc i) par (item_at a par) h) in
      elim (Bool-cases (ltb (expire_at item) (key expire_at a par))) [
        | inl e ↦
            rw (lt→ltb 0 (suc i) (omega arith), e)
              (omega (arith, rw kept at ih, occ-set p a (suc i) (item_at a par) h))
        | inr e ↦ rw (lt→ltb 0 (suc i) (omega arith), e) (occ-set p a (suc i) item h)
      ]

  module _ (a : List ℕ) (item : ℕ) where
    abbrev pushed : List ℕ
    pushed = a ++ item ∷ []

    last_index : length pushed - 1 ≡ length a
    last_index = omega (arith, length-append {0} a (item ∷ []))

    last_item : item_at pushed (length a) ≡ item
    last_item = get_or-append_self a item 0

    pushed-IsHeapBut : IsHeap expire_at a → IsHeapBut expire_at pushed (length a)
    pushed-IsHeapBut h =
        let longer = length-append {0} a (item ∷ []) in
        record {
          inside = omega (arith, longer);
          edges = λ c p q n m.
              let r : c < length a = omega (arith, longer) in
              rw
                (
                  get_or-append_left a (item ∷ []) c 0 r,
                  get_or-append_left a (item ∷ []) (parent c) 0 (omega arith),
                )
                (h c p r);
          around = λ c p q e n. absurd (omega (arith, longer));
        }

    -- `insert` keeps the order, and adds exactly the new item.
    pub insert-IsHeap : IsHeap expire_at a → IsHeap expire_at (insert expire_at a item)
    unfolding insert shift_up
    insert-IsHeap h =
        rw (last_index, last_item)
          (up_loop-IsHeap (length a) pushed item (length a) (omega arith) (pushed-IsHeapBut h)
            (λ c p q e. absurd (omega (arith, length-append {0} a (item ∷ [])))))

    pub insert-occ : (p : ℕ) → occ p (insert expire_at a item) ≡ occ p a + one p item
    unfolding insert shift_up
    insert-occ p =
        let longer = length-append {0} a (item ∷ []) in
        let moved = up_loop-occ p (length a) pushed item (length a) (omega (arith, longer)) in
        rw (last_index, last_item) (omega (arith, rw last_item at moved, occ-snoc p a item))
