-- ===== src/Ringq/Refine.antt =====
-- A valid ring behaves as the queue of the items that it holds, oldest first.
use native.Mathlib.Nat.{mod-eq_of_lt, mod-add-mod, mod-lt, add-zero, zero-add}
use niubix.Base.{
  ℕ, zero, suc, ◌+◌, ◌-◌, ◌%◌, ◌≤◌, ◌<◌, ◌≡◌, ◌≢◌, ap, refl, List, get_or, set, length, length-set,
  length-replicate, replicate, arith, Bool-cases, inl, inr, ◌∙◌, ◌==◌, ◌↔◌, tail, [], ◌∷◌, ◌++◌,
  get_or-set_self, get_or-set_ne, true, sym,
}
use niubix.Base.Tabulate.{tabulate, length-tabulate, tabulate-ext, tabulate-snoc}
use niubix.Ringq.{Ringq, init, copy, new_size, grow, put, push_back, pop_front, full, empty, front}
use niubix.Ringq.Inv.{IsValid, slot_ne, grow-IsValid, grow_room, put-IsValid}

module _ {ℓ} {A : Type ℓ} (blank : A) where
  -- The item that stands `k` places behind the head.
  abbrev pub slot : Ringq A → ℕ → A
  slot r k = get_or r.rq ((r.head + k) % r.size) blank

  abbrev pub contents : Ringq A → List A
  contents r = tabulate r.len (slot r)

  -- After `k` rounds from `i` the slots from `i` to `i + k` hold the ring's items; the slots below
  -- `i` are untouched.
  copy_below :
      (r : Ringq A) (k i j : ℕ) (newrq : List A)
      → j < i
      → get_or (copy blank r k i newrq) j blank ≡ get_or newrq j blank
  unfolding copy
  copy_below r zero i j newrq h = refl
  copy_below r (suc k) i j newrq h =
      copy_below r k (suc i) j _ (omega arith) ∙ get_or-set_ne newrq i j _ blank (λ e. omega arith)

  copy-slot :
      (r : Ringq A) (k i d : ℕ) (newrq : List A)
      → i + k ≤ length newrq
      → d < k
      → get_or (copy blank r k i newrq) (i + d) blank ≡ slot r (i + d)
  unfolding copy
  copy-slot r zero i d newrq h p = elim p [ ]
  copy-slot r (suc k) i zero newrq h p =
      rw add-zero
        (copy_below r k (suc i) i _ (omega arith) ∙ get_or-set_self newrq i _ blank (omega arith))
  copy-slot r (suc k) i (suc d) newrq h p =
      let e : i + suc d ≡ suc i + d = omega arith in
      rw e (copy-slot r k (suc i) d _ (omega (arith, length-set newrq i (slot r i))) (omega arith))

  pub contents-grow : (r : Ringq A) → IsValid r → contents (grow blank r) ≡ contents r
  unfolding grow new_size
  contents-grow r v =
      let n : ℕ = new_size blank r.size in
      tabulate-ext r.len _ _ λ k p.
        rw (zero-add k, mod-eq_of_lt {n = k} {m = n} (ground arith))
          (rw zero-add at
            (copy-slot r r.len 0 k (replicate n blank) (rw length-replicate (ground arith)) p))

  module _ (r : Ringq A) (v : A) (h : IsValid r) where
    contents-put : r.len < r.size → contents (put blank r v) ≡ contents r ++ v ∷ []
    unfolding put
    contents-put room =
        let after : ℕ → A = λ k. get_or (set r.rq r.tail v) ((r.head + k) % r.size) blank in
        let one_more : r.len + 1 ≡ suc r.len = omega arith in
        let inside : r.tail < length r.rq =
          rw h.tail_at
            (omega (arith, mod-lt (r.head + r.len) {m = r.size} (omega arith), h.slots)) in
        let new : after r.len ≡ v = rw (← h.tail_at) (get_or-set_self r.rq r.tail v blank inside) in
        let old : tabulate r.len after ≡ contents r = tabulate-ext r.len after (slot r) λ k p.
          get_or-set_ne r.rq r.tail _ v blank
            (λ e. slot_ne r.size r.head k r.len (omega arith) p room (sym h.tail_at ∙ e)) in
        rw (one_more, tabulate-snoc r.len after, old, new)

  module _ (r : Ringq A) (v : A) (h : IsValid r) where
    -- `push_back` appends to the queue, whether or not the ring has to grow.
    pub contents-push_back : contents (push_back blank r v) ≡ contents r ++ v ∷ []
    unfolding push_back full
    contents-push_back = elim (Bool-cases (r.len == r.size)) [
      | inl e ↦ rw e (
          contents-put _ v (grow-IsValid blank r h) (grow_room blank r h)
          ∙ ap (λ q. q ++ v ∷ []) (contents-grow r h))
      | inr e ↦ rw e (contents-put r v h (ground arith))
    ]

    pub push_back-IsValid : IsValid (push_back blank r v)
    unfolding push_back full
    push_back-IsValid = elim (Bool-cases (r.len == r.size)) [
      | inl e ↦ rw e (put-IsValid blank _ v (grow-IsValid blank r h) (grow_room blank r h))
      | inr e ↦ rw e (put-IsValid blank r v h (ground arith))
    ]

  pub length-contents : (r : Ringq A) → length (contents r) ≡ r.len
  length-contents r = length-tabulate r.len (slot r)

  empty_contents : (r : Ringq A) → ((r.len == 0) ≡ true) ↔ (contents r ≡ [])
  empty_contents r = (
    λ e. let none_left : r.len ≡ 0 = ground arith in rw none_left refl,
    λ e. ground (arith, sym (length-contents r) ∙ ap length e),
  )

  -- `pop_front` drops the oldest item, and does nothing to an empty queue.
  pub contents-pop_front :
      (r : Ringq A) → IsValid r → contents (pop_front blank r) ≡ tail (contents r)
  unfolding pop_front empty
  contents-pop_front r v = elim (Bool-cases (r.len == 0)) [
    | inl e ↦ let none_left : r.len ≡ 0 = ground arith in rw (e, none_left) refl
    | inr e ↦
        let fewer : r.len ≡ suc (r.len - 1) = ground arith in
        let moved : (k : ℕ) → ((r.head + 1) % r.size + k) % r.size ≡ (r.head + suc k) % r.size =
          λ k. mod-add-mod (r.head + 1) r.size k ∙ ap (λ t. t % r.size) (omega arith) in
        let here : (r.head + 0) % r.size ≡ r.head = rw add-zero (mod-eq_of_lt (omega arith)) in
        rw e (
          tabulate-ext (r.len - 1) _ (λ k. slot r (suc k))
            (λ k p. rw moved (
              get_or-set_ne r.rq r.head _ blank blank (λ same.
                slot_ne r.size r.head 0 (suc k) (omega arith) (omega arith) (omega arith)
                  (sym same ∙ sym here))))
          ∙ sym (ap (λ n. tail (tabulate n (slot r))) fewer))
  ]

  -- `front` reads the oldest item of a queue that is not empty.
  pub front-contents :
      (r : Ringq A) → IsValid r → contents r ≢ [] → front blank r ≡ get_or (contents r) 0 blank
  unfolding front
  front-contents r v some_left = elim (Bool-cases (r.len == 0)) [
    | inl e ↦ absurd (some_left ((empty_contents r).0 e))
    | inr e ↦
        let fewer : r.len ≡ suc (r.len - 1) = ground arith in
        let here : (r.head + 0) % r.size ≡ r.head = rw add-zero (mod-eq_of_lt (omega arith)) in
        sym (
          ap (λ n. get_or (tabulate n (slot r)) 0 blank) fewer ∙ ap (λ i. get_or r.rq i blank) here)
  ]

  pub contents-init : (n : ℕ) → contents (init blank n) ≡ []
  unfolding init
  contents-init n = refl

  -- A write through the reference that `front` returns changes the oldest item only.
  pub contents-set_front :
      (r : Ringq A) (x : A)
      → IsValid r
      → 0 < r.len
      → contents (record r { rq = set r.rq r.head x }) ≡ x ∷ tail (contents r)
  contents-set_front r x v some_left =
      let fewer : r.len ≡ suc (r.len - 1) = omega arith in
      let after : ℕ → A = λ k. get_or (set r.rq r.head x) ((r.head + k) % r.size) blank in
      let here : (r.head + 0) % r.size ≡ r.head = rw add-zero (mod-eq_of_lt (omega arith)) in
      let first : after 0 ≡ x = rw here (get_or-set_self r.rq r.head x blank (omega arith)) in
      let others : tabulate (r.len - 1) (λ k. after (suc k))
          ≡ tabulate (r.len - 1) (λ k. slot r (suc k)) =
        tabulate-ext (r.len - 1) _ _ (λ k p. get_or-set_ne r.rq r.head _ x blank (λ same.
          slot_ne r.size r.head 0 (suc k) (omega arith) (omega arith) (omega arith)
            (sym same ∙ sym here))) in
      ap (λ n. tabulate n after) fewer
      ∙ ap (λ y. y ∷ tabulate (r.len - 1) (λ k. after (suc k))) first
      ∙ ap (λ ys. x ∷ ys) others
      ∙ sym (ap (λ n. x ∷ tail (tabulate n (slot r))) fewer)

  -- The ring's own test for emptiness is right.
  pub empty_iff : (r : Ringq A) → (empty blank r ≡ true) ↔ (contents r ≡ [])
  unfolding empty
  empty_iff r = empty_contents r
