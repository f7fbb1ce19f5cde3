-- ===== src/Ringq/Run.antt =====
-- Whole histories of a ring: any calls after the constructor, against a plain list.
use niubix.Base.{ℕ, ◌*◌, ◌≤◌, ◌≡◌, ◌∙◌, ap, max, refl, List, [], ◌∷◌, ◌++◌, tail, length, arith}
use niubix.Ringq.{Ringq, init, push_back, pop_front}
use niubix.Ringq.Inv.{IsValid, init-IsValid, pop_front-IsValid, push_back-size, size-pop_front}
use niubix.Ringq.Refine.{
  contents, contents-push_back, contents-pop_front, push_back-IsValid, length-contents,
}

-- A call that changes the ring.
pub data Op {ℓ} (A : Type ℓ) : Type ℓ where
  push : A → Op A
  pop : Op A

module _ {ℓ} {A : Type ℓ} where
  -- What a call does to a queue of items, oldest first.
  abbrev pub queue_step : List A → Op A → List A
  queue_step q (push v) = q ++ v ∷ []
  queue_step q pop = tail q

  abbrev pub queue_run : List A → List (Op A) → List A
  queue_run q [] = q
  queue_run q (o ∷ os) = queue_run (queue_step q o) os

  -- The longest that the queue ever is.
  abbrev pub high_water : List A → List (Op A) → ℕ
  high_water q [] = length q
  high_water q (o ∷ os) = max (length q) (high_water (queue_step q o) os)

module _ {ℓ} {A : Type ℓ} (blank : A) where
  unfoldable pub step : Ringq A → Op A → Ringq A
  step r (push v) = push_back blank r v
  step r pop = pop_front blank r

  unfoldable pub run : Ringq A → List (Op A) → Ringq A
  run r [] = r
  run r (o ∷ os) = run (step r o) os

  step-IsValid : (r : Ringq A) (o : Op A) → IsValid r → IsValid (step r o)
  unfolding step
  step-IsValid r (push v) h = push_back-IsValid blank r v h
  step-IsValid r pop h = pop_front-IsValid blank r h

  contents-step :
      (r : Ringq A) (o : Op A)
      → IsValid r
      → contents blank (step r o) ≡ queue_step (contents blank r) o
  unfolding step
  contents-step r (push v) h = contents-push_back blank r v h
  contents-step r pop h = contents-pop_front blank r h

  size-step :
      (r : Ringq A) (o : Op A) (m : ℕ)
      → IsValid r
      → r.size ≤ max m 2
      → length (contents blank r) * 2 ≤ m
      → (step r o).size ≤ max m 2
  unfolding step
  size-step r (push v) m h s k = ground (arith, push_back-size blank r v h, length-contents blank r)
  size-step r pop m h s k = rw (size-pop_front blank r) s

  run-IsValid : (r : Ringq A) (os : List (Op A)) → IsValid r → IsValid (run r os)
  unfolding run
  run-IsValid r [] h = h
  run-IsValid r (o ∷ os) h = run-IsValid (step r o) os (step-IsValid r o h)

  contents-run :
      (r : Ringq A) (os : List (Op A))
      → IsValid r
      → contents blank (run r os) ≡ queue_run (contents blank r) os
  unfolding run
  contents-run r [] h = refl
  contents-run r (o ∷ os) h =
      contents-run (step r o) os (step-IsValid r o h)
      ∙ ap (λ q. queue_run q os) (contents-step r o h)

  size-run :
      (r : Ringq A) (os : List (Op A)) (m : ℕ)
      → IsValid r
      → r.size ≤ max m 2
      → high_water (contents blank r) os * 2 ≤ m
      → (run r os).size ≤ max m 2
  unfolding run
  size-run r [] m h s k = s
  size-run r (o ∷ os) m h s k =
      size-run (step r o) os m (step-IsValid r o h) (size-step r o m h s (omega arith))
        (rw (contents-step r o h) (omega arith))

  -- A ring made by the constructor, after any pushes and pops, is well formed and holds exactly
  -- the items that a first-in first-out queue holds after the same calls.
  pub run_refines :
      (n : ℕ) (os : List (Op A))
      → IsValid (run (init blank n) os) × (contents blank (run (init blank n) os) ≡ queue_run [] os)
  unfolding init
  run_refines n os =
      (run-IsValid _ os (init-IsValid blank n), contents-run _ os (init-IsValid blank n))

  -- After any pushes and pops, the storage of a ring made by the constructor is at most the largest
  -- of the constructor's size, two slots, and twice the most items that it ever held.
  pub run-size :
      (n : ℕ) (os : List (Op A))
      → (run (init blank n) os).size ≤ max n (max (high_water {A = A} [] os * 2) 2)
  unfolding init
  run-size n os = omega (
    arith,
    size-run (init blank n) os (max n (high_water {A = A} [] os * 2)) (init-IsValid blank n)
        (omega arith) (omega arith),
  )
