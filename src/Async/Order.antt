-- ===== src/Async/Order.antt =====
-- The tasks of `async_taskq` over every interleaving of the threads.
use niubix.Base.{
  if◌then◌else◌, ℕ, zero, suc, ◌+◌, ◌-◌, ◌≡◌, refl, sym, ap, ◌∙◌, true, List, [], ◌∷◌, ◌++◌, length,
  min, Bool-cases, inl, inr,
}
use niubix.Async.{
  AsyncTaskq, no_tasks, push_back, notify, swap, run_loop, run_tasks, read_efd, clear_notified, At,
  Threads, Step, Reach, here, next, fresh, pushes, notifies, writes, write_efd, wakes, runs, reads,
  clears,
}
use mathlib.Core.List.{append_assoc, append-nil}
use native.Mathlib.Omega.{arith}

-- The tasks in the order in which they are run: those that ran, and those that wait.
abbrev pub tasks : AsyncTaskq → List ℕ
tasks q = q.ran ++ (q.readq ++ q.writeq)

run_loop-tasks :
    (k : ℕ) (ts : List ℕ) (q : AsyncTaskq) → tasks (run_loop k ts q) ≡ q.ran ++ (ts ++ q.writeq)
unfolding run_loop
run_loop-tasks zero ts q = refl
run_loop-tasks (suc k) [] q = refl
run_loop-tasks (suc k) (t ∷ ts) q =
    run_loop-tasks k ts (record q { ran = q.ran ++ t ∷ [] })
    ∙ append_assoc q.ran (t ∷ []) (ts ++ q.writeq)

none_left : (ts : List ℕ) → no_tasks ts ≡ true → ts ≡ []
none_left [] e = refl
none_left (t ∷ ts) e = cc e

swap-tasks : (q : AsyncTaskq) → tasks (swap q) ≡ tasks q
unfolding swap
swap-tasks q = elim (Bool-cases (no_tasks q.readq)) [
  | inl e ↦ rw e (
      ap (λ r. q.ran ++ (q.writeq ++ r)) (none_left q.readq e)
      ∙ ap (λ r. q.ran ++ r) (append-nil q.writeq)
      ∙ ap (λ r. q.ran ++ (r ++ q.writeq)) (sym (none_left q.readq e)))
  | inr e ↦ rw e refl
]

push_back-tasks : (t : ℕ) (q : AsyncTaskq) → tasks (push_back t q) ≡ tasks q ++ t ∷ []
unfolding push_back
push_back-tasks t q =
    ap (λ ts. q.ran ++ ts) (sym (append_assoc q.readq q.writeq (t ∷ [])))
    ∙ sym (append_assoc q.ran (q.readq ++ q.writeq) (t ∷ []))

Step-tasks : {s u : Threads} {new : List ℕ} → Step s new u → tasks u.q ≡ tasks s.q ++ new
unfolding notify write_efd read_efd clear_notified run_tasks
Step-tasks {s = s} (pushes t) = push_back-tasks t s.q
Step-tasks {s = s} (notifies p) = sym (append-nil (tasks s.q))
Step-tasks {s = s} (writes p) = sym (append-nil (tasks s.q))
Step-tasks {s = s} (wakes o r) = swap-tasks s.q ∙ sym (append-nil (tasks s.q))
Step-tasks {s = s} (runs b) =
    run_loop-tasks (min 64 (length s.q.readq)) s.q.readq s.q ∙ sym (append-nil (tasks s.q))
Step-tasks {s = s} (reads b) = sym (append-nil (tasks s.q))
Step-tasks {s = s} (clears b) = sym (append-nil (tasks s.q))

-- However the threads interleave, the tasks that ran, then those in the worker's ring and then those in
-- the other ring are exactly the tasks that were pushed, in the order in which the lock was taken: none
-- is lost, run twice or overtaken.
pub Reach-tasks : {ts : List ℕ} {s : Threads} → Reach fresh ts s → tasks s.q ≡ ts
Reach-tasks here = refl
Reach-tasks (next {ts = ts} {new = new} r st) =
    Step-tasks st ∙ ap (λ before. before ++ new) (Reach-tasks r)

-- If a whole `push` runs when the worker has run its tasks but has not yet read the eventfd, while
-- `notified` is set and no other thread is in `push`, then a state is reached in which the worker is
-- outside `on_read`, the task waits, the eventfd is not readable and no thread is about to write to it:
-- nothing wakes the worker until another task is pushed.
pub lost_wake :
    (t : ℕ) (s : Threads)
    → s.place ≡ At.behind_tasks
    → s.q.notified ≡ true
    → s.pushing ≡ 0
    → s.writing ≡ 0
    → (u : Threads) × Reach s (t ∷ []) u
      × (u.place ≡ At.outside)
      × (u.q.efd ≡ 0)
      × (u.pushing ≡ 0)
      × (u.writing ≡ 0)
      × (u.q.writeq ≡ s.q.writeq ++ t ∷ [])
unfolding push_back notify read_efd clear_notified
lost_wake t s b n p w =
    let q = clear_notified (read_efd (notify (push_back t s.q))) in
    let u : Threads = record {
      q = q;
      place = At.outside;
      pushing = s.pushing + 1 - 1;
      writing = if s.q.notified then s.writing else s.writing + 1;
    } in
    let steps : Reach s (t ∷ []) u =
      next (next (next (next here (pushes t)) (notifies (omega arith))) (reads b)) (clears refl) in
    (u, steps, refl, refl, omega (arith, p), rw n w, refl)
