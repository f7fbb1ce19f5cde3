-- ===== src/Async/Tests.antt =====
-- A task that reaches the worker, and one that comes in the gap behind the tasks.
use niubix.Base.{◌≡◌, refl, true, [], ◌∷◌}
use niubix.Async.{
  push_back, notify, swap, run_tasks, run_loop, At, Threads, Reach, here, next, pushes, notifies,
  writes, write_efd, wakes, runs, fresh,
}
use niubix.Async.Order.{tasks, Reach-tasks, lost_wake}
use native.Mathlib.Omega.{arith}

-- Task 7 has been run, and the eventfd is not read yet.
abbrev behind : Threads
behind = record {
  q = record { readq = []; writeq = []; notified = true; efd = 1; ran = 7 ∷ [] };
  place = At.behind_tasks;
  pushing = 0;
  writing = 0;
}

behind_reached : Reach fresh (7 ∷ []) behind
unfolding push_back notify write_efd swap run_tasks run_loop
behind_reached =
    next
      (next (next (next (next here (pushes 7)) (notifies (omega arith))) (writes (omega arith)))
        (wakes refl (omega arith)))
      (runs refl)

Reach-tasks_example : tasks behind.q ≡ 7 ∷ []
Reach-tasks_example = Reach-tasks behind_reached

lost_wake_example :
    (u : Threads) × Reach behind (8 ∷ []) u
    × (u.place ≡ At.outside)
    × (u.q.efd ≡ 0)
    × (u.pushing ≡ 0)
    × (u.writing ≡ 0)
    × (u.q.writeq ≡ 8 ∷ [])
lost_wake_example = lost_wake 8 behind refl refl refl refl
