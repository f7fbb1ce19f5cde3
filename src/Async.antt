-- ===== src/Async.antt =====
-- src/async_taskq.h and src/async_taskq.cpp: `async_taskq`, by which other threads hand tasks to a worker.
-- The two rings are lists, which `Ringq.Run` shows them to be. Tasks are numbers, and `ran` has those
-- that `do_task` was called for. `efd` is the counter of the eventfd.
pub mod Order
mod Tests
use niubix.Base.{
  ℕ, zero, suc, ◌+◌, ◌-◌, ◌==◌, ◌≡◌, ◌<◌, Bool, true, false, not, ◌&&◌, List, [], ◌∷◌, ◌++◌,
  if◌then◌else◌, length, min,
}

pub record AsyncTaskq : Type 0 where
  pub readq : List ℕ
  pub writeq : List ℕ
  pub notified : Bool
  pub efd : ℕ
  pub ran : List ℕ

abbrev pub opened : AsyncTaskq
opened = record { readq = []; writeq = []; notified = false; efd = 0; ran = [] }

abbrev pub no_tasks : List ℕ → Bool
no_tasks ts = elim ts as (λ _. Bool) [ [] ↦ true | t ∷ rest ↦ false ]

-- `push` in its steps: what the lock guards, the exchange of `notified`, and the write to the eventfd.
pub push_back : ℕ → AsyncTaskq → AsyncTaskq
push_back t q = record q { writeq = q.writeq ++ t ∷ [] }

pub notify : AsyncTaskq → AsyncTaskq
notify q = record q { notified = true }

pub write_efd : AsyncTaskq → AsyncTaskq
write_efd q = record q { efd = q.efd + 1 }

-- `on_read` in its steps: the swap under the lock, at most 64 tasks, and behind the last task the read of
-- the eventfd and the store.
pub swap : AsyncTaskq → AsyncTaskq
swap q = if no_tasks q.readq then record q { readq = q.writeq; writeq = q.readq } else q

pub run_loop : ℕ → List ℕ → AsyncTaskq → AsyncTaskq
run_loop zero ts q = record q { readq = ts }
run_loop (suc k) [] q = record q { readq = [] }
run_loop (suc k) (t ∷ ts) q = run_loop k ts (record q { ran = q.ran ++ t ∷ [] })

pub run_tasks : AsyncTaskq → AsyncTaskq
run_tasks q = run_loop (min 64 (length q.readq)) q.readq q

pub read_efd : AsyncTaskq → AsyncTaskq
read_efd q = record q { efd = 0 }

pub clear_notified : AsyncTaskq → AsyncTaskq
clear_notified q = record q { notified = false }

-- Where the worker is: outside `on_read`, or behind the swap, the tasks or the read.
pub data At : Type 0 where
  outside behind_swap behind_tasks behind_read : At

-- The queue, the worker's place, and how many threads are in `push` in front of the exchange, and in front
-- of the write: those whose exchange found `notified` false.
pub record Threads : Type 0 where
  pub q : AsyncTaskq
  pub place : At
  pub pushing : ℕ
  pub writing : ℕ

-- The steps of the threads, which interleave in any order, with the tasks that each hands over.
-- `on_read` is called when the eventfd is readable, and leaves it so while tasks are left.
pub data Step (s : Threads) : List ℕ → Threads → Type 0 where
  pushes : (t : ℕ) → Step s (t ∷ []) (record s { q = push_back t s.q; pushing = s.pushing + 1 })
  notifies :
      0 < s.pushing
      → Step s [] (record s {
        q = notify s.q;
        pushing = s.pushing - 1;
        writing = if s.q.notified then s.writing else s.writing + 1;
      })
  writes : 0 < s.writing → Step s [] (record s { q = write_efd s.q; writing = s.writing - 1 })
  wakes :
      s.place ≡ At.outside
      → 0 < s.q.efd
      → Step s [] (record s { q = swap s.q; place = At.behind_swap })
  runs :
      s.place ≡ At.behind_swap
      → Step s [] (record s {
        q = run_tasks s.q;
        place = if no_tasks (run_tasks s.q).readq then At.behind_tasks else At.outside;
      })
  reads :
      s.place ≡ At.behind_tasks → Step s [] (record s { q = read_efd s.q; place = At.behind_read })
  clears :
      s.place ≡ At.behind_read → Step s [] (record s { q = clear_notified s.q; place = At.outside })

-- What is reached from `s`, with the tasks that were handed over in the order of the lock.
pub data Reach (s : Threads) : List ℕ → Threads → Type 0 where
  here : Reach s [] s
  next : {ts new : List ℕ} {t u : Threads} → Reach s ts t → Step t new u → Reach s (ts ++ new) u

abbrev pub fresh : Threads
fresh = record { q = opened; place = At.outside; pushing = 0; writing = 0 }
