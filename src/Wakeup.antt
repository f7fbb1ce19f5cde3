-- ===== src/Wakeup.antt =====
-- src/worker.h and src/worker.cpp: `worker_wakeup`, which `worker::push_task` calls behind the push.
-- The eventfd is non-blocking: a write adds to its counter, a read takes the whole counter, and it is
-- readable while the counter is not 0.
pub mod Lost
use niubix.Base.{ℕ, ◌+◌, Bool, true, false, List, [], ◌∷◌, if◌then◌else◌}

pub record WorkerWakeup : Type 0 where
  pub waked : Bool
  pub efd : ℕ

-- The constructor and `open`, which makes the eventfd.
abbrev pub opened : WorkerWakeup
opened = record { waked = false; efd = 0 }

pub wake : WorkerWakeup → WorkerWakeup
wake w = if w.waked then w else record { waked = true; efd = w.efd + 1 }

pub on_read : WorkerWakeup → WorkerWakeup
on_read w = record { waked = true; efd = 0 }

-- A call of `wake` by some thread, or of `on_read` by the worker.
pub data Call : Type 0 where
  wake_call read_call : Call

pub run : WorkerWakeup → List Call → WorkerWakeup
run w [] = w
run w (Call.wake_call ∷ cs) = run (wake w) cs
run w (Call.read_call ∷ cs) = run (on_read w) cs
