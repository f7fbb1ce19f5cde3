-- ===== src/Wakeup/Lost.antt =====
-- src/worker.cpp, what `worker_wakeup` does over sequences of calls.
use niubix.Base.{ℕ, zero, suc, true, List, [], ◌∷◌, ◌≡◌, refl, replicate}
use niubix.Wakeup.{WorkerWakeup, opened, wake, on_read, Call, run}

-- With `waked` set, `wake` does nothing.
abbrev waked : ℕ → WorkerWakeup
waked n = record { waked = true; efd = n }

run-silent : (cs : List Call) → (run (waked 0) cs).efd ≡ 0
unfolding run wake on_read
run-silent [] = refl
run-silent (Call.wake_call ∷ cs) = run-silent cs
run-silent (Call.read_call ∷ cs) = run-silent cs

-- Once the worker has read its eventfd, the descriptor never becomes readable again, whatever calls of
-- `wake` and `on_read` follow.
pub read-silent :
    (w : WorkerWakeup) (before after : List Call) → (run (on_read (run w before)) after).efd ≡ 0
unfolding on_read
read-silent w before after = run-silent after

run-waked : (n : ℕ) → (run (waked 1) (replicate n Call.wake_call)).efd ≡ 1
unfolding run wake
run-waked zero = refl
run-waked (suc n) = run-waked n

-- Before the first read, after any number of calls of `wake` and at least one, the eventfd holds
-- exactly one signal.
pub wake-readable : (n : ℕ) → (run opened (replicate (suc n) Call.wake_call)).efd ≡ 1
unfolding run wake
wake-readable n = run-waked n
