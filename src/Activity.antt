-- ===== src/Activity.antt =====
-- src/worker_timing_event.cpp, `worker_check_frontend_active`: every 300 milliseconds a worker looks for
-- frontends whose client is silent or slow. Times are milliseconds, 0 for one that has not been set.
pub mod Silence
mod Tests
use niubix.Base.{ℕ, ◌==◌, ltb, Bool, true, false, not, ◌&&◌, List, [], ◌∷◌, if◌then◌else◌}
use niubix.Base.Int.{pos, ◌-ℤ◌, ltb_ℤ}

-- `is_active` is `state == active_ok`; the two limits are those of the app.
pub record Frontend : Type 0 where
  pub is_active : Bool
  pub start_time : ℕ
  pub recv_time : ℕ
  pub a_complete_req_time : ℕ
  pub frontend_idle_timeout : ℕ
  pub frontend_a_complete_req_timeout : ℕ

-- `now - time > limit`, in signed numbers.
pub is_over : ℕ → ℕ → ℕ → Bool
is_over now time limit = ltb_ℤ (pos limit) (pos now -ℤ pos time)

-- Whether the loop calls `frontend_inactive`.
pub is_inactive : ℕ → Frontend → Bool
is_inactive now f =
    if not f.is_active
    then false
    else if (f.recv_time == 0) && is_over now f.start_time f.frontend_idle_timeout
    then true
    else if ltb 0 f.recv_time && is_over now f.recv_time f.frontend_idle_timeout
    then true
    else if (f.a_complete_req_time == 0)
        && ltb 0 f.recv_time
        && is_over now f.recv_time f.frontend_a_complete_req_timeout
    then true
    else ltb 0 f.a_complete_req_time
      && ltb f.a_complete_req_time f.recv_time
      && is_over now f.recv_time f.frontend_a_complete_req_timeout

-- The frontends for which a task is pushed, in their order; `frontend_inactive` closes nothing at once.
pub on_timeout : ℕ → List Frontend → List Frontend
on_timeout now [] = []
on_timeout now (f ∷ fs) =
    let rest = on_timeout now fs in if is_inactive now f then f ∷ rest else rest
