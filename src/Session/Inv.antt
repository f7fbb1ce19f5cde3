-- ===== src/Session/Inv.antt =====
-- What holds of a session between two handlers.
use niubix.Base.{ℕ, ◌+◌, ◌≤◌, ◌<◌, ◌≡◌, Bool, true, false, ◌||◌, List, [], ◌∷◌, ◌++◌}
use niubix.Session.{
  FrontState, Task, Session, is_active, is_active_back, is_closed, is_closed_back, is_new,
  is_conn_ok, frontend_close_call, backend_close_call, backend_connect_fail, front_on_close,
  back_on_close, on_connect_fail, front_end,
}
use native.Mathlib.Omega.{arith}

-- A task that ends the frontend, one that ends the backend, and one that tells the frontend that the
-- backend is connected.
abbrev pub ends_front : Task → ℕ
ends_front Task.backend_conn_fail = 1
ends_front Task.backend_close = 1
ends_front Task.frontend_inactive = 1
ends_front _ = 0

abbrev pub ends_back : Task → ℕ
ends_back Task.frontend_close = 1
ends_back _ = 0

abbrev pub connects : Task → ℕ
connects Task.backend_conn_ok = 1
connects _ = 0

-- How many tasks of a kind wait.
unfoldable pub count : (Task → ℕ) → List Task → ℕ
count f [] = 0
count f (t ∷ ts) = f t + count f ts

pub count_snoc :
    (f : Task → ℕ) (ts : List Task) (t : Task) → count f (ts ++ t ∷ []) ≡ count f ts + f t
unfolding count
count_snoc f [] t = omega arith
count_snoc f (u ∷ ts) t = omega (arith, count_snoc f ts t)

abbrev pub is_new_front : FrontState → Bool
is_new_front FrontState.new_ok = true
is_new_front _ = false

abbrev pub one_if : Bool → ℕ
one_if true = 1
one_if false = 0

-- `f` and `b` connections of the app are active beside this one.
pub record IsValid (f b : ℕ) (s : Session) : Type 0 where
  -- The two point to each other or neither does.
  pub linked : s.front.backend_conn ≡ s.back.frontend_conn
  -- Only a closed one is deleted, and one that is linked is not closed.
  pub front_freed : s.front.freed ≡ is_closed s.front.state
  pub back_freed : s.back.freed ≡ is_closed_back s.back.state
  pub front_alive : s.front.backend_conn ≡ true → is_closed s.front.state ≡ false
  pub back_alive : s.back.frontend_conn ≡ true → is_closed_back s.back.state ≡ false
  -- The frontend is open, and the backend's states in the middle of a handler are left behind.
  pub front_open : is_new_front s.front.state ≡ false
  pub back_settled :
      (is_new s.back.state || is_active_back s.back.state || is_closed_back s.back.state) ≡ true
  -- The app's counters are exact.
  pub front_counted : s.frontend_active_n ≡ f + one_if (is_active s.front.state)
  pub back_counted : s.backend_active_n ≡ b + one_if (is_active_back s.back.state)
  -- One that has lost its link is deleted, or is told so by a task that waits, or is a backend that
  -- the connector will tell.
  pub front_told :
      s.front.backend_conn ≡ false → is_closed s.front.state ≡ false → 0 < count ends_front s.taskq
  pub back_told :
      s.back.frontend_conn ≡ false
      → is_closed_back s.back.state ≡ false
      → is_new s.back.state ≡ false
      → 0 < count ends_back s.taskq
  -- The frontend is told at most once that the backend is connected, and before it becomes active;
  -- and if it is still to become active it will be told.
  pub told_once : count connects s.taskq ≤ 1
  pub active_told : is_active s.front.state ≡ true → count connects s.taskq ≡ 0
  pub new_untold : is_new s.back.state ≡ true → count connects s.taskq ≡ 0
  pub new_inactive : is_new s.back.state ≡ true → is_active s.front.state ≡ false
  pub connect_told :
      s.front.backend_conn ≡ true
      → is_conn_ok s.front.state ≡ true
      → is_new s.back.state ≡ false
      → 0 < count connects s.taskq

-- What a push of a task does to the counts.
module _ (q : List Task) (t : Task) where
  pub snoc_front : count ends_front (q ++ t ∷ []) ≡ count ends_front q + ends_front t
  snoc_front = count_snoc ends_front q t

  pub snoc_back : count ends_back (q ++ t ∷ []) ≡ count ends_back q + ends_back t
  snoc_back = count_snoc ends_back q t

  pub snoc_connects : count connects (q ++ t ∷ []) ≡ count connects q + connects t
  snoc_connects = count_snoc connects q t

module _ (f b : ℕ) (s : Session) (v : IsValid f b s) where
  pub front_on_close-IsValid : IsValid f b (front_on_close s)
  unfolding front_on_close frontend_close_call
  front_on_close-IsValid = ground (
    arith,
    snoc_front s.taskq Task.frontend_close,
    snoc_back s.taskq Task.frontend_close,
    snoc_connects s.taskq Task.frontend_close,
  )

  pub back_on_close-IsValid : IsValid f b (back_on_close s)
  unfolding back_on_close backend_close_call
  back_on_close-IsValid = ground (
    arith,
    snoc_front s.taskq Task.backend_close,
    snoc_back s.taskq Task.backend_close,
    snoc_connects s.taskq Task.backend_close,
  )

  pub on_connect_fail-IsValid : is_new s.back.state ≡ true → IsValid f b (on_connect_fail s)
  unfolding on_connect_fail back_on_close backend_close_call backend_connect_fail
  on_connect_fail-IsValid n = ground (
    arith,
    snoc_front s.taskq Task.backend_conn_fail,
    snoc_back s.taskq Task.backend_conn_fail,
    snoc_connects s.taskq Task.backend_conn_fail,
  )

  pub front_end-IsValid : IsValid f b (front_end s)
  unfolding front_end
  front_end-IsValid = ground (arith, front_on_close-IsValid)
