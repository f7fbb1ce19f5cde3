-- ===== src/Session/Events.antt =====
-- The events of a session keep what `Session.Inv` says.
use niubix.Base.{ℕ, ◌≡◌, Bool, true, false, [], ◌∷◌, ◌++◌}
use niubix.Session.{
  Task, Session, is_new, backend_close_call, backend_connect_ok, back_on_close, on_open,
  front_inactive, front_pause_recv, back_pause_recv, front_on_send_buffer_drained,
  back_on_send_buffer_drained,
}
use niubix.Session.Inv.{IsValid, snoc_front, snoc_back, snoc_connects}
use native.Mathlib.Omega.{arith}

module _ (f b : ℕ) (s : Session) (v : IsValid f b s) where
  pub on_open-IsValid :
      (add_ok : Bool) → is_new s.back.state ≡ true → IsValid f b (on_open add_ok s)
  unfolding on_open back_on_close backend_close_call backend_connect_ok
  on_open-IsValid true n = ground (
    arith,
    snoc_front s.taskq Task.backend_conn_ok,
    snoc_back s.taskq Task.backend_conn_ok,
    snoc_connects s.taskq Task.backend_conn_ok,
  )
  on_open-IsValid false n = ground (
    arith,
    snoc_front s.taskq Task.backend_conn_ok,
    snoc_back s.taskq Task.backend_conn_ok,
    snoc_connects s.taskq Task.backend_conn_ok,
    snoc_front (s.taskq ++ Task.backend_conn_ok ∷ []) Task.backend_close,
    snoc_back (s.taskq ++ Task.backend_conn_ok ∷ []) Task.backend_close,
    snoc_connects (s.taskq ++ Task.backend_conn_ok ∷ []) Task.backend_close,
    snoc_front s.taskq Task.backend_close,
    snoc_back s.taskq Task.backend_close,
    snoc_connects s.taskq Task.backend_close,
  )

  pub pauses-IsValid : IsValid f b (front_pause_recv s) × IsValid f b (back_pause_recv s)
  unfolding front_pause_recv back_pause_recv
  pauses-IsValid = (ground arith, ground arith)

  pub drained-IsValid :
      IsValid f b (front_on_send_buffer_drained s) × IsValid f b (back_on_send_buffer_drained s)
  unfolding front_on_send_buffer_drained back_on_send_buffer_drained
  drained-IsValid = (
    ground (
      arith,
      snoc_front s.taskq Task.frontend_send_buffer_drained,
      snoc_back s.taskq Task.frontend_send_buffer_drained,
      snoc_connects s.taskq Task.frontend_send_buffer_drained,
    ),
    ground (
      arith,
      snoc_front s.taskq Task.backend_send_buffer_drained,
      snoc_back s.taskq Task.backend_send_buffer_drained,
      snoc_connects s.taskq Task.backend_send_buffer_drained,
    ),
  )

  pub inactive-IsValid : IsValid f b (front_inactive s)
  unfolding front_inactive
  inactive-IsValid = ground (
    arith,
    snoc_front s.taskq Task.frontend_inactive,
    snoc_back s.taskq Task.frontend_inactive,
    snoc_connects s.taskq Task.frontend_inactive,
  )
