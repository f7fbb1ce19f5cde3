-- ===== src/Session/Tasks.antt =====
-- The tasks of a session keep what `Session.Inv` says.
use niubix.Base.{ℕ, ◌≡◌, refl, Bool, List, ◌∷◌, Option}
use niubix.Session.{
  Task, Session, frontend_close_call, backend_close_call, front_on_close, back_on_close,
  on_backend_connect_ok, front_end, on_frontend_close, on_backend_send_buffer_drained,
  on_frontend_send_buffer_drained, do_task,
}
use niubix.Session.Inv.{IsValid, count, ends_back, connects, snoc_front, snoc_back, snoc_connects}
use native.Mathlib.Omega.{arith}

-- A task that is taken from the queue and runs, for an object that is not deleted.
module _ (f b : ℕ) (q : List Task) (s : Session) where
  connect_task :
      (flush : Option Bool) (add_ok : Bool)
      → IsValid f b (record s { taskq = Task.backend_conn_ok ∷ q })
      → IsValid f b (on_backend_connect_ok flush add_ok (record s { taskq = q }))
  unfolding on_backend_connect_ok front_on_close frontend_close_call count
  connect_task flush add_ok v = ground (
    arith,
    snoc_front q Task.frontend_close,
    snoc_back q Task.frontend_close,
    snoc_connects q Task.frontend_close,
  )

  end_task :
      (t : Task)
      → (connects t ≡ 0) × (ends_back t ≡ 0)
      → IsValid f b (record s { taskq = t ∷ q })
      → IsValid f b (front_end (record s { taskq = q }))
  unfolding front_end front_on_close frontend_close_call count
  end_task t k v = ground (
    arith,
    snoc_front q Task.frontend_close,
    snoc_back q Task.frontend_close,
    snoc_connects q Task.frontend_close,
  )

  back_task :
      IsValid f b (record s { taskq = Task.frontend_close ∷ q })
      → IsValid f b (on_frontend_close (record s { taskq = q }))
  unfolding on_frontend_close back_on_close backend_close_call count
  back_task v = ground (
    arith,
    snoc_front q Task.backend_close,
    snoc_back q Task.backend_close,
    snoc_connects q Task.backend_close,
  )

  front_resumes :
      (add_ok : Bool)
      → IsValid f b (record s { taskq = Task.backend_send_buffer_drained ∷ q })
      → IsValid f b (on_backend_send_buffer_drained add_ok (record s { taskq = q }))
  unfolding on_backend_send_buffer_drained front_on_close frontend_close_call count
  front_resumes add_ok v = ground (
    arith,
    snoc_front q Task.frontend_close,
    snoc_back q Task.frontend_close,
    snoc_connects q Task.frontend_close,
  )

  back_resumes :
      (add_ok : Bool)
      → IsValid f b (record s { taskq = Task.frontend_send_buffer_drained ∷ q })
      → IsValid f b (on_frontend_send_buffer_drained add_ok (record s { taskq = q }))
  unfolding on_frontend_send_buffer_drained back_on_close backend_close_call count
  back_resumes add_ok v = ground (
    arith,
    snoc_front q Task.backend_close,
    snoc_back q Task.backend_close,
    snoc_connects q Task.backend_close,
  )

  pub do_task-IsValid :
      (t : Task) (flush : Option Bool) (add_ok : Bool)
      → IsValid f b (record s { taskq = t ∷ q })
      → IsValid f b (do_task t flush add_ok (record s { taskq = q }))
  unfolding do_task
  do_task-IsValid Task.backend_conn_ok flush add_ok v = connect_task flush add_ok v
  do_task-IsValid Task.backend_conn_fail flush add_ok v =
      end_task Task.backend_conn_fail (refl, refl) v
  do_task-IsValid Task.backend_close flush add_ok v = end_task Task.backend_close (refl, refl) v
  do_task-IsValid Task.frontend_inactive flush add_ok v =
      end_task Task.frontend_inactive (refl, refl) v
  do_task-IsValid Task.backend_send_buffer_drained flush add_ok v = front_resumes add_ok v
  do_task-IsValid Task.frontend_close flush add_ok v = back_task v
  do_task-IsValid Task.frontend_send_buffer_drained flush add_ok v = back_resumes add_ok v
