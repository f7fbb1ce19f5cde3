-- ===== src/Session/Reach.antt =====
-- The steps of a session as a relation, and what holds wherever they lead.
use niubix.Base.{
  ℕ, ◌≡◌, ◌⊎◌, Bool, true, false, List, [], ◌∷◌, Option, none, some, inl, inr, Bool-cases, subst,
  ap,
}
use niubix.Session.{
  FrontState, BackState, Task, Session, is_active, is_active_back, is_new, frontend_close_call,
  backend_close_call, front_on_close, back_on_close, on_open, on_connect_fail, front_inactive,
  front_pause_recv, back_pause_recv, front_on_send_buffer_drained, back_on_send_buffer_drained,
  do_task, run_task, is_dangling, connecting,
}
use niubix.Session.Inv.{
  IsValid, count, ends_front, ends_back, connects, front_on_close-IsValid, back_on_close-IsValid,
  on_connect_fail-IsValid,
}
use niubix.Session.Events.{on_open-IsValid, pauses-IsValid, drained-IsValid, inactive-IsValid}
use niubix.Session.Tasks.{do_task-IsValid}
use native.Mathlib.Omega.{arith}

-- What can happen next: the connector reports, a descriptor of a connection that is polled brings it to
-- its end, a side stops reading or has sent what it had to, a timer finds the frontend inactive, or the
-- worker runs its first task.
pub data Step (s : Session) : Session → Type 0 where
  connected : (add_ok : Bool) → is_new s.back.state ≡ true → Step s (on_open add_ok s)
  not_connected : is_new s.back.state ≡ true → Step s (on_connect_fail s)
  front_ends : is_active s.front.state ≡ true → Step s (front_on_close s)
  back_ends : is_active_back s.back.state ≡ true → Step s (back_on_close s)
  front_pauses : Step s (front_pause_recv s)
  back_pauses : Step s (back_pause_recv s)
  front_drained : is_active s.front.state ≡ true → Step s (front_on_send_buffer_drained s)
  back_drained : is_active_back s.back.state ≡ true → Step s (back_on_send_buffer_drained s)
  found_inactive : Step s (front_inactive s)
  task :
      (flush : Option Bool) (add_ok : Bool) (t : Task) (q : List Task) (s' : Session)
      → s.taskq ≡ t ∷ q
      → run_task flush add_ok t q s ≡ some s'
      → Step s s'

pub data Reach (s : Session) : Session → Type 0 where
  here : Reach s s
  next : {t u : Session} → Reach s t → Step t u → Reach s u

run_task-some :
    (flush : Option Bool) (add_ok : Bool) (t : Task) (q : List Task) (s s' : Session)
    → run_task flush add_ok t q s ≡ some s'
    → do_task t flush add_ok (record s { taskq = q }) ≡ s'
unfolding run_task
run_task-some flush add_ok t q s s' e = elim (Bool-cases (is_dangling t s)) [
  | inl d ↦ cc (e, d)
  | inr d ↦ ground (arith)
]

Step-IsValid : (f b : ℕ) {s t : Session} → Step s t → IsValid f b s → IsValid f b t
Step-IsValid f b {s = s} (connected add_ok n) v = on_open-IsValid f b s v add_ok n
Step-IsValid f b {s = s} (not_connected n) v = on_connect_fail-IsValid f b s v n
Step-IsValid f b {s = s} (front_ends a) v = front_on_close-IsValid f b s v
Step-IsValid f b {s = s} (back_ends a) v = back_on_close-IsValid f b s v
Step-IsValid f b {s = s} front_pauses v = (pauses-IsValid f b s v).0
Step-IsValid f b {s = s} back_pauses v = (pauses-IsValid f b s v).1
Step-IsValid f b {s = s} (front_drained a) v = (drained-IsValid f b s v).0
Step-IsValid f b {s = s} (back_drained a) v = (drained-IsValid f b s v).1
Step-IsValid f b {s = s} found_inactive v = inactive-IsValid f b s v
Step-IsValid f b {s = s} (task flush add_ok t q s' e r) v =
    subst (IsValid f b) (run_task-some flush add_ok t q s s' r) (
      do_task-IsValid f b q s t flush add_ok
        (subst (λ ts. IsValid f b (record s { taskq = ts })) e v))

-- In every state that a new connection can reach while `f` frontends and `b` backends of its app are
-- active, whatever its peers, the kernel and the timers do and whichever tasks run: the two sides point
-- to each other or neither does, the app's counters of active connections are exact, only closed
-- objects are deleted, and a side that has lost the other is deleted, or has a task waiting that ends
-- it, or is still with the connector.
pub Reach-IsValid :
    (f b ok fail : ℕ) {s : Session} → Reach (connecting f b ok fail) s → IsValid f b s
unfolding connecting count
Reach-IsValid f b ok fail here = ground arith
Reach-IsValid f b ok fail (next r st) = Step-IsValid f b st (Reach-IsValid f b ok fail r)

-- Whenever the connector has reported and no task waits, either both sides are active and point to each
-- other, or both are deleted: no end of a connection is lost.
pub quiet :
    (f b ok fail : ℕ) (s : Session)
    → Reach (connecting f b ok fail) s
    → is_new s.back.state ≡ false
    → s.taskq ≡ []
    → ((s.front.backend_conn ≡ true)
        × (s.back.frontend_conn ≡ true)
        × (s.front.state ≡ FrontState.active_ok)
        × (s.back.state ≡ BackState.active_ok))
      ⊎ ((s.front.freed ≡ true) × (s.back.freed ≡ true))
unfolding count
quiet f b ok fail s r n e =
    let v = Reach-IsValid f b ok fail r in
    let told = ap (λ ts. count connects ts) e in
    let front = ap (λ ts. count ends_front ts) e in
    let back = ap (λ ts. count ends_back ts) e in
    elim (Bool-cases s.front.backend_conn) [
      | inl l ↦ inl (l, ground arith, ground arith, ground arith)
      | inr l ↦ inr (ground arith, ground arith)
    ]

-- The ends of both sides in one round of events: if the backend of an active connection without
-- waiting tasks closes and then its frontend does, the first task that waits is for the frontend, which
-- is deleted.
pub close_both :
    (f b : ℕ) (flush : Option Bool) (add_ok : Bool) (s : Session)
    → IsValid f b s
    → s.front.backend_conn ≡ true
    → s.taskq ≡ []
    → let s' = front_on_close (back_on_close s) in
      (s'.taskq ≡ Task.backend_close ∷ []) × (run_task flush add_ok Task.backend_close [] s' ≡ none)
unfolding front_on_close back_on_close backend_close_call frontend_close_call run_task is_dangling
close_both f b flush add_ok s v l e = ground arith
