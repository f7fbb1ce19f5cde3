-- ===== src/Session.antt =====
-- src/http_frontend.cpp and src/backend.cpp: one client connection (`http_frontend`) and its connection to
-- a backend (`backend`), which live in one worker and tell each other about their ends through the
-- worker's task queue (`task_in_worker`, src/task_in_worker.cpp).
-- The pointers between the two are the flags `backend_conn` and `frontend_conn`; `freed` is the
-- `delete this` of `on_close`. The counters are those of the app. The results of `add_ev` and of
-- `handle_request` are inputs; `remove_ev` and the timers change nothing here.
pub mod Inv
pub mod Events
pub mod Tasks
pub mod Reach
pub mod Open
pub mod Reads
mod Tests
use niubix.Base.{
  ℕ, zero, suc, ◌+◌, ◌-◌, ◌==◌, Bool, true, false, not, ◌&&◌, ◌||◌, List, [], ◌∷◌, ◌++◌, Option,
  none, some, if◌then◌else◌,
}

pub data FrontState : Type 0 where
  new_ok conn_ok active_ok closed : FrontState

pub data BackState : Type 0 where
  new_ok conn_ok conn_fail active_ok closed : BackState

-- The types of tasks that the two push, for the one or the other.
pub data Task : Type 0 where
  backend_conn_ok backend_conn_fail backend_close frontend_inactive : Task
  backend_send_buffer_drained frontend_close frontend_send_buffer_drained : Task

pub record Front : Type 0 where
  pub state : FrontState
  pub backend_conn : Bool
  pub recv_paused : Bool
  pub freed : Bool

pub record Back : Type 0 where
  pub state : BackState
  pub frontend_conn : Bool
  pub recv_paused : Bool
  pub freed : Bool

pub record Session : Type 0 where
  pub front : Front
  pub back : Back
  pub taskq : List Task
  pub frontend_active_n : ℕ
  pub backend_active_n : ℕ
  pub backend_conn_ok_n : ℕ
  pub backend_conn_fail_n : ℕ

abbrev pub is_active : FrontState → Bool
is_active FrontState.active_ok = true
is_active _ = false

abbrev pub is_conn_ok : FrontState → Bool
is_conn_ok FrontState.conn_ok = true
is_conn_ok _ = false

abbrev pub is_closed : FrontState → Bool
is_closed FrontState.closed = true
is_closed _ = false

abbrev pub is_active_back : BackState → Bool
is_active_back BackState.active_ok = true
is_active_back _ = false

abbrev pub is_new : BackState → Bool
is_new BackState.new_ok = true
is_new _ = false

abbrev pub is_closed_back : BackState → Bool
is_closed_back BackState.closed = true
is_closed_back _ = false

abbrev pub push_task : Task → Session → Session
push_task t s = record s { taskq = s.taskq ++ t ∷ [] }

-- `backend::frontend_close` and the calls of the frontend by the backend: each cuts the link of the
-- object that is called, and pushes a task for it.
pub frontend_close_call : Session → Session
frontend_close_call s =
    if s.back.frontend_conn
    then push_task Task.frontend_close
        (record s { back = record (s.back) { frontend_conn = false } })
    else s

pub backend_close_call : Session → Session
backend_close_call s =
    if s.front.backend_conn
    then push_task Task.backend_close
        (record s { front = record (s.front) { backend_conn = false } })
    else s

pub backend_connect_fail : Session → Session
backend_connect_fail s =
    if s.front.backend_conn
    then push_task Task.backend_conn_fail
        (record s { front = record (s.front) { backend_conn = false } })
    else s

pub backend_connect_ok : Session → Session
backend_connect_ok s =
    if s.front.backend_conn && is_conn_ok s.front.state then push_task Task.backend_conn_ok s else s

-- `http_frontend::on_close`.
pub front_on_close : Session → Session
front_on_close s =
    let n = if is_active s.front.state then s.frontend_active_n - 1 else s.frontend_active_n in
    let s1 = record s { frontend_active_n = n } in
    let s2 = if s.front.backend_conn then frontend_close_call s1 else s1 in
    record s2 {
      front = record (s2.front) { state = FrontState.closed; backend_conn = false; freed = true };
    }

-- `backend::on_close`.
pub back_on_close : Session → Session
back_on_close s =
    let n = if is_active_back s.back.state then s.backend_active_n - 1 else s.backend_active_n in
    let s1 = record s { backend_active_n = n } in
    let s2 = if s.back.frontend_conn then backend_close_call s1 else s1 in
    record s2 {
      back = record (s2.back) { state = BackState.closed; frontend_conn = false; freed = true };
    }

-- `backend::on_open`, with the result of `add_ev`, and the connector's call of `on_close` if it
-- returns false.
pub on_open : Bool → Session → Session
on_open add_ok s =
    let s1 = record s {
      backend_conn_ok_n = s.backend_conn_ok_n + 1;
      back = record (s.back) { state = BackState.conn_ok };
    } in
    let s2 = backend_connect_ok s1 in
    if not s.back.frontend_conn
    then back_on_close s1
    else if not add_ok
    then back_on_close s2
    else record s2 {
      backend_active_n = s2.backend_active_n + 1;
      back = record (s2.back) { state = BackState.active_ok };
    }

-- `backend::on_connect_fail`.
pub on_connect_fail : Session → Session
on_connect_fail s =
    let s1 = record s {
      backend_conn_fail_n = s.backend_conn_fail_n + 1;
      back = record (s.back) { state = BackState.conn_fail };
    } in
    let s2 = if s.back.frontend_conn then backend_connect_fail s1 else s1 in
    back_on_close (record s2 { back = record (s2.back) { frontend_conn = false } })

-- `http_frontend::on_backend_connect_ok`. `flush` is the result of `handle_request` on the data that was
-- saved before the app was matched, `none` if there is none.
pub on_backend_connect_ok : Option Bool → Bool → Session → Session
on_backend_connect_ok flush add_ok s =
    let refused = elim flush as (λ _. Bool) [ some false ↦ true | _ ↦ false ] in
    if not s.front.backend_conn
    then s
    else if refused || not add_ok
    then front_on_close s
    else record s {
      frontend_active_n = s.frontend_active_n + 1;
      front = record (s.front) { state = FrontState.active_ok };
    }

-- `on_backend_connect_fail`, `on_backend_close` and `on_frontend_inactive` have the same body.
pub front_end : Session → Session
front_end s = if is_closed s.front.state then s else front_on_close s

-- `backend::on_frontend_close`.
pub on_frontend_close : Session → Session
on_frontend_close s =
    if is_new s.back.state || is_closed_back s.back.state then s else back_on_close s

-- `http_frontend::frontend_inactive`.
pub front_inactive : Session → Session
front_inactive s = if is_active s.front.state then push_task Task.frontend_inactive s else s

pub front_pause_recv : Session → Session
front_pause_recv s =
    if s.front.recv_paused then s else record s { front = record (s.front) { recv_paused = true } }

pub back_pause_recv : Session → Session
back_pause_recv s =
    if s.back.recv_paused then s else record s { back = record (s.back) { recv_paused = true } }

-- `on_send_buffer_drained` of one side, with the call of the other that it makes.
pub front_on_send_buffer_drained : Session → Session
front_on_send_buffer_drained s =
    if s.front.backend_conn && not (is_closed_back s.back.state)
    then push_task Task.frontend_send_buffer_drained s
    else s

pub back_on_send_buffer_drained : Session → Session
back_on_send_buffer_drained s =
    if s.back.frontend_conn && not (is_closed s.front.state)
    then push_task Task.backend_send_buffer_drained s
    else s

pub on_backend_send_buffer_drained : Bool → Session → Session
on_backend_send_buffer_drained add_ok s =
    if not s.front.recv_paused
    then s
    else if not add_ok
    then front_on_close s
    else record s { front = record (s.front) { recv_paused = false } }

pub on_frontend_send_buffer_drained : Bool → Session → Session
on_frontend_send_buffer_drained add_ok s =
    if not s.back.recv_paused
    then s
    else if not add_ok
    then back_on_close s
    else record s { back = record (s.back) { recv_paused = false } }

-- `task_in_worker::do_task`, with the results of the calls that the handler makes.
pub do_task : Task → Option Bool → Bool → Session → Session
do_task Task.backend_conn_ok flush add_ok s = on_backend_connect_ok flush add_ok s
do_task Task.backend_conn_fail flush add_ok s = front_end s
do_task Task.backend_close flush add_ok s = front_end s
do_task Task.frontend_inactive flush add_ok s = front_end s
do_task Task.backend_send_buffer_drained flush add_ok s = on_backend_send_buffer_drained add_ok s
do_task Task.frontend_close flush add_ok s = on_frontend_close s
do_task Task.frontend_send_buffer_drained flush add_ok s = on_frontend_send_buffer_drained add_ok s

-- Whether the object that a task is for has been deleted.
pub is_dangling : Task → Session → Bool
is_dangling Task.frontend_close s = s.back.freed
is_dangling Task.frontend_send_buffer_drained s = s.back.freed
is_dangling _ s = s.front.freed

-- A round of `do_tasks`: the first task runs and is taken from the queue. `none` is a task for a deleted
-- object. The handlers push behind the task that runs.
pub run_task : Option Bool → Bool → Task → List Task → Session → Option Session
run_task flush add_ok t q s =
    if is_dangling t s then none else some (do_task t flush add_ok (record s { taskq = q }))

-- A connection whose backend is being connected, as `to_connect_backend` leaves it, with the app's
-- counters.
pub connecting : ℕ → ℕ → ℕ → ℕ → Session
connecting f b ok fail = record {
  front = record {
    state = FrontState.conn_ok;
    backend_conn = true;
    recv_paused = false;
    freed = false;
  };
  back = record {
    state = BackState.new_ok;
    frontend_conn = true;
    recv_paused = false;
    freed = false;
  };
  taskq = [];
  frontend_active_n = f;
  backend_active_n = b;
  backend_conn_ok_n = ok;
  backend_conn_fail_n = fail;
}
