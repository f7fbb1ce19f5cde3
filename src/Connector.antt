-- ===== src/Connector.antt =====
-- src/connector.cpp: `in_progress_connect`, a connect that the kernel has not finished, and `connector`.
-- The handler `eh` that waits for the connection is seen by the calls that it gets, in their order. What
-- its `on_open` returns is an input, and so are the results of the system calls.
pub mod Once
pub mod Setup
mod Tests
use niubix.Base.{
  ℕ, ◌<◌, Bool, true, false, not, ◌&&◌, ◌||◌, List, [], ◌∷◌, ◌++◌, Option, none, some,
  if◌then◌else◌,
}
use niubix.Base.Int.{ℤ, pos, negsuc, ltb_ℤ}
use niubix.Evpoll.Dispatch.{Ready}

-- The calls of `eh`: `on_connect_fail` with either code, `set_fd`, `on_open` and `on_close`, which deletes it.
pub data Call : Type 0 where
  connect_fail connect_timeout fd_set opened closed : Call

-- `in_poller`: its descriptor is polled; `has_timer`: a timer is scheduled for it and not cancelled.
pub record Pending : Type 0 where
  pub ok : Bool
  pub io_ev_trigger : Bool
  pub timeout_trigger : Bool
  pub has_fd : Bool
  pub in_poller : Bool
  pub has_timer : Bool
  pub deleted : Bool
  pub calls : List Call

abbrev pub call : Call → Pending → Pending
call c p = record p { calls = p.calls ++ c ∷ [] }

-- `this->eh->on_open() == false` and `this->eh->on_close()`.
pub open_eh : Bool → Pending → Pending
open_eh open_ok p = if open_ok then call Call.opened p else call Call.closed (call Call.opened p)

pub on_close : Bool → Pending → Pending
on_close open_ok p =
    let failed = record (call Call.connect_fail p) { has_timer = false } in
    let told = if not p.timeout_trigger && not p.io_ev_trigger then failed else p in
    let done = if told.ok then open_eh open_ok told else told in
    record done { has_fd = false; deleted = true }

pub on_read : Pending → Bool × Pending
on_read p =
    if p.io_ev_trigger
    then (true, p)
    else (false, record (call Call.connect_fail p) { has_timer = false; io_ev_trigger = true })

pub on_write : Pending → Bool × Pending
on_write p = if p.io_ev_trigger then (true, p) else (
  false,
  record (call Call.fd_set p) {
    has_fd = false;
    has_timer = false;
    io_ev_trigger = true;
    ok = true;
  },
)

-- The timer is for one expiry.
pub on_timeout : Bool → Pending → Pending
on_timeout open_ok p =
    if p.io_ev_trigger
    then p
    else on_close open_ok
        (record (call Call.connect_timeout p) { timeout_trigger = true; in_poller = false })

-- What `evpoll::run` does with the answer of a handler.
pub answered : Bool → Bool × Pending → (Pending → Pending) → Pending
answered open_ok (true, p) next = next p
answered open_ok (false, p) next = on_close open_ok (record p { in_poller = false })

pub reads : Bool → Ready → Pending → Pending
reads open_ok r p = if r.input then answered open_ok (on_read p) (λ q. q) else p

-- A ready event of its descriptor, while that is polled, and the expiry of its timer, while there is one.
pub polled : Bool → Ready → Pending → Pending
polled open_ok r p =
    if not p.in_poller
    then p
    else if r.hup
    then on_close open_ok (record p { in_poller = false })
    else if r.out
    then answered open_ok (on_write p) (reads open_ok r)
    else reads open_ok r p

pub expired : Bool → Pending → Pending
expired open_ok p = if p.has_timer then on_timeout open_ok (record p { has_timer = false }) else p

pub data Event : Type 0 where
  ready : Ready → Event
  timer : Event

pub handle : Bool → Event → Pending → Pending
handle open_ok (ready r) p = polled open_ok r p
handle open_ok timer p = expired open_ok p

-- Any events, in any order.
pub run : Bool → List Event → Pending → Pending
run open_ok [] p = p
run open_ok (e ∷ events) p = run open_ok events (handle open_ok e p)

-- Behind `nblock_connect`: polled, with a timer.
abbrev pub waiting : Pending
waiting = record {
  ok = false;
  io_ev_trigger = false;
  timeout_trigger = false;
  has_fd = true;
  in_poller = true;
  has_timer = true;
  deleted = false;
  calls = [];
}

-- What `::connect` says, with EINPROGRESS apart.
pub data Connects : Type 0 where
  at_once in_progress refused : Connects

-- The results of `::socket`, `set_rcvbuf`, `::connect` and `add_ev`, and of `eh->on_open`.
pub record Results : Type 0 where
  pub socket_ok : Bool
  pub rcvbuf_ok : Bool
  pub connects : Connects
  pub add_ok : Bool
  pub open_ok : Bool

-- Who has the new descriptor at the end: nobody, since there is none or it was closed, or `eh`, or the
-- connect in progress; or it is open and nobody has it.
pub data Owner : Type 0 where
  no_fd closed_fd eh_fd pending_fd leaked_fd : Owner

-- The result, true for 0, the calls of `eh`, and the descriptor.
pub record Outcome : Type 0 where
  pub result : Bool
  pub calls : List Call
  pub owner : Owner

pub nblock_connect : Results → Outcome
nblock_connect r =
    if not r.add_ok
    then record { result = false; calls = []; owner = closed_fd }
    else record { result = true; calls = []; owner = pending_fd }

pub connected : Results → ℤ → Connects → Outcome
connected r timeout at_once =
    if r.open_ok
    then record { result = true; calls = fd_set ∷ opened ∷ []; owner = eh_fd }
    else record { result = false; calls = fd_set ∷ opened ∷ closed ∷ []; owner = eh_fd }
connected r timeout in_progress =
    if ltb_ℤ timeout (pos 1)
    then record { result = false; calls = []; owner = closed_fd }
    else nblock_connect r
connected r timeout refused = record { result = false; calls = []; owner = closed_fd }

-- `sets_rcvbuf` is `rcvbuf_size > 0`.
pub connect : Results → ℤ → Bool → Outcome
connect r timeout sets_rcvbuf =
    if not r.socket_ok
    then record { result = false; calls = []; owner = no_fd }
    else if sets_rcvbuf && not r.rcvbuf_ok
    then record { result = false; calls = []; owner = closed_fd }
    else connected r timeout r.connects
