-- ===== src/Acceptor.antt =====
-- src/acceptor.h and src/acceptor.cpp: `acceptor`, a listening socket of a worker. The results of the system
-- calls are inputs.
pub mod Setup
pub mod Hears
mod Tests
use niubix.Base.{
  ℕ, zero, suc, ◌+◌, ◌-◌, Bool, true, false, not, ◌&&◌, ◌||◌, List, [], ◌∷◌, Option, none, some,
  if◌then◌else◌, ltb, length, take, drop, same_bytes, codes,
}
use niubix.Base.Int.{ℤ, pos, ltb_ℤ}
use niubix.Config.Addr.{parse_ip_port}

-- `has_fd` is `fd != -1`; `polled` and `has_timer`: it is in the poller, a timer is scheduled for it. `open_fds`
-- counts the listening descriptors that were created and not closed. The connections are those that are
-- open, and those that were closed since `on_open` failed or there was no handler.
pub record Acceptor : Type 0 where
  pub port : ℤ
  pub has_fd : Bool
  pub polled : Bool
  pub has_timer : Bool
  pub open_fds : ℕ
  pub connections : ℕ
  pub refused : ℕ

-- The settings that `open` reads, and the results of its calls.
pub record Settings : Type 0 where
  pub sets_rcvbuf : Bool
  pub reuse_addr : Bool
  pub reuse_port : Bool

pub record Results : Type 0 where
  pub socket_ok : Bool
  pub rcvbuf_ok : Bool
  pub reuse_addr_ok : Bool
  pub reuse_port_ok : Bool
  pub bind_ok : Bool
  pub listen_ok : Bool
  pub add_ok : Bool

-- `::close(fd)` of the new descriptor, and the result -1.
abbrev pub closed : Acceptor → Bool × Acceptor
closed l = (false, record l { open_fds = l.open_fds - 1 })

unfoldable pub listen : Results → Acceptor → Bool × Acceptor
listen r l =
    if not r.bind_ok
    then closed l
    else if not r.listen_ok
    then closed l
    else if not r.add_ok
    then closed (record l { has_fd = false })
    else (true, record l { has_fd = true; polled = true })

abbrev pub is_port : ℤ → Bool
is_port port = not (ltb_ℤ port (pos 1) || ltb_ℤ (pos 65535) port)

-- The part behind `::socket`.
unfoldable pub set_options : Settings → Results → Acceptor → Bool × Acceptor
set_options cf r l =
    if cf.sets_rcvbuf && not r.rcvbuf_ok
    then closed l
    else if cf.reuse_addr && not r.reuse_addr_ok
    then closed l
    else if cf.reuse_port && not r.reuse_port_ok
    then closed l
    else listen r l

-- The part behind `parse_ip_port`, which fails here too where `std::stoi` throws in it.
unfoldable pub open_at : Option (List ℕ × ℤ) → Settings → Results → Acceptor → Bool × Acceptor
open_at none cf r l = (false, l)
open_at (some (ip, port)) cf r l =
    let l' = record l { port = port } in
    if not (is_port port)
    then (false, l')
    else if not r.socket_ok
    then (false, l')
    else set_options cf r (record l' { open_fds = l'.open_fds + 1 })

unfoldable pub tcp_open : List ℕ → Settings → Results → Acceptor → Bool × Acceptor
tcp_open addr cf r l = open_at (parse_ip_port addr) cf r l

-- The path of a socket has at most 107 bytes.
unfoldable pub uds_open : List ℕ → Results → Acceptor → Bool × Acceptor
uds_open addr r l =
    if ltb 107 (length addr)
    then (false, l)
    else if not r.socket_ok
    then (false, l)
    else listen r (record l { open_fds = l.open_fds + 1 })

-- `acceptor::open`.
unfoldable pub open_acceptor : List ℕ → Settings → Results → Acceptor → Bool × Acceptor
open_acceptor addr cf r l =
    if ltb (length addr) 2
    then (false, l)
    else if same_bytes (take 5 addr) (codes "unix:")
    then uds_open (drop 5 addr) r l
    else tcp_open addr cf r l

-- What a call of `::accept4` gives: a connection, with the result of `on_open`; one for which
-- `new_conn_func` gives no handler; EINTR; EMFILE or ENFILE, with whether the timer is scheduled; or
-- another error, such as EAGAIN.
pub data Accept : Type 0 where
  connection : Bool → Accept
  no_handler interrupted : Accept
  no_files : Bool → Accept
  failed : Accept

unfoldable pub paused : Bool → Acceptor → Acceptor
paused timer_ok l = if timer_ok then record l { has_timer = true; polled = false } else l

-- The `for`, with `k` rounds left.
unfoldable pub accept_loop : ℕ → List Accept → Acceptor → Acceptor
accept_loop zero results l = l
accept_loop (suc k) [] l = l
accept_loop (suc k) (connection true ∷ results) l =
    accept_loop k results (record l { connections = l.connections + 1 })
accept_loop (suc k) (connection false ∷ results) l =
    accept_loop k results (record l { refused = l.refused + 1 })
accept_loop (suc k) (no_handler ∷ results) l = record l { refused = l.refused + 1 }
accept_loop (suc k) (interrupted ∷ results) l = accept_loop k results l
accept_loop (suc k) (no_files timer_ok ∷ results) l = paused timer_ok l
accept_loop (suc k) (failed ∷ results) l = l

abbrev pub most_accepts : ℕ
most_accepts = 64

-- It always returns true.
unfoldable pub on_read : List Accept → Acceptor → Acceptor
on_read results l = accept_loop most_accepts results l

-- The result of `add_ev` is not looked at.
unfoldable pub on_timeout : Bool → Acceptor → Acceptor
on_timeout add_ok l = if l.has_fd && add_ok then record l { polled = true } else l

pub on_close : Acceptor → Acceptor
on_close l = record l {
  polled = false;
  has_timer = false;
  open_fds = if l.has_fd then l.open_fds - 1 else l.open_fds;
  has_fd = false;
}

-- The event of a descriptor that is polled, the expiry of its timer, and the task that `close` pushes.
pub data Event : Type 0 where
  readable : List Accept → Event
  expiry : Bool → Event
  closing : Event

unfoldable pub handle : Event → Acceptor → Acceptor
handle (readable results) l = if l.polled then on_read results l else l
handle (expiry add_ok) l =
    if l.has_timer then on_timeout add_ok (record l { has_timer = false }) else l
handle closing l = on_close l

unfoldable pub run : List Event → Acceptor → Acceptor
run [] l = l
run (e ∷ events) l = run events (handle e l)
