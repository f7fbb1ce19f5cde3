-- ===== src/Acceptor/Setup.antt =====
-- What `acceptor::open` leaves behind.
use niubix.Base.{
  ℕ, ◌+◌, ◌≡◌, ◌⊎◌, refl, Bool, true, false, not, ◌&&◌, List, Option, none, some, if◌then◌else◌,
  inl, inr, ltb, length, take, drop, same_bytes, codes,
}
use niubix.Base.Int.{ℤ}
use niubix.Config.Addr.{parse_ip_port}
use niubix.Acceptor.{
  Acceptor, Settings, Results, closed, listen, is_port, set_options, open_at, tcp_open, uds_open,
  open_acceptor,
}
use native.Mathlib.Omega.{arith}

-- It listens, in the poller, with one descriptor more; or it has none, and none is left open.
unfoldable pub Opens : ℕ → Bool × Acceptor → Type 0
Opens n o =
    ((o.0 ≡ true) × (o.1.has_fd ≡ true) × (o.1.polled ≡ true) × (o.1.open_fds ≡ n + 1))
    ⊎ ((o.0 ≡ false) × (o.1.has_fd ≡ false) × (o.1.polled ≡ false) × (o.1.open_fds ≡ n))

-- An acceptor that was not opened.
pub record IsNew (n : ℕ) (l : Acceptor) : Type 0 where
  pub no_fd : l.has_fd ≡ false
  pub unpolled : l.polled ≡ false
  pub fds : l.open_fds ≡ n

fails-Opens : (n : ℕ) (l : Acceptor) → IsNew n l → Opens n (false, l)
unfolding Opens
fails-Opens n l w = inr (refl, w.no_fd, w.unpolled, w.fds)

closed-Opens : (n : ℕ) (l : Acceptor) → IsNew (n + 1) l → Opens n (closed l)
unfolding Opens
closed-Opens n l w = inr (refl, w.no_fd, w.unpolled, omega (arith, w.fds))

if_Opens :
    (n : ℕ) (c : Bool) (x y : Bool × Acceptor)
    → Opens n x
    → Opens n y
    → Opens n (if c then x else y)
if_Opens n true x y a b = a
if_Opens n false x y a b = b

added-Opens :
    (n : ℕ) (add_ok : Bool) (l : Acceptor)
    → IsNew (n + 1) l
    → Opens n (
        if not add_ok
        then closed (record l { has_fd = false })
        else (true, record l { has_fd = true; polled = true }))
unfolding Opens
added-Opens n true l w = inl (refl, refl, refl, w.fds)
added-Opens n false l w = inr (refl, refl, w.unpolled, omega (arith, w.fds))

listen-Opens : (n : ℕ) (r : Results) (l : Acceptor) → IsNew (n + 1) l → Opens n (listen r l)
unfolding listen
listen-Opens n r l w =
    let c = closed-Opens n l w in
    if_Opens n _ _ _ c (if_Opens n _ _ _ c (added-Opens n r.add_ok l w))

set_options-Opens :
    (n : ℕ) (cf : Settings) (r : Results) (l : Acceptor)
    → IsNew (n + 1) l
    → Opens n (set_options cf r l)
unfolding set_options
set_options-Opens n cf r l w =
    let c = closed-Opens n l w in
    if_Opens n (cf.sets_rcvbuf && not r.rcvbuf_ok) _ _ c (
      if_Opens n (cf.reuse_addr && not r.reuse_addr_ok) _ _ c
        (if_Opens n (cf.reuse_port && not r.reuse_port_ok) _ _ c (listen-Opens n r l w)))

uds_open-Opens :
    (n : ℕ) (addr : List ℕ) (r : Results) (l : Acceptor) → IsNew n l → Opens n (uds_open addr r l)
unfolding uds_open
uds_open-Opens n addr r l w =
    let f = fails-Opens n l w in
    if_Opens n _ _ _ f (
      if_Opens n _ _ _ f (
        listen-Opens n r _
          (record { no_fd = w.no_fd; unpolled = w.unpolled; fds = omega (arith, w.fds) })))

open_at-Opens :
    (n : ℕ) (at : Option (List ℕ × ℤ)) (cf : Settings) (r : Results) (l : Acceptor)
    → IsNew n l
    → Opens n (open_at at cf r l)
unfolding open_at
open_at-Opens n none cf r l w = fails-Opens n l w
open_at-Opens n (some (ip, port)) cf r l w =
    let f =
      fails-Opens n (record l { port = port })
        (record { no_fd = w.no_fd; unpolled = w.unpolled; fds = w.fds }) in
    if_Opens n (not (is_port port)) _ _ f (
      if_Opens n (not r.socket_ok) _ _ f (
        set_options-Opens n cf r _
          (record { no_fd = w.no_fd; unpolled = w.unpolled; fds = omega (arith, w.fds) })))

-- `acceptor::open`, whatever the address, the settings and the results of the system calls: it succeeds with one more
-- descriptor, which is polled, or it fails, and every descriptor that it created is closed again.
pub open_acceptor-Opens :
    (n : ℕ) (addr : List ℕ) (cf : Settings) (r : Results) (l : Acceptor)
    → IsNew n l
    → Opens n (open_acceptor addr cf r l)
unfolding open_acceptor tcp_open
open_acceptor-Opens n addr cf r l w = if_Opens n (ltb (length addr) 2) _ _ (fails-Opens n l w) (
    if_Opens n (same_bytes (take 5 addr) (codes "unix:")) _ _ (uds_open-Opens n (drop 5 addr) r l w)
      (open_at-Opens n (parse_ip_port addr) cf r l w))
