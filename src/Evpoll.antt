-- ===== src/Evpoll.antt =====
-- src/evpoll.h, src/evpoll.cpp and src/poll_desc.h: the table of descriptors that a worker polls, and the
-- part of `evpoll::run` that handles one ready event.
-- The kernel's epoll instance is a parameter: `interest` is its interest list, and `Epoll` has what the
-- manual says of `epoll_ctl`. An event mask has the two events that the code asks for, `ev_read` and
-- `ev_write`; the kernel reports hang-ups and errors always.
pub mod Agree
pub mod Resume
pub mod Dispatch
mod Tests
use niubix.Base.{
  ℕ, ◌==◌, ◌≡◌, ◌≢◌, Bool, true, false, not, ◌&&◌, ◌||◌, List, [], ◌∷◌, Option, none, some, ltb,
  if◌then◌else◌,
}
use niubix.Base.Int.{ℤ, pos, negsuc, ◌+ℤ◌, ◌-ℤ◌}

pub record Events : Type 0 where
  pub read : Bool
  pub write : Bool

abbrev pub ev_read : Events
ev_read = record { read = true; write = false }

abbrev pub ev_write : Events
ev_write = record { read = false; write = true }

abbrev pub ev_all : Events
ev_all = record { read = true; write = true }

-- `a | b`, `a & ~b` and `== 0` on masks.
abbrev pub union : Events → Events → Events
union a b = record { read = a.read || b.read; write = a.write || b.write }

abbrev pub without : Events → Events → Events
without a b = record { read = a.read && not b.read; write = a.write && not b.write }

abbrev pub is_none : Events → Bool
is_none a = not a.read && not a.write

abbrev pub is_all : Events → Bool
is_all a = a.read && a.write

-- What `epoll_ctl` is asked for: `EPOLL_CTL_ADD`, `EPOLL_CTL_MOD` or `EPOLL_CTL_DEL`.
pub data Ctl : Type 0 where
  add_ctl mod_ctl del_ctl : Ctl

-- `epoll_ctl` and the interest list of the instance, with the documented behaviour: true is success.
pub record Epoll (K : Type 0) : Type 0 where
  pub epoll_ctl : Ctl → ℕ → Events → K → Bool × K
  pub interest : K → ℕ → Option Events
  -- Adding fails for a descriptor that is registered (EEXIST), and otherwise registers it.
  pub add_new :
      (fd : ℕ) (ev : Events) (k : K)
      → (epoll_ctl Ctl.add_ctl fd ev k).0 ≡ true
      → interest k fd ≡ none
  pub add_sets :
      (fd : ℕ) (ev : Events) (k : K)
      → (epoll_ctl Ctl.add_ctl fd ev k).0 ≡ true
      → interest (epoll_ctl Ctl.add_ctl fd ev k).1 fd ≡ some ev
  pub mod_sets :
      (fd : ℕ) (ev : Events) (k : K)
      → (epoll_ctl Ctl.mod_ctl fd ev k).0 ≡ true
      → interest (epoll_ctl Ctl.mod_ctl fd ev k).1 fd ≡ some ev
  -- Deleting leaves the descriptor unregistered: it fails only for one that was not registered.
  pub del_clears :
      (fd : ℕ) (ev : Events) (k : K) → interest (epoll_ctl Ctl.del_ctl fd ev k).1 fd ≡ none
  -- A call that fails changes nothing, and no call changes another descriptor.
  pub fails :
      (c : Ctl) (fd : ℕ) (ev : Events) (k : K)
      → (epoll_ctl c fd ev k).0 ≡ false
      → interest (epoll_ctl c fd ev k).1 fd ≡ interest k fd
  pub others :
      (c : Ctl) (fd fd' : ℕ) (ev : Events) (k : K)
      → fd ≢ fd'
      → interest (epoll_ctl c fd ev k).1 fd' ≡ interest k fd'

-- `fd` is -1 for `none`; handlers are named by numbers.
pub record PollDesc : Type 0 where
  pub fd : Option ℕ
  pub events : Events
  pub eh : Option ℕ

pub record Evpoll (K : Type 0) : Type 0 where
  pub active_num : ℤ
  pub arr_size : ℕ
  pub arr : ℕ → PollDesc
  pub kernel : K

abbrev pub store : ℕ → PollDesc → (ℕ → PollDesc) → ℕ → PollDesc
store fd d arr i = if fd == i then d else arr i

-- `poll_desc_map::load`, as a test.
abbrev pub is_loaded : PollDesc → Bool
is_loaded d = elim (d.fd) as (λ _. Bool) [ none ↦ false | some fd ↦ true ]

-- `poll_desc_map::del`.
pub del : {K : Type 0} → ℕ → Evpoll K → Evpoll K
del fd p =
    if ltb fd p.arr_size
    then record p { arr = store fd (record (p.arr fd) { fd = none; eh = none }) p.arr }
    else p

module _ {K : Type 0} (os : Epoll K) where
  -- A call of `epoll_ctl`: its result and the poller behind it.
  abbrev pub control : Ctl → ℕ → Events → Evpoll K → Bool × Evpoll K
  control c fd ev p = let (r, k) = os.epoll_ctl c fd ev p.kernel in (r, record p { kernel = k })

  -- True stands for 0, false for -1.
  pub add : ℕ → ℤ → Events → Evpoll K → Bool × Evpoll K
  add eh (negsuc n) ev p = (false, p)
  add eh (pos fd) ev p =
      let d : PollDesc = record { fd = some fd; events = ev; eh = some eh } in
      let (r, p') = control Ctl.add_ctl fd ev (record p { arr = store fd d p.arr }) in
      if not (ltb fd p.arr_size)
      then (false, p)
      else if r
      then (true, record p' { active_num = p'.active_num +ℤ pos 1 })
      else (false, del fd p')

  -- `append` and the last part of `remove`: the new mask is saved first, and `back` is saved if the
  -- kernel refuses it.
  pub modify : ℕ → Events → Events → Evpoll K → Bool × Evpoll K
  modify fd new back p =
      let d = p.arr fd in
      let (r, p') =
        control Ctl.mod_ctl fd new
          (record p { arr = store fd (record d { events = new }) p.arr }) in
      if r
      then (true, p')
      else (false, record p' { arr = store fd (record d { events = back }) p.arr })

  pub append : ℤ → Events → Evpoll K → Bool × Evpoll K
  append (negsuc n) ev p = (false, p)
  append (pos fd) ev p =
      let new = union (p.arr fd).events ev in
      if ltb fd p.arr_size && is_loaded (p.arr fd)
      then modify fd new (without new ev) p
      else (false, p)

  -- The descriptor is taken out of the table and of the interest list.
  pub remove_all : ℕ → Evpoll K → Bool × Evpoll K
  remove_all fd p =
      let p' = del fd p in
      control Ctl.del_ctl fd ev_all (record p' { active_num = p'.active_num -ℤ pos 1 })

  pub remove : ℤ → Events → Evpoll K → Bool × Evpoll K
  remove (negsuc n) ev p = (false, p)
  remove (pos fd) ev p =
      let new = without (p.arr fd).events ev in
      if is_all ev
      then remove_all fd p
      else if not (ltb fd p.arr_size && is_loaded (p.arr fd))
      then (false, p)
      else if is_none new
      then remove_all fd p
      else modify fd new (union new ev) p
