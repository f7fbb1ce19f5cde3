-- ===== src/Evpoll/Tests.antt =====
-- A kernel that keeps its interest list as a function, and descriptors that are polled by it.
use niubix.Base.{
  ℕ, ◌==◌, ◌≡◌, ◌≢◌, ◌+◌, refl, Bool, true, false, Option, none, some, if◌then◌else◌, Bool-cases,
  inl, inr, ne→==_false,
}
use niubix.Base.Int.{pos}
use niubix.Evpoll.{
  Events, Ctl, add_ctl, mod_ctl, del_ctl, Epoll, PollDesc, Evpoll, ev_read, ev_write, ev_all, add,
  append, remove, remove_all, del,
}
use niubix.Evpoll.Dispatch.{
  Ready, closing, null_call, Ends, KeepsOwn, removed, size_kept, dispatch, dispatch_read,
  call_handler, close_handler, dispatch_closes,
}
use native.Mathlib.Omega.{arith}

abbrev ListOf : Type 0
ListOf = ℕ → Option Events

abbrev put : ℕ → Option Events → ListOf → ListOf
put fd e k i = if fd == i then e else k i

abbrev has : Option Events → Bool
has e = elim e as (λ _. Bool) [ none ↦ false | some e ↦ true ]

unfoldable ctl : Ctl → ℕ → Events → ListOf → Bool × ListOf
ctl add_ctl fd ev k = if has (k fd) then (false, k) else (true, put fd (some ev) k)
ctl mod_ctl fd ev k = if has (k fd) then (true, put fd (some ev) k) else (false, k)
ctl del_ctl fd ev k = (true, put fd none k)

put_self : (fd : ℕ) (e : Option Events) (k : ListOf) → put fd e k fd ≡ e
put_self fd e k = let same : (fd == fd) ≡ true = ground arith in rw same refl

has-false : (e : Option Events) → has e ≡ false → e ≡ none
has-false none h = refl
has-false (some e) h = cc h

put_ne : (fd fd' : ℕ) (e : Option Events) (k : ListOf) → fd ≢ fd' → put fd e k fd' ≡ k fd'
put_ne fd fd' e k n = rw (ne→==_false fd fd' n) refl

ctl_fails :
    (c : Ctl) (fd : ℕ) (ev : Events) (k : ListOf)
    → (ctl c fd ev k).0 ≡ false
    → (ctl c fd ev k).1 fd ≡ k fd
unfolding ctl
ctl_fails add_ctl fd ev k r = elim (Bool-cases (has (k fd))) [
  | inl h ↦ rw h refl
  | inr h ↦ cc (r, h)
]
ctl_fails mod_ctl fd ev k r = elim (Bool-cases (has (k fd))) [
  | inl h ↦ cc (r, h)
  | inr h ↦ rw h refl
]
ctl_fails del_ctl fd ev k r = cc r

ctl_others :
    (c : Ctl) (fd fd' : ℕ) (ev : Events) (k : ListOf) → fd ≢ fd' → (ctl c fd ev k).1 fd' ≡ k fd'
unfolding ctl
ctl_others add_ctl fd fd' ev k n = elim (Bool-cases (has (k fd))) [
  | inl h ↦ rw h refl
  | inr h ↦ rw h (put_ne fd fd' (some ev) k n)
]
ctl_others mod_ctl fd fd' ev k n = elim (Bool-cases (has (k fd))) [
  | inl h ↦ rw h (put_ne fd fd' (some ev) k n)
  | inr h ↦ rw h refl
]
ctl_others del_ctl fd fd' ev k n = put_ne fd fd' none k n

ctl_add :
    (fd : ℕ) (ev : Events) (k : ListOf)
    → (ctl add_ctl fd ev k).0 ≡ true
    → (k fd ≡ none) × ((ctl add_ctl fd ev k).1 fd ≡ some ev)
unfolding ctl
ctl_add fd ev k r = elim (Bool-cases (has (k fd))) [
  | inl h ↦ cc (r, h)
  | inr h ↦ (has-false (k fd) h, rw h (put_self fd (some ev) k))
]

ctl_mod :
    (fd : ℕ) (ev : Events) (k : ListOf)
    → (ctl mod_ctl fd ev k).0 ≡ true
    → (ctl mod_ctl fd ev k).1 fd ≡ some ev
unfolding ctl
ctl_mod fd ev k r = elim (Bool-cases (has (k fd))) [
  | inl h ↦ rw h (put_self fd (some ev) k)
  | inr h ↦ cc (r, h)
]

model : Epoll ListOf
unfolding ctl
model = record {
  epoll_ctl = ctl;
  interest = λ k fd. k fd;
  add_new = λ fd ev k r. (ctl_add fd ev k r).0;
  add_sets = λ fd ev k r. (ctl_add fd ev k r).1;
  mod_sets = ctl_mod;
  del_clears = λ fd ev k. put_self fd none k;
  fails = ctl_fails;
  others = ctl_others;
}

-- Descriptor 3 is polled for both events, of a table of eight.
abbrev entry : ℕ → PollDesc
entry fd =
    if 3 == fd
    then record { fd = some 3; events = ev_all; eh = some 9 }
    else record { fd = none; events = ev_read; eh = none }

abbrev poller : Evpoll ListOf
poller = record {
  active_num = pos 1;
  arr_size = 8;
  arr = entry;
  kernel = put 3 (some ev_all) (λ fd. none);
}

-- Descriptor 4 is added for reads, asked for writes too, and descriptor 3 keeps its reads only.
abbrev added : Evpoll ListOf
added = (add model 7 (pos 4) ev_read poller).1

abbrev appended : Evpoll ListOf
appended = (append model (pos 4) ev_write added).1

abbrev reads_only : Evpoll ListOf
reads_only = (remove model (pos 3) ev_write appended).1

-- Descriptor 3, which is polled for reads only, is then closed.
abbrev ended : Evpoll ListOf
ended = (remove model (pos 3) ev_all reads_only).1

-- Handlers that count their calls: writes are done, and the read sees the end of the connection.
abbrev written : ℕ → ℕ × Evpoll ListOf → Bool × (ℕ × Evpoll ListOf)
written eh (n, p) = (true, (n + 1, p))

abbrev is_null : Option ℕ → Bool
is_null o = elim o as (λ _. Bool) [ none ↦ true | some eh ↦ false ]

abbrev seen_end : ℕ → ℕ × Evpoll ListOf → Bool × (ℕ × Evpoll ListOf)
seen_end eh (n, p) = (is_null (p.arr 3).eh, (n + 1, p))

written-KeepsOwn : KeepsOwn model written seen_end 3 written
written-KeepsOwn eh s own = own

seen_end-KeepsOwn : KeepsOwn model written seen_end 3 seen_end
seen_end-KeepsOwn eh s own = own

-- A read that leaves the table, as `pause_recv` of src/http_frontend.cpp does when nothing but reads is
-- polled, and then answers false, for a bad request behind the one that was forwarded.
abbrev pauses : ℕ → ℕ × Evpoll ListOf → Bool × (ℕ × Evpoll ListOf)
pauses eh (n, p) = (false, (n + 1, (remove model (pos 3) ev_all p).1))

pauses-KeepsOwn : KeepsOwn model written pauses 3 pauses
pauses-KeepsOwn eh (n, p) own =
    (rw (size_kept model written pauses 3 p) own.0, inl (removed model written pauses 3 p own.0).0)

abbrev event : Ready
event = record { hup = false; out = true; input = true }

dispatch_closes_example :
    Ends model written pauses 3 event
      (0, poller)
      (dispatch model written pauses 3 event (0, poller))
dispatch_closes_example =
    dispatch_closes model written pauses 3 written-KeepsOwn pauses-KeepsOwn event (0, poller)
      (ground arith, inr refl)

-- The handler that was paused is called again, through the empty entry.
dispatch_paused : dispatch model written pauses 3 event (0, poller) ≡ null_call
unfolding dispatch dispatch_read call_handler close_handler remove remove_all del
dispatch_paused = refl

dispatch_end :
    dispatch model written seen_end 3 (record { hup = false; out = true; input = true }) (0, poller)
    ≡ closing 9 (2, (remove model (pos 3) ev_all poller).1)
unfolding dispatch dispatch_read call_handler close_handler remove
dispatch_end = refl
