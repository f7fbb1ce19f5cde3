-- ===== src/Evpoll/Resume.antt =====
-- Pausing and resuming the reads of a descriptor whose writes are polled, as `pause_recv` and
-- `on_backend_send_buffer_drained` of src/http_frontend.cpp do.
use niubix.Base.{
  ℕ, ◌==◌, ◌<◌, ◌≡◌, refl, ◌∙◌, true, false, none, some, Bool-cases, inl, inr, lt→ltb,
}
use niubix.Base.Int.{pos}
use niubix.Evpoll.{
  Events, Ctl, Epoll, Evpoll, ev_read, ev_write, ev_all, is_loaded, del, add, modify, remove,
}
use niubix.Evpoll.Agree.{IsValid, remove-IsValid}
use native.Mathlib.Omega.{arith}

-- A descriptor that the kernel has cannot be added again: `add` fails, and the table forgets the
-- descriptor and its handler although the kernel still reports its events.
pub add_again :
    {K : Type 0} (os : Epoll K) (eh fd : ℕ) (ev : Events) (p : Evpoll K)
    → IsValid os p
    → fd < p.arr_size
    → is_loaded (p.arr fd) ≡ true
    → let (ok, p') = add os eh (pos fd) ev p in
      (ok ≡ false)
      × ((p'.arr fd).eh ≡ none)
      × (is_loaded (p'.arr fd) ≡ false)
      × (os.interest p'.kernel fd ≡ some (p.arr fd).events)
unfolding add del
add_again os eh fd ev p v l there =
    let kept : os.interest p.kernel fd ≡ some (p.arr fd).events = v fd l ∙ rw there refl in
    let same : (fd == fd) ≡ true = ground arith in
    elim (Bool-cases (os.epoll_ctl Ctl.add_ctl fd ev p.kernel).0) [
      | inl r ↦ cc (os.add_new fd ev p.kernel r, kept)
      | inr r ↦
          simp (lt→ltb fd p.arr_size l, r, same)
            (refl, refl, refl, os.fails Ctl.add_ctl fd ev p.kernel r ∙ kept)
    ]

-- After such a pause the table still has the descriptor.
paused :
    {K : Type 0} (os : Epoll K) (fd : ℕ) (p : Evpoll K)
    → fd < p.arr_size
    → is_loaded (p.arr fd) ≡ true
    → (p.arr fd).events ≡ ev_all
    → (remove os (pos fd) ev_read p).0 ≡ true
    → let p' = (remove os (pos fd) ev_read p).1 in
      (fd < p'.arr_size) × (is_loaded (p'.arr fd) ≡ true)
unfolding remove modify
paused os fd p l there both ok =
    let same : (fd == fd) ≡ true = ground arith in
    elim (Bool-cases (os.epoll_ctl Ctl.mod_ctl fd ev_write p.kernel).0) [
      | inl r ↦ simp (lt→ltb fd p.arr_size l, there, both, r, same) (l, refl)
      | inr r ↦ simp (lt→ltb fd p.arr_size l, there, both, r, same) (l, refl)
    ]

-- If reads and writes of a descriptor are polled, then pausing the reads keeps it registered for writes,
-- so resuming them by `add` fails, and the connection is closed; unless the kernel refuses the pause.
pub pause-resume :
    {K : Type 0} (os : Epoll K) (eh fd : ℕ) (p : Evpoll K)
    → IsValid os p
    → fd < p.arr_size
    → is_loaded (p.arr fd) ≡ true
    → (p.arr fd).events ≡ ev_all
    → (remove os (pos fd) ev_read p).0 ≡ true
    → (add os eh (pos fd) ev_read (remove os (pos fd) ev_read p).1).0 ≡ false
pause-resume os eh fd p v l there both ok =
    let p' = (remove os (pos fd) ev_read p).1 in
    let (room, loaded) = paused os fd p l there both ok in
    (add_again os eh fd ev_read p' (remove-IsValid os p v fd ev_read (rw both refl)) room loaded).0
