-- ===== src/Evpoll/Agree.antt =====
-- The table of descriptors and the kernel's interest list agree, and which calls keep it so.
use niubix.Base.{
  ℕ, ◌==◌, ◌<◌, ◌≡◌, ◌≢◌, refl, sym, ap, ◌∙◌, Bool, true, false, not, ◌&&◌, ◌||◌, Option, none,
  some, ltb, if◌then◌else◌, Bool-cases, inl, inr, ltb→ge, ne→==_false,
}
use niubix.Base.Int.{ℤ, pos, ◌-ℤ◌}
use niubix.Evpoll.{
  Events, Ctl, Epoll, PollDesc, Evpoll, union, without, is_none, is_all, ev_all, store, is_loaded,
  del, add, modify, append, remove_all, remove,
}
use native.Mathlib.Omega.{arith}
use native.Mathlib.Decide.{ℕ_discrete}

-- What the table says of a descriptor.
abbrev pub registered : PollDesc → Option Events
registered d = if is_loaded d then some d.events else none

==_refl : (n : ℕ) → (n == n) ≡ true
==_refl n = ground arith

store_self : (fd : ℕ) (d : PollDesc) (arr : ℕ → PollDesc) → store fd d arr fd ≡ d
store_self fd d arr = rw (==_refl fd) refl

store_ne :
    (fd fd' : ℕ) (d : PollDesc) (arr : ℕ → PollDesc) → fd ≢ fd' → store fd d arr fd' ≡ arr fd'
store_ne fd fd' d arr n = rw (ne→==_false fd fd' n) refl

and_right : (x y : Bool) → (x && y) ≡ true → y ≡ true
and_right true y h = h
and_right false y h = cc h

and_not_or : (x y : Bool) → ((x && not y) || y) ≡ (x || y)
and_not_or true true = refl
and_not_or true false = refl
and_not_or false true = refl
and_not_or false false = refl

union-without : (a b : Events) → union (without a b) b ≡ union a b
union-without a b = rw (and_not_or a.read b.read, and_not_or a.write b.write) refl

module _ {K : Type 0} (os : Epoll K) where
  -- For every descriptor that the table has room for.
  abbrev pub IsValid : Evpoll K → Type 0
  IsValid p = (fd : ℕ) → fd < p.arr_size → os.interest p.kernel fd ≡ registered (p.arr fd)

  module _ (p : Evpoll K) (v : IsValid p) (fd : ℕ) where
    -- A call of `epoll_ctl` behind writes to the entry of `fd`, of which the last writes `d`.
    written-IsValid :
        (c : Ctl) (ev : Events) (d : PollDesc) (arr : ℕ → PollDesc) (n : ℤ)
        → arr fd ≡ d
        → ((fd' : ℕ) → fd ≢ fd' → arr fd' ≡ p.arr fd')
        → (fd < p.arr_size → os.interest (os.epoll_ctl c fd ev p.kernel).1 fd ≡ registered d)
        → IsValid
            (record p { arr = arr; kernel = (os.epoll_ctl c fd ev p.kernel).1; active_num = n })
    written-IsValid c ev d arr n here others h fd' l = elim (ℕ_discrete fd fd') [
      | yes e ↦ rw (← e) (rw here (h (rw e l)))
      | no e ↦ rw (others fd' e) (os.others c fd fd' ev p.kernel e ∙ v fd' l)
    ]

    remove_all-IsValid : IsValid (remove_all os fd p).1
    unfolding remove_all del
    remove_all-IsValid = elim (Bool-cases (ltb fd p.arr_size)) [
      | inl l ↦
          let d : PollDesc = record (p.arr fd) { fd = none; eh = none } in
          rw l (
            written-IsValid Ctl.del_ctl ev_all d (store fd d p.arr) (p.active_num -ℤ pos 1)
              (store_self fd d p.arr) (λ fd' ne. store_ne fd fd' d p.arr ne)
              (λ m. os.del_clears fd ev_all p.kernel))
      | inr l ↦ rw l (
          written-IsValid Ctl.del_ctl ev_all (p.arr fd) p.arr (p.active_num -ℤ pos 1) refl
            (λ fd' ne. refl) (λ m. absurd (omega (arith, m, ltb→ge fd p.arr_size l))))
    ]

    modify-IsValid :
        (new back : Events)
        → is_loaded (p.arr fd) ≡ true
        → back ≡ (p.arr fd).events
        → IsValid (modify os fd new back p).1
    unfolding modify
    modify-IsValid new back there same =
        let d : PollDesc = record (p.arr fd) { events = new } in
        let d' : PollDesc = record (p.arr fd) { events = back } in
        elim (Bool-cases (os.epoll_ctl Ctl.mod_ctl fd new p.kernel).0) [
          | inl r ↦ simp r (
              written-IsValid Ctl.mod_ctl new d (store fd d p.arr) p.active_num
                (store_self fd d p.arr) (λ fd' ne. store_ne fd fd' d p.arr ne)
                (λ m. os.mod_sets fd new p.kernel r ∙ rw there refl))
          | inr r ↦ simp r (
              written-IsValid Ctl.mod_ctl new d' (store fd d' p.arr) p.active_num
                (store_self fd d' p.arr) (λ fd' ne. store_ne fd fd' d' p.arr ne)
                (λ m.
                  os.fails Ctl.mod_ctl fd new p.kernel r ∙ v fd m ∙ rw there (ap some (sym same))))
        ]

    -- `remove` of events that are polled keeps the table and the kernel's interest list in agreement,
    -- whatever the kernel answers.
    pub remove-IsValid :
        (ev : Events)
        → union (p.arr fd).events ev ≡ (p.arr fd).events
        → IsValid (remove os (pos fd) ev p).1
    unfolding remove
    remove-IsValid ev within =
        let new = without (p.arr fd).events ev in
        elim (Bool-cases (is_all ev)) [
          | inl a ↦ rw a remove_all-IsValid
          | inr a ↦ elim (Bool-cases (ltb fd p.arr_size && is_loaded (p.arr fd))) [
            | inr l ↦ rw (a, l) v
            | inl l ↦ elim (Bool-cases (is_none new)) [
              | inl z ↦ rw (a, l, z) remove_all-IsValid
              | inr z ↦
                  rw (a, l, z)
                    (modify-IsValid new (union new ev) (and_right _ _ l)
                      (union-without (p.arr fd).events ev ∙ within))
            ]
          ]
        ]

  -- The calls that the code makes of a poller: it adds a descriptor that the table does not have,
  -- appends events that are not polled, removes events that are, and, to close a descriptor, removes
  -- `ev_all`, whatever is polled.
  pub data Call (p : Evpoll K) : Evpoll K → Type 0 where
    adds :
        (eh fd : ℕ) (ev : Events)
        → is_loaded (p.arr fd) ≡ false
        → Call p (add os eh (pos fd) ev p).1
    appends :
        (fd : ℕ) (ev : Events)
        → without (p.arr fd).events ev ≡ (p.arr fd).events
        → Call p (append os (pos fd) ev p).1
    removes :
        (fd : ℕ) (ev : Events)
        → union (p.arr fd).events ev ≡ (p.arr fd).events
        → Call p (remove os (pos fd) ev p).1
    removes_all : (fd : ℕ) → Call p (remove os (pos fd) ev_all p).1

  pub data Calls (p : Evpoll K) : Evpoll K → Type 0 where
    done : Calls p p
    call : {q r : Evpoll K} → Calls p q → Call q r → Calls p r
