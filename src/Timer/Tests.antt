-- ===== src/Timer/Tests.antt =====
-- Runs of the timers, and the theorems at concrete inputs.
use niubix.Base.{ℕ, ◌≡◌, ◌⊎◌, refl, true, [], ◌∷◌, none, some, arith, length}
use niubix.Timer.{
  Timer, schedule, cancel, pop_min, handle_expired, OnTimeout, Expired, add_item, follow_root,
  adjust_timerfd, insert, shift_up, up_loop,
}
use niubix.Timer.Array.{occ}
use niubix.Timer.Ops.{IsValid, schedule_lem}
use niubix.Timer.Expire.{Finished, handle_expired_lem}
use niubix.Timer.Cancel.{cancel_hides_due}

abbrev nothing : Timer
nothing = record {
  qheap = [];
  timerfd_settime = 0;
  store = λ p. record { interval = 0; expire_at = 0; eh = none };
  next = 0;
  ti = λ eh. none;
  settimes = [];
}

nothing-IsValid : IsValid nothing
unfolding occ
nothing-IsValid = record {
  heap = λ c p q. absurd (omega arith);
  allocated = λ p h. refl;
  once = λ p. omega arith;
}

-- Handlers 1 to 5, at the time 100.
abbrev after_five : Timer
after_five =
    let add = λ (eh delay interval : ℕ) (t : Timer). (schedule (some eh) delay interval 100 t).1 in
    add 5 70 0 (add 4 60 0 (add 3 40 30 (add 2 50 0 (add 1 20 0 nothing))))

five_heap : after_five.qheap ≡ 0 ∷ 1 ∷ 2 ∷ 3 ∷ 4 ∷ []
unfolding schedule add_item follow_root adjust_timerfd insert shift_up up_loop
five_heap = refl

-- Each item is put in by `schedule`, so the heap is valid.
after_five-IsValid : IsValid after_five
after_five-IsValid =
    let add = λ (eh delay interval : ℕ) (t : Timer) (v : IsValid t).
      (schedule_lem eh delay interval 100 t v).1.valid in
    add 5 70 0 _ (add 4 60 0 _ (add 3 40 30 _ (add 2 50 0 _ (add 1 20 0 nothing nothing-IsValid))))

five_next : after_five.next ≡ 5
unfolding schedule add_item follow_root adjust_timerfd insert shift_up up_loop
five_next = refl

-- Handlers that want to be called again and do not touch the timers.
abbrev again : OnTimeout
again eh now t = (true, t)

handle_expired_lem_example :
    ((length after_five.qheap ≡ 0) × (handle_expired again 6 145 after_five ≡ none))
    ⊎ ((r : Expired) × (handle_expired again 6 145 after_five ≡ some r) × Finished 145 after_five r)
handle_expired_lem_example =
    handle_expired_lem again (λ eh now t. refl) 145 6 after_five (omega (arith, five_next))
      after_five-IsValid

-- The timer of handler 2 is cancelled; the one of handler 6, due at 110, goes below it.
cancel_hides_due_example :
    (pop_min 115 0 (schedule (some 6) 10 0 100 (cancel 2 after_five)).1).0 ≡ none
unfolding schedule add_item follow_root adjust_timerfd insert shift_up up_loop
cancel_hides_due_example =
    (cancel_hides_due after_five 2 1 6 10 0 100 115 after_five-IsValid refl (omega arith) refl
      (omega arith) (omega arith) (omega arith) (omega arith)).2
