-- ===== src/Timer.antt =====
-- src/timer_qheap.h and src/timer_qheap.cpp: the timers of one worker, a heap of four-way nodes.
-- Items live in a store and are named by pointers, since the heap and each handler's `ti` share
-- them. Times are milliseconds and delays are not negative; `int64_t` does not overflow.
pub mod Array
pub mod Heap
pub mod Ops
pub mod Due
pub mod Expire
pub mod Cancel
mod Tests
use niubix.Base.{
  ℕ, zero, suc, ◌+◌, ◌-◌, ◌*◌, ◌/◌, Bool, true, false, ◌&&◌, not, List, [], ◌∷◌, ◌++◌, Option, none,
  some, ltb, leb, ◌==◌, if◌then◌else◌, length, get_or, set, take, ◌%◌,
}
use niubix.Base.Int.{ℤ, pos, negsuc, sub_ℕ}

-- A null `eh` marks a cancelled item. An `interval` of 0 stands for all that are not positive.
pub record Item : Type 0 where
  pub interval : ℕ
  pub expire_at : ℕ
  pub eh : Option ℕ

-- `store` is the memory of the items, `next` the next one that `new` returns, and `ti` the member
-- of each handler. `settimes` holds the seconds and nanoseconds that were given to
-- `timerfd_settime`, the latest call first; what the kernel does with them is not modelled.
pub record Timer : Type 0 where
  pub qheap : List ℕ
  pub timerfd_settime : ℕ
  pub store : ℕ → Item
  pub next : ℕ
  pub ti : ℕ → Option ℕ
  pub settimes : List (ℤ × ℕ)

-- `qheap[i]`; a read out of range, which the heap makes only of index 0 when it is empty, gives 0.
abbrev pub item_at : List ℕ → ℕ → ℕ
item_at a i = get_or a i 0

abbrev pub parent : ℕ → ℕ
parent idx = (idx - 1) / 4

abbrev pub child : ℕ → ℕ → ℕ
child parent_idx child_num = 4 * parent_idx + child_num + 1

-- The sifting reads nothing of the items but when they expire.
module _ (expire_at : ℕ → ℕ) where
  -- The `while` of `shift_up`, with the write behind it. Each round at least quarters the index, so
  -- that many rounds are enough.
  pub up_loop : ℕ → List ℕ → ℕ → ℕ → List ℕ
  up_loop zero a item idx = set a idx item
  up_loop (suc k) a item idx =
      let p = item_at a (parent idx) in
      let rest = up_loop k (set a idx p) item (parent idx) in
      if ltb 0 idx && ltb (expire_at item) (expire_at p) then rest else set a idx item

  pub shift_up : List ℕ → ℕ → List ℕ
  shift_up a idx = up_loop idx a (item_at a idx) idx

  -- The `for` over the children 1 to 3, with `k` of them left.
  pub min_child_loop : ℕ → List ℕ → ℕ → ℕ → ℕ → ℕ
  min_child_loop zero a idx i min_child = min_child
  min_child_loop (suc k) a idx i min_child =
      let c = child idx i in
      let smaller =
        ltb c (length a) && ltb (expire_at (item_at a c)) (expire_at (item_at a min_child)) in
      min_child_loop k a idx (suc i) (if smaller then c else min_child)

  pub min_child : List ℕ → ℕ → ℕ
  min_child a idx = min_child_loop 3 a idx 1 (child idx 0)

  -- The `while` of `shift_down`. The index grows, so as many rounds as there are slots are enough.
  pub down_loop : ℕ → List ℕ → ℕ → ℕ → List ℕ
  down_loop zero a item idx = set a idx item
  down_loop (suc k) a item idx =
      let m = min_child a idx in
      let rest = down_loop k (set a idx (item_at a m)) item m in
      if leb (length a) (child idx 0)
      then set a idx item
      else if leb (expire_at item) (expire_at (item_at a m))
      then set a idx item
      else rest

  pub shift_down : List ℕ → ℕ → List ℕ
  shift_down a idx = down_loop (length a) a (item_at a idx) idx

  pub insert : List ℕ → ℕ → List ℕ
  insert a item = let pushed = a ++ item ∷ [] in shift_up pushed (length pushed - 1)

  -- The removal in `pop_min`: the last item goes to the root, and sinks.
  pub remove_root : List ℕ → List ℕ
  remove_root a =
      let moved = set a 0 (item_at a (length a - 1)) in shift_down (take (length a - 1) moved) 0

abbrev pub update {ℓ} : {A : Type ℓ} → (ℕ → A) → ℕ → A → ℕ → A
update f p v q = if p == q then v else f q

-- The expiry times that the heap reads.
abbrev pub expiry : (ℕ → Item) → ℕ → ℕ
expiry store p = (store p).expire_at

-- C++ division truncates towards zero.
pub seconds : ℤ → ℤ
seconds (pos d) = pos (d / 1000)
seconds (negsuc d) = sub_ℕ 0 ((d + 1) / 1000)

pub nanoseconds : ℤ → ℕ
nanoseconds (pos zero) = 1
nanoseconds (pos (suc d)) = suc d % 1000 * 1000 * 1000
nanoseconds (negsuc d) = 1

pub adjust_timerfd : ℤ → Timer → Timer
adjust_timerfd delay t = record t { settimes = (seconds delay, nanoseconds delay) ∷ t.settimes }

-- The part of `schedule` behind the insertion: the kernel's timer follows the root.
pub follow_root : ℕ → Timer → Timer
follow_root now t =
    let min = expiry t.store (item_at t.qheap 0) in
    if min == t.timerfd_settime
    then t
    else record (adjust_timerfd (sub_ℕ min now) t) { timerfd_settime = min }

pub add_item : ℕ → Item → Timer → Timer
add_item eh item t =
    let store = update t.store t.next item in
    record t {
      store = store;
      next = t.next + 1;
      ti = update t.ti eh (some t.next);
      qheap = insert (expiry store) t.qheap t.next;
    }

-- `now` is what `gettimeofday` gives; false stands for -1.
pub schedule : Option ℕ → ℕ → ℕ → ℕ → Timer → Bool × Timer
schedule none delay interval now t = (false, t)
schedule (some eh) delay interval now t =
    let item : Item = record { interval = interval; expire_at = now + delay; eh = some eh } in
    (true, follow_root now (add_item eh item t))

pub cancel : ℕ → Timer → Timer
cancel eh t = elim (t.ti eh) [
  | none ↦ t
  | some p ↦ record t {
    store = update t.store p (record (t.store p) { eh = none; expire_at = 1 });
    ti = update t.ti eh none;
  }
]

-- What `pop_min` returns, what it leaves in `delta`, and the timer.
pub pop_min : ℕ → ℕ → Timer → Option ℕ × ℕ × Timer
pop_min now delta t =
    let min = item_at t.qheap 0 in
    if length t.qheap == 0
    then (none, delta, t)
    else if ltb now (expiry t.store min)
    then (none, expiry t.store min - now, t)
    else (some min, 0, record t { qheap = remove_root (expiry t.store) t.qheap })

-- How the loop of `handle_expired` ends: with `delta` and the items popped, or by a null `eh`.
pub data Expired : Type 0 where
  done : ℕ → List ℕ → Timer → Expired
  null_eh out_of_fuel : Expired

-- Puts a popped item in front of those that the rest of the loop pops.
pub popped : ℕ → Expired → Expired
popped p (done delta ps t) = done delta (p ∷ ps) t
popped p null_eh = null_eh
popped p out_of_fuel = out_of_fuel

-- `eh->on_timeout(now)`, of which each handler has its own; it may schedule and cancel timers.
abbrev pub OnTimeout : Type 0
OnTimeout = ℕ → ℕ → Timer → Bool × Timer

-- The `if` on what `on_timeout` returns, for the popped item `p`: it goes back into the heap, or its
-- handler is told that it has no timer. That handler is read through the item, so if `on_timeout`
-- has cancelled the item, the null pointer is followed.
abbrev pub repeat_item : ℕ → ℕ → Timer → Timer
repeat_item now p t =
    let item = t.store p in
    let store = update t.store p (record item { expire_at = now + item.interval }) in
    record t { store = store; qheap = insert (expiry store) t.qheap p }

pub end_item : Option ℕ → Timer → Option Timer
end_item none t = none
end_item (some eh) t = some (record t { ti = update t.ti eh none })

pub finish_item : ℕ → ℕ → Bool × Timer → Option Timer
finish_item now p (again, t) =
    if again && ltb 0 (t.store p).interval
    then some (repeat_item now p t)
    else end_item (t.store p).eh t

module _ (on_timeout : OnTimeout) where
  -- The loop's body for a popped item with the given `eh`.
  pub fire : Option ℕ → ℕ → ℕ → Timer → Option Timer
  fire none now p t = some t
  fire (some eh) now p t = finish_item now p (on_timeout eh now t)

  pub expire_item : ℕ → ℕ → Timer → Option Timer
  expire_item now p t = fire (t.store p).eh now p t

  -- One round of the loop behind `pop_min`; `rest` is the rounds that follow.
  pub next_round : (Timer → Expired) → ℕ → Option Timer → Expired
  next_round rest p none = null_eh
  next_round rest p (some t) = popped p (rest t)

  pub round : (ℕ → Timer → Expired) → ℕ → Option ℕ × ℕ × Timer → Expired
  round rest now (none, delta, t) = done delta [] t
  round rest now (some p, delta, t) = next_round (rest delta) p (expire_item now p t)

  pub expire_loop : ℕ → ℕ → ℕ → Timer → Expired
  expire_loop zero now delta t = out_of_fuel
  expire_loop (suc k) now delta t = round (expire_loop k now) now (pop_min now delta t)

  -- `none` stands for the -1 of an empty heap.
  pub handle_expired : ℕ → ℕ → Timer → Option Expired
  handle_expired fuel now t = if length t.qheap == 0 then none else some (expire_loop fuel now 0 t)

  -- The end of `on_read`: the kernel's timer is set again if something is left to wait for.
  pub rearm : Timer → Option Expired → Option Timer
  rearm t none = some t
  rearm t (some (done delta ps t')) =
      some (if ltb 0 delta then adjust_timerfd (pos delta) t' else t')
  rearm t (some null_eh) = none
  rearm t (some out_of_fuel) = none

  -- `on_read` behind the read of the timer's descriptor, which changes nothing here.
  pub on_read : ℕ → ℕ → Timer → Option Timer
  on_read fuel now t = rearm t (handle_expired fuel now t)
