-- ===== src/Ringq.antt =====
-- src/ringq.h: the growing ring buffer of the task queues and the send queues.
pub mod Inv
pub mod Refine
pub mod Run
mod Tests
use niubix.Base.{
  ℕ, zero, suc, ◌+◌, ◌-◌, ◌*◌, ◌%◌, ◌==◌, Bool, List, [], ◌∷◌, if◌then◌else◌, get_or, set,
  replicate,
}

-- The members of `ringq<item_t>`; `rq` has one entry for each of the `size` slots.
pub record Ringq {ℓ} (A : Type ℓ) : Type ℓ where
  pub size : ℕ
  pub head : ℕ
  pub tail : ℕ
  pub len : ℕ
  pub rq : List A

-- `blank` is `item_t()`.
module _ {ℓ} {A : Type ℓ} (blank : A) where
  -- The constructor; its argument is not negative.
  pub init : ℕ → Ringq A
  init n = record { size = n; head = 0; tail = 0; len = 0; rq = replicate n blank }

  pub empty : Ringq A → Bool
  empty r = r.len == 0

  pub full : Ringq A → Bool
  full r = r.len == r.size

  -- The `for` of `grow`, with `k` rounds left: `newrq[i] = rq[(head + i) % size]`.
  pub copy : Ringq A → ℕ → ℕ → List A → List A
  copy r zero i newrq = newrq
  copy r (suc k) i newrq =
      copy r k (suc i) (set newrq i (get_or r.rq ((r.head + i) % r.size) blank))

  pub new_size : ℕ → ℕ
  new_size size = if size * 2 == 0 then 2 else size * 2

  pub grow : Ringq A → Ringq A
  grow r = record {
    size = new_size r.size;
    head = 0;
    tail = r.len;
    len = r.len;
    rq = copy r r.len 0 (replicate (new_size r.size) blank);
  }

  -- The part of `push_back` after the test, on a ring with room.
  pub put : Ringq A → A → Ringq A
  put r v = record r { rq = set r.rq r.tail v; tail = (r.tail + 1) % r.size; len = r.len + 1 }

  pub push_back : Ringq A → A → Ringq A
  push_back r v = if full r then put (grow r) v else put r v

  pub pop_front : Ringq A → Ringq A
  pop_front r =
      if empty r
      then r
      else record r { rq = set r.rq r.head blank; head = (r.head + 1) % r.size; len = r.len - 1 }

  -- `rq[head]`. The callers test `empty` first.
  pub front : Ringq A → A
  front r = get_or r.rq r.head blank
