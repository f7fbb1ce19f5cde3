-- ===== src/Timer/Heap.antt =====
-- The heap order, and arrays with a hole: the slot whose item the sifting still carries.
pub mod Up
pub mod Down
use niubix.Base.{ℕ, zero, suc, ◌+◌, ◌<◌, ◌≤◌, ◌≡◌, ◌≢◌, List, length, arith}
use niubix.Timer.{item_at, parent}

module _ (expire_at : ℕ → ℕ) where
  -- When the item in slot `i` expires.
  abbrev pub key : List ℕ → ℕ → ℕ
  key a i = expire_at (item_at a i)

  -- No item expires before its parent.
  abbrev pub IsHeap : List ℕ → Type 0
  IsHeap a = (c : ℕ) → 0 < c → c < length a → key a (parent c) ≤ key a c

  -- The order on all edges but those of slot `idx`, and round it.
  pub record IsHeapBut (a : List ℕ) (idx : ℕ) : Type 0 where
    pub inside : idx < length a
    pub edges :
        (c : ℕ) → 0 < c → c < length a → c ≢ idx → parent c ≢ idx → key a (parent c) ≤ key a c
    pub around :
        (c : ℕ) → 0 < c → c < length a → parent c ≡ idx → 0 < idx → key a (parent idx) ≤ key a c

  root_least_below :
      (k : ℕ) (a : List ℕ) (i : ℕ) → IsHeap a → i < k → i < length a → key a 0 ≤ key a i
  root_least_below zero a i h f p = absurd (omega arith)
  root_least_below (suc k) a zero h f p = omega arith
  root_least_below (suc k) a (suc i) h f p = omega (
    arith,
    h (suc i) (omega arith) p,
    root_least_below k a (parent (suc i)) h (omega arith) (omega arith),
  )

  -- The root of a heap is the first to expire.
  pub root_least : (a : List ℕ) (i : ℕ) → IsHeap a → i < length a → key a 0 ≤ key a i
  root_least a i h p = root_least_below (suc i) a i h (omega arith) p
