-- ===== src/Config/Process/Accepted.antt =====
-- What holds of a configuration of the process that is accepted.
use niubix.Base.{
  ℕ, ◌<◌, ◌≤◌, ◌*◌, ◌≡◌, ◌⊎◌, refl, Bool, true, false, ◌||◌, List, [], ◌∷◌, Option, none, some, ltb,
  leb, if◌then◌else◌, length, take, length-take, Bool-cases, inl, inr,
}
use niubix.Base.Int.{ℤ, pos, ltb_ℤ}
use niubix.Request.Text.{before}
use niubix.Config.Load.{Loaded, empty_conf, same_ℤ}
use niubix.Config.Apps.{and_then, load_conf}
use niubix.Config.Good.{Ensures, and_then-Ensures, else-Ensures}
use niubix.Config.Valid.{IsValid, load_conf-IsValid}
use niubix.Config.Process.{
  ProcessJson, Machine, ProcessConf, max_file_name_length, copied, to_int, limit_of, max_fds_of,
  is_missing, process_conf, load_rest, load,
}
use native.Mathlib.Omega.{arith}

-- A text that is there and fits in its array, with its NUL.
abbrev pub IsText : List ℕ → Type 0
IsText s = (0 < length s) × (length s < max_file_name_length)

-- The limit of descriptors is that of the configuration, or that of the machine, as an `int`.
abbrev pub Limits : Option ℕ → ℤ → ℤ → Type 0
Limits rlim asked n =
    ((n ≡ asked) × (ltb_ℤ asked (pos 0) ≡ false) × (same_ℤ asked (pos 0) ≡ false))
    ⊎ ((same_ℤ asked (pos 0) ≡ true) × ((r : ℕ) × (rlim ≡ some r) × (n ≡ to_int r)))

abbrev pub IsLimit : Machine → ℤ → ℤ → Type 0
IsLimit machine = Limits machine.rlim_cur

pub record IsAccepted (machine : Machine) (j : ProcessJson) (c : ProcessConf) : Type 0 where
  pub version : length c.version < max_file_name_length
  pub master_log : IsText c.master_log
  pub pid_file : IsText c.pid_file
  pub log_dir : IsText c.log_dir
  pub log_level : IsText c.log_level
  pub limit : IsLimit machine j.max_fds c.max_fds
  pub buffer : ltb_ℤ c.worker_io_buf_size (pos 1) ≡ false
  pub apps : IsValid c.loaded

length-before : (sep : ℕ) (s : List ℕ) → length (before sep s) ≤ length s
unfolding before
length-before sep [] = omega arith
length-before sep (b ∷ s) = grind (arith, length-before sep s)

length-copied : (s : List ℕ) → length (copied s) < max_file_name_length
unfolding copied
length-copied s = omega (arith, length-before 0 (take 254 s), length-take 254 s)

there-IsText : (s : List ℕ) → is_missing s ≡ false → IsText (copied s)
unfolding is_missing
there-IsText s h = (ground (arith, h), length-copied s)

none_missing : (x y z : Bool) → (x || (y || z)) ≡ false → (x ≡ false) × (y ≡ false) × (z ≡ false)
none_missing true y z h = cc h
none_missing false true z h = cc h
none_missing false false true h = cc h
none_missing false false false h = (refl, refl, refl)

limit_of-Limits :
    (rlim : Option ℕ) (n : ℤ) (is_zero : Bool)
    → same_ℤ n (pos 0) ≡ is_zero
    → ltb_ℤ n (pos 0) ≡ false
    → Ensures (Limits rlim n) (limit_of rlim n is_zero)
unfolding limit_of
limit_of-Limits rlim n false z e = inl (refl, e, z)
limit_of-Limits none n true z e = tt
limit_of-Limits (some r) n true z e = inr (z, (r, refl, refl))

max_fds_of-IsLimit :
    (machine : Machine) (n : ℤ) → Ensures (IsLimit machine n) (max_fds_of machine n)
unfolding max_fds_of
max_fds_of-IsLimit machine n =
    else-Ensures (IsLimit machine n) (ltb_ℤ n (pos 0))
      (limit_of machine.rlim_cur n (same_ℤ n (pos 0)))
      (limit_of-Limits machine.rlim_cur n (same_ℤ n (pos 0)) refl)

some-Ensures :
    {A : Type 0} (P : A → Type 0) (o : Option A) → ((a : A) → o ≡ some a → P a) → Ensures P o
some-Ensures P none h = tt
some-Ensures P (some a) h = h a refl

buffer_size : (n : ℤ) → ltb_ℤ (if ltb_ℤ n (pos 1) then pos (32 * 1024) else n) (pos 1) ≡ false
buffer_size n = elim (Bool-cases (ltb_ℤ n (pos 1))) [ inl e ↦ rw e refl | inr e ↦ rw e e ]

load_rest-IsAccepted :
    (machine : Machine) (j : ProcessJson) (fds : ℤ)
    → IsLimit machine j.max_fds fds
    → is_missing j.master_log ≡ false
    → is_missing j.pid_file ≡ false
    → Ensures (IsAccepted machine j) (load_rest machine j fds)
unfolding load_rest process_conf
load_rest-IsAccepted machine j fds limit log pid =
    let late : Bool = is_missing j.log_dir || (is_missing j.log_level || ltb (length j.apps) 1) in
    let made : Loaded → Option ProcessConf = λ l. some (process_conf machine j fds l) in
    else-Ensures (IsAccepted machine j) late (and_then (load_conf j.apps empty_conf) made) (λ e.
      let there =
        none_missing (is_missing j.log_dir) (is_missing j.log_level) (ltb (length j.apps) 1) e in
      and_then-Ensures IsValid (IsAccepted machine j) (load_conf j.apps empty_conf) made
        (some-Ensures IsValid _ (load_conf-IsValid j.apps))
        (λ l valid. record {
          version = length-copied j.version;
          master_log = there-IsText j.master_log log;
          pid_file = there-IsText j.pid_file pid;
          log_dir = there-IsText j.log_dir there.0;
          log_level = there-IsText j.log_level there.1;
          limit = limit;
          buffer = buffer_size j.io_buf_size;
          apps = valid;
        }))

-- A configuration that `conf::load` accepts has a version, a log, a pid file, a directory and a level for logs
-- that fit in their arrays, and all but the version are there; its limit of descriptors is the one that was
-- asked for, or that of the machine, converted to `int`; its buffers are not empty, and its apps are valid.
pub load-IsAccepted :
    (machine : Machine) (j : ProcessJson) → Ensures (IsAccepted machine j) (load machine j)
unfolding load
load-IsAccepted machine j =
    let long = leb max_file_name_length (length j.version) in
    let early : Bool = long || (is_missing j.master_log || is_missing j.pid_file) in
    else-Ensures (IsAccepted machine j) early
      (and_then (max_fds_of machine j.max_fds) (load_rest machine j))
      (λ e.
        let there = none_missing long (is_missing j.master_log) (is_missing j.pid_file) e in
        and_then-Ensures (IsLimit machine j.max_fds) (IsAccepted machine j)
          (max_fds_of machine j.max_fds) (load_rest machine j)
          (max_fds_of-IsLimit machine j.max_fds)
          (λ fds limit. load_rest-IsAccepted machine j fds limit there.1 there.2))
