-- ===== src/App.antt =====
-- src/app.h and src/app.cpp: `app::backend`, and the operations of `app` on its backend list: the health checker's
-- `backend_online` and `backend_offline`, the administrator's `set_backend_down` and
-- `set_backend_weight`, and the smooth weighted round robin of `get_backend_by_smooth_wrr`.
-- The mutex is held for the whole of each operation, so an operation is one step here.
pub mod Pass
pub mod Choice
pub mod Total
pub mod Balanced
pub mod Fair
pub mod Cycle
pub mod Bounds
pub mod Health
pub mod Hosts
mod Tests
use niubix.Base.{
  ℕ, zero, suc, ◌+◌, ◌%◌, ◌^◌, Bool, true, false, ◌||◌, List, [], ◌∷◌, Option, none, some, ltb,
  if◌then◌else◌, get_or, same_bytes,
}
use niubix.Base.Int.{ℤ, pos, ◌+ℤ◌, ◌-ℤ◌, ltb_ℤ}

-- `weight` and `current` are C++ ints, taken without overflow; `counts` is a uint32_t.
pub record Backend : Type 0 where
  pub offline : Bool
  pub down : Bool
  pub weight : ℤ
  pub current : ℤ
  pub counts : ℕ
  pub health_check_period : ℕ
  pub health_check_timeout : ℕ
  pub health_check_ok_times : ℕ
  pub host : List ℕ
  pub health_check_uri : List ℕ

-- The default member initialisers.
abbrev pub fresh : Backend
fresh = record {
  offline = false;
  down = false;
  weight = pos 0;
  current = pos 0;
  counts = 0;
  health_check_period = 0;
  health_check_timeout = 0;
  health_check_ok_times = 0;
  host = [];
  health_check_uri = [];
}

unfoldable pub backend_offline : Backend → Backend
backend_offline ab = record ab { health_check_ok_times = 0; offline = true }

-- Back in service after more than two good health checks in a row.
pub backend_online : Backend → Backend
backend_online ab =
    let times = ab.health_check_ok_times + 1 in
    record ab { health_check_ok_times = times; offline = if ltb 2 times then false else ab.offline }

-- The common loop of the two setters: the first backend of that host is changed.
pub set_first : List ℕ → (Backend → Backend) → List Backend → List Backend × Bool
set_first host change [] = ([], false)
set_first host change (bp ∷ bps) =
    let rest = set_first host change bps in
    if same_bytes bp.host host then (change bp ∷ bps, true) else (bp ∷ rest.0, rest.1)

pub set_backend_down : List ℕ → Bool → List Backend → List Backend × Bool
set_backend_down host st = set_first host (λ bp. record bp { down = st })

pub set_backend_weight : List ℕ → ℤ → List Backend → List Backend × Bool
set_backend_weight host weight = set_first host (λ bp. record bp { weight = weight })

-- The test under which the loop passes a backend over.
pub skipped : Backend → Bool
skipped bp = bp.down || (ltb_ℤ bp.weight (pos 1) || bp.offline)

-- `best`: the position of the backend that the pointer names, and its `current`, which does not
-- change before the loop ends, since the loop visits each backend once.
abbrev pub Best : Type 0
Best = Option (ℕ × ℤ)

pub better : Best → ℕ → ℤ → Best
better none i current = some (i, current)
better (some (j, c)) i current = if ltb_ℤ c current then some (i, current) else some (j, c)

-- The loop's body at the backend in position `i`.
pub visit : ℕ → ℤ → Best → Backend → Backend × ℤ × Best
visit i total_w best bp =
    if skipped bp
    then (bp, total_w, best)
    else let current = bp.current +ℤ bp.weight in
      (record bp { current = current }, total_w +ℤ bp.weight, better best i current)

pub wrr_loop : ℕ → ℤ → Best → List Backend → List Backend × ℤ × Best
wrr_loop i total_w best [] = ([], total_w, best)
wrr_loop i total_w best (bp ∷ bps) =
    let (bp', total_w', best') = visit i total_w best bp in
    let rest = wrr_loop (suc i) total_w' best' bps in (bp' ∷ rest.0, rest.1, rest.2)

-- `best->current -= total_w; ++(best->counts);`
abbrev pub charge : ℤ → Backend → Backend
charge total_w best = record best {
  current = best.current -ℤ total_w;
  counts = (best.counts + 1) % 2 ^ 32;
}

pub charge_at : ℕ → ℤ → List Backend → List Backend
charge_at i total_w [] = []
charge_at zero total_w (bp ∷ bps) = charge total_w bp ∷ bps
charge_at (suc i) total_w (bp ∷ bps) = bp ∷ charge_at i total_w bps

pub charge_best : Best → ℤ → List Backend → List Backend × Option ℕ
charge_best none total_w bps = (bps, none)
charge_best (some (i, c)) total_w bps = (charge_at i total_w bps, some i)

-- The new list, and the position of the backend that is returned (none for the null pointer).
pub get_backend_by_smooth_wrr : List Backend → List Backend × Option ℕ
get_backend_by_smooth_wrr backend_list =
    let (bps, total_w, best) = wrr_loop 0 (pos 0) none backend_list in charge_best best total_w bps
