-- ===== src/Start.antt =====
-- src/app.cpp, `app::run_all`: the acceptors of every worker and the health checks are started.
pub mod Opened
mod Tests
use niubix.Base.{
  ℕ, zero, suc, ◌+◌, Bool, true, false, not, ◌&&◌, ◌||◌, List, [], ◌∷◌, ◌++◌, if◌then◌else◌, length,
  ltb,
}
use niubix.Base.Int.{ℤ, pos, ltb_ℤ}
use niubix.Config.Load.{is_http, Protocol, BackendConf, AppConf}
use niubix.Acceptor.{Acceptor, Settings, Results, open_acceptor}

-- The acceptors that were made, each with what `open` left, and the backends for which a check is scheduled.
-- The results of the system calls are those of the `n`-th `open`.
pub record Start : Type 0 where
  pub acceptors : List Acceptor
  pub checks : List BackendConf

abbrev pub new_acceptor : Acceptor
new_acceptor = record {
  port = pos 0;
  has_fd = false;
  polled = false;
  has_timer = false;
  open_fds = 0;
  connections = 0;
  refused = 0;
}

module _ (cf : Settings) (results : ℕ → Results) where
  -- The inner body, for one address and one worker.
  pub open_one : List ℕ × Protocol → Start → Bool × Start
  open_one (addr, protocol) s =
      let o = open_acceptor addr cf (results (length s.acceptors)) new_acceptor in
      if is_http protocol
      then (o.0, record s { acceptors = s.acceptors ++ o.1 ∷ [] })
      else (false, s)

  -- The loop over the workers, and that over the addresses; a failure ends both.
  pub open_workers : ℕ → List ℕ × Protocol → Start → Bool × Start
  open_workers zero kv s = (true, s)
  open_workers (suc k) kv s =
      let o = open_one kv s in let rest = open_workers k kv o.1 in if not o.0 then o else rest

  pub open_all : ℕ → List (List ℕ × Protocol) → Start → Bool × Start
  open_all workers [] s = (true, s)
  open_all workers (kv ∷ listen_set) s =
      let o = open_workers workers kv s in
      let rest = open_all workers listen_set o.1 in if not o.0 then o else rest

-- The backends of an app that are checked.
pub checked : Protocol → List BackendConf → List BackendConf
checked protocol [] = []
checked protocol (ab ∷ abs) =
    let rest = checked protocol abs in
    if ltb_ℤ ab.health_check_period (pos 1)
    then rest
    else if is_http protocol && ltb 0 (length ab.health_check_uri)
    then ab ∷ rest
    else rest

pub all_checked : List AppConf → List BackendConf
all_checked [] = []
all_checked (ap ∷ aps) = checked ap.backend_protocol ap.backend_list ++ all_checked aps

pub run_all : Settings → (ℕ → Results) → ℕ → List (List ℕ × Protocol) → List AppConf → Bool × Start
run_all cf results workers listen_set alls =
    let o = open_all cf results workers listen_set (record { acceptors = []; checks = [] }) in
    if not o.0 then o else (true, record (o.1) { checks = all_checked alls })
