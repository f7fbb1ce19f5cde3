-- ===== src/Start/Opened.antt =====
-- What is running when `run_all` succeeds.
use niubix.Base.{ℕ, suc, ◌+◌, ◌<◌, ◌≡◌, Bool, true, not, List, [], ◌∷◌, ◌++◌, if◌then◌else◌, length}
use niubix.Base.Int.{pos}
use niubix.Config.Load.{Protocol, BackendConf, AppConf}
use niubix.Acceptor.{Acceptor}
use niubix.Start.{Start, all_checked}

-- Every acceptor is in the poller, with its one descriptor.
abbrev pub AllOpen : List Acceptor → Type 0
AllOpen [] = Unit {0}
AllOpen (l ∷ ls) = ((l.has_fd ≡ true) × (l.polled ≡ true) × (l.open_fds ≡ 1)) × AllOpen ls

-- If the step succeeds, `n` more acceptors are open.
abbrev More : ℕ → Start → Bool × Start → Type 0
More n s o =
    o.0 ≡ true
    → AllOpen s.acceptors
    → AllOpen o.1.acceptors × (length o.1.acceptors ≡ n + length s.acceptors)

-- A check is asked for: the period is at least 1, the backends speak HTTP, and there is a path.
pub record AsksFor (protocol : Protocol) (ab : BackendConf) : Type 0 where
  pub regular : (n : ℕ) × (ab.health_check_period ≡ pos (suc n))
  pub http : protocol ≡ Protocol.http_protocol
  pub uri : 0 < length ab.health_check_uri

-- Every backend of every app, with the protocol of the app.
abbrev pub with_protocol : Protocol → List BackendConf → List (Protocol × BackendConf)
with_protocol protocol [] = []
with_protocol protocol (ab ∷ abs) = (protocol, ab) ∷ with_protocol protocol abs

abbrev pub offered : List AppConf → List (Protocol × BackendConf)
offered [] = []
offered (ap ∷ aps) = with_protocol ap.backend_protocol ap.backend_list ++ offered aps

-- The backends that ask for a check, each of the others left out.
pub data Selects : List (Protocol × BackendConf) → List BackendConf → Type 0 where
  none_left : Selects [] []
  asked :
      {protocol : Protocol} {ab : BackendConf} {all : List (Protocol × BackendConf)}
      {found : List BackendConf}
      → AsksFor protocol ab
      → Selects all found
      → Selects ((protocol, ab) ∷ all) (ab ∷ found)
  left_out :
      {protocol : Protocol} {ab : BackendConf} {all : List (Protocol × BackendConf)}
      {found : List BackendConf}
      → ¬ AsksFor protocol ab
      → Selects all found
      → Selects ((protocol, ab) ∷ all) found

-- What `run_all` makes of the result of the loops.
abbrev scheduled : List AppConf → Bool × Start → Bool × Start
scheduled alls o = if not o.0 then o else (true, record (o.1) { checks = all_checked alls })
