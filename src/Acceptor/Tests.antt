-- ===== src/Acceptor/Tests.antt =====
-- An acceptor that is opened, and one that runs out of descriptors.
use niubix.Base.{◌≡◌, refl, true, false, List, [], ◌∷◌, inl, codes}
use niubix.Base.Int.{pos}
use niubix.Acceptor.{
  Acceptor, Settings, Results, open_acceptor, Event, readable, expiry, connection, no_files, run,
  handle, on_read, on_timeout, accept_loop, paused,
}
use niubix.Acceptor.Setup.{Opens, open_acceptor-Opens}
use niubix.Acceptor.Hears.{IsListening, run-IsListening}

abbrev new : Acceptor
new = record {
  port = pos 0;
  has_fd = false;
  polled = false;
  has_timer = false;
  open_fds = 0;
  connections = 0;
  refused = 0;
}

abbrev settings : Settings
settings = record { sets_rcvbuf = false; reuse_addr = true; reuse_port = true }

-- `bind` fails.
abbrev in_use : Results
in_use = record {
  socket_ok = true;
  rcvbuf_ok = true;
  reuse_addr_ok = true;
  reuse_port_ok = true;
  bind_ok = false;
  listen_ok = true;
  add_ok = true;
}

open_acceptor-Opens_example : Opens 0 (open_acceptor (codes ":8080") settings in_use new)
open_acceptor-Opens_example =
    open_acceptor-Opens 0 (codes ":8080") settings in_use new
      (record { no_fd = refl; unpolled = refl; fds = refl })

abbrev listening : Acceptor
listening = record new { port = pos 8080; has_fd = true; polled = true; open_fds = 1 }

abbrev events : List Event
events =
    readable (connection true ∷ no_files true ∷ [])
    ∷ expiry true
    ∷ readable (connection true ∷ [])
    ∷ []

two_accepted : run events listening ≡ record listening { connections = 2 }
unfolding run handle on_read on_timeout accept_loop paused
two_accepted = refl

run-IsListening_example : IsListening (run events listening)
run-IsListening_example = run-IsListening events listening (refl, tt) (refl, inl refl)
