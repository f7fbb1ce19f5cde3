-- ===== src/Connector/Tests.antt =====
-- A connect that is accepted, and one whose handler refuses to open.
use niubix.Base.{true, false, [], ◌∷◌}
use niubix.Base.Int.{pos}
use niubix.Connector.{Event, ready, timer, run, waiting, at_once, Results, connect}
use niubix.Connector.Once.{Ends, run-IsOver}
use niubix.Connector.Setup.{Told, connect-Settles}

abbrev writable : Event
writable = ready (record { hup = false; out = true; input = true })

run-IsOver_example : Ends true (run true (writable ∷ timer ∷ writable ∷ []) waiting)
run-IsOver_example = run-IsOver true (writable ∷ timer ∷ writable ∷ [])

abbrev in_vain : Results
in_vain = record {
  socket_ok = true;
  rcvbuf_ok = true;
  connects = at_once;
  add_ok = true;
  open_ok = false;
}

connect-Settles_example : Told in_vain (pos 2000) false (connect in_vain (pos 2000) false)
connect-Settles_example = connect-Settles in_vain (pos 2000) false
