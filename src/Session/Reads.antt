-- ===== src/Session/Reads.antt =====
-- src/backend.cpp, `backend::on_read`, with what `evpoll::run` makes of its answer.
use niubix.Base.{ℕ, Bool, true, false, not, if◌then◌else◌}
use niubix.Session.{Session, back_pause_recv, back_on_close}
use niubix.Session.Inv.{IsValid, back_on_close-IsValid}
use niubix.Session.Events.{pauses-IsValid}

-- What `recv` gives: data, with whether some of it waits in the frontend's buffer behind its `send`; the end; or
-- nothing yet.
pub data Received : Type 0 where
  passed_on : Bool → Received
  ended nothing_yet : Received

pub back_received : Received → Session → Bool × Session
back_received (passed_on waits) s = (true, if waits then back_pause_recv s else s)
back_received ended s = (false, s)
back_received nothing_yet s = (true, s)

pub back_on_read : Received → Session → Bool × Session
back_on_read r s = if not s.back.frontend_conn then (false, s) else back_received r s

pub answered : Bool × Session → Session
answered (true, s) = s
answered (false, s) = back_on_close s

module _ (f b : ℕ) (s : Session) (v : IsValid f b s) where
  received-IsValid : (r : Received) → IsValid f b (answered (back_received r s))
  unfolding answered back_received
  received-IsValid (passed_on true) = (pauses-IsValid f b s v).1
  received-IsValid (passed_on false) = v
  received-IsValid ended = back_on_close-IsValid f b s v
  received-IsValid nothing_yet = v

  if_IsValid :
      (c : Bool) (x y : Bool × Session)
      → IsValid f b (answered x)
      → IsValid f b (answered y)
      → IsValid f b (answered (if c then x else y))
  if_IsValid true x y p q = p
  if_IsValid false x y p q = q

  -- Reading from a backend keeps a connection valid, whatever is received.
  pub back_on_read-IsValid : (r : Received) → IsValid f b (answered (back_on_read r s))
  unfolding back_on_read answered
  back_on_read-IsValid r =
      if_IsValid (not s.back.frontend_conn) (false, s) (back_received r s)
        (back_on_close-IsValid f b s v) (received-IsValid r)
