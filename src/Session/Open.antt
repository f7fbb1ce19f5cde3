-- ===== src/Session/Open.antt =====
-- src/http_frontend.cpp: `http_frontend::on_open` and `to_connect_backend`, by which an accepted connection
-- gets its backend, and the end of the round of `acceptor::on_read` (src/acceptor.cpp).
pub mod Accept
use niubix.Base.{
  ℕ, ◌+◌, Bool, true, false, not, List, [], ◌∷◌, ◌++◌, Option, none, some, if◌then◌else◌,
}
use niubix.Base.Int.{ℤ}
use niubix.App.{Backend, get_backend_by_smooth_wrr}
use niubix.Config.Load.{AppConf, is_roundrobin}
use niubix.Connector.{Call, opened, Results, Outcome, connect}
use niubix.Http.Replies.{HttpErr}
use niubix.Session.{FrontState, Session, front_on_close, on_open, connecting}

-- The connection with what it changes elsewhere: the number of connections that its app has accepted, the
-- backends of the app, and the replies that it has sent. `is_polled`: it is in the poller.
pub record Opening : Type 0 where
  pub session : Session
  pub accepted_num : ℕ
  pub backend_list : List Backend
  pub replies : List HttpErr
  pub is_polled : Bool

-- `response_err_and_close`.
pub respond : HttpErr → Opening → Bool × Opening
respond err o = (false, record o { replies = o.replies ++ err ∷ [] })

-- `new backend`, for a frontend in `conn_ok`.
pub new_backend : Session → Session
new_backend s =
    connecting s.frontend_active_n s.backend_active_n s.backend_conn_ok_n s.backend_conn_fail_n

-- The calls that the connector makes at once; `on_open` has the call of `on_close` in it.
pub called : Bool → List Call → Session → Session
called add_ok [] s = s
called add_ok (Call.opened ∷ calls) s = called add_ok calls (on_open add_ok s)
called add_ok (_ ∷ calls) s = called add_ok calls s

-- `delete this->backend_conn`, which is null if the backend has told of its end.
pub delete_backend : Session → Session
delete_backend s =
    if s.front.backend_conn
    then record s {
      front = record (s.front) { backend_conn = false };
      back = record (s.back) { freed = true };
    }
    else s

-- The part of `to_connect_backend` behind the choice. `add_ok` of the results is also what `add_ev` gives to
-- `backend::on_open`.
pub connect_backend : Results → ℤ → Session → Bool × Session
connect_backend r timeout s =
    let out = connect (record r { open_ok = r.add_ok }) timeout false in
    let s' = called r.add_ok out.calls (new_backend s) in
    if not out.result then (false, delete_backend s') else (true, s')

pub chosen : Results → ℤ → Option ℕ → Opening → Bool × Opening
chosen r timeout none o = (false, o)
chosen r timeout (some i) o =
    let c = connect_backend r timeout o.session in (c.0, record o { session = c.1 })

pub to_connect_backend : Results → AppConf → Opening → Bool × Opening
to_connect_backend r cf o =
    let o' = record o { accepted_num = o.accepted_num + 1 } in
    let best = get_backend_by_smooth_wrr o.backend_list in
    if is_roundrobin cf.balance_policy
    then chosen r cf.connect_backend_timeout best.1 (record o' { backend_list = best.0 })
    else (false, o')

-- An answer of -1 is a reply 503.
pub connects : Bool × Opening → Bool × Opening
connects (true, o) = (true, o)
connects (false, o) = respond HttpErr.err_503 o

-- `apps` are those of the port, none for a port that is not in the map; the Booleans are the results of
-- `get_local_addr` and `add_ev`.
pub on_open_front : Bool → Bool → Results → List AppConf → Opening → Bool × Opening
on_open_front local_addr_ok add_ok r apps o =
    let s = record (o.session) {
      front = record (o.session.front) { state = FrontState.conn_ok };
    } in
    let o' = record o { session = s } in
    if not local_addr_ok then respond HttpErr.err_500 o' else elim apps as (λ _. Bool × Opening) [
      | [] ↦ respond HttpErr.err_503 o'
      | cf ∷ others ↦ elim others as (λ _. Bool × Opening) [
        | [] ↦ connects (to_connect_backend r cf o')
        | cf' ∷ cfs ↦
            if not add_ok
            then respond HttpErr.err_500 o'
            else (true, record o' { is_polled = true })
      ]
    ]

-- `if (eh->on_open() == false) eh->on_close();`
pub accepted : Bool × Opening → Opening
accepted (true, o) = o
accepted (false, o) = record o { session = front_on_close o.session }
