-- ===== src/Session/Open/Accept.antt =====
-- How the accepting of a connection ends.
use niubix.Base.{
  ℕ, ◌+◌, ◌≡◌, ◌≢◌, ◌⊎◌, refl, Bool, true, false, not, List, [], ◌∷◌, ◌++◌, Option, none, some, inl,
  inr, ap, Bool-cases, if◌then◌else◌, sym, subst,
}
use niubix.Base.Int.{ℤ}
use niubix.App.{get_backend_by_smooth_wrr}
use niubix.Config.Load.{Policy, AppConf, is_roundrobin}
use niubix.Connector.{Results, Owner, Outcome, connect}
use niubix.Connector.Setup.{
  OpensAtOnce, OpensInVain, Waits, Fails, Settles, opens, opens_in_vain, waits, fails,
  connect-Settles,
}
use niubix.Http.Replies.{HttpErr}
use niubix.Session.{
  FrontState, Task, Session, connecting, on_open, front_on_close, back_on_close, backend_close_call,
  backend_connect_ok, run_task, is_dangling,
}
use niubix.Session.Open.{
  Opening, respond, new_backend, called, delete_backend, connect_backend, chosen,
  to_connect_backend, connects, on_open_front, accepted,
}

rr_policy : (p : Policy) → is_roundrobin p ≡ true → p ≡ Policy.roundrobin
rr_policy Policy.roundrobin e = refl
rr_policy Policy.random e = cc e
rr_policy Policy.iphash e = cc e

other_policy : (p : Policy) → is_roundrobin p ≡ false → p ≢ Policy.roundrobin
other_policy p e = λ same. cc (e, same)

-- `on_open` of the backend succeeds if its descriptor is polled.
abbrev pub with_open : Results → Results
with_open r = record r { open_ok = r.add_ok }

module _ (f b ok fail : ℕ) where
  -- A connection that has been accepted, and one whose backend is being connected.
  abbrev pub arriving : Session
  arriving =
      let s = connecting f b ok fail in
      record s { front = record (s.front) { state = FrontState.new_ok; backend_conn = false } }

  abbrev begun : Session
  begun = connecting f b ok fail

  -- What `connect_backend` gives, by what the system calls return.
  abbrev Connects : Results → ℤ → Bool × Session → Type 0
  Connects r timeout c =
      (Waits (with_open r) timeout false × (c ≡ (true, begun)))
      ⊎ (OpensAtOnce (with_open r) timeout false × (c ≡ (true, on_open true begun)))
      ⊎ ((owner : Owner) × Fails (with_open r) timeout false owner
          × (c ≡ (false, delete_backend begun)))
      ⊎ (OpensInVain (with_open r) timeout false × (c ≡ (false, on_open false begun)))

  abbrev ended : Results → Outcome → Bool × Session
  ended r out =
      let s' = called r.add_ok out.calls begun in
      if not out.result then (false, delete_backend s') else (true, s')

  vain_kept : delete_backend (on_open false begun) ≡ on_open false begun
  unfolding delete_backend on_open back_on_close backend_close_call backend_connect_ok connecting
  vain_kept = refl

  vain_ended :
      (add_ok : Bool) → add_ok ≡ false → delete_backend (on_open add_ok begun) ≡ on_open false begun
  vain_ended true e = cc e
  vain_ended false e = vain_kept

  ended-Connects :
      (r : Results) (timeout : ℤ) (out : Outcome)
      → Settles (with_open r) timeout false out
      → Connects r timeout (ended r out)
  unfolding called
  ended-Connects r timeout out (waits h) = inl (h, refl)
  ended-Connects r timeout out (opens h) = inr (inl (h, ap (λ a. (true, on_open a begun)) h.2))
  ended-Connects r timeout out (fails {owner = w} h) = inr (inr (inl (w, h, refl)))
  ended-Connects r timeout out (opens_in_vain h) =
      inr (inr (inr (h, ap (λ s. (false, s)) (vain_ended r.add_ok h.2))))

  -- The connection is answered with 503 and deleted, without a task for it.
  abbrev Refused : List HttpErr → Opening → Type 0
  Refused replies o =
      (o.session.front.freed ≡ true)
      × (o.session.taskq ≡ [])
      × (o.replies ≡ replies ++ HttpErr.err_503 ∷ [])

  -- So too, but two tasks are left, of which the first is for the deleted object.
  abbrev Dangles : List HttpErr → Opening → Type 0
  Dangles replies o =
      (o.session.front.freed ≡ true)
      × (o.session.taskq ≡ Task.backend_conn_ok ∷ Task.backend_close ∷ [])
      × (o.replies ≡ replies ++ HttpErr.err_503 ∷ [])
      × ((flush : Option Bool) (add_ok : Bool)
          → run_task flush add_ok Task.backend_conn_ok (Task.backend_close ∷ []) o.session ≡ none)

  -- How the connection stands behind the round of the acceptor, when a backend was chosen.
  abbrev Reached : Results → ℤ → List HttpErr → Opening → Type 0
  Reached r timeout replies o =
      (Waits (with_open r) timeout false × (o.session ≡ begun) × (o.replies ≡ replies))
      ⊎ (OpensAtOnce (with_open r) timeout false
          × (o.session ≡ on_open true begun)
          × (o.replies ≡ replies))
      ⊎ ((owner : Owner) × Fails (with_open r) timeout false owner × Refused replies o)
      ⊎ (OpensInVain (with_open r) timeout false × Dangles replies o)

  abbrev round : Opening → Bool × Session → Opening
  round o c = accepted (connects (c.0, record o { session = c.1 }))

  -- What is counted for the app is not changed behind the choice.
  abbrev Counts : Opening → Opening → Type 0
  Counts o o' = (o'.accepted_num ≡ o.accepted_num) × (o'.backend_list ≡ o.backend_list)

  round-Reached :
      (r : Results) (timeout : ℤ) (o : Opening) (c : Bool × Session)
      → Connects r timeout c
      → Counts o (round o c) × Reached r timeout o.replies (round o c)
  unfolding accepted connects respond front_on_close delete_backend on_open back_on_close
      backend_close_call backend_connect_ok connecting run_task is_dangling
  round-Reached r timeout o c h =
      let By =
        λ (t : Bool × Session). Counts o (round o t) × Reached r timeout o.replies (round o t) in
      elim h [
        | inl (w, e) ↦ subst By (sym e) ((refl, refl), inl (w, refl, refl))
        | inr (inl (w, e)) ↦ subst By (sym e) ((refl, refl), inr (inl (w, refl, refl)))
        | inr (inr (inl (x, w, e))) ↦
            subst By (sym e) ((refl, refl), inr (inr (inl (x, w, (refl, refl, refl)))))
        | inr (inr (inr (w, e))) ↦
            subst By (sym e)
              ((refl, refl), inr (inr (inr (w, (refl, refl, refl, λ flush add_ok. refl)))))
      ]

  -- In `conn_ok`, without a backend.
  abbrev waiting : Session
  waiting = let s = arriving in record s { front = record (s.front) { state = FrontState.conn_ok } }

  abbrev refused : Opening → Opening
  refused o = accepted (connects (false, record o { session = waiting }))

  no_backend : (o : Opening) → Counts o (refused o) × Refused o.replies (refused o)
  unfolding accepted connects respond front_on_close connecting
  no_backend o = ((refl, refl), (refl, refl, refl))

  -- By what the choice gives.
  abbrev Chosen : Results → ℤ → Option ℕ → List HttpErr → Opening → Type 0
  Chosen r timeout best replies o =
      ((best ≡ none) × Refused replies o)
      ⊎ ((i : ℕ) × (best ≡ some i) × Reached r timeout replies o)

  choice-Chosen :
      (r : Results) (timeout : ℤ) (best : Option ℕ) (o : Opening)
      → let o' = accepted (connects (chosen r timeout best (record o { session = waiting }))) in
        Counts o o' × Chosen r timeout best o.replies o'
  unfolding chosen connect_backend new_backend connecting
  choice-Chosen r timeout none o = let (counts, r) = no_backend o in (counts, inl (refl, r))
  choice-Chosen r timeout (some i) o =
      let out = connect (with_open r) timeout false in
      let settled = (connect-Settles (with_open r) timeout false).0 in
      let (counts, reached) =
        round-Reached r timeout o (ended r out) (ended-Connects r timeout out settled) in
      (counts, inr (i, refl, reached))

  -- The whole: the connection is counted, and by the app's policy a backend is chosen or not.
  abbrev pub Accepted : Results → AppConf → Opening → Opening → Type 0
  Accepted r cf o o' =
      let best = get_backend_by_smooth_wrr o.backend_list in
      (o'.accepted_num ≡ o.accepted_num + 1)
      × (((cf.balance_policy ≢ Policy.roundrobin)
            × (o'.backend_list ≡ o.backend_list)
            × Refused o.replies o')
          ⊎ ((cf.balance_policy ≡ Policy.roundrobin)
              × (o'.backend_list ≡ best.0)
              × Chosen r cf.connect_backend_timeout best.1 o.replies o'))

  to_connect_backend-Accepted :
      (r : Results) (cf : AppConf) (o : Opening)
      → Accepted r cf o
          (accepted (connects (to_connect_backend r cf (record o { session = waiting }))))
  unfolding to_connect_backend
  to_connect_backend-Accepted r cf o =
      let best = get_backend_by_smooth_wrr o.backend_list in
      let o' = record o { accepted_num = o.accepted_num + 1 } in
      elim (Bool-cases (is_roundrobin cf.balance_policy)) [
        | inl e ↦
            let (counts, c) =
              choice-Chosen r cf.connect_backend_timeout best.1
                (record o' { backend_list = best.0 }) in
            rw e (counts.0, inr (rr_policy cf.balance_policy e, counts.1, c))
        | inr e ↦
            let (counts, c) = no_backend o' in
            rw e (counts.0, inl (other_policy cf.balance_policy e, counts.1, c))
      ]

  -- An accepted connection of a port with one app, by the policy of the app and by what the system calls return:
  -- without the policy `roundrobin`, or if no backend is chosen, or if the connect fails at once, it gets the
  -- reply 503 and is deleted without a task; if the connect to the chosen backend goes on, or is made at once,
  -- it stays; and if the backend is connected at once and cannot be polled, it gets the reply 503 and is
  -- deleted with two tasks for it left, of which the first runs on the deleted object.
  pub on_open_front-Accepted :
      (add_ok : Bool) (r : Results) (cf : AppConf) (o : Opening)
      → o.session ≡ arriving
      → Accepted r cf o (accepted (on_open_front true add_ok r (cf ∷ []) o))
  unfolding on_open_front
  on_open_front-Accepted add_ok r cf o e =
      subst
        (λ s. Accepted r cf o (
          accepted (
            connects (
              to_connect_backend r cf (record o {
                session = record s { front = record (s.front) { state = FrontState.conn_ok } };
              })))))
        (sym e) (to_connect_backend-Accepted r cf o)
