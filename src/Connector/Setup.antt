-- ===== src/Connector/Setup.antt =====
-- What `connector::connect` leaves behind.
use niubix.Base.{
  ℕ, ◌≡◌, ◌⊎◌, ◌+◌, refl, sym, subst, Bool, true, false, not, ◌&&◌, List, [], ◌∷◌, if◌then◌else◌,
  inl, inr, Bool-cases,
}
use niubix.Base.Int.{ℤ, pos, ltb_ℤ}
use niubix.Connector.{
  Call, fd_set, opened, closed, Connects, at_once, in_progress, refused, Results, Owner, no_fd,
  closed_fd, eh_fd, pending_fd, Outcome, nblock_connect, connected, connect,
}

module _ (r : Results) (timeout : ℤ) (sets_rcvbuf : Bool) where
  -- The descriptor is there, with its options.
  abbrev pub IsMade : Type 0
  IsMade = (r.socket_ok ≡ true) × ((sets_rcvbuf && not r.rcvbuf_ok) ≡ false)

  -- A connect that the kernel finishes at once, and whose handler opens or refuses to.
  abbrev pub OpensAtOnce : Type 0
  OpensAtOnce = IsMade × (r.connects ≡ at_once) × (r.open_ok ≡ true)

  abbrev pub OpensInVain : Type 0
  OpensInVain = IsMade × (r.connects ≡ at_once) × (r.open_ok ≡ false)

  -- A connect that goes on in the poller, which needs a timeout of at least 1.
  abbrev pub Waits : Type 0
  Waits = IsMade × (r.connects ≡ in_progress) × (ltb_ℤ timeout (pos 1) ≡ false) × (r.add_ok ≡ true)

  -- What makes a connect fail without a call of the handler, and whether a descriptor was there.
  pub data Fails : Owner → Type 0 where
    no_socket : r.socket_ok ≡ false → Fails no_fd
    no_rcvbuf : r.socket_ok ≡ true → (sets_rcvbuf && not r.rcvbuf_ok) ≡ true → Fails closed_fd
    no_peer : IsMade → r.connects ≡ refused → Fails closed_fd
    no_time : IsMade → r.connects ≡ in_progress → ltb_ℤ timeout (pos 1) ≡ true → Fails closed_fd
    not_polled :
        IsMade
        → r.connects ≡ in_progress
        → ltb_ℤ timeout (pos 1) ≡ false
        → r.add_ok ≡ false
        → Fails closed_fd

  -- The outcome, by what the system calls and the handler return.
  pub data Settles : Outcome → Type 0 where
    opens :
        OpensAtOnce
        → Settles (record { result = true; calls = fd_set ∷ opened ∷ []; owner = eh_fd })
    opens_in_vain :
        OpensInVain
        → Settles (record { result = false; calls = fd_set ∷ opened ∷ closed ∷ []; owner = eh_fd })
    waits : Waits → Settles (record { result = true; calls = []; owner = pending_fd })
    fails :
        {owner : Owner}
        → Fails owner
        → Settles (record { result = false; calls = []; owner = owner })

-- How often the handler is deleted: by its own `on_close`, and, after a failure, by a caller that still has
-- its pointer, as `http_health_check::on_timeout` of src/health_check.cpp.
pub closes : List Call → ℕ
closes [] = 0
closes (Call.closed ∷ calls) = 1 + closes calls
closes (_ ∷ calls) = closes calls

pub deletions : Outcome → ℕ
deletions o = closes o.calls + (if o.result then 0 else 1)

-- After a success, after a failure with no call, and after an opening in vain.
abbrev pub Deletes : Results → ℤ → Bool → Outcome → Type 0
Deletes r timeout sets_rcvbuf o =
    ((o.result ≡ true) × (deletions o ≡ 0))
    ⊎ ((o.result ≡ false) × (o.calls ≡ []) × (deletions o ≡ 1))
    ⊎ ((o.result ≡ false) × OpensInVain r timeout sets_rcvbuf × (deletions o ≡ 2))

abbrev pub Told : Results → ℤ → Bool → Outcome → Type 0
Told r timeout sets_rcvbuf o = Settles r timeout sets_rcvbuf o × Deletes r timeout sets_rcvbuf o

module _ (r : Results) (timeout : ℤ) (sets_rcvbuf : Bool) where
  Settles-Deletes :
      (o : Outcome) → Settles r timeout sets_rcvbuf o → Deletes r timeout sets_rcvbuf o
  unfolding deletions closes
  Settles-Deletes o (opens h) = inl (refl, refl)
  Settles-Deletes o (opens_in_vain h) = inr (inr (refl, h, refl))
  Settles-Deletes o (waits h) = inl (refl, refl)
  Settles-Deletes o (fails h) = inr (inl (refl, refl, refl))

  connected-Settles :
      (c : Connects)
      → r.connects ≡ c
      → IsMade r timeout sets_rcvbuf
      → Settles r timeout sets_rcvbuf (connected r timeout c)
  unfolding connected nblock_connect
  connected-Settles at_once e m = elim (Bool-cases r.open_ok) [
    | inl o ↦ simp o (opens (m, e, o))
    | inr o ↦ simp o (opens_in_vain (m, e, o))
  ]
  connected-Settles in_progress e m = elim (Bool-cases (ltb_ℤ timeout (pos 1))) [
    | inl t ↦ simp t (fails (no_time m e t))
    | inr t ↦ elim (Bool-cases r.add_ok) [
      | inl a ↦ simp (t, a) (waits (m, e, t, a))
      | inr a ↦ simp (t, a) (fails (not_polled m e t a))
    ]
  ]
  connected-Settles refused e m = fails (no_peer m e)

  connect-connected :
      IsMade r timeout sets_rcvbuf → connect r timeout sets_rcvbuf ≡ connected r timeout r.connects
  unfolding connect
  connect-connected (s, v) = simp (s, v) refl

  made-Settles :
      IsMade r timeout sets_rcvbuf → Settles r timeout sets_rcvbuf (connect r timeout sets_rcvbuf)
  made-Settles m =
      subst (Settles r timeout sets_rcvbuf) (sym (connect-connected m))
        (connected-Settles r.connects refl m)

  any-Settles : Settles r timeout sets_rcvbuf (connect r timeout sets_rcvbuf)
  unfolding connect
  any-Settles = elim (Bool-cases r.socket_ok) [
    | inr s ↦ simp s (fails (no_socket s))
    | inl s ↦ elim (Bool-cases (sets_rcvbuf && not r.rcvbuf_ok)) [
      | inl v ↦ simp (s, v) (fails (no_rcvbuf s v))
      | inr v ↦ made-Settles (s, v)
    ]
  ]

-- What `connect` ends in is settled by what the system calls and the handler return: the descriptor is open
-- in the handler; or the connect goes on in the poller; or, for one of five reasons, it failed without a call
-- of the handler, and the descriptor, if there was one, is closed; or the handler was opened in vain and
-- closed. In the last case, and only there, a caller that deletes the handler after a failure deletes it a
-- second time.
pub connect-Settles :
    (r : Results) (timeout : ℤ) (sets_rcvbuf : Bool)
    → Told r timeout sets_rcvbuf (connect r timeout sets_rcvbuf)
connect-Settles r timeout sets_rcvbuf =
    let settled = any-Settles r timeout sets_rcvbuf in
    (settled, Settles-Deletes r timeout sets_rcvbuf _ settled)
