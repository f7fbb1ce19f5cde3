-- ===== src/Acceptor/Hears.antt =====
-- An acceptor does not go deaf.
use niubix.Base.{
  ℕ, zero, suc, ◌+◌, ◌≤◌, ◌≡◌, ◌⊎◌, refl, Bool, true, false, List, [], ◌∷◌, if◌then◌else◌, inl, inr,
}
use niubix.Acceptor.{
  Acceptor, Accept, connection, no_handler, interrupted, no_files, failed, paused, accept_loop,
  most_accepts, on_read, on_timeout, Event, readable, expiry, closing, handle, run,
}
use native.Mathlib.Omega.{arith}

-- It is in the poller, or its timer will put it there.
abbrev pub Hears : Acceptor → Type 0
Hears l = (l.polled ≡ true) ⊎ (l.has_timer ≡ true)

-- Open, and not deaf.
abbrev pub IsListening : Acceptor → Type 0
IsListening l = (l.has_fd ≡ true) × Hears l

-- No `close` task, and `add_ev` puts it back.
abbrev pub Calm : List Event → Type 0
Calm [] = Unit {0}
Calm (readable results ∷ es) = Calm es
Calm (expiry add_ok ∷ es) = (add_ok ≡ true) × Calm es
Calm (closing ∷ es) = ⊥

-- The loop accepts at most as many connections as it has rounds, and leaves it listening.
record Served (k : ℕ) (l l' : Acceptor) : Type 0 where
  listening : IsListening l'
  most : l'.connections + l'.refused ≤ k + (l.connections + l.refused)

paused-Served :
    (k : ℕ) (timer_ok : Bool) (l : Acceptor) → IsListening l → Served k l (paused timer_ok l)
unfolding paused
paused-Served k true l (f, h) = record { listening = (f, inr refl); most = omega arith }
paused-Served k false l h = record { listening = h; most = omega arith }

one_more :
    (k : ℕ) (l l1 l' : Acceptor)
    → l1.connections + l1.refused ≤ suc (l.connections + l.refused)
    → Served k l1 l'
    → Served (suc k) l l'
one_more k l l1 l' h s = record { listening = s.listening; most = omega (arith, h, s.most) }

accept_loop-Served :
    (k : ℕ) (rs : List Accept) (l : Acceptor) → IsListening l → Served k l (accept_loop k rs l)
unfolding accept_loop
accept_loop-Served zero rs l h = record { listening = h; most = omega arith }
accept_loop-Served (suc k) [] l h = record { listening = h; most = omega arith }
accept_loop-Served (suc k) (connection true ∷ rs) l h =
    let l1 = record l { connections = l.connections + 1 } in
    one_more k l l1 _ (omega arith) (accept_loop-Served k rs l1 h)
accept_loop-Served (suc k) (connection false ∷ rs) l h =
    let l1 = record l { refused = l.refused + 1 } in
    one_more k l l1 _ (omega arith) (accept_loop-Served k rs l1 h)
accept_loop-Served (suc k) (no_handler ∷ rs) l h = record { listening = h; most = omega arith }
accept_loop-Served (suc k) (interrupted ∷ rs) l h =
    one_more k l l _ (omega arith) (accept_loop-Served k rs l h)
accept_loop-Served (suc k) (no_files timer_ok ∷ rs) l h = paused-Served (suc k) timer_ok l h
accept_loop-Served (suc k) (failed ∷ rs) l h = record { listening = h; most = omega arith }

expired-IsListening :
    (l : Acceptor)
    → l.has_fd ≡ true
    → IsListening (on_timeout true (record l { has_timer = false }))
unfolding on_timeout
expired-IsListening l f = simp f (refl, inl refl)

if_both :
    (c : Bool) (x y : Acceptor) → IsListening x → IsListening y → IsListening (if c then x else y)
if_both true x y a b = a
if_both false x y a b = b

handle-IsListening :
    (e : Event) (l : Acceptor) → Calm (e ∷ []) → IsListening l → IsListening (handle e l)
unfolding handle on_read
handle-IsListening (readable rs) l c h =
    if_both l.polled (accept_loop most_accepts rs l) l
      (accept_loop-Served most_accepts rs l h).listening h
handle-IsListening (expiry true) l c (f, h) =
    if_both l.has_timer (on_timeout true (record l { has_timer = false })) l
      (expired-IsListening l f) (f, h)
handle-IsListening (expiry false) l c h = absurd (ground (arith, c.0))
handle-IsListening closing l c h = absurd c

-- Whatever is accepted, and however often the process is out of descriptors, an open acceptor that is not closed
-- stays in the poller or has a timer that puts it back, if `add_ev` never fails when the timer expires.
pub run-IsListening :
    (es : List Event) (l : Acceptor) → Calm es → IsListening l → IsListening (run es l)
unfolding run
run-IsListening [] l c h = h
run-IsListening (readable rs ∷ es) l c h =
    run-IsListening es _ c (handle-IsListening (readable rs) l tt h)
run-IsListening (expiry add_ok ∷ es) l (a, c) h =
    run-IsListening es _ c (handle-IsListening (expiry add_ok) l (a, tt) h)
run-IsListening (closing ∷ es) l c h = absurd c

-- One call of `on_read` takes at most 64 connections.
pub on_read-bound :
    (rs : List Accept) (l : Acceptor)
    → IsListening l
    → (on_read rs l).connections + (on_read rs l).refused ≤ 64 + (l.connections + l.refused)
unfolding on_read
on_read-bound rs l h = (accept_loop-Served most_accepts rs l h).most
