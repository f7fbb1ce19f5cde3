-- ===== src/Evpoll/Dispatch.antt =====
-- One ready event in `evpoll::run` of src/evpoll.cpp. The handlers are parameters: `on_write` and
-- `on_read` answer false to be closed, and may change the poller as well as the rest `W` of the process.
use niubix.Base.{
  ℕ, ◌==◌, ◌<◌, ◌≡◌, ◌⊎◌, refl, ap, Bool, true, false, Option, none, some, if◌then◌else◌,
  Bool-cases, inl, inr, lt→ltb,
}
use niubix.Base.Int.{ℤ, pos, negsuc}
use niubix.Evpoll.{Epoll, PollDesc, Evpoll, ev_all, del, remove, remove_all}
use native.Mathlib.Omega.{arith}

-- `kept`: the event is dealt with. `closing`: `on_close` of the handler is called in that state, as the
-- last thing for the event. `null_call`: a method of a null handler is called.
pub data Dispatched (S : Type 0) : Type 0 where
  kept : S → Dispatched S
  closing : ℕ → S → Dispatched S
  null_call : Dispatched S

-- The bits of `epoll_event::events`: EPOLLHUP or EPOLLERR, EPOLLOUT, and EPOLLIN or EPOLLRDHUP.
pub record Ready : Type 0 where
  pub hup : Bool
  pub out : Bool
  pub input : Bool

-- `pd->fd`.
abbrev pub fd_of : PollDesc → ℤ
fd_of d = elim d.fd as (λ _. ℤ) [ none ↦ negsuc 0 | some fd ↦ pos fd ]

module _ {K W : Type 0} (os : Epoll K) where
  module _ (on_write on_read : ℕ → W × Evpoll K → Bool × (W × Evpoll K)) where
    -- `eh = pd->eh`, the removal, and `eh->on_close`, for the handler of the entry.
    unfoldable pub close_handler : Option ℕ → ℕ → W × Evpoll K → Dispatched (W × Evpoll K)
    close_handler none fd s = null_call
    close_handler (some eh) fd (w, p) = closing eh (w, (remove os (fd_of (p.arr fd)) ev_all p).1)

    -- A call of a handler: `next` is what follows when it answers true.
    unfoldable pub call_handler :
        (ℕ → W × Evpoll K → Bool × (W × Evpoll K))
        → (W × Evpoll K → Dispatched (W × Evpoll K))
        → Option ℕ
        → ℕ
        → W × Evpoll K
        → Dispatched (W × Evpoll K)
    call_handler call next none fd s = kept s
    call_handler call next (some eh) fd s =
        let (ok, s') = call eh s in if ok then next s' else close_handler (s'.1.arr fd).eh fd s'

    unfoldable pub dispatch_hup : Option ℕ → ℕ → W × Evpoll K → Dispatched (W × Evpoll K)
    dispatch_hup none fd s = kept s
    dispatch_hup (some eh) fd s = close_handler (some eh) fd s

    unfoldable pub dispatch_read : ℕ → Ready → W × Evpoll K → Dispatched (W × Evpoll K)
    dispatch_read fd r s =
        if r.input then call_handler on_read kept (s.1.arr fd).eh fd s else kept s

    unfoldable pub dispatch : ℕ → Ready → W × Evpoll K → Dispatched (W × Evpoll K)
    dispatch fd r s =
        if r.hup
        then dispatch_hup (s.1.arr fd).eh fd s
        else if r.out
        then call_handler on_write (dispatch_read fd r) (s.1.arr fd).eh fd s
        else dispatch_read fd r s

    module _ (fd : ℕ) where
      -- A descriptor with a handler stands in its own entry of the table.
      abbrev pub IsOwn : W × Evpoll K → Type 0
      IsOwn s = (fd < s.1.arr_size) × (((s.1.arr fd).eh ≡ none) ⊎ ((s.1.arr fd).fd ≡ some fd))

      -- What is asked of a handler: it keeps that. It may take itself out of the table.
      abbrev pub KeepsOwn : (ℕ → W × Evpoll K → Bool × (W × Evpoll K)) → Type 0
      KeepsOwn call = (eh : ℕ) (s : W × Evpoll K) → IsOwn s → IsOwn (call eh s).1

      abbrev pub entry : W × Evpoll K → Option ℕ
      entry s = (s.1.arr fd).eh

      pub removed :
          (p : Evpoll K)
          → fd < p.arr_size
          → let p' = (remove os (pos fd) ev_all p).1 in
            ((p'.arr fd).eh ≡ none) × (os.interest p'.kernel fd ≡ none)
      unfolding remove remove_all del
      removed p l =
          let same : (fd == fd) ≡ true = ground arith in
          simp (lt→ltb fd p.arr_size l, same) (refl, os.del_clears fd ev_all p.kernel)

      pub size_kept : (p : Evpoll K) → (remove os (pos fd) ev_all p).1.arr_size ≡ p.arr_size
      unfolding remove remove_all del
      size_kept p = ground arith

      module _ (r : Ready) (s : W × Evpoll K) where
        -- The state in which reads are looked at: `on_write` was not asked for, or has answered true.
        pub data Written : W × Evpoll K → Type 0 where
          not_asked : r.out ≡ false → Written s
          goes_on :
              {eh : ℕ} {s1 : W × Evpoll K}
              → r.out ≡ true
              → entry s ≡ some eh
              → on_write eh s ≡ (true, s1)
              → Written s1

        -- A handler has answered false, and left this state.
        pub data Refuses : W × Evpoll K → Type 0 where
          by_write :
              {eh : ℕ} {s2 : W × Evpoll K}
              → r.out ≡ true
              → entry s ≡ some eh
              → on_write eh s ≡ (false, s2)
              → Refuses s2
          by_read :
              {eh : ℕ} {s1 s2 : W × Evpoll K}
              → Written s1
              → r.input ≡ true
              → entry s1 ≡ some eh
              → on_read eh s1 ≡ (false, s2)
              → Refuses s2

        -- No handler has answered false: this state is left by the calls that were made.
        pub data Passes : W × Evpoll K → Type 0 where
          no_writer : r.out ≡ true → entry s ≡ none → Passes s
          no_input : {s1 : W × Evpoll K} → Written s1 → r.input ≡ false → Passes s1
          no_reader :
              {s1 : W × Evpoll K} → Written s1 → r.input ≡ true → entry s1 ≡ none → Passes s1
          has_read :
              {eh : ℕ} {s1 s2 : W × Evpoll K}
              → Written s1
              → r.input ≡ true
              → entry s1 ≡ some eh
              → on_read eh s1 ≡ (true, s2)
              → Passes s2

        -- `s2` is the state in which the handler of the entry is to be closed.
        abbrev pub Closes : W × Evpoll K → Type 0
        Closes s2 = ((r.hup ≡ true) × (s2 ≡ s)) ⊎ ((r.hup ≡ false) × Refuses s2)

        abbrev pub Ends : Dispatched (W × Evpoll K) → Type 0
        Ends d = elim d as (λ _. Type 0) [
          | kept s' ↦ ((r.hup ≡ true) × (entry s ≡ none) × (s' ≡ s)) ⊎ ((r.hup ≡ false) × Passes s')
          | closing eh s' ↦
              (s2 : W × Evpoll K) × Closes s2
              × (entry s2 ≡ some eh)
              × (s' ≡ (s2.0, (remove os (pos fd) ev_all s2.1).1))
              × (entry s' ≡ none)
              × (os.interest s'.1.kernel fd ≡ none)
          | null_call ↦ (s2 : W × Evpoll K) × (r.hup ≡ false) × Refuses s2 × (entry s2 ≡ none)
        ]

        close-Ends :
            (eh : ℕ) (s2 : W × Evpoll K)
            → IsOwn s2
            → Closes s2
            → entry s2 ≡ some eh
            → Ends (close_handler (some eh) fd s2)
        unfolding close_handler
        close-Ends eh s2 own c e = elim own.1 [
          | inl e' ↦ cc (e, e')
          | inr own_fd ↦ let gone = removed s2.1 own.0 in rw own_fd (s2, c, e, refl, gone.0, gone.1)
        ]

        refused-Ends :
            (o : Option ℕ) (s2 : W × Evpoll K)
            → entry s2 ≡ o
            → IsOwn s2
            → r.hup ≡ false
            → Refuses s2
            → Ends (close_handler o fd s2)
        unfolding close_handler
        refused-Ends none s2 e own h refuses = (s2, h, refuses, e)
        refused-Ends (some eh) s2 e own h refuses = close-Ends eh s2 own (inr (h, refuses)) e

        called-Ends :
            (call : ℕ → W × Evpoll K → Bool × (W × Evpoll K))
            → KeepsOwn call
            → (next : W × Evpoll K → Dispatched (W × Evpoll K)) (o : Option ℕ) (s1 : W × Evpoll K)
            → entry s1 ≡ o
            → IsOwn s1
            → r.hup ≡ false
            → (entry s1 ≡ none → Passes s1)
            → ((eh : ℕ) (s2 : W × Evpoll K)
                → entry s1 ≡ some eh
                → call eh s1 ≡ (true, s2)
                → IsOwn s2
                → Ends (next s2))
            → ((eh : ℕ) (s2 : W × Evpoll K)
                → entry s1 ≡ some eh
                → call eh s1 ≡ (false, s2)
                → Refuses s2)
            → Ends (call_handler call next o fd s1)
        unfolding call_handler
        called-Ends call good next none s1 e own h passes goes refuses = inr (h, passes e)
        called-Ends call good next (some eh) s1 e own h passes goes refuses =
            let s2 = (call eh s1).1 in
            elim (Bool-cases (call eh s1).0) [
              | inl ok ↦ rw ok (goes eh s2 e (ap (λ a. (a, s2)) ok) (good eh s1 own))
              | inr ok ↦ rw ok (
                  refused-Ends (entry s2) s2 refl (good eh s1 own) h
                    (refuses eh s2 e (ap (λ a. (a, s2)) ok)))
            ]

        hup-Ends :
            (o : Option ℕ) → entry s ≡ o → IsOwn s → r.hup ≡ true → Ends (dispatch_hup o fd s)
        unfolding dispatch_hup
        hup-Ends none e own h = inl (h, e, refl)
        hup-Ends (some eh) e own h = close-Ends eh s own (inl (h, refl)) e

        read-Ends :
            KeepsOwn on_read
            → (s1 : W × Evpoll K) → IsOwn s1
            → r.hup ≡ false
            → Written s1
            → Ends (dispatch_read fd r s1)
        unfolding dispatch_read
        read-Ends good s1 own h written = elim (Bool-cases r.input) [
          | inr i ↦ simp i (inr (h, no_input written i))
          | inl i ↦ simp i (
              called-Ends on_read good kept (entry s1) s1 refl own h (λ e. no_reader written i e)
                (λ eh s2 e c own2. inr (h, has_read written i e c))
                (λ eh s2 e c. by_read written i e c))
        ]

      -- How a ready event ends, for handlers that leave the descriptor in its own entry, which they may empty:
      -- `on_close` is called exactly for a hang-up and behind an answer false, for the handler that the entry
      -- then has, as the last call, when the table and the kernel have both forgotten the descriptor; and a
      -- null handler is called exactly behind an answer false of a handler that has emptied the entry.
      pub dispatch_closes :
          KeepsOwn on_write
          → KeepsOwn on_read
          → (r : Ready) (s : W × Evpoll K) → IsOwn s
          → Ends r s (dispatch fd r s)
      unfolding dispatch
      dispatch_closes good_write good_read r s own = elim (Bool-cases r.hup) [
        | inl h ↦ simp h (hup-Ends r s (entry s) refl own h)
        | inr h ↦ elim (Bool-cases r.out) [
          | inl o ↦
              simp (h, o)
                (called-Ends r s on_write good_write (dispatch_read fd r) (entry s) s refl own h
                  (λ e. no_writer o e)
                  (λ eh s2 e c own2. read-Ends r s good_read s2 own2 h (goes_on o e c))
                  (λ eh s2 e c. by_write o e c))
          | inr o ↦ simp (h, o) (read-Ends r s good_read s own h (not_asked o))
        ]
      ]
