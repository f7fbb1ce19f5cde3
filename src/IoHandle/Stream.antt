-- ===== src/IoHandle/Stream.antt =====
-- What an `io_handle` sends: the bytes on the wire and those that wait are the bytes that were given to
-- `send`, in their order.
use niubix.Base.{
  ℕ, zero, suc, ◌≤◌, ◌≡◌, ◌↔◌, ◌⊎◌, refl, sym, ap, ◌∙◌, Bool, true, false, Option, none, some, List,
  [], ◌∷◌, ◌++◌, length, take, drop, length-append, take-append-drop, take_all, Bool-cases, inl,
  inr,
}
use niubix.Ringq.{Ringq}
use niubix.Ringq.Inv as Ring
use niubix.Ringq.Refine.{
  contents, contents-push_back, push_back-IsValid, length-contents, empty_iff, contents-init,
}
use niubix.IoHandle.{
  AsyncSendBuf, IoHandle, blank, the_queue, new_buf, enqueue, send_now, send, poll_write,
  is_waiting, is_all, taken, write_loop, drained, on_write,
}
use niubix.IoHandle.Queue.{pending, pending-append, AreBufs, AreBufs-append}
use niubix.IoHandle.Loop.{waiting, stream, Holds, IsValid, loop-Kept}
use mathlib.Core.List.{append_assoc, append-nil}
use native.Mathlib.Omega.{arith}

is_waiting_lem :
    (q : Option (Ringq AsyncSendBuf)) → (is_waiting q ≡ false) ↔ (contents blank (the_queue q) ≡ [])
unfolding is_waiting the_queue
is_waiting_lem none = (λ e. contents-init blank 2, λ e. refl)
is_waiting_lem (some q) =
    (λ e. (empty_iff blank q).0 (ground arith), λ e. rw ((empty_iff blank q).1 e) refl)

-- Bytes put into the queue wait behind those that wait already.
module _ (bytes : List ℕ) (h : IoHandle) (v : Holds (the_queue h.async_send_buf_q) h) where
  contents-enqueue : waiting (enqueue bytes h) ≡ waiting h ++ new_buf bytes ∷ []
  unfolding enqueue the_queue
  contents-enqueue = contents-push_back blank (the_queue h.async_send_buf_q) (new_buf bytes) v.ring

  pending-enqueue : pending (waiting (enqueue bytes h)) ≡ pending (waiting h) ++ bytes
  unfolding new_buf
  pending-enqueue =
      ap pending contents-enqueue
      ∙ pending-append (waiting h) (new_buf bytes ∷ [])
      ∙ ap (λ xs. pending (waiting h) ++ xs)
          (append-nil (take (length bytes) bytes) ∙ take_all (length bytes) bytes (omega arith))

  enqueue-Holds : Holds (the_queue (enqueue bytes h).async_send_buf_q) (enqueue bytes h)
  enqueue-Holds = record {
    ring = enqueue-ring;
    bufs = rw contents-enqueue (AreBufs-append (waiting h) _ v.bufs new-IsBuf);
    size = rw pending-enqueue enqueue-size;
  }
    where
      new-IsBuf : AreBufs (new_buf bytes ∷ [])
      new-IsBuf = unfold new_buf in ((refl, omega arith), tt)

      enqueue-ring : Ring.IsValid (the_queue (enqueue bytes h).async_send_buf_q)
      enqueue-ring =
          unfold enqueue in
          unfold the_queue in
          push_back-IsValid blank (the_queue h.async_send_buf_q) (new_buf bytes) v.ring

      enqueue-size : (enqueue bytes h).async_send_buf_size ≡ length (pending (waiting h) ++ bytes)
      enqueue-size =
          unfold enqueue in omega (arith, v.size, length-append (pending (waiting h)) bytes)

  enqueue-stream : stream (enqueue bytes h) ≡ stream h ++ bytes
  unfolding enqueue
  enqueue-stream =
      ap (λ xs. h.wire ++ xs) pending-enqueue
      ∙ sym (append_assoc h.wire (pending (waiting h)) bytes)

  -- A handle that polls already, and one that begins to.
  enqueue-IsValid :
      h.async_send_polling ≡ true → h.write_ev ≡ h.async_send_polling → IsValid (enqueue bytes h)
  enqueue-IsValid p e = record {
    holds = enqueue-Holds;
    polled = inl (unfold enqueue in p);
    event = unfold enqueue in e;
  }

  poll-IsValid : h.write_ev ≡ h.async_send_polling → IsValid (poll_write (enqueue bytes h))
  unfolding poll_write enqueue
  poll-IsValid e = elim (Bool-cases h.async_send_polling) [
    | inl p ↦ simp p (record {
      holds = record {
        ring = enqueue-Holds.ring;
        bufs = enqueue-Holds.bufs;
        size = enqueue-Holds.size;
      };
      polled = inl refl;
      event = e ∙ p;
    })
    | inr p ↦ simp p (record {
      holds = record {
        ring = enqueue-Holds.ring;
        bufs = enqueue-Holds.bufs;
        size = enqueue-Holds.size;
      };
      polled = inl refl;
      event = refl;
    })
  ]

  poll-stream : stream (poll_write (enqueue bytes h)) ≡ stream h ++ bytes
  unfolding poll_write enqueue
  poll-stream = elim (Bool-cases h.async_send_polling) [
    | inl p ↦ rw p enqueue-stream
    | inr p ↦ simp p enqueue-stream
  ]

is_all_lem :
    (ret : Option ℕ) (buff : List ℕ) → is_all ret buff ≡ true → length buff ≤ taken ret buff
unfolding is_all
is_all_lem none buff e = absurd (cc e)
is_all_lem (some r) buff e = ground arith

sent : Option ℕ → List ℕ → IoHandle → IoHandle
sent ret buff h = record h { wire = h.wire ++ take (taken ret buff) buff }

-- With an empty queue the bytes go to the wire, and those that the kernel leaves go to the queue.
send_now-stream :
    (ret : Option ℕ) (buff : List ℕ) (h : IoHandle)
    → IsValid h
    → waiting h ≡ []
    → (stream (send_now ret buff h) ≡ stream h ++ buff) × IsValid (send_now ret buff h)
unfolding send_now sent
send_now-stream ret buff h v e =
    let n = taken ret buff in
    let holds : Holds (the_queue h.async_send_buf_q) (sent ret buff h) = record {
      ring = v.holds.ring;
      bufs = v.holds.bufs;
      size = v.holds.size;
    } in
    let wire : stream h ≡ h.wire = ap (λ bs. h.wire ++ pending bs) e ∙ append-nil h.wire in
    let wire' : stream (sent ret buff h) ≡ h.wire ++ take n buff =
      ap (λ bs. (h.wire ++ take n buff) ++ pending bs) e ∙ append-nil (h.wire ++ take n buff) in
    elim (Bool-cases (is_all ret buff)) [
      | inl a ↦ simp a (
        wire'
            ∙ ap (λ xs. h.wire ++ xs) (take_all n buff (is_all_lem ret buff a))
            ∙ ap (λ xs. xs ++ buff) (sym wire),
        record { holds = holds; polled = inr e; event = v.event },
      )
      | inr a ↦ simp a (
        poll-stream (drop n buff) (sent ret buff h) holds
            ∙ ap (λ xs. xs ++ drop n buff) wire'
            ∙ append_assoc h.wire (take n buff) (drop n buff)
            ∙ ap (λ xs. h.wire ++ xs) (take-append-drop n buff)
            ∙ ap (λ xs. xs ++ buff) (sym wire),
        poll-IsValid (drop n buff) (sent ret buff h) holds v.event,
      )
    ]

-- The end of `on_write` keeps what waits.
drained_lem :
    (h : IoHandle)
    → IsValid h
    → let (d, h') = drained h in
      IsValid h'
      × (stream h' ≡ stream h)
      × ((d ≡ false) ⊎ ((waiting h' ≡ []) × (h'.write_ev ≡ false)))
unfolding drained
drained_lem h v = elim (Bool-cases (is_waiting h.async_send_buf_q)) [
  | inl w ↦ rw w (v, refl, inl refl)
  | inr w ↦ elim (Bool-cases h.async_send_polling) [
    | inl p ↦
        let e = (is_waiting_lem h.async_send_buf_q).0 w in
        simp (w, p)
          (
            record {
              holds = record { ring = v.holds.ring; bufs = v.holds.bufs; size = v.holds.size };
              polled = inr e;
              event = refl;
            },
            refl,
            inr (e, refl),
          )
    | inr p ↦ simp (w, p) (v, refl, inl refl)
  ]
]

waits_polled :
    (h : IoHandle) → IsValid h → is_waiting h.async_send_buf_q ≡ true → h.async_send_polling ≡ true
waits_polled h v w = elim v.polled [
  | inl p ↦ p
  | inr e ↦ absurd (cc (w, (is_waiting_lem h.async_send_buf_q).1 e))
]

-- On an open, well-formed handle, whatever the kernel takes and also when it fails: `send` reports all
-- bytes as sent, they follow those of the earlier calls, on the wire or among those that wait, and the
-- handle stays well formed.
pub send-stream :
    (ret : Option ℕ) (buff : List ℕ) (h : IoHandle)
    → IsValid h
    → h.is_open ≡ true
    → let (n, h') = send ret buff h in
      (n ≡ some (length buff)) × (stream h' ≡ stream h ++ buff) × IsValid h'
unfolding send
send-stream ret buff h v o = elim (Bool-cases (is_waiting h.async_send_buf_q)) [
  | inl w ↦
      simp (o, w)
        (
          refl,
          enqueue-stream buff h v.holds,
          enqueue-IsValid buff h v.holds (waits_polled h v w) v.event,
        )
  | inr w ↦
      let (s, v') = send_now-stream ret buff h v ((is_waiting_lem h.async_send_buf_q).0 w) in
      simp (o, w) (refl, s, v')
]

loop_polled :
    (n : ℕ) (rets : List (Option ℕ)) (q : Ringq AsyncSendBuf) (h : IoHandle)
    → contents blank q ≡ []
    → n ≡ q.len
    → waiting (write_loop n rets q h) ≡ []
unfolding write_loop the_queue
loop_polled zero rets q h e l = e
loop_polled (suc n) rets q h e l = absurd (omega (arith, l, length-contents blank q, ap length e))

-- On an open, well-formed handle, whatever the kernel takes and however often it fails, `on_write` loses
-- and reorders no byte and keeps the handle well formed; it reports the buffer as drained only when
-- nothing waits, and then the write event is no longer polled.
pub on_write-stream :
    (rets : List (Option ℕ)) (h : IoHandle)
    → IsValid h
    → h.is_open ≡ true
    → (d : Bool) × (h' : IoHandle) × (on_write rets h ≡ some (d, h'))
      × IsValid h'
      × (stream h' ≡ stream h)
      × ((d ≡ false) ⊎ ((waiting h' ≡ []) × (h'.write_ev ≡ false)))
unfolding on_write
on_write-stream rets h v o =
    let q = the_queue h.async_send_buf_q in
    let k =
      loop-Kept q.len rets (waiting h) q h v.holds refl (omega (arith, length-contents blank q)) in
    let (v', s, f) = drained_lem (write_loop q.len rets q h) (record {
      holds = k.holds;
      polled = elim v.polled [
        | inl p ↦ inl (k.polling ∙ p)
        | inr e ↦ inr (loop_polled q.len rets q h e refl)
      ];
      event = k.event ∙ v.event ∙ sym k.polling;
    }) in
    (_, _, rw o refl, v', s ∙ k.same, f)
