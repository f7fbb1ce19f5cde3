-- ===== src/IoHandle/Loop.antt =====
-- What holds of an `io_handle` between two calls, and what the loop of `on_write` keeps.
use niubix.Base.{
  ℕ, zero, suc, ◌+◌, ◌-◌, ◌≤◌, ◌==◌, ◌≡◌, ◌⊎◌, refl, sym, ap, ◌∙◌, subst, true, Option, none, some,
  List, [], ◌∷◌, ◌++◌, length, take, length-append, length-drop, take-append-drop, take_all,
  drop-drop, Bool-cases, inl, inr, tail,
}
use niubix.Ringq.{Ringq, pop_front}
use niubix.Ringq.Inv as Ring
use niubix.Ringq.Refine.{contents, contents-pop_front}
use niubix.IoHandle.{
  AsyncSendBuf, IoHandle, blank, left, set_sendn, the_queue, taken, write_round, write_loop,
}
use niubix.IoHandle.Queue.{
  pending, IsBuf, AreBufs, front-cons, contents-set_sendn, set_sendn-IsValid,
}
use mathlib.Core.List.{append_assoc}
use native.Mathlib.Omega.{arith}

-- The buffers that wait.
abbrev pub waiting : IoHandle → List AsyncSendBuf
waiting h = contents blank (the_queue h.async_send_buf_q)

-- All bytes given to the handle so far: those on the wire, then those that wait.
abbrev pub stream : IoHandle → List ℕ
stream h = h.wire ++ pending (waiting h)

-- The queue is well formed, `async_send_buf_size` counts the bytes that wait, and the write event is
-- polled while any do.
pub record Holds (q : Ringq AsyncSendBuf) (h : IoHandle) : Type 0 where
  pub ring : Ring.IsValid q
  pub bufs : AreBufs (contents blank q)
  pub size : h.async_send_buf_size ≡ length (pending (contents blank q))

pub record IsValid (h : IoHandle) : Type 0 where
  pub holds : Holds (the_queue h.async_send_buf_q) h
  pub polled : (h.async_send_polling ≡ true) ⊎ (waiting h ≡ [])
  pub event : h.write_ev ≡ h.async_send_polling

length-left : (b : AsyncSendBuf) → IsBuf b → length (left b) ≡ b.len - b.sendn
length-left b (l, s) =
    length-drop b.sendn (take b.len b.buf)
    ∙ ap (λ xs. length xs - b.sendn) (take_all b.len b.buf (omega (arith, l)))
    ∙ ap (λ n. n - b.sendn) (sym l)

-- What the loop of `on_write` keeps, from a queue `q` and a handle `h`.
pub record Kept (q : Ringq AsyncSendBuf) (h h' : IoHandle) : Type 0 where
  pub holds : Holds (the_queue h'.async_send_buf_q) h'
  pub same : stream h' ≡ h.wire ++ pending (contents blank q)
  pub opened : h'.is_open ≡ h.is_open
  pub polling : h'.async_send_polling ≡ h.async_send_polling
  pub event : h'.write_ev ≡ h.write_ev

Kept-stop :
    (q : Ringq AsyncSendBuf) (h : IoHandle)
    → Holds q h
    → Kept q h (record h { async_send_buf_q = some q })
unfolding the_queue
Kept-stop q h v = record {
  holds = record { ring = v.ring; bufs = v.bufs; size = v.size };
  same = refl;
  opened = refl;
  polling = refl;
  event = refl;
}

module _ (rest : Ringq AsyncSendBuf → IoHandle → IoHandle) (n : ℕ) (q : Ringq AsyncSendBuf)
    (h : IoHandle) (v : Holds q h) (b : AsyncSendBuf) (bs : List AsyncSendBuf)
    (e : contents blank q ≡ b ∷ bs) (few : n ≤ length (left b)) where
  bufs_cons : AreBufs (b ∷ bs)
  bufs_cons = subst AreBufs e v.bufs

  all_size : h.async_send_buf_size ≡ length (left b) + length (pending bs)
  all_size = v.size ∙ ap (λ cs. length (pending cs)) e ∙ length-append (left b) (pending bs)

  after : IoHandle
  after = record h {
    wire = h.wire ++ take n (left b);
    async_send_buf_size = h.async_send_buf_size - n;
  }

  pop_Holds : n ≡ length (left b) → Holds (pop_front blank q) after
  unfolding after
  pop_Holds all =
      let popped : contents blank (pop_front blank q) ≡ bs =
        contents-pop_front blank q v.ring ∙ ap (λ cs. tail cs) e in
      record {
        ring = Ring.pop_front-IsValid blank q v.ring;
        bufs = subst AreBufs (sym popped) bufs_cons.1;
        size = rw popped (omega (arith, all_size, all));
      }

  set_Holds : Holds (set_sendn (b.sendn + n) q) after
  unfolding after
  set_Holds =
      let new = contents-set_sendn q v.ring (b.sendn + n) b bs e in
      let buf = bufs_cons.0 in
      let l = length-left b buf in
      let b' : AsyncSendBuf = record b { sendn = b.sendn + n } in
      let rest_size =
        length-append (left b') (pending bs)
        ∙ ap (λ k. k + length (pending bs))
            (length-left b' (buf.0, omega (arith, few, l, buf.1))) in
      record {
        ring = set_sendn-IsValid q v.ring (b.sendn + n) b bs e;
        bufs = subst AreBufs (sym new) ((buf.0, omega (arith, few, l, buf.1)), bufs_cons.1);
        size = rw new (omega (arith, all_size, rest_size, l, few));
      }

  set_stream :
      after.wire ++ pending (record b { sendn = b.sendn + n } ∷ bs) ≡ h.wire ++ pending (b ∷ bs)
  unfolding after
  set_stream =
      append_assoc h.wire (take n (left b)) _
      ∙ ap (λ xs. h.wire ++ xs)
          (sym (
              append_assoc (take n (left b)) (left (record b { sendn = b.sendn + n })) (pending bs))
            ∙ ap (λ xs. xs ++ pending bs)
                (ap (λ xs. take n (left b) ++ xs) (drop-drop b.sendn n (take b.len b.buf))
                  ∙ take-append-drop n (left b)))

  pop_stream : n ≡ length (left b) → after.wire ++ pending bs ≡ h.wire ++ pending (b ∷ bs)
  unfolding after
  pop_stream all =
      append_assoc h.wire (take n (left b)) (pending bs)
      ∙ ap (λ xs. h.wire ++ (xs ++ pending bs)) (take_all n (left b) (omega (arith, all)))

pub taken_le : (ret : Option ℕ) (xs : List ℕ) → taken ret xs ≤ length xs
taken_le none xs = omega arith
taken_le (some r) xs = omega arith

round-Kept :
    (rest : Ringq AsyncSendBuf → IoHandle → IoHandle) (n : ℕ) (q : Ringq AsyncSendBuf)
    (h : IoHandle) (b : AsyncSendBuf) (bs : List AsyncSendBuf)
    → Holds q h
    → contents blank q ≡ b ∷ bs
    → n ≤ length (left b)
    → ((q' : Ringq AsyncSendBuf) (h' : IoHandle)
        → Holds q' h'
        → contents blank q' ≡ bs
        → Kept q' h' (rest q' h'))
    → Kept q h (write_round rest n q h)
unfolding write_round the_queue after
round-Kept rest n q h b bs v e few ih =
    let f = front-cons q v.ring n b bs e in
    let l = length-left b (bufs_cons rest n q h v b bs e few).0 in
    elim (Bool-cases (n == 0)) [
      | inl z ↦ rw z (Kept-stop q h v)
      | inr z ↦ elim (Bool-cases (n == (b.len - b.sendn))) [
        | inl w ↦
            let all : n ≡ length (left b) = ground (arith, l) in
            let popped : contents blank (pop_front blank q) ≡ bs =
              contents-pop_front blank q v.ring ∙ ap (λ cs. tail cs) e in
            let k =
              ih (pop_front blank q) (after rest n q h v b bs e few)
                (pop_Holds rest n q h v b bs e few all) popped in
            simp (z, f, w)
              (record {
                holds = k.holds;
                same =
                    k.same
                    ∙ ap (λ cs. (after rest n q h v b bs e few).wire ++ pending cs) popped
                    ∙ pop_stream rest n q h v b bs e few all
                    ∙ ap (λ cs. h.wire ++ pending cs) (sym e);
                opened = k.opened;
                polling = k.polling;
                event = k.event;
              })
        | inr w ↦
            let k = set_Holds rest n q h v b bs e few in
            simp (z, f, w)
              (record {
                holds = record { ring = k.ring; bufs = k.bufs; size = k.size };
                same =
                    ap (λ cs. (after rest n q h v b bs e few).wire ++ pending cs)
                      (contents-set_sendn q v.ring (b.sendn + n) b bs e)
                    ∙ set_stream rest n q h v b bs e few
                    ∙ ap (λ cs. h.wire ++ pending cs) (sym e);
                opened = refl;
                polling = refl;
                event = refl;
              })
      ]
    ]

pub loop-Kept :
    (k : ℕ) (rets : List (Option ℕ)) (cs : List AsyncSendBuf) (q : Ringq AsyncSendBuf)
    (h : IoHandle)
    → Holds q h
    → contents blank q ≡ cs
    → k ≤ length cs
    → Kept q h (write_loop k rets q h)
unfolding write_loop
loop-Kept zero rets cs q h v e few = Kept-stop q h v
loop-Kept (suc k) [] cs q h v e few = Kept-stop q h v
loop-Kept (suc k) (ret ∷ rets) [] q h v e few = absurd (omega (arith, few))
loop-Kept (suc k) (ret ∷ rets) (b ∷ bs) q h v e few =
    let f = front-cons q v.ring 0 b bs e in
    rw f (
      round-Kept (write_loop k rets) (taken ret (left b)) q h b bs v e (taken_le ret (left b))
        (λ q' h' v' e'. loop-Kept k rets bs q' h' v' e' (omega (arith, few))))
