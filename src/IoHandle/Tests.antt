-- ===== src/IoHandle/Tests.antt =====
-- A handle that sends to a slow kernel.
use niubix.Base.{
  ◌≡◌, ◌⊎◌, Bool, true, false, some, none, [], ◌∷◌, ◌++◌, length, refl, sym, ap, subst, inr,
}
use niubix.Ringq.Inv.{init-IsValid}
use niubix.IoHandle.{
  IoHandle, blank, send, on_write, send_now, enqueue, poll_write, the_queue, is_waiting, is_all,
}
use niubix.Ringq.Refine.{contents-init}
use niubix.IoHandle.Queue.{AreBufs, pending}
use niubix.IoHandle.Loop.{IsValid, stream, waiting}
use niubix.IoHandle.Stream.{send-stream, on_write-stream}

abbrev opened : IoHandle
opened = record {
  is_open = true;
  async_send_polling = false;
  async_send_buf_size = 0;
  async_send_buf_q = none;
  wire = [];
  write_ev = false;
}

opened-IsValid : IsValid opened
unfolding the_queue
opened-IsValid =
    let none_left = contents-init blank 2 in
    record {
      holds = record {
        ring = init-IsValid blank 2;
        bufs = subst AreBufs (sym none_left) tt;
        size = sym (ap (λ bs. length (pending bs)) none_left);
      };
      polled = inr none_left;
      event = refl;
    }

-- The kernel takes one byte of three.
abbrev after_send : IoHandle
after_send = (send (some 1) (1 ∷ 2 ∷ 3 ∷ []) opened).1

send-stream_example :
    let (n, h') = send (some 1) (1 ∷ 2 ∷ 3 ∷ []) opened in
    (n ≡ some 3) × (stream h' ≡ stream opened ++ 1 ∷ 2 ∷ 3 ∷ []) × IsValid h'
send-stream_example = send-stream (some 1) (1 ∷ 2 ∷ 3 ∷ []) opened opened-IsValid refl

on_write-stream_example :
    (d : Bool) × (h' : IoHandle) × (on_write (some 1 ∷ []) after_send ≡ some (d, h'))
    × IsValid h'
    × (stream h' ≡ stream after_send)
    × ((d ≡ false) ⊎ ((waiting h' ≡ []) × (h'.write_ev ≡ false)))
on_write-stream_example = on_write-stream (some 1 ∷ []) after_send send-stream_example.2 (
    unfold send in
    unfold is_waiting in
    unfold send_now in unfold is_all in unfold poll_write in unfold enqueue in refl)
