-- ===== src/IoHandle.antt =====
-- src/io_handle.h and src/io_handle.cpp: `io_handle`, a descriptor whose writes never block: what the
-- kernel does not take at once waits in a ring of buffers and is sent when the descriptor is writable.
-- `::send` is the kernel's: each call gets its result as an input, `none` for -1, and takes at most
-- the bytes that it is offered. `wire` is what the kernel has taken. Interrupted calls are repeated,
-- so a result is that of the last one.
pub mod Queue
pub mod Loop
pub mod Stream
mod Tests
use niubix.Base.{
  ℕ, zero, suc, ◌+◌, ◌-◌, ◌==◌, Bool, true, false, not, List, [], ◌∷◌, ◌++◌, Option, none, some,
  ltb, if◌then◌else◌, length, take, drop, set, min, ◌&&◌,
}
use niubix.Ringq.{Ringq, init, empty, push_back, pop_front, front}

pub record AsyncSendBuf : Type 0 where
  pub sendn : ℕ
  pub len : ℕ
  pub buf : List ℕ

abbrev pub blank : AsyncSendBuf
blank = record { sendn = 0; len = 0; buf = [] }

-- `none` for a null `async_send_buf_q`; `is_open` is `fd != -1`. `write_ev` counts the calls of
-- `append_ev` and `remove_ev` for the write event: true after the first.
pub record IoHandle : Type 0 where
  pub is_open : Bool
  pub async_send_polling : Bool
  pub async_send_buf_size : ℕ
  pub async_send_buf_q : Option (Ringq AsyncSendBuf)
  pub wire : List ℕ
  pub write_ev : Bool

-- How many of the offered bytes the kernel takes.
abbrev pub taken : Option ℕ → List ℕ → ℕ
taken none bytes = 0
taken (some r) bytes = min r (length bytes)

-- Not `ret < len`.
pub is_all : Option ℕ → List ℕ → Bool
is_all none bytes = false
is_all (some r) bytes = taken (some r) bytes == length bytes

-- `async_send_buf_q != nullptr && !async_send_buf_q->empty()`.
pub is_waiting : Option (Ringq AsyncSendBuf) → Bool
is_waiting none = false
is_waiting (some q) = not (empty blank q)

-- The queue that is pushed to: a new one of two slots if there is none.
pub the_queue : Option (Ringq AsyncSendBuf) → Ringq AsyncSendBuf
the_queue none = init blank 2
the_queue (some q) = q

pub new_buf : List ℕ → AsyncSendBuf
new_buf bytes = record { sendn = 0; len = length bytes; buf = bytes }

pub enqueue : List ℕ → IoHandle → IoHandle
enqueue bytes h = record h {
  async_send_buf_q = some (push_back blank (the_queue h.async_send_buf_q) (new_buf bytes));
  async_send_buf_size = h.async_send_buf_size + length bytes;
}

-- The write event is asked for once.
pub poll_write : IoHandle → IoHandle
poll_write h =
    if h.async_send_polling then h else record h { async_send_polling = true; write_ev = true }

-- The part of `send` behind the call of `::send` that has the result `ret`.
pub send_now : Option ℕ → List ℕ → IoHandle → IoHandle
send_now ret buff h =
    let n = taken ret buff in
    let h' = record h { wire = h.wire ++ take n buff } in
    if is_all ret buff then h' else poll_write (enqueue (drop n buff) h')

-- `none` is the -1 of a closed descriptor; otherwise all of `buff` counts as sent.
pub send : Option ℕ → List ℕ → IoHandle → Option ℕ × IoHandle
send ret buff h =
    if h.is_open
    then (
      some (length buff),
      if is_waiting h.async_send_buf_q then enqueue buff h else send_now ret buff h,
    )
    else (none, h)

-- `asb.sendn = sendn`, for the reference to the front of the queue.
pub set_sendn : ℕ → Ringq AsyncSendBuf → Ringq AsyncSendBuf
set_sendn sendn q = record q { rq = set q.rq q.head (record (front blank q) { sendn = sendn }) }

-- What is left of a buffer.
abbrev pub left : AsyncSendBuf → List ℕ
left asb = drop asb.sendn (take asb.len asb.buf)

-- A round of the loop of `on_write` in which the kernel takes `n` bytes; `rest` is the rounds behind.
pub write_round :
    (Ringq AsyncSendBuf → IoHandle → IoHandle) → ℕ → Ringq AsyncSendBuf → IoHandle → IoHandle
write_round rest n q h =
    let asb = front blank q in
    let h' = record h {
      wire = h.wire ++ take n (left asb);
      async_send_buf_size = h.async_send_buf_size - n;
    } in
    if n == 0
    then record h { async_send_buf_q = some q }
    else if n == (asb.len - asb.sendn)
    then rest (pop_front blank q) h'
    else record h' { async_send_buf_q = some (set_sendn (asb.sendn + n) q) }

-- The `for`, with `k` rounds left and the results of the calls of `::send`; a call behind the last
-- result fails.
pub write_loop : ℕ → List (Option ℕ) → Ringq AsyncSendBuf → IoHandle → IoHandle
write_loop zero rets q h = record h { async_send_buf_q = some q }
write_loop (suc k) [] q h = record h { async_send_buf_q = some q }
write_loop (suc k) (ret ∷ rets) q h =
    write_round (write_loop k rets) (taken ret (left (front blank q))) q h

-- The end of `on_write`; the Boolean says that `on_send_buffer_drained` is called.
pub drained : IoHandle → Bool × IoHandle
drained h =
    if not (is_waiting h.async_send_buf_q) && h.async_send_polling
    then (true, record h { async_send_polling = false; write_ev = false })
    else (false, h)

-- `none` is the result false, of a closed descriptor. A null queue is not asked for: the write event
-- is polled only behind a push.
pub on_write : List (Option ℕ) → IoHandle → Option (Bool × IoHandle)
on_write rets h =
    let q = the_queue h.async_send_buf_q in
    if h.is_open then some (drained (write_loop q.len rets q h)) else none
