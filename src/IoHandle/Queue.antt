-- ===== src/IoHandle/Queue.antt =====
-- The queue of an `io_handle` as a list of buffers, and the bytes that they still hold.
use niubix.Base.{
  ℕ, ◌≤◌, ◌<◌, ◌≡◌, refl, sym, ap, ◌∙◌, List, [], ◌∷◌, ◌++◌, length, get_or, tail, length-set,
}
use niubix.Ringq.{Ringq, front}
use niubix.Ringq.Inv.{IsValid}
use niubix.Ringq.Refine.{contents, front-contents, length-contents, contents-set_front}
use niubix.IoHandle.{AsyncSendBuf, blank, left, set_sendn}
use mathlib.Core.List.{append_assoc}
use native.Mathlib.Omega.{arith}

-- The bytes that wait in a list of buffers.
abbrev pub pending : List AsyncSendBuf → List ℕ
pending [] = []
pending (b ∷ bs) = left b ++ pending bs

pub pending-append : (as' bs : List AsyncSendBuf) → pending (as' ++ bs) ≡ pending as' ++ pending bs
pending-append [] bs = refl
pending-append (a ∷ as') bs =
    ap (λ q. left a ++ q) (pending-append as' bs)
    ∙ sym (append_assoc (left a) (pending as') (pending bs))

-- A buffer was filled with what its length says, and no more of it is sent than there is.
abbrev pub IsBuf : AsyncSendBuf → Type 0
IsBuf b = (b.len ≡ length b.buf) × (b.sendn ≤ b.len)

abbrev pub AreBufs : List AsyncSendBuf → Type 0
AreBufs [] = Unit {0}
AreBufs (b ∷ bs) = IsBuf b × AreBufs bs

pub AreBufs-append : (as' bs : List AsyncSendBuf) → AreBufs as' → AreBufs bs → AreBufs (as' ++ bs)
AreBufs-append [] bs h k = k
AreBufs-append (a ∷ as') bs (h, hs) k = (h, AreBufs-append as' bs hs k)

-- `set_sendn` writes to the slot of the oldest buffer, and to no other.
module _ (q : Ringq AsyncSendBuf) (v : IsValid q) (n : ℕ) (b : AsyncSendBuf)
    (bs : List AsyncSendBuf) (e : contents blank q ≡ b ∷ bs) where
  some_left : 0 < q.len
  some_left = omega (arith, length-contents blank q, ap length e)

  pub front-cons : front blank q ≡ b
  front-cons =
      front-contents blank q v (λ e'. absurd (omega (arith, ap length (sym e ∙ e'))))
      ∙ ap (λ cs. get_or cs 0 blank) e

  pub contents-set_sendn : contents blank (set_sendn n q) ≡ record b { sendn = n } ∷ bs
  unfolding set_sendn
  contents-set_sendn =
      let first : AsyncSendBuf = record b { sendn = n } in
      contents-set_front blank q (record (front blank q) { sendn = n }) v some_left
      ∙ ap (λ (c : AsyncSendBuf). record c { sendn = n } ∷ tail (contents blank q)) front-cons
      ∙ ap (λ cs. first ∷ tail cs) e

  pub set_sendn-IsValid : IsValid (set_sendn n q)
  unfolding set_sendn
  set_sendn-IsValid = record {
    slots = length-set q.rq q.head _ ∙ v.slots;
    head_in = v.head_in;
    len_in = v.len_in;
    tail_at = v.tail_at;
  }
