-- ===== src/Connector/Once.antt =====
-- A connect in progress ends once.
use niubix.Base.{◌≡◌, ◌⊎◌, refl, ap, ◌∙◌, Bool, true, false, List, [], ◌∷◌, if◌then◌else◌, inl, inr}
use niubix.Connector.{
  connect_fail, connect_timeout, fd_set, opened, closed, Pending, open_eh, on_close, on_read,
  on_write, on_timeout, answered, reads, polled, expired, Event, ready, timer, handle, run, waiting,
}

-- The connect is over: the handler was told once, and neither the poller nor a timer knows the object.
pub record IsOver (open_ok : Bool) (p : Pending) : Type 0 where
  pub told :
      (p.calls ≡ connect_fail ∷ [])
      ⊎ (p.calls ≡ connect_timeout ∷ [])
      ⊎ (p.calls ≡ fd_set ∷ opened ∷ (if open_ok then [] else closed ∷ []))
  pub deleted : p.deleted ≡ true
  pub unpolled : p.in_poller ≡ false
  pub untimed : p.has_timer ≡ false

abbrev pub Ends : Bool → Pending → Type 0
Ends open_ok p = (p ≡ waiting) ⊎ IsOver open_ok p

failed :
    (open_ok : Bool) (p : Pending)
    → p.calls ≡ connect_fail ∷ []
    → p.deleted ≡ true
    → p.in_poller ≡ false
    → p.has_timer ≡ false
    → Ends open_ok p
failed open_ok p c d q t = inr (record { told = inl c; deleted = d; unpolled = q; untimed = t })

ready_handled :
    (open_ok hup out input : Bool)
    → Ends open_ok (polled open_ok (record { hup = hup; out = out; input = input }) waiting)
unfolding polled reads answered on_close on_read on_write open_eh
ready_handled open_ok true out input = failed open_ok _ refl refl refl refl
ready_handled true false true input =
    inr (record { told = inr (inr refl); deleted = refl; unpolled = refl; untimed = refl })
ready_handled false false true input =
    inr (record { told = inr (inr refl); deleted = refl; unpolled = refl; untimed = refl })
ready_handled open_ok false false true = failed open_ok _ refl refl refl refl
ready_handled open_ok false false false = inl refl

timer_handled : (open_ok : Bool) → Ends open_ok (expired open_ok waiting)
unfolding expired on_timeout on_close open_eh
timer_handled open_ok =
    inr (record { told = inr (inl refl); deleted = refl; unpolled = refl; untimed = refl })

waiting_handled : (open_ok : Bool) (e : Event) → Ends open_ok (handle open_ok e waiting)
unfolding handle
waiting_handled open_ok timer = timer_handled open_ok
waiting_handled open_ok (ready r) = ready_handled open_ok r.hup r.out r.input

over_handled :
    (open_ok : Bool) (e : Event) (p : Pending) → IsOver open_ok p → handle open_ok e p ≡ p
unfolding handle polled expired
over_handled open_ok (ready r) p o = rw o.unpolled refl
over_handled open_ok timer p o = rw o.untimed refl

over_run :
    (open_ok : Bool) (es : List Event) (p : Pending) → IsOver open_ok p → run open_ok es p ≡ p
unfolding run
over_run open_ok [] p o = refl
over_run open_ok (e ∷ es) p o =
    ap (run open_ok es) (over_handled open_ok e p o) ∙ over_run open_ok es p o

-- Whatever events come, in any order and number: either none of them has ended the connect, and it waits
-- as before, or it is over: its handler got exactly one of the failure, the timeout, or the descriptor
-- with `on_open`, and `on_close` only behind an `on_open` that failed; the object is deleted, and neither
-- the poller nor a timer calls it again.
pub run-IsOver : (open_ok : Bool) (es : List Event) → Ends open_ok (run open_ok es waiting)
unfolding run
run-IsOver open_ok [] = inl refl
run-IsOver open_ok (e ∷ es) = elim (waiting_handled open_ok e) [
  | inl same ↦ rw same (run-IsOver open_ok es)
  | inr over ↦ rw (over_run open_ok es _ over) (inr over)
]
