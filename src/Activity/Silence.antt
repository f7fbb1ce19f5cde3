-- ===== src/Activity/Silence.antt =====
-- What the check of the frontends measures.
use niubix.Base.{ℕ, ◌+◌, ◌==◌, ◌≡◌, ltb, min, Bool, ◌&&◌, if◌then◌else◌}
use niubix.Base.Int.{◌-ℤ◌}
use niubix.Activity.{Frontend, is_over, is_inactive}
use native.Mathlib.Omega.{arith}

-- When the client was last heard of.
abbrev pub last_heard : Frontend → ℕ
last_heard f = if f.recv_time == 0 then f.start_time else f.recv_time

-- Data has come since the last request that was complete, or before the first.
abbrev pub is_pending : Frontend → Bool
is_pending f = ltb 0 f.recv_time && (ltb f.a_complete_req_time f.recv_time)

-- How long the client may be silent.
abbrev pub patience : Frontend → ℕ
patience f =
    if is_pending f
    then min f.frontend_idle_timeout f.frontend_a_complete_req_timeout
    else f.frontend_idle_timeout

is_over-ltb : (now time limit : ℕ) → is_over now time limit ≡ ltb (time + limit) now
unfolding is_over ◌-ℤ◌
is_over-ltb now time limit = ground arith

-- Whether a frontend is given up depends on its last data alone: it is active and silent for longer than the
-- idle limit, or, while a request is pending, than the smaller of the two limits. How long the request has been
-- pending does not count.
pub is_inactive-patience :
    (now : ℕ) (f : Frontend)
    → is_inactive now f ≡ f.is_active && ltb (last_heard f + patience f) now
unfolding is_inactive
is_inactive-patience now f =
    let a = is_over-ltb now f.start_time f.frontend_idle_timeout in
    let b = is_over-ltb now f.recv_time f.frontend_idle_timeout in
    let c = is_over-ltb now f.recv_time f.frontend_a_complete_req_timeout in
    simp (a, b, c) (ground arith)
