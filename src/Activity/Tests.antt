-- ===== src/Activity/Tests.antt =====
-- A client that sends a byte now and then.
use niubix.Base.{◌≡◌, refl, true, [], ◌∷◌}
use niubix.Base.Int.{◌-ℤ◌}
use niubix.Activity.{Frontend, is_over, is_inactive, on_timeout}

-- Its request is pending, and its last byte came at 60000.
abbrev slow : Frontend
slow = record {
  is_active = true;
  start_time = 1000;
  recv_time = 60000;
  a_complete_req_time = 0;
  frontend_idle_timeout = 10000;
  frontend_a_complete_req_timeout = 5000;
}

slow_kept : on_timeout 64000 (slow ∷ []) ≡ []
unfolding on_timeout is_inactive is_over ◌-ℤ◌
slow_kept = refl

slow_ended : on_timeout 66000 (slow ∷ []) ≡ slow ∷ []
unfolding on_timeout is_inactive is_over ◌-ℤ◌
slow_ended = refl
