-- ===== src/App/Health.antt =====
-- The health checker's verdicts over time.
use niubix.Base.{
  ℕ, zero, suc, ◌+◌, ◌≡◌, refl, ◌∙◌, Bool, true, false, List, [], ◌∷◌, ◌++◌, arith, ltb, leb,
  replicate,
}
use niubix.App.{Backend, backend_online, backend_offline}

-- Checks of one backend, oldest first; true is a good one.
pub run_checks : Backend → List Bool → Backend
run_checks ab [] = ab
run_checks ab (true ∷ cs) = run_checks (backend_online ab) cs
run_checks ab (false ∷ cs) = run_checks (backend_offline ab) cs

run_checks-append :
    (ab : Backend) (cs ds : List Bool) → run_checks ab (cs ++ ds) ≡ run_checks (run_checks ab cs) ds
unfolding run_checks
run_checks-append ab [] ds = refl
run_checks-append ab (true ∷ cs) ds = run_checks-append (backend_online ab) cs ds
run_checks-append ab (false ∷ cs) ds = run_checks-append (backend_offline ab) cs ds

backend_online-offline :
    (ab : Backend)
    → ab.offline ≡ leb ab.health_check_ok_times 2
    → (backend_online ab).offline ≡ leb (ab.health_check_ok_times + 1) 2
unfolding backend_online
backend_online-offline ab h = ground arith

good_checks :
    (k : ℕ) (ab : Backend)
    → ab.offline ≡ leb ab.health_check_ok_times 2
    → (run_checks ab (replicate k true)).offline ≡ leb (ab.health_check_ok_times + k) 2
unfolding run_checks backend_online
good_checks zero ab h = h ∙ ground arith
good_checks (suc k) ab h =
    good_checks k (backend_online ab) (backend_online-offline ab h) ∙ ground arith

-- Whatever came before, after a failed check the backend is out of service until the third good
-- check in a row, and back in service from that one on.
pub third_good_check :
    (ab : Backend) (cs : List Bool) (k : ℕ)
    → (run_checks ab (cs ++ false ∷ replicate k true)).offline ≡ ltb k 3
unfolding run_checks backend_offline
third_good_check ab cs k =
    rw run_checks-append (good_checks k (backend_offline (run_checks ab cs)) refl ∙ ground arith)
