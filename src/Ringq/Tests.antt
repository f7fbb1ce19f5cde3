-- ===== src/Ringq/Tests.antt =====
-- Runs of a ring, and the theorems at concrete inputs.
use niubix.Base.{ℕ, ◌≡◌, refl, List, [], ◌∷◌}
use niubix.Ringq.{init, push_back, pop_front, put, grow, full, empty, copy, new_size}
use niubix.Ringq.Inv.{IsValid}
use niubix.Ringq.Refine.{contents}
use niubix.Ringq.Run.{Op, push, pop, run, step, run_refines}

-- The ring starts with two slots, wraps round, and grows at the fourth push.
abbrev script : List (Op ℕ)
script = push 1 ∷ push 2 ∷ pop ∷ push 3 ∷ push 4 ∷ []

script_result :
    run 0 (init 0 2) script
    ≡ record { size = 4; head = 0; tail = 3; len = 3; rq = 2 ∷ 3 ∷ 4 ∷ 0 ∷ [] }
unfolding run step init push_back pop_front put grow full empty copy new_size
script_result = refl

run_refines_example :
    IsValid (run 0 (init 0 2) script) × (contents 0 (run 0 (init 0 2) script) ≡ 2 ∷ 3 ∷ 4 ∷ [])
run_refines_example = run_refines 0 2 script
