-- ===== src/Bounce/Tests.antt =====
-- Runs of bounce functions with two targets.
use occam.Base.{true, false, some, [], ◌∷◌, codes, ◌≡◌, refl}
use occam.Ir.{Function}
use occam.Policy.{has_address}
use occam.Bounce.{
  target_label, direct_blocks, default_block, test_blocks, bounce_blocks, called, returned,
  successor, run, run_bounce,
}
use occam.Bounce.Runs.{outcome_if, run_bounce-outcome}
use occam.Specializer.Tests.{function_named}

abbrev pub f : Function
f = function_named 10 (codes "f") 1

abbrev pub g : Function
g = function_named 20 (codes "g") 1

run_target :
    run_bounce (bounce_blocks false false (f ∷ g ∷ [])) (10 ∷ 7 ∷ []) ≡ some (called 10 (7 ∷ []))
unfolding run_bounce bounce_blocks direct_blocks default_block test_blocks target_label run
    successor
run_target = refl

-- A void call of a pointer that is no target is lost.
run_lost : run_bounce (bounce_blocks true true (f ∷ g ∷ [])) (30 ∷ 7 ∷ []) ≡ some returned
unfolding run_bounce bounce_blocks direct_blocks default_block test_blocks target_label run
    successor
run_lost = refl

run_bounce-outcome_example :
    run_bounce (bounce_blocks true true (f ∷ g ∷ [])) (30 ∷ 7 ∷ [])
    ≡ some (outcome_if (has_address 30 (f ∷ g ∷ [])) true true 30 (7 ∷ []))
run_bounce-outcome_example = run_bounce-outcome true true (f ∷ g ∷ []) 30 (7 ∷ [])
