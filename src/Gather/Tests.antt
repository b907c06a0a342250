-- ===== src/Gather/Tests.antt =====
-- Runs of src/GatherInterface.cpp on a small call graph, and the theorems at them.
use mathlib.Core.Option
use occam.Base.{
  ℕ, zero, suc, ◌+◌, ◌≡◌, refl, Bool, true, false, Option, none, some, List, [], ◌∷◌, ◌++◌, Name,
  codes, name_eq, All, length, if◌then◌else◌,
}
use occam.Value.{Value}
use occam.Previrt.Tests.{opaque_value}
use occam.Interface.{ComponentInterface, find}
use occam.Interface.Tests.{one_call}
use occam.Gather.{
  Callee, CallRecord, from_outside, from_site, CallGraph, State, is_visited, visit_records, gather,
  start_queue,
}
use occam.Gather.Loop.{target_of, first_of, inner_targets, visit_records-queue}
use occam.Gather.Ends.{IsClosed, gather-ends}

abbrev callee_named : Name → Bool → Callee
callee_named n d = record { name = n; arg_size = 0; is_declaration = d; is_intrinsic = false }

-- main (1) calls a (2) and b (3); b calls f (4) of another module.
abbrev function_of : ℕ → Option Callee
function_of zero = none
function_of (suc zero) = some (callee_named (codes "main") false)
function_of (suc (suc zero)) = some (callee_named (codes "a") false)
function_of (suc (suc (suc zero))) = some (callee_named (codes "b") false)
function_of (suc (suc (suc (suc n)))) = some (callee_named (codes "f") true)

abbrev behind : Value
behind = opaque_value 9

abbrev records_of : ℕ → List CallRecord
records_of zero = from_outside (callee_named (codes "main") false) 1 ∷ []
records_of (suc zero) = from_site [] behind 2 ∷ from_site [] behind 3 ∷ []
records_of (suc (suc zero)) = []
records_of (suc (suc (suc zero))) = from_site [] behind 4 ∷ []
records_of (suc (suc (suc (suc n)))) = []

abbrev graph : CallGraph
graph = record {
  function = function_of;
  records = records_of;
  external_calling = 0;
  calls_external = 9;
}

-- The call of f in b is not found: b is the second callee of main.
gather_run :
    Option.map (λ (i : ComponentInterface). find (codes "f") i.calls) (gather 7 graph none [] [])
    ≡ some none
unfolding gather find name_eq
gather_run = refl

abbrev nodes : List ℕ
nodes = 0 ∷ 1 ∷ 2 ∷ 3 ∷ 4 ∷ []

targets_in : (n : ℕ) → All (λ r. is_visited (target_of r) nodes ≡ true) (records_of n)
unfolding is_visited
targets_in zero = (refl, tt)
targets_in (suc zero) = (refl, (refl, tt))
targets_in (suc (suc zero)) = tt
targets_in (suc (suc (suc zero))) = (refl, tt)
targets_in (suc (suc (suc (suc n)))) = tt

graph-IsClosed : IsClosed graph nodes
unfolding is_visited
graph-IsClosed = record { outside = refl; targets = targets_in }

entries-in : All (λ n. is_visited n nodes ≡ true) (start_queue graph none)
unfolding is_visited start_queue
entries-in = (refl, tt)

gather-ends_example :
    (i : ComponentInterface) × (gather
        (suc (length (start_queue graph none) + length nodes))
        graph
        none
        []
        []
      ≡ some i)
gather-ends_example = gather-ends graph nodes none [] [] graph-IsClosed entries-in

abbrev fresh : State
fresh = record { queue = []; visited = []; interface = one_call }

visit_records-queue_example :
    (visit_records graph 1 (records_of 1) fresh).queue
    ≡ (if is_visited 1 [] then [] else first_of (inner_targets graph (records_of 1))) ++ []
visit_records-queue_example = visit_records-queue graph 1 (records_of 1) fresh
