-- ===== src/DeadStore/Tests.antt =====
-- Runs of src/transforms/IPDeadStoreElimination.cpp: a store that a callee does not load, and one that it
-- loads.
use occam.Base.{
  ℕ, true, false, ◌==◌, Option, none, some, List, [], ◌∷◌, ◌≡◌, ◌≢◌, refl, sym, subst, ◌∙◌, arith,
  inl, inr, ◌⊎◌, All, Bool-cases, if◌then◌else◌, codes, starts_with, name_eq,
}
use mathlib.Core.Option.{some-injective}
use occam.MemorySsa.{
  MemCall, instruction, other_value, Formals, mem_ssa_str_to_op, op_code, is_mem_ssa, is_actual,
  get_mem_ssa_param_idx, get_in_formal,
}
use occam.DeadStore.{
  User, phi, call_user, Effect, push, and_then, find_called_function, enter_formal, enter_formals,
  enter_callee, visit_user, visit_users, is_load_user, has_load_user,
}
use occam.DeadStore.Worklist.{
  Search, is_seen, mark, keep_store, enqueue_all, apply_effect, process, loop, finished,
  out_of_fuel, Inst, mem_call, store_inst, other_inst, next_store, start_chain, start_search,
  run_dse,
}
use occam.DeadStore.Starts.{IsStart}
use occam.DeadStore.Weights.{IsClosed, fan_out, work_left}
use occam.DeadStore.Total.{run_dse-out_of_fuel}

abbrev shadow_store : MemCall
shadow_store = record {
  address = 1;
  callee = some (codes "shadow.mem.store");
  is_null_singleton = false;
  variable = other_value;
  index = none;
}

abbrev shadow_ref_mod : MemCall
shadow_ref_mod = record {
  address = 7;
  callee = some (codes "shadow.mem.arg.ref_mod");
  is_null_singleton = false;
  variable = instruction 2;
  index = some 0;
}

abbrev shadow_load : MemCall
shadow_load = record {
  address = 8;
  callee = some (codes "shadow.mem.load");
  is_null_singleton = false;
  variable = instruction 3;
  index = none;
}

abbrev module_insts : List Inst
module_insts = mem_call shadow_store ∷ store_inst 100 ∷ other_inst ∷ []

-- The store at 100 reaches a phi node, which goes into a call of the function at 5.
abbrev users_of : List User → ℕ → List User
users_of last i =
    if i == 1
    then phi 2 ∷ []
    else if i == 2
    then call_user shadow_ref_mod (none ∷ some (some (5, codes "f")) ∷ []) [] ∷ []
    else if i == 3
    then last
    else []

abbrev formals_of : ℕ → Option Formals
formals_of f = if f == 5 then some ((0, instruction 3) ∷ []) else none

abbrev dead_run : Search
dead_run = record {
  queue = [];
  visited = (3, 100) ∷ (2, 100) ∷ (1, 100) ∷ [];
  store_map = (100, false) ∷ [];
  skipped_chains = 0;
}

-- With a load in the callee the store is kept.
kept_run : Search
kept_run = record {
  queue = [];
  visited = (3, 100) ∷ (2, 100) ∷ (1, 100) ∷ [];
  store_map = (100, true) ∷ [];
  skipped_chains = 0;
}

run_dse-kept_run :
    run_dse (users_of (call_user shadow_load [] [] ∷ [])) formals_of true 20 10 module_insts
    ≡ finished kept_run
unfolding run_dse start_search is_mem_ssa mem_ssa_str_to_op op_code name_eq next_store start_chain
    mark loop process is_seen keep_store visit_users visit_user has_load_user is_load_user
    apply_effect enqueue_all push and_then enter_callee get_mem_ssa_param_idx is_actual
    find_called_function starts_with enter_formals enter_formal get_in_formal kept_run
run_dse-kept_run = refl

abbrev all_pairs : List (ℕ × ℕ)
all_pairs = (1, 100) ∷ (2, 100) ∷ (3, 100) ∷ []

all_pairs-cases :
    (i s : ℕ) → is_seen i s all_pairs ≡ true → (s ≡ 100) × ((i ≡ 1) ⊎ ((i ≡ 2) ⊎ (i ≡ 3)))
unfolding is_seen
all_pairs-cases i s h = elim (Bool-cases (i == 1)) [
  | inl a ↦ (ground arith, inl (ground arith))
  | inr a ↦ elim (Bool-cases (i == 2)) [
    | inl b ↦ (ground arith, inr (inl (ground arith)))
    | inr b ↦ (ground arith, inr (inr (ground arith)))
  ]
]

-- What the users of an instruction put on the queue is among the pairs.
abbrev PushesWithin : ℕ → Type 0
PushesWithin i =
    (e : Effect) × (visit_users formals_of true (users_of [] i) ≡ some e)
    × All (λ j. is_seen j 100 all_pairs ≡ true) e.pushed

all_pairs-PushesWithin : (i : ℕ) → (i ≡ 1) ⊎ ((i ≡ 2) ⊎ (i ≡ 3)) → PushesWithin i
unfolding visit_users visit_user and_then push is_seen is_mem_ssa mem_ssa_str_to_op op_code name_eq
    enter_callee get_mem_ssa_param_idx is_actual find_called_function starts_with enter_formals
    enter_formal get_in_formal
all_pairs-PushesWithin i (inl h) =
    subst PushesWithin (sym h) (record { keep = false; pushed = 2 ∷ [] }, refl, (refl, tt))
all_pairs-PushesWithin i (inr (inl h)) =
    subst PushesWithin (sym h) (record { keep = false; pushed = 3 ∷ [] }, refl, (refl, tt))
all_pairs-PushesWithin i (inr (inr h)) =
    subst PushesWithin (sym h) (record { keep = false; pushed = [] }, refl, tt)

all_pairs-IsClosed : IsClosed (users_of []) formals_of true all_pairs
all_pairs-IsClosed i s e h visited =
    let (store, which) = all_pairs-cases i s h in
    let (f, same, next) = all_pairs-PushesWithin i which in
    let effect : f ≡ e = some-injective _ _ (sym same ∙ visited) in
    subst (λ (x : Effect). All (λ j. is_seen j s all_pairs ≡ true) x.pushed) effect
      (subst (λ (y : ℕ). All (λ j. is_seen j y all_pairs ≡ true) f.pushed) (sym store) next)

starts-all_pairs : (i s : ℕ) → IsStart true module_insts i s → is_seen i s all_pairs ≡ true
unfolding is_seen next_store
starts-all_pairs i s (inl (a, b, c)) =
    let store : 100 ≡ s = some-injective _ _ c in
    subst (λ (x : ℕ). is_seen x s all_pairs ≡ true) b
      (subst (λ (y : ℕ). is_seen 1 y all_pairs ≡ true) store refl)
starts-all_pairs i s (inr other) = elim other [ ]

work_left-all_pairs : work_left (users_of []) formals_of true [] all_pairs ≡ 5
unfolding work_left fan_out visit_users visit_user and_then push is_seen is_mem_ssa
    mem_ssa_str_to_op op_code name_eq enter_callee get_mem_ssa_param_idx is_actual
    find_called_function starts_with enter_formals enter_formal get_in_formal
work_left-all_pairs = refl

run_dse-out_of_fuel_example : run_dse (users_of []) formals_of true 20 10 module_insts ≢ out_of_fuel
run_dse-out_of_fuel_example =
    run_dse-out_of_fuel (users_of []) formals_of true 20 all_pairs 10 module_insts
      all_pairs-IsClosed starts-all_pairs (omega (arith, work_left-all_pairs))
