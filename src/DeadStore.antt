-- ===== src/DeadStore.antt =====
-- Dead stores across functions, src/transforms/IPDeadStoreElimination.cpp.
pub mod Chains
pub mod Ends
pub mod Total
pub mod Readers
pub mod Tests
pub mod Weights
pub mod Starts
pub mod Loops
pub mod Known
pub mod Removed
pub mod Safe
pub mod Worklist
use occam.Base.{
  ℕ, zero, suc, ◌+◌, Bool, true, false, not, ◌&&◌, ◌||◌, ◌==◌, leb, Option, none, some, List, [],
  ◌∷◌, ◌++◌, map, Name, codes, starts_with, if◌then◌else◌, length, get_elem?,
}
use occam.MemorySsa.{
  MemCall, Operand, instruction, other_value, Params, Formals, load, store, arg_ref, arg_mod,
  arg_ref_mod, arg_new, fun_in, fun_out, is_mem_ssa, get_mem_ssa_param_idx, get_in_formal,
}

-- A call instruction that uses a function: its actual parameters in `MMan`, `none` for no entry, and
-- `hasFunctionPtrParam` of the function that it calls.
pub record Caller : Type 0 where
  pub params : Option Params
  pub has_function_ptr_param : Bool

-- A user of a memory instruction: a call stands with the instructions of its block from it on, each a
-- call of a function by its address and name, a call of no function, or no call; and with the calls that
-- use the function it stands in.
pub data User : Type 0 where
  no_instruction : User
  phi : ℕ → User
  call_user : MemCall → List (Option (Option (ℕ × Name))) → List Caller → User
  other_instruction : User

-- What a user does to the store: it is kept, or the chain goes on at these instructions, in the order in
-- which they are put on the queue.
pub record Effect : Type 0 where
  pub keep : Bool
  pub pushed : List ℕ

abbrev pub nothing : Effect
nothing = record { keep = false; pushed = [] }

abbrev pub kept : Effect
kept = record { keep = true; pushed = [] }

unfoldable pub push : ℕ → Effect
push i = record { keep = false; pushed = i ∷ [] }

unfoldable pub and_then : Effect → Effect → Effect
and_then a b = record { keep = a.keep || b.keep; pushed = a.pushed ++ b.pushed }

-- `findCalledFunction`.
unfoldable pub find_called_function : List (Option (Option (ℕ × Name))) → Option ℕ
unfolding starts_with
find_called_function [] = none
find_called_function (none ∷ rest) = find_called_function rest
find_called_function (some none ∷ rest) = none
find_called_function (some (some (f, n)) ∷ rest) =
    if starts_with n (codes "shadow.mem") then find_called_function rest else some f

-- The instruction of a formal parameter; `none` is a fatal error, here and below.
unfoldable pub enter_formal : Option Operand → Option Effect
unfolding push
enter_formal none = none
enter_formal (some (instruction i)) = some (push i)
enter_formal (some other_value) = none

unfoldable pub enter_formals : ℕ → Formals → Option Effect
unfolding enter_formal get_in_formal
enter_formals i [] = some kept
enter_formals i (f ∷ fs) = enter_formal (get_in_formal i (f ∷ fs))

-- Over `MMan.getFunction`, with the options.
module _ (get_function : ℕ → Option Formals) (only_singleton : Bool) where
  -- Into the callee.
  unfoldable pub enter_callee : Option ℕ → Option ℕ → Option Effect
  unfolding enter_formals
  enter_callee none f = none
  enter_callee (some i) none = none
  enter_callee (some i) (some f) = elim (get_function f) [
    | none ↦ none
    | some fs ↦ enter_formals i fs
  ]

  -- The actual parameter of a caller: the effect, and whether the loop goes on. An empty call site is a
  -- failed run, and so is the failed assertion.
  unfoldable pub enter_param : Option (Option MemCall) → Option (Effect × Bool)
  unfolding push is_mem_ssa
  enter_param none = some (kept, false)
  enter_param (some none) = none
  enter_param (some (some c)) =
      if is_mem_ssa arg_ref_mod c only_singleton
        || is_mem_ssa arg_mod c only_singleton
        || is_mem_ssa arg_new c only_singleton
      then some (push c.address, true)
      else if only_singleton
      then some (kept, false)
      else none

  unfoldable pub enter_caller : ℕ → Caller → Option (Effect × Bool)
  unfolding enter_param
  enter_caller i c = elim c.params [
    | none ↦ none
    | some ps ↦ if c.has_function_ptr_param then some (kept, true) else enter_param (get_elem? ps i)
  ]

  -- The loop over the callers.
  unfoldable pub enter_callers : ℕ → List Caller → Option Effect
  unfolding enter_caller and_then
  enter_callers i [] = some nothing
  enter_callers i (c ∷ cs) =
      let rest = enter_callers i cs in
      elim (enter_caller i c) [
        | none ↦ none
        | some (e, goes_on) ↦
            if goes_on then elim rest [ none ↦ none | some r ↦ some (and_then e r) ] else some e
      ]

  unfoldable pub leave_function : Option ℕ → List Caller → Option Effect
  unfolding enter_callers
  leave_function none callers = none
  leave_function (some i) callers = enter_callers i callers

  -- One user of the instruction.
  unfoldable pub visit_user : User → Option Effect
  unfolding push is_mem_ssa enter_callee find_called_function leave_function get_mem_ssa_param_idx
  visit_user no_instruction = some nothing
  visit_user (phi i) = some (push i)
  visit_user other_instruction = some nothing
  visit_user (call_user c following callers) =
      if is_mem_ssa store c only_singleton
      then some nothing
      else if is_mem_ssa arg_ref c only_singleton
      then some kept
      else if is_mem_ssa arg_mod c only_singleton
      then some nothing
      else if is_mem_ssa arg_ref_mod c only_singleton
      then enter_callee (get_mem_ssa_param_idx c) (find_called_function following)
      else if is_mem_ssa fun_in c only_singleton
      then some nothing
      else if is_mem_ssa fun_out c only_singleton
      then leave_function (get_mem_ssa_param_idx c) callers
      else some nothing

  unfoldable pub visit_users : List User → Option Effect
  unfolding visit_user and_then
  visit_users [] = some nothing
  visit_users (u ∷ us) = elim (visit_user u) [
    | none ↦ none
    | some e ↦ elim (visit_users us) [ none ↦ none | some r ↦ some (and_then e r) ]
  ]

  unfoldable pub is_load_user : User → Bool
  unfolding is_mem_ssa
  is_load_user no_instruction = false
  is_load_user (phi i) = false
  is_load_user other_instruction = false
  is_load_user (call_user c following callers) = is_mem_ssa load c only_singleton

  -- `hasMemSSALoadUser`.
  unfoldable pub has_load_user : List User → Bool
  unfolding is_load_user
  has_load_user [] = false
  has_load_user (u ∷ us) = is_load_user u || has_load_user us
