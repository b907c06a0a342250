-- ===== src/Profiler.antt =====
-- The counters of a module, include/utils/Profiler.h and src/utils/Profiler.cpp.
pub mod Balance
pub mod Whole
pub mod Shifts
pub mod Counted
pub mod Kinds
pub mod Tests
pub mod Visits
use occam.Base.{
  ℕ, zero, suc, ◌+◌, ◌%◌, Bool, true, false, not, ◌&&◌, ◌||◌, ◌==◌, ltb, Option, none, some, List,
  [], ◌∷◌, ◌++◌, Name, codes, name_eq, starts_with, if◌then◌else◌,
}

-- The counters that the profile and its options count.
pub data Counter : Type 0 where
  total_funcs total_spec_funcs total_bounce_funcs total_blocks total_joins total_insts : Counter
  total_direct_calls total_indirect_calls total_asm_calls total_external_calls total_unk_calls :
      Counter
  total_loops total_bounded_loops : Counter
  safe_int_div safe_fp_div unsafe_int_div unsafe_fp_div div_int_unknown div_fp_unknown : Counter
  total_mem_inst mem_unknown safe_mem_access total_allocations in_bound_gep : Counter
  mem_cpy mem_move mem_set : Counter
  safe_left_shift unsafe_left_shift unknown_left_shift : Counter

-- The place of a counter in the pass.
unfoldable pub counter_code : Counter → ℕ
counter_code total_funcs = 0
counter_code total_spec_funcs = 1
counter_code total_bounce_funcs = 2
counter_code total_blocks = 3
counter_code total_joins = 4
counter_code total_insts = 5
counter_code total_direct_calls = 6
counter_code total_indirect_calls = 7
counter_code total_asm_calls = 8
counter_code total_external_calls = 9
counter_code total_unk_calls = 10
counter_code total_loops = 11
counter_code total_bounded_loops = 12
counter_code safe_int_div = 13
counter_code safe_fp_div = 14
counter_code unsafe_int_div = 15
counter_code unsafe_fp_div = 16
counter_code div_int_unknown = 17
counter_code div_fp_unknown = 18
counter_code total_mem_inst = 19
counter_code mem_unknown = 20
counter_code safe_mem_access = 21
counter_code total_allocations = 22
counter_code in_bound_gep = 23
counter_code mem_cpy = 24
counter_code mem_move = 25
counter_code mem_set = 26
counter_code safe_left_shift = 27
counter_code unsafe_left_shift = 28
counter_code unknown_left_shift = 29

-- `ProfilerPass`: the values of the counters, `ExtFuncs` and `instCounters`.
pub record Profile : Type 0 where
  pub values : Counter → ℕ
  pub ext_funcs : List Name
  pub inst_counters : List (Name × ℕ)

pub record ProfileOptions : Type 0 where
  pub profile_loops : Bool
  pub profile_safe_pointers : Bool

abbrev pub new_profile : Profile
new_profile = record { values = λ c. 0; ext_funcs = []; inst_counters = [] }

-- `++` of a counter, in 32 bits.
unfoldable pub tick : Counter → Profile → Profile
unfolding counter_code
tick c t = record t {
  values =
      λ d. if counter_code c == counter_code d then (t.values d + 1) % 4294967296 else t.values d;
}

-- `incrInstCounter`: a new counter starts at its default.
unfoldable pub bump_counter : Name → ℕ → List (Name × ℕ) → List (Name × ℕ)
unfolding name_eq
bump_counter name val [] = (name, 0) ∷ []
bump_counter name val ((n, v) ∷ cs) =
    if name_eq name n then (n, (v + val) % 4294967296) ∷ cs else (n, v) ∷ bump_counter name val cs

unfoldable pub incr_inst_counter : Name → ℕ → Profile → Profile
unfolding bump_counter
incr_inst_counter name val t = record t { inst_counters = bump_counter name val t.inst_counters }

-- A number that is read with its sign: the two cases are disjoint.
pub data Signed : Type 0 where
  non_negative negative : ℕ → Signed

-- An accessed pointer: the size and the offset that are known of its object, and `getObjectSize`.
pub record Pointer : Type 0 where
  pub size_offset : Option (ℕ × Signed)
  pub object_size : Option ℕ

unfoldable pub is_safe_mem_access : Pointer → Bool
is_safe_mem_access p = elim p.size_offset [
  | none ↦ false
  | some (size, non_negative offset) ↦ ltb offset size
  | some (size, negative offset) ↦ false
]

unfoldable pub process_ptr_operand : ProfileOptions → Pointer → Profile → Profile
unfolding is_safe_mem_access tick
process_ptr_operand o p t =
    if o.profile_safe_pointers && is_safe_mem_access p
    then tick safe_mem_access t
    else tick mem_unknown t

-- Is a constant length less than the size of the object?
unfoldable pub is_short : Option Signed → Option ℕ → Bool
is_short none size = false
is_short (some n) none = false
is_short (some (negative n)) (some size) = false
is_short (some (non_negative n)) (some size) = ltb n size

unfoldable pub process_memory_intrinsics_ptr_operand :
    ProfileOptions → Pointer → Option Signed → Profile → Profile
unfolding is_short tick
process_memory_intrinsics_ptr_operand o p n t =
    if o.profile_safe_pointers && is_short n p.object_size
    then tick safe_mem_access t
    else tick mem_unknown t
