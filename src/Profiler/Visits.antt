-- ===== src/Profiler/Visits.antt =====
-- The visits of src/utils/Profiler.cpp.
use occam.Base.{
  ℕ, ◌+◌, ◌-◌, ◌^◌, ◌%◌, Bool, true, false, ◌==◌, ltb, Option, none, some, List, [], ◌∷◌, Name,
  codes, name_eq, starts_with, if◌then◌else◌,
}
use occam.Profiler.{
  Counter, total_funcs, total_spec_funcs, total_bounce_funcs, total_blocks, total_joins,
  total_insts, total_direct_calls, total_indirect_calls, total_asm_calls, total_external_calls,
  total_unk_calls, total_loops, total_bounded_loops, safe_int_div, safe_fp_div, unsafe_int_div,
  unsafe_fp_div, div_int_unknown, div_fp_unknown, total_mem_inst, total_allocations, in_bound_gep,
  mem_cpy, mem_move, mem_set, safe_left_shift, unsafe_left_shift, unknown_left_shift, Profile,
  ProfileOptions, Signed, Pointer, new_profile, tick, incr_inst_counter, process_ptr_operand,
  process_memory_intrinsics_ptr_operand,
}

-- What a call calls behind its casts: a function by its name and whether it is a declaration, an alias
-- with the function behind it, or something else.
pub data CalledValue : Type 0 where
  function : Name → Bool → CalledValue
  alias : Option (Name × Bool) → CalledValue
  other_called : CalledValue

pub record Call : Type 0 where
  pub called : CalledValue
  pub is_indirect_call : Bool
  pub is_inline_asm : Bool
  pub is_allocation_fn : Bool

pub data Opcode : Type 0 where
  sdiv udiv srem urem fdiv frem shl other_opcode : Opcode

-- The second operand: an integer constant with its width, a float constant that is zero or not, or
-- something else.
pub data SecondOperand : Type 0 where
  constant_int : ℕ → ℕ → SecondOperand
  constant_fp : Bool → SecondOperand
  other_operand : SecondOperand

pub data Transfer : Type 0 where
  mem_cpy_inst mem_move_inst other_transfer : Transfer

pub data Instruction : Type 0 where
  call : Call → Instruction
  binary : Opcode → SecondOperand → Instruction
  transfer : Transfer → Pointer → Pointer → Option Signed → Instruction
  mem_set_inst : Pointer → Option Signed → Instruction
  alloca : Instruction
  load_inst : Pointer → Instruction
  store_inst : Pointer → Instruction
  get_element_ptr : Bool → Instruction
  instruction : Instruction

-- `getCalledFunctionThroughAliasesAndCasts`.
unfoldable pub get_called_function : CalledValue → Option (Name × Bool)
get_called_function (function n d) = some (n, d)
get_called_function (alias f) = f
get_called_function other_called = none

-- `insert` of a set of names.
unfoldable pub insert_name : Name → List Name → List Name
unfolding name_eq
insert_name n [] = n ∷ []
insert_name n (m ∷ ms) = if name_eq n m then m ∷ ms else m ∷ insert_name n ms

unfoldable pub count_callee : Option (Name × Bool) → Call → Profile → Profile
unfolding tick insert_name
count_callee (some (n, declaration)) c t =
    let u = tick total_direct_calls t in
    if declaration
    then record (tick total_external_calls u) { ext_funcs = insert_name n t.ext_funcs }
    else u
count_callee none c t =
    if c.is_indirect_call
    then tick total_indirect_calls t
    else if c.is_inline_asm
    then tick total_asm_calls t
    else tick total_unk_calls t

unfoldable pub visit_call_site : Call → Profile → Profile
unfolding tick get_called_function count_callee
visit_call_site c t =
    let u = count_callee (get_called_function c.called) c (tick total_insts t) in
    if c.is_allocation_fn then tick total_allocations u else u

unfoldable pub is_division : Opcode → Bool
is_division sdiv = true
is_division udiv = true
is_division srem = true
is_division urem = true
is_division fdiv = true
is_division frem = true
is_division shl = false
is_division other_opcode = false

unfoldable pub is_int_division : Opcode → Bool
is_int_division sdiv = true
is_int_division udiv = true
is_int_division srem = true
is_int_division urem = true
is_int_division fdiv = false
is_int_division frem = false
is_int_division shl = false
is_int_division other_opcode = false

unfoldable pub is_shl : Opcode → Bool
is_shl sdiv = false
is_shl udiv = false
is_shl srem = false
is_shl urem = false
is_shl fdiv = false
is_shl frem = false
is_shl shl = true
is_shl other_opcode = false

unfoldable pub count_division : Opcode → SecondOperand → Counter
unfolding is_int_division
count_division op (constant_int n w) = if n == 0 then unsafe_int_div else safe_int_div
count_division op (constant_fp is_zero) = if is_zero then unsafe_fp_div else safe_fp_div
count_division op other_operand = if is_int_division op then div_int_unknown else div_fp_unknown

-- `slt` on the bits of two numbers of a width: the order with the sign bit turned round.
unfoldable pub slt : ℕ → ℕ → ℕ → Bool
slt w a b = ltb ((a + 2 ^ (w - 1)) % 2 ^ w) ((b + 2 ^ (w - 1)) % 2 ^ w)

-- The amount of a shift against its width, which is read at that width; an integer constant has an
-- integer type.
unfoldable pub count_shift : SecondOperand → Counter
unfolding slt
count_shift (constant_int n w) = if slt w n (w % 2 ^ w) then safe_left_shift else unsafe_left_shift
count_shift (constant_fp is_zero) = unknown_left_shift
count_shift other_operand = unknown_left_shift

unfoldable pub visit_binary_operator : Opcode → SecondOperand → Profile → Profile
unfolding tick is_division is_shl count_division count_shift
visit_binary_operator op d t =
    let u = tick total_insts t in
    if is_division op
    then tick (count_division op d) u
    else if is_shl op
    then tick (count_shift d) u
    else u

unfoldable pub count_transfer : Transfer → Profile → Profile
unfolding tick
count_transfer mem_cpy_inst t = tick mem_cpy t
count_transfer mem_move_inst t = tick mem_move t
count_transfer other_transfer t = t

-- One instruction, by the visit of its kind.
unfoldable pub visit_instruction : ProfileOptions → Instruction → Profile → Profile
unfolding tick visit_call_site visit_binary_operator count_transfer incr_inst_counter
    process_ptr_operand process_memory_intrinsics_ptr_operand
visit_instruction o (call c) t = visit_call_site c t
visit_instruction o (binary op d) t = visit_binary_operator op d t
visit_instruction o (transfer k source dest n) t = process_memory_intrinsics_ptr_operand o dest n (
    process_memory_intrinsics_ptr_operand o source n
      (count_transfer k (tick total_mem_inst (tick total_mem_inst (tick total_insts t)))))
visit_instruction o (mem_set_inst dest n) t =
    process_memory_intrinsics_ptr_operand o dest n
      (tick mem_set (tick total_mem_inst (tick total_insts t)))
visit_instruction o alloca t = incr_inst_counter (codes "Alloca") 1 (tick total_insts t)
visit_instruction o (load_inst p) t =
    process_ptr_operand o p
      (incr_inst_counter (codes "Load") 1 (tick total_mem_inst (tick total_insts t)))
visit_instruction o (store_inst p) t =
    process_ptr_operand o p
      (incr_inst_counter (codes "Store") 1 (tick total_mem_inst (tick total_insts t)))
visit_instruction o (get_element_ptr is_in_bounds) t =
    let u = incr_inst_counter (codes "GetElementPtr") 1 (tick total_insts t) in
    if is_in_bounds then tick in_bound_gep u else u
visit_instruction o instruction t = tick total_insts t

unfoldable pub visit_instructions : ProfileOptions → List Instruction → Profile → Profile
unfolding visit_instruction
visit_instructions o [] t = t
visit_instructions o (i ∷ is) t = visit_instructions o is (visit_instruction o i t)

pub record BasicBlock : Type 0 where
  pub has_single_predecessor : Bool
  pub instructions : List Instruction

unfoldable pub visit_basic_block : BasicBlock → Profile → Profile
unfolding tick
visit_basic_block b t =
    let u = tick total_blocks t in if b.has_single_predecessor then u else tick total_joins u

unfoldable pub visit_blocks : ProfileOptions → List BasicBlock → Profile → Profile
unfolding visit_basic_block visit_instructions
visit_blocks o [] t = t
visit_blocks o (b ∷ bs) t =
    visit_blocks o bs (visit_instructions o b.instructions (visit_basic_block b t))

-- A function: its outermost loops stand with whether their trip count is known.
pub record Body : Type 0 where
  pub name : Name
  pub is_declaration : Bool
  pub loops : List Bool
  pub blocks : List BasicBlock

unfoldable pub count_loops : List Bool → Profile → Profile
unfolding tick
count_loops [] t = t
count_loops (bounded ∷ ls) t =
    let u = tick total_loops t in count_loops ls (if bounded then tick total_bounded_loops u else u)

unfoldable pub visit_function : ProfileOptions → Body → Profile → Profile
unfolding tick starts_with count_loops
visit_function o f t =
    if f.is_declaration
    then t
    else let u = tick total_funcs t in
      let v = if starts_with f.name (codes "__occam_spec") then tick total_spec_funcs u else u in
      let w =
        if starts_with f.name (codes "__occam.bounce") then tick total_bounce_funcs v else v in
      if o.profile_loops then count_loops f.loops w else w

-- The functions of the module; a declaration has no blocks.
unfoldable pub run_on_functions : ProfileOptions → List Body → Profile → Profile
unfolding visit_function visit_blocks
run_on_functions o [] t = t
run_on_functions o (f ∷ fs) t =
    run_on_functions o fs (visit_blocks o f.blocks (visit_function o f t))

-- The counting of `runOnModule`.
unfoldable pub run_on_module : ProfileOptions → List Body → Profile
unfolding run_on_functions
run_on_module o fs = run_on_functions o fs new_profile
