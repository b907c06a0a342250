-- ===== src/Profiler/Kinds.antt =====
-- The counters of the kinds of instructions in src/utils/Profiler.cpp.
use occam.Base.{
  Bool, true, false, ◌&&◌, Option, none, some, List, [], ◌∷◌, ◌++◌, ◌≡◌, refl, sym, ap, ◌∙◌, arith,
  Name, codes, starts_with, Bool-cases, if◌then◌else◌,
}
use occam.Profiler.{
  Profile, ProfileOptions, new_profile, tick, incr_inst_counter, is_safe_mem_access, is_short,
  process_ptr_operand, process_memory_intrinsics_ptr_operand, total_insts, total_funcs,
  total_spec_funcs, total_bounce_funcs, total_loops, total_bounded_loops,
}
use occam.Profiler.Visits.{
  Call, Transfer, mem_cpy_inst, mem_move_inst, other_transfer, Instruction, call, binary, transfer,
  mem_set_inst, alloca, load_inst, store_inst, get_element_ptr, instruction, get_called_function,
  count_callee, count_transfer, visit_call_site, visit_binary_operator, is_division, is_shl,
  visit_instruction, visit_instructions, BasicBlock, visit_basic_block, visit_blocks, Body,
  count_loops, visit_function, run_on_functions, run_on_module,
}
use occam.Profiler.Counted.{
  find_counter, occurrences, one_less, bump_all, bump_all-append, empty-one_less,
  find_counter-bump_all,
}

-- The kind that an instruction is counted under.
unfoldable pub kind_of : Instruction → List Name
kind_of (call c) = []
kind_of (binary op d) = []
kind_of (transfer k s d n) = []
kind_of (mem_set_inst d n) = []
kind_of alloca = codes "Alloca" ∷ []
kind_of (load_inst p) = codes "Load" ∷ []
kind_of (store_inst p) = codes "Store" ∷ []
kind_of (get_element_ptr b) = codes "GetElementPtr" ∷ []
kind_of instruction = []

unfoldable pub kinds_of_all : List Instruction → List Name
unfolding kind_of
kinds_of_all [] = []
kinds_of_all (i ∷ is) = kind_of i ++ kinds_of_all is

unfoldable pub kinds_of_blocks : List BasicBlock → List Name
unfolding kinds_of_all
kinds_of_blocks [] = []
kinds_of_blocks (b ∷ bs) = kinds_of_all b.instructions ++ kinds_of_blocks bs

unfoldable pub kinds_of_bodies : List Body → List Name
unfolding kinds_of_blocks
kinds_of_bodies [] = []
kinds_of_bodies (f ∷ fs) = kinds_of_blocks f.blocks ++ kinds_of_bodies fs

callee-inst_counters :
    (f : Option (Name × Bool)) (c : Call) (t : Profile)
    → (count_callee f c t).inst_counters ≡ t.inst_counters
unfolding count_callee tick
callee-inst_counters (some (n, true)) c t = refl
callee-inst_counters (some (n, false)) c t = refl
callee-inst_counters none c t =
    ground (arith, Bool-cases c.is_indirect_call, Bool-cases c.is_inline_asm)

transfer-inst_counters :
    (k : Transfer) (t : Profile) → (count_transfer k t).inst_counters ≡ t.inst_counters
unfolding count_transfer tick
transfer-inst_counters mem_cpy_inst t = refl
transfer-inst_counters mem_move_inst t = refl
transfer-inst_counters other_transfer t = refl

visit_call_site-inst_counters :
    (c : Call) (t : Profile) → (visit_call_site c t).inst_counters ≡ t.inst_counters
unfolding visit_call_site tick
visit_call_site-inst_counters c t = ground (
  arith,
  Bool-cases c.is_allocation_fn,
  callee-inst_counters (get_called_function c.called) c (tick total_insts t),
)

visit_instruction-kind_of :
    (o : ProfileOptions) (i : Instruction) (t : Profile)
    → (visit_instruction o i t).inst_counters ≡ bump_all (kind_of i) t.inst_counters
unfolding visit_instruction kind_of bump_all visit_binary_operator count_transfer incr_inst_counter
    process_ptr_operand process_memory_intrinsics_ptr_operand tick
visit_instruction-kind_of o (call c) t = visit_call_site-inst_counters c t
visit_instruction-kind_of o (binary op d) t =
    ground (arith, Bool-cases (is_division op), Bool-cases (is_shl op))
visit_instruction-kind_of o (transfer k s d n) t = ground (
  arith,
  Bool-cases (o.profile_safe_pointers && is_short n s.object_size),
  Bool-cases (o.profile_safe_pointers && is_short n d.object_size),
  transfer-inst_counters k t,
)
visit_instruction-kind_of o (mem_set_inst d n) t =
    ground (arith, Bool-cases (o.profile_safe_pointers && is_short n d.object_size))
visit_instruction-kind_of o alloca t = refl
visit_instruction-kind_of o (load_inst p) t =
    ground (arith, Bool-cases (o.profile_safe_pointers && is_safe_mem_access p))
visit_instruction-kind_of o (store_inst p) t =
    ground (arith, Bool-cases (o.profile_safe_pointers && is_safe_mem_access p))
visit_instruction-kind_of o (get_element_ptr b) t = ground (arith, Bool-cases b)
visit_instruction-kind_of o instruction t = refl

visit_instructions-kinds_of_all :
    (o : ProfileOptions) (is : List Instruction) (t : Profile)
    → (visit_instructions o is t).inst_counters ≡ bump_all (kinds_of_all is) t.inst_counters
unfolding visit_instructions kinds_of_all bump_all
visit_instructions-kinds_of_all o [] t = refl
visit_instructions-kinds_of_all o (i ∷ is) t =
    visit_instructions-kinds_of_all o is (visit_instruction o i t)
    ∙ ap (bump_all (kinds_of_all is)) (visit_instruction-kind_of o i t)
    ∙ sym (bump_all-append (kind_of i) (kinds_of_all is) t.inst_counters)

visit_basic_block-inst_counters :
    (b : BasicBlock) (t : Profile) → (visit_basic_block b t).inst_counters ≡ t.inst_counters
unfolding visit_basic_block tick
visit_basic_block-inst_counters b t = ground (arith, Bool-cases b.has_single_predecessor)

visit_blocks-kinds_of_blocks :
    (o : ProfileOptions) (bs : List BasicBlock) (t : Profile)
    → (visit_blocks o bs t).inst_counters ≡ bump_all (kinds_of_blocks bs) t.inst_counters
unfolding visit_blocks kinds_of_blocks bump_all
visit_blocks-kinds_of_blocks o [] t = refl
visit_blocks-kinds_of_blocks o (b ∷ bs) t =
    visit_blocks-kinds_of_blocks o bs (visit_instructions o b.instructions (visit_basic_block b t))
    ∙ ap (bump_all (kinds_of_blocks bs)) (
        visit_instructions-kinds_of_all o b.instructions (visit_basic_block b t)
        ∙ ap (bump_all (kinds_of_all b.instructions)) (visit_basic_block-inst_counters b t))
    ∙ sym (bump_all-append (kinds_of_all b.instructions) (kinds_of_blocks bs) t.inst_counters)

count_loops-inst_counters :
    (ls : List Bool) (t : Profile) → (count_loops ls t).inst_counters ≡ t.inst_counters
unfolding count_loops tick
count_loops-inst_counters [] t = refl
count_loops-inst_counters (true ∷ ls) t =
    count_loops-inst_counters ls (tick total_bounded_loops (tick total_loops t))
count_loops-inst_counters (false ∷ ls) t = count_loops-inst_counters ls (tick total_loops t)

visit_function-inst_counters :
    (o : ProfileOptions) (f : Body) (t : Profile)
    → (visit_function o f t).inst_counters ≡ t.inst_counters
unfolding visit_function tick
visit_function-inst_counters o f t =
    let is_spec = starts_with f.name (codes "__occam_spec") in
    let is_bounce = starts_with f.name (codes "__occam.bounce") in
    let u = tick total_funcs t in
    let v = if is_spec then tick total_spec_funcs u else u in
    let w = if is_bounce then tick total_bounce_funcs v else v in
    ground (
      arith,
      Bool-cases f.is_declaration,
      Bool-cases is_spec,
      Bool-cases is_bounce,
      Bool-cases o.profile_loops,
      count_loops-inst_counters f.loops w,
    )

run_on_functions-kinds_of_bodies :
    (o : ProfileOptions) (fs : List Body) (t : Profile)
    → (run_on_functions o fs t).inst_counters ≡ bump_all (kinds_of_bodies fs) t.inst_counters
unfolding run_on_functions kinds_of_bodies bump_all
run_on_functions-kinds_of_bodies o [] t = refl
run_on_functions-kinds_of_bodies o (f ∷ fs) t =
    run_on_functions-kinds_of_bodies o fs (visit_blocks o f.blocks (visit_function o f t))
    ∙ ap (bump_all (kinds_of_bodies fs)) (
        visit_blocks-kinds_of_blocks o f.blocks (visit_function o f t)
        ∙ ap (bump_all (kinds_of_blocks f.blocks)) (visit_function-inst_counters o f t))
    ∙ sym (bump_all-append (kinds_of_blocks f.blocks) (kinds_of_bodies fs) t.inst_counters)

-- After a run on a module, the counter of a kind of instruction (alloca, load, store or the address of
-- an element) is one less than the number of its instructions, in 32 bits, and there is none where the
-- module has no such instruction.
pub run_on_module-occurrences :
    (o : ProfileOptions) (fs : List Body) (name : Name)
    → find_counter name (run_on_module o fs).inst_counters
      ≡ one_less (occurrences name (kinds_of_bodies fs))
unfolding run_on_module find_counter
run_on_module-occurrences o fs name =
    ap (find_counter name) (run_on_functions-kinds_of_bodies o fs new_profile)
    ∙ find_counter-bump_all name (kinds_of_bodies fs) [] 0 (empty-one_less name)
    ∙ ap one_less (omega arith)
