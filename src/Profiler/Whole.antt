-- ===== src/Profiler/Whole.antt =====
-- The counters of a whole module, src/utils/Profiler.cpp.
use occam.Base.{
  ℕ, Bool, true, false, ◌&&◌, Option, List, [], ◌∷◌, refl, arith, Name, codes, starts_with,
  Bool-cases, if◌then◌else◌,
}
use occam.Profiler.{
  total_funcs, total_spec_funcs, total_bounce_funcs, total_loops, total_bounded_loops, counter_code,
  Profile, ProfileOptions, Signed, Pointer, new_profile, tick, is_safe_mem_access, is_short,
  incr_inst_counter, process_ptr_operand, process_memory_intrinsics_ptr_operand,
}
use occam.Profiler.Visits.{
  Transfer, mem_cpy_inst, mem_move_inst, other_transfer, Instruction, call, binary, transfer,
  mem_set_inst, alloca, load_inst, store_inst, get_element_ptr, instruction, count_transfer,
  visit_instruction, visit_instructions, BasicBlock, visit_basic_block, visit_blocks, Body,
  count_loops, visit_function, run_on_functions, run_on_module,
}
use occam.Profiler.Balance.{
  Totals, totals_of, add_totals, IsBalanced, is_other, tick-IsBalanced, if_tick-IsBalanced,
  same-IsBalanced, visit_call_site-IsBalanced, visit_binary_operator-IsBalanced,
}

-- The counters of kinds of instructions are not part of the balance.
incr_inst_counter-IsBalanced :
    (name : Name) (val : ℕ) (t : Profile) (n : Totals)
    → IsBalanced n t
    → IsBalanced n (incr_inst_counter name val t)
unfolding incr_inst_counter
incr_inst_counter-IsBalanced name val t n h = h

transfer-IsBalanced :
    (k : Transfer) (o : ProfileOptions) (s d : Pointer) (l : Option Signed) (t : Profile)
    (n : Totals)
    → IsBalanced n t
    → IsBalanced
        (add_totals n (totals_of (transfer k s d l)))
        (visit_instruction o (transfer k s d l) t)
unfolding visit_instruction process_memory_intrinsics_ptr_operand count_transfer tick counter_code
    totals_of
transfer-IsBalanced mem_cpy_inst o s d l t n (a, b, c, e) = ground (
  arith,
  Bool-cases (o.profile_safe_pointers && is_short l s.object_size),
  Bool-cases (o.profile_safe_pointers && is_short l d.object_size),
)
transfer-IsBalanced mem_move_inst o s d l t n (a, b, c, e) = ground (
  arith,
  Bool-cases (o.profile_safe_pointers && is_short l s.object_size),
  Bool-cases (o.profile_safe_pointers && is_short l d.object_size),
)
transfer-IsBalanced other_transfer o s d l t n (a, b, c, e) = ground (
  arith,
  Bool-cases (o.profile_safe_pointers && is_short l s.object_size),
  Bool-cases (o.profile_safe_pointers && is_short l d.object_size),
)

visit_instruction-IsBalanced :
    (o : ProfileOptions) (i : Instruction) (t : Profile) (n : Totals)
    → IsBalanced n t
    → IsBalanced (add_totals n (totals_of i)) (visit_instruction o i t)
unfolding visit_instruction totals_of process_memory_intrinsics_ptr_operand process_ptr_operand
    incr_inst_counter tick counter_code
visit_instruction-IsBalanced o (call c) t n h = visit_call_site-IsBalanced c t n h
visit_instruction-IsBalanced o (binary op d) t n h = visit_binary_operator-IsBalanced op d t n h
visit_instruction-IsBalanced o (transfer k s d l) t n h = transfer-IsBalanced k o s d l t n h
visit_instruction-IsBalanced o (mem_set_inst d l) t n (a, b, c, e) =
    ground (arith, Bool-cases (o.profile_safe_pointers && is_short l d.object_size))
visit_instruction-IsBalanced o alloca t n (a, b, c, e) =
    (omega arith, omega arith, omega arith, omega arith)
visit_instruction-IsBalanced o (load_inst p) t n (a, b, c, e) =
    ground (arith, Bool-cases (o.profile_safe_pointers && is_safe_mem_access p))
visit_instruction-IsBalanced o (store_inst p) t n (a, b, c, e) =
    ground (arith, Bool-cases (o.profile_safe_pointers && is_safe_mem_access p))
visit_instruction-IsBalanced o (get_element_ptr is_in_bounds) t n (a, b, c, e) =
    ground (arith, Bool-cases is_in_bounds)
visit_instruction-IsBalanced o instruction t n (a, b, c, e) =
    (omega arith, omega arith, omega arith, omega arith)

unfoldable pub totals_of_all : List Instruction → Totals
totals_of_all [] = record { insts = 0; plain_calls = 0; plain_accesses = 0 }
totals_of_all (i ∷ is) = add_totals (totals_of i) (totals_of_all is)

unfoldable pub totals_of_blocks : List BasicBlock → Totals
unfolding totals_of_all
totals_of_blocks [] = record { insts = 0; plain_calls = 0; plain_accesses = 0 }
totals_of_blocks (b ∷ bs) = add_totals (totals_of_all b.instructions) (totals_of_blocks bs)

-- The instructions, the calls and the memory accesses of a module.
unfoldable pub totals_of_bodies : List Body → Totals
unfolding totals_of_blocks
totals_of_bodies [] = record { insts = 0; plain_calls = 0; plain_accesses = 0 }
totals_of_bodies (f ∷ fs) = add_totals (totals_of_blocks f.blocks) (totals_of_bodies fs)

visit_instructions-IsBalanced :
    (o : ProfileOptions) (is : List Instruction) (t : Profile) (n : Totals)
    → IsBalanced n t
    → IsBalanced (add_totals n (totals_of_all is)) (visit_instructions o is t)
unfolding visit_instructions totals_of_all
visit_instructions-IsBalanced o [] t n h =
    same-IsBalanced n _ t (omega arith) (omega arith) (omega arith) h
visit_instructions-IsBalanced o (i ∷ is) t n h =
    same-IsBalanced _ _ (visit_instructions o is (visit_instruction o i t)) (omega arith)
      (omega arith) (omega arith)
      (visit_instructions-IsBalanced o is (visit_instruction o i t) (add_totals n (totals_of i))
        (visit_instruction-IsBalanced o i t n h))

visit_basic_block-IsBalanced :
    (b : BasicBlock) (t : Profile) (n : Totals)
    → IsBalanced n t
    → IsBalanced n (visit_basic_block b t)
unfolding visit_basic_block tick counter_code
visit_basic_block-IsBalanced b t n h = ground (arith, Bool-cases b.has_single_predecessor)

visit_blocks-IsBalanced :
    (o : ProfileOptions) (bs : List BasicBlock) (t : Profile) (n : Totals)
    → IsBalanced n t
    → IsBalanced (add_totals n (totals_of_blocks bs)) (visit_blocks o bs t)
unfolding visit_blocks totals_of_blocks
visit_blocks-IsBalanced o [] t n h =
    same-IsBalanced n _ t (omega arith) (omega arith) (omega arith) h
visit_blocks-IsBalanced o (b ∷ bs) t n h =
    let u = visit_instructions o b.instructions (visit_basic_block b t) in
    same-IsBalanced _ _ (visit_blocks o bs u) (omega arith) (omega arith) (omega arith) (
      visit_blocks-IsBalanced o bs u (add_totals n (totals_of_all b.instructions)) (
        visit_instructions-IsBalanced o b.instructions (visit_basic_block b t) n
          (visit_basic_block-IsBalanced b t n h)))

count_loops-IsBalanced :
    (ls : List Bool) (t : Profile) (n : Totals) → IsBalanced n t → IsBalanced n (count_loops ls t)
unfolding count_loops is_other counter_code
count_loops-IsBalanced [] t n h = h
count_loops-IsBalanced (b ∷ ls) t n h =
    count_loops-IsBalanced ls
      (if b then tick total_bounded_loops (tick total_loops t) else tick total_loops t) n
      (if_tick-IsBalanced b total_bounded_loops (tick total_loops t) n refl
        (tick-IsBalanced total_loops t n refl h))

either-IsBalanced :
    (b : Bool) (u v : Profile) (n : Totals)
    → IsBalanced n u
    → IsBalanced n v
    → IsBalanced n (if b then u else v)
either-IsBalanced true u v n x y = x
either-IsBalanced false u v n x y = y

visit_function-IsBalanced :
    (o : ProfileOptions) (f : Body) (t : Profile) (n : Totals)
    → IsBalanced n t
    → IsBalanced n (visit_function o f t)
unfolding visit_function is_other counter_code
visit_function-IsBalanced o f t n h =
    let is_spec = starts_with f.name (codes "__occam_spec") in
    let is_bounce = starts_with f.name (codes "__occam.bounce") in
    let u = tick total_funcs t in
    let v = if is_spec then tick total_spec_funcs u else u in
    let w = if is_bounce then tick total_bounce_funcs v else v in
    let counted = if_tick-IsBalanced is_bounce total_bounce_funcs v n refl (
      if_tick-IsBalanced is_spec total_spec_funcs u n refl
        (tick-IsBalanced total_funcs t n refl h)) in
    either-IsBalanced f.is_declaration t (if o.profile_loops then count_loops f.loops w else w) n h
      (either-IsBalanced o.profile_loops (count_loops f.loops w) w n
        (count_loops-IsBalanced f.loops w n counted) counted)

run_on_functions-IsBalanced :
    (o : ProfileOptions) (fs : List Body) (t : Profile) (n : Totals)
    → IsBalanced n t
    → IsBalanced (add_totals n (totals_of_bodies fs)) (run_on_functions o fs t)
unfolding run_on_functions totals_of_bodies
run_on_functions-IsBalanced o [] t n h =
    same-IsBalanced n _ t (omega arith) (omega arith) (omega arith) h
run_on_functions-IsBalanced o (f ∷ fs) t n h =
    let u = visit_blocks o f.blocks (visit_function o f t) in
    same-IsBalanced _ _ (run_on_functions o fs u) (omega arith) (omega arith) (omega arith) (
      run_on_functions-IsBalanced o fs u (add_totals n (totals_of_blocks f.blocks)) (
        visit_blocks-IsBalanced o f.blocks (visit_function o f t) n
          (visit_function-IsBalanced o f t n h)))

-- After a run on a module, in 32 bits: the count of instructions is that of the module; the direct, the
-- indirect, the assembly and the unknown calls are together its calls that are no memory intrinsic; and
-- the safe and the unknown accesses are together its loads, its stores, its memory sets and twice its
-- memory transfers, which is also the count of memory instructions. Atomic instructions are no accesses
-- here.
pub run_on_module-IsBalanced :
    (o : ProfileOptions) (fs : List Body) → IsBalanced (totals_of_bodies fs) (run_on_module o fs)
unfolding run_on_module
run_on_module-IsBalanced o fs =
    same-IsBalanced _ _ (run_on_functions o fs new_profile) (omega arith) (omega arith)
      (omega arith)
      (run_on_functions-IsBalanced o fs new_profile
        (record { insts = 0; plain_calls = 0; plain_accesses = 0 }) (refl, refl, refl, refl))
