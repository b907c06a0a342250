-- ===== src/Profiler/Tests.antt =====
-- A module with two loads and a shift, profiled by src/utils/Profiler.cpp.
use occam.Base.{
  ◌-◌, ◌^◌, ◌<◌, ◌≤◌, true, false, none, some, List, [], ◌∷◌, ◌≡◌, refl, arith, ◌⊎◌, ◌↔◌, codes,
  name_eq, starts_with,
}
use occam.Profiler.{
  safe_left_shift, total_insts, total_spec_funcs, mem_unknown, safe_mem_access,
  total_external_calls, counter_code, ProfileOptions, non_negative, Pointer, tick, bump_counter,
  incr_inst_counter, is_safe_mem_access, process_ptr_operand,
}
use occam.Profiler.Visits.{
  Call, function, shl, constant_int, call, binary, load_inst, instruction, get_called_function,
  insert_name, count_callee, visit_call_site, is_division, is_shl, slt, count_shift,
  visit_binary_operator, visit_instruction, visit_instructions, visit_basic_block, visit_blocks,
  Body, visit_function, run_on_functions, run_on_module,
}
use occam.Profiler.Balance.{IsBalanced}
use occam.Profiler.Whole.{totals_of_bodies, run_on_module-IsBalanced}
use occam.Profiler.Counted.{find_counter, one_less, occurrences}
use occam.Profiler.Kinds.{kinds_of_bodies, run_on_module-occurrences}
use occam.Profiler.Shifts.{count_shift-safe}

abbrev safe_pointers : ProfileOptions
safe_pointers = record { profile_loops = false; profile_safe_pointers = true }

abbrev known_pointer : Pointer
known_pointer = record { size_offset = some (8, non_negative 4); object_size = some 8 }

abbrev unknown_pointer : Pointer
unknown_pointer = record { size_offset = none; object_size = none }

abbrev puts_call : Call
puts_call = record {
  called = function (codes "puts") true;
  is_indirect_call = false;
  is_inline_asm = false;
  is_allocation_fn = false;
}

abbrev profiled : List Body
profiled =
    (record {
      name = codes "__occam_spec.f()";
      is_declaration = false;
      loops = [];
      blocks =
          (record {
            has_single_predecessor = false;
            instructions =
                load_inst known_pointer
                ∷ load_inst unknown_pointer
                ∷ call puts_call
                ∷ binary shl (constant_int 3 8)
                ∷ instruction
                ∷ [];
          })
          ∷ [];
    })
    ∷ (record { name = codes "puts"; is_declaration = true; loops = []; blocks = [] })
    ∷ []

profiled_totals :
    ((run_on_module safe_pointers profiled).values total_insts ≡ 5)
    × ((run_on_module safe_pointers profiled).values total_spec_funcs ≡ 1)
    × ((run_on_module safe_pointers profiled).values safe_mem_access ≡ 1)
    × ((run_on_module safe_pointers profiled).values mem_unknown ≡ 1)
    × ((run_on_module safe_pointers profiled).values total_external_calls ≡ 1)
    × ((run_on_module safe_pointers profiled).ext_funcs ≡ codes "puts" ∷ [])
unfolding run_on_module run_on_functions visit_function visit_blocks visit_basic_block
    visit_instructions visit_instruction visit_call_site visit_binary_operator count_callee
    get_called_function insert_name is_division is_shl count_shift slt process_ptr_operand
    is_safe_mem_access incr_inst_counter bump_counter tick counter_code starts_with name_eq
profiled_totals = (refl, refl, refl, refl, refl, refl)

run_on_module-IsBalanced_example :
    IsBalanced (totals_of_bodies profiled) (run_on_module safe_pointers profiled)
run_on_module-IsBalanced_example = run_on_module-IsBalanced safe_pointers profiled

run_on_module-occurrences_example :
    find_counter (codes "Load") (run_on_module safe_pointers profiled).inst_counters
    ≡ one_less (occurrences (codes "Load") (kinds_of_bodies profiled))
run_on_module-occurrences_example = run_on_module-occurrences safe_pointers profiled (codes "Load")

-- The counter of the two loads is 1.
find_counter-profiled :
    find_counter (codes "Load") (run_on_module safe_pointers profiled).inst_counters ≡ some 1
unfolding find_counter run_on_module run_on_functions visit_function visit_blocks visit_basic_block
    visit_instructions visit_instruction visit_call_site visit_binary_operator count_callee
    get_called_function insert_name is_division is_shl process_ptr_operand is_safe_mem_access
    incr_inst_counter bump_counter tick starts_with name_eq
find_counter-profiled = refl

count_shift-safe_example :
    (count_shift (constant_int 200 8) ≡ safe_left_shift) ↔ ((200 < 8) ⊎ (2 ^ (8 - 1) ≤ 200))
count_shift-safe_example = count_shift-safe 200 8 (omega arith) (omega arith) (omega arith)

-- A shift of 8 bits by 200 counts as safe.
count_shift-oversized : count_shift (constant_int 200 8) ≡ safe_left_shift
unfolding count_shift slt
count_shift-oversized = refl
