-- ===== src/MemorySsa/Tests.antt =====
-- The parameters of a call with two memory regions, the second one nearer to it.
use occam.Base.{true, none, some, [], ◌∷◌, ◌≡◌, refl, arith, codes, name_eq}
use occam.MemorySsa.{
  MemCall, instruction, mem_ssa_str_to_op, op_code, is_mem_ssa, is_actual, get_mem_ssa_param_idx,
  Params, set_param, add_param, actual_params, params_of,
}
use occam.MemorySsa.Params.{AreIndexed, actual_params-AreIndexed}

abbrev first_region : MemCall
first_region = record {
  address = 4;
  callee = some (codes "shadow.mem.arg.mod");
  is_null_singleton = true;
  variable = instruction 2;
  index = some 0;
}

abbrev second_region : MemCall
second_region = record {
  address = 5;
  callee = some (codes "shadow.mem.arg.ref");
  is_null_singleton = true;
  variable = instruction 3;
  index = some 1;
}

abbrev both_regions : Params
both_regions = some first_region ∷ some second_region ∷ []

actual_params-both_regions :
    actual_params (some second_region ∷ some first_region ∷ none ∷ []) none
    ≡ some (some both_regions)
unfolding actual_params is_actual is_mem_ssa mem_ssa_str_to_op op_code name_eq get_mem_ssa_param_idx
    add_param set_param
actual_params-both_regions = refl

-- The vector has the size of the first index: one that is larger does not fit.
actual_params-too_small :
    actual_params (some first_region ∷ some second_region ∷ none ∷ []) none ≡ none
unfolding actual_params is_actual is_mem_ssa mem_ssa_str_to_op op_code name_eq get_mem_ssa_param_idx
    add_param set_param
actual_params-too_small = refl

empty-AreIndexed : AreIndexed (params_of none)
unfolding params_of
empty-AreIndexed i c at = absurd (ground arith)

actual_params-AreIndexed_example : AreIndexed (params_of (some both_regions))
actual_params-AreIndexed_example =
    actual_params-AreIndexed (some second_region ∷ some first_region ∷ none ∷ []) none
      (some both_regions) actual_params-both_regions empty-AreIndexed
