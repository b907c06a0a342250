-- ===== src/Virtual/Tests.antt =====
-- A virtual call on a class with one class behind it.
use occam.Base.{
  ℕ, ◌≡◌, refl, true, false, Option, none, some, List, [], ◌∷◌, Name, codes, name_eq, c_str,
  starts_with, ◌↔◌,
}
use occam.Hierarchy.{
  StructType, insert, count, has_chg_edge, add_chg_edge, cell_of, cell, set_of, set_cell, row, rows,
  relax, each_j, each_i, each_k, tick, close_row, close_rows, closure_chg, insert_node,
  insert_nodes, add_subtypes, add_structs, build_chg,
}
use occam.Vtables.{
  GlobalVariable, Analysis, has_char, contains_text, behind_last_of, cxx_demangle, class_type,
  keep_typeinfo, read_typeinfo, scan_elements, push_function, cast, other, find_vtable,
  insert_vtable, record_vtable, scan_operands, scan_global, build_vtables, new_analysis,
  close_analysis, calculate,
}
use occam.Vtables.Tests.{f1}
use occam.Virtual.{
  load, gep, constant, get_vtable_index, is_negative, same_params, match_virtual_signature,
  insert_method, add_entry, add_candidate_function, add_candidates, find_node, reachable_types,
  candidates, resolve_this, resolve_virtual_call,
}
use occam.Virtual.Entries.{has_method, IsEntry, IsShort}
use occam.Virtual.Resolved.{
  Reaches, virtual_call, resolve_virtual_call-exact, resolve_virtual_call-ends,
}

-- Class 2 has class 1 in it.
abbrev types : List StructType
types =
    (record { address = 1; struct_subtypes = [] })
    ∷ (record { address = 2; struct_subtypes = 1 ∷ [] })
    ∷ []

abbrev demangle : Name → Option Name
unfolding name_eq
demangle n =
    if_named n (codes "v2") (codes "vtable for D2")
      (if_named n (codes "t2") (codes "typeinfo for D2") none)
  where
    if_named : Name → Name → Name → Option Name → Option Name
    if_named n m d e = elim (name_eq n m) [ true ↦ some d | false ↦ e ]

abbrev type_by_name : Name → Option ℕ
unfolding name_eq
type_by_name n = elim (name_eq n (codes "class.D2")) [ true ↦ some 2 | false ↦ none ]

abbrev globals : List GlobalVariable
globals =
    (record {
      name = codes "v2";
      initializer =
          some (some (other ∷ cast (codes "t2") none ∷ cast (codes "f1") (some f1) ∷ []) ∷ []);
    })
    ∷ (record { name = codes "x"; initializer = none })
    ∷ []

abbrev calculated : Analysis
calculated = record {
  graph = (record { key = 1; succs = 2 ∷ [] }) ∷ [];
  vtables = (2, some f1 ∷ []) ∷ [];
  num_graph_nodes = 2;
  num_graph_edges = 1;
  num_graph_closed_edges = 1;
  num_potential_vtables = 1;
  num_vtables = 1;
  num_potential_virtual_calls = 0;
  num_resolved_virtual_calls = 0;
}

calculate-calculated : calculate demangle type_by_name types globals ≡ some calculated
unfolding calculate new_analysis close_analysis build_vtables scan_global scan_operands
    record_vtable insert_vtable scan_elements read_typeinfo cxx_demangle c_str behind_last_of
    has_char class_type keep_typeinfo push_function name_eq contains_text starts_with insert count
    has_chg_edge add_chg_edge cell_of cell set_of set_cell row rows relax each_j each_i each_k tick
    close_row close_rows closure_chg insert_node insert_nodes add_subtypes add_structs build_chg
calculate-calculated = refl

resolve_runs :
    resolve_virtual_call calculated (virtual_call (load (gep (constant 0))) f1.signature 1 []) []
    ≡ some (
      true,
      f1 ∷ [],
      record calculated { num_potential_virtual_calls = 1; num_resolved_virtual_calls = 1 },
    )
unfolding resolve_virtual_call resolve_this get_vtable_index is_negative candidates add_candidates
    reachable_types find_node add_candidate_function add_entry match_virtual_signature same_params
    insert_method find_vtable tick
resolve_runs = refl

resolve_virtual_call-exact_example : (has_method 11 (f1 ∷ []) ≡ true) ↔ (
    (c : ℕ) × Reaches types 1 c
    × IsEntry calculated (get_vtable_index (load (gep (constant 0)))) f1.signature 11 c)
resolve_virtual_call-exact_example =
    resolve_virtual_call-exact demangle type_by_name types globals calculated
      (record calculated { num_potential_virtual_calls = 1; num_resolved_virtual_calls = 1 })
      (load (gep (constant 0))) f1.signature 1 [] (f1 ∷ []) 11 calculate-calculated resolve_runs

resolve_virtual_call-ends_example :
    (resolve_virtual_call calculated (virtual_call (load (gep (constant 5))) f1.signature 1 []) []
      ≡ none)
    ↔ ((is_negative (get_vtable_index (load (gep (constant 5)))) ≡ false)
        × (c : ℕ) × Reaches types 1 c
        × IsShort calculated (get_vtable_index (load (gep (constant 5)))) c)
resolve_virtual_call-ends_example =
    resolve_virtual_call-ends demangle type_by_name types globals calculated
      (load (gep (constant 5))) f1.signature 1 [] calculate-calculated
