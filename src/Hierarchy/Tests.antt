-- ===== src/Hierarchy/Tests.antt =====
-- Runs of the graph's construction on a chain of three classes.
use occam.Base.{◌≡◌, refl, true, List, [], ◌∷◌, ◌↔◌}
use occam.Policy.Recursive.{Walk}
use occam.Hierarchy.{
  StructType, insert, count, has_chg_edge, add_chg_edge, cell_of, cell, set_of, set_cell, row, rows,
  relax, each_j, each_i, each_k, tick, close_row, close_rows, closure_chg, insert_node,
  insert_nodes, add_subtypes, add_structs, build_chg,
}
use occam.Hierarchy.Edges.{IsEdge}
use occam.Hierarchy.Built.{IsSubtype}
use occam.Hierarchy.Nodes.{closure_chg-build_chg}

-- Class 1; 2 has 1 in it, 3 has 2 in it, and 4 stands alone.
abbrev chain : List StructType
chain =
    (record { address = 3; struct_subtypes = 2 ∷ [] })
    ∷ (record { address = 1; struct_subtypes = [] })
    ∷ (record { address = 2; struct_subtypes = 1 ∷ [] })
    ∷ (record { address = 4; struct_subtypes = [] })
    ∷ []

closure_chg_runs : has_chg_edge 1 3 (closure_chg (build_chg chain).0).0 ≡ true
unfolding insert count has_chg_edge add_chg_edge cell_of cell set_of set_cell row rows relax each_j
    each_i each_k tick close_row close_rows closure_chg insert_node insert_nodes add_subtypes
    add_structs build_chg
closure_chg_runs = refl

-- The closed graph has no node without successors.
closure_chg_drops :
    (closure_chg (build_chg chain).0).0
    ≡ (record { key = 1; succs = 3 ∷ 2 ∷ [] }) ∷ (record { key = 2; succs = 3 ∷ [] }) ∷ []
unfolding insert count has_chg_edge add_chg_edge cell_of cell set_of set_cell row rows relax each_j
    each_i each_k tick close_row close_rows closure_chg insert_node insert_nodes add_subtypes
    add_structs build_chg
closure_chg_drops = refl

closure_chg-build_chg_example :
    IsEdge (closure_chg (build_chg chain).0).0 1 3 ↔ Walk (IsSubtype chain) 1 3
closure_chg-build_chg_example = closure_chg-build_chg chain 1 3
