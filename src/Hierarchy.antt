-- ===== src/Hierarchy.antt =====
-- The class hierarchy graph and its closure, src/analysis/ClassHierarchyAnalysis.cpp.
pub mod Tests
pub mod Built
pub mod Nodes
pub mod Closure
pub mod Edges
pub mod Rounds
pub mod Within
pub mod Cells
use occam.Base.{
  ℕ, zero, suc, ◌+◌, ◌%◌, Bool, true, false, ◌&&◌, ◌||◌, ◌==◌, List, [], ◌∷◌, map, if◌then◌else◌,
  length,
}

-- A `SmallSet` of struct types, which are known by their addresses.
unfoldable pub insert : ℕ → List ℕ → List ℕ
insert x [] = x ∷ []
insert x (y ∷ ys) = if x == y then y ∷ ys else y ∷ insert x ys

unfoldable pub count : ℕ → List ℕ → Bool
count x [] = false
count x (y ∷ ys) = if x == y then true else count x ys

-- A node and its successors.
pub record Node : Type 0 where
  pub key : ℕ
  pub succs : List ℕ

-- `graph_t`, in the order of its iteration.
abbrev pub Graph : Type 0
Graph = List Node

unfoldable pub add_chg_edge : ℕ → ℕ → Graph → Graph
unfolding insert
add_chg_edge src dest [] = (record { key = src; succs = insert dest [] }) ∷ []
add_chg_edge src dest (n ∷ g) =
    if src == n.key
    then (record n { succs = insert dest n.succs }) ∷ g
    else n ∷ add_chg_edge src dest g

unfoldable pub has_chg_edge : ℕ → ℕ → Graph → Bool
unfolding count
has_chg_edge src dest [] = false
has_chg_edge src dest (n ∷ g) = if src == n.key then count dest n.succs else has_chg_edge src dest g

-- The adjacency matrix `m`, and a cell of it, false out of range.
abbrev pub Matrix : Type 0
Matrix = List (List Bool)

unfoldable pub cell_of : List Bool → ℕ → Bool
cell_of [] j = false
cell_of (b ∷ bs) zero = b
cell_of (b ∷ bs) (suc j) = cell_of bs j

unfoldable pub cell : Matrix → ℕ → ℕ → Bool
unfolding cell_of
cell [] i j = false
cell (r ∷ m) zero j = cell_of r j
cell (r ∷ m) (suc i) j = cell m i j

unfoldable pub set_of : List Bool → ℕ → Bool → List Bool
set_of [] j v = []
set_of (b ∷ bs) zero v = v ∷ bs
set_of (b ∷ bs) (suc j) v = b ∷ set_of bs j v

unfoldable pub set_cell : Matrix → ℕ → ℕ → Bool → Matrix
unfolding set_of
set_cell [] i j v = []
set_cell (r ∷ m) zero j v = set_of r j v ∷ m
set_cell (r ∷ m) (suc i) j v = r ∷ set_cell m i j v

-- The first loops of the closure, over `m_graph`.
unfoldable pub row : Node → Graph → Graph → List Bool
unfolding has_chg_edge
row kv_i g [] = []
row kv_i g (kv_j ∷ rest) = has_chg_edge kv_i.key kv_j.key g ∷ row kv_i g rest

unfoldable pub rows : Graph → Graph → Matrix
unfolding row
rows g [] = []
rows g (kv_i ∷ rest) = row kv_i g g ∷ rows g rest

-- The second: the body, the loop on `j`, on `i` and on `k`, each with the number of rounds left.
unfoldable pub relax : ℕ → ℕ → ℕ → Matrix → Matrix
unfolding cell set_cell
relax k i j m = set_cell m i j (cell m i j || (cell m i k && cell m k j))

unfoldable pub each_j : ℕ → ℕ → ℕ → ℕ → Matrix → Matrix
unfolding relax
each_j zero k i j m = m
each_j (suc left) k i j m = each_j left k i (suc j) (relax k i j m)

unfoldable pub each_i : ℕ → ℕ → ℕ → ℕ → Matrix → Matrix
unfolding each_j
each_i zero n k i m = m
each_i (suc left) n k i m = each_i left n k (suc i) (each_j n k i 0 m)

unfoldable pub each_k : ℕ → ℕ → ℕ → Matrix → Matrix
unfolding each_i
each_k zero n k m = m
each_k (suc left) n k m = each_k left n (suc k) (each_i n n k 0 m)

-- An `unsigned` counter.
unfoldable pub tick : ℕ → ℕ
tick c = (c + 1) % 4294967296

-- The third: the edges of a row, and of all rows, into `closed_g` with its counter.
unfoldable pub close_row : ℕ → List Bool → Graph → Graph × ℕ → Graph × ℕ
unfolding add_chg_edge tick
close_row src [] nodes s = s
close_row src (b ∷ bs) [] s = s
close_row src (b ∷ bs) (n ∷ nodes) (g, c) =
    close_row src bs nodes (if b then (add_chg_edge src n.key g, tick c) else (g, c))

unfoldable pub close_rows : Matrix → Graph → Graph → Graph × ℕ → Graph × ℕ
unfolding close_row
close_rows [] nodes all s = s
close_rows (r ∷ m) [] all s = s
close_rows (r ∷ m) (n ∷ nodes) all s = close_rows m nodes all (close_row n.key r all s)

-- The graph that `closureCHG` swaps in, and its count of edges.
unfoldable pub closure_chg : Graph → Graph × ℕ
unfolding rows each_k close_rows
closure_chg g = close_rows (each_k (length g) (length g) 0 (rows g g)) g g ([], 0)

-- A struct type with those of its subtypes that are struct types.
pub record StructType : Type 0 where
  pub address : ℕ
  pub struct_subtypes : List ℕ

-- `m_graph.insert` of a node with no successor: a key that is there stays as it is.
unfoldable pub insert_node : ℕ → Graph → Graph
insert_node a [] = (record { key = a; succs = [] }) ∷ []
insert_node a (n ∷ g) = if a == n.key then n ∷ g else n ∷ insert_node a g

-- The loops of `buildCHG`, each with its counter.
unfoldable pub insert_nodes : List StructType → Graph × ℕ → Graph × ℕ
unfolding insert_node tick
insert_nodes [] s = s
insert_nodes (st ∷ rest) (g, c) = insert_nodes rest (insert_node st.address g, tick c)

unfoldable pub add_subtypes : ℕ → List ℕ → Graph × ℕ → Graph × ℕ
unfolding add_chg_edge tick
add_subtypes st [] s = s
add_subtypes st (sub_ty ∷ rest) (g, c) = add_subtypes st rest (add_chg_edge sub_ty st g, tick c)

unfoldable pub add_structs : List StructType → Graph × ℕ → Graph × ℕ
unfolding add_subtypes
add_structs [] s = s
add_structs (st ∷ rest) s = add_structs rest (add_subtypes st.address st.struct_subtypes s)

-- The graph, with the counts of its nodes and its edges.
unfoldable pub build_chg : List StructType → Graph × (ℕ × ℕ)
unfolding insert_nodes add_structs
build_chg types =
    let (nodes, n) = insert_nodes types ([], 0) in
    let (g, e) = add_structs types (nodes, 0) in (g, (n, e))
