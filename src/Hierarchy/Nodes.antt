-- ===== src/Hierarchy/Nodes.antt =====
-- The nodes of the graph that `buildCHG` builds: all its edges go to one.
use occam.Base.{
  ℕ, zero, suc, ◌≡◌, refl, subst, Bool, true, false, ◌||◌, List, [], ◌∷◌, ◌==◌, arith, inl, inr,
  ◌↔◌, In, Bool-cases,
}
use occam.Policy.Recursive.{Walk}
use occam.Hierarchy.{
  Graph, StructType, add_chg_edge, insert_node, insert_nodes, add_subtypes, add_structs, build_chg,
  closure_chg, tick,
}
use occam.Hierarchy.Rounds.{map_walk}
use occam.Hierarchy.Edges.{IsEdge, IsAt}
use occam.Hierarchy.Closure.{IsClosed, closure_chg-Walk}
use occam.Hierarchy.Built.{IsSubtype, build_chg-IsSubtype}

-- A test for a node with this key, which the proofs use for membership.
unfoldable has_key : ℕ → Graph → Bool
has_key a [] = false
has_key a (n ∷ g) = a == n.key || has_key a g

has_key-IsAt : (a : ℕ) (g : Graph) → has_key a g ≡ true → (j : ℕ) × IsAt g j a
unfolding has_key
has_key-IsAt a [] h = absurd (ground arith)
has_key-IsAt a (n ∷ g) h = elim (Bool-cases (a == n.key)) [
  | inl same ↦ (0, (n, refl, ground arith))
  | inr other ↦ let (j, at) = has_key-IsAt a g (ground arith) in (suc j, at)
]

has_key-insert_node : (a x : ℕ) (g : Graph) → has_key a (insert_node x g) ≡ (a == x || has_key a g)
unfolding has_key insert_node
has_key-insert_node a x [] = ground arith
has_key-insert_node a x (n ∷ g) = ground (arith, has_key-insert_node a x g)

has_key-add : (a s d : ℕ) (g : Graph) → has_key a g ≡ true → has_key a (add_chg_edge s d g) ≡ true
unfolding has_key add_chg_edge
has_key-add a s d [] h = ground arith
has_key-add a s d (n ∷ g) h = ground (arith, has_key-add a s d g)

has_key-add_subtypes :
    (a st : ℕ) (subs : List ℕ) (s : Graph × ℕ)
    → has_key a s.0 ≡ true
    → has_key a (add_subtypes st subs s).0 ≡ true
unfolding add_subtypes
has_key-add_subtypes a st [] s h = h
has_key-add_subtypes a st (x ∷ subs) (g, c) h =
    has_key-add_subtypes a st subs (add_chg_edge x st g, tick c) (has_key-add a x st g h)

has_key-add_structs :
    (a : ℕ) (types : List StructType) (s : Graph × ℕ)
    → has_key a s.0 ≡ true
    → has_key a (add_structs types s).0 ≡ true
unfolding add_structs
has_key-add_structs a [] s h = h
has_key-add_structs a (st ∷ types) s h =
    has_key-add_structs a types (add_subtypes st.address st.struct_subtypes s)
      (has_key-add_subtypes a st.address st.struct_subtypes s h)

has_key-kept :
    (a : ℕ) (types : List StructType) (s : Graph × ℕ)
    → has_key a s.0 ≡ true
    → has_key a (insert_nodes types s).0 ≡ true
unfolding insert_nodes
has_key-kept a [] s h = h
has_key-kept a (st ∷ types) (g, c) h =
    has_key-kept a types (insert_node st.address g, tick c)
      (ground (arith, has_key-insert_node a st.address g))

has_key-insert_nodes :
    (st : StructType) (types : List StructType) (s : Graph × ℕ)
    → In st types
    → has_key st.address (insert_nodes types s).0 ≡ true
unfolding insert_nodes
has_key-insert_nodes st [] s (i, h) = absurd (ground arith)
has_key-insert_nodes st (t ∷ types) (g, c) (zero, h) =
    has_key-kept st.address types (insert_node t.address g, tick c)
      (ground (arith, has_key-insert_node st.address t.address g))
has_key-insert_nodes st (t ∷ types) (g, c) (suc i, h) =
    has_key-insert_nodes st types (insert_node t.address g, tick c) (i, h)

build_chg-IsClosed : (types : List StructType) → IsClosed (build_chg types).0
unfolding build_chg
build_chg-IsClosed types a b e =
    let (st, place, same, m) = (build_chg-IsSubtype types a b).0 e in
    let kept =
      has_key-add_structs st.address types ((insert_nodes types ([], 0)).0, 0)
        (has_key-insert_nodes st types ([], 0) place) in
    has_key-IsAt b (build_chg types).0
      (subst (λ (x : ℕ). has_key x (build_chg types).0 ≡ true) same kept)

-- Behind `buildCHG` and `closureCHG` the graph has an edge from one type to another exactly if there are
-- one or more steps from the one to the other, each from a struct type to a type of the module that has
-- it as a subtype.
pub closure_chg-build_chg :
    (types : List StructType) (a b : ℕ)
    → IsEdge (closure_chg (build_chg types).0).0 a b ↔ Walk (IsSubtype types) a b
closure_chg-build_chg types a b =
    let (from, to) = closure_chg-Walk (build_chg types).0 a b (build_chg-IsClosed types) in
    (
      λ e. map_walk (λ i j h. (build_chg-IsSubtype types i j).0 h) (from e),
      λ w. to (map_walk (λ i j h. (build_chg-IsSubtype types i j).1 h) w),
    )
