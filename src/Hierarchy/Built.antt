-- ===== src/Hierarchy/Built.antt =====
-- The graph that `buildCHG` builds, and its closure.
use occam.Base.{ℕ, zero, suc, ◌≡◌, refl, List, [], ◌∷◌, arith, inl, inr, ◌⊎◌, ◌↔◌, In}
use occam.Hierarchy.{
  Graph, StructType, has_chg_edge, count, add_chg_edge, insert_node, insert_nodes, add_subtypes,
  add_structs, build_chg, tick,
}
use occam.Hierarchy.Edges.{IsEdge, IsAt, IsEdge-add, no_edge}

-- The module has a struct type with address `b`, and the struct type `a` is a subtype of it.
abbrev pub IsSubtype : List StructType → ℕ → ℕ → Type 0
IsSubtype types a b = (st : StructType) × In st types × (st.address ≡ b) × In a st.struct_subtypes

abbrev HasKey : Graph → ℕ → Type 0
HasKey g a = (j : ℕ) × IsAt g j a

pub In-cons : {A : Type 0} (x y : A) (ys : List A) → In x (y ∷ ys) ↔ ((x ≡ y) ⊎ In x ys)
In-cons {A} x y ys = (from, to)
  where
    from : In x (y ∷ ys) → (x ≡ y) ⊎ In x ys
    from (zero, h) = inl (ground arith)
    from (suc j, h) = inr (j, h)

    to : (x ≡ y) ⊎ In x ys → In x (y ∷ ys)
    to (inl h) = (0, ground arith)
    to (inr (j, h)) = (suc j, h)

IsEdge-insert_node : (x a b : ℕ) (g : Graph) → IsEdge (insert_node x g) a b ↔ IsEdge g a b
unfolding has_chg_edge insert_node count
IsEdge-insert_node x a b [] = ground arith
IsEdge-insert_node x a b (n ∷ g) = ground (arith, IsEdge-insert_node x a b g)

IsEdge-insert_nodes :
    (types : List StructType) (s : Graph × ℕ) (a b : ℕ)
    → IsEdge (insert_nodes types s).0 a b ↔ IsEdge s.0 a b
unfolding insert_nodes
IsEdge-insert_nodes [] s a b = (λ e. e, λ e. e)
IsEdge-insert_nodes (st ∷ types) (g, c) a b = ground (
  arith,
  IsEdge-insert_node st.address a b g,
  IsEdge-insert_nodes types (insert_node st.address g, tick c) a b,
)

IsEdge-add_subtypes :
    (st : ℕ) (subs : List ℕ) (s : Graph × ℕ) (a b : ℕ)
    → IsEdge (add_subtypes st subs s).0 a b ↔ (IsEdge s.0 a b ⊎ ((st ≡ b) × In a subs))
unfolding add_subtypes
IsEdge-add_subtypes st [] s a b =
    (inl, λ h. elim h [ inl e ↦ e | inr (x, (i, y)) ↦ absurd (ground arith) ])
IsEdge-add_subtypes st (x ∷ subs) (g, c) a b = ground (
  arith,
  IsEdge-add a b x st g,
  In-cons a x subs,
  IsEdge-add_subtypes st subs (add_chg_edge x st g, tick c) a b,
)

IsSubtype-cons :
    (st : StructType) (types : List StructType) (a b : ℕ)
    → IsSubtype (st ∷ types) a b
      ↔ (((st.address ≡ b) × In a st.struct_subtypes) ⊎ IsSubtype types a b)
IsSubtype-cons st types a b = (from, to)
  where
    from :
        IsSubtype (st ∷ types) a b
        → ((st.address ≡ b) × In a st.struct_subtypes) ⊎ IsSubtype types a b
    from (t, (zero, h), e, m) = inl (ground arith)
    from (t, (suc i, h), e, m) = inr (t, (i, h), e, m)

    to :
        ((st.address ≡ b) × In a st.struct_subtypes) ⊎ IsSubtype types a b
        → IsSubtype (st ∷ types) a b
    to (inl (e, m)) = (st, (0, refl), e, m)
    to (inr (t, (i, h), e, m)) = (t, (suc i, h), e, m)

IsEdge-add_structs :
    (types : List StructType) (s : Graph × ℕ) (a b : ℕ)
    → IsEdge (add_structs types s).0 a b ↔ (IsEdge s.0 a b ⊎ IsSubtype types a b)
unfolding add_structs
IsEdge-add_structs [] s a b =
    (inl, λ h. elim h [ inl e ↦ e | inr (t, (i, x), y, z) ↦ absurd (ground arith) ])
IsEdge-add_structs (st ∷ types) s a b =
    let first = IsEdge-add_subtypes st.address st.struct_subtypes s a b in
    let rest = IsEdge-add_structs types (add_subtypes st.address st.struct_subtypes s) a b in
    let cons = IsSubtype-cons st types a b in ground (arith, first, rest, cons)

-- The graph has an edge from a type to each type that has it as a subtype.
pub build_chg-IsSubtype :
    (types : List StructType) (a b : ℕ) → IsEdge (build_chg types).0 a b ↔ IsSubtype types a b
unfolding build_chg
build_chg-IsSubtype types a b =
    let nodes = IsEdge-insert_nodes types ([], 0) a b in
    let edges = IsEdge-add_structs types ((insert_nodes types ([], 0)).0, 0) a b in
    ground (arith, nodes, edges, no_edge a b)
