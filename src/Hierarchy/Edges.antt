-- ===== src/Hierarchy/Edges.antt =====
-- The edges of a graph: what `addCHGEdge` adds, and the matrix that `closureCHG` starts from and reads.
use occam.Base.{
  ℕ, zero, suc, ◌≡◌, refl, ap, Bool, true, false, some, List, [], ◌∷◌, ◌==◌, arith, length,
  get_elem?, inl, inr, ◌⊎◌, ◌↔◌, All, Bool-cases,
}
use occam.Hierarchy.{
  Node, Graph, insert, count, add_chg_edge, has_chg_edge, cell, cell_of, row, rows, close_row, tick,
}

abbrev pub IsEdge : Graph → ℕ → ℕ → Type 0
IsEdge g a b = has_chg_edge a b g ≡ true

-- A node with this key stands at this place.
abbrev pub IsAt : Graph → ℕ → ℕ → Type 0
IsAt g i a = (n : Node) × (get_elem? g i ≡ some n) × (n.key ≡ a)

pub count-insert :
    (x y : ℕ) (ys : List ℕ) → (count x (insert y ys) ≡ true) ↔ ((count x ys ≡ true) ⊎ (x ≡ y))
unfolding count insert
count-insert x y [] = ground arith
count-insert x y (z ∷ ys) = ground (arith, count-insert x y ys)

pub IsEdge-add :
    (a b s d : ℕ) (g : Graph)
    → IsEdge (add_chg_edge s d g) a b ↔ (IsEdge g a b ⊎ ((a ≡ s) × (b ≡ d)))
unfolding has_chg_edge add_chg_edge
IsEdge-add a b s d [] = ground (arith, count-insert b d [])
IsEdge-add a b s d (n ∷ g) = ground (arith, count-insert b d n.succs, IsEdge-add a b s d g)

pub no_edge : (a b : ℕ) → IsEdge [] a b → ⊥
unfolding has_chg_edge
no_edge a b e = ground arith

-- An edge leaves a node.
pub source-IsAt : (a b : ℕ) (g : Graph) → IsEdge g a b → (i : ℕ) × IsAt g i a
unfolding has_chg_edge
source-IsAt a b [] e = absurd (ground arith)
source-IsAt a b (n ∷ g) e = elim (Bool-cases (a == n.key)) [
  | inl same ↦ (0, (n, refl, ground arith))
  | inr other ↦ let (i, at) = source-IsAt a b g (ground arith) in (suc i, at)
]

length-row : (n : Node) (g rest : Graph) → length (row n g rest) ≡ length rest
unfolding row
length-row n g [] = refl
length-row n g (p ∷ rest) = ap suc (length-row n g rest)

pub rows-IsSquare :
    (g rest : Graph)
    → (length (rows g rest) ≡ length rest) × All (λ r. length r ≡ length g) (rows g rest)
unfolding rows
rows-IsSquare g [] = (refl, tt)
rows-IsSquare g (n ∷ rest) = let (p, q) = rows-IsSquare g rest in (ap suc p, (length-row n g g, q))

cell_of-row :
    (n : Node) (g rest : Graph) (j : ℕ)
    → cell_of (row n g rest) j ≡ true
    → (p : Node) × (get_elem? rest j ≡ some p) × IsEdge g n.key p.key
unfolding row cell_of
cell_of-row n g [] j h = absurd (ground arith)
cell_of-row n g (p ∷ rest) zero h = (p, refl, h)
cell_of-row n g (p ∷ rest) (suc j) h = cell_of-row n g rest j h

pub cell-rows :
    (g rest : Graph) (i j : ℕ)
    → cell (rows g rest) i j ≡ true
    → (n : Node) × (p : Node) × (get_elem? rest i ≡ some n)
      × (get_elem? g j ≡ some p)
      × IsEdge g n.key p.key
unfolding rows cell
cell-rows g [] i j h = absurd (ground arith)
cell-rows g (n ∷ rest) zero j h = let (p, at, e) = cell_of-row n g g j h in (n, p, refl, at, e)
cell-rows g (n ∷ rest) (suc i) j h = cell-rows g rest i j h

set_of-row :
    (n : Node) (g rest : Graph) (j : ℕ) (p : Node)
    → get_elem? rest j ≡ some p
    → IsEdge g n.key p.key
    → cell_of (row n g rest) j ≡ true
unfolding row cell_of
set_of-row n g [] j p at e = absurd (ground arith)
set_of-row n g (q ∷ rest) zero p at e = ground arith
set_of-row n g (q ∷ rest) (suc j) p at e = set_of-row n g rest j p at e

pub set-rows :
    (g rest : Graph) (i j : ℕ) (n p : Node)
    → get_elem? rest i ≡ some n
    → get_elem? g j ≡ some p
    → IsEdge g n.key p.key
    → cell (rows g rest) i j ≡ true
unfolding rows cell
set-rows g [] i j n p at to e = absurd (ground arith)
set-rows g (q ∷ rest) zero j n p at to e = set_of-row q g g j p to (ground arith)
set-rows g (q ∷ rest) (suc i) j n p at to e = set-rows g rest i j n p at to e

-- The edges of a closed row.
abbrev pub InRow : List Bool → Graph → ℕ → Type 0
InRow bs nodes b = (j : ℕ) × (cell_of bs j ≡ true) × IsAt nodes j b

InRow-nil : (nodes : Graph) (b : ℕ) → InRow [] nodes b → ⊥
unfolding cell_of
InRow-nil nodes b (j, h, at) = ground arith

InRow-cons :
    (v : Bool) (bs : List Bool) (n : Node) (nodes : Graph) (b : ℕ)
    → InRow (v ∷ bs) (n ∷ nodes) b ↔ (((v ≡ true) × (n.key ≡ b)) ⊎ InRow bs nodes b)
unfolding cell_of
InRow-cons v bs n nodes b = (from, to)
  where
    from : InRow (v ∷ bs) (n ∷ nodes) b → ((v ≡ true) × (n.key ≡ b)) ⊎ InRow bs nodes b
    from (zero, h, (m, at, k)) = inl (h, ground arith)
    from (suc j, h, at) = inr (j, h, at)

    to : ((v ≡ true) × (n.key ≡ b)) ⊎ InRow bs nodes b → InRow (v ∷ bs) (n ∷ nodes) b
    to (inl (h, k)) = (0, h, (n, refl, k))
    to (inr (j, h, at)) = (suc j, h, at)

pub IsEdge-close_row :
    (src : ℕ) (bs : List Bool) (nodes : Graph) (s : Graph × ℕ) (a b : ℕ)
    → IsEdge (close_row src bs nodes s).0 a b ↔ (IsEdge s.0 a b ⊎ ((a ≡ src) × InRow bs nodes b))
unfolding close_row
IsEdge-close_row src [] nodes s a b =
    (inl, λ h. elim h [ inl e ↦ e | inr (k, r) ↦ absurd (InRow-nil nodes b r) ])
IsEdge-close_row src (v ∷ bs) [] s a b =
    (inl, λ h. elim h [ inl e ↦ e | inr (k, (j, x, (m, at, y))) ↦ absurd (ground arith) ])
IsEdge-close_row src (true ∷ bs) (n ∷ nodes) (g, c) a b =
    let rest = IsEdge-close_row src bs nodes (add_chg_edge src n.key g, tick c) a b in
    let here = IsEdge-add a b src n.key g in
    let cons = InRow-cons true bs n nodes b in ground (arith, rest, here, cons)
IsEdge-close_row src (false ∷ bs) (n ∷ nodes) (g, c) a b =
    let rest = IsEdge-close_row src bs nodes (g, c) a b in
    let cons = InRow-cons false bs n nodes b in ground (arith, rest, cons)
