-- ===== src/Hierarchy/Closure.antt =====
-- `closureCHG` computes the transitive closure of the graph.
use occam.Base.{
  ℕ, zero, suc, ◌<◌, ◌≡◌, refl, sym, subst, Bool, true, some, List, [], ◌∷◌, arith, length,
  get_elem?, inl, inr, ◌⊎◌, ◌↔◌,
}
use occam.Policy.Recursive.{Walk, one, more}
use occam.Hierarchy.{Node, Graph, Matrix, cell, rows, each_k, close_row, close_rows, closure_chg}
use occam.Hierarchy.Cells.{IsSquare}
use occam.Hierarchy.Within.{Within-zero, Walk-Within}
use occam.Hierarchy.Rounds.{each_k-IsSound, each_k-Finds}
use occam.Hierarchy.Edges.{
  IsEdge, IsAt, no_edge, InRow, IsEdge-close_row, source-IsAt, rows-IsSquare, cell-rows, set-rows,
}

-- The second loops alone: on a square matrix they set the cells of the walks of its cells.
pub each_k-Walk :
    (n : ℕ) (m : Matrix) (a c : ℕ)
    → IsSquare n m
    → a < n
    → ((i j : ℕ) → cell m i j ≡ true → j < n)
    → (cell (each_k n n 0 m) a c ≡ true) ↔ Walk (λ i j. cell m i j ≡ true) a c
each_k-Walk n m a c s ha bound = (each_k-IsSound _ n n 0 m (λ i j h. one h) a c, back)
  where
    back : Walk (λ i j. cell m i j ≡ true) a c → cell (each_k n n 0 m) a c ≡ true
    back w =
        let (hc, v) = Walk-Within n (λ i j e. bound i j e) w in
        each_k-Finds (λ i j. cell m i j ≡ true) n n 0 m s (omega arith)
          (λ i j hi hj u. Within-zero u) a c ha hc v

-- Every edge goes to a node.
abbrev pub IsClosed : Graph → Type 0
IsClosed g = (a b : ℕ) → IsEdge g a b → (j : ℕ) × IsAt g j b

-- The edges that the third loops add.
abbrev InRows : Matrix → Graph → Graph → ℕ → ℕ → Type 0
InRows m nodes all a b = (i : ℕ) × (j : ℕ) × (cell m i j ≡ true) × IsAt nodes i a × IsAt all j b

InRows-cons :
    (r : List Bool) (m : Matrix) (n : Node) (nodes all : Graph) (a b : ℕ)
    → InRows (r ∷ m) (n ∷ nodes) all a b ↔ (((a ≡ n.key) × InRow r all b) ⊎ InRows m nodes all a b)
unfolding cell
InRows-cons r m n nodes all a b = (from, to)
  where
    from :
        InRows (r ∷ m) (n ∷ nodes) all a b → ((a ≡ n.key) × InRow r all b) ⊎ InRows m nodes all a b
    from (zero, j, h, (p, at, k), target) = inl (ground arith, (j, h, target))
    from (suc i, j, h, at, target) = inr (i, j, h, at, target)

    to : ((a ≡ n.key) × InRow r all b) ⊎ InRows m nodes all a b → InRows (r ∷ m) (n ∷ nodes) all a b
    to (inl (k, (j, h, target))) = (0, j, h, (n, refl, sym k), target)
    to (inr (i, j, h, at, target)) = (suc i, j, h, at, target)

IsEdge-close_rows :
    (m : Matrix) (nodes all : Graph) (s : Graph × ℕ) (a b : ℕ)
    → IsEdge (close_rows m nodes all s).0 a b ↔ (IsEdge s.0 a b ⊎ InRows m nodes all a b)
unfolding close_rows cell
IsEdge-close_rows [] nodes all s a b =
    (inl, λ h. elim h [ inl e ↦ e | inr (i, j, x, y, z) ↦ absurd (ground arith) ])
IsEdge-close_rows (r ∷ m) [] all s a b =
    (inl, λ h. elim h [ inl e ↦ e | inr (i, j, x, (n, at, k), z) ↦ absurd (ground arith) ])
IsEdge-close_rows (r ∷ m) (n ∷ nodes) all s a b =
    let rest = IsEdge-close_rows m nodes all (close_row n.key r all s) a b in
    let first = IsEdge-close_row n.key r all s a b in
    let cons = InRows-cons r m n nodes all a b in ground (arith, rest, first, cons)

-- The walks between places, and those between keys.
abbrev Cell : Graph → ℕ → ℕ → Type 0
Cell g i j = cell (rows g g) i j ≡ true

keys_walk :
    (g : Graph) {i j : ℕ}
    → Walk (Cell g) i j
    → (n : Node) × (p : Node) × (get_elem? g i ≡ some n)
      × (get_elem? g j ≡ some p)
      × Walk (IsEdge g) n.key p.key
keys_walk g (one e) = let (n, p, at, to, h) = cell-rows g g _ _ e in (n, p, at, to, one h)
keys_walk g (more w e) =
    let (n, q, at, mid, v) = keys_walk g w in
    let (r, p, mid', to, h) = cell-rows g g _ _ e in
    let same : r ≡ q = ground arith in
    (n, p, at, to, more v (subst (λ (x : Node). IsEdge g x.key p.key) same h))

places_walk :
    (g : Graph) {a b : ℕ}
    → IsClosed g
    → Walk (IsEdge g) a b
    → (i : ℕ) × (j : ℕ) × IsAt g i a × IsAt g j b × Walk (Cell g) i j
places_walk g {a} {b} closed (one e) =
    let (i, (n, at, k)) = source-IsAt a b g e in
    let (j, (p, to, l)) = closed a b e in
    (i, j, (n, at, k), (p, to, l), one (set-rows g g i j n p at to (ground arith)))
places_walk g closed (more {b = c} {c = b} w e) =
    let (i, l, from, (q, mid, k), v) = places_walk g closed w in
    let (j, (p, to, m)) = closed c b e in
    (i, j, from, (p, to, m), more v (set-rows g g l j q p mid to (ground arith)))

lt-length : {A : Type 0} (xs : List A) (i : ℕ) (x : A) → get_elem? xs i ≡ some x → i < length xs
lt-length [] i x h = absurd (ground arith)
lt-length (y ∷ xs) zero x h = omega arith
lt-length (y ∷ xs) (suc i) x h = omega (arith, lt-length xs i x h)

IsAt-lt : (g : Graph) (i a : ℕ) → IsAt g i a → i < length g
IsAt-lt g i a (n, at, k) = lt-length g i n at

-- The cells of the matrix behind the second loops.
closed_cell :
    (g : Graph) (i j : ℕ)
    → i < length g
    → (cell (each_k (length g) (length g) 0 (rows g g)) i j ≡ true) ↔ Walk (Cell g) i j
closed_cell g i j h =
    each_k-Walk (length g) (rows g g) i j (rows-IsSquare g g) h
      (λ i j e. let (n, p, at, to, k) = cell-rows g g i j e in lt-length g j p to)

-- In a graph whose edges all go to nodes, `closureCHG` leaves an edge from one type to another exactly
-- if there was a walk of one edge or more from the one to the other.
pub closure_chg-Walk :
    (g : Graph) (a b : ℕ) → IsClosed g → IsEdge (closure_chg g).0 a b ↔ Walk (IsEdge g) a b
unfolding closure_chg
closure_chg-Walk g a b closed = (from, to)
  where
    m : Matrix
    m = each_k (length g) (length g) 0 (rows g g)

    edges : IsEdge (close_rows m g g ([], 0)).0 a b ↔ (IsEdge [] a b ⊎ InRows m g g a b)
    edges = IsEdge-close_rows m g g ([], 0) a b

    from : IsEdge (close_rows m g g ([], 0)).0 a b → Walk (IsEdge g) a b
    from e = elim (edges.0 e) [
      | inl e ↦ absurd (no_edge a b e)
      | inr (i, j, h, (n, at, k), (p, target, l)) ↦
          let (n', p', at', target', w) =
            keys_walk g ((closed_cell g i j (lt-length g i n at)).0 h) in
          let start : n'.key ≡ a = ground arith in
          let end : p'.key ≡ b = ground arith in
          subst (λ (x : ℕ). Walk (IsEdge g) x b) start
            (subst (λ (x : ℕ). Walk (IsEdge g) n'.key x) end w)
    ]

    to : Walk (IsEdge g) a b → IsEdge (close_rows m g g ([], 0)).0 a b
    to w =
        let (i, j, source, target, v) = places_walk g closed w in
        edges.1 (inr (i, j, (closed_cell g i j (IsAt-lt g i a source)).1 v, source, target))
