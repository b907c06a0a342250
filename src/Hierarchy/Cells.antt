-- ===== src/Hierarchy/Cells.antt =====
-- The cells of the matrix under the loops of `closureCHG`.
use occam.Base.{
  ℕ, zero, suc, ◌<◌, ◌≡◌, refl, Bool, true, ◌&&◌, ◌||◌, List, [], ◌∷◌, arith, length, inl, inr, ◌⊎◌,
  All,
}
use occam.Hierarchy.{Matrix, cell, cell_of, set_cell, set_of, relax, each_j, each_i}

abbrev pub IsSquare : ℕ → Matrix → Type 0
IsSquare n m = (length m ≡ n) × All (λ r. length r ≡ n) m

-- Every cell that is set stays set.
abbrev pub Below : Matrix → Matrix → Type 0
Below m m' = (a c : ℕ) → cell m a c ≡ true → cell m' a c ≡ true

cell_of-set_of :
    (bs : List Bool) (j : ℕ) (v : Bool) (c : ℕ)
    → cell_of (set_of bs j v) c ≡ true
    → ((c ≡ j) × (v ≡ true)) ⊎ (cell_of bs c ≡ true)
unfolding cell_of set_of
cell_of-set_of [] j v c h = inr h
cell_of-set_of (b ∷ bs) zero v zero h = inl (refl, h)
cell_of-set_of (b ∷ bs) zero v (suc c) h = inr h
cell_of-set_of (b ∷ bs) (suc j) v zero h = inr h
cell_of-set_of (b ∷ bs) (suc j) v (suc c) h = ground (arith, cell_of-set_of bs j v c h)

pub cell-set_cell :
    (m : Matrix) (i j : ℕ) (v : Bool) (a c : ℕ)
    → cell (set_cell m i j v) a c ≡ true
    → ((a ≡ i) × (c ≡ j) × (v ≡ true)) ⊎ (cell m a c ≡ true)
unfolding cell set_cell
cell-set_cell [] i j v a c h = inr h
cell-set_cell (r ∷ m) zero j v zero c h = ground (arith, cell_of-set_of r j v c h)
cell-set_cell (r ∷ m) zero j v (suc a) c h = inr h
cell-set_cell (r ∷ m) (suc i) j v zero c h = inr h
cell-set_cell (r ∷ m) (suc i) j v (suc a) c h = ground (arith, cell-set_cell m i j v a c h)

cell_of-keeps :
    (bs : List Bool) (j : ℕ) (v : Bool) (c : ℕ)
    → (cell_of bs j ≡ true → v ≡ true)
    → cell_of bs c ≡ true
    → cell_of (set_of bs j v) c ≡ true
unfolding cell_of set_of
cell_of-keeps [] j v c k h = h
cell_of-keeps (b ∷ bs) zero v zero k h = k h
cell_of-keeps (b ∷ bs) zero v (suc c) k h = h
cell_of-keeps (b ∷ bs) (suc j) v zero k h = h
cell_of-keeps (b ∷ bs) (suc j) v (suc c) k h = cell_of-keeps bs j v c k h

cell-keeps :
    (m : Matrix) (i j : ℕ) (v : Bool) (a c : ℕ)
    → (cell m i j ≡ true → v ≡ true)
    → cell m a c ≡ true
    → cell (set_cell m i j v) a c ≡ true
unfolding cell set_cell
cell-keeps [] i j v a c k h = h
cell-keeps (r ∷ m) zero j v zero c k h = cell_of-keeps r j v c k h
cell-keeps (r ∷ m) zero j v (suc a) c k h = h
cell-keeps (r ∷ m) (suc i) j v zero c k h = h
cell-keeps (r ∷ m) (suc i) j v (suc a) c k h = cell-keeps m i j v a c k h

pub relax-Below : (k i j : ℕ) (m : Matrix) → Below m (relax k i j m)
unfolding relax
relax-Below k i j m a c h = cell-keeps m i j _ a c (λ e. ground arith) h

pub each_j-Below : (left k i j : ℕ) (m : Matrix) → Below m (each_j left k i j m)
unfolding each_j
each_j-Below zero k i j m a c h = h
each_j-Below (suc left) k i j m a c h =
    each_j-Below left k i (suc j) (relax k i j m) a c (relax-Below k i j m a c h)

pub each_i-Below : (left n k i : ℕ) (m : Matrix) → Below m (each_i left n k i m)
unfolding each_i
each_i-Below zero n k i m a c h = h
each_i-Below (suc left) n k i m a c h =
    each_i-Below left n k (suc i) (each_j n k i 0 m) a c (each_j-Below n k i 0 m a c h)

length-set_of : (bs : List Bool) (j : ℕ) (v : Bool) → length (set_of bs j v) ≡ length bs
unfolding set_of
length-set_of [] j v = refl
length-set_of (b ∷ bs) zero v = refl
length-set_of (b ∷ bs) (suc j) v = ground (arith, length-set_of bs j v)

set_cell-IsSquare :
    (n : ℕ) (m : Matrix) (i j : ℕ) (v : Bool) (h : ℕ)
    → (length m ≡ h) × All (λ r. length r ≡ n) m
    → (length (set_cell m i j v) ≡ h) × All (λ r. length r ≡ n) (set_cell m i j v)
unfolding set_cell
set_cell-IsSquare n [] i j v h s = s
set_cell-IsSquare n (r ∷ m) zero j v h s = ground (arith, length-set_of r j v)
set_cell-IsSquare n (r ∷ m) (suc i) j v h s =
    ground (arith, set_cell-IsSquare n m i j v (length m) (refl, s.1.1))

pub relax-IsSquare : (n k i j : ℕ) (m : Matrix) → IsSquare n m → IsSquare n (relax k i j m)
unfolding relax
relax-IsSquare n k i j m s = set_cell-IsSquare n m i j _ n s

pub each_j-IsSquare :
    (n left k i j : ℕ) (m : Matrix) → IsSquare n m → IsSquare n (each_j left k i j m)
unfolding each_j
each_j-IsSquare n zero k i j m s = s
each_j-IsSquare n (suc left) k i j m s =
    each_j-IsSquare n left k i (suc j) (relax k i j m) (relax-IsSquare n k i j m s)

pub each_i-IsSquare :
    (n left k i : ℕ) (m : Matrix) → IsSquare n m → IsSquare n (each_i left n k i m)
unfolding each_i
each_i-IsSquare n zero k i m s = s
each_i-IsSquare n (suc left) k i m s =
    each_i-IsSquare n left k (suc i) (each_j n k i 0 m) (each_j-IsSquare n n k i 0 m s)

cell_of-hit : (bs : List Bool) (j : ℕ) (v : Bool) → j < length bs → cell_of (set_of bs j v) j ≡ v
unfolding cell_of set_of
cell_of-hit [] j v h = absurd (omega arith)
cell_of-hit (b ∷ bs) zero v h = refl
cell_of-hit (b ∷ bs) (suc j) v h = cell_of-hit bs j v (omega arith)

cell-hit :
    (n : ℕ) (m : Matrix) (i j : ℕ) (v : Bool)
    → All (λ r. length r ≡ n) m
    → i < length m
    → j < n
    → cell (set_cell m i j v) i j ≡ v
unfolding cell set_cell
cell-hit n [] i j v s hi hj = absurd (omega arith)
cell-hit n (r ∷ m) zero j v s hi hj = cell_of-hit r j v (ground arith)
cell-hit n (r ∷ m) (suc i) j v s hi hj = cell-hit n m i j v s.1 (omega arith) hj

pub relax-hit :
    (n k i j : ℕ) (m : Matrix)
    → IsSquare n m
    → i < n
    → j < n
    → cell m i k ≡ true
    → cell m k j ≡ true
    → cell (relax k i j m) i j ≡ true
unfolding relax
relax-hit n k i j m s hi hj p q =
    ground (arith, cell-hit n m i j (cell m i j || (cell m i k && cell m k j)) s.1)
