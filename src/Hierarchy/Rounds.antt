-- ===== src/Hierarchy/Rounds.antt =====
-- What the loops of `closureCHG` do to the matrix: they set the cells of the walks, and no other.
use occam.Base.{ℕ, zero, suc, ◌+◌, ◌<◌, ◌≤◌, ◌≡◌, subst, sym, true, arith, inl, inr, Bool-cases}
use native.Mathlib.Decide.{ℕ_discrete}
use occam.Policy.Recursive.{Walk, one, more}
use occam.Hierarchy.{Matrix, cell, relax, each_j, each_i, each_k}
use occam.Hierarchy.Cells.{
  IsSquare, cell-set_cell, relax-Below, each_j-Below, each_i-Below, relax-IsSquare, each_j-IsSquare,
  each_i-IsSquare, relax-hit,
}
use occam.Hierarchy.Within.{Within, keep, through}

pub append_walk : {E : ℕ → ℕ → Type 0} {a b c : ℕ} → Walk E a b → Walk E b c → Walk E a c
append_walk w (one e) = more w e
append_walk w (more v e) = more (append_walk w v) e

pub map_walk :
    {E F : ℕ → ℕ → Type 0} {a b : ℕ} → ((i j : ℕ) → E i j → F i j) → Walk E a b → Walk F a b
map_walk f (one e) = one (f _ _ e)
map_walk f (more w e) = more (map_walk f w) (f _ _ e)

-- Every cell that is set is a walk.
abbrev pub IsSound : (ℕ → ℕ → Type 0) → Matrix → Type 0
IsSound E m = (a c : ℕ) → cell m a c ≡ true → Walk E a c

module _ (E : ℕ → ℕ → Type 0) where
  pub relax-IsSound : (k i j : ℕ) (m : Matrix) → IsSound E m → IsSound E (relax k i j m)
  unfolding relax
  relax-IsSound k i j m s a c h = elim (cell-set_cell m i j _ a c h) [
    | inl (p, q, v) ↦ elim (Bool-cases (cell m i j)) [
      | inl old ↦ s a c (ground arith)
      | inr new ↦
          let first : cell m a k ≡ true = ground arith in
          let last : cell m k c ≡ true = ground arith in append_walk (s a k first) (s k c last)
    ]
    | inr old ↦ s a c old
  ]

  each_j-IsSound : (left k i j : ℕ) (m : Matrix) → IsSound E m → IsSound E (each_j left k i j m)
  unfolding each_j
  each_j-IsSound zero k i j m s = s
  each_j-IsSound (suc left) k i j m s =
      each_j-IsSound left k i (suc j) (relax k i j m) (relax-IsSound k i j m s)

  each_i-IsSound : (left n k i : ℕ) (m : Matrix) → IsSound E m → IsSound E (each_i left n k i m)
  unfolding each_i
  each_i-IsSound zero n k i m s = s
  each_i-IsSound (suc left) n k i m s =
      each_i-IsSound left n k (suc i) (each_j n k i 0 m) (each_j-IsSound n k i 0 m s)

  pub each_k-IsSound : (left n k : ℕ) (m : Matrix) → IsSound E m → IsSound E (each_k left n k m)
  unfolding each_k
  each_k-IsSound zero n k m s = s
  each_k-IsSound (suc left) n k m s =
      each_k-IsSound left n (suc k) (each_i n n k 0 m) (each_i-IsSound n n k 0 m s)

each_j-hit :
    (n left k i j c : ℕ) (m : Matrix)
    → IsSquare n m
    → i < n
    → c < n
    → j ≤ c
    → c < j + left
    → cell m i k ≡ true
    → cell m k c ≡ true
    → cell (each_j left k i j m) i c ≡ true
unfolding each_j
each_j-hit n zero k i j c m s hi hc lo hi' p q = absurd (omega arith)
each_j-hit n (suc left) k i j c m s hi hc lo hi' p q = elim (ℕ_discrete j c) [
  | Prim.yes now ↦ each_j-Below left k i (suc j) (relax k i j m) i c (
      subst (λ (x : ℕ). cell (relax k i x m) i c ≡ true) (sym now)
        (relax-hit n k i c m s hi hc p q))
  | Prim.no later ↦
      each_j-hit n left k i (suc j) c (relax k i j m) (relax-IsSquare n k i j m s) hi hc
        (omega arith) (omega arith) (relax-Below k i j m i k p) (relax-Below k i j m k c q)
]

each_i-hit :
    (n left k i a c : ℕ) (m : Matrix)
    → IsSquare n m
    → a < n
    → c < n
    → i ≤ a
    → a < i + left
    → cell m a k ≡ true
    → cell m k c ≡ true
    → cell (each_i left n k i m) a c ≡ true
unfolding each_i
each_i-hit n zero k i a c m s ha hc lo up p q = absurd (omega arith)
each_i-hit n (suc left) k i a c m s ha hc lo up p q = elim (ℕ_discrete i a) [
  | Prim.yes now ↦ each_i-Below left n k (suc i) (each_j n k i 0 m) a c (
      subst (λ (x : ℕ). cell (each_j n k x 0 m) a c ≡ true) (sym now)
        (each_j-hit n n k a 0 c m s ha hc (omega arith) (omega arith) p q))
  | Prim.no later ↦
      each_i-hit n left k (suc i) a c (each_j n k i 0 m) (each_j-IsSquare n n k i 0 m s) ha hc
        (omega arith) (omega arith) (each_j-Below n k i 0 m a k p) (each_j-Below n k i 0 m k c q)
]

-- The cells of the walks whose inner nodes are below `k` are set.
abbrev pub Finds : (ℕ → ℕ → Type 0) → ℕ → ℕ → Matrix → Type 0
Finds E n k m = (a c : ℕ) → a < n → c < n → Within E k a c → cell m a c ≡ true

module _ (E : ℕ → ℕ → Type 0) where
  pub each_i-Finds :
      (n k : ℕ) (m : Matrix)
      → IsSquare n m
      → k < n
      → Finds E n k m
      → Finds E n (suc k) (each_i n n k 0 m)
  each_i-Finds n k m s hk f a c ha hc (keep w) = each_i-Below n n k 0 m a c (f a c ha hc w)
  each_i-Finds n k m s hk f a c ha hc (through w v) =
      each_i-hit n n k 0 a c m s ha hc (omega arith) (omega arith) (f a k ha hk w) (f k c hk hc v)

  pub each_k-Finds :
      (n left k : ℕ) (m : Matrix)
      → IsSquare n m
      → k + left ≡ n
      → Finds E n k m
      → Finds E n n (each_k left n k m)
  unfolding each_k
  each_k-Finds n zero k m s e f a c ha hc w =
      f a c ha hc (subst (λ (x : ℕ). Within E x a c) (omega arith) w)
  each_k-Finds n (suc left) k m s e f a c ha hc w =
      each_k-Finds n left (suc k) (each_i n n k 0 m) (each_i-IsSquare n n k 0 m s) (omega arith)
        (each_i-Finds n k m s (omega arith) f) a c ha hc w
