-- ===== src/Hierarchy/Within.antt =====
-- Walks whose inner nodes are numbered below a bound: what the rounds of `closureCHG` find one by one.
use occam.Base.{ℕ, zero, suc, ◌<◌, subst, arith}
use native.Mathlib.Decide.{ℕ_discrete}
use occam.Policy.Recursive.{Walk, one, more}

pub data Within (E : ℕ → ℕ → Type 0) : ℕ → ℕ → ℕ → Type 0 where
  edge : {i j : ℕ} → E i j → Within E 0 i j
  keep : {k i j : ℕ} → Within E k i j → Within E (suc k) i j
  through : {k i j : ℕ} → Within E k i k → Within E k k j → Within E (suc k) i j

module _ {E : ℕ → ℕ → Type 0} where
  to_last : (k : ℕ) {i : ℕ} → Within E (suc k) i k → Within E k i k
  to_last k (keep w) = w
  to_last k (through w v) = w

  from_last : (k : ℕ) {j : ℕ} → Within E (suc k) k j → Within E k k j
  from_last k (keep w) = w
  from_last k (through w v) = v

  join_below :
      (k l : ℕ) {i j : ℕ}
      → ((a b : ℕ) → Within E k a l → Within E k l b → Within E k a b)
      → Within E (suc k) i l
      → Within E (suc k) l j
      → Within E (suc k) i j
  join_below k l ih (keep w) (keep v) = keep (ih _ _ w v)
  join_below k l ih (keep w) (through v u) = through (ih _ _ w v) u
  join_below k l ih (through w v) (keep u) = through w (ih _ _ v u)
  join_below k l ih (through w v) (through u t) = through w t

  -- Two walks that meet at a node below the bound are one.
  pub join : (k l : ℕ) {i j : ℕ} → l < k → Within E k i l → Within E k l j → Within E k i j
  join zero l h p q = absurd (omega arith)
  join (suc k) l {i} {j} h p q = elim (ℕ_discrete l k) [
    | Prim.yes same ↦
        through (to_last k (subst (λ (x : ℕ). Within E (suc k) i x) same p))
          (from_last k (subst (λ (x : ℕ). Within E (suc k) x j) same q))
    | Prim.no other ↦
        let less : l < k = omega arith in join_below k l (λ a b w v. join k l less w v) p q
  ]

  pub Within-zero : {i j : ℕ} → Within E 0 i j → E i j
  Within-zero (edge e) = e

  edge_within : (n : ℕ) {i j : ℕ} → E i j → Within E n i j
  edge_within zero e = edge e
  edge_within (suc n) e = keep (edge_within n e)

  -- A walk of one edge or more has its inner nodes below a bound that every target is below.
  pub Walk-Within :
      (n : ℕ) → ((i j : ℕ) → E i j → j < n) → {i j : ℕ} → Walk E i j → (j < n) × Within E n i j
  Walk-Within n bound (one e) = (bound _ _ e, edge_within n e)
  Walk-Within n bound (more w e) =
      let (b, v) = Walk-Within n bound w in (bound _ _ e, join n _ b v (edge_within n e))
