-- ===== src/Resolvers/Maps.antt =====
-- The maps of the resolvers.
use occam.Base.{ℕ, false, ◌==◌, none, some, List, [], ◌∷◌, ◌≡◌, arith, Bool-cases, inl, inr, ◌⊎◌}
use mathlib.Core.Option.{some-injective}
use occam.Resolvers.{lookup, insert_new}

module _ {V : Type 0} where
  -- What is found behind an insertion is new or was there.
  pub lookup-insert_new :
      (k j : ℕ) (v w : V) (m : List (ℕ × V))
      → lookup k (insert_new j v m) ≡ some w
      → ((k ≡ j) × (w ≡ v)) ⊎ (lookup k m ≡ some w)
  unfolding lookup insert_new
  lookup-insert_new k j v w [] h = elim (Bool-cases (k == j)) [
    | inl same ↦ inl (ground arith, some-injective _ _ (ground arith))
    | inr other ↦ absurd (ground arith)
  ]
  lookup-insert_new k j v w ((i, x) ∷ m) h = elim (Bool-cases (j == i)) [
    | inl here ↦ inr (ground arith)
    | inr there ↦ elim (Bool-cases (k == i)) [
      | inl same ↦ inr (ground arith)
      | inr other ↦ elim (lookup-insert_new k j v w m (ground arith)) [
        | inl new ↦ inl new
        | inr old ↦ inr (ground arith)
      ]
    ]
  ]

  pub lookup-insert_other :
      (k j : ℕ) (v : V) (m : List (ℕ × V))
      → (k == j) ≡ false
      → lookup k m ≡ none
      → lookup k (insert_new j v m) ≡ none
  unfolding lookup insert_new
  lookup-insert_other k j v [] h n = ground arith
  lookup-insert_other k j v ((i, w) ∷ m) h n = ground (arith, lookup-insert_other k j v m h)
