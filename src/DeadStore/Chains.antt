-- ===== src/DeadStore/Chains.antt =====
-- The chains behind a removed store.
use occam.Base.{ℕ, Bool, false, Option, some, List, ◌≡◌, All, In}
use occam.MemorySsa.{Formals}
use occam.DeadStore.{User, Effect, visit_users}
use occam.DeadStore.Readers.{is_reader}

module _ (uses : ℕ → List User) (get_function : ℕ → Option Formals) (only_singleton : Bool) where
  -- The instructions that the def-use chain of an instruction leads to.
  pub data Chain (i : ℕ) : ℕ → Type 0 where
    here : Chain i i
    further :
        {j : ℕ} (k : ℕ) (e : Effect)
        → Chain i j
        → visit_users get_function only_singleton (uses j) ≡ some e
        → In k e.pushed
        → Chain i k

  -- None of the users of the instruction reads its region or keeps the store.
  abbrev pub IsDead : ℕ → Type 0
  IsDead j =
      All (λ u. is_reader only_singleton u ≡ false) (uses j)
      × (e : Effect) × (visit_users get_function only_singleton (uses j) ≡ some e)
      × (e.keep ≡ false)
