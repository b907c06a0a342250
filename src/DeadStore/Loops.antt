-- ===== src/DeadStore/Loops.antt =====
-- One round of the worklist's loop.
use occam.Base.{ℕ, suc, Bool, Option, none, some, List, [], ◌∷◌, ◌≡◌, refl, ap, ◌∙◌, inl, inr, ◌⊎◌}
use occam.MemorySsa.{Formals}
use occam.DeadStore.{User}
use occam.DeadStore.Worklist.{QueueElem, Search, process, loop, Result, finished, fatal}
use occam.DeadStore.Known.{with_queue}

pub List-cases :
    {A : Type 0} (xs : List A) → (xs ≡ []) ⊎ ((x : A) × (rest : List A) × (xs ≡ x ∷ rest))
List-cases [] = inl refl
List-cases (x ∷ xs) = inr (x, xs, refl)

module _ (uses : ℕ → List User) (get_function : ℕ → Option Formals) (only_singleton : Bool)
    (max_len n : ℕ) (t : Search) where
  after : List QueueElem → Result
  after [] = finished t
  after (w ∷ q) = elim (process uses get_function only_singleton max_len w (with_queue q t)) [
    | none ↦ fatal
    | some u ↦ loop uses get_function only_singleton max_len n u
  ]

  next : Option Search → Result
  next none = fatal
  next (some u) = loop uses get_function only_singleton max_len n u

  pub loop-done :
      t.queue ≡ [] → loop uses get_function only_singleton max_len (suc n) t ≡ finished t
  unfolding loop after
  loop-done e = ap after e

  pub loop-fatal :
      (w : QueueElem) (q : List QueueElem)
      → t.queue ≡ w ∷ q
      → process uses get_function only_singleton max_len w (with_queue q t) ≡ none
      → loop uses get_function only_singleton max_len (suc n) t ≡ fatal
  unfolding loop after next
  loop-fatal w q e p = ap after e ∙ ap next p

  pub loop-next :
      (w : QueueElem) (q : List QueueElem) (u : Search)
      → t.queue ≡ w ∷ q
      → process uses get_function only_singleton max_len w (with_queue q t) ≡ some u
      → loop uses get_function only_singleton max_len (suc n) t
        ≡ loop uses get_function only_singleton max_len n u
  unfolding loop after next
  loop-next w q u e p = ap after e ∙ ap next p
