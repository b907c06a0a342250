-- ===== src/DeadStore/Weights.antt =====
-- The work that the worklist of src/transforms/IPDeadStoreElimination.cpp has left.
use occam.Base.{
  ℕ, suc, ◌+◌, ◌≤◌, Bool, true, false, ◌&&◌, ◌==◌, Option, none, some, List, [], ◌∷◌, ◌≡◌, sym, ap,
  ◌∙◌, arith, inl, inr, All, Bool-cases, if◌then◌else◌, length,
}
use occam.MemorySsa.{Formals}
use occam.DeadStore.{User, Effect, visit_users}
use occam.DeadStore.Worklist.{QueueElem, is_seen, enqueue_all}

-- The elements of a queue are among the pairs.
abbrev pub IsWithin : List (ℕ × ℕ) → List QueueElem → Type 0
IsWithin pairs q = All (λ w. is_seen w.shadow_mem_inst w.store_inst pairs ≡ true) q

pub length-enqueue_all :
    (is : List ℕ) (s n : ℕ) (q : List QueueElem)
    → length (enqueue_all is s n q) ≡ length is + length q
unfolding enqueue_all
length-enqueue_all [] s n q = omega arith
length-enqueue_all (i ∷ is) s n q = ground (
  arith,
  length-enqueue_all is s n ((record { shadow_mem_inst = i; store_inst = s; length = n }) ∷ q),
)

pub enqueue_all-IsWithin :
    (pairs : List (ℕ × ℕ)) (is : List ℕ) (s n : ℕ) (q : List QueueElem)
    → All (λ i. is_seen i s pairs ≡ true) is
    → IsWithin pairs q
    → IsWithin pairs (enqueue_all is s n q)
unfolding enqueue_all
enqueue_all-IsWithin pairs [] s n q next here = here
enqueue_all-IsWithin pairs (i ∷ is) s n q next here =
    enqueue_all-IsWithin pairs is s n _ next.1 (next.0, here)

module _ (uses : ℕ → List User) (get_function : ℕ → Option Formals) (only_singleton : Bool) where
  -- The number of instructions that the users of an instruction put on the queue.
  unfoldable pub fan_out : ℕ → ℕ
  fan_out i = elim (visit_users get_function only_singleton (uses i)) [
    | none ↦ 0
    | some e ↦ length e.pushed
  ]

  -- The elements that the pairs, less the visited ones, can still put on the queue, with themselves.
  unfoldable pub work_left : List (ℕ × ℕ) → List (ℕ × ℕ) → ℕ
  unfolding is_seen fan_out
  work_left visited [] = 0
  work_left visited ((i, s) ∷ pairs) =
      (if is_seen i s visited then 0 else suc (fan_out i)) + work_left visited pairs

  -- The pairs hold what the users of one of them lead to.
  abbrev pub IsClosed : List (ℕ × ℕ) → Type 0
  IsClosed pairs =
      (i s : ℕ) (e : Effect)
      → is_seen i s pairs ≡ true
      → visit_users get_function only_singleton (uses i) ≡ some e
      → All (λ j. is_seen j s pairs ≡ true) e.pushed

  pub work_left_mono :
      (i s : ℕ) (v pairs : List (ℕ × ℕ)) → work_left ((i, s) ∷ v) pairs ≤ work_left v pairs
  unfolding work_left is_seen
  work_left_mono i s v [] = omega arith
  work_left_mono i s v ((j, r) ∷ pairs) =
      ground (
        arith,
        work_left_mono i s v pairs,
        Bool-cases (is_seen j r v),
        Bool-cases (j == i && r == s),
      )

  pub work_left_less :
      (i s : ℕ) (v pairs : List (ℕ × ℕ))
      → is_seen i s pairs ≡ true
      → is_seen i s v ≡ false
      → suc (fan_out i) + work_left ((i, s) ∷ v) pairs ≤ work_left v pairs
  unfolding work_left is_seen
  work_left_less i s v [] h new = absurd (ground arith)
  work_left_less i s v ((j, r) ∷ pairs) h new = elim (Bool-cases (i == j && s == r)) [
    | inl same ↦
        let key : i ≡ j = ground arith in
        let store : s ≡ r = ground arith in
        let fan : fan_out j ≡ fan_out i = ap fan_out (sym key) in
        let old : is_seen j r v ≡ false =
          ap (λ x. is_seen x r v) (sym key) ∙ ap (λ y. is_seen i y v) (sym store) ∙ new in
        ground (arith, work_left_mono i s v pairs)
    | inr other ↦
        let rest = work_left_less i s v pairs (ground arith) new in
        ground (arith, rest, Bool-cases (is_seen j r v), Bool-cases (j == i && r == s))
  ]
