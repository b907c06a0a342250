-- ===== src/DeadStore/Ends.antt =====
-- The worklist of src/transforms/IPDeadStoreElimination.cpp becomes empty.
use occam.Base.{
  ℕ, ◌+◌, ◌%◌, ◌<◌, Bool, true, false, ◌==◌, Option, none, some, List, ◌∷◌, ◌≡◌, sym, ap, subst,
  ◌∙◌, arith, inl, inr, Bool-cases, Option-cases, length,
}
use mathlib.Core.Option.{some-injective}
use occam.MemorySsa.{Formals}
use occam.DeadStore.{User, Effect, visit_users, has_load_user}
use occam.DeadStore.Worklist.{
  QueueElem, Search, is_seen, keep_store, enqueue_all, apply_effect, process,
}
use occam.DeadStore.Known.{with_queue, visited_with}
use occam.DeadStore.Weights.{
  IsWithin, length-enqueue_all, enqueue_all-IsWithin, fan_out, work_left, IsClosed, work_left_mono,
  work_left_less,
}

-- What an effect does to the queue and the visited pairs.
apply_effect-queue :
    (w : QueueElem) (e : Effect) (t : Search)
    → (apply_effect w e t).queue
      ≡ enqueue_all e.pushed w.store_inst ((w.length + 1) % 4294967296) t.queue
unfolding apply_effect keep_store
apply_effect-queue w e t = ground (arith, Bool-cases e.keep)

apply_effect-visited :
    (w : QueueElem) (e : Effect) (t : Search) → (apply_effect w e t).visited ≡ t.visited
unfolding apply_effect keep_store
apply_effect-visited w e t = ground (arith, Bool-cases e.keep)

module _ (uses : ℕ → List User) (get_function : ℕ → Option Formals) (only_singleton : Bool)
    (pairs : List (ℕ × ℕ)) where
  unfoldable pub measure : Search → ℕ
  unfolding work_left
  measure t = work_left uses get_function only_singleton t.visited pairs + length t.queue

  -- The queue is within the pairs, and less is left.
  abbrev pub IsLess : QueueElem → List QueueElem → Search → Search → Type 0
  IsLess w q t u = IsWithin pairs u.queue × (measure u < measure (with_queue (w ∷ q) t))

  seen-IsLess :
      (w : QueueElem) (q : List QueueElem) (t : Search)
      → IsWithin pairs q
      → IsLess w q t (keep_store w.store_inst (with_queue q t))
  unfolding measure keep_store
  seen-IsLess w q t within = (within, omega arith)

  visited-IsLess :
      (w : QueueElem) (q : List QueueElem) (t : Search) (k : ℕ)
      → IsWithin pairs q
      → IsLess w q t (
          keep_store w.store_inst (record (visited_with w (with_queue q t)) { skipped_chains = k }))
  unfolding measure keep_store
  visited-IsLess w q t k within =
      let less =
        work_left_mono uses get_function only_singleton w.shadow_mem_inst w.store_inst t.visited
          pairs in
      (within, omega arith)

  effect-IsLess :
      (w : QueueElem) (q : List QueueElem) (t : Search) (e : Effect)
      → IsClosed uses get_function only_singleton pairs
      → is_seen w.shadow_mem_inst w.store_inst pairs ≡ true
      → IsWithin pairs q
      → is_seen w.shadow_mem_inst w.store_inst t.visited ≡ false
      → visit_users get_function only_singleton (uses w.shadow_mem_inst) ≡ some e
      → IsLess w q t (apply_effect w e (visited_with w (with_queue q t)))
  unfolding measure fan_out
  effect-IsLess w q t e closed member within new done =
      let popped = visited_with w (with_queue q t) in
      let n = (w.length + 1) % 4294967296 in
      let queue = apply_effect-queue w e popped in
      let count : length (apply_effect w e popped).queue ≡ length e.pushed + length q =
        ap length queue ∙ length-enqueue_all e.pushed w.store_inst n q in
      let fan : fan_out uses get_function only_singleton w.shadow_mem_inst ≡ length e.pushed =
        ap (λ (x : Option Effect). elim x [ none ↦ 0 | some f ↦ length f.pushed ]) done in
      let work : work_left uses get_function only_singleton (apply_effect w e popped).visited pairs
          ≡ work_left uses get_function only_singleton popped.visited pairs =
        ap (λ x. work_left uses get_function only_singleton x pairs)
          (apply_effect-visited w e popped) in
      let less =
        work_left_less uses get_function only_singleton w.shadow_mem_inst w.store_inst t.visited
          pairs member new in
      (
        subst (IsWithin pairs) (sym queue) (
            enqueue_all-IsWithin pairs e.pushed w.store_inst n q
              (closed w.shadow_mem_inst w.store_inst e member done) within),
        omega arith,
      )

  pub process-IsLess :
      (max_len : ℕ) (w : QueueElem) (q : List QueueElem) (t u : Search)
      → process uses get_function only_singleton max_len w (with_queue q t) ≡ some u
      → IsClosed uses get_function only_singleton pairs
      → is_seen w.shadow_mem_inst w.store_inst pairs ≡ true
      → IsWithin pairs q
      → IsLess w q t u
  unfolding process
  process-IsLess max_len w q t u h closed member within =
      let popped = with_queue q t in
      elim (Bool-cases (is_seen w.shadow_mem_inst w.store_inst t.visited)) [
        | inl seen ↦
            let same : keep_store w.store_inst popped ≡ u = some-injective _ _ (ground arith) in
            subst (IsLess w q t) same (seen-IsLess w q t within)
        | inr new ↦ elim (Bool-cases (w.length == max_len)) [
          | inl long ↦
              let k = (t.skipped_chains + 1) % 4294967296 in
              let same : keep_store w.store_inst
                    (record (visited_with w popped) { skipped_chains = k })
                  ≡ u =
                some-injective _ _ (ground arith) in
              subst (IsLess w q t) same (visited-IsLess w q t k within)
          | inr short ↦
              elim (Bool-cases
                (has_load_user get_function only_singleton (uses w.shadow_mem_inst))) [
                  | inl loaded ↦
                      let same : keep_store w.store_inst (visited_with w popped) ≡ u =
                        some-injective _ _ (ground arith) in
                      subst (IsLess w q t) same (visited-IsLess w q t t.skipped_chains within)
                  | inr free ↦
                      elim (Option-cases
                        (visit_users get_function only_singleton (uses w.shadow_mem_inst))) [
                          | inl failed ↦ absurd (ground arith)
                          | inr (e, done) ↦
                              let same : apply_effect w e (visited_with w popped) ≡ u =
                                some-injective _ _ (ground arith) in
                              subst (IsLess w q t) same
                                (effect-IsLess w q t e closed member within new done)
                        ]
                ]
        ]
      ]
