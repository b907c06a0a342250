-- ===== src/DeadStore/Safe.antt =====
-- A store that is removed has no load behind it.
use occam.Base.{
  ℕ, ◌+◌, ◌%◌, Bool, true, false, ◌==◌, Option, some, List, [], ◌∷◌, ◌≡◌, ◌≢◌, refl, sym, ap, subst,
  ◌∙◌, arith, inl, inr, All, Bool-cases,
}
use occam.MemorySsa.{Formals}
use occam.DeadStore.{User, Effect, visit_users, has_load_user}
use occam.DeadStore.Worklist.{
  QueueElem, Search, is_seen, mark, find_mark, keep_store, enqueue_all, apply_effect,
}
use occam.DeadStore.Known.{
  is_known, find_mark-mark, is_queued-enqueue_all, enqueued-is_queued, queued-is_known, seen-cons,
  Knows, seen_other, Knows-visited, with_queue, visited_with,
}

module _ (uses : ℕ → List User) (get_function : ℕ → Option Formals) (only_singleton : Bool) where
  -- The instruction has no load among its users, its users do not keep the store, and where they lead is
  -- marked.
  pub record IsClear (Marked : ℕ → Type 0) (i : ℕ) : Type 0 where
    pub no_load : has_load_user get_function only_singleton (uses i) ≡ false
    pub effect : Effect
    pub visited : visit_users get_function only_singleton (uses i) ≡ some effect
    pub not_kept : effect.keep ≡ false
    pub marked : All Marked effect.pushed

  -- Every visited instruction of a store that is still to be removed is clear.
  abbrev pub IsSafe : Search → Type 0
  IsSafe t =
      (i s : ℕ)
      → find_mark s t.store_map ≡ some false
      → is_seen i s t.visited ≡ true
      → IsClear (λ j. is_known j s t ≡ true) i

  All-map : {P Q : ℕ → Type 0} (is : List ℕ) → ((i : ℕ) → P i → Q i) → All P is → All Q is
  All-map [] f h = tt
  All-map (i ∷ is) f h = (f i h.0, All-map is f h.1)

  IsClear-weaken : {P Q : ℕ → Type 0} (i : ℕ) → ((j : ℕ) → P j → Q j) → IsClear P i → IsClear Q i
  IsClear-weaken i f c = record {
    no_load = c.no_load;
    effect = c.effect;
    visited = c.visited;
    not_kept = c.not_kept;
    marked = All-map c.effect.pushed f c.marked;
  }

  -- A step that keeps the store of its element.
  pub kept-IsSafe :
      (w : QueueElem) (t u : Search)
      → u.store_map ≡ mark w.store_inst true t.store_map
      → ((i s : ℕ) → s ≢ w.store_inst → is_seen i s u.visited ≡ true → is_seen i s t.visited ≡ true)
      → Knows t u
      → IsSafe t
      → IsSafe u
  kept-IsSafe w t u marks seen knows safe i s m v =
      let found = ap (find_mark s) marks ∙ find_mark-mark s w.store_inst true t.store_map in
      elim (Bool-cases (s == w.store_inst)) [
        | inl same ↦ absurd (ground arith)
        | inr other ↦
            let old : find_mark s t.store_map ≡ some false = ground arith in
            let differs : s ≢ w.store_inst = λ e. ground arith in
            IsClear-weaken i (λ j. knows j s) (safe i s old (seen i s differs v))
      ]

  pub apply_effect-kept :
      (w : QueueElem) (e : Effect) (t : Search) (q : List QueueElem)
      → e.keep ≡ true
      → IsSafe (with_queue (w ∷ q) t)
      → IsSafe (apply_effect w e (visited_with w (with_queue q t)))
        × Knows (with_queue (w ∷ q) t) (apply_effect w e (visited_with w (with_queue q t)))
  unfolding apply_effect keep_store
  apply_effect-kept w e t q k safe =
      let m = mark w.store_inst true t.store_map in
      let p = enqueue_all e.pushed w.store_inst ((w.length + 1) % 4294967296) q in
      let u : Search = record {
        queue = p;
        visited = (w.shadow_mem_inst, w.store_inst) ∷ t.visited;
        store_map = m;
        skipped_chains = t.skipped_chains;
      } in
      let same : apply_effect w e (visited_with w (with_queue q t)) ≡ u = ground arith in
      let knows =
        Knows-visited w q p t.visited t.store_map m t.skipped_chains t.skipped_chains
          (λ i s h. is_queued-enqueue_all i s e.pushed w.store_inst _ q h) in
      let kept = kept-IsSafe w (with_queue (w ∷ q) t) u refl (seen_other w t.visited) knows safe in
      (subst IsSafe (sym same) kept, subst (Knows (with_queue (w ∷ q) t)) (sym same) knows)

  pub apply_effect-clear :
      (w : QueueElem) (e : Effect) (t : Search) (q : List QueueElem)
      → e.keep ≡ false
      → has_load_user get_function only_singleton (uses w.shadow_mem_inst) ≡ false
      → visit_users get_function only_singleton (uses w.shadow_mem_inst) ≡ some e
      → IsSafe (with_queue (w ∷ q) t)
      → IsSafe (apply_effect w e (visited_with w (with_queue q t)))
        × Knows (with_queue (w ∷ q) t) (apply_effect w e (visited_with w (with_queue q t)))
  unfolding apply_effect
  apply_effect-clear w e t q k no_load effect safe =
      let p = enqueue_all e.pushed w.store_inst ((w.length + 1) % 4294967296) q in
      let u : Search = record {
        queue = p;
        visited = (w.shadow_mem_inst, w.store_inst) ∷ t.visited;
        store_map = t.store_map;
        skipped_chains = t.skipped_chains;
      } in
      let same : apply_effect w e (visited_with w (with_queue q t)) ≡ u = ground arith in
      let knows =
        Knows-visited w q p t.visited t.store_map t.store_map t.skipped_chains t.skipped_chains
          (λ i s h. is_queued-enqueue_all i s e.pushed w.store_inst _ q h) in
      let fresh : IsClear (λ j. is_known j w.store_inst u ≡ true) w.shadow_mem_inst = record {
        no_load = no_load;
        effect = e;
        visited = effect;
        not_kept = k;
        marked =
            All-map e.pushed (λ j h. queued-is_known j w.store_inst u h)
              (enqueued-is_queued e.pushed w.store_inst ((w.length + 1) % 4294967296) q);
      } in
      let clear : IsSafe u = λ i s m v. elim (seen-cons w t.visited i s v) [
        | inl (inst, store) ↦
            subst (λ (x : ℕ). IsClear (λ j. is_known j s u ≡ true) x) (sym inst)
              (subst (λ (y : ℕ). IsClear (λ j. is_known j y u ≡ true) w.shadow_mem_inst) (sym store)
                fresh)
        | inr old ↦ IsClear-weaken i (λ j. knows j s) (safe i s m old)
      ] in
      (subst IsSafe (sym same) clear, subst (Knows (with_queue (w ∷ q) t)) (sym same) knows)
