-- ===== src/DeadStore/Removed.antt =====
-- The stores that a finished run removes.
use occam.Base.{
  ℕ, zero, suc, ◌+◌, ◌%◌, Bool, true, ◌==◌, Option, some, List, [], ◌∷◌, ◌≡◌, refl, sym, ap, subst,
  ◌∙◌, arith, inl, inr, Bool-cases, Option-cases,
}
use mathlib.Core.Option.{some-injective}
use occam.MemorySsa.{Formals}
use occam.DeadStore.{User, visit_users, has_load_user}
use occam.DeadStore.Worklist.{
  QueueElem, Search, is_seen, mark, keep_store, apply_effect, process, loop, finished, fatal,
}
use occam.DeadStore.Loops.{List-cases, loop-done, loop-fatal, loop-next}
use occam.DeadStore.Known.{
  is_known, Knows, seen_other, Knows-visited, Knows-again, with_queue, visited_with,
}
use occam.DeadStore.Safe.{IsSafe, kept-IsSafe, apply_effect-kept, apply_effect-clear}

finished-injective : {t u : Search} → finished t ≡ finished u → t ≡ u
finished-injective e = ground arith

pub fatal-finished : {u : Search} → fatal ≡ finished u → ⊥
fatal-finished e = ground arith

module _ (uses : ℕ → List User) (get_function : ℕ → Option Formals) (only_singleton : Bool)
    (max_len : ℕ) where
  -- The state behind a step is safe, and all that was known is known.
  abbrev pub IsStep : Search → Search → Type 0
  IsStep t u = IsSafe uses get_function only_singleton u × Knows t u

  keep_again :
      (w : QueueElem) (q : List QueueElem) (t : Search)
      → is_seen w.shadow_mem_inst w.store_inst t.visited ≡ true
      → IsSafe uses get_function only_singleton (with_queue (w ∷ q) t)
      → IsStep (with_queue (w ∷ q) t) (keep_store w.store_inst (with_queue q t))
  unfolding keep_store
  keep_again w q t seen safe =
      let knows =
        Knows-again w q t.visited t.store_map (mark w.store_inst true t.store_map) t.skipped_chains
          seen in
      (
        kept-IsSafe uses get_function only_singleton w (with_queue (w ∷ q) t) _ refl (λ i s d h. h)
            knows safe,
        knows,
      )

  keep_visited :
      (w : QueueElem) (q : List QueueElem) (t : Search) (k : ℕ)
      → IsSafe uses get_function only_singleton (with_queue (w ∷ q) t)
      → IsStep (with_queue (w ∷ q) t) (
          keep_store w.store_inst (record (visited_with w (with_queue q t)) { skipped_chains = k }))
  unfolding keep_store
  keep_visited w q t k safe =
      let knows =
        Knows-visited w q q t.visited t.store_map (mark w.store_inst true t.store_map)
          t.skipped_chains k (λ i s h. h) in
      (
        kept-IsSafe uses get_function only_singleton w (with_queue (w ∷ q) t) _ refl
            (seen_other w t.visited) knows safe,
        knows,
      )

  process-IsStep :
      (w : QueueElem) (q : List QueueElem) (t u : Search)
      → process uses get_function only_singleton max_len w (with_queue q t) ≡ some u
      → IsSafe uses get_function only_singleton (with_queue (w ∷ q) t)
      → IsStep (with_queue (w ∷ q) t) u
  unfolding process
  process-IsStep w q t u h safe =
      let popped = with_queue q t in
      let step = IsStep (with_queue (w ∷ q) t) in
      elim (Bool-cases (is_seen w.shadow_mem_inst w.store_inst t.visited)) [
        | inl seen ↦
            let same : keep_store w.store_inst popped ≡ u = some-injective _ _ (ground arith) in
            subst step same (keep_again w q t seen safe)
        | inr new ↦ elim (Bool-cases (w.length == max_len)) [
          | inl long ↦
              let same : keep_store w.store_inst (record (visited_with w popped) {
                skipped_chains = (t.skipped_chains + 1) % 4294967296;
              })
                  ≡ u =
                some-injective _ _ (ground arith) in
              subst step same (keep_visited w q t _ safe)
          | inr short ↦
              elim (Bool-cases
                (has_load_user get_function only_singleton (uses w.shadow_mem_inst))) [
                  | inl loaded ↦
                      let same : keep_store w.store_inst (visited_with w popped) ≡ u =
                        some-injective _ _ (ground arith) in
                      subst step same (keep_visited w q t t.skipped_chains safe)
                  | inr free ↦
                      elim (Option-cases
                        (visit_users get_function only_singleton (uses w.shadow_mem_inst))) [
                          | inl failed ↦ absurd (ground arith)
                          | inr (e, done) ↦
                              let same : apply_effect w e (visited_with w popped) ≡ u =
                                some-injective _ _ (ground arith) in
                              elim (Bool-cases e.keep) [
                                | inl keeps ↦ subst step same (
                                    apply_effect-kept uses get_function only_singleton w e t q keeps
                                      safe)
                                | inr clear ↦ subst step same (
                                    apply_effect-clear uses get_function only_singleton w e t q
                                      clear free done safe)
                              ]
                        ]
                ]
        ]
      ]

  pub loop-IsStep :
      (n : ℕ) (t u : Search)
      → loop uses get_function only_singleton max_len n t ≡ finished u
      → IsSafe uses get_function only_singleton t
      → IsStep t u × (u.queue ≡ [])
  unfolding loop
  loop-IsStep zero t u h safe = absurd (ground arith)
  loop-IsStep (suc n) t u h safe = elim (List-cases t.queue) [
    | inl done ↦
        let ends = loop-done uses get_function only_singleton max_len n t done in
        let same : t ≡ u = finished-injective (sym ends ∙ h) in
        (subst (IsStep t) same (safe, λ i s k. k), ap (λ (x : Search). x.queue) (sym same) ∙ done)
    | inr (w, q, e) ↦
        let whole : t ≡ with_queue (w ∷ q) t = ap (λ (x : List QueueElem). with_queue x t) e in
        elim (Option-cases (process uses get_function only_singleton max_len w (with_queue q t))) [
          | inl failed ↦ absurd (
              fatal-finished
                (sym (loop-fatal uses get_function only_singleton max_len n t w q e failed) ∙ h))
          | inr (v, ok) ↦
              let (safe', knows) =
                process-IsStep w q t v ok
                  (subst (IsSafe uses get_function only_singleton) whole safe) in
              let rest = loop-next uses get_function only_singleton max_len n t w q v e ok in
              let ((safe'', knows'), done) = loop-IsStep n v u (sym rest ∙ h) safe' in
              (
                (
                  safe'',
                  λ i s k.
                      knows' i s
                        (knows i s (subst (λ (x : Search). is_known i s x ≡ true) whole k)),
                ),
                done,
              )
        ]
  ]
