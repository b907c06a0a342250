-- ===== src/DeadStore/Total.antt =====
-- The whole run of src/transforms/IPDeadStoreElimination.cpp ends.
use occam.Base.{
  ℕ, zero, suc, ◌+◌, ◌<◌, ◌≤◌, Bool, true, Option, some, List, [], ◌∷◌, ◌≡◌, ◌≢◌, refl, sym, ap,
  subst, ◌∙◌, arith, inl, inr, Bool-cases, Option-cases, length,
}
use mathlib.Core.Option.{some-injective}
use occam.MemorySsa.{Formals, store, is_mem_ssa}
use occam.DeadStore.{User}
use occam.DeadStore.Worklist.{
  QueueElem, Search, is_seen, process, loop, finished, fatal, out_of_fuel, Inst, mem_call,
  store_inst, other_inst, next_store, start_chain, start_search, empty_search, run_dse,
}
use occam.DeadStore.Known.{with_queue}
use occam.DeadStore.Loops.{List-cases, loop-done, loop-fatal, loop-next}
use occam.DeadStore.Starts.{IsStart, start_chain-visited}
use occam.DeadStore.Weights.{IsWithin, work_left, IsClosed}
use occam.DeadStore.Ends.{measure, process-IsLess}

finished-out_of_fuel : {t : Search} → finished t ≢ out_of_fuel
finished-out_of_fuel e = ground arith

fatal-out_of_fuel : fatal ≢ out_of_fuel
fatal-out_of_fuel e = ground arith

start_chain-IsWithin :
    (pairs : List (ℕ × ℕ)) (i s : ℕ) (t : Search)
    → is_seen i s pairs ≡ true
    → IsWithin pairs t.queue
    → IsWithin pairs (start_chain i s t).queue
unfolding start_chain
start_chain-IsWithin pairs i s t h here = (h, here)

length-start_chain :
    (i s : ℕ) (t : Search) → length (start_chain i s t).queue ≡ suc (length t.queue)
unfolding start_chain
length-start_chain i s t = refl

-- What the first worklist adds, over the pairs that hold each start.
pub start_search-IsWithin :
    (only_singleton : Bool) (pairs : List (ℕ × ℕ)) (insts : List Inst) (t u : Search)
    → ((i s : ℕ) → IsStart only_singleton insts i s → is_seen i s pairs ≡ true)
    → start_search only_singleton insts t ≡ some u
    → IsWithin pairs t.queue
    → IsWithin pairs u.queue
      × (u.visited ≡ t.visited)
      × (length u.queue ≤ length t.queue + length insts)
unfolding start_search
start_search-IsWithin only_singleton pairs [] t u starts h within =
    let same : t ≡ u = some-injective _ _ h in
    let count : length t.queue ≡ length u.queue = ap (λ (x : Search). length x.queue) same in
    (
      subst (λ (x : Search). IsWithin pairs x.queue) same within,
      ap (λ (x : Search). x.visited) (sym same),
      omega arith,
    )
start_search-IsWithin only_singleton pairs (store_inst a ∷ rest) t u starts h within =
    let (a, b, c) = start_search-IsWithin only_singleton pairs rest t u starts h within in
    (a, b, omega arith)
start_search-IsWithin only_singleton pairs (other_inst ∷ rest) t u starts h within =
    let (a, b, c) = start_search-IsWithin only_singleton pairs rest t u starts h within in
    (a, b, omega arith)
start_search-IsWithin only_singleton pairs (mem_call c ∷ rest) t u starts h within =
    elim (Bool-cases (is_mem_ssa store c only_singleton)) [
      | inl stores ↦ elim (Option-cases (next_store rest)) [
        | inl missing ↦ absurd (ground arith)
        | inr (s, e) ↦
            let (x, y, z) =
              start_search-IsWithin only_singleton pairs rest (start_chain c.address s t) u
                (λ i r st. starts i r (inr st)) (ground arith)
                (start_chain-IsWithin pairs c.address s t
                  (starts c.address s (inl (stores, refl, e))) within) in
            let count = length-start_chain c.address s t in
            (x, y ∙ start_chain-visited c.address s t, omega arith)
      ]
      | inr other ↦
          let (x, y, z) =
            start_search-IsWithin only_singleton pairs rest t u (λ i r st. starts i r (inr st))
              (ground arith) within in
          (x, y, omega arith)
    ]

module _ (uses : ℕ → List User) (get_function : ℕ → Option Formals) (only_singleton : Bool)
    (max_len : ℕ) (pairs : List (ℕ × ℕ)) where
  loop-out_of_fuel :
      (n : ℕ) (t : Search)
      → IsClosed uses get_function only_singleton pairs
      → IsWithin pairs t.queue
      → measure uses get_function only_singleton pairs t < n
      → loop uses get_function only_singleton max_len n t ≢ out_of_fuel
  loop-out_of_fuel zero t closed within enough h = absurd (omega arith)
  loop-out_of_fuel (suc n) t closed within enough h = elim (List-cases t.queue) [
    | inl done ↦
        finished-out_of_fuel (sym (loop-done uses get_function only_singleton max_len n t done) ∙ h)
    | inr (w, q, e) ↦
        let whole : t ≡ with_queue (w ∷ q) t = ap (λ (x : List QueueElem). with_queue x t) e in
        elim (Option-cases (process uses get_function only_singleton max_len w (with_queue q t))) [
          | inl failed ↦
              fatal-out_of_fuel
                (sym (loop-fatal uses get_function only_singleton max_len n t w q e failed) ∙ h)
          | inr (v, ok) ↦
              let (member, rest) = subst (IsWithin pairs) e within in
              let (within', less) =
                process-IsLess uses get_function only_singleton pairs max_len w q t v ok closed
                  member rest in
              let same = ap (measure uses get_function only_singleton pairs) whole in
              loop-out_of_fuel n v closed within' (omega arith)
                (sym (loop-next uses get_function only_singleton max_len n t w q v e ok) ∙ h)
        ]
  ]

  -- The pass does not run out of fuel: it gives an answer or a fatal error. Its conditions are that the
  -- pairs of an instruction and a store hold each shadow store with the store behind it, that they are
  -- closed under what the users of an instruction put on the queue, and that the fuel is above the number
  -- of the pairs and of all that their users put on the queue, with one for each instruction of the module.
  pub run_dse-out_of_fuel :
      (fuel : ℕ) (insts : List Inst)
      → IsClosed uses get_function only_singleton pairs
      → ((i s : ℕ) → IsStart only_singleton insts i s → is_seen i s pairs ≡ true)
      → work_left uses get_function only_singleton [] pairs + length insts < fuel
      → run_dse uses get_function only_singleton max_len fuel insts ≢ out_of_fuel
  unfolding run_dse measure
  run_dse-out_of_fuel fuel insts closed starts enough h =
      elim (Option-cases (start_search only_singleton insts empty_search)) [
        | inl failed ↦ fatal-out_of_fuel (ground arith)
        | inr (t, e) ↦
            let (within, same, count) =
              start_search-IsWithin only_singleton pairs insts empty_search t starts e tt in
            let work = ap (λ x. work_left uses get_function only_singleton x pairs) same in
            loop-out_of_fuel fuel t closed within (omega arith) (ground arith)
      ]
