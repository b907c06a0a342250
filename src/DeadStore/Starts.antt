-- ===== src/DeadStore/Starts.antt =====
-- What the first worklist holds.
use occam.Base.{
  ℕ, Bool, true, some, List, [], ◌∷◌, ◌≡◌, refl, sym, ap, subst, ◌∙◌, arith, inl, inr, ◌⊎◌,
  Bool-cases, Option-cases,
}
use mathlib.Core.Option.{some-injective}
use occam.MemorySsa.{store, is_mem_ssa}
use occam.DeadStore.Worklist.{
  Search, is_seen, Inst, mem_call, store_inst, other_inst, next_store, start_chain, start_search,
}
use occam.DeadStore.Known.{is_known, is_queued, Knows}

-- The store instruction at the second address stands behind the shadow store at the first one.
abbrev pub IsStart : Bool → List Inst → ℕ → ℕ → Type 0
IsStart only_singleton [] i s = ⊥
IsStart only_singleton (store_inst a ∷ rest) i s = IsStart only_singleton rest i s
IsStart only_singleton (other_inst ∷ rest) i s = IsStart only_singleton rest i s
IsStart only_singleton (mem_call c ∷ rest) i s =
    ((is_mem_ssa store c only_singleton ≡ true) × (c.address ≡ i) × (next_store rest ≡ some s))
    ⊎ IsStart only_singleton rest i s

Knows-start_chain : (i s : ℕ) (t : Search) → Knows t (start_chain i s t)
unfolding start_chain is_known is_queued
Knows-start_chain i s t j r h = ground (arith, Bool-cases (is_seen j r t.visited))

pub start_chain-visited : (i s : ℕ) (t : Search) → (start_chain i s t).visited ≡ t.visited
unfolding start_chain
start_chain-visited i s t = refl

start_chain-known : (i s : ℕ) (t : Search) → is_known i s (start_chain i s t) ≡ true
unfolding start_chain is_known is_queued
start_chain-known i s t = ground (arith, Bool-cases (is_seen i s t.visited))

pub start_search-Knows :
    (only_singleton : Bool) (insts : List Inst) (t u : Search)
    → start_search only_singleton insts t ≡ some u
    → (u.visited ≡ t.visited)
      × Knows t u
      × ((i s : ℕ) → IsStart only_singleton insts i s → is_known i s u ≡ true)
unfolding start_search
start_search-Knows only_singleton [] t u h =
    let same : t ≡ u = some-injective _ _ h in
    (
      ap (λ (x : Search). x.visited) (sym same),
      λ i s k. subst (λ (x : Search). is_known i s x ≡ true) same k,
      λ i s e. absurd e,
    )
start_search-Knows only_singleton (store_inst a ∷ rest) t u h =
    start_search-Knows only_singleton rest t u h
start_search-Knows only_singleton (other_inst ∷ rest) t u h =
    start_search-Knows only_singleton rest t u h
start_search-Knows only_singleton (mem_call c ∷ rest) t u h =
    elim (Bool-cases (is_mem_ssa store c only_singleton)) [
      | inl stores ↦ elim (Option-cases (next_store rest)) [
        | inl missing ↦ absurd (ground arith)
        | inr (s, e) ↦
            let (kept, knows, starts) =
              start_search-Knows only_singleton rest (start_chain c.address s t) u (ground arith) in
            (
              kept ∙ start_chain-visited c.address s t,
              λ i r k. knows i r (Knows-start_chain c.address s t i r k),
              λ i r st. elim st [
                | inl (x, y, z) ↦
                    let store : s ≡ r = some-injective _ _ (sym e ∙ z) in
                    subst (λ (x : ℕ). is_known x r u ≡ true) y
                      (subst (λ (x : ℕ). is_known c.address x u ≡ true) store
                        (knows c.address s (start_chain-known c.address s t)))
                | inr later ↦ starts i r later
              ],
            )
      ]
      | inr other ↦
          let (kept, knows, starts) = start_search-Knows only_singleton rest t u (ground arith) in
          (
            kept,
            knows,
            λ i s st. elim st [
              | inl (x, y, z) ↦ absurd (ground arith)
              | inr later ↦ starts i s later
            ],
          )
    ]
