-- ===== src/MemorySsa/Params.antt =====
-- The parameters that src/analysis/MemorySSA.cpp finds for a call.
use occam.Base.{
  ℕ, zero, suc, true, Option, none, some, List, [], ◌∷◌, ◌≡◌, ◌≢◌, refl, sym, ap, subst, ◌∙◌, arith,
  inl, inr, ◌⊎◌, Bool-cases, Option-cases, get_elem?, replicate,
}
use mathlib.Core.Option.{some-injective}
use occam.MemorySsa.{
  MemCall, is_actual, get_mem_ssa_param_idx, Params, set_param, add_param, actual_params, params_of,
}

-- A call in the vector is an actual parameter, at its own index.
abbrev pub AreIndexed : Params → Type 0
AreIndexed ps =
    (i : ℕ) (c : MemCall)
    → get_elem? ps i ≡ some (some c)
    → (is_actual c ≡ true) × (get_mem_ssa_param_idx c ≡ some i)

-- A position of the vector is the one that is set, or as it was.
set_param-cases :
    (ps qs : Params) (i j : ℕ) (c : MemCall) (d : Option MemCall)
    → set_param ps i c ≡ some qs
    → get_elem? qs j ≡ some d
    → ((j ≡ i) × (d ≡ some c)) ⊎ (get_elem? ps j ≡ some d)
unfolding set_param
set_param-cases [] qs i j c d h at = absurd (ground arith)
set_param-cases (p ∷ ps) qs zero zero c d h at =
    let same : some c ∷ ps ≡ qs = some-injective _ _ h in
    inl (refl, some-injective _ _ (sym at ∙ ap (λ (x : Params). get_elem? x 0) (sym same)))
set_param-cases (p ∷ ps) qs zero (suc j) c d h at =
    let same : some c ∷ ps ≡ qs = some-injective _ _ h in
    inr (ap (λ (x : Params). get_elem? x (suc j)) same ∙ at)
set_param-cases (p ∷ ps) qs (suc i) zero c d h at = elim (Option-cases (set_param ps i c)) [
  | inl out ↦ absurd (ground arith)
  | inr (rs, e) ↦
      let same : p ∷ rs ≡ qs = some-injective _ _ (ground arith) in
      inr (ap (λ (x : Params). get_elem? x 0) same ∙ at)
]
set_param-cases (p ∷ ps) qs (suc i) (suc j) c d h at = elim (Option-cases (set_param ps i c)) [
  | inl out ↦ absurd (ground arith)
  | inr (rs, e) ↦
      let same : p ∷ rs ≡ qs = some-injective _ _ (ground arith) in
      elim (set_param-cases ps rs i j c d e (ap (λ (x : Params). get_elem? x (suc j)) same ∙ at)) [
        | inl (place, entry) ↦ inl (ap suc place, entry)
        | inr old ↦ inr old
      ]
]

replicate-empty : (n i : ℕ) (c : MemCall) → get_elem? (replicate n none) i ≢ some (some c)
replicate-empty zero i c at = ground arith
replicate-empty (suc n) zero c at = ground arith
replicate-empty (suc n) (suc i) c at = replicate-empty n i c at

replicate-AreIndexed : (n : ℕ) → AreIndexed (replicate n none)
replicate-AreIndexed n i c at = absurd (replicate-empty n i c at)

set_param-AreIndexed :
    (ps qs : Params) (i : ℕ) (c : MemCall)
    → set_param ps i c ≡ some qs
    → is_actual c ≡ true
    → get_mem_ssa_param_idx c ≡ some i
    → AreIndexed ps
    → AreIndexed qs
set_param-AreIndexed ps qs i c h actual index old j d at =
    elim (set_param-cases ps qs i j c (some d) h at) [
      | inl (place, entry) ↦
          let same : c ≡ d = some-injective _ _ (sym entry) in
          subst (λ x. (is_actual x ≡ true) × (get_mem_ssa_param_idx x ≡ some j)) same
            (actual, index ∙ ap some (sym place))
      | inr before ↦ old j d before
    ]

add_param-AreIndexed :
    (ps : Option Params) (qs : Params) (i : ℕ) (c : MemCall)
    → add_param c i ps ≡ some qs
    → is_actual c ≡ true
    → get_mem_ssa_param_idx c ≡ some i
    → AreIndexed (params_of ps)
    → AreIndexed qs
unfolding add_param params_of
add_param-AreIndexed none qs i c h actual index old =
    set_param-AreIndexed (replicate (suc i) none) qs i c h actual index
      (replicate-AreIndexed (suc i))
add_param-AreIndexed (some ps) qs i c h actual index old =
    set_param-AreIndexed ps qs i c h actual index old

some-AreIndexed : (ps : Params) → AreIndexed ps → AreIndexed (params_of (some ps))
unfolding params_of
some-AreIndexed ps h = h

-- What the constructor finds for a call holds at each index a call of a shadow function for an actual
-- parameter with that index, or nothing, if this is so of what it starts with.
pub actual_params-AreIndexed :
    (insts : List (Option MemCall)) (ps qs : Option Params)
    → actual_params insts ps ≡ some qs
    → AreIndexed (params_of ps)
    → AreIndexed (params_of qs)
unfolding actual_params
actual_params-AreIndexed [] ps qs h old =
    subst (λ x. AreIndexed (params_of x)) (some-injective _ _ h) old
actual_params-AreIndexed (none ∷ rest) ps qs h old =
    subst (λ x. AreIndexed (params_of x)) (some-injective _ _ h) old
actual_params-AreIndexed (some c ∷ rest) ps qs h old = elim (Bool-cases (is_actual c)) [
  | inl actual ↦ elim (Option-cases (get_mem_ssa_param_idx c)) [
    | inl negative ↦ absurd (ground arith)
    | inr (i, index) ↦ elim (Option-cases (add_param c i ps)) [
      | inl out ↦ absurd (ground arith)
      | inr (next, e) ↦
          actual_params-AreIndexed rest (some next) qs (ground arith)
            (some-AreIndexed next (add_param-AreIndexed ps next i c e actual index old))
    ]
  ]
  | inr other ↦ subst (λ x. AreIndexed (params_of x)) (some-injective _ _ (ground arith)) old
]
