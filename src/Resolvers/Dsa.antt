-- ===== src/Resolvers/Dsa.antt =====
-- The targets that `CallSiteResolverByDsa` keeps for the calls of the module.
use occam.Base.{
  ℕ, suc, ◌≤◌, ◌<◌, Bool, true, ◌&&◌, ◌||◌, ◌==◌, ltb, not, some, List, [], ◌∷◌, ◌≡◌, refl, arith,
  length, Bool-cases, Option-cases, inl, inr, ◌⊎◌, ap, ◌∙◌, sym, subst, In,
}
use occam.Ir.{Function}
use occam.Policy.{has_address}
use occam.Devirt.{Site, is_indirect_call, type_alias_id}
use occam.Resolvers.{
  Candidate, AliasSets, lookup, insert_new, targets_of, populate_type_alias_sets, types_targets,
  intersection, sort_functions, insert_by_name, sort_by_name, all_named, refine_targets,
  dsa_targets, build_dsa_map,
}
use occam.Resolvers.Maps.{lookup-insert_new}
use occam.Resolvers.Sorted.{
  IsSorted, has_address-sort_functions, sort_functions-IsSorted, has_address-sort_by_name,
  has_address-intersection,
}
use occam.Resolvers.Aliases.{populate_type_alias_sets-targets}

length-insert_by_name :
    (f : Function) (fs : List Function) → length (insert_by_name f fs) ≡ suc (length fs)
unfolding insert_by_name
length-insert_by_name f [] = refl
length-insert_by_name f (g ∷ gs) = ground (arith, length-insert_by_name f gs)

length-sort_by_name : (fs : List Function) → length (sort_by_name fs) ≡ length fs
unfolding sort_by_name
length-sort_by_name [] = refl
length-sort_by_name (f ∷ fs) =
    length-insert_by_name f (sort_by_name fs) ∙ ap suc (length-sort_by_name fs)

-- What is kept: as many targets as allowed, those that both sides have.
abbrev pub IsRefined : ℕ → List Function → List Function → List Function → Type 0
IsRefined max dsa types ts =
    (0 < length ts)
    × (length ts ≤ max)
    × ((a : ℕ) → has_address a ts ≡ (has_address a dsa && has_address a types))

module _ (is_complete : Site → Bool) (dsa : Site → List Function) where
  refine_targets-IsRefined :
      (max : ℕ) (ds types ts : List Function)
      → IsSorted ds
      → IsSorted types
      → refine_targets is_complete dsa max ds types ≡ some ts
      → IsRefined max ds types ts
  unfolding refine_targets
  refine_targets-IsRefined max ds types ts s t h =
      let both = intersection ds types in
      elim (Bool-cases (length both == 0 || ltb max (length both))) [
        | inl bad ↦ absurd (ground arith)
        | inr good ↦ elim (Bool-cases (all_named both)) [
          | inl named ↦
              let same : ts ≡ sort_by_name both = ground arith in
              let size : length ts ≡ length both =
                ap (length {A = Function}) same ∙ length-sort_by_name both in
              (
                ground arith,
                ground arith,
                λ a.
                    ap (has_address a) same
                    ∙ has_address-sort_by_name a both
                    ∙ has_address-intersection a ds types s t,
              )
          | inr unnamed ↦
              let same : ts ≡ both = ground arith in
              let size : length ts ≡ length both = ap (length {A = Function}) same in
              (
                ground arith,
                ground arith,
                λ a. ap (has_address a) same ∙ has_address-intersection a ds types s t,
              )
        ]
      ]

  -- A site with kept targets.
  abbrev pub IsKept : Bool → ℕ → AliasSets → Site → List Function → Type 0
  IsKept allow max m cs ts =
      (is_indirect_call cs ≡ true)
      × ((allow || is_complete cs) ≡ true)
      × IsRefined max (dsa cs) (targets_of (type_alias_id cs true) m) ts

  dsa_targets-IsKept :
      (allow : Bool) (max : ℕ) (m : AliasSets) (cs : Site) (ts : List Function)
      → ((id : ℕ) → IsSorted (targets_of id m))
      → dsa_targets is_complete dsa allow max m cs ≡ some ts
      → IsKept allow max m cs ts
  unfolding dsa_targets types_targets targets_of
  dsa_targets-IsKept allow max m cs ts s h =
      elim (Bool-cases
        (not (is_indirect_call cs) || not (allow || is_complete cs) || length (dsa cs) == 0)) [
          | inl bad ↦ absurd (ground arith)
          | inr good ↦ elim (Option-cases (lookup (type_alias_id cs true) m)) [
            | inl missing ↦ absurd (ground arith)
            | inr (types, e) ↦
                let same : targets_of (type_alias_id cs true) m ≡ types = ground arith in
                let refined =
                  refine_targets-IsRefined max (sort_functions (dsa cs)) types ts
                    (sort_functions-IsSorted (dsa cs))
                    (subst IsSorted same (s (type_alias_id cs true))) (ground arith) in
                (
                  ground arith,
                  ground arith,
                  (
                    refined.0,
                    refined.1,
                    λ a.
                        refined.2 a
                        ∙ ap (λ b. b && has_address a types) (has_address-sort_functions a (dsa cs))
                        ∙ ap (λ (x : List Function). has_address a (dsa cs) && has_address a x)
                            (sym same),
                  ),
                )
          ]
        ]

  build_dsa_map-found :
      (allow : Bool) (max : ℕ) (types m : AliasSets) (sites : List Site) (i : ℕ)
      (ts : List Function)
      → ((id : ℕ) → IsSorted (targets_of id types))
      → lookup i (build_dsa_map is_complete dsa allow max types sites m) ≡ some ts
      → (lookup i m ≡ some ts)
        ⊎ ((cs : Site) × In cs sites × (cs.instruction ≡ i) × IsKept allow max types cs ts)
  unfolding build_dsa_map
  build_dsa_map-found allow max types m [] i ts s h = inl h
  build_dsa_map-found allow max types m (cs ∷ rest) i ts s h =
      elim (Option-cases (dsa_targets is_complete dsa allow max types cs)) [
        | inl none_kept ↦ elim (build_dsa_map-found allow max types m rest i ts s (ground arith)) [
          | inl old ↦ inl old
          | inr (c, (n, at), p, k) ↦ inr (c, (suc n, at), p, k)
        ]
        | inr (kept, e) ↦
            elim (build_dsa_map-found allow max types (insert_new cs.instruction kept m) rest i ts s
              (ground arith)) [
                | inl found ↦ elim (lookup-insert_new i cs.instruction kept ts m found) [
                  | inl (key, same) ↦ inr (
                    cs,
                    (0, refl),
                    sym key,
                    dsa_targets-IsKept allow max types cs ts s (e ∙ ap some (sym same)),
                  )
                  | inr old ↦ inl old
                ]
                | inr (c, (n, at), p, k) ↦ inr (c, (suc n, at), p, k)
              ]
      ]

  -- The targets that a new resolver has for an instruction are those of an indirect call with this
  -- instruction, which is complete or incomplete ones are allowed: they are one or more, no more than the
  -- greatest number, and the functions that both the pointer analysis and the type of the call give.
  pub build_dsa_map-IsKept :
      (allow : Bool) (max : ℕ) (candidates : List Candidate) (sites : List Site) (i : ℕ)
      (ts : List Function)
      → lookup i (
          build_dsa_map is_complete dsa allow max (populate_type_alias_sets candidates []) sites [])
        ≡ some ts
      → (cs : Site) × In cs sites
        × (cs.instruction ≡ i)
        × IsKept allow max (populate_type_alias_sets candidates []) cs ts
  unfolding lookup
  build_dsa_map-IsKept allow max candidates sites i ts h =
      elim (build_dsa_map-found allow max (populate_type_alias_sets candidates []) [] sites i ts
        (λ id. (populate_type_alias_sets-targets candidates id 0).0) h) [
          | inl old ↦ absurd (ground arith)
          | inr kept ↦ kept
        ]
