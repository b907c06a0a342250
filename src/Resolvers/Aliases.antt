-- ===== src/Resolvers/Aliases.antt =====
-- The alias sets of `populateTypeAliasSets`, and the targets that the pointer analysis adds to them.
use occam.Base.{
  ℕ, zero, suc, Bool, true, false, ◌&&◌, ◌||◌, ◌==◌, List, [], ◌∷◌, ◌≡◌, refl, arith, if◌then◌else◌,
  Bool-cases, inl, inr, ◌⊎◌, ◌↔◌, ap, ◌∙◌, sym, subst, In,
}
use occam.Ir.{Function}
use occam.Policy.{has_address}
use occam.Resolvers.{
  Candidate, AliasSets, lookup, assign, insert_sorted, is_candidate, targets_of,
  populate_type_alias_sets,
}
use occam.Resolvers.Sorted.{IsSorted, has_address-insert_sorted, insert_sorted-IsSorted}

-- The module has such a function with this pointer type at this address.
abbrev pub IsTarget : List Candidate → ℕ → ℕ → Type 0
IsTarget cs id a =
    (c : Candidate) × In c cs
    × (is_candidate c ≡ true)
    × (c.pointer_type ≡ id)
    × (c.function.address ≡ a)

targets_of-assign :
    (id k : ℕ) (v : List Function) (m : AliasSets)
    → targets_of id (assign k v m) ≡ (if id == k then v else targets_of id m)
unfolding targets_of lookup assign
targets_of-assign id k v [] = ground arith
targets_of-assign id k v ((j, w) ∷ m) = ground (arith, targets_of-assign id k v m)

IsTarget-cons :
    (c : Candidate) (cs : List Candidate) (id a : ℕ)
    → IsTarget (c ∷ cs) id a ↔ (
        ((is_candidate c ≡ true) × (c.pointer_type ≡ id) × (c.function.address ≡ a))
        ⊎ IsTarget cs id a)
IsTarget-cons c cs id a = (from, to)
  where
    from :
        IsTarget (c ∷ cs) id a
        → ((is_candidate c ≡ true) × (c.pointer_type ≡ id) × (c.function.address ≡ a))
          ⊎ IsTarget cs id a
    from (d, (zero, at), p, q, r) =
        let same : c ≡ d = ground arith in
        inl (
          subst
            (λ (x : Candidate).
              (is_candidate x ≡ true) × (x.pointer_type ≡ id) × (x.function.address ≡ a))
            (sym same) (p, q, r))
    from (d, (suc i, at), p, q, r) = inr (d, (i, at), p, q, r)

    to :
        ((is_candidate c ≡ true) × (c.pointer_type ≡ id) × (c.function.address ≡ a))
          ⊎ IsTarget cs id a
        → IsTarget (c ∷ cs) id a
    to (inl (p, q, r)) = (c, (0, refl), p, q, r)
    to (inr (d, (i, at), p, q, r)) = (d, (suc i, at), p, q, r)

has_address-assign :
    (a id k : ℕ) (f : Function) (m : AliasSets)
    → has_address a (targets_of id (assign k (insert_sorted f (targets_of k m)) m))
      ≡ ((id == k && f.address == a) || has_address a (targets_of id m))
has_address-assign a id k f m =
    let put = targets_of-assign id k (insert_sorted f (targets_of k m)) m in
    let new = has_address-insert_sorted a f (targets_of k m) in
    elim (Bool-cases (id == k)) [
      | inl same ↦
          let key : id ≡ k = ground arith in
          ap (has_address a) put
          ∙ ap
              (λ (b : Bool).
                has_address a (if b then insert_sorted f (targets_of k m) else targets_of id m))
              same
          ∙ new
          ∙ ap (λ (x : ℕ). f.address == a || has_address a (targets_of x m)) (sym key)
          ∙ ground arith
      | inr other ↦
          ap (has_address a) put
          ∙ ap
              (λ (b : Bool).
                has_address a (if b then insert_sorted f (targets_of k m) else targets_of id m))
              other
          ∙ ground arith
    ]

-- The sets with the function of a candidate in them.
abbrev added : Candidate → AliasSets → AliasSets
added c m = assign c.pointer_type (insert_sorted c.function (targets_of c.pointer_type m)) m

populate-good :
    (c : Candidate) (cs : List Candidate) (m : AliasSets)
    → is_candidate c ≡ true
    → populate_type_alias_sets (c ∷ cs) m ≡ populate_type_alias_sets cs (added c m)
unfolding populate_type_alias_sets
populate-good c cs m h = ground arith

populate-bad :
    (c : Candidate) (cs : List Candidate) (m : AliasSets)
    → is_candidate c ≡ false
    → populate_type_alias_sets (c ∷ cs) m ≡ populate_type_alias_sets cs m
unfolding populate_type_alias_sets
populate-bad c cs m h = ground arith

IsTarget-nil : (id a : ℕ) → IsTarget [] id a → ⊥
IsTarget-nil id a (c, (i, at), p, q, r) = ground arith

populate-has_address :
    (cs : List Candidate) (m : AliasSets) (id a : ℕ)
    → (has_address a (targets_of id (populate_type_alias_sets cs m)) ≡ true)
      ↔ ((has_address a (targets_of id m) ≡ true) ⊎ IsTarget cs id a)
unfolding populate_type_alias_sets
populate-has_address [] m id a =
    (inl, λ h. elim h [ inl e ↦ e | inr t ↦ absurd (IsTarget-nil id a t) ])
populate-has_address (c ∷ cs) m id a =
    let cons = IsTarget-cons c cs id a in
    elim (Bool-cases (is_candidate c)) [
      | inl good ↦
          let step =
            ap (λ (s : AliasSets). has_address a (targets_of id s)) (populate-good c cs m good) in
          let rest = populate-has_address cs (added c m) id a in
          let new = has_address-assign a id c.pointer_type c.function m in
          ground (arith, step, rest, new, cons)
      | inr bad ↦
          let step =
            ap (λ (s : AliasSets). has_address a (targets_of id s)) (populate-bad c cs m bad) in
          let rest = populate-has_address cs m id a in ground (arith, step, rest, cons)
    ]

populate-IsSorted :
    (cs : List Candidate) (m : AliasSets)
    → ((id : ℕ) → IsSorted (targets_of id m))
    → (id : ℕ) → IsSorted (targets_of id (populate_type_alias_sets cs m))
unfolding populate_type_alias_sets
populate-IsSorted [] m s id = s id
populate-IsSorted (c ∷ cs) m s id = elim (Bool-cases (is_candidate c)) [
  | inl good ↦
      let new =
        insert_sorted-IsSorted c.function (targets_of c.pointer_type m) (s c.pointer_type) in
      subst (λ (x : AliasSets). IsSorted (targets_of id x)) (sym (populate-good c cs m good))
        (populate-IsSorted cs (added c m)
          (λ k.
            subst IsSorted (sym (targets_of-assign k c.pointer_type _ m))
              (optional_sorted (k == c.pointer_type) _ _ new (s k)))
          id)
  | inr bad ↦
      subst (λ (x : AliasSets). IsSorted (targets_of id x)) (sym (populate-bad c cs m bad))
        (populate-IsSorted cs m s id)
]
  where
    optional_sorted :
        (b : Bool) (fs gs : List Function)
        → IsSorted fs
        → IsSorted gs
        → IsSorted (if b then fs else gs)
    optional_sorted true fs gs p q = p
    optional_sorted false fs gs p q = q

-- The targets of a pointer type, of a new map, are in the order of their addresses, and there is one at
-- an address exactly if the module has at this address a function of this type that passes the tests of
-- the resolver.
pub populate_type_alias_sets-targets :
    (cs : List Candidate) (id a : ℕ)
    → IsSorted (targets_of id (populate_type_alias_sets cs []))
      × ((has_address a (targets_of id (populate_type_alias_sets cs [])) ≡ true) ↔ IsTarget cs id a)
unfolding targets_of lookup has_address
populate_type_alias_sets-targets cs id a =
    let (from, to) = populate-has_address cs [] id a in
    (
      populate-IsSorted cs [] (λ k. tt) id,
      (λ h. elim (from h) [ inl e ↦ absurd (ground arith) | inr t ↦ t ], λ t. to (inr t)),
    )
