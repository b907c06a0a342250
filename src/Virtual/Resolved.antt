-- ===== src/Virtual/Resolved.antt =====
-- What `resolveVirtualCall` finds.
use occam.Base.{
  ℕ, ◌≡◌, refl, sym, ap, subst, ◌∙◌, true, false, Option, none, some, List, [], ◌∷◌, Name, arith,
  inl, inr, ◌⊎◌, ◌↔◌, In, Bool-cases, Option-cases,
}
use occam.Policy.Recursive.{Walk}
use occam.Hierarchy.{Graph, StructType, has_chg_edge, count, tick}
use occam.Hierarchy.Edges.{IsEdge}
use occam.Hierarchy.Built.{IsSubtype, In-cons}
use occam.Hierarchy.Nodes.{closure_chg-build_chg}
use occam.Vtables.{FunctionType, Method, GlobalVariable, Analysis, calculate}
use occam.Vtables.Kept.{calculate-graph}
use occam.Virtual.{
  Called, VirtualCall, to_function, to_struct, ArgType, get_vtable_index, is_negative, find_node,
  reachable_types, add_candidates, candidates, resolve_this, resolve_virtual_call,
}
use occam.Virtual.Entries.{
  has_method, IsEntry, IsShort, add_candidates-some, add_candidates-none,
  add_candidate_function-some, add_candidate_function-none,
}

In-count : (x : ℕ) (xs : List ℕ) → In x xs ↔ (count x xs ≡ true)
unfolding count
In-count x [] = (λ (i, h). absurd (ground arith), λ h. absurd (ground arith))
In-count x (y ∷ ys) = ground (arith, In-cons x y ys, In-count x ys)

count-reachable_types : (a b : ℕ) (g : Graph) → count b (reachable_types a g) ≡ has_chg_edge a b g
unfolding reachable_types find_node has_chg_edge count
count-reachable_types a b [] = refl
count-reachable_types a b (n ∷ g) = ground (arith, count-reachable_types a b g)

reachable_types-IsEdge : (a b : ℕ) (g : Graph) → In b (reachable_types a g) ↔ IsEdge g a b
reachable_types-IsEdge a b g =
    let same = count-reachable_types a b g in
    let (from, to) = In-count b (reachable_types a g) in
    (λ p. sym same ∙ from p, λ e. to (same ∙ e))

-- The candidates, for the edges of the graph as it is.
candidates-some :
    (a : Analysis) (ty i : ℕ) (cs : FunctionType) (out : List Method) (x : ℕ)
    → candidates a ty i cs ≡ some out
    → (has_method x out ≡ true) ↔ ((c : ℕ) × ((c ≡ ty) ⊎ IsEdge a.graph ty c) × IsEntry a i cs x c)
unfolding candidates has_method
candidates-some a ty i cs out x h =
    elim (Option-cases (add_candidates a (reachable_types ty a.graph) i cs [])) [
      | inl n ↦ absurd (ground arith)
      | inr (mid, e) ↦
          let (from, to) = add_candidates-some a (reachable_types ty a.graph) i cs [] mid x e in
          let (from', to') = add_candidate_function-some a ty i cs mid out x (ground arith) in
          (
            λ k. elim (from' k) [
              | inl j ↦ elim (from j) [
                | inl o ↦ absurd (ground arith)
                | inr (c, m, p) ↦ (c, inr ((reachable_types-IsEdge ty c a.graph).0 m), p)
              ]
              | inr p ↦ (ty, inl refl, p)
            ],
            λ (c, r, p). elim r [
              | inl same ↦ to' (inr (subst (λ (y : ℕ). IsEntry a i cs x y) same p))
              | inr m ↦ to' (inl (to (inr (c, (reachable_types-IsEdge ty c a.graph).1 m, p))))
            ],
          )
    ]

candidates-none :
    (a : Analysis) (ty i : ℕ) (cs : FunctionType)
    → (candidates a ty i cs ≡ none) ↔ ((c : ℕ) × ((c ≡ ty) ⊎ IsEdge a.graph ty c) × IsShort a i c)
unfolding candidates
candidates-none a ty i cs =
    let (ends, short) = add_candidates-none a (reachable_types ty a.graph) i cs [] in
    elim (Option-cases (add_candidates a (reachable_types ty a.graph) i cs [])) [
      | inl n ↦ (
        λ h. let (c, m, p) = ends n in (c, inr ((reachable_types-IsEdge ty c a.graph).0 m), p),
        λ p. ground arith,
      )
      | inr (mid, e) ↦
          let (from, to) = add_candidate_function-none a ty i cs mid in
          (
            λ h. (ty, inl refl, from (ground arith)),
            λ (c, r, p). elim r [
              | inl same ↦
                  let stopped = to (subst (λ (y : ℕ). IsShort a i y) same p) in ground arith
              | inr m ↦
                  let stopped = short (c, (reachable_types-IsEdge ty c a.graph).1 m, p) in
                  absurd (ground arith)
            ],
          )
    ]

-- The class is the type itself or is one or more steps behind it, each from a struct type to a type of
-- the module that has it as a subtype.
abbrev pub Reaches : List StructType → ℕ → ℕ → Type 0
Reaches types ty c = (c ≡ ty) ⊎ Walk (IsSubtype types) ty c

-- A call through a pointer to a function, with a first argument that points to a struct type.
abbrev pub virtual_call : Called → FunctionType → ℕ → List ArgType → VirtualCall
virtual_call called cs ty rest = record {
  direct = false;
  called = called;
  callee_type = to_function cs;
  arg_types = to_struct ty ∷ rest;
}

-- The analysis with the call counted.
abbrev counted : Analysis → Analysis
counted a = record a { num_potential_virtual_calls = tick a.num_potential_virtual_calls }

resolve_this-found :
    (a : Analysis) (called : Called) (ty : ℕ) (cs : FunctionType) (found : List Method)
    → is_negative (get_vtable_index called) ≡ false
    → candidates (counted a) ty (get_vtable_index called) cs ≡ some found
    → (b : Analysis) × (resolve_this a called ty cs [] ≡ some (true, found, b))
unfolding resolve_this
resolve_this-found a called ty cs [] n e = (counted a, ground arith)
resolve_this-found a called ty cs (m ∷ ms) n e = (
  record (counted a) { num_resolved_virtual_calls = tick (counted a).num_resolved_virtual_calls },
  ground arith,
)

module _ (demangle : Name → Option Name) (type_by_name : Name → Option ℕ) where
  graph-Reaches :
      (types : List StructType) (globals : List GlobalVariable) (a : Analysis) (ty c : ℕ)
      → calculate demangle type_by_name types globals ≡ some a
      → ((c ≡ ty) ⊎ IsEdge a.graph ty c) ↔ Reaches types ty c
  graph-Reaches types globals a ty c h =
      let same = calculate-graph demangle type_by_name types globals a h in
      let (from, to) = closure_chg-build_chg types ty c in
      (
        λ r. elim r [
          | inl p ↦ inl p
          | inr e ↦ inr (from (subst (λ (g : Graph). IsEdge g ty c) same e))
        ],
        λ r. elim r [
          | inl p ↦ inl p
          | inr w ↦ inr (subst (λ (g : Graph). IsEdge g ty c) (sym same) (to w))
        ],
      )

  -- On a calculated analysis, when a virtual call is resolved from an empty vector, there is a function
  -- at an address among the answers exactly if the class of `this`, or a class that it reaches, has in
  -- its vtable at the index of the call a function at that address whose signature matches.
  pub resolve_virtual_call-exact :
      (types : List StructType) (globals : List GlobalVariable) (a b : Analysis) (called : Called)
      (cs : FunctionType) (ty : ℕ) (rest : List ArgType) (out : List Method) (x : ℕ)
      → calculate demangle type_by_name types globals ≡ some a
      → resolve_virtual_call a (virtual_call called cs ty rest) [] ≡ some (true, out, b)
      → (has_method x out ≡ true)
        ↔ ((c : ℕ) × Reaches types ty c × IsEntry a (get_vtable_index called) cs x c)
  unfolding resolve_virtual_call resolve_this
  resolve_virtual_call-exact types globals a b called cs ty rest out x h r =
      let i = get_vtable_index called in
      elim (Bool-cases (is_negative i)) [
        | inl n ↦ absurd (ground arith)
        | inr n ↦ elim (Option-cases (candidates (counted a) ty i cs)) [
          | inl e ↦ absurd (ground arith)
          | inr (found, e) ↦
              let (b', f) = resolve_this-found a called ty cs found n e in
              let same : found ≡ out = ground arith in
              let (from, to) = candidates-some (counted a) ty i cs found x e in
              (
                λ k.
                    let (c, e, p) = from (ap (has_method x) same ∙ k) in
                    (c, (graph-Reaches types globals a ty c h).0 e, p),
                λ (c, r, p).
                    ap (has_method x) (sym same)
                    ∙ to (c, (graph-Reaches types globals a ty c h).1 r, p),
              )
        ]
      ]

  -- On a calculated analysis, the resolution of a virtual call from an empty vector ends the run exactly
  -- if the index of the call is not negative and is out of the vtable of the class of `this` or of a
  -- class that it reaches.
  pub resolve_virtual_call-ends :
      (types : List StructType) (globals : List GlobalVariable) (a : Analysis) (called : Called)
      (cs : FunctionType) (ty : ℕ) (rest : List ArgType)
      → calculate demangle type_by_name types globals ≡ some a
      → (resolve_virtual_call a (virtual_call called cs ty rest) [] ≡ none) ↔ (
          (is_negative (get_vtable_index called) ≡ false)
          × (c : ℕ) × Reaches types ty c
          × IsShort a (get_vtable_index called) c)
  unfolding resolve_virtual_call resolve_this
  resolve_virtual_call-ends types globals a called cs ty rest h =
      let i = get_vtable_index called in
      let (ends, short) = candidates-none (counted a) ty i cs in
      elim (Bool-cases (is_negative i)) [
        | inl n ↦ (λ e. absurd (ground arith), λ (p, c, r, q). absurd (ground arith))
        | inr n ↦ elim (Option-cases (candidates (counted a) ty i cs)) [
          | inl e ↦ (
            λ k. let (c, r, p) = ends e in (n, c, (graph-Reaches types globals a ty c h).0 r, p),
            λ p. ground arith,
          )
          | inr (found, e) ↦
              let (b, f) = resolve_this-found a called ty cs found n e in
              (
                λ k. absurd (ground arith),
                λ (q, c, r, p).
                    let stopped = short (c, (graph-Reaches types globals a ty c h).1 r, p) in
                    absurd (ground arith),
              )
        ]
      ]
