-- ===== src/Rewriter/Sites.antt =====
-- The call sites after a rewrite, src/InterRewriter.cpp.
use mathlib.Core.List.{append_assoc, append-nil}
use mathlib.Core.Option
use mathlib.Core.Option.{some-injective}
use occam.Base.{
  ℕ, ◌≡◌, refl, sym, subst, ap, ◌∙◌, Bool, true, false, Option, none, some, List, [], ◌∷◌, ◌++◌,
  Name, arith, Option-cases, Bool-cases, inl, inr, ◌==◌, name_eq, name_eq_iff, length,
}
use occam.Value.{Value}
use occam.Transform.{CallRewrite, CallMap, ComponentInterfaceTransform, lookup_rewrite}
use occam.Ir.{Function, CallSite}
use occam.Specializer.{find_function, pick, takes_operands, specialize_call_site}
use occam.Specializer.Calls.{call_of, specialize_call_site-takes}
use occam.Rewriter.Steps.{
  Passed, indirect, other_function, no_rewrite, rewritten, AllPassed, IsPass, ArePasses,
  AllPassed-append,
}
use occam.Rewriter.{
  Client, declare, has_param_types, apply_rewrite_to_call, rewrite_call, transform_site, next_use,
  transform_sites, transform_name, transform_names, transform_component,
}

-- The use of an erased call still leads the loop to the use behind it.
abbrev pub IsIntact : (CallSite → ℕ → Option ℕ) → Type 0
IsIntact erased = (cs : CallSite) (behind : ℕ) → erased cs behind ≡ some 0

find_function-name :
    (n : Name) (m : List Function) (g : Function) → find_function n m ≡ some g → g.name ≡ n
unfolding find_function
find_function-name n [] g e = absurd (ground arith)
find_function-name n (f ∷ m) g e = elim (Bool-cases (name_eq f.name n)) [
  | inl y ↦
      let same : f ≡ g = ground arith in
      ap (λ (x : Function). x.name) (sym same) ∙ (name_eq_iff f.name n).0 y
  | inr y ↦ find_function-name n m g (ground arith)
]

-- The call of a function with this name, which takes the operands that the rewrite picks.
abbrev IsCallOf : CallSite → CallRewrite → CallSite → Type 0
IsCallOf cs new c =
    (g : Function) × (ops : List Value) × (g.name ≡ new.function)
    × (takes_operands g new.args ≡ true)
    × (pick new.args cs.args ≡ some ops)
    × (c ≡ call_of cs g ops)

map-parts :
    {A B : Type 0} (f : A → B) (o : Option A) (b : B)
    → Option.map f o ≡ some b
    → (a : A) × (o ≡ some a) × (f a ≡ b)
map-parts f none b h = absurd (ground arith)
map-parts f (some a) b h = (a, refl, some-injective _ _ h)

specialize_call_site-IsCallOf :
    (cs : CallSite) (g : Function) (new : CallRewrite) (c : CallSite)
    → g.name ≡ new.function
    → specialize_call_site cs g new.args ≡ some c
    → IsCallOf cs new c
specialize_call_site-IsCallOf cs g new c name e =
    let (takes, ops, p, is) = specialize_call_site-takes cs g new.args c e in
    (g, ops, name, takes, p, is)

module _ (fresh : Name → ℕ) (has_external : Function → Bool) where
  apply_rewrite_to_call-IsCallOf :
      (m k : List Function) (new : CallRewrite) (target : Function) (cs c : CallSite)
      → apply_rewrite_to_call fresh has_external m new target cs ≡ some (c, k)
      → IsCallOf cs new c
  unfolding apply_rewrite_to_call declare
  apply_rewrite_to_call-IsCallOf m k new target cs c e =
      elim (Option-cases (find_function new.function m)) [
        | inl n ↦ elim (Bool-cases (has_param_types target new.args)) [
          | inr out ↦ absurd (ground arith)
          | inl fine ↦
              let (d, made, same) =
                map-parts (λ (x : CallSite). (x, m ++ declare fresh has_external target new ∷ []))
                  (specialize_call_site cs (declare fresh has_external target new) new.args) (c, k)
                  (ground arith) in
              subst (IsCallOf cs new) (ap (λ (x : CallSite × List Function). x.0) same) (
                specialize_call_site-IsCallOf cs (declare fresh has_external target new) new d refl
                  made)
        ]
        | inr (g, n) ↦
            let (d, made, same) =
              map-parts (λ (x : CallSite). (x, m)) (specialize_call_site cs g new.args) (c, k)
                (ground arith) in
            subst (IsCallOf cs new) (ap (λ (x : CallSite × List Function). x.0) same) (
              specialize_call_site-IsCallOf cs g new d (find_function-name new.function m g n) made)
      ]

  module _ (erased : CallSite → ℕ → Option ℕ) (t : ComponentInterfaceTransform) where
    -- What the body of the loop does at a site.
    abbrev IsDone : Name → Function → CallSite → Client → Client × Bool → Type 0
    IsDone key f cs s r = (c : CallSite) × (r.0.sites ≡ s.sites ++ c ∷ []) × Passed t key f cs c

    transform_site-IsDone :
        (key : Name) (f : Function) (cs : CallSite) (s : Client) (r : Client × Bool)
        → transform_site fresh has_external erased t key f cs s ≡ some r
        → IsDone key f cs s r
    unfolding transform_site rewrite_call
    transform_site-IsDone key f cs s r h =
        let plain : Client × Bool = (record s { sites = s.sites ++ cs ∷ [] }, false) in
        elim (Option-cases cs.callee) [
          | inl e ↦
              let same : plain ≡ r = some-injective _ _ (ground arith) in
              subst (IsDone key f cs s) same (cs, refl, indirect cs e)
          | inr (target, e) ↦ elim (Bool-cases (target.address == f.address)) [
            | inr n ↦
                let same : plain ≡ r = some-injective _ _ (ground arith) in
                subst (IsDone key f cs s) same (cs, refl, other_function cs target e n)
            | inl y ↦ elim (Option-cases (lookup_rewrite key cs.args t)) [
              | inl n ↦
                  let same : plain ≡ r = some-injective _ _ (ground arith) in
                  subst (IsDone key f cs s) same (cs, refl, no_rewrite cs n)
              | inr (new, l) ↦
                  elim (Option-cases (rewrite_call fresh has_external s.functions new target cs)) [
                    | inl n ↦ absurd (ground arith)
                    | inr ((c, k), q) ↦
                        let (g, ops, name, takes, p, is) =
                          apply_rewrite_to_call-IsCallOf _ k new target cs c q in
                        let next : Client = record {
                          functions = k;
                          sites = s.sites ++ c ∷ [];
                          modified = true;
                        } in
                        let same : (next, true) ≡ r = some-injective _ _ (ground arith) in
                        subst (IsDone key f cs s) same (
                          c,
                          refl,
                          subst (Passed t key f cs) (sym is)
                              (rewritten cs target new g ops e y l name takes p),
                        )
                  ]
            ]
          ]
        ]

    module _ (intact : IsIntact erased) where
      next_use-first :
          (b : Bool) (cs : CallSite) (n : ℕ) → next_use fresh has_external erased t b cs n ≡ some 0
      unfolding next_use
      next_use-first true cs n = intact cs n
      next_use-first false cs n = refl

      transform_sites-AllPassed :
          (key : Name) (f : Function) (cs old : List CallSite) (s r : Client)
          → transform_sites fresh has_external erased t key f 0 cs s ≡ some r
          → AllPassed t key f old s.sites
          → AllPassed t key f (old ++ cs) r.sites
      unfolding transform_sites
      transform_sites-AllPassed key f [] old s r e h =
          let same : s ≡ r = some-injective _ _ e in
          subst (λ (x : Client). AllPassed t key f (old ++ []) x.sites) same
            (subst (λ x. AllPassed t key f x s.sites) (sym (append-nil old)) h)
      transform_sites-AllPassed key f (cs ∷ rest) old s r e h =
          elim (Option-cases (transform_site fresh has_external erased t key f cs s)) [
            | inl n ↦ absurd (ground arith)
            | inr ((q, b), z) ↦
                let (c, sites, one) = transform_site-IsDone key f cs s (q, b) z in
                let first = next_use-first b cs (length rest) in
                let later : transform_sites fresh has_external erased t key f 0 rest q ≡ some r =
                  ground arith in
                subst (λ x. AllPassed t key f x r.sites) (append_assoc old (cs ∷ []) rest)
                  (transform_sites-AllPassed key f rest (old ++ cs ∷ []) q r later (
                    subst (AllPassed t key f (old ++ cs ∷ [])) (sym sites)
                      (AllPassed-append t key f old s.sites cs c h one)))
          ]

      transform_name-IsPass :
          (key : Name) (s r : Client)
          → transform_name fresh has_external erased t key s ≡ some r
          → IsPass t key s r
      unfolding transform_name
      transform_name-IsPass key s r h = elim (Option-cases (find_function key s.functions)) [
        | inl e ↦ let same : s ≡ r = some-injective _ _ (ground arith) in inl (e, sym same)
        | inr (f, e) ↦ inr (
          f,
          e,
          transform_sites-AllPassed key f s.sites [] (record s { sites = [] }) r (ground arith) tt,
        )
      ]

      transform_names-ArePasses :
          (names : List (Name × CallMap)) (s r : Client)
          → transform_names fresh has_external erased t names s ≡ some r
          → ArePasses t names s r
      unfolding transform_names
      transform_names-ArePasses [] s r h = sym (some-injective _ _ h)
      transform_names-ArePasses ((key, m) ∷ rest) s r h =
          elim (Option-cases (transform_name fresh has_external erased t key s)) [
            | inl n ↦ absurd (ground arith)
            | inr (q, z) ↦ (
              q,
              transform_name-IsPass key s q z,
              transform_names-ArePasses rest q r (ground arith),
            )
          ]

-- A run of the rewriter that passes its assertions, where the use of an erased call still leads to the
-- use behind it, is one pass for each function name of the transform, in order. A pass does nothing if
-- the client has no function of the name. Else it leaves exactly the call sites as they are that do not
-- call this function directly or that find no rewrite for their arguments, and replaces each other one in
-- its place by a call of a function with the name that its rewrite gives, of the same kind and name,
-- with the arguments that the rewrite picks, which are as many as the function takes (or more if it is
-- variadic).
pub transform_component-ArePasses :
    (fresh : Name → ℕ) (has_external : Function → Bool) (erased : CallSite → ℕ → Option ℕ)
    (t : ComponentInterfaceTransform) (s r : Client)
    → IsIntact erased
    → transform_component fresh has_external erased t s ≡ some r
    → ArePasses t t.rewrites s r
unfolding transform_component
transform_component-ArePasses fresh has_external erased t s r intact h =
    transform_names-ArePasses fresh has_external erased t intact t.rewrites s r h
