-- ===== src/Intra/Calls.antt =====
-- What becomes of the call sites of a function, src/IntraSpecializer.cpp.
use mathlib.Core.Option.{some-injective}
use occam.Base.{
  ◌≡◌, refl, sym, ◌∙◌, subst, true, false, not, ◌&&◌, ◌||◌, ◌==◌, none, some, List, [], ◌∷◌, ◌++◌,
  Name, arith, length, is_empty, Bool-cases, Option-cases, inl, inr,
}
use occam.Value.{Value}
use occam.Ir.{Function, CallSite}
use occam.Specializer.{Scheme, specialize_function, specialize_call_site, arg_perm}
use occam.Specializer.Calls.{
  Agrees, plug, length-arg_perm, call_of, specialize_call_site-plug, specialize_call_site-takes,
}
use occam.Table.{get_specializations, add_specialization}
use occam.Table.Refines.{same_scheme, same_scheme_refl}
use occam.Policy.{Policy}
use occam.Policy.Marks.{IsHonest}
use occam.Intra.{
  State, is_candidate, first_version, replace_call, new_version, specialize_call, try_call,
  try_specialize_function,
}
use occam.Intra.Versions.{
  Built, IsBuilt, get_specializations-IsBuilt, add_specialization-IsBuilt,
  first_version-same_scheme,
}

module _ (hash : Name → Name) (clone : Function → Scheme → Name → Function) where
  -- A call that was specialized: of a version that `specializeFunction` gave for its callee and the
  -- pointers of a scheme; the arguments that are left are as many as the version has parameters, and with
  -- the constants of the scheme they are the old arguments.
  pub record Specialized (cs c : CallSite) : Type 0 where
    pub callee : Function
    pub was : cs.callee ≡ some callee
    pub has_body : callee.is_declaration || callee.is_var_arg ≡ false
    pub local : callee.is_local ≡ true
    pub scheme : Scheme
    pub agrees : Agrees scheme cs.args
    pub version : Function
    pub made_for : Scheme
    pub same : same_scheme scheme made_for ≡ true
    pub built : Built hash clone callee.address made_for version
    pub operands : List Value
    pub new : c ≡ call_of cs version operands
    pub fits : length operands ≡ version.arg_size
    pub plugged : plug scheme operands ≡ some cs.args

  pub data Outcome : CallSite → CallSite → Type 0 where
    kept : (cs : CallSite) → Outcome cs cs
    specialized : (cs c : CallSite) → Specialized cs c → Outcome cs c

  abbrev pub AllOutcome : List CallSite → List CallSite → Type 0
  AllOutcome [] [] = Unit {0}
  AllOutcome [] (d ∷ ds) = ⊥
  AllOutcome (c ∷ cs) [] = ⊥
  AllOutcome (c ∷ cs) (d ∷ ds) = Outcome c d × AllOutcome cs ds

  -- The callee of a candidate.
  abbrev IsCallee : CallSite → Function → Type 0
  IsCallee cs f =
      (cs.callee ≡ some f) × (f.is_declaration || f.is_var_arg ≡ false) × (f.is_local ≡ true)

  module _ {S : Type 0} where
    -- What a round of the loop that ends has done with a call site.
    abbrev Result : CallSite → CallSite × State S → Type 0
    Result cs r = IsBuilt hash clone r.1.table × Outcome cs r.0

    kept-Result :
        (cs : CallSite) (st : State S) (r : CallSite × State S)
        → some (cs, st) ≡ some r
        → IsBuilt hash clone st.table
        → Result cs r
    kept-Result cs st r e h = subst (Result cs) (some-injective _ _ e) (h, kept cs)

    replace_call-Result :
        (cs : CallSite) (f g : Function) (s s' : Scheme) (st : State S) (r : CallSite × State S)
        → IsCallee cs f
        → Agrees s cs.args
        → same_scheme s s' ≡ true
        → Built hash clone f.address s' g
        → IsBuilt hash clone st.table
        → replace_call cs s g st ≡ some r
        → Result cs r
    unfolding replace_call
    replace_call-Result cs f g s s' st r (was, body, local) a same b h e =
        elim (Bool-cases (g.arg_size == length (arg_perm 0 s))) [
          | inr fails ↦ absurd (ground arith)
          | inl arity ↦ elim (Option-cases (specialize_call_site cs g (arg_perm 0 s))) [
            | inl n ↦ absurd (ground arith)
            | inr (c, made) ↦
                let (takes, ops', p, is') = specialize_call_site-takes cs g (arg_perm 0 s) c made in
                let (ops, z, n, q) = specialize_call_site-plug cs g s a takes in
                let is : c ≡ call_of cs g ops = some-injective _ _ (sym made ∙ z) in
                let next : State S = record st { modified = true } in
                let last : (c, next) ≡ r = some-injective _ _ (ground arith) in
                subst (Result cs) last (
                  h,
                  specialized cs c (record {
                    callee = f;
                    was = was;
                    has_body = body;
                    local = local;
                    scheme = s;
                    agrees = a;
                    version = g;
                    made_for = s';
                    same = same;
                    built = b;
                    operands = ops;
                    new = is;
                    fits = ground (arith, length-arg_perm 0 s, n);
                    plugged = q;
                  }),
                )
          ]
        ]

    new_version-Result :
        (cs : CallSite) (f : Function) (s : Scheme) (st : State S) (r : CallSite × State S)
        → IsCallee cs f
        → Agrees s cs.args
        → IsBuilt hash clone st.table
        → new_version hash clone cs f s st ≡ some r
        → Result cs r
    unfolding new_version
    new_version-Result cs f s st r was a h e = elim (Bool-cases (is_empty f.name)) [
      | inl y ↦ kept-Result cs st r (ground arith) h
      | inr y ↦ elim (Option-cases (specialize_function hash clone st.functions f s)) [
        | inl n ↦ absurd (ground arith)
        | inr ((g, m), z) ↦
            let b : Built hash clone f.address s g = record {
              original = f;
              before = st.functions;
              after = m;
              here = refl;
              found = z;
            } in
            let next : State S = record st {
              functions = m;
              table = (add_specialization f s g st.table).1;
              to_add = st.to_add ++ g ∷ [];
            } in
            replace_call-Result cs f g s s next r was a (same_scheme_refl s) b
              (add_specialization-IsBuilt hash clone f g s st.table h b) (ground arith)
      ]
    ]

    specialize_call-Result :
        (cs : CallSite) (f : Function) (s : Scheme) (st : State S) (r : CallSite × State S)
        → IsCallee cs f
        → Agrees s cs.args
        → IsBuilt hash clone st.table
        → specialize_call hash clone cs f s st ≡ some r
        → Result cs r
    unfolding specialize_call
    specialize_call-Result cs f s st r was a h e =
        elim (Option-cases (get_specializations f s st.table)) [
          | inl n ↦ absurd (ground arith)
          | inr ((vs, t), found) ↦
              let next : State S = record st { table = t } in
              let k = get_specializations-IsBuilt hash clone f s st.table t vs found h in
              elim (Option-cases (first_version s vs)) [
                | inl n ↦ absurd (ground arith)
                | inr (none, q) ↦ new_version-Result cs f s next r was a k (ground arith)
                | inr (some v, q) ↦
                    let (m, same) = first_version-same_scheme f s st.table t vs v found q in
                    replace_call-Result cs f v.handle s v.args next r was a same (h f v m) k
                      (ground arith)
              ]
        ]

    module _ (policy : Policy S) (honest : IsHonest policy) where
      try_call-Result :
          (cs : CallSite) (st : State S) (r : CallSite × State S)
          → IsBuilt hash clone st.table
          → try_call hash clone policy cs st ≡ some r
          → Result cs r
      unfolding try_call is_candidate
      try_call-Result cs st r h e = elim (Option-cases cs.callee) [
        | inl n ↦ kept-Result cs st r (ground arith) h
        | inr (f, was) ↦ elim (Bool-cases (not (is_candidate cs && f.is_local))) [
          | inl y ↦ kept-Result cs st r (ground arith) h
          | inr y ↦
              let (answer, s) = policy.intra cs st.policy_state in
              let next : State S = record st { policy_state = s } in
              let callee : IsCallee cs f = (was, ground arith, ground arith) in
              elim (Bool-cases answer.specialize) [
                | inr n ↦ kept-Result cs next r (ground arith) h
                | inl n ↦
                    specialize_call-Result cs f answer.marks next r callee
                      (honest.intra_agrees cs st.policy_state n) h (ground arith)
              ]
        ]
      ]

      -- A run on the call sites of a function that passes its assertions, under a policy that marks only
      -- arguments of the call and with a table whose versions `specializeFunction` gave for their
      -- functions, keeps the table so. Each call site is kept, or it calls a function of the module with
      -- a body and is replaced by a call of a version that `specializeFunction` gave for its callee and
      -- the pointers of a scheme whose constants the call passes. It passes as many arguments as the
      -- version has parameters, and with the constants of the scheme they are the old arguments.
      -- (`specializeFunction` finds a version by its name, so on a collision of names it is an older
      -- function.)
      pub try_specialize_function-Outcome :
          (cs ds : List CallSite) (st q : State S)
          → IsBuilt hash clone st.table
          → try_specialize_function hash clone policy cs st ≡ some (ds, q)
          → IsBuilt hash clone q.table × AllOutcome cs ds
      unfolding try_specialize_function
      try_specialize_function-Outcome [] ds st q h e =
          let same : ([], st) ≡ (ds, q) = some-injective _ _ e in
          subst (λ (x : List CallSite × State S). IsBuilt hash clone x.1.table × AllOutcome [] x.0)
            same (h, tt)
      try_specialize_function-Outcome (c ∷ cs) ds st q h e =
          elim (Option-cases (try_specialize_function hash clone policy cs st)) [
            | inl n ↦ absurd (ground arith)
            | inr ((es, r), z) ↦
                let (built, all) = try_specialize_function-Outcome cs es st r h z in
                elim (Option-cases (try_call hash clone policy c r)) [
                  | inl n ↦ absurd (ground arith)
                  | inr ((d, p), w) ↦
                      let (last, out) = try_call-Result c r (d, p) built w in
                      let same : (d ∷ es, p) ≡ (ds, q) = some-injective _ _ (ground arith) in
                      subst
                        (λ (x : List CallSite × State S).
                          IsBuilt hash clone x.1.table × AllOutcome (c ∷ cs) x.0)
                        same (last, (out, all))
                ]
          ]
