-- ===== src/Inter/Made.antt =====
-- The rewrites that `SpecializeComponent` records, src/InterSpecializer.cpp.
use occam.Base.{
  ℕ, suc, ◌≡◌, refl, sym, subst, ◌∙◌, Bool, true, not, ◌&&◌, ◌||◌, ◌==◌, Option, some, List, [],
  ◌∷◌, Name, arith, length, In, Bool-cases, Option-cases, inl, inr, name_eq, name_eq_iff, is_some,
  is_empty,
}
use occam.Value.{Value}
use occam.Previrt.{Constant, Target}
use occam.Interface.{CallInfo, ComponentInterface, calls_of}
use occam.Transform.{CallRewrite, ComponentInterfaceTransform, rewrite, lookup_call, get_interface}
use occam.Transform.Lookup.{lookup_call-rewrite}
use occam.Ir.{Function}
use occam.Specializer.{Scheme, specialize_function, arg_perm}
use occam.Policy.{Policy}
use occam.Policy.Marks.{Fits, IsHonest}
use occam.Inter.{
  Run, record_rewrite, concretize_marked, specialize_marked, specialize_recorded, specialize_calls,
  specialize_named, specialize_all, resolve_function,
}

module _ (hash : Name → Name) (clone : Function → Scheme → Name → Function)
    (make : Constant → Value) where
  -- The rewrite names the function that `specializeFunction` gave for constants made of marked,
  -- concrete arguments of the recorded call, and the positions of the other arguments.
  pub record Made (c : CallInfo) (new : CallRewrite) : Type 0 where
    pub marks : List Bool
    pub at : ℕ → Target
    pub scheme : Scheme
    pub fits : Fits marks c.args
    pub constants : concretize_marked make at 0 marks c.args ≡ some scheme
    pub positions : new.args ≡ arg_perm 0 scheme
    pub original : Function
    pub before : List Function
    pub version : Function × List Function
    pub found : specialize_function hash clone before original scheme ≡ some version
    pub named : version.0.name ≡ new.function

  -- Every rewrite stands under a recorded call of its function, and was made for it.
  pub record IsSound (i : ComponentInterface) (t : ComponentInterfaceTransform) : Type 0 where
    pub kept : t.interface ≡ some i
    pub made :
        (name : Name) (k : ℕ) (new : CallRewrite)
        → lookup_call name k t ≡ some new
        → (c : CallInfo) × In c (calls_of name i) × (c.id ≡ k) × Made c new

  rewrite-IsSound :
      (i : ComponentInterface) (t : ComponentInterfaceTransform) (name : Name) (c : CallInfo)
      (new : CallRewrite)
      → IsSound i t
      → In c (calls_of name i)
      → Made c new
      → IsSound i (rewrite name c.id new t)
  unfolding rewrite
  rewrite-IsSound i t name c new h at m = record { kept = h.kept; made = go }
    where
      both :
          {g : Name} {k : ℕ} (b : Bool)
          → name_eq name g && (c.id == k && b) ≡ true
          → (name ≡ g) × (c.id ≡ k)
      both {g} {k} b e = (ground (arith, name_eq_iff name g), ground arith)

      go :
          (g : Name) (k : ℕ) (s : CallRewrite)
          → lookup_call g k (rewrite name c.id new t) ≡ some s
          → (d : CallInfo) × In d (calls_of g i) × (d.id ≡ k) × Made d s
      go g k s e =
          let step = sym (lookup_call-rewrite name g c.id k new t) ∙ e in
          elim (Bool-cases
            (name_eq name g && (c.id == k && not (is_some (lookup_call name c.id t))))) [
              | inl y ↦
                  let (same, here) = both _ y in
                  let is : new ≡ s = ground arith in
                  (c, subst (λ x. In c (calls_of x i)) same at, here, subst (Made c) is m)
              | inr n ↦ h.made g k s (ground arith)
            ]

  module _ (target : List Function → Function → ℕ → Target) (alias : Name → Option Function)
      {S : Type 0} (policy : Policy S) (honest : IsHonest policy) (i : ComponentInterface) where
    specialize_marked-IsSound :
        (name : Name) (f : Function) (c : CallInfo) (marks : List Bool) (r q : Run S)
        → IsSound i r.transform
        → In c (calls_of name i)
        → Fits marks c.args
        → specialize_marked hash clone make target alias policy name f c marks r ≡ some q
        → IsSound i q.transform
    unfolding specialize_marked record_rewrite
    specialize_marked-IsSound name f c marks r q h at fits e =
        elim (Option-cases (concretize_marked make (target r.functions f) 0 marks c.args)) [
          | inl n ↦ absurd (ground arith)
          | inr (scheme, p) ↦ elim (Bool-cases (is_empty f.name)) [
            | inl y ↦ let same : r ≡ q = ground arith in subst (λ x. IsSound i x.transform) same h
            | inr y ↦ elim (Option-cases (specialize_function hash clone r.functions f scheme)) [
              | inl n ↦ absurd (ground arith)
              | inr ((g, m), z) ↦
                  let same : record_rewrite name c scheme g m r ≡ q = ground arith in
                  subst (λ x. IsSound i x.transform) same
                    (rewrite-IsSound i r.transform name c _ h at (record {
                      marks = marks;
                      at = target r.functions f;
                      scheme = scheme;
                      fits = fits;
                      constants = p;
                      positions = refl;
                      original = f;
                      before = r.functions;
                      version = (g, m);
                      found = z;
                      named = refl;
                    }))
            ]
          ]
        ]

    specialize_recorded-IsSound :
        (name : Name) (f : Function) (c : CallInfo) (r q : Run S)
        → IsSound i r.transform
        → In c (calls_of name i)
        → specialize_recorded hash clone make target alias policy name f c r ≡ some q
        → IsSound i q.transform
    unfolding specialize_recorded
    specialize_recorded-IsSound name f c r q h at e =
        elim (Bool-cases (f.is_var_arg || not (length c.args == f.arg_size))) [
          | inl y ↦ let same : r ≡ q = ground arith in subst (λ x. IsSound i x.transform) same h
          | inr y ↦
              let (answer, s) = policy.inter f c.args (get_interface r.transform) r.policy_state in
              elim (Bool-cases answer.specialize) [
                | inl z ↦
                    specialize_marked-IsSound name f c answer.marks (record r { policy_state = s })
                      q h at
                      (honest.inter_fits f c.args (get_interface r.transform) r.policy_state z)
                      (ground arith)
                | inr z ↦
                    let same : record r { policy_state = s } ≡ q = ground arith in
                    subst (λ x. IsSound i x.transform) same h
              ]
        ]

    specialize_calls-IsSound :
        (name : Name) (f : Function) (cs : List CallInfo) (r q : Run S)
        → IsSound i r.transform
        → ((c : CallInfo) → In c cs → In c (calls_of name i))
        → specialize_calls hash clone make target alias policy name f cs r ≡ some q
        → IsSound i q.transform
    unfolding specialize_calls
    specialize_calls-IsSound name f [] r q h at e =
        let same : r ≡ q = ground arith in subst (λ x. IsSound i x.transform) same h
    specialize_calls-IsSound name f (c ∷ cs) r q h at e =
        elim (Option-cases (specialize_recorded hash clone make target alias policy name f c r)) [
          | inl n ↦ absurd (ground arith)
          | inr (p, z) ↦
              specialize_calls-IsSound name f cs p q
                (specialize_recorded-IsSound name f c r p h (at c (0, refl)) z)
                (λ d (j, w). at d (suc j, w)) (ground arith)
        ]

    specialize_named-IsSound :
        (name : Name) (r q : Run S)
        → IsSound i r.transform
        → specialize_named hash clone make target alias policy i name r ≡ some q
        → IsSound i q.transform
    unfolding specialize_named
    specialize_named-IsSound name r q h e =
        elim (Option-cases (resolve_function alias r.functions name)) [
          | inl n ↦ let same : r ≡ q = ground arith in subst (λ x. IsSound i x.transform) same h
          | inr (f, z) ↦ elim (Bool-cases f.is_declaration) [
            | inl y ↦ let same : r ≡ q = ground arith in subst (λ x. IsSound i x.transform) same h
            | inr y ↦
                specialize_calls-IsSound name f (calls_of name i) r q h (λ c w. w) (ground arith)
          ]
        ]

    pub specialize_all-IsSound :
        (names : List (Name × List CallInfo)) (r q : Run S)
        → IsSound i r.transform
        → specialize_all hash clone make target alias policy i names r ≡ some q
        → IsSound i q.transform
    unfolding specialize_all
    specialize_all-IsSound [] r q h e =
        let same : r ≡ q = ground arith in subst (λ x. IsSound i x.transform) same h
    specialize_all-IsSound ((name, cs) ∷ rest) r q h e =
        elim (Option-cases (specialize_named hash clone make target alias policy i name r)) [
          | inl n ↦ absurd (ground arith)
          | inr (p, z) ↦
              specialize_all-IsSound rest p q (specialize_named-IsSound name r p h z) (ground arith)
        ]
