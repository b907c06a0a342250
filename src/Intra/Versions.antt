-- ===== src/Intra/Versions.antt =====
-- The versions in the table were made for the functions that they stand under,
-- src/IntraSpecializer.cpp.
use mathlib.Core.Option.{some-injective}
use occam.Base.{
  Option, none, ◌∙◌, ◌⊎◌, ℕ, zero, suc, ◌≡◌, refl, sym, subst, ap, Bool, true, false, ◌==◌, some,
  List, [], ◌∷◌, Name, arith, In, In-append, Bool-cases, Option-cases, inl, inr, if◌then◌else◌,
}
use occam.Ir.{Function}
use occam.Specializer.{Scheme, specialize_function}
use occam.Table.{Child, SpecTable, refines, find_spec, get_specializations, add_specialization}
use occam.Table.Children.{
  children_of, children_of-get_specialization, children_of-add_specialization, children_of-new,
  add_specialization-old, filter_children-In, get_specializations-parts,
}
use occam.Table.Refines.{same_scheme, refines_antisym}
use occam.Intra.{first_version}

module _ (hash : Name → Name) (clone : Function → Scheme → Name → Function) where
  -- `specializeFunction` gave the version for the scheme, in some module.
  pub record Built (a : ℕ) (s : Scheme) (g : Function) : Type 0 where
    pub original : Function
    pub before : List Function
    pub after : List Function
    pub here : original.address ≡ a
    pub found : specialize_function hash clone before original s ≡ some (g, after)

  -- Each child of an entry was built for its function.
  abbrev pub IsBuilt : SpecTable → Type 0
  IsBuilt t =
      (h : Function) (c : Child)
      → In c (children_of (find_spec h.address t))
      → Built h.address c.args c.handle

  pub get_specializations-IsBuilt :
      (f : Function) (s : Scheme) (t u : SpecTable) (cs : List Child)
      → get_specializations f s t ≡ some (cs, u)
      → IsBuilt t
      → IsBuilt u
  get_specializations-IsBuilt f s t u cs e h g c at =
      let same = (get_specializations-parts f s t u cs e).0 in
      h g c (
        subst (In c)
          (ap (λ x. children_of (find_spec g.address x)) same
            ∙ children_of-get_specialization g.address f t)
          at)

  one_more :
      (b : Bool) (a a' : ℕ) (c d : Child)
      → (b ≡ true → a' ≡ a)
      → Built a' d.args d.handle
      → In c (if b then d ∷ [] else [])
      → Built a c.args c.handle
  one_more true a a' c d e k (zero, q) =
      let same : d ≡ c = ground arith in
      subst (λ x. Built a x.args x.handle) same (subst (λ x. Built x d.args d.handle) (e refl) k)
  one_more true a a' c d e k (suc i, q) = absurd (ground arith)
  one_more false a a' c d e k (i, q) = absurd (ground arith)

  pub add_specialization-IsBuilt :
      (f g : Function) (s : Scheme) (t : SpecTable)
      → IsBuilt t
      → Built f.address s g
      → IsBuilt (add_specialization f s g t).1
  add_specialization-IsBuilt f g s t h k = elim (Option-cases (find_spec g.address t)) [
    | inr (e, q) ↦ subst IsBuilt (sym (add_specialization-old f g s t e q)) h
    | inl n ↦ λ x c m. elim (Bool-cases (x.address == g.address)) [
      | inl y ↦
          absurd (empty c (subst (In c) (children_of-new f g x.address s t n (ground arith)) m))
      | inr y ↦
          let e = children_of-add_specialization f g x.address s t n (ground arith) in
          elim (In-append c (children_of (find_spec x.address t)) _ (subst (In c) e m)) [
            | inl old ↦ h x c old
            | inr new ↦
                one_more (f.address == x.address) x.address f.address c
                  (record { handle = g; args = s }) (λ b. ground arith) k new
          ]
    ]
  ]
    where
      empty : (c : Child) → In c [] → ⊥
      empty c (i, e) = ground arith

-- The answer of one comparison, on the rest.
unfoldable answer_of : Child → Option (Option Child) → Option Bool → Option (Option Child)
answer_of v rest none = none
answer_of v rest (some true) = some (some v)
answer_of v rest (some false) = rest

first_version-answer_of :
    (s : Scheme) (v : Child) (vs : List Child)
    → first_version s (v ∷ vs) ≡ answer_of v (first_version s vs) (refines s v.args)
unfolding first_version answer_of
first_version-answer_of s v vs = elim (Option-cases (refines s v.args)) [
  | inl n ↦ ground arith
  | inr (b, e) ↦ ground (arith, Bool-cases b)
]

answer_of-cases :
    (v w : Child) (rest : Option (Option Child)) (r : Option Bool)
    → answer_of v rest r ≡ some (some w)
    → ((v ≡ w) × (r ≡ some true)) ⊎ (rest ≡ some (some w))
unfolding answer_of
answer_of-cases v w rest none h = absurd (ground arith)
answer_of-cases v w rest (some true) h = inl (some-injective _ _ (some-injective _ _ h), refl)
answer_of-cases v w rest (some false) h = inr h

first_version-In :
    (s : Scheme) (vs : List Child) (v : Child)
    → first_version s vs ≡ some (some v)
    → In v vs × (refines s v.args ≡ some true)
unfolding first_version
first_version-In s [] v e = absurd (ground arith)
first_version-In s (w ∷ vs) v e =
    elim (answer_of-cases w v (first_version s vs) (refines s w.args)
      (sym (first_version-answer_of s w vs) ∙ e)) [
        | inl (same, r) ↦ ((0, ap some same), subst (λ x. refines s x.args ≡ some true) same r)
        | inr later ↦ let ((i, q), r) = first_version-In s vs v later in ((suc i, q), r)
      ]

-- The old version that is chosen is a child of the function's entry, with the pointers of the scheme.
pub first_version-same_scheme :
    (f : Function) (s : Scheme) (t u : SpecTable) (vs : List Child) (v : Child)
    → get_specializations f s t ≡ some (vs, u)
    → first_version s vs ≡ some (some v)
    → In v (children_of (find_spec f.address t)) × (same_scheme s v.args ≡ true)
first_version-same_scheme f s t u vs v found e =
    let (at, r) = first_version-In s vs v e in
    let filtered = (get_specializations-parts f s t u vs found).1 in
    let (here, back) =
      filter_children-In s (children_of (find_spec f.address t)) vs v filtered at in
    (here, refines_antisym s v.args r back)
