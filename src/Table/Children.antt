-- ===== src/Table/Children.antt =====
-- What `getSpecializations` finds after `addSpecialization`, src/SpecializationTable.cpp.
use mathlib.Core.List.{append-nil}
use mathlib.Core.Option
use mathlib.Core.Option.{some-injective}
use occam.Base.{
  ℕ, zero, suc, In, subst, ◌≡◌, refl, get_elem?, ◌≢◌, sym, ap, ◌∙◌, Bool, true, false, ◌&&◌, Option,
  none, some, List, [], ◌∷◌, ◌++◌, ◌==◌, if◌then◌else◌, arith, Option-cases, inl, inr, is_some,
}
use occam.Ir.{Function}
use occam.Specializer.{Scheme}
use occam.Table.{
  Child, Specialization, SpecTable, refines, find_spec, get_specialization, filter_children,
  get_specializations, push_child, add_specialization,
}

abbrev pub children_of : Option Specialization → List Child
children_of none = []
children_of (some e) = e.children

-- What `getSpecializations` puts into its result.
abbrev pub found : Function → Scheme → SpecTable → Option (List Child)
found h s t = Option.map (λ (r : List Child × SpecTable). r.0) (get_specializations h s t)

map-found :
    (o : Option (List Child)) (t : SpecTable)
    → Option.map
        (λ (r : List Child × SpecTable). r.0)
        (Option.map {B = List Child × SpecTable} (λ cs. (cs, t)) o)
      ≡ o
map-found none t = refl
map-found (some cs) t = refl

entry-children_of :
    (h : Function) (t : SpecTable)
    → (get_specialization h t).0.children ≡ children_of (find_spec h.address t)
unfolding get_specialization
entry-children_of h t = elim (Option-cases (find_spec h.address t)) [
  | inl n ↦ ground arith
  | inr (e, q) ↦ ground arith
]

found-children_of :
    (h : Function) (s : Scheme) (t : SpecTable)
    → found h s t ≡ filter_children s (children_of (find_spec h.address t))
unfolding get_specializations
found-children_of h s t =
    map-found (filter_children s (get_specialization h t).0.children) (get_specialization h t).1
    ∙ ap (filter_children s) (entry-children_of h t)

abbrev with_child : Bool → Child → Specialization → Specialization
with_child b c e = if b then record e { children = e.children ++ c ∷ [] } else e

find_spec-push_child :
    (a b : ℕ) (c : Child) (t : SpecTable)
    → find_spec a (push_child b c t) ≡ Option.map (with_child (b == a) c) (find_spec a t)
unfolding find_spec push_child
find_spec-push_child a b c [] = refl
find_spec-push_child a b c (e ∷ t) = ground (arith, find_spec-push_child a b c t)

pub children_of-get_specialization :
    (a : ℕ) (f : Function) (t : SpecTable)
    → children_of (find_spec a (get_specialization f t).1) ≡ children_of (find_spec a t)
unfolding get_specialization find_spec
children_of-get_specialization a f t = elim (Option-cases (find_spec f.address t)) [
  | inl n ↦ ground arith
  | inr (e, q) ↦ ground arith
]

pub find_spec-get_specialization :
    (f : Function) (t : SpecTable) → is_some (find_spec f.address (get_specialization f t).1) ≡ true
unfolding get_specialization find_spec
find_spec-get_specialization f t = elim (Option-cases (find_spec f.address t)) [
  | inl n ↦ ground arith
  | inr (e, q) ↦ ground arith
]

abbrev kept_child : Bool → Child → List Child → List Child
kept_child b c cs = if b then c ∷ cs else cs

kept_child-append :
    (b : Bool) (c : Child) (xs ys : List Child)
    → kept_child b c (xs ++ ys) ≡ kept_child b c xs ++ ys
kept_child-append true c xs ys = refl
kept_child-append false c xs ys = refl

-- One round of the filter, on the answer for its child and on the rest.
unfoldable filter_step : Child → Option (List Child) → Option Bool → Option (List Child)
filter_step c o none = none
filter_step c o (some b) = Option.map (kept_child b c) o

filter_children-step :
    (s : Scheme) (c : Child) (cs : List Child)
    → filter_children s (c ∷ cs) ≡ filter_step c (filter_children s cs) (refines c.args s)
unfolding filter_children filter_step
filter_children-step s c cs = elim (Option-cases (refines c.args s)) [
  | inl n ↦ ground arith
  | inr (b, e) ↦ ground arith
]

filter_step-parts :
    (c : Child) (o : Option (List Child)) (r : Option Bool) (ds : List Child)
    → filter_step c o r ≡ some ds
    → (b : Bool) × (es : List Child) × (r ≡ some b) × (o ≡ some es) × (kept_child b c es ≡ ds)
unfolding filter_step
filter_step-parts c o none ds h = absurd (ground arith)
filter_step-parts c none (some b) ds h = absurd (ground arith)
filter_step-parts c (some es) (some b) ds h = (b, es, refl, refl, some-injective _ _ h)

filter_children-cons :
    (s : Scheme) (c : Child) (cs es : List Child) (b : Bool)
    → refines c.args s ≡ some b
    → filter_children s cs ≡ some es
    → filter_children s (c ∷ cs) ≡ some (kept_child b c es)
unfolding filter_step
filter_children-cons s c cs es b r h =
    filter_children-step s c cs
    ∙ ap (filter_step c (filter_children s cs)) r
    ∙ ap (Option.map (kept_child b c)) h

filter_children-parts :
    (s : Scheme) (c : Child) (cs ds : List Child)
    → filter_children s (c ∷ cs) ≡ some ds
    → (b : Bool) × (es : List Child) × (refines c.args s ≡ some b)
      × (filter_children s cs ≡ some es)
      × (kept_child b c es ≡ ds)
filter_children-parts s c cs ds h =
    filter_step-parts c (filter_children s cs) (refines c.args s) ds
      (sym (filter_children-step s c cs) ∙ h)

filter_children-append :
    (s : Scheme) (cs ds : List Child) (c : Child) (b : Bool)
    → refines c.args s ≡ some b
    → filter_children s cs ≡ some ds
    → filter_children s (cs ++ c ∷ []) ≡ some (ds ++ (if b then c ∷ [] else []))
unfolding filter_children
filter_children-append s [] ds c b r h =
    let same : [] ≡ ds = some-injective _ _ h in
    filter_children-cons s c [] [] b r refl ∙ ap (λ x. some (x ++ (if b then c ∷ [] else []))) same
filter_children-append s (d ∷ cs) ds c b r h =
    let (x, es, one, rest, whole) = filter_children-parts s d cs ds h in
    let more = if b then c ∷ [] else [] in
    filter_children-cons s d (cs ++ c ∷ []) (es ++ more) x one
      (filter_children-append s cs es c b r rest)
    ∙ ap some (kept_child-append x d es more ∙ ap (λ l. l ++ more) whole)

find_spec-add_specialization :
    (f g : Function) (a : ℕ) (s : Scheme) (t : SpecTable)
    → find_spec g.address t ≡ none
    → a ≢ g.address
    → find_spec a (add_specialization f s g t).1
      ≡ Option.map
          (with_child (f.address == a) (record { handle = g; args = s }))
          (find_spec a (get_specialization f t).1)
unfolding add_specialization find_spec
find_spec-add_specialization f g a s t n d = ground (
  arith,
  find_spec-push_child a f.address (record { handle = g; args = s }) (get_specialization f t).1,
)

children_of-with_child :
    (b : Bool) (c : Child) (o : Option Specialization)
    → (b ≡ true → is_some o ≡ true)
    → children_of (Option.map (with_child b c) o) ≡ children_of o ++ (if b then c ∷ [] else [])
children_of-with_child b c none h = ground arith
children_of-with_child true c (some e) h = refl
children_of-with_child false c (some e) h = sym (append-nil e.children)

filter_children-if :
    (f : Bool) (s : Scheme) (cs ds : List Child) (c : Child) (b : Bool)
    → (f ≡ true → refines c.args s ≡ some b)
    → filter_children s cs ≡ some ds
    → filter_children s (cs ++ (if f then c ∷ [] else []))
      ≡ some (ds ++ (if f && b then c ∷ [] else []))
filter_children-if true s cs ds c b r h = filter_children-append s cs ds c b (r refl) h
filter_children-if false s cs ds c b r h =
    ap (filter_children s) (append-nil cs) ∙ h ∙ ap some (sym (append-nil ds))

found_if_same :
    (f : Function) (a : ℕ) (t : SpecTable)
    → (f.address == a) ≡ true
    → is_some (find_spec a (get_specialization f t).1) ≡ true
found_if_same f a t e = ground (arith, find_spec-get_specialization f t)

-- The children of an older function after `addSpecialization`.
pub children_of-add_specialization :
    (f g : Function) (a : ℕ) (s : Scheme) (t : SpecTable)
    → find_spec g.address t ≡ none
    → a ≢ g.address
    → children_of (find_spec a (add_specialization f s g t).1)
      ≡ children_of (find_spec a t)
        ++ (if f.address == a then record { handle = g; args = s } ∷ [] else [])
children_of-add_specialization f g a s t n d =
    let c : Child = record { handle = g; args = s } in
    let b = f.address == a in
    let t' = (get_specialization f t).1 in
    ap children_of (find_spec-add_specialization f g a s t n d)
    ∙ children_of-with_child b c (find_spec a t') (found_if_same f a t)
    ∙ ap (λ l. l ++ (if b then c ∷ [] else [])) (children_of-get_specialization a f t)

-- After a new function `g` is added as the specialization of `f` on a scheme, `getSpecializations` of any
-- older function finds what it found before, and for `f` also `g`, exactly if the scheme of `g` refines
-- the scheme that is asked for. The schemes that are compared have one length, which the code asserts.
pub get_specializations-add_specialization :
    (f g h : Function) (s s' : Scheme) (t : SpecTable) (cs : List Child) (b : Bool)
    → find_spec g.address t ≡ none
    → h.address ≢ g.address
    → found h s' t ≡ some cs
    → ((f.address == h.address) ≡ true → refines s s' ≡ some b)
    → found h s' (add_specialization f s g t).1
      ≡ some
          (cs ++ (if f.address == h.address && b then record { handle = g; args = s } ∷ [] else []))
get_specializations-add_specialization f g h s s' t cs b n d before compared =
    found-children_of h s' (add_specialization f s g t).1
    ∙ ap (filter_children s') (children_of-add_specialization f g h.address s t n d)
    ∙ filter_children-if (f.address == h.address) s' (children_of (find_spec h.address t)) cs
        (record { handle = g; args = s }) b compared (sym (found-children_of h s' t) ∙ before)

-- A new function has no children.
pub children_of-new :
    (f g : Function) (a : ℕ) (s : Scheme) (t : SpecTable)
    → find_spec g.address t ≡ none
    → a ≡ g.address
    → children_of (find_spec a (add_specialization f s g t).1) ≡ []
unfolding add_specialization find_spec
children_of-new f g a s t n e = ground arith

pub add_specialization-old :
    (f g : Function) (s : Scheme) (t : SpecTable) (e : Specialization)
    → find_spec g.address t ≡ some e
    → (add_specialization f s g t).1 ≡ t
unfolding add_specialization
add_specialization-old f g s t e h = ground arith

-- What is found is a child, and at least as special as the scheme.
pub filter_children-In :
    (s : Scheme) (cs ds : List Child) (c : Child)
    → filter_children s cs ≡ some ds
    → In c ds
    → In c cs × (refines c.args s ≡ some true)
unfolding filter_children
filter_children-In s [] ds c h (i, e) =
    let same : [] ≡ ds = some-injective _ _ h in
    let at : get_elem? [] i ≡ some c = ap (λ x. get_elem? x i) same ∙ e in absurd (ground arith)
filter_children-In s (d ∷ cs) ds c h at =
    let (b, es, one, rest, whole) = filter_children-parts s d cs ds h in
    from b es (filter_children-In s cs es c rest) one (subst (In c) (sym whole) at)
  where
    from :
        (b : Bool) (es : List Child)
        → (In c es → In c cs × (refines c.args s ≡ some true))
        → refines d.args s ≡ some b
        → In c (kept_child b d es)
        → In c (d ∷ cs) × (refines c.args s ≡ some true)
    from true es later one (zero, e) =
        let same : d ≡ c = some-injective _ _ e in
        ((0, e), subst (λ x. refines x.args s ≡ some true) same one)
    from true es later one (suc i, e) = let ((j, q), r) = later (i, e) in ((suc j, q), r)
    from false es later one (i, e) = let ((j, q), r) = later (i, e) in ((suc j, q), r)

-- What `getSpecializations` gives.
pub get_specializations-parts :
    (f : Function) (s : Scheme) (t u : SpecTable) (cs : List Child)
    → get_specializations f s t ≡ some (cs, u)
    → (u ≡ (get_specialization f t).1)
      × (filter_children s (children_of (find_spec f.address t)) ≡ some cs)
unfolding get_specializations
get_specializations-parts f s t u cs h =
    elim (Option-cases (filter_children s (get_specialization f t).0.children)) [
      | inl n ↦ absurd (ground arith)
      | inr (ds, e) ↦
          let same : (ds, (get_specialization f t).1) ≡ (cs, u) = some-injective _ _ (
            sym (
              ap (Option.map {B = List Child × SpecTable} (λ x. (x, (get_specialization f t).1))) e)
            ∙ h) in
          (
            ap (λ (x : List Child × SpecTable). x.1) (sym same),
            ap (filter_children s) (sym (entry-children_of f t))
                ∙ e
                ∙ ap (λ (x : List Child × SpecTable). some x.0) same,
          )
    ]
