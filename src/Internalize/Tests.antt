-- ===== src/Internalize/Tests.antt =====
-- Runs of src/InternalizeComponent.cpp on a small module, and the theorem at it.
use mathlib.Core.Option.{some-injective}
use occam.Base.{
  ℕ, zero, suc, ◌≡◌, refl, sym, subst, Bool, true, false, Name, codes, List, [], ◌∷◌, name_eq, In,
  inl, inr, map, arith, Bool-cases, if◌then◌else◌,
}
use occam.Interface.{contains, find}
use occam.Interface.Tests.{one_call}
use occam.Internalize.{
  Linkage, Symbol, Alias, Module, is_discardable, is_unused, minimize_component,
}
use occam.Internalize.Kept.{Stays, KeepsVisible, minimize_component-NeedsFunction}

abbrev symbol : ℕ → Name → Symbol
symbol a n = record {
  address = a;
  name = n;
  linkage = Linkage.external;
  is_defined = true;
  address_taken = false;
  default_visibility = true;
}

-- The interface calls f and references g; h is behind an alias with a use.
abbrev small : Module
small = record {
  aliases = record { name = codes "a"; aliasee = 3; use_empty = false } ∷ [];
  functions = symbol 1 (codes "f") ∷ symbol 2 (codes "k") ∷ symbol 3 (codes "h") ∷ [];
  globals = symbol 4 (codes "g") ∷ symbol 5 (codes "v") ∷ [];
}

abbrev unchanged : Module → Bool × Module
unchanged m = (false, m)

abbrev linkages : List Symbol → List Linkage
linkages ss = map (λ (s : Symbol). s.linkage) ss

minimize_run :
    linkages (minimize_component unchanged unchanged [] one_call 5 small).1.functions
    ≡ Linkage.external ∷ Linkage.internal ∷ Linkage.external ∷ []
unfolding minimize_component contains find name_eq
minimize_run = refl

minimize_globals_run :
    linkages (minimize_component unchanged unchanged [] one_call 5 small).1.globals
    ≡ Linkage.external ∷ Linkage.internal ∷ []
unfolding minimize_component contains find name_eq
minimize_globals_run = refl

visible : is_discardable Linkage.external ≡ true
unfolding is_discardable
visible = refl

alias-used :
    is_unused [] one_call (record { name = codes "a"; aliasee = 3; use_empty = false }) ≡ false
unfolding is_unused contains name_eq
alias-used = refl

-- A pass that drops the functions that are not visible, and the marks of the others.
abbrev keep_visible : List Symbol → List Symbol
keep_visible [] = []
keep_visible (f ∷ fs) =
    if is_discardable f.linkage
    then record f { address_taken = false } ∷ keep_visible fs
    else keep_visible fs

abbrev drop_hidden : Module → Bool × Module
drop_hidden m = (false, record m { functions = keep_visible m.functions })

keep_visible-Stays :
    (aliases : List Alias) (globals fs : List Symbol) (f : Symbol)
    → In f fs
    → is_discardable f.linkage ≡ true
    → f.is_defined ≡ true
    → Stays f (record { aliases = aliases; functions = keep_visible fs; globals = globals })
keep_visible-Stays aliases globals [] f (k, at) v d = absurd (ground arith)
keep_visible-Stays aliases globals (g ∷ fs) f (zero, at) v d =
    let same : g ≡ f = some-injective _ _ at in
    subst
      (λ x.
        Stays x
          (record { aliases = aliases; functions = keep_visible (g ∷ fs); globals = globals }))
      same
      (here (subst (λ x. is_discardable x.linkage ≡ true) (sym same) v)
        (subst (λ x. x.is_defined ≡ true) (sym same) d))
  where
    here :
        is_discardable g.linkage ≡ true
        → g.is_defined ≡ true
        → Stays g
            (record { aliases = aliases; functions = keep_visible (g ∷ fs); globals = globals })
    here v d = rw v (record g { address_taken = false }, (0, refl), refl, refl, d)
keep_visible-Stays aliases globals (g ∷ fs) f (suc k, at) v d =
    let (h, (j, found), name, linkage, defined) =
      keep_visible-Stays aliases globals fs f (k, at) v d in
    elim (Bool-cases (is_discardable g.linkage)) [
      | inl y ↦ (h, (suc j, ground arith), name, linkage, defined)
      | inr n ↦ (h, (j, ground arith), name, linkage, defined)
    ]

drop_hidden-KeepsVisible : KeepsVisible drop_hidden
drop_hidden-KeepsVisible m f at v d = keep_visible-Stays m.aliases m.globals m.functions f at v d

minimize_component-NeedsFunction_example :
    Stays (symbol 3 (codes "h")) (minimize_component drop_hidden drop_hidden [] one_call 5 small).1
minimize_component-NeedsFunction_example =
    minimize_component-NeedsFunction drop_hidden drop_hidden [] one_call 5 small
      (symbol 3 (codes "h")) drop_hidden-KeepsVisible drop_hidden-KeepsVisible (2, refl) visible
      refl
      (inr (
        inr (
          inr (
            inr (
              record { name = codes "a"; aliasee = 3; use_empty = false },
              (0, refl),
              refl,
              alias-used,
            )))))
