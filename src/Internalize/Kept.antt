-- ===== src/Internalize/Kept.antt =====
-- What other modules need stays visible, src/InternalizeComponent.cpp.
use occam.Base.{
  ℕ, zero, suc, ◌≡◌, refl, ◌∙◌, sym, subst, ◌⊎◌, inl, inr, Bool, true, false, ◌||◌, List, [], ◌∷◌,
  Name, arith, In, Bool-cases, is_some,
}
use occam.Interface.{ComponentInterface, contains, find}
use occam.Internalize.{
  Symbol, Alias, Module, is_discardable, has_number, is_whitelisted, is_unused, keep_aliasees,
  may_internalize_function, internalize, internalize_module, clean, minimize_component,
}

-- An alias of the module that is used, referenced or on the white list.
abbrev pub HasAlias : List Name → ComponentInterface → List Alias → ℕ → Type 0
HasAlias keep i aliases address =
    (a : Alias) × In a aliases × (a.aliasee ≡ address) × (is_unused keep i a ≡ false)

-- The function is on the white list, called or referenced by another module, used as a value, or
-- behind an alias that stays.
abbrev pub NeedsFunction : List Name → ComponentInterface → List Alias → Symbol → Type 0
NeedsFunction keep i aliases f =
    (is_whitelisted keep f.name ≡ true)
    ⊎ (is_some (find f.name i.calls) ≡ true)
    ⊎ (contains f.name i.references ≡ true)
    ⊎ (f.address_taken ≡ true)
    ⊎ HasAlias keep i aliases f.address

-- A function of the same name and linkage is defined in the module.
abbrev pub Stays : Symbol → Module → Type 0
Stays f m =
    (g : Symbol) × In g m.functions
    × (g.name ≡ f.name)
    × (g.linkage ≡ f.linkage)
    × (g.is_defined ≡ true)

-- A pass that cleans up keeps the definitions of functions that are visible outside the module, under
-- their names and with their linkage; what else it keeps of them is open, and so are declarations.
abbrev pub KeepsVisible : (Module → Bool × Module) → Type 0
KeepsVisible pass =
    (m : Module) (f : Symbol)
    → In f m.functions
    → is_discardable f.linkage ≡ true
    → f.is_defined ≡ true
    → Stays f (pass m).1

In-skip : {A : Type 0} (x y : A) (xs : List A) → In x xs → In x (y ∷ xs)
In-skip x y xs (i, e) = (suc i, e)

internalize-In :
    (p : Symbol → Bool) (f : Symbol) (fs : List Symbol)
    → In f fs
    → p f ≡ false
    → In f (internalize p fs).1
unfolding internalize
internalize-In p f [] (i, e) n = absurd (ground arith)
internalize-In p f (g ∷ fs) (zero, e) n = let same : g ≡ f = ground arith in (0, ground arith)
internalize-In p f (g ∷ fs) (suc i, e) n =
    let (j, q) = internalize-In p f fs (i, e) n in (suc j, ground arith)

has_number-keep_aliasees :
    (keep : List Name) (i : ComponentInterface) (aliases : List Alias) (address : ℕ)
    → HasAlias keep i aliases address
    → has_number address (keep_aliasees keep i aliases) ≡ true
unfolding has_number keep_aliasees
has_number-keep_aliasees keep i [] address (a, (k, e), same, u) = absurd (ground arith)
has_number-keep_aliasees keep i (b ∷ aliases) address (a, (zero, e), same, u) =
    let is : b ≡ a = ground arith in ground arith
has_number-keep_aliasees keep i (b ∷ aliases) address (a, (suc k, e), same, u) =
    let rest = has_number-keep_aliasees keep i aliases address (a, (k, e), same, u) in
    elim (Bool-cases (is_unused keep i b)) [ inl y ↦ ground arith | inr y ↦ ground arith ]

may_internalize-needs :
    (keep : List Name) (i : ComponentInterface) (aliases : List Alias) (f : Symbol)
    → NeedsFunction keep i aliases f
    → may_internalize_function keep i (keep_aliasees keep i aliases) f ≡ false
unfolding may_internalize_function
may_internalize-needs keep i aliases f (inl h) = ground arith
may_internalize-needs keep i aliases f (inr (inl h)) = ground arith
may_internalize-needs keep i aliases f (inr (inr (inl h))) = ground arith
may_internalize-needs keep i aliases f (inr (inr (inr (inl h)))) = ground arith
may_internalize-needs keep i aliases f (inr (inr (inr (inr h)))) =
    let kept = has_number-keep_aliasees keep i aliases f.address h in ground arith

-- A pass keeps what stays.
Stays-pass :
    (pass : Module → Bool × Module) (m : Module) (f : Symbol)
    → KeepsVisible pass
    → is_discardable f.linkage ≡ true
    → Stays f m
    → Stays f (pass m).1
Stays-pass pass m f keeps v (g, at, name, linkage, defined) =
    let (h, at', name', linkage', defined') =
      keeps m g at (subst (λ l. is_discardable l ≡ true) (sym linkage) v) defined in
    (h, at', name' ∙ name, linkage' ∙ linkage, defined')

clean-Stays :
    (dce merge : Module → Bool × Module) (n : ℕ) (m : Module) (f : Symbol)
    → KeepsVisible dce
    → KeepsVisible merge
    → is_discardable f.linkage ≡ true
    → Stays f m
    → Stays f (clean dce merge n m)
unfolding clean
clean-Stays dce merge zero m f kd km v h = h
clean-Stays dce merge (suc n) m f kd km v h =
    let m1 = (dce m).1 in
    let m2 = (merge m1).1 in
    let at2 : Stays f m2 = Stays-pass merge m1 f km v (Stays-pass dce m f kd v h) in
    let rest = clean-Stays dce merge n m2 f kd km v at2 in
    elim (Bool-cases ((dce m).0 || (merge m1).0)) [
      | inl y ↦
          let is : clean dce merge (suc n) m ≡ clean dce merge n m2 = ground arith in
          subst (Stays f) (sym is) rest
      | inr y ↦
          let is : clean dce merge (suc n) m ≡ m2 = ground arith in subst (Stays f) (sym is) at2
    ]

-- A function that the module defines, that is visible outside it and that another module may need (it is
-- on the white list, called or referenced by the interface, used as a value, or behind an alias that
-- stays) is still defined in the module after `MinimizeComponent`, under its name and with its linkage,
-- provided that the passes of LLVM that clean up keep the definitions of visible functions so.
pub minimize_component-NeedsFunction :
    (dce merge : Module → Bool × Module) (keep : List Name) (i : ComponentInterface) (n : ℕ)
    (m : Module) (f : Symbol)
    → KeepsVisible dce
    → KeepsVisible merge
    → In f m.functions
    → is_discardable f.linkage ≡ true
    → f.is_defined ≡ true
    → NeedsFunction keep i m.aliases f
    → Stays f (minimize_component dce merge keep i n m).1
unfolding minimize_component internalize_module
minimize_component-NeedsFunction dce merge keep i n m f kd km h v defined needs =
    let still =
      internalize-In (may_internalize_function keep i (keep_aliasees keep i m.aliases)) f
        m.functions h (may_internalize-needs keep i m.aliases f needs) in
    let stays : Stays f (internalize_module keep i m).1 = (f, still, refl, refl, defined) in
    elim (Bool-cases (internalize_module keep i m).0) [
      | inl y ↦
          let is : (minimize_component dce merge keep i n m).1
              ≡ clean dce merge n (internalize_module keep i m).1 =
            ground arith in
          subst (Stays f) (sym is)
            (clean-Stays dce merge n (internalize_module keep i m).1 f kd km v stays)
      | inr y ↦
          let is : (minimize_component dce merge keep i n m).1 ≡ (internalize_module keep i m).1 =
            ground arith in
          subst (Stays f) (sym is) stays
    ]
