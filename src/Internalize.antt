-- ===== src/Internalize.antt =====
-- The symbols of a module made internal with respect to its interface: `MinimizeComponent` of
-- src/InternalizeComponent.cpp.
pub mod Kept
pub mod Tests
use occam.Base.{
  ℕ, zero, suc, Bool, true, false, not, ◌&&◌, ◌||◌, ◌==◌, Option, none, some, List, [], ◌∷◌, ◌++◌,
  Name, if◌then◌else◌, is_empty, is_some,
}
use occam.Interface.{ComponentInterface, contains, find}

-- `GlobalValue::LinkageTypes`.
pub data Linkage : Type 0 where
  external available_externally link_once_any link_once_odr weak_any weak_odr : Linkage
  appending internal private extern_weak common : Linkage

-- A function or a global variable: the answers to the queries that the pass makes. `is_defined` is
-- a body of a function and an initializer of a variable.
pub record Symbol : Type 0 where
  pub address : ℕ
  pub name : Name
  pub linkage : Linkage
  pub is_defined : Bool
  pub address_taken : Bool
  pub default_visibility : Bool

-- An alias; `aliasee` is the address behind `stripBitCastCE`.
pub record Alias : Type 0 where
  pub name : Name
  pub aliasee : ℕ
  pub use_empty : Bool

pub record Module : Type 0 where
  pub aliases : List Alias
  pub functions : List Symbol
  pub globals : List Symbol

-- `isDiscardableIfUnusedExternally`.
unfoldable pub is_discardable : Linkage → Bool
is_discardable external = true
is_discardable extern_weak = true
is_discardable weak_any = true
is_discardable weak_odr = true
is_discardable common = true
is_discardable _ = false

unfoldable pub has_number : ℕ → List ℕ → Bool
has_number a [] = false
has_number a (b ∷ bs) = if b == a then true else has_number a bs

-- The name is on the white list; an empty name is no name.
unfoldable pub is_whitelisted : List Name → Name → Bool
unfolding contains
is_whitelisted keep n = not (is_empty n) && contains n keep

-- The test for an unused alias.
unfoldable pub is_unused : List Name → ComponentInterface → Alias → Bool
unfolding is_whitelisted contains
is_unused keep i a =
    not (is_whitelisted keep a.name) && (not (contains a.name i.references) && a.use_empty)

-- The loop over the aliases: `keepAliasees`, and the aliases that stay.
unfoldable pub keep_aliasees : List Name → ComponentInterface → List Alias → List ℕ
unfolding is_unused
keep_aliasees keep i [] = []
keep_aliasees keep i (a ∷ as') =
    let rest = keep_aliasees keep i as' in if is_unused keep i a then rest else a.aliasee ∷ rest

unfoldable pub used_aliases : List Name → ComponentInterface → List Alias → List Alias
unfolding is_unused
used_aliases keep i [] = []
used_aliases keep i (a ∷ as') =
    let rest = used_aliases keep i as' in if is_unused keep i a then rest else a ∷ rest

-- The tests of the two loops, up to `setInternalLinkage`.
unfoldable pub may_internalize_function : List Name → ComponentInterface → List ℕ → Symbol → Bool
unfolding is_whitelisted is_discardable has_number contains find
may_internalize_function keep i kept f =
    not (is_whitelisted keep f.name)
    && (f.is_defined
        && (is_discardable f.linkage
            && (not (is_some (find f.name i.calls))
                && (not (contains f.name i.references)
                    && (not f.address_taken && not (has_number f.address kept))))))

unfoldable pub may_internalize_global : List Name → ComponentInterface → List ℕ → Symbol → Bool
unfolding is_whitelisted is_discardable has_number contains
may_internalize_global keep i kept g =
    not (is_whitelisted keep g.name)
    && (g.is_defined
        && (not (contains g.name i.references)
            && (is_discardable g.linkage
                && (not (has_number g.address kept) && g.default_visibility))))

-- `setInternalLinkage` where the test passes; whether it did for some symbol, and the symbols.
unfoldable pub internalize : (Symbol → Bool) → List Symbol → Bool × List Symbol
internalize p [] = (false, [])
internalize p (s ∷ ss) =
    let (m, rest) = internalize p ss in
    if p s then (true, record s { linkage = internal } ∷ rest) else (m, s ∷ rest)

-- The module before the clean-up, and whether it was modified.
unfoldable pub internalize_module : List Name → ComponentInterface → Module → Bool × Module
unfolding keep_aliasees used_aliases internalize may_internalize_function may_internalize_global
internalize_module keep i m =
    let kept = keep_aliasees keep i m.aliases in
    let (mf, fs) = internalize (may_internalize_function keep i kept) m.functions in
    let (mg, gs) = internalize (may_internalize_global keep i kept) m.globals in
    (
      mf || mg || has_unused m.aliases,
      record { aliases = used_aliases keep i m.aliases; functions = fs; globals = gs },
    )
  where
    has_unused : List Alias → Bool
    has_unused [] = false
    has_unused (a ∷ as') = is_unused keep i a || has_unused as'

-- Over `GlobalDCE` and `ConstantMerge`: each gives whether it changed the module, and the module.
module _ (dce merge : Module → Bool × Module) where
  -- The loop up to a fixpoint, with what is left of `FixpointTreshold`.
  unfoldable pub clean : ℕ → Module → Module
  clean zero m = m
  clean (suc n) m =
      let (change_dce, m1) = dce m in
      let (change_mc, m2) = merge m1 in
      let rest = clean n m2 in if change_dce || change_mc then rest else m2

  -- `MinimizeComponent`, with the white list and `FixpointTreshold`.
  unfoldable pub minimize_component : List Name → ComponentInterface → ℕ → Module → Bool × Module
  unfolding internalize_module clean
  minimize_component keep i threshold m =
      let (modified, n) = internalize_module keep i m in
      if modified then (true, clean threshold n) else (false, n)
