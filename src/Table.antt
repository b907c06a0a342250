-- ===== src/Table.antt =====
-- The table of specializations of one run, src/SpecializationTable.cpp.
pub mod Refines
pub mod Children
pub mod Principal
pub mod Tests
use mathlib.Core.Option
use occam.Base.{
  ℕ, zero, suc, Bool, true, false, ◌&&◌, ◌||◌, Option, none, some, List, [], ◌∷◌, ◌++◌, ◌==◌,
  if◌then◌else◌,
}
use occam.Value.{Value}
use occam.Ir.{Function}
use occam.Specializer.{Scheme}

-- What is read of a specialization through the `children` of its parent; it does not change.
pub record Child : Type 0 where
  pub handle : Function
  pub args : Scheme

-- `Specialization`; the parent is given by the address of its function.
pub record Specialization : Type 0 where
  pub handle : Function
  pub args : Scheme
  pub parent : Option ℕ
  pub children : List Child

-- `SpecTable`, the newest entry first; its key is the address of `handle`.
abbrev pub SpecTable : Type 0
SpecTable = List Specialization

-- `r[i] == l[i]` on pointers.
abbrev pub same_pointer : Option Value → Option Value → Bool
same_pointer none none = true
same_pointer none (some b) = false
same_pointer (some a) none = false
same_pointer (some a) (some b) = a.address == b.address

abbrev pub is_null : Option Value → Bool
is_null none = true
is_null (some a) = false

-- `Specialization::refines`; `none` is the failed assertion that the lists have one length.
unfoldable pub refines : Scheme → Scheme → Option Bool
refines [] [] = some true
refines [] (b ∷ r) = none
refines (a ∷ l) [] = none
refines (a ∷ l) (b ∷ r) = Option.map (λ x. (is_null b || same_pointer b a) && x) (refines l r)

unfoldable pub find_spec : ℕ → SpecTable → Option Specialization
find_spec a [] = none
find_spec a (e ∷ es) = if e.handle.address == a then some e else find_spec a es

-- A new principal entry.
abbrev pub principal_entry : Function → Specialization
principal_entry f = record { handle = f; args = []; parent = none; children = [] }

-- `getSpecialization`, which adds an entry if there is none.
unfoldable pub get_specialization : Function → SpecTable → Specialization × SpecTable
unfolding find_spec
get_specialization f t = elim (find_spec f.address t) [
  | some e ↦ (e, t)
  | none ↦ (principal_entry f, principal_entry f ∷ t)
]

unfoldable pub filter_children : Scheme → List Child → Option (List Child)
unfolding refines
filter_children s [] = some []
filter_children s (c ∷ cs) = elim (refines c.args s) [
  | none ↦ none
  | some b ↦ Option.map (λ rest. if b then c ∷ rest else rest) (filter_children s cs)
]

-- `getSpecializations`.
unfoldable pub get_specializations : Function → Scheme → SpecTable → Option (List Child × SpecTable)
unfolding get_specialization filter_children
get_specializations f s t =
    let (e, t') = get_specialization f t in
    Option.map (λ cs. (cs, t')) (filter_children s e.children)

-- `parentSpec->children.push_back(spec)`.
unfoldable pub push_child : ℕ → Child → SpecTable → SpecTable
push_child a c [] = []
push_child a c (e ∷ es) =
    if e.handle.address == a
    then record e { children = e.children ++ c ∷ [] } ∷ es
    else e ∷ push_child a c es

-- `addSpecialization`: whether the function was new, and the table.
unfoldable pub add_specialization : Function → Scheme → Function → SpecTable → Bool × SpecTable
unfolding find_spec get_specialization push_child
add_specialization f s g t = elim (find_spec g.address t) [
  | some e ↦ (false, t)
  | none ↦ (
    true,
    record { handle = g; args = s; parent = some f.address; children = [] }
        ∷ push_child f.address (record { handle = g; args = s }) (get_specialization f t).1,
  )
]

-- The loop of `getPrincipalSpecialization` on fuel, from the entry of a function.
unfoldable pub principal : ℕ → ℕ → SpecTable → Option Specialization
principal zero a t = none
principal (suc n) a t = elim (find_spec a t) [
  | none ↦ none
  | some e ↦ elim e.parent [ none ↦ some e | some p ↦ principal n p t ]
]
