-- ===== src/Table/Principal.antt =====
-- The loop of `getPrincipalSpecialization` ends, src/SpecializationTable.cpp.
use occam.Base.{
  ℕ, zero, suc, ◌≡◌, refl, ◌≢◌, ◌∙◌, true, Option, none, some, [], ◌∷◌, ◌==◌, arith, Option-cases,
  Bool-cases, inl, inr, is_some, length,
}
use occam.Ir.{Function}
use occam.Specializer.{Scheme}
use occam.Table.Children.{find_spec-get_specialization}
use occam.Table.{
  Child, Specialization, SpecTable, find_spec, get_specialization, push_child, add_specialization,
  principal,
}

-- A parent is an older entry.
abbrev pub HasParent : Option ℕ → SpecTable → Type 0
HasParent none t = Unit {0}
HasParent (some p) t = is_some (find_spec p t) ≡ true

-- Every function has one entry, and its parent is older.
abbrev pub IsRanked : SpecTable → Type 0
IsRanked [] = Unit {0}
IsRanked (e ∷ t) = (find_spec e.handle.address t ≡ none) × HasParent e.parent t × IsRanked t

is_some-push_child :
    (a b : ℕ) (c : Child) (t : SpecTable)
    → is_some (find_spec a (push_child b c t)) ≡ is_some (find_spec a t)
unfolding find_spec push_child
is_some-push_child a b c [] = refl
is_some-push_child a b c (e ∷ t) = ground (arith, is_some-push_child a b c t)

HasParent-push_child :
    (p : Option ℕ) (b : ℕ) (c : Child) (t : SpecTable)
    → HasParent p t
    → HasParent p (push_child b c t)
HasParent-push_child none b c t h = tt
HasParent-push_child (some p) b c t h = is_some-push_child p b c t ∙ h

none-push_child :
    (a b : ℕ) (c : Child) (t : SpecTable)
    → find_spec a t ≡ none
    → find_spec a (push_child b c t) ≡ none
unfolding find_spec push_child
none-push_child a b c [] h = refl
none-push_child a b c (e ∷ t) h = ground (arith, none-push_child a b c t)

push_child-IsRanked : (b : ℕ) (c : Child) (t : SpecTable) → IsRanked t → IsRanked (push_child b c t)
unfolding push_child
push_child-IsRanked b c [] h = tt
push_child-IsRanked b c (e ∷ t) h = elim (Bool-cases (e.handle.address == b)) [
  | inl k ↦ rw k h
  | inr k ↦ rw k (
    none-push_child e.handle.address b c t h.0,
    HasParent-push_child e.parent b c t h.1,
    push_child-IsRanked b c t h.2,
  )
]

get_specialization-IsRanked :
    (f : Function) (t : SpecTable) → IsRanked t → IsRanked (get_specialization f t).1
unfolding get_specialization
get_specialization-IsRanked f t h = elim (Option-cases (find_spec f.address t)) [
  | inl n ↦ rw (n, get_specialization) (n, tt, h)
  | inr (e, q) ↦ rw (q, get_specialization) h
]

none-get_specialization :
    (f g : Function) (t : SpecTable)
    → f.address ≢ g.address
    → find_spec g.address t ≡ none
    → find_spec g.address (get_specialization f t).1 ≡ none
unfolding get_specialization find_spec
none-get_specialization f g t d n = ground arith

-- Where every function has one entry and each parent is an older entry, this is still so after a
-- function is added as the specialization of another one.
pub add_specialization-IsRanked :
    (f g : Function) (s : Scheme) (t : SpecTable)
    → f.address ≢ g.address
    → IsRanked t
    → IsRanked (add_specialization f s g t).1
unfolding add_specialization
add_specialization-IsRanked f g s t d h = elim (Option-cases (find_spec g.address t)) [
  | inl n ↦
      let c : Child = record { handle = g; args = s } in
      let t' = (get_specialization f t).1 in
      rw (n, add_specialization)
        (
          none-push_child g.address f.address c t' (none-get_specialization f g t d n),
          is_some-push_child f.address f.address c t' ∙ find_spec-get_specialization f t,
          push_child-IsRanked f.address c t' (get_specialization-IsRanked f t h),
        )
  | inr (e, q) ↦ rw (q, add_specialization) h
]

principal-older :
    (k a : ℕ) (e x : Specialization) (t : SpecTable)
    → find_spec e.handle.address t ≡ none
    → principal k a t ≡ some x
    → principal k a (e ∷ t) ≡ some x
unfolding principal find_spec
principal-older zero a e x t n h = h
principal-older (suc k) a e x t n h = elim (Option-cases (find_spec a t)) [
  | inl m ↦ absurd (ground arith)
  | inr (y, q) ↦ elim (Option-cases y.parent) [
    | inl z ↦ ground arith
    | inr (p, z) ↦ ground (arith, principal-older k p e x t n)
  ]
]

principal-suc :
    (k a : ℕ) (x : Specialization) (t : SpecTable)
    → principal k a t ≡ some x
    → principal (suc k) a t ≡ some x
unfolding principal
principal-suc zero a x t h = absurd (ground arith)
principal-suc (suc k) a x t h = elim (Option-cases (find_spec a t)) [
  | inl m ↦ absurd (ground arith)
  | inr (y, q) ↦ elim (Option-cases y.parent) [
    | inl z ↦ ground arith
    | inr (p, z) ↦ ground (arith, principal-suc k p x t)
  ]
]

-- In a table in which every function has one entry and the parent of an entry is an older entry, the
-- loop of `getPrincipalSpecialization` from an entry ends within as many rounds as the table has
-- entries, at an entry with no parent.
pub principal_ends :
    (a : ℕ) (t : SpecTable)
    → IsRanked t
    → is_some (find_spec a t) ≡ true
    → (e : Specialization) × (principal (length t) a t ≡ some e) × (e.parent ≡ none)
unfolding principal find_spec
principal_ends a [] r h = absurd (ground arith)
principal_ends a (e ∷ t) r h = elim (Bool-cases (e.handle.address == a)) [
  | inl b ↦ elim (Option-cases e.parent) [
    | inl z ↦ (e, ground arith, z)
    | inr (p, z) ↦
        let (x, q, top) = principal_ends p t r.2 (rw z at r.1) in
        (x, ground (arith, principal-older (length t) p e x t r.0 q), top)
  ]
  | inr b ↦
      let (x, q, top) = principal_ends a t r.2 (rw b at h) in
      (x, principal-suc (length t) a x (e ∷ t) (principal-older (length t) a e x t r.0 q), top)
]
