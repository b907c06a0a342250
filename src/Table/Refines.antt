-- ===== src/Table/Refines.antt =====
-- Schemes that refine each other, src/SpecializationTable.cpp.
use mathlib.Core.Option
use mathlib.Core.Option.{some-injective}
use occam.Base.{
  ◌≡◌, refl, sym, ap, ◌∙◌, Bool, true, false, Option, none, some, [], ◌∷◌, arith, ◌&&◌, ◌||◌,
  Option-cases, inl, inr,
}
use occam.Specializer.{Scheme}
use occam.Value.{Value}
use occam.Table.{refines, is_null, same_pointer}

-- The schemes hold the same pointers.
pub same_scheme : Scheme → Scheme → Bool
same_scheme [] [] = true
same_scheme [] (b ∷ r) = false
same_scheme (a ∷ l) [] = false
same_scheme (a ∷ l) (b ∷ r) = same_pointer a b && same_scheme l r

refines-parts :
    (x y : Option Value) (a b : Scheme)
    → refines (x ∷ a) (y ∷ b) ≡ some true
    → ((is_null y || same_pointer y x) ≡ true) × (refines a b ≡ some true)
unfolding refines
refines-parts x y a b h = elim (Option-cases (refines a b)) [
  | inl n ↦
      let f : Bool → Bool = λ z. (is_null y || same_pointer y x) && z in
      let failed : Option.map f none ≡ some true = sym (ap (Option.map f) n) ∙ h in
      absurd (ground arith)
  | inr (p, e) ↦
      let f : Bool → Bool = λ z. (is_null y || same_pointer y x) && z in
      let both : (is_null y || same_pointer y x) && p ≡ true =
        some-injective _ _ (sym (ap (Option.map f) e) ∙ h) in
      (ground arith, ground arith)
]

same_pointer-heads :
    (x y : Option Value)
    → (is_null y || same_pointer y x) ≡ true
    → (is_null x || same_pointer x y) ≡ true
    → same_pointer x y ≡ true
same_pointer-heads none none h k = refl
same_pointer-heads none (some b) h k = h
same_pointer-heads (some a) none h k = k
same_pointer-heads (some a) (some b) h k = k

-- Two schemes that refine each other hold the same pointers.
pub refines_antisym :
    (a b : Scheme) → refines a b ≡ some true → refines b a ≡ some true → same_scheme a b ≡ true
unfolding refines same_scheme
refines_antisym [] [] h k = refl
refines_antisym [] (y ∷ b) h k = absurd (ground arith)
refines_antisym (x ∷ a) [] h k = absurd (ground arith)
refines_antisym (x ∷ a) (y ∷ b) h k =
    let (head, tail) = refines-parts x y a b h in
    let (head', tail') = refines-parts y x b a k in
    ground (arith, same_pointer-heads x y head head', refines_antisym a b tail tail')

pub same_scheme_refl : (s : Scheme) → same_scheme s s ≡ true
unfolding same_scheme
same_scheme_refl [] = refl
same_scheme_refl (none ∷ s) = same_scheme_refl s
same_scheme_refl (some v ∷ s) = ground (arith, same_scheme_refl s)
