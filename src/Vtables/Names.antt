-- ===== src/Vtables/Names.antt =====
-- Which class the name of a typeinfo gives.
use occam.Base.{
  if◌then◌else◌, ◌≡◌, refl, Bool, true, false, none, some, [], ◌∷◌, ◌++◌, Name, codes, arith, ◌↔◌,
  Option-cases,
}
use occam.Vtables.{has_char, behind_last_of, typeinfo_for_str}

-- None of the characters is in the text.
unfoldable pub has_none_of : Name → Name → Bool
has_none_of chars [] = true
has_none_of chars (c ∷ cs) = if has_char c chars then false else has_none_of chars cs

-- `find_last_of` finds nothing exactly in a text with none of the characters.
pub behind_last_of-none :
    (chars text : Name) → (behind_last_of chars text ≡ none) ↔ (has_none_of chars text ≡ true)
unfolding behind_last_of has_none_of
behind_last_of-none chars [] = (λ h. refl, λ h. refl)
behind_last_of-none chars (c ∷ cs) =
    ground (arith, behind_last_of-none chars cs, Option-cases (behind_last_of chars cs))

-- What is behind the last one has none of them.
pub behind_last_of-has_none_of :
    (chars text rest : Name) → behind_last_of chars text ≡ some rest → has_none_of chars rest ≡ true
unfolding behind_last_of
behind_last_of-has_none_of chars [] rest h = absurd (ground arith)
behind_last_of-has_none_of chars (c ∷ cs) rest h = ground (
  arith,
  behind_last_of-has_none_of chars cs rest,
  behind_last_of-none chars cs,
  Option-cases (behind_last_of chars cs),
)

behind_last_of-append :
    (chars a b : Name)
    → behind_last_of chars b ≡ none
    → behind_last_of chars (a ++ b)
      ≡ (elim (behind_last_of chars a) [ some r ↦ some (r ++ b) | none ↦ none ])
unfolding behind_last_of
behind_last_of-append chars [] b h = h
behind_last_of-append chars (c ∷ a) b h =
    ground (arith, behind_last_of-append chars a b h, Option-cases (behind_last_of chars a))

-- The class name of a demangled "typeinfo for", a blank and the name of a class is read back exactly if
-- this name has no blank and none of the letters of "typeinfo for".
pub behind_last_of-class :
    (name : Name)
    → (behind_last_of typeinfo_for_str (codes "typeinfo for " ++ name) ≡ some name)
      ↔ (has_none_of typeinfo_for_str name ≡ true)
unfolding behind_last_of has_char
behind_last_of-class name = (
  behind_last_of-has_none_of typeinfo_for_str (codes "typeinfo for " ++ name) name,
  λ h.
      behind_last_of-append typeinfo_for_str (codes "typeinfo for ") name
        ((behind_last_of-none typeinfo_for_str name).1 h),
)
