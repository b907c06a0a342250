-- ===== src/Base/Names.antt =====
-- Names and texts as lists of bytes, as the code reads them.
use Prim.Native.Nat.{ℕ}
use Prim.Native.Char.{code}
use Prim.Native.String.{String}
use mathlib.Core.Path.{◌≡◌, refl}
use mathlib.Core.Logic.{◌↔◌, ◌≢◌}
use mathlib.Core.Bool.{Bool, true, false, ◌&&◌}
use mathlib.Core.List.{List, [], ◌∷◌, ◌++◌}
use native.Mathlib.Omega.{arith}
use occam.Base.Tests.{◌==◌, if◌then◌else◌}

abbrev pub Name : Type 0
Name = List ℕ

-- The bytes of an ASCII literal.
abbrev pub codes : String → Name
codes String.[] = []
codes (String.◌∷◌ c s) = code c ∷ codes s

-- `std::string` and `StringRef` comparison.
unfoldable pub name_eq : Name → Name → Bool
name_eq [] [] = true
name_eq [] (y ∷ ys) = false
name_eq (x ∷ xs) [] = false
name_eq (x ∷ xs) (y ∷ ys) = x == y && name_eq xs ys

pub name_eq_iff : (a b : Name) → (name_eq a b ≡ true) ↔ (a ≡ b)
unfolding name_eq
name_eq_iff [] [] = (λ _. refl, λ _. refl)
name_eq_iff [] (y ∷ ys) = (λ e. cc, λ e. cc)
name_eq_iff (x ∷ xs) [] = (λ e. cc, λ e. cc)
name_eq_iff (x ∷ xs) (y ∷ ys) = ground (arith, name_eq_iff xs ys)

pub name_eq_refl : (a : Name) → name_eq a a ≡ true
name_eq_refl a = (name_eq_iff a a).1 refl

abbrev pub is_empty : Name → Bool
is_empty [] = true
is_empty (x ∷ xs) = false

-- A `std::string` made from a `const char*` ends before the first NUL.
unfoldable pub c_str : Name → Name
c_str [] = []
c_str (x ∷ xs) = if x == 0 then [] else x ∷ c_str xs

abbrev pub NulFree : Name → Type 0
NulFree [] = Unit {0}
NulFree (x ∷ xs) = (x ≢ 0) × NulFree xs

-- A text with no NUL is read whole, whatever stands behind its terminator.
pub c_str-append : (a b : Name) → NulFree a → c_str (a ++ 0 ∷ b) ≡ a
unfolding c_str
c_str-append [] b h = refl
c_str-append (x ∷ xs) b h = ground (arith, c_str-append xs b h.1)

pub c_str_self : (a : Name) → NulFree a → c_str a ≡ a
unfolding c_str
c_str_self [] h = refl
c_str_self (x ∷ xs) h = ground (arith, c_str_self xs h.1)

pub c_str-NulFree : (a : Name) → NulFree (c_str a)
unfolding c_str
c_str-NulFree [] = tt
c_str-NulFree (x ∷ xs) = ground (arith, c_str-NulFree xs)

-- `StringRef::startswith`.
unfoldable pub starts_with : Name → Name → Bool
starts_with s [] = true
starts_with [] (p ∷ ps) = false
starts_with (x ∷ xs) (p ∷ ps) = x == p && starts_with xs ps
