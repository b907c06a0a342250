-- ===== src/Previrt/Tests.antt =====
-- Runs of src/PrevirtTypes.cpp on small values, and the theorems at them.
use occam.Base.{
  name_eq, c_str, ℕ, ◌≡◌, refl, subst, NulFree, true, false, none, some, Name, codes, [], ◌∷◌, ◌++◌,
  arith,
}
use mathlib.Core.Option.{some-injective}
use occam.Value.{Value, Global}
use occam.Previrt.{
  str, abstract, refines, is_concrete, exact_match, Target, concretize, string_pointer,
}
use occam.Previrt.Match.{IsFaithful, refines-abstract}
use occam.Previrt.Round.{Denotes, concretize-Denotes}

-- A value that is no constant.
abbrev pub opaque_value : ℕ → Value
opaque_value a = record {
  address = a;
  is_constant = false;
  const_int = none;
  is_null = false;
  const_fp = none;
  global = none;
  stripped = none;
  is_const_expr = false;
  string_info = none;
}

-- The 32-bit integer with this text.
abbrev pub int_of : ℕ → Name → Value
int_of a t = record (opaque_value a) {
  is_constant = true;
  const_int = some (record { bits = 32; text = t });
}

abbrev one : Value
one = int_of 1 (codes "1")

abbrev word : Value
word = record (opaque_value 2) {
  is_constant = true;
  is_const_expr = true;
  string_info = some (codes "ab" ++ 0 ∷ []);
}

abbrev target : Target
target = record {
  has_variable = λ n. false;
  has_function = λ n. false;
  is_pointer = true;
  is_function_pointer = false;
  has_type = λ c. true;
}

abstract-word : abstract word ≡ str (codes "ab" ++ 0 ∷ []) true
unfolding abstract
abstract-word = refl

pub int_of-IsFaithful : (a : ℕ) (t : Name) → IsFaithful (int_of a t)
int_of-IsFaithful a t = record { reads_back = λ f s e q. cc; unaliased = λ g e. absurd (cc) }

-- The address of a function that is defined in another module.
abbrev puts : Value
puts = record (opaque_value 3) {
  is_constant = true;
  global = some (record {
    name = codes "puts";
    is_function = true;
    is_external = true;
    is_variable = false;
    is_const = false;
  });
  stripped = some (codes "puts");
}

puts-IsFaithful : IsFaithful puts
puts-IsFaithful = record {
  reads_back = λ f s e q. absurd (ground arith);
  unaliased = λ g e.
      let same = some-injective _ _ e in
      subst (λ (x : Global). (some (codes "puts") ≡ some x.name) × NulFree x.name) same
        (refl, (omega arith, (omega arith, (omega arith, (omega arith, tt)))));
}

refines-abstract_example : refines (abstract puts) puts ≡ exact_match
unfolding abstract is_concrete
refines-abstract_example = refines-abstract puts puts-IsFaithful

concretize-Denotes_example : Denotes (string_pointer (codes "ab" ++ 0 ∷ [])) word
unfolding abstract refines concretize name_eq c_str
concretize-Denotes_example =
    concretize-Denotes (str (codes "ab" ++ 0 ∷ []) true) target word _
      (codes "ab", omega arith, refl) refl refl
