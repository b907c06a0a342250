-- ===== src/Previrt/Round.antt =====
-- From an abstract value back to a constant: `concretize` in src/PrevirtTypes.cpp.
use occam.Base.{
  ℕ, ◌≡◌, refl, ap, subst, length, length-append, ◌≢◌, Bool, true, false, some, Name, [], ◌∷◌, ◌++◌,
  name_eq_iff, NulFree, c_str-append, arith, inl, inr, Option-cases, Bool-cases,
}
use occam.Value.{Semantics, FloatConst, Value}
use occam.Previrt.{
  PrevirtType, unknown, int, float, str, null, global, refines, exact_match, Constant, null_value,
  int_value, fp_value, string_pointer, old_variable, old_function, new_function, new_variable,
  Target, concretize, concrete_value, concretize_global,
}

-- The constant is the one that the value is.
abbrev pub Denotes : Constant → Value → Type 0
Denotes null_value v = v.is_null ≡ true
Denotes (int_value b t) v = v.const_int ≡ some (record { bits = b; text = t })
Denotes (fp_value d) v =
    (f : FloatConst) × (s : Semantics) × (v.const_fp ≡ some f) × (f.equals s d ≡ true)
Denotes (string_pointer d) v = v.string_info ≡ some d
Denotes (old_variable n) v = v.stripped ≡ some n
Denotes (old_function n) v = v.stripped ≡ some n
Denotes (new_function n) v = v.stripped ≡ some n
Denotes (new_variable n c) v = v.stripped ≡ some n

-- The bytes of a string end in their only NUL.
abbrev pub IsCString : PrevirtType → Type 0
IsCString (str d c) = (s : Name) × NulFree s × (d ≡ s ++ 0 ∷ [])
IsCString unknown = Unit
IsCString null = Unit
IsCString (int b t) = Unit
IsCString (float s d) = Unit
IsCString (global n c) = Unit

refines-null : (v : Value) → refines null v ≡ exact_match → v.is_null ≡ true
unfolding refines
refines-null v r = ground arith

refines-int :
    (b : ℕ) (t : Name) (v : Value)
    → refines (int b t) v ≡ exact_match
    → v.const_int ≡ some (record { bits = b; text = t })
unfolding refines
refines-int b t v r = elim (Option-cases v.const_int) [
  | inl n ↦ ground arith
  | inr (i, q) ↦ ground (arith, name_eq_iff t i.text)
]

refines-float :
    (s : Semantics) (d : Name) (v : Value)
    → refines (float s d) v ≡ exact_match
    → Denotes (fp_value d) v
unfolding refines
refines-float s d v r = elim (Option-cases v.const_fp) [
  | inl n ↦ absurd (ground arith)
  | inr (f, q) ↦ (f, s, q, ground arith)
]

refines-str :
    (d : Name) (f : Bool) (v : Value) → refines (str d f) v ≡ exact_match → v.string_info ≡ some d
unfolding refines
refines-str d f v r = elim (Option-cases v.string_info) [
  | inl n ↦ ground arith
  | inr (o, q) ↦ ground (arith, name_eq_iff o d)
]

refines-global :
    (n : Name) (f : Bool) (v : Value) → refines (global n f) v ≡ exact_match → v.stripped ≡ some n
unfolding refines
refines-global n f v r = elim (Option-cases v.stripped) [
  | inl e ↦ ground arith
  | inr (o, q) ↦ ground (arith, name_eq_iff o n)
]

Denotes-eq : {c d : Constant} (v : Value) → some c ≡ some d → Denotes c v → Denotes d v
Denotes-eq {c} {d} v e h = subst (λ x. Denotes x v) (same c d e) h
  where
    same : (a b : Constant) → some a ≡ some b → a ≡ b
    same a b q = cc

concretize_global-Denotes :
    (n : Name) (f : Bool) (m : Target) (v : Value) (c : Constant)
    → v.stripped ≡ some n
    → concretize_global m n f ≡ some c
    → Denotes c v
unfolding concretize_global
concretize_global-Denotes n f m v null_value r e = absurd (ground arith)
concretize_global-Denotes n f m v (int_value b t) r e = absurd (ground arith)
concretize_global-Denotes n f m v (fp_value d) r e = absurd (ground arith)
concretize_global-Denotes n f m v (string_pointer d) r e = absurd (ground arith)
concretize_global-Denotes n f m v c r e = ground arith

concrete_value-Denotes :
    (t : PrevirtType) (m : Target) (v : Value) (c : Constant)
    → IsCString t
    → refines t v ≡ exact_match
    → concrete_value t m ≡ some c
    → Denotes c v
unfolding refines concrete_value
concrete_value-Denotes unknown m v c k r e = cc
concrete_value-Denotes null m v c k r e = Denotes-eq v e (refines-null v r)
concrete_value-Denotes (int b t) m v c k r e = Denotes-eq v e (refines-int b t v r)
concrete_value-Denotes (float s d) m v c k r e =
    Denotes-eq {c = fp_value d} v e (refines-float s d v r)
concrete_value-Denotes (str d true) m v c (s, free, k) r e =
    Denotes-eq v e (rw (k, c_str-append s [] free) (rw (← k) (refines-str d true v r)))
concrete_value-Denotes (str d false) m v c k r e = cc
concrete_value-Denotes (global n f) m v c k r e =
    concretize_global-Denotes n f m v c (refines-global n f v r) e

-- If a value matches an abstract value exactly, then the constant that the abstract value is
-- concretized to is the value itself, provided that a string ends in its only NUL.
pub concretize-Denotes :
    (t : PrevirtType) (m : Target) (v : Value) (c : Constant)
    → IsCString t
    → refines t v ≡ exact_match
    → concretize t m ≡ some c
    → Denotes c v
unfolding concretize
concretize-Denotes t m v c k r e = elim (Option-cases (concrete_value t m)) [
  | inl n ↦ absurd (ground arith)
  | inr (d, q) ↦ elim (Bool-cases (m.has_type d)) [
    | inl y ↦ concrete_value-Denotes t m v c k r (ground arith)
    | inr n ↦ absurd (ground arith)
  ]
]

longer : (a b : Name) → b ≢ [] → a ++ 0 ∷ [] ≢ a ++ 0 ∷ b
longer a [] n e = n refl
longer a (x ∷ b) n e =
    omega (arith, ap length e, length-append a (0 ∷ []), length-append a (0 ∷ x ∷ b))

-- A string argument with a NUL before its end is cut there: the constant that the specialized
-- function gets holds the bytes up to that NUL and a terminator, and differs from the argument.
pub concrete_value_cuts :
    (a b : Name) (m : Target)
    → NulFree a
    → b ≢ []
    → (concrete_value (str (a ++ 0 ∷ b) true) m ≡ some (string_pointer (a ++ 0 ∷ [])))
      × (a ++ 0 ∷ [] ≢ a ++ 0 ∷ b)
unfolding concrete_value
concrete_value_cuts a b m h n = (rw (c_str-append a b h), longer a b n)
