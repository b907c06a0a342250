-- ===== src/Previrt/Match.antt =====
-- Matching of abstract values against values, src/PrevirtTypes.cpp.
use occam.Base.{
  ◌≡◌, ◌≢◌, none, refl, true, some, Name, name_eq_iff, name_eq_refl, c_str, NulFree, c_str_self,
  arith, if◌then◌else◌, inl, inr, Option-cases, Bool-cases,
}
use occam.Value.{Semantics, FloatConst, Global, Value}
use occam.Previrt.{
  PrevirtType, unknown, int, float, str, null, global, eq, abstract, abstract_fp, abstract_global,
  abstract_expr, abstract_other, abstract_const, refines, refines_const, has_semantics, is_concrete,
  same_semantics, exact_match, loose_match, is_unknown,
}

abbrev pub IsFloat : PrevirtType → Type 0
IsFloat (float s d) = Unit {0}
IsFloat unknown = ⊥
IsFloat null = ⊥
IsFloat (int b t) = ⊥
IsFloat (str d c) = ⊥
IsFloat (global n c) = ⊥

same_semantics_refl : (s : Semantics) → same_semantics s s ≡ true
same_semantics_refl Semantics.half = refl
same_semantics_refl Semantics.single = refl
same_semantics_refl Semantics.double = refl
same_semantics_refl Semantics.quad = refl
same_semantics_refl Semantics.x87_extended = refl
same_semantics_refl Semantics.bogus = refl
same_semantics_refl Semantics.ppc_double = refl

-- What a pass relies on in the values that LLVM shows it: a float constant is equal to the number
-- read back from its own text (so it is no NaN with a payload), and a global is its own
-- `stripPointerCasts` under a name with no NUL (so it is no alias).
pub record IsFaithful (v : Value) : Type 0 where
  pub reads_back :
      (f : FloatConst) (s : Semantics)
      → v.const_fp ≡ some f
      → f.semantics ≡ some s
      → f.equals s f.hex ≡ true
  pub unaliased : (g : Global) → v.global ≡ some g → (v.stripped ≡ some g.name) × NulFree g.name

abbrev Scored : Value → PrevirtType → Type 0
Scored v t = refines_const t v ≡ (if is_concrete t then exact_match else loose_match)

abstract_fp-Scored :
    (v : Value) (f : FloatConst)
    → v.const_fp ≡ some f
    → ((s : Semantics) → f.semantics ≡ some s → f.equals s f.hex ≡ true)
    → Scored v (abstract_fp f)
unfolding abstract_fp is_concrete refines_const
abstract_fp-Scored v f e h = elim (Option-cases f.semantics) [
  | inl n ↦ rw (n, abstract_fp)
  | inr (s, q) ↦
      rw (q, abstract_fp)
        (rw (e, refines_const) (rw (q, has_semantics) (rw (same_semantics_refl s, h s q) refl)))
]

abstract_global-Scored :
    (v : Value) (g : Global)
    → v.stripped ≡ some g.name
    → c_str g.name ≡ g.name
    → Scored v (abstract_global g)
unfolding abstract_global is_concrete refines_const
abstract_global-Scored v g e n = ground (arith, name_eq_refl g.name)

abstract_expr-Scored : (v : Value) → Scored v (abstract_expr v)
unfolding abstract_expr is_concrete refines_const
abstract_expr-Scored v = elim (Option-cases v.string_info) [
  | inl n ↦ rw (n, abstract_expr) (ground arith)
  | inr (s, q) ↦ ground (arith, name_eq_refl s)
]

abstract_other-Scored : (v : Value) → IsFaithful v → Scored v (abstract_other v)
unfolding abstract_other
abstract_other-Scored v h = elim (Option-cases v.const_fp) [
  | inl n ↦ elim (Option-cases v.global) [
    | inl m ↦ ground (arith, abstract_expr-Scored v)
    | inr (g, q) ↦
        ground
          (arith, abstract_global-Scored v g (h.unaliased g q).0 (c_str_self _ (h.unaliased g q).1))
  ]
  | inr (f, q) ↦ ground (arith, abstract_fp-Scored v f q (λ s. h.reads_back f s q))
]

abstract_const-Scored : (v : Value) → IsFaithful v → Scored v (abstract_const v)
unfolding abstract_const is_concrete refines_const
abstract_const-Scored v h = elim (Option-cases v.const_int) [
  | inl n ↦ elim (Bool-cases v.is_null) [
    | inl z ↦ ground arith
    | inr z ↦ ground (arith, abstract_other-Scored v h)
  ]
  | inr (i, q) ↦ ground (arith, name_eq_refl i.text)
]

-- The abstraction of a value matches the value: exactly if it is concrete, and loosely otherwise. The
-- value is faithful: a float constant equals the number read back from its own text (so it is no NaN
-- with a payload), and a global is no alias and has no NUL in its name.
pub refines-abstract :
    (v : Value)
    → IsFaithful v
    → refines (abstract v) v ≡ (if is_concrete (abstract v) then exact_match else loose_match)
unfolding refines abstract is_concrete
refines-abstract v h = elim (Bool-cases v.is_constant) [
  | inl k ↦ ground (arith, abstract_const-Scored v h)
  | inr k ↦ ground arith
]

-- Equal abstract values, neither of them a float, match the same values equally well.
pub eq-refines :
    (a b : PrevirtType) (v : Value) → eq a b ≡ true → ¬ IsFloat a → refines a v ≡ refines b v
unfolding eq refines
eq-refines unknown unknown v e n = refl
eq-refines null null v e n = refl
eq-refines (int b t) (int b' t') v e n = ground (arith, name_eq_iff t t')
eq-refines (float s d) b v e n = absurd (n tt)
eq-refines (str d c) (str d' c') v e n = ground (arith, name_eq_iff d d')
eq-refines (global m c) (global m' c') v e n = ground (arith, name_eq_iff m m')
eq-refines a b v e n = cc

-- Two abstract floats are equal whatever their numbers are.
pub eq_float : (s s' : Semantics) (d d' : Name) → eq (float s d) (float s' d') ≡ true
unfolding eq
eq_float s s' d d' = refl

refines_const-exact :
    (t : PrevirtType) (v : Value)
    → is_concrete t ≡ true
    → refines_const t v ≢ none
    → refines_const t v ≡ exact_match
unfolding refines_const is_concrete
refines_const-exact unknown v c n = cc
refines_const-exact null v c n = ground arith
refines_const-exact (int b t) v c n = ground arith
refines_const-exact (float s d) v c n = ground arith
refines_const-exact (str d e) v c n = ground arith
refines_const-exact (global m e) v c n = ground arith

-- A concrete value matches exactly or not at all.
pub refines-exact :
    (t : PrevirtType) (v : Value)
    → is_concrete t ≡ true
    → refines t v ≢ none
    → refines t v ≡ exact_match
unfolding refines is_concrete is_unknown
refines-exact t v c n = elim (Bool-cases v.is_constant) [
  | inl k ↦ ground (arith, refines_const-exact t v c)
  | inr k ↦ ground arith
]
