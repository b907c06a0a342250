-- ===== src/Previrt.antt =====
-- Abstract values, src/PrevirtTypes.cpp and include/PrevirtTypes.h.
-- Type V of the file format has no case here: `abstract` never makes it, and `==` and `refines`
-- assert that it does not occur.
use occam.Base.{
  ℕ, ◌+◌, ◌≡◌, Bool, true, false, ◌&&◌, ◌||◌, not, Option, none, some, List, [], ◌∷◌, ◌++◌, Name,
  codes, name_eq, c_str, is_empty, ◌==◌, if◌then◌else◌,
}
pub mod Match
pub mod Round
pub mod Tests
use occam.Value.{
  Semantics, half, single, double, quad, x87_extended, bogus, ppc_double, FloatConst, Global,
  IntConst, Value,
}

pub data PrevirtType : Type 0 where
  unknown : PrevirtType
  int : ℕ → Name → PrevirtType
  float : Semantics → Name → PrevirtType
  -- the bytes, and the flag `cstr`
  str : Name → Bool → PrevirtType
  null : PrevirtType
  -- the name, and the flag `is_const`
  global : Name → Bool → PrevirtType

-- `PrevirtType::operator==`. For F it compares the group `int`, which is unset on both sides.
unfoldable pub eq : PrevirtType → PrevirtType → Bool
eq unknown unknown = true
eq null null = true
eq (str d c) (str d' c') = name_eq d d'
eq (int b t) (int b' t') = b == b' && name_eq t t'
eq (float s d) (float s' d') = true
eq (global n c) (global n' c') = name_eq n n'
eq _ _ = false

-- `PrevirtType::operator!=`.
abbrev pub ne : PrevirtType → PrevirtType → Bool
ne a b = not (eq a b)

abstract_fp : FloatConst → PrevirtType
abstract_fp f = elim f.semantics [ some s ↦ float s f.hex | none ↦ unknown ]

abstract_global : Global → PrevirtType
abstract_global g =
    if g.is_function && not (is_empty g.name)
    then global (c_str g.name) false
    else if not (is_empty g.name) && g.is_external
    then global (c_str g.name) (g.is_variable && g.is_const)
    else unknown

abstract_expr : Value → PrevirtType
abstract_expr v =
    if v.is_const_expr then elim v.string_info [ some d ↦ str d true | none ↦ unknown ] else unknown

abstract_other : Value → PrevirtType
unfolding abstract_fp abstract_global abstract_expr
abstract_other v = elim v.const_fp [
  | some f ↦ abstract_fp f
  | none ↦ elim v.global [ some g ↦ abstract_global g | none ↦ abstract_expr v ]
]

abstract_const : Value → PrevirtType
unfolding abstract_other
abstract_const v = elim v.const_int [
  | some i ↦ int i.bits i.text
  | none ↦ if v.is_null then null else abstract_other v
]

-- `PrevirtType::abstract`.
unfoldable pub abstract : Value → PrevirtType
unfolding abstract_const
abstract v = if v.is_constant then abstract_const v else unknown

abbrev pub same_semantics : Semantics → Semantics → Bool
same_semantics half half = true
same_semantics single single = true
same_semantics double double = true
same_semantics quad quad = true
same_semantics x87_extended x87_extended = true
same_semantics bogus bogus = true
same_semantics ppc_double ppc_double = true
same_semantics _ _ = false

-- `EXACT_MATCH` and `LOOSE_MATCH`; `none` stands for `NO_MATCH`, which is -1.
abbrev pub exact_match : Option ℕ
exact_match = some 0

abbrev pub loose_match : Option ℕ
loose_match = some 1

abbrev exact_if : Bool → Option ℕ
exact_if b = if b then exact_match else none

has_semantics : Option Semantics → Semantics → Bool
has_semantics (some t) s = same_semantics t s
has_semantics none s = false

refines_const : PrevirtType → Value → Option ℕ
unfolding has_semantics
refines_const unknown v = loose_match
refines_const null v = exact_if v.is_null
refines_const (str d c) v = elim v.string_info [ some out ↦ exact_if (name_eq out d) | none ↦ none ]
refines_const (int b t) v = elim v.const_int [
  | some i ↦ exact_if (b == i.bits && name_eq t i.text)
  | none ↦ none
]
refines_const (float s d) v = elim v.const_fp [
  | some f ↦ exact_if (has_semantics f.semantics s && f.equals s d)
  | none ↦ none
]
refines_const (global n c) v = elim v.stripped [ some m ↦ exact_if (name_eq m n) | none ↦ none ]

-- `PrevirtType::isConcrete`.
unfoldable pub is_concrete : PrevirtType → Bool
is_concrete (int b t) = true
is_concrete (global n c) = true
is_concrete null = true
is_concrete (str d c) = true
is_concrete (float s d) = true
is_concrete unknown = false

-- `PrevirtType::isUnknown`.
unfoldable pub is_unknown : PrevirtType → Bool
is_unknown unknown = true
is_unknown _ = false

-- `PrevirtType::refines`: how well a value of a call fits the abstract value.
unfoldable pub refines : PrevirtType → Value → Option ℕ
unfolding refines_const is_unknown
refines t v =
    if v.is_constant then refines_const t v else if is_unknown t then loose_match else none

-- A constant that `concretize` makes or finds.
pub data Constant : Type 0 where
  null_value : Constant
  int_value : ℕ → Name → Constant
  fp_value : Name → Constant
  -- a pointer to a new private constant that holds these bytes
  string_pointer : Name → Constant
  old_variable old_function new_function : Name → Constant
  new_variable : Name → Bool → Constant

-- The module's symbols (`getGlobalVariable(name, false)` and `getFunction`), and the queries on the
-- type that is wanted; `has_type` says whether it is the type of a constant.
pub record Target : Type 0 where
  pub has_variable : Name → Bool
  pub has_function : Name → Bool
  pub is_pointer : Bool
  pub is_function_pointer : Bool
  pub has_type : Constant → Bool

-- The bytes of the array that `materializeStringLiteral` makes (src/Specializer.cpp).
unfoldable pub materialize_string : Name → Name
materialize_string s = s ++ 0 ∷ []

concretize_global : Target → Name → Bool → Option Constant
concretize_global m n c =
    if m.has_variable n
    then some (old_variable n)
    else if not m.is_pointer
    then none
    else if m.is_function_pointer
    then if m.has_function n then some (old_function n) else some (new_function n)
    else some (new_variable n c)

-- The `concreteValue` of `PrevirtType::concretize`; `none` is NULL or a failed assertion.
unfoldable pub concrete_value : PrevirtType → Target → Option Constant
unfolding concretize_global materialize_string
concrete_value unknown m = none
concrete_value null m = some null_value
concrete_value (int b t) m = some (int_value b t)
concrete_value (float s d) m = some (fp_value d)
concrete_value (str d c) m =
    if c then some (string_pointer (materialize_string (c_str d))) else none
concrete_value (global n c) m = concretize_global m n c

-- `PrevirtType::concretize`: the value has the wanted type; `none` is a failed assertion.
unfoldable pub concretize : PrevirtType → Target → Option Constant
unfolding concrete_value
concretize t m = elim (concrete_value t m) [
  | none ↦ none
  | some c ↦ if m.has_type c then some c else none
]

-- `PrevirtType::to_string`, over the text of `HashString`; `none` is `std::string(NULL)`.
module _ (hash : Name → Name) where
  unfoldable pub to_string : PrevirtType → Option Name
  to_string unknown = some (codes "?")
  to_string null = some (codes "null")
  to_string (int b t) = some (codes "0x" ++ t)
  to_string (float s d) = some d
  to_string (str d c) = if c then some (codes "S:" ++ hash d) else none
  to_string (global n c) = some n
