-- ===== src/Value.antt =====
-- What the passes read of an LLVM value. A `Value` is the record of the answers that LLVM gives to
-- the casts and queries of src/PrevirtTypes.cpp; nothing is assumed of how LLVM finds them.
use occam.Base.{ℕ, Name, Bool, Option}

-- `APFloat::getSemantics`, one of those that the file format names.
pub data Semantics : Type 0 where
  half single double quad x87_extended bogus ppc_double : Semantics

-- `dyn_cast<ConstantFP>`: the semantics (`none`: none of the seven), the text that
-- `convertToHexString` writes, and `bitwiseIsEqual` against the number read from a text.
pub record FloatConst : Type 0 where
  pub semantics : Option Semantics
  pub hex : Name
  pub equals : Semantics → Name → Bool

-- `dyn_cast<GlobalValue>`.
pub record Global : Type 0 where
  pub name : Name
  pub is_function : Bool
  pub is_external : Bool
  pub is_variable : Bool
  pub is_const : Bool

-- `dyn_cast<ConstantInt>`: the width and `toString(16, true)`.
pub record IntConst : Type 0 where
  pub bits : ℕ
  pub text : Name

pub record Value : Type 0 where
  -- the pointer, by which passes compare values
  pub address : ℕ
  pub is_constant : Bool
  pub const_int : Option IntConst
  pub is_null : Bool
  pub const_fp : Option FloatConst
  pub global : Option Global
  -- the name of the `GlobalValue` behind `stripPointerCasts`
  pub stripped : Option Name
  pub is_const_expr : Bool
  -- `getConstantStringInfo(val, out, 0, false)`
  pub string_info : Option Name
