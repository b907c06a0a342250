-- ===== src/Ir.antt =====
-- What the passes read of LLVM functions and call sites: the answers to the queries that the code
-- makes. A body is the list of its call sites, and stands outside the record of its function.
use occam.Base.{ℕ, Bool, Option, List, Name}
use occam.Value.{Value}

-- An LLVM function; two functions are one if their addresses are equal.
pub record Function : Type 0 where
  pub address : ℕ
  pub name : Name
  pub arg_size : ℕ
  pub is_declaration : Bool
  pub is_var_arg : Bool
  -- internal or private linkage
  pub is_local : Bool
  pub optimize_none : Bool
  pub calling_conv : ℕ

pub data Kind : Type 0 where
  -- with the tail call kind
  call : ℕ → Kind
  -- with the normal and the unwind destination
  invoke : ℕ → ℕ → Kind

-- A call or invoke instruction; `callee` is `getCalledFunction`, `none` for an indirect call.
pub record CallSite : Type 0 where
  pub kind : Kind
  pub name : Name
  pub callee : Option Function
  pub args : List Value
  pub calling_conv : ℕ
