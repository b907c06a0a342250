-- ===== src/MemorySsa.antt =====
-- The calls of shadow functions that carry the memory SSA form, include/analysis/MemorySSA.h and
-- src/analysis/MemorySSA.cpp.
pub mod Params
pub mod Tests
use occam.Base.{
  ℕ, zero, suc, ◌+◌, Bool, true, false, not, ◌&&◌, ◌||◌, ◌==◌, Option, none, some, List, [], ◌∷◌,
  ◌++◌, Name, codes, name_eq, starts_with, if◌then◌else◌, length, get_elem?, replicate, is_some,
}

pub data MemSsaOp : Type 0 where
  load store arg_init arg_ref arg_mod arg_ref_mod arg_new fun_in fun_out no_op : MemSsaOp

unfoldable pub mem_ssa_str_to_op : Name → MemSsaOp
unfolding name_eq
mem_ssa_str_to_op name =
    if name_eq name (codes "shadow.mem.load")
    then load
    else if name_eq name (codes "shadow.mem.store")
    then store
    else if name_eq name (codes "shadow.mem.arg.init")
    then arg_init
    else if name_eq name (codes "shadow.mem.arg.ref")
    then arg_ref
    else if name_eq name (codes "shadow.mem.arg.mod")
    then arg_mod
    else if name_eq name (codes "shadow.mem.arg.ref_mod")
    then arg_ref_mod
    else if name_eq name (codes "shadow.mem.arg.new")
    then arg_new
    else if name_eq name (codes "shadow.mem.in")
    then fun_in
    else if name_eq name (codes "shadow.mem.out")
    then fun_out
    else no_op

-- `==` on the operations.
unfoldable pub op_code : MemSsaOp → ℕ
op_code load = 0
op_code store = 1
op_code arg_init = 2
op_code arg_ref = 3
op_code arg_mod = 4
op_code arg_ref_mod = 5
op_code arg_new = 6
op_code fun_in = 7
op_code fun_out = 8
op_code no_op = 9

-- A value: an instruction by its address, or something else.
pub data Operand : Type 0 where
  instruction : ℕ → Operand
  other_value : Operand

-- A call: its address, the name of `getCalledFunction`, whether the singleton operand is a null pointer
-- behind its casts, argument 1, and argument 2 if it is a constant that is not negative.
pub record MemCall : Type 0 where
  pub address : ℕ
  pub callee : Option Name
  pub is_null_singleton : Bool
  pub variable : Operand
  pub index : Option ℕ

-- `isMemSSALoad` and the others, on a call with a known callee; false on one without.
unfoldable pub is_mem_ssa : MemSsaOp → MemCall → Bool → Bool
unfolding mem_ssa_str_to_op op_code
is_mem_ssa op c only_singleton = elim c.callee [
  | none ↦ false
  | some n ↦
      op_code (mem_ssa_str_to_op n) == op_code op && (not only_singleton || not c.is_null_singleton)
]

unfoldable pub is_actual : MemCall → Bool
unfolding is_mem_ssa
is_actual c =
    is_mem_ssa arg_ref c false
    || is_mem_ssa arg_mod c false
    || is_mem_ssa arg_ref_mod c false
    || is_mem_ssa arg_new c false

-- `getMemSSAParamIdx`; `none` is a negative answer.
unfoldable pub get_mem_ssa_param_idx : MemCall → Option ℕ
unfolding is_actual is_mem_ssa
get_mem_ssa_param_idx c =
    if is_actual c || is_mem_ssa fun_in c false || is_mem_ssa fun_out c false then c.index else none

-- `m_actual_params`, where `none` is an empty call site.
abbrev pub Params : Type 0
Params = List (Option MemCall)

-- A store into the vector; `none` is out of range.
unfoldable pub set_param : Params → ℕ → MemCall → Option Params
set_param [] i c = none
set_param (p ∷ ps) zero c = some (some c ∷ ps)
set_param (p ∷ ps) (suc i) c = elim (set_param ps i c) [ none ↦ none | some qs ↦ some (p ∷ qs) ]

-- The vector is sized by the first index that is met.
unfoldable pub add_param : MemCall → ℕ → Option Params → Option Params
unfolding set_param
add_param c i none = set_param (replicate (suc i) none) i c
add_param c i (some ps) = set_param ps i c

-- `MemorySSACallSite`: the instructions in front of the call, the nearest first, `none` for one that is
-- no call. The vector is `none` while it has no size; `none` around it is a failed run.
unfoldable pub actual_params : List (Option MemCall) → Option Params → Option (Option Params)
unfolding is_actual get_mem_ssa_param_idx add_param
actual_params [] ps = some ps
actual_params (none ∷ rest) ps = some ps
actual_params (some c ∷ rest) ps =
    if not (is_actual c) then some ps else elim (get_mem_ssa_param_idx c) [
      | none ↦ none
      | some i ↦ elim (add_param c i ps) [
        | none ↦ none
        | some next ↦ actual_params rest (some next)
      ]
    ]

unfoldable pub params_of : Option Params → Params
params_of none = []
params_of (some ps) = ps

-- `m_in_formal_params`, where `insert` keeps what is there.
abbrev pub Formals : Type 0
Formals = List (ℕ × Operand)

unfoldable pub get_in_formal : ℕ → Formals → Option Operand
get_in_formal i [] = none
get_in_formal i ((j, v) ∷ fs) = if i == j then some v else get_in_formal i fs

unfoldable pub insert_formal : ℕ → Operand → Formals → Formals
insert_formal i v [] = (i, v) ∷ []
insert_formal i v ((j, w) ∷ fs) = if i == j then (j, w) ∷ fs else (j, w) ∷ insert_formal i v fs

-- `MemorySSAFunction`: the instructions of the exit block, `none` for one that is no call.
unfoldable pub in_formals : Bool → List (Option MemCall) → Formals → Option Formals
unfolding is_mem_ssa get_mem_ssa_param_idx insert_formal
in_formals only_singleton [] fs = some fs
in_formals only_singleton (none ∷ rest) fs = in_formals only_singleton rest fs
in_formals only_singleton (some c ∷ rest) fs =
    if not (is_mem_ssa fun_in c only_singleton)
    then in_formals only_singleton rest fs
    else elim (get_mem_ssa_param_idx c) [
      | none ↦ none
      | some i ↦ in_formals only_singleton rest (insert_formal i c.variable fs)
    ]
