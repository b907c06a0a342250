-- ===== src/Virtual.antt =====
-- The resolution of virtual calls, src/analysis/ClassHierarchyAnalysis.cpp.
pub mod Tests
pub mod Resolved
pub mod Entries
use occam.Base.{
  ℕ, zero, suc, ◌+◌, ◌%◌, Bool, true, false, not, ◌&&◌, ◌||◌, ◌==◌, Option, none, some, List, [],
  ◌∷◌, ◌++◌, if◌then◌else◌, ltb, leb, length, get_elem?, is_some,
}
use occam.Hierarchy.{Node, Graph, tick}
use occam.Vtables.{FunctionType, Method, Vtable, find_vtable, Analysis}

-- The first index of a `getelementptr`, the pointer that a load reads, and the called value behind its
-- casts.
pub data Index : Type 0 where
  constant : ℕ → Index
  variable : Index

pub data Pointer : Type 0 where
  gep : Index → Pointer
  other_pointer : Pointer

pub data Called : Type 0 where
  load : Pointer → Called
  other_value : Called

-- A type, with what a pointer points to.
pub data CalleeType : Type 0 where
  to_function : FunctionType → CalleeType
  to_other : CalleeType
  no_pointer : CalleeType

pub data ArgType : Type 0 where
  to_struct : ℕ → ArgType
  other_type : ArgType

-- What is read of a call site; `direct` is `getCalledFunction`.
pub record VirtualCall : Type 0 where
  pub direct : Bool
  pub called : Called
  pub callee_type : CalleeType
  pub arg_types : List ArgType

-- The `int` of `getVtableIndex` as its 32 bits.
unfoldable pub get_vtable_index : Called → ℕ
get_vtable_index (load (gep (constant n))) = n % 4294967296
get_vtable_index (load (gep variable)) = 4294967295
get_vtable_index (load other_pointer) = 4294967295
get_vtable_index other_value = 4294967295

unfoldable pub is_negative : ℕ → Bool
is_negative w = leb 2147483648 w

unfoldable pub same_params : List ℕ → List ℕ → Bool
same_params [] [] = true
same_params [] (q ∷ qs) = false
same_params (p ∷ ps) [] = false
same_params (p ∷ ps) (q ∷ qs) = p == q && same_params ps qs

-- The first argument is skipped.
unfoldable pub match_virtual_signature : FunctionType → FunctionType → Bool
unfolding same_params
match_virtual_signature call candidate = elim call.params [
  | [] ↦ false
  | p ∷ ps ↦ elim candidate.params [
    | [] ↦ false
    | q ∷ qs ↦ call.return_type == candidate.return_type && same_params ps qs
  ]
]

-- A `SmallSet` of functions, which are one if their addresses are.
unfoldable pub insert_method : Method → List Method → List Method
insert_method m [] = m ∷ []
insert_method m (x ∷ xs) =
    if m.function.address == x.function.address then x ∷ xs else x ∷ insert_method m xs

-- The entry of a vtable, and the candidate of a type; `none` is the unreachable end of an index that is
-- out of range.
unfoldable pub add_entry :
    FunctionType → Option (Option Method) → List Method → Option (List Method)
unfolding match_virtual_signature insert_method
add_entry cs none out = none
add_entry cs (some none) out = some out
add_entry cs (some (some m)) out =
    if match_virtual_signature cs m.signature then some (insert_method m out) else some out

unfoldable pub add_candidate_function :
    Analysis → ℕ → ℕ → FunctionType → List Method → Option (List Method)
unfolding find_vtable add_entry
add_candidate_function a ty i cs out = elim (find_vtable ty a.vtables) [
  | none ↦ some out
  | some v ↦ add_entry cs (get_elem? v i) out
]

-- The loop over the reachable types.
unfoldable pub add_candidates :
    Analysis → List ℕ → ℕ → FunctionType → List Method → Option (List Method)
unfolding add_candidate_function
add_candidates a [] i cs out = some out
add_candidates a (ty ∷ rest) i cs out = elim (add_candidate_function a ty i cs out) [
  | none ↦ none
  | some next ↦ add_candidates a rest i cs next
]

unfoldable pub find_node : ℕ → Graph → Option Node
find_node ty [] = none
find_node ty (n ∷ g) = if ty == n.key then some n else find_node ty g

unfoldable pub reachable_types : ℕ → Graph → List ℕ
unfolding find_node
reachable_types ty g = elim (find_node ty g) [ none ↦ [] | some n ↦ n.succs ]

-- The candidates for a class: those of the types that it reaches, then its own.
unfoldable pub candidates : Analysis → ℕ → ℕ → FunctionType → Option (List Method)
unfolding add_candidates reachable_types
candidates a ty i cs = elim (add_candidates a (reachable_types ty a.graph) i cs []) [
  | none ↦ none
  | some out ↦ add_candidate_function a ty i cs out
]

-- The call that looks virtual, with the type of `this`, the signature of the call and `out`; the answer
-- is the result with `out` and the counters.
unfoldable pub resolve_this :
    Analysis → Called → ℕ → FunctionType → List Method → Option (Bool × List Method × Analysis)
unfolding get_vtable_index is_negative candidates tick
resolve_this a called ty cs out =
    let b : Analysis = record a {
      num_potential_virtual_calls = tick a.num_potential_virtual_calls;
    } in
    let i = get_vtable_index called in
    if is_negative i then some (false, out, b) else elim (candidates b ty i cs) [
      | none ↦ none
      | some found ↦ elim (out ++ found) [
        | [] ↦ some (true, [], b)
        | m ∷ ms ↦ some (
          true,
          m ∷ ms,
          record b { num_resolved_virtual_calls = tick b.num_resolved_virtual_calls },
        )
      ]
    ]

-- `resolveVirtualCall`; a call with no argument fails in `getArgOperand(0)`.
unfoldable pub resolve_virtual_call :
    Analysis → VirtualCall → List Method → Option (Bool × List Method × Analysis)
unfolding resolve_this
resolve_virtual_call a cs out = if cs.direct then some (false, out, a) else elim cs.callee_type [
  | no_pointer ↦ some (false, out, a)
  | to_other ↦ some (false, out, a)
  | to_function cs_type ↦ elim cs.arg_types [
    | [] ↦ none
    | other_type ∷ rest ↦ some (false, out, a)
    | to_struct ty ∷ rest ↦ resolve_this a cs.called ty cs_type out
  ]
]
