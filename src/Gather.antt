-- ===== src/Gather.antt =====
-- The calls that a module makes of other modules: `runOnModule` of src/GatherInterface.cpp.
pub mod Loop
pub mod Ends
pub mod Tests
use occam.Base.{
  ℕ, zero, suc, Bool, true, false, not, ◌&&◌, ◌||◌, ◌==◌, Option, none, some, List, [], ◌∷◌, ◌++◌,
  Name, if◌then◌else◌,
}
use occam.Value.{Value}
use occam.Interface.{ComponentInterface, call, call_any, reference, empty_interface, find}
use mathlib.Core.Option

-- A function of the call graph.
pub record Callee : Type 0 where
  pub name : Name
  pub arg_size : ℕ
  pub is_declaration : Bool
  pub is_intrinsic : Bool

-- A `CallRecord` of a node. `from_outside` has a null call and a function behind its node; `from_site`
-- has the arguments of the call site, and the operand behind them.
pub data CallRecord : Type 0 where
  from_outside : Callee → ℕ → CallRecord
  from_site : List Value → Value → ℕ → CallRecord

-- A call graph: the function of each node, its records, and the two nodes of the outside.
pub record CallGraph : Type 0 where
  pub function : ℕ → Option Callee
  pub records : ℕ → List CallRecord
  pub external_calling : ℕ
  pub calls_external : ℕ

-- The queue, its back first, `visited` and `interface`.
pub record State : Type 0 where
  pub queue : List ℕ
  pub visited : List ℕ
  pub interface : ComponentInterface

-- `isInternal`.
abbrev pub is_internal : Callee → Bool
is_internal f = not (f.is_declaration && not f.is_intrinsic)

abbrev pub is_external : Option Callee → Bool
is_external none = false
is_external (some f) = not (is_internal f)

unfoldable pub is_visited : ℕ → List ℕ → Bool
is_visited n [] = false
is_visited n (m ∷ ms) = if m == n then true else is_visited n ms

-- `if (visited.insert(cgn).second) queue.push_back(callRecord.second)`.
unfoldable pub push_first : ℕ → ℕ → State → State
unfolding is_visited
push_first n target s =
    if is_visited n s.visited
    then s
    else record s { queue = target ∷ s.queue; visited = n ∷ s.visited }

-- The interface with a call that is not in the module, or as it was.
unfoldable pub record_external : List Value → Value → Option Callee → State → State
unfolding call
record_external args behind none s = s
record_external args behind (some f) s = record s {
  interface = call f.name args behind s.interface;
}

-- The body of the loop over the records of the node `n`.
unfoldable pub visit_record : CallGraph → ℕ → CallRecord → State → State
unfolding push_first record_external call_any
visit_record g n (from_outside f target) s =
    push_first n target (record s { interface = call_any f.name f.arg_size s.interface })
visit_record g n (from_site args behind target) s =
    if is_external (g.function target)
    then record_external args behind (g.function target) s
    else push_first n target s

unfoldable pub visit_records : CallGraph → ℕ → List CallRecord → State → State
unfolding visit_record
visit_records g n [] s = s
visit_records g n (r ∷ rs) s = visit_records g n rs (visit_record g n r s)

-- What is done with the node that was taken from the queue.
unfoldable pub visit_node : CallGraph → ℕ → State → State
unfolding visit_records is_visited
visit_node g n s =
    if is_external (g.function n)
    then s
    else if n == g.calls_external
    then if is_visited g.external_calling s.visited
      then s
      else visit_records g g.external_calling (g.records g.external_calling) s
    else visit_records g n (g.records n) s

-- The traversal on fuel.
unfoldable pub traverse : ℕ → CallGraph → State → Option State
unfolding visit_node
traverse zero g s = none
traverse (suc k) g s = elim s.queue [
  | [] ↦ some s
  | n ∷ rest ↦ traverse k g (visit_node g n (record s { queue = rest }))
]

-- The initializer of `llvm.used` or `llvm.compiler.used`: the global behind each element, with its
-- mark for internal linkage in a vector.
pub data Used : Type 0 where
  vector : List (Option (Name × Bool)) → Used
  array : List (Option Name) → Used
  other : Used

unfoldable pub reference_vector :
    List (Option (Name × Bool)) → ComponentInterface → ComponentInterface
unfolding reference
reference_vector [] i = i
reference_vector (none ∷ gs) i = reference_vector gs i
reference_vector (some (n, internal) ∷ gs) i =
    reference_vector gs (if internal then i else reference n i)

unfoldable pub reference_array : List (Option Name) → ComponentInterface → ComponentInterface
unfolding reference
reference_array [] i = i
reference_array (none ∷ gs) i = reference_array gs i
reference_array (some n ∷ gs) i = reference_array gs (reference n i)

unfoldable pub reference_used : List Used → ComponentInterface → ComponentInterface
unfolding reference_vector reference_array
reference_used [] i = i
reference_used (vector gs ∷ us) i = reference_used us (reference_vector gs i)
reference_used (array gs ∷ us) i = reference_used us (reference_array gs i)
reference_used (other ∷ us) i = reference_used us i

-- The loops over the functions, the global variables and the aliases: the names of those that are
-- declared only.
unfoldable pub reference_declared : List (Name × Bool) → ComponentInterface → ComponentInterface
unfolding reference
reference_declared [] i = i
reference_declared ((n, declared) ∷ ss) i =
    reference_declared ss (if declared then reference n i else i)

-- The queue at the start: the functions of the interfaces that are given, the last one at the back,
-- or the node that stands for calls from outside.
unfoldable pub start_queue : CallGraph → Option (List ℕ) → List ℕ
start_queue g none = g.external_calling ∷ []
start_queue g (some entries) = reversed entries []
  where
    reversed : List ℕ → List ℕ → List ℕ
    reversed [] done = done
    reversed (n ∷ ns) done = reversed ns (n ∷ done)

-- `runOnModule` up to the writing of the interface.
unfoldable pub gather :
    ℕ → CallGraph → Option (List ℕ) → List Used → List (Name × Bool) → Option ComponentInterface
unfolding traverse start_queue reference_used reference_declared empty_interface
gather fuel g entries used symbols =
    Option.map (λ (s : State). reference_declared symbols s.interface)
      (traverse fuel g (record {
        queue = start_queue g entries;
        visited = [];
        interface = reference_used used empty_interface;
      }))
