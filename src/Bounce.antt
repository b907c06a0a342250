-- ===== src/Bounce.antt =====
-- The bounce functions of src/transforms/DevirtFunctions.cpp: how they are built and how they run.
pub mod Tests
pub mod Runs
use occam.Base.{
  ℕ, zero, suc, ◌+◌, Bool, true, false, ◌==◌, Option, none, some, List, [], ◌∷◌, ◌++◌, map,
  if◌then◌else◌, length, get_elem?,
}
use occam.Ir.{Function}

-- A basic block with its instructions; labels are the places of the blocks in the function. A successor
-- of a test is `none` for a null pointer.
pub data Block : Type 0 where
  jump : ℕ → Block
  -- the call of a target with the arguments behind the first, and the return of what it gives
  call_target : Function → Block
  -- the same for the first argument as the callee
  call_pointer : Block
  return_void : Block
  unreachable : Block
  -- is the first argument this address?
  test : ℕ → Option ℕ → ℕ → Block

-- `targets[FL]`, filled in the order of the targets from a label on: the last one stands.
unfoldable pub target_label : ℕ → ℕ → List Function → Option ℕ
target_label a l [] = none
target_label a l (f ∷ fs) = elim (target_label a (suc l) fs) [
  | some k ↦ some k
  | none ↦ if f.address == a then some l else none
]

unfoldable pub direct_blocks : List Function → List Block
direct_blocks = map call_target

-- The block for a pointer that is no target, by `m_allowIndirectCalls` and whether the call is void.
unfoldable pub default_block : Bool → Bool → Block
default_block false is_void = unreachable
default_block true true = return_void
default_block true false = call_pointer

-- The blocks of the tests from a label on, and `tailBB` behind them.
unfoldable pub test_blocks : List Function → ℕ → ℕ → List Function → List Block × ℕ
unfolding target_label
test_blocks all l tail [] = ([], tail)
test_blocks all l tail (f ∷ fs) =
    let (rest, last) = test_blocks all (suc l) l fs in
    (test f.address (target_label f.address 1 all) tail ∷ rest, last)

-- The entry block, one block for each target, the default block, and the tests.
unfoldable pub bounce_blocks : Bool → Bool → List Function → List Block
unfolding direct_blocks default_block test_blocks
bounce_blocks allow is_void targets =
    let n = length targets in
    let (tests, tail) = test_blocks targets (n + 2) (n + 1) targets in
    jump tail ∷ direct_blocks targets ++ default_block allow is_void ∷ tests

-- What a run does: it calls a function with arguments and gives what this gives, it returns without a
-- call, or it is undefined.
pub data Outcome : Type 0 where
  called : ℕ → List ℕ → Outcome
  returned : Outcome
  undefined : Outcome

-- The successor that a test takes.
unfoldable pub successor : Bool → Option ℕ → ℕ → Option ℕ
successor same none other = none
successor same (some there) other = some (if same then there else other)

-- A run from a block, on fuel; `none` is a run that is out of fuel or of the function's blocks.
unfoldable pub run : ℕ → List Block → ℕ → List ℕ → ℕ → Option Outcome
unfolding successor
run zero blocks p args l = none
run (suc k) blocks p args l = elim (get_elem? blocks l) [
  | none ↦ none
  | some b ↦ elim b [
    | jump next ↦ run k blocks p args next
    | call_target f ↦ some (called f.address args)
    | call_pointer ↦ some (called p args)
    | return_void ↦ some returned
    | unreachable ↦ some undefined
    | test a there other ↦ elim (successor (a == p) there other) [
      | none ↦ none
      | some next ↦ run k blocks p args next
    ]
  ]
]

-- A call of a bounce function, with fuel for all its blocks.
unfoldable pub run_bounce : List Block → List ℕ → Option Outcome
unfolding run
run_bounce blocks [] = none
run_bounce blocks (p ∷ args) = run (suc (length blocks)) blocks p args 0
