-- ===== src/Bounce/Runs.antt =====
-- A call of a bounce function calls the target that its first argument points to.
use occam.Base.{
  ℕ, zero, suc, ◌+◌, ◌≡◌, refl, ap, subst, ◌∙◌, Bool, true, false, ◌==◌, none, some, List, [], ◌∷◌,
  ◌++◌, arith, if◌then◌else◌, length, get_elem?, length-append, length-map, inl, inr, Bool-cases,
  ◌||◌, All,
}
use occam.Ir.{Function}
use occam.Policy.{has_address}
use occam.Bounce.{
  Block, call_target, test, target_label, direct_blocks, default_block, test_blocks, bounce_blocks,
  Outcome, called, returned, undefined, successor, run, run_bounce,
}

pub get_elem?-behind :
    {A : Type 0} (xs ys : List A) (j : ℕ) → get_elem? (xs ++ ys) (length xs + j) ≡ get_elem? ys j
get_elem?-behind [] ys j = ground arith
get_elem?-behind (x ∷ xs) ys j = ground (arith, get_elem?-behind xs ys j)

pub get_elem?-front :
    {A : Type 0} (xs ys : List A) (j : ℕ) (x : A)
    → get_elem? xs j ≡ some x
    → get_elem? (xs ++ ys) j ≡ some x
get_elem?-front [] ys j x h = absurd (ground arith)
get_elem?-front (y ∷ xs) ys zero x h = h
get_elem?-front (y ∷ xs) ys (suc j) x h = get_elem?-front xs ys j x h

target_label-missing :
    (a l : ℕ) (fs : List Function) → has_address a fs ≡ false → target_label a l fs ≡ none
unfolding target_label has_address
target_label-missing a l [] h = refl
target_label-missing a l (f ∷ fs) h = ground (arith, target_label-missing a (suc l) fs)

-- The label of a target is that of a block for a function at its address.
target_label-call :
    (a l : ℕ) (fs : List Function)
    → has_address a fs ≡ true
    → (j : ℕ) × (f : Function) × (target_label a l fs ≡ some (l + j))
      × (get_elem? (direct_blocks fs) j ≡ some (call_target f))
      × (f.address ≡ a)
unfolding target_label direct_blocks has_address
target_label-call a l [] h = absurd (ground arith)
target_label-call a l (f ∷ fs) h = elim (Bool-cases (has_address a fs)) [
  | inl later ↦
      let (j, g, p, q, r) = target_label-call a (suc l) fs later in (suc j, g, ground arith, q, r)
  | inr last ↦ (0, f, ground (arith, target_label-missing a (suc l) fs last), refl, ground arith)
]

-- What a call does whose first argument is no target.
abbrev pub default_outcome : Bool → Bool → ℕ → List ℕ → Outcome
default_outcome false is_void p args = undefined
default_outcome true true p args = returned
default_outcome true false p args = called p args

-- By whether the first argument is a target.
abbrev pub outcome_if : Bool → Bool → Bool → ℕ → List ℕ → Outcome
outcome_if seen allow is_void p args =
    if seen then called p args else default_outcome allow is_void p args

run_call :
    (bs : List Block) (p : ℕ) (args : List ℕ) (k l : ℕ) (f : Function)
    → get_elem? bs l ≡ some (call_target f)
    → run (suc k) bs p args l ≡ some (called f.address args)
unfolding run
run_call bs p args k l f h = ground arith

run_test :
    (bs : List Block) (p : ℕ) (args : List ℕ) (k l a there other : ℕ)
    → get_elem? bs l ≡ some (test a (some there) other)
    → run (suc k) bs p args l ≡ run k bs p args (if a == p then there else other)
unfolding run successor
run_test bs p args k l a there other h = ground arith

run_default :
    (bs : List Block) (p : ℕ) (args : List ℕ) (k l : ℕ) (allow is_void : Bool)
    → get_elem? bs l ≡ some (default_block allow is_void)
    → run (suc k) bs p args l ≡ some (default_outcome allow is_void p args)
unfolding run default_block
run_default bs p args k l false is_void h = ground arith
run_default bs p args k l true true h = ground arith
run_default bs p args k l true false h = ground arith

module _ (allow is_void : Bool) (p : ℕ) (args : List ℕ) (bs : List Block) (all : List Function)
    (calls : (a : ℕ)
      → has_address a all ≡ true
      → (l : ℕ) × (f : Function) × (target_label a 1 all ≡ some l)
        × (get_elem? bs l ≡ some (call_target f))
        × (f.address ≡ a)) where
  test_step :
      (seen : Bool) (k l a tail : ℕ)
      → has_address a all ≡ true
      → get_elem? bs l ≡ some (test a (target_label a 1 all) tail)
      → run (suc k) bs p args tail ≡ some (outcome_if seen allow is_void p args)
      → run (suc (suc k)) bs p args l ≡ some (outcome_if (seen || a == p) allow is_void p args)
  test_step seen k l a tail m at h =
      let (there, f, lab, call, same) = calls a m in
      let here = run_test bs p args (suc k) l a there tail (ground arith) in
      let hit = run_call bs p args k there f call in
      elim (Bool-cases (a == p)) [
        | inl e ↦ let target : f.address ≡ p = ground arith in ground (arith, Bool-cases seen)
        | inr e ↦ ground (arith, Bool-cases seen)
      ]

  tests_run :
      (seen : Bool) (l tail k : ℕ) (fs : List Function)
      → All (λ f. has_address f.address all ≡ true) fs
      → ((j : ℕ) (b : Block)
          → get_elem? (test_blocks all l tail fs).0 j ≡ some b
          → get_elem? bs (l + j) ≡ some b)
      → run (suc k) bs p args tail ≡ some (outcome_if seen allow is_void p args)
      → run (length fs + suc k) bs p args (test_blocks all l tail fs).1
        ≡ some (outcome_if (seen || has_address p fs) allow is_void p args)
  unfolding test_blocks has_address
  tests_run seen l tail k [] m at h =
      let fuel : 0 + suc k ≡ suc k = omega arith in
      let same : seen ≡ (seen || false) = ground (arith, Bool-cases seen) in
      ap (λ n. run n bs p args tail) fuel
      ∙ h
      ∙ ap (λ b. some (outcome_if b allow is_void p args)) same
  tests_run seen l tail k (f ∷ fs) m at h =
      let first : get_elem? bs l ≡ some (test f.address (target_label f.address 1 all) tail) =
        subst
          (λ (x : ℕ). get_elem? bs x ≡ some (test f.address (target_label f.address 1 all) tail))
          (omega arith) (at 0 _ refl) in
      let next = test_step seen k l f.address tail m.0 first h in
      let rest =
        tests_run (seen || f.address == p) (suc l) l (suc k) fs m.1
          (λ j b e. subst (λ (x : ℕ). get_elem? bs x ≡ some b) (omega arith) (at (suc j) b e))
          next in
      let fuel : suc (length fs) + suc k ≡ length fs + suc (suc k) = omega arith in
      let same : ((seen || f.address == p) || has_address p fs) ≡ (seen || has_address p (f ∷ fs)) =
        ground (arith, Bool-cases seen) in
      ap (λ n. run n bs p args (test_blocks all (suc l) l fs).1) fuel
      ∙ rest
      ∙ ap (λ b. some (outcome_if b allow is_void p args)) same

length-test_blocks :
    (all : List Function) (l tail : ℕ) (fs : List Function)
    → length (test_blocks all l tail fs).0 ≡ length fs
unfolding test_blocks
length-test_blocks all l tail [] = refl
length-test_blocks all l tail (f ∷ fs) = ap suc (length-test_blocks all (suc l) l fs)

targets_known :
    (all fs : List Function)
    → ((a : ℕ) → has_address a fs ≡ true → has_address a all ≡ true)
    → All (λ f. has_address f.address all ≡ true) fs
unfolding has_address
targets_known all [] sub = tt
targets_known all (f ∷ fs) sub =
    (sub f.address (ground arith), targets_known all fs (λ a h. sub a (ground arith)))

-- Where the blocks of a bounce function stand.
module _ (allow is_void : Bool) (targets : List Function) where
  abbrev tests : List Block × ℕ
  tests = test_blocks targets (length targets + 2) (length targets + 1) targets

  length-bounce_blocks :
      length (bounce_blocks allow is_void targets) ≡ length targets + suc (suc (length targets))
  unfolding bounce_blocks direct_blocks
  length-bounce_blocks = omega (
    arith,
    length-append (direct_blocks targets) (default_block allow is_void ∷ tests.0),
    length-map targets call_target,
    length-test_blocks targets (length targets + 2) (length targets + 1) targets,
  )

  call_place :
      (a : ℕ)
      → has_address a targets ≡ true
      → (l : ℕ) × (f : Function) × (target_label a 1 targets ≡ some l)
        × (get_elem? (bounce_blocks allow is_void targets) l ≡ some (call_target f))
        × (f.address ≡ a)
  unfolding bounce_blocks
  call_place a h =
      let (j, f, p, q, r) = target_label-call a 1 targets h in
      let next : 1 + j ≡ suc j = omega arith in
      (suc j, f, p ∙ ap some next, get_elem?-front (direct_blocks targets) _ j _ q, r)

  behind_calls :
      (j : ℕ) (b : Block)
      → get_elem? (default_block allow is_void ∷ tests.0) j ≡ some b
      → get_elem? (bounce_blocks allow is_void targets) (suc (length targets) + j) ≡ some b
  unfolding bounce_blocks direct_blocks
  behind_calls j b h =
      let place : suc (length targets) + j ≡ suc (length (direct_blocks targets) + j) =
        omega (arith, length-map targets call_target) in
      ap (get_elem? (bounce_blocks allow is_void targets)) place
      ∙ get_elem?-behind (direct_blocks targets) (default_block allow is_void ∷ tests.0) j
      ∙ h

-- A call of a bounce function made for these targets calls the function at the address that its first
-- argument is, with the other arguments, if this is the address of a target; if not, it calls the
-- function at this address all the same where indirect calls are allowed and the call is not void, it
-- returns without a call where they are allowed and the call is void, and is undefined otherwise.
pub run_bounce-outcome :
    (allow is_void : Bool) (targets : List Function) (p : ℕ) (args : List ℕ)
    → run_bounce (bounce_blocks allow is_void targets) (p ∷ args)
      ≡ some (outcome_if (has_address p targets) allow is_void p args)
unfolding run_bounce bounce_blocks
run_bounce-outcome allow is_void targets p args =
    let n = length targets in
    let bs = bounce_blocks allow is_void targets in
    let default : get_elem? bs (n + 1) ≡ some (default_block allow is_void) =
      ap (get_elem? bs) (omega arith) ∙ behind_calls allow is_void targets 0 _ refl in
    let ends =
      tests_run allow is_void p args bs targets (call_place allow is_void targets) false (n + 2)
        (n + 1) (suc n) targets (targets_known targets targets (λ a h. h))
        (λ j b h. ap (get_elem? bs) (omega arith) ∙ behind_calls allow is_void targets (suc j) b h)
        (run_default bs p args (suc n) (n + 1) allow is_void default) in
    ap (λ k. run k bs p args (tests allow is_void targets).1)
      (length-bounce_blocks allow is_void targets)
    ∙ ends
