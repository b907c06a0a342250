-- ===== src/Policy/Once.antt =====
-- The functions that the only-once policy leaves alone, src/OnlyOnceSpecPolicy.cpp.
use occam.Base.{
  ◌∙◌, ℕ, ◌+◌, ◌≤◌, ◌≡◌, Bool, true, false, not, ◌&&◌, ◌||◌, none, some, List, [], ◌∷◌, arith,
  if◌then◌else◌, leb, Option-cases, inl, inr, ◌==◌,
}
use occam.Ir.{Function, CallSite}
use occam.Policy.{black_list, has_address, only_once, is_specialized}

-- Whether a call site calls the function at an address directly, as a function with a body.
abbrev pub calls_body : ℕ → CallSite → Bool
calls_body a cs = elim cs.callee [ none ↦ false | some f ↦ not f.is_declaration && f.address == a ]

abbrev pub count_body_calls : ℕ → List CallSite → ℕ
count_body_calls a [] = 0
count_body_calls a (cs ∷ rest) = (if calls_body a cs then 1 else 0) + count_body_calls a rest

has_address-black_list :
    (a : ℕ) (sites : List CallSite) (called black : List Function)
    → has_address a (black_list sites called black) ≡ (
        has_address a black
        || leb 2 (count_body_calls a sites + (if has_address a called then 1 else 0)))
unfolding black_list has_address
has_address-black_list a [] called black = ground arith
has_address-black_list a (cs ∷ rest) called black = elim (Option-cases cs.callee) [
  | inl n ↦ ground (arith, has_address-black_list a rest called black)
  | inr (f, e) ↦ ground (
    arith,
    has_address-black_list a rest called black,
    has_address-black_list a rest called (f ∷ black),
    has_address-black_list a rest (f ∷ called) black,
  )
]

-- The black list of a module holds exactly the functions with a body that two call sites or more
-- call directly.
pub black_list-count_body_calls :
    (a : ℕ) (sites : List CallSite)
    → has_address a (black_list sites [] []) ≡ leb 2 (count_body_calls a sites)
unfolding has_address
black_list-count_body_calls a sites = has_address-black_list a sites [] [] ∙ ground arith

-- Inside a module the only-once policy specializes a call only if it calls a function directly that is no
-- specialized version and that either is a declaration at each call site of the module that calls it, or
-- is called with a body by one call site at most; calls of declarations are not counted.
pub only_once-calls :
    {S : Type 0} (sites : List CallSite) (cs : CallSite) (s : S)
    → ((only_once (black_list sites [] [])).intra cs s).0.specialize ≡ true
    → (f : Function) × (cs.callee ≡ some f)
      × (is_specialized f ≡ false)
      × (count_body_calls f.address sites ≤ 1)
unfolding only_once
only_once-calls sites cs s h = elim (Option-cases cs.callee) [
  | inl n ↦ absurd (ground arith)
  | inr (f, e) ↦ (f, e, ground arith, ground (arith, black_list-count_body_calls f.address sites))
]
