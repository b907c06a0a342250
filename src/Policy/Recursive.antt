-- ===== src/Policy/Recursive.antt =====
-- The guard against recursive functions, src/RecursiveGuardSpecPolicy.cpp.
use native.Mathlib.Decide.{ℕ_discrete}
use occam.Base.{
  subst, ℕ, zero, suc, ◌<◌, ◌≡◌, ◌≢◌, refl, sym, Bool, true, false, ◌||◌, Option, none, some, List,
  [], ◌∷◌, ◌++◌, arith, length, inl, inr, ◌⊎◌, In,
}
use occam.Ir.{Function, CallSite}
use occam.Previrt.{PrevirtType}
use occam.Interface.{ComponentInterface}
use occam.Policy.{
  Policy, Component, is_recursive_component, with_body, recursive_functions, recursive_guard,
  has_address,
}

-- Walks of one call or more, over the relation "has a call of" between addresses.
pub data Walk (Calls : ℕ → ℕ → Type 0) (a : ℕ) : ℕ → Type 0 where
  one : {b : ℕ} → Calls a b → Walk Calls a b
  more : {b c : ℕ} → Walk Calls a b → Calls b c → Walk Calls a c

-- A component has a node for the function, with this mark for an empty body.
abbrev pub Holds : Component → Function × Bool → Type 0
Holds c f = In (some f) c.functions

-- The address is one that the external node of the call graph calls, or is reached from one by calls.
abbrev pub IsReached : (ℕ → Type 0) → (ℕ → ℕ → Type 0) → ℕ → Type 0
IsReached Entry Calls a = Entry a ⊎ ((e : ℕ) × Entry e × Walk Calls e a)

-- What LLVM documents of `scc_begin` on a call graph, which starts at the external node, for a module
-- with these functions, each with its mark for an empty body: one that is reached and calls itself
-- stands in a component with a loop, and one that is reached and has walks to another address and back
-- stands in a component of two nodes or more.
pub record AreComponents (nodes : List (Function × Bool)) (Entry : ℕ → Type 0)
    (Calls : ℕ → ℕ → Type 0) (cs : List Component) : Type 0 where
  pub loops :
      (f : Function × Bool)
      → In f nodes
      → IsReached Entry Calls f.0.address
      → Calls f.0.address f.0.address
      → (c : Component) × In c cs × Holds c f × (c.has_loop ≡ true)
  pub cycles :
      (f : Function × Bool) (b : ℕ)
      → In f nodes
      → IsReached Entry Calls f.0.address
      → b ≢ f.0.address
      → Walk Calls f.0.address b
      → Walk Calls b f.0.address
      → (c : Component) × In c cs × Holds c f × (1 < length c.functions)

has_address-append :
    (a : ℕ) (xs ys : List Function)
    → has_address a (xs ++ ys) ≡ (has_address a xs || has_address a ys)
unfolding has_address
has_address-append a [] ys = refl
has_address-append a (x ∷ xs) ys = ground (arith, has_address-append a xs ys)

has_address-with_body :
    (f : Function) (ns : List (Option (Function × Bool)))
    → f.is_declaration ≡ false
    → In (some (f, false)) ns
    → has_address f.address (with_body ns) ≡ true
unfolding has_address with_body
has_address-with_body f [] d (k, at) = absurd (ground arith)
has_address-with_body f (none ∷ ns) d (zero, at) = absurd (ground arith)
has_address-with_body f (some (g, e) ∷ ns) d (zero, at) = ground arith
has_address-with_body f (none ∷ ns) d (suc k, at) = has_address-with_body f ns d (k, at)
has_address-with_body f (some (g, e) ∷ ns) d (suc k, at) =
    ground (arith, has_address-with_body f ns d (k, at))

has_address-head :
    (f : Function) (c : Component) (cs : List Component)
    → f.is_declaration ≡ false
    → Holds c (f, false)
    → is_recursive_component c ≡ true
    → has_address f.address (recursive_functions (c ∷ cs)) ≡ true
unfolding recursive_functions
has_address-head f c cs d h r = ground (
  arith,
  has_address-append f.address (with_body c.functions) (recursive_functions cs),
  has_address-with_body f c.functions d h,
)

has_address-recursive_functions :
    (f : Function) (c : Component) (cs : List Component)
    → f.is_declaration ≡ false
    → In c cs
    → Holds c (f, false)
    → is_recursive_component c ≡ true
    → has_address f.address (recursive_functions cs) ≡ true
unfolding recursive_functions
has_address-recursive_functions f c [] d (k, at) h r = absurd (ground arith)
has_address-recursive_functions f c (x ∷ cs) d (zero, at) h r =
    let same : x ≡ c = cc in
    subst (λ y. has_address f.address (recursive_functions (y ∷ cs)) ≡ true) (sym same)
      (has_address-head f c cs d h r)
has_address-recursive_functions f c (x ∷ cs) d (suc k, at) h r = ground (
  arith,
  has_address-append f.address (with_body x.functions) (recursive_functions cs),
  has_address-recursive_functions f c cs d (k, at) h r,
)

pos_of_In {ℓ} : {A : Type ℓ} (a : A) (xs : List A) → In a xs → 0 < length xs
pos_of_In a [] (k, at) = absurd (ground arith)
pos_of_In a (x ∷ xs) (k, at) = omega arith

recursive_of_loop :
    (c : Component) (f : Function × Bool)
    → Holds c f
    → c.has_loop ≡ true
    → is_recursive_component c ≡ true
unfolding is_recursive_component
recursive_of_loop c f h l = ground (arith, pos_of_In (some f) c.functions h)

recursive_of_two : (c : Component) → 1 < length c.functions → is_recursive_component c ≡ true
unfolding is_recursive_component
recursive_of_two c h = ground arith

module _ {Calls : ℕ → ℕ → Type 0} where
  -- The first call of a walk.
  walk_cases : {a b : ℕ} → Walk Calls a b → (m : ℕ) × Calls a m × ((m ≡ b) ⊎ Walk Calls m b)
  walk_cases (one {b} e) = (b, e, inl refl)
  walk_cases (more {b} {c} w e) =
      let (m, first, rest) = walk_cases w in
      elim rest [
        | inl same ↦ (m, first, inr (one (subst (λ x. Calls x c) (sym same) e)))
        | inr walk ↦ (m, first, inr (more walk e))
      ]

  cycle-marked :
      (Entry : ℕ → Type 0) (nodes : List (Function × Bool)) (cs : List Component) (f : Function)
      → AreComponents nodes Entry Calls cs
      → In (f, false) nodes
      → IsReached Entry Calls f.address
      → f.is_declaration ≡ false
      → Walk Calls f.address f.address
      → has_address f.address (recursive_functions cs) ≡ true
  cycle-marked Entry nodes cs f k n reached d w =
      let (m, first, rest) = walk_cases w in
      elim (ℕ_discrete m f.address) [
        | yes same ↦
            let (c, here, holds, loop) =
              k.loops (f, false) n reached (subst (Calls f.address) same first) in
            has_address-recursive_functions f c cs d here holds
              (recursive_of_loop c (f, false) holds loop)
        | no differ ↦
            let back : Walk Calls m f.address = elim rest [
              | inl same ↦ absurd (differ same)
              | inr walk ↦ walk
            ] in
            let (c, here, holds, two) = k.cycles (f, false) m n reached differ (one first) back in
            has_address-recursive_functions f c cs d here holds (recursive_of_two c two)
      ]

-- A function with a body that is on a cycle of calls, and that the call graph reaches from its external
-- node, is never specialized under the guard, inside the module or for its interface, whatever the policy
-- below says.
pub recursive_guard-cycle :
    {S : Type 0} {Entry : ℕ → Type 0} {Calls : ℕ → ℕ → Type 0} (nodes : List (Function × Bool))
    (p : Policy S) (cs : List Component) (f : Function) (s : S)
    → AreComponents nodes Entry Calls cs
    → In (f, false) nodes
    → IsReached Entry Calls f.address
    → f.is_declaration ≡ false
    → Walk Calls f.address f.address
    → ((site : CallSite)
        → site.callee ≡ some f
        → ((recursive_guard (recursive_functions cs) p).intra site s).0.specialize ≡ false)
      × ((args : List PrevirtType) (i : ComponentInterface)
          → ((recursive_guard (recursive_functions cs) p).inter f args i s).0.specialize ≡ false)
unfolding recursive_guard
recursive_guard-cycle nodes p cs f s k n reached d w =
    let marked = cycle-marked _ nodes cs f k n reached d w in
    (λ site e. ground arith, λ args i. ground arith)
