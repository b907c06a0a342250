-- ===== src/Rewriter/Steps.antt =====
-- What a pass of the rewriter does to the call sites, src/InterRewriter.cpp.
use occam.Base.{◌≡◌, ◌⊎◌, true, false, ◌==◌, none, some, List, [], ◌∷◌, ◌++◌, Name}
use occam.Value.{Value}
use occam.Transform.{CallRewrite, CallMap, ComponentInterfaceTransform, lookup_rewrite}
use occam.Ir.{Function, CallSite}
use occam.Specializer.{find_function, pick, takes_operands}
use occam.Specializer.Calls.{call_of}
use occam.Rewriter.{Client}

-- A call site before and after the pass for a function under a name: it stays if it calls no function
-- directly, another function, or finds no rewrite for its arguments; else its rewrite replaces it.
pub data Passed (t : ComponentInterfaceTransform) (key : Name) (f : Function)
    : CallSite → CallSite → Type 0 where
  indirect : (cs : CallSite) → cs.callee ≡ none → Passed t key f cs cs
  other_function :
      (cs : CallSite) (target : Function)
      → cs.callee ≡ some target
      → (target.address == f.address) ≡ false
      → Passed t key f cs cs
  no_rewrite : (cs : CallSite) → lookup_rewrite key cs.args t ≡ none → Passed t key f cs cs
  rewritten :
      (cs : CallSite) (target : Function) (new : CallRewrite) (g : Function) (ops : List Value)
      → cs.callee ≡ some target
      → (target.address == f.address) ≡ true
      → lookup_rewrite key cs.args t ≡ some new
      → g.name ≡ new.function
      → takes_operands g new.args ≡ true
      → pick new.args cs.args ≡ some ops
      → Passed t key f cs (call_of cs g ops)

abbrev pub AllPassed :
    ComponentInterfaceTransform → Name → Function → List CallSite → List CallSite → Type 0
AllPassed t key f [] [] = Unit {0}
AllPassed t key f [] (d ∷ ds) = ⊥
AllPassed t key f (c ∷ cs) [] = ⊥
AllPassed t key f (c ∷ cs) (d ∷ ds) = Passed t key f c d × AllPassed t key f cs ds

-- The pass for a name: nothing happens if the module has no function of the name.
abbrev pub IsPass : ComponentInterfaceTransform → Name → Client → Client → Type 0
IsPass t key s r =
    ((find_function key s.functions ≡ none) × (r ≡ s))
    ⊎ ((f : Function) × (find_function key s.functions ≡ some f)
        × AllPassed t key f s.sites r.sites)

-- One pass after the other.
abbrev pub ArePasses :
    ComponentInterfaceTransform → List (Name × CallMap) → Client → Client → Type 0
ArePasses t [] s r = r ≡ s
ArePasses t ((key, m) ∷ names) s r = (mid : Client) × IsPass t key s mid × ArePasses t names mid r

pub AllPassed-append :
    (t : ComponentInterfaceTransform) (key : Name) (f : Function) (xs bs : List CallSite)
    (a b : CallSite)
    → AllPassed t key f xs bs
    → Passed t key f a b
    → AllPassed t key f (xs ++ a ∷ []) (bs ++ b ∷ [])
AllPassed-append t key f [] [] a b h k = (k, tt)
AllPassed-append t key f [] (y ∷ bs) a b h k = absurd h
AllPassed-append t key f (x ∷ xs) [] a b h k = absurd h
AllPassed-append t key f (x ∷ xs) (y ∷ bs) a b h k = (h.0, AllPassed-append t key f xs bs a b h.1 k)
