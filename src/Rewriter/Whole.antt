-- ===== src/Rewriter/Whole.antt =====
-- Both sides of a specialization between modules: src/InterSpecializer.cpp writes the transform, and
-- src/InterRewriter.cpp applies it to a client.
use occam.Base.{◌≡◌, ◌==◌, ◌⊎◌, true, false, Option, none, some, List, [], ◌∷◌, Name}
use occam.Value.{Value}
use occam.Previrt.{Constant}
use occam.Transform.{CallRewrite, CallMap, ComponentInterfaceTransform, lookup_rewrite}
use occam.Ir.{Function, CallSite}
use occam.Specializer.{Scheme, find_function, specialize_function, takes_operands}
use occam.Specializer.Calls.{call_of, plug}
use occam.Policy.{Policy}
use occam.Inter.Served.{AllStand}
use occam.Inter.Clients.{Served}
use occam.Rewriter.{Client}

-- A direct call of the function `f` that is replaced by the rewrite that it finds under the name `key`: the
-- new callee has the name of a function that `specializeFunction` gave for a scheme. That one is found by
-- its name, so it can be older.
pub record Replacement (hash : Name → Name) (clone : Function → Scheme → Name → Function)
    (make : Constant → Value) (t : ComponentInterfaceTransform) (key : Name) (f : Function)
    (cs c : CallSite) : Type 0 where
  pub target : Function
  pub calls : cs.callee ≡ some target
  pub is_called : (target.address == f.address) ≡ true
  pub new : CallRewrite
  pub looks_up : lookup_rewrite key cs.args t ≡ some new
  pub scheme : Scheme
  pub original : Function
  pub before : List Function
  pub version : Function × List Function
  pub found : specialize_function hash clone before original scheme ≡ some version
  pub new_callee : Function
  pub named : new_callee.name ≡ version.0.name
  pub takes : takes_operands new_callee new.args ≡ true
  pub operands : List Value
  pub seen : List Value
  pub is_call : c ≡ call_of cs new_callee operands
  pub plugged : plug scheme operands ≡ some seen
  pub stands : AllStand make seen cs.args

-- The call is no direct call of the function, or it finds no rewrite under the name.
abbrev pub IsOther : ComponentInterfaceTransform → Name → Function → CallSite → Type 0
IsOther t key f cs =
    (cs.callee ≡ none)
    ⊎ (((target : Function) × (cs.callee ≡ some target) × ((target.address == f.address) ≡ false))
        ⊎ (lookup_rewrite key cs.args t ≡ none))

module _ (hash : Name → Name) (clone : Function → Scheme → Name → Function)
    (make : Constant → Value) (t : ComponentInterfaceTransform) where
  -- A call site before and after the pass for a function under a name.
  abbrev pub Follows : Name → Function → CallSite → CallSite → Type 0
  Follows key f cs c = (IsOther t key f cs × (c ≡ cs)) ⊎ Replacement hash clone make t key f cs c

  abbrev pub AllFollow : Name → Function → List CallSite → List CallSite → Type 0
  AllFollow key f [] [] = Unit {0}
  AllFollow key f [] (d ∷ ds) = ⊥
  AllFollow key f (c ∷ cs) [] = ⊥
  AllFollow key f (c ∷ cs) (d ∷ ds) = Follows key f c d × AllFollow key f cs ds

  -- One pass after the other; nothing happens in one if the module has no function of the name.
  abbrev pub PassesFollow : List (Name × CallMap) → Client → Client → Type 0
  PassesFollow [] s r = r ≡ s
  PassesFollow ((key, m) ∷ names) s r =
      (mid : Client) × (((find_function key s.functions ≡ none) × (mid ≡ s))
        ⊎ ((f : Function) × (find_function key s.functions ≡ some f)
            × AllFollow key f s.sites mid.sites))
      × PassesFollow names mid r

  -- Every rewrite of the transform serves the calls that find it.
  abbrev Serves : Type 0
  Serves =
      (name : Name) (vs : List Value) (new : CallRewrite)
      → lookup_rewrite name vs t ≡ some new
      → Served hash clone make vs new
