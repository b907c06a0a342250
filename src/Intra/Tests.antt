-- ===== src/Intra/Tests.antt =====
-- Runs of src/IntraSpecializer.cpp on one call site, and the theorems at them.
use mathlib.Core.Option
use mathlib.Core.Option.{some-injective}
use occam.Base.{true, ◌≡◌, refl, false, none, some, Name, codes, List, [], ◌∷◌, name_eq, arith, map}
use occam.Value.{Value}
use occam.Previrt.{abstract, is_concrete, to_string}
use occam.Previrt.Tests.{int_of, opaque_value}
use occam.Ir.{Function, CallSite, Kind}
use occam.Specializer.Tests.{function_named}
use occam.Table.{find_spec}
use occam.Policy.{Counters, bounded, aggressive}
use occam.Inter.Tests.{hash, clone, policy, policy-IsHonest}
use occam.Intra.{State, try_specialize_function}
use occam.Intra.Versions.{IsBuilt}
use occam.Intra.Calls.{AllOutcome, try_specialize_function-Outcome}

abbrev f : Function
f = function_named 1 (codes "f") 2

abbrev one : Value
one = int_of 4 (codes "1")

abbrev other : Value
other = opaque_value 5

abbrev site : CallSite
site = record {
  kind = Kind.call 0;
  name = codes "x";
  callee = some f;
  args = one ∷ other ∷ [];
  calling_conv = 0;
}

abbrev start : State (Unit {0} × Counters)
start = record {
  functions = f ∷ [];
  table = [];
  policy_state = (tt, []);
  to_add = [];
  modified = false;
}

-- Two equal calls share one version.
try_run :
    Option.map {B = List (List Value) × List Name}
      (λ (r : List CallSite × State (Unit {0} × Counters)).
        (map (λ (c : CallSite). c.args) r.0, map (λ (g : Function). g.name) r.1.to_add))
      (try_specialize_function hash clone policy (site ∷ site ∷ []) start)
    ≡ some ((other ∷ []) ∷ (other ∷ []) ∷ [], codes "__occam_spec.f(0x1,?)" ∷ [])
unfolding try_specialize_function bounded aggressive is_concrete abstract to_string name_eq
try_run = refl

-- The run in full.
abbrev version : Function
version = clone f (some one ∷ none ∷ []) (codes "__occam_spec.f(0x1,?)")

abbrev replaced : CallSite
replaced = record {
  kind = Kind.call 0;
  name = codes "x";
  callee = some version;
  args = other ∷ [];
  calling_conv = 0;
}

abbrev finished : State (Unit {0} × Counters)
finished = record {
  functions = f ∷ version ∷ [];
  table =
      record { handle = version; args = some one ∷ none ∷ []; parent = some 1; children = [] }
      ∷ record {
        handle = f;
        args = [];
        parent = none;
        children = record { handle = version; args = some one ∷ none ∷ [] } ∷ [];
      }
      ∷ [];
  policy_state = (tt, (1, 2) ∷ []);
  to_add = version ∷ [];
  modified = true;
}

try_finished :
    try_specialize_function hash clone policy (site ∷ site ∷ []) start
    ≡ some (replaced ∷ replaced ∷ [], finished)
unfolding try_specialize_function bounded aggressive is_concrete abstract to_string name_eq
try_finished = refl

start-IsBuilt : IsBuilt hash clone start.table
unfolding find_spec
start-IsBuilt h c (i, e) = absurd (ground arith)

try_specialize_function-Outcome_example :
    IsBuilt hash clone finished.table
    × AllOutcome hash clone (site ∷ site ∷ []) (replaced ∷ replaced ∷ [])
try_specialize_function-Outcome_example =
    try_specialize_function-Outcome hash clone policy policy-IsHonest (site ∷ site ∷ [])
      (replaced ∷ replaced ∷ []) start finished start-IsBuilt try_finished
