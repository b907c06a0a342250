-- ===== src/Policy/Tests.antt =====
-- Runs of the policies, and the theorems at them.
use occam.Base.{
  inl, name_eq, In, sym, ◌∙◌, ℕ, zero, suc, ◌≡◌, refl, ◌≤◌, Bool, true, false, some, codes, List,
  [], ◌∷◌, arith,
}
use occam.Ir.{Function, CallSite, Kind}
use occam.Previrt.{PrevirtType, abstract, is_concrete}
use occam.Previrt.Tests.{int_of}
use occam.Interface.{ComponentInterface}
use occam.Specializer.Tests.{function_named}
use occam.Specializer.Calls.{Agrees}
use occam.Policy.{
  Policy, aggressive, aggressive_intra, bounded, only_once, recursive_guard, black_list,
  has_address, Component, recursive_functions, unsigned_mod, counter, Counters, count_copies,
  is_specialized,
}
use occam.Policy.Marks.{
  IsHonest, aggressive-IsHonest, bounded-IsHonest, recursive_guard-IsHonest, only_once-IsHonest,
}
use occam.Policy.Bounded.{Question, at_call, granted, granted-le, copies}
use occam.Policy.Once.{count_body_calls, only_once-calls}
use occam.Policy.Recursive.{Walk, one, more, AreComponents, recursive_guard-cycle}

abbrev f : Function
f = function_named 1 (codes "f") 1

abbrev site_of : Function → CallSite
site_of g = record {
  kind = Kind.call 0;
  name = [];
  callee = some g;
  args = int_of 10 (codes "1") ∷ [];
  calling_conv = 0;
}

-- The policy that the passes make for "bounded".
abbrev bounded_policy : ℕ → Policy (Unit {0} × Counters)
bounded_policy n = bounded n aggressive

abbrev asked : List Question
asked = at_call (site_of f) ∷ at_call (site_of f) ∷ at_call (site_of f) ∷ []

granted_run : granted (bounded_policy 2) 1 asked (tt, []) ≡ 2
unfolding granted bounded aggressive abstract is_concrete
granted_run = refl

granted-le_example : granted (bounded_policy 2) 1 asked (tt, []) ≤ 2
unfolding copies counter unsigned_mod
granted-le_example = granted-le 2 aggressive 1 asked (tt, []) (omega arith)

count_copies_run :
    count_copies
      (f ∷ function_named 2 (codes "__occam_spec.f(0x1)") 0 ∷ [])
      (f ∷ function_named 2 (codes "__occam_spec.f(0x1)") 0 ∷ [])
      []
    ≡ (1, 1) ∷ []
unfolding count_copies name_eq
count_copies_run = refl

abbrev sites : List CallSite
sites = site_of f ∷ site_of (function_named 2 (codes "g") 1) ∷ site_of f ∷ []

only_once-calls_example :
    (h : Function) × (some (function_named 2 (codes "g") 1) ≡ some h)
    × (is_specialized h ≡ false)
    × (count_body_calls h.address sites ≤ 1)
unfolding only_once aggressive_intra black_list has_address abstract is_concrete
only_once-calls_example = only_once-calls sites (site_of (function_named 2 (codes "g") 1)) tt refl

abbrev Self : ℕ → ℕ → Type 0
Self a b = (a ≡ 1) × (b ≡ 1)

abbrev FromOutside : ℕ → Type 0
FromOutside a = a ≡ 1

abbrev components : List Component
components = record { functions = some (f, false) ∷ []; has_loop = true } ∷ []

components-AreComponents : AreComponents ((f, false) ∷ []) FromOutside Self components
components-AreComponents = record {
  loops = λ g at reached c.
      (record { functions = some (f, false) ∷ []; has_loop = true }, (0, refl), only g at, refl);
  cycles = λ g b at reached differ there back. absurd (differ (ends there ∙ sym (starts g at)));
}
  where
    only : (g : Function × Bool) → In g ((f, false) ∷ []) → In (some g) (some (f, false) ∷ [])
    only g (zero, at) = (0, cc)
    only g (suc k, at) = absurd (ground arith)

    starts : (g : Function × Bool) → In g ((f, false) ∷ []) → g.0.address ≡ 1
    starts g (zero, at) = ground arith
    starts g (suc k, at) = absurd (ground arith)

    ends : {a b : ℕ} → Walk Self a b → b ≡ 1
    ends (one e) = e.1
    ends (more w e) = e.1

recursive_guard-cycle_example :
    ((site : CallSite)
      → site.callee ≡ some f
      → ((recursive_guard (recursive_functions components) aggressive).intra site tt).0.specialize
        ≡ false)
    × ((args : List PrevirtType) (i : ComponentInterface)
        → ((recursive_guard (recursive_functions components) aggressive).inter f args i
            tt).0.specialize
          ≡ false)
recursive_guard-cycle_example =
    recursive_guard-cycle ((f, false) ∷ []) aggressive components f tt components-AreComponents
      (0, refl) (inl refl) refl (one (refl, refl))

aggressive-Agrees_example : Agrees (aggressive_intra (site_of f)).marks (site_of f).args
unfolding aggressive is_concrete abstract aggressive_intra
aggressive-Agrees_example = (aggressive-IsHonest {S = Unit {0}}).intra_agrees (site_of f) tt refl

bounded-IsHonest_example : IsHonest (bounded_policy 2)
bounded-IsHonest_example = bounded-IsHonest 2 aggressive aggressive-IsHonest

recursive_guard-IsHonest_example : IsHonest (recursive_guard {S = Unit {0}} (f ∷ []) aggressive)
recursive_guard-IsHonest_example = recursive_guard-IsHonest (f ∷ []) aggressive aggressive-IsHonest

only_once-IsHonest_example : IsHonest (only_once {S = Unit {0}} (f ∷ []))
only_once-IsHonest_example = only_once-IsHonest (f ∷ [])
