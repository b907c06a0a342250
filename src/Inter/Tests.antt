-- ===== src/Inter/Tests.antt =====
-- Runs of src/InterSpecializer.cpp on a small module, and the theorems at them.
use occam.Base.{
  ℕ, zero, suc, ◌≡◌, refl, sym, true, false, none, some, Option, Name, codes, List, [], ◌∷◌,
  name_eq, arith, In, All, subst, Bool-cases, inl, inr,
}
use occam.Value.{Value}
use occam.Previrt.{unknown, int, Constant, Target, abstract, is_concrete, to_string, refines}
use occam.Previrt.Tests.{int_of, opaque_value}
use occam.Previrt.Round.{IsCString}
use occam.Interface.{CallInfo, calls_of, find, refines_args}
use occam.Interface.Tests.{one_call}
use occam.Transform.{CallRewrite, lookup_rewrite, get_interface}
use occam.Ir.{Function}
use occam.Specializer.{Scheme}
use occam.Specializer.Tests.{function_named, clone_at}
use occam.Policy.{Policy, Counters, aggressive, bounded, bounded_policy}
use occam.Policy.Marks.{IsHonest}
use occam.Inter.{Run, specialize_component, inter_policy}
use occam.Inter.Choice.{inter_policy-IsHonest}
use occam.Interface.Ids.{IsWellFormed}
use occam.Inter.Clients.{HasCStrings, Served, specialize_component-Served}

abbrev pub hash : Name → Name
hash d = codes "0"

abbrev pub clone : Function → Scheme → Name → Function
clone = clone_at 7

-- An integer constant; the tests need no other.
abbrev pub make : Constant → Value
make c = int_of 1 (codes "1")

abbrev pub target : List Function → Function → ℕ → Target
target m f i = record {
  has_variable = λ n. false;
  has_function = λ n. false;
  is_pointer = false;
  is_function_pointer = false;
  has_type = λ c. true;
}

abbrev pub no_alias : Name → Option Function
no_alias n = none

abbrev pub policy : Policy (Unit {0} × Counters)
policy = bounded 5 aggressive

-- The interface has a call f(1, ?).
abbrev pub start : Run (Unit {0} × Counters)
start = record {
  functions = function_named 1 (codes "f") 2 ∷ [];
  transform = record { interface = some one_call; rewrites = [] };
  policy_state = (tt, []);
  to_add = [];
  rewrite_count = 0;
}

abbrev pub version : Function
version = record (function_named 7 (codes "__occam_spec.f(0x1,?)") 1) { is_local = true }

abbrev pub new : CallRewrite
new = record { function = codes "__occam_spec.f(0x1,?)"; args = 1 ∷ [] }

abbrev pub finished : Run (Unit {0} × Counters)
finished = record {
  functions =
      function_named 1 (codes "f") 2
      ∷ record (function_named 7 (codes "__occam_spec.f(0x1,?)") 1) { is_local = false }
      ∷ [];
  transform = record { interface = some one_call; rewrites = (codes "f", (0, new) ∷ []) ∷ [] };
  policy_state = (tt, (1, 1) ∷ []);
  to_add = version ∷ [];
  rewrite_count = 1;
}

pub specialize_run :
    specialize_component hash clone make target no_alias policy start ≡ some (finished, true)
unfolding specialize_component abstract to_string name_eq bounded aggressive is_concrete
specialize_run = refl

abbrev pub operands : List Value
operands = int_of 4 (codes "1") ∷ opaque_value 5 ∷ []

pub lookup_run : lookup_rewrite (codes "f") operands finished.transform ≡ some new
unfolding lookup_rewrite refines_args refines name_eq
lookup_run = refl

pub policy-IsHonest : IsHonest policy
unfolding inter_policy
policy-IsHonest = inter_policy-IsHonest bounded_policy 5 [] policy refl

first_only : {A : Type 0} (a b : A) → In b (a ∷ []) → b ≡ a
first_only a b (zero, e) = ground arith
first_only a b (suc i, e) = absurd (ground arith)

abbrev recorded : CallInfo
recorded = record { id = 0; count = 1; args = int 32 (codes "1") ∷ unknown ∷ [] }

no_member : {A : Type 0} (a : A) → In a [] → ⊥
no_member a (i, e) = ground arith

calls_of_one : (n : Name) (c : CallInfo) → In c (calls_of n one_call) → c ≡ recorded
unfolding calls_of find
calls_of_one n c h = elim (Bool-cases (name_eq (codes "f") n)) [
  | inl y ↦
      let here : calls_of n one_call ≡ recorded ∷ [] = ground arith in
      first_only recorded c (subst (In c) here h)
  | inr y ↦
      let here : calls_of n one_call ≡ [] = ground arith in
      absurd (no_member c (subst (In c) here h))
]

pub one_call-IsWellFormed : IsWellFormed (get_interface start.transform)
unfolding get_interface
one_call-IsWellFormed = record { unique = λ n. ground arith; fresh = λ n h. ground arith }

pub one_call-HasCStrings : HasCStrings (get_interface start.transform)
unfolding get_interface
one_call-HasCStrings n c h =
    subst (λ x. All IsCString x.args) (sym (calls_of_one n c h)) (tt, (tt, tt))

inter_policy-IsHonest_example : IsHonest policy
unfolding inter_policy
inter_policy-IsHonest_example = inter_policy-IsHonest bounded_policy 5 [] policy refl

specialize_component-Served_example : Served hash clone make operands new
specialize_component-Served_example =
    specialize_component-Served hash clone make target no_alias policy start finished true
      (codes "f") operands new policy-IsHonest refl one_call-IsWellFormed one_call-HasCStrings
      specialize_run lookup_run
