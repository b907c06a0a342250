-- ===== src/Inter.antt =====
-- A module specialized with respect to its interface, src/InterSpecializer.cpp.
pub mod Served
pub mod Made
pub mod Clients
pub mod Choice
pub mod Tests
use occam.Base.{
  ℕ, suc, Bool, true, false, not, ◌||◌, Option, none, some, List, [], ◌∷◌, ◌++◌, map, Name,
  if◌then◌else◌, ◌==◌, ltb, length, is_empty,
}
use occam.Value.{Value}
use occam.Previrt.{PrevirtType, Constant, Target, concretize}
use occam.Interface.{CallInfo, ComponentInterface, calls_of}
use occam.Transform.{ComponentInterfaceTransform, rewrite, get_interface}
use occam.Ir.{Function}
use occam.Specializer.{Scheme, find_function, specialize_function, arg_perm}
use occam.Policy.{
  PolicyType, no_specialize, aggressive_policy, bounded_policy, only_once_policy,
  non_recursive_policy, Policy, Counters, aggressive, bounded, only_once, recursive_guard,
}
use mathlib.Core.Option

-- The choice of `runOnModule`, for a policy whose state is that of the bounded one; the only-once
-- policy has an empty black list here. `none` is the early return.
unfoldable pub inter_policy : PolicyType → ℕ → List Function → Option (Policy (Unit {0} × Counters))
unfolding aggressive bounded only_once recursive_guard
inter_policy no_specialize max rec = none
inter_policy aggressive_policy max rec = some aggressive
inter_policy bounded_policy max rec = some (bounded max aggressive)
inter_policy only_once_policy max rec = some (only_once [])
inter_policy non_recursive_policy max rec = some (recursive_guard rec aggressive)

-- `resolveFunction`; the alias table gives the base object if it is a function.
unfoldable pub resolve_function : (Name → Option Function) → List Function → Name → Option Function
unfolding find_function
resolve_function alias m n = elim (find_function n m) [ some f ↦ some f | none ↦ alias n ]

-- `setLinkage(ExternalLinkage)` of the function at an address.
unfoldable pub set_external : ℕ → List Function → List Function
set_external a = map (λ f. if f.address == a then record f { is_local = false } else f)

-- The state of `SpecializeComponent`: the functions of the module, `T`, the policy's own state,
-- `to_add` and `rewrite_count`.
pub record Run (S : Type 0) : Type 0 where
  pub functions : List Function
  pub transform : ComponentInterfaceTransform
  pub policy_state : S
  pub to_add : List Function
  pub rewrite_count : ℕ

-- The functions of the module with their new linkage, the rewrite, and the counts.
unfoldable pub record_rewrite :
    {S : Type 0} → Name → CallInfo → Scheme → Function → List Function → Run S → Run S
unfolding set_external rewrite arg_perm
record_rewrite name c scheme g m r = record r {
  functions = set_external g.address m;
  transform =
      rewrite name c.id (record { function = g.name; args = arg_perm 0 scheme }) r.transform;
  to_add = r.to_add ++ g ∷ [];
  rewrite_count = suc r.rewrite_count;
}

-- Over the values of constants.
module _ (make : Constant → Value) where
  -- `args` from position `i` on: the marked arguments as constants; `none` is a failed assertion.
  unfoldable pub concretize_marked : (ℕ → Target) → ℕ → List Bool → List PrevirtType → Option Scheme
  unfolding concretize
  concretize_marked at i [] [] = some []
  concretize_marked at i [] (t ∷ ts) = none
  concretize_marked at i (b ∷ bs) [] = none
  concretize_marked at i (false ∷ bs) (t ∷ ts) =
      Option.map (λ s. none ∷ s) (concretize_marked at (suc i) bs ts)
  concretize_marked at i (true ∷ bs) (t ∷ ts) = elim (concretize t (at i)) [
    | none ↦ none
    | some c ↦ Option.map (λ s. some (make c) ∷ s) (concretize_marked at (suc i) bs ts)
  ]

-- Over what LLVM does: the text of `HashString`, `CloneFunction`, the values of constants, the
-- queries on the type of a parameter and on the symbols of the module, and the aliases.
module _ (hash : Name → Name) (clone : Function → Scheme → Name → Function)
    (make : Constant → Value) (target : List Function → Function → ℕ → Target)
    (alias : Name → Option Function) where
  module _ {S : Type 0} (policy : Policy S) where
    -- What follows a yes of the policy.
    unfoldable pub specialize_marked :
        Name → Function → CallInfo → List Bool → Run S → Option (Run S)
    unfolding concretize_marked specialize_function record_rewrite
    specialize_marked name f c marks r =
        elim (concretize_marked make (target r.functions f) 0 marks c.args) [
          | none ↦ none
          | some scheme ↦
              if is_empty f.name
              then some r
              else elim (specialize_function hash clone r.functions f scheme) [
                | none ↦ none
                | some (g, m) ↦ some (record_rewrite name c scheme g m r)
              ]
        ]

    -- The body of the inner loop, for one recorded call of the function.
    unfoldable pub specialize_recorded : Name → Function → CallInfo → Run S → Option (Run S)
    unfolding specialize_marked get_interface
    specialize_recorded name f c r =
        if f.is_var_arg || not (length c.args == f.arg_size)
        then some r
        else let (answer, s) = policy.inter f c.args (get_interface r.transform) r.policy_state in
          if answer.specialize
          then specialize_marked name f c answer.marks (record r { policy_state = s })
          else some (record r { policy_state = s })

    unfoldable pub specialize_calls : Name → Function → List CallInfo → Run S → Option (Run S)
    unfolding specialize_recorded
    specialize_calls name f [] r = some r
    specialize_calls name f (c ∷ cs) r = elim (specialize_recorded name f c r) [
      | none ↦ none
      | some q ↦ specialize_calls name f cs q
    ]

    -- The body of the outer loop, for one function of the interface.
    unfoldable pub specialize_named : ComponentInterface → Name → Run S → Option (Run S)
    unfolding resolve_function specialize_calls calls_of
    specialize_named i name r = elim (resolve_function alias r.functions name) [
      | none ↦ some r
      | some f ↦ if f.is_declaration then some r else specialize_calls name f (calls_of name i) r
    ]

    unfoldable pub specialize_all :
        ComponentInterface → List (Name × List CallInfo) → Run S → Option (Run S)
    unfolding specialize_named
    specialize_all i [] r = some r
    specialize_all i ((name, cs) ∷ rest) r = elim (specialize_named i name r) [
      | none ↦ none
      | some q ↦ specialize_all i rest q
    ]

    -- `SpecializeComponent`, with `T` at the interface that `getInterface` gives; it returns whether
    -- there are rewrites.
    unfoldable pub specialize_component : Run S → Option (Run S × Bool)
    unfolding specialize_all get_interface
    specialize_component r =
        let i = get_interface r.transform in
        let start = record r.transform { interface = some i } in
        Option.map (λ (q : Run S). (q, ltb 0 q.rewrite_count))
          (specialize_all i i.calls (record r { transform = start }))
