-- ===== src/Inter/Choice.antt =====
-- The policies that `runOnModule` of src/InterSpecializer.cpp chooses from.
use mathlib.Core.Option.{some-injective}
use occam.Base.{ℕ, ◌≡◌, subst, some, List, [], arith}
use occam.Ir.{Function}
use occam.Policy.{
  PolicyType, no_specialize, aggressive_policy, bounded_policy, only_once_policy,
  non_recursive_policy, Policy, Counters, aggressive, bounded, only_once, recursive_guard,
}
use occam.Policy.Marks.{
  IsHonest, aggressive-IsHonest, bounded-IsHonest, only_once-IsHonest, recursive_guard-IsHonest,
}
use occam.Inter.{inter_policy}

-- Whatever policy is chosen: where it says to specialize a call site, the marks are arguments of the
-- call at their places, and where it says to specialize a recorded call, only concrete arguments are
-- marked.
pub inter_policy-IsHonest :
    (p : PolicyType) (max : ℕ) (rec : List Function) (policy : Policy (Unit {0} × Counters))
    → inter_policy p max rec ≡ some policy
    → IsHonest policy
unfolding inter_policy
inter_policy-IsHonest no_specialize max rec policy e = absurd (ground arith)
inter_policy-IsHonest aggressive_policy max rec policy e =
    subst IsHonest (some-injective aggressive policy e) aggressive-IsHonest
inter_policy-IsHonest bounded_policy max rec policy e =
    subst IsHonest (some-injective (bounded max aggressive) policy e)
      (bounded-IsHonest max aggressive aggressive-IsHonest)
inter_policy-IsHonest only_once_policy max rec policy e =
    subst IsHonest (some-injective (only_once []) policy e) (only_once-IsHonest [])
inter_policy-IsHonest non_recursive_policy max rec policy e =
    subst IsHonest (some-injective (recursive_guard rec aggressive) policy e)
      (recursive_guard-IsHonest rec aggressive aggressive-IsHonest)
