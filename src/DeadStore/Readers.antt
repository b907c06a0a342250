-- ===== src/DeadStore/Readers.antt =====
-- The users that read a region, for src/transforms/IPDeadStoreElimination.cpp.
use occam.Base.{
  ℕ, Bool, true, false, ◌||◌, ◌==◌, Option, some, List, [], ◌∷◌, ◌≡◌, refl, ap, ◌∙◌, arith, inl,
  inr, All, Bool-cases, Option-cases,
}
use mathlib.Core.Option.{some-injective}
use occam.MemorySsa.{MemCall, Formals, load, store, arg_ref, mem_ssa_str_to_op, op_code, is_mem_ssa}
use occam.DeadStore.{
  User, no_instruction, phi, call_user, other_instruction, Effect, kept, and_then, visit_user,
  visit_users, is_load_user, has_load_user,
}

-- A load, or a call that reads the region, among the shadow calls that are looked at: with only
-- singletons, those of a singleton.
unfoldable pub is_reader : Bool → User → Bool
unfolding is_mem_ssa
is_reader only_singleton no_instruction = false
is_reader only_singleton (phi i) = false
is_reader only_singleton other_instruction = false
is_reader only_singleton (call_user c following callers) =
    is_mem_ssa load c only_singleton || is_mem_ssa arg_ref c only_singleton

arg_ref-store :
    (c : MemCall) (b : Bool) → is_mem_ssa arg_ref c b ≡ true → is_mem_ssa store c b ≡ false
unfolding is_mem_ssa op_code
arg_ref-store c b h = elim (Option-cases c.callee) [
  | inl unknown ↦ absurd (ground arith)
  | inr (n, e) ↦ elim (Bool-cases (op_code (mem_ssa_str_to_op n) == 3)) [
    | inl same ↦ ground arith
    | inr other ↦ absurd (ground arith)
  ]
]

module _ (get_function : ℕ → Option Formals) (only_singleton : Bool) where
  visit_user-reader :
      (u : User) (e : Effect)
      → is_load_user get_function only_singleton u ≡ false
      → visit_user get_function only_singleton u ≡ some e
      → e.keep ≡ false
      → is_reader only_singleton u ≡ false
  unfolding visit_user is_reader is_load_user
  visit_user-reader no_instruction e no_load h clear = refl
  visit_user-reader (phi i) e no_load h clear = refl
  visit_user-reader other_instruction e no_load h clear = refl
  visit_user-reader (call_user c following callers) e no_load h clear =
      elim (Bool-cases (is_mem_ssa arg_ref c only_singleton)) [
        | inl reads ↦
            let other = arg_ref-store c only_singleton reads in
            let same : kept ≡ e = some-injective _ _ (ground arith) in
            let keeps : true ≡ e.keep = ap (λ (x : Effect). x.keep) same in absurd (ground arith)
        | inr fine ↦ ground arith
      ]

  -- Where no user is a load or keeps the store, none reads.
  pub visit_users-readers :
      (us : List User) (e : Effect)
      → has_load_user get_function only_singleton us ≡ false
      → visit_users get_function only_singleton us ≡ some e
      → e.keep ≡ false
      → All (λ u. is_reader only_singleton u ≡ false) us
  unfolding visit_users has_load_user and_then
  visit_users-readers [] e no_load h clear = tt
  visit_users-readers (u ∷ us) e no_load h clear =
      elim (Option-cases (visit_user get_function only_singleton u)) [
        | inl failed ↦ absurd (ground arith)
        | inr (f, one) ↦ elim (Option-cases (visit_users get_function only_singleton us)) [
          | inl failed ↦ absurd (ground arith)
          | inr (r, rest) ↦
              let same : and_then f r ≡ e = some-injective _ _ (ground arith) in
              let keeps : f.keep || r.keep ≡ false = ap (λ (x : Effect). x.keep) same ∙ clear in
              (
                visit_user-reader u f (ground (arith, keeps)) one (ground (arith, keeps)),
                visit_users-readers us r (ground (arith, no_load)) rest (ground (arith, keeps)),
              )
        ]
      ]
