-- ===== src/Policy/Marks.antt =====
-- The marks that a policy leaves fit the call, whatever the policy.
use occam.Base.{ℕ, ◌≡◌, Bool, true, List, [], ◌∷◌, arith, Bool-cases, Option-cases, inl, inr}
use occam.Value.{Value}
use occam.Previrt.{PrevirtType, is_concrete}
use occam.Interface.{ComponentInterface}
use occam.Ir.{Function, CallSite}
use occam.Specializer.Calls.{Agrees}
use occam.Policy.{
  Answer, Policy, mark_args, mark_types, aggressive_intra, aggressive_inter, aggressive, bounded,
  bound_answer, only_once, recursive_guard, Counters,
}

-- Marks of types are set at concrete types only, and there is one for each.
abbrev pub Fits : List Bool → List PrevirtType → Type 0
Fits [] [] = Unit {0}
Fits [] (t ∷ ts) = ⊥
Fits (b ∷ bs) [] = ⊥
Fits (b ∷ bs) (t ∷ ts) = (b ≡ true → is_concrete t ≡ true) × Fits bs ts

-- What the passes rely on: where the policy says to specialize, the marks of a call site are
-- arguments of the call at their places, and the marks of recorded arguments are set at concrete
-- ones only.
pub record IsHonest {S : Type 0} (p : Policy S) : Type 0 where
  pub intra_agrees :
      (cs : CallSite) (s : S)
      → (p.intra cs s).0.specialize ≡ true
      → Agrees (p.intra cs s).0.marks cs.args
  pub inter_fits :
      (f : Function) (args : List PrevirtType) (i : ComponentInterface) (s : S)
      → (p.inter f args i s).0.specialize ≡ true
      → Fits (p.inter f args i s).0.marks args

mark_args-Agrees : (vs : List Value) → Agrees (mark_args vs) vs
unfolding mark_args
mark_args-Agrees [] = tt
mark_args-Agrees (v ∷ vs) = ground (arith, mark_args-Agrees vs)

mark_types-Fits : (ts : List PrevirtType) → Fits (mark_types ts) ts
unfolding mark_types
mark_types-Fits [] = tt
mark_types-Fits (t ∷ ts) = ((λ h. h), mark_types-Fits ts)

aggressive_intra-Agrees :
    (cs : CallSite)
    → (aggressive_intra cs).specialize ≡ true
    → Agrees (aggressive_intra cs).marks cs.args
unfolding aggressive_intra
aggressive_intra-Agrees cs h = elim (Option-cases cs.callee) [
  | inl n ↦ absurd (ground arith)
  | inr (f, e) ↦ ground (arith, mark_args-Agrees cs.args)
]

aggressive_inter-Fits : (ts : List PrevirtType) → Fits (aggressive_inter ts).marks ts
unfolding aggressive_inter
aggressive_inter-Fits ts = mark_types-Fits ts

pub aggressive-IsHonest : {S : Type 0} → IsHonest {S = S} aggressive
unfolding aggressive
aggressive-IsHonest = record {
  intra_agrees = λ cs s h. aggressive_intra-Agrees cs h;
  inter_fits = λ f args i s h. aggressive_inter-Fits args;
}

pub only_once-IsHonest : {S : Type 0} (black : List Function) → IsHonest {S = S} (only_once black)
unfolding only_once
only_once-IsHonest black = record {
  intra_agrees = λ cs s h. elim (Option-cases cs.callee) [
    | inl n ↦ absurd (ground arith)
    | inr (f, e) ↦ ground (arith, aggressive_intra-Agrees cs)
  ];
  inter_fits = λ f args i s h. ground (arith, aggressive_inter-Fits args);
}

pub recursive_guard-IsHonest :
    {S : Type 0} (rec : List Function) (p : Policy S)
    → IsHonest p
    → IsHonest (recursive_guard rec p)
unfolding recursive_guard
recursive_guard-IsHonest rec p k = record {
  intra_agrees = λ cs s h. elim (Option-cases cs.callee) [
    | inl n ↦ absurd (ground arith)
    | inr (f, e) ↦ ground (arith, k.intra_agrees cs s)
  ];
  inter_fits = λ f args i s h. ground (arith, k.inter_fits f args i s);
}

bound_answer-marks {ℓ} :
    {S : Type 0} {A : Type ℓ} (n a : ℕ) (r : Answer A × S) (cs : Counters)
    → ((bound_answer n a r cs).0.marks ≡ r.0.marks)
      × ((bound_answer n a r cs).0.specialize ≡ true → r.0.specialize ≡ true)
unfolding bound_answer
bound_answer-marks n a r cs = elim (Bool-cases r.0.specialize) [
  | inl e ↦ (ground arith, λ h. e)
  | inr e ↦ (ground arith, ground arith)
]

pub bounded-IsHonest : {S : Type 0} (n : ℕ) (p : Policy S) → IsHonest p → IsHonest (bounded n p)
unfolding bounded
bounded-IsHonest n p k = record {
  intra_agrees = λ cs s h. elim (Option-cases cs.callee) [
    | inl e ↦ absurd (ground arith)
    | inr (f, e) ↦
        ground (arith, k.intra_agrees cs s.0, bound_answer-marks n f.address (p.intra cs s.0) s.1)
  ];
  inter_fits = λ f args i s h.
      ground (
        arith,
        k.inter_fits f args i s.0,
        bound_answer-marks n f.address (p.inter f args i s.0) s.1,
      );
}
