-- ===== src/Specializer/Calls.antt =====
-- The arguments of a specialized call, src/Specializer.cpp and the two passes that build `argPerm`.
use mathlib.Core.Option
use mathlib.Core.Option.{some-injective}
use occam.Base.{
  ℕ, suc, ◌≡◌, refl, sym, ap, ◌∙◌, true, Option, none, some, List, [], ◌∷◌, arith, length,
  Bool-cases, Option-cases, inl, inr,
}
use occam.Value.{Value}
use occam.Ir.{Function, CallSite}
use occam.Specializer.{Scheme, pick, arg_perm, takes_operands, specialize_call_site}
use occam.Specializer.Names.{blanks}

-- The arguments of a call have the constants of the scheme where it has one.
abbrev pub Agrees : Scheme → List Value → Type 0
Agrees [] [] = Unit {0}
Agrees [] (v ∷ vs) = ⊥
Agrees (a ∷ s) [] = ⊥
Agrees (none ∷ s) (v ∷ vs) = Agrees s vs
Agrees (some c ∷ s) (v ∷ vs) = (c ≡ v) × Agrees s vs

-- The arguments that the body of the original function sees in a clone: the constants of the
-- scheme, and the arguments of the clone in between.
unfoldable pub plug : Scheme → List Value → Option (List Value)
plug [] [] = some []
plug [] (v ∷ vs) = none
plug (none ∷ s) [] = none
plug (none ∷ s) (v ∷ vs) = Option.map (λ l. v ∷ l) (plug s vs)
plug (some c ∷ s) vs = Option.map (λ l. c ∷ l) (plug s vs)

pub pick-arg_perm-suc :
    (k : ℕ) (s : Scheme) (v : Value) (vs : List Value)
    → pick (arg_perm (suc k) s) (v ∷ vs) ≡ pick (arg_perm k s) vs
unfolding pick arg_perm
pick-arg_perm-suc k [] v vs = refl
pick-arg_perm-suc k (none ∷ s) v vs = ground (arith, pick-arg_perm-suc (suc k) s v vs)
pick-arg_perm-suc k (some c ∷ s) v vs = pick-arg_perm-suc (suc k) s v vs

-- The arguments that stay, in their order, are as many as the parameters of the clone, and with the
-- constants of the scheme they are the arguments of the call: no read is out of range.
pub plug-pick :
    (s : Scheme) (vs : List Value)
    → Agrees s vs
    → (ops : List Value) × (pick (arg_perm 0 s) vs ≡ some ops)
      × (length ops ≡ blanks s)
      × (plug s ops ≡ some vs)
unfolding pick arg_perm plug
plug-pick [] [] h = ([], refl, refl, refl)
plug-pick [] (v ∷ vs) h = absurd h
plug-pick (a ∷ s) [] h = absurd h
plug-pick (none ∷ s) (v ∷ vs) h =
    let (ops, p, n, q) = plug-pick s vs h in
    (v ∷ ops, rw (pick-arg_perm-suc 0 s v vs, p, pick) refl, ap suc n, rw q refl)
plug-pick (some c ∷ s) (v ∷ vs) h =
    let (ops, p, n, q) = plug-pick s vs h.1 in
    (ops, pick-arg_perm-suc 0 s v vs ∙ p, n, rw (q, h.0) refl)

pub length-arg_perm : (k : ℕ) (s : Scheme) → length (arg_perm k s) ≡ blanks s
unfolding arg_perm
length-arg_perm k [] = refl
length-arg_perm k (none ∷ s) = ap suc (length-arg_perm (suc k) s)
length-arg_perm k (some c ∷ s) = length-arg_perm (suc k) s

-- The call that `specializeCallSite` makes.
abbrev pub call_of : CallSite → Function → List Value → CallSite
call_of cs g ops = record {
  kind = cs.kind;
  name = cs.name;
  callee = some g;
  args = ops;
  calling_conv = g.calling_conv;
}

-- A call whose arguments agree with the scheme is rewritten to a call of the specialized function that
-- keeps the instruction's kind and name, takes the function's calling convention, and passes as many
-- arguments as the scheme has blanks, from which with the constants of the scheme those of the old call
-- are rebuilt; provided that the function takes so many, as the code asserts.
pub specialize_call_site-plug :
    (cs : CallSite) (g : Function) (s : Scheme)
    → Agrees s cs.args
    → takes_operands g (arg_perm 0 s) ≡ true
    → (ops : List Value) × (specialize_call_site cs g (arg_perm 0 s) ≡ some (call_of cs g ops))
      × (length ops ≡ blanks s)
      × (plug s ops ≡ some cs.args)
unfolding specialize_call_site
specialize_call_site-plug cs g s h takes =
    let (ops, p, n, q) = plug-pick s cs.args h in (ops, ground arith, n, q)

-- Where the assertion holds, and a call is made.
pub specialize_call_site-takes :
    (cs : CallSite) (g : Function) (perm : List ℕ) (c : CallSite)
    → specialize_call_site cs g perm ≡ some c
    → (takes_operands g perm ≡ true)
      × (ops : List Value) × (pick perm cs.args ≡ some ops)
      × (c ≡ call_of cs g ops)
unfolding specialize_call_site
specialize_call_site-takes cs g perm c e = elim (Bool-cases (takes_operands g perm)) [
  | inr fails ↦ absurd (ground arith)
  | inl takes ↦ elim (Option-cases (pick perm cs.args)) [
    | inl out ↦ absurd (ground arith)
    | inr (ops, p) ↦
        let same : call_of cs g ops ≡ c = some-injective _ _ (ground arith) in
        (takes, ops, p, sym same)
  ]
]
