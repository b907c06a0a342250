-- ===== src/Inter/Served.antt =====
-- What the clients of a specialized module get, src/InterSpecializer.cpp and src/InterRewriter.cpp.
use occam.Base.{
  ℕ, suc, ◌≡◌, ◌≢◌, refl, subst, ap, ◌∙◌, ◌⊎◌, inl, inr, Bool, true, false, none, some, List, [],
  ◌∷◌, arith, length, All, Option-cases,
}
use occam.Value.{Value}
use occam.Previrt.{PrevirtType, Constant, Target, concretize, refines}
use occam.Previrt.Round.{Denotes, IsCString, concretize-Denotes}
use occam.Interface.{refines_args}
use occam.Specializer.{Scheme, pick, arg_perm}
use occam.Specializer.Names.{blanks}
use occam.Specializer.Calls.{plug, pick-arg_perm-suc}
use occam.Policy.Marks.{Fits}
use occam.Previrt.Match.{refines-exact}
use occam.Inter.{concretize_marked}

-- What the scheme and the operands give in place of an argument: the argument, or a constant that is
-- the argument.
abbrev pub Stands : (Constant → Value) → Value → Value → Type 0
Stands make w v = (w ≡ v) ⊎ ((c : Constant) × (w ≡ make c) × Denotes c v)

abbrev pub AllStand : (Constant → Value) → List Value → List Value → Type 0
AllStand make [] [] = Unit {0}
AllStand make [] (v ∷ vs) = ⊥
AllStand make (w ∷ ws) [] = ⊥
AllStand make (w ∷ ws) (v ∷ vs) = Stands make w v × AllStand make ws vs

-- The arguments at the positions are as many as the scheme has blanks; put into them, they stand with
-- the constants of the scheme for the old arguments.
pub record Rebuilds (make : Constant → Value) (s : Scheme) (perm : List ℕ) (vs : List Value)
    : Type 0 where
  pub operands : List Value
  pub seen : List Value
  pub picked : pick perm vs ≡ some operands
  pub fits : length operands ≡ blanks s
  pub plugged : plug s operands ≡ some seen
  pub stands : AllStand make seen vs

head-covers :
    (t : PrevirtType) (ts : List PrevirtType) (v : Value) (vs : List Value)
    → refines_args (t ∷ ts) (v ∷ vs) ≢ none
    → (refines t v ≢ none) × (refines_args ts vs ≢ none)
unfolding refines_args
head-covers t ts v vs n = elim (Option-cases (refines t v)) [
  | inl e ↦ absurd (ground arith)
  | inr (a, e) ↦ elim (Option-cases (refines_args ts vs)) [
    | inl q ↦ absurd (ground arith)
    | inr (b, q) ↦ (ground arith, ground arith)
  ]
]

none-absurd : {A : Type 0} (s : A) → none ≡ some s → ⊥
none-absurd s e = ground arith

-- An argument that stays.
keep :
    (make : Constant → Value) (s : Scheme) (v : Value) (vs : List Value)
    → Rebuilds make s (arg_perm 0 s) vs
    → Rebuilds make (none ∷ s) (arg_perm 0 (none ∷ s)) (v ∷ vs)
unfolding pick arg_perm plug
keep make s v vs r = record {
  operands = v ∷ r.operands;
  seen = v ∷ r.seen;
  picked = rw (pick-arg_perm-suc 0 s v vs, r.picked, pick) refl;
  fits = ap suc r.fits;
  plugged = rw (r.plugged) refl;
  stands = (inl refl, r.stands);
}

-- An argument that a constant replaces.
replace :
    (make : Constant → Value) (c : Constant) (s : Scheme) (v : Value) (vs : List Value)
    → Denotes c v
    → Rebuilds make s (arg_perm 0 s) vs
    → Rebuilds make (some (make c) ∷ s) (arg_perm 0 (some (make c) ∷ s)) (v ∷ vs)
unfolding pick arg_perm plug
replace make c s v vs d r = record {
  operands = r.operands;
  seen = make c ∷ r.seen;
  picked = pick-arg_perm-suc 0 s v vs ∙ r.picked;
  fits = r.fits;
  plugged = rw (r.plugged) refl;
  stands = (inr (c, refl, d), r.stands);
}

pub rebuild :
    (make : Constant → Value) (at : ℕ → Target) (i : ℕ) (bs : List Bool) (ts : List PrevirtType)
    (vs : List Value) (s : Scheme)
    → Fits bs ts
    → All IsCString ts
    → refines_args ts vs ≢ none
    → concretize_marked make at i bs ts ≡ some s
    → Rebuilds make s (arg_perm 0 s) vs
unfolding refines_args concretize_marked pick arg_perm plug
rebuild make at i [] [] [] s f k n e =
    subst (λ x. Rebuilds make x (arg_perm 0 x) []) (done e)
      (record { operands = []; seen = []; picked = refl; fits = refl; plugged = refl; stands = tt })
  where
    done : {s : Scheme} → some [] ≡ some s → [] ≡ s
    done e = ground arith
rebuild make at i [] [] (v ∷ vs) s f k n e = absurd (n refl)
rebuild make at i [] (t ∷ ts) vs s f k n e = absurd f
rebuild make at i (b ∷ bs) [] vs s f k n e = absurd f
rebuild make at i (b ∷ bs) (t ∷ ts) [] s f k n e = absurd (n refl)
rebuild make at i (false ∷ bs) (t ∷ ts) (v ∷ vs) s f k n e =
    let (n0, n1) = head-covers t ts v vs n in
    elim (Option-cases (concretize_marked make at (suc i) bs ts)) [
      | inl q ↦ absurd (ground arith)
      | inr (s', q) ↦
          let same : none ∷ s' ≡ s = ground arith in
          subst (λ x. Rebuilds make x (arg_perm 0 x) (v ∷ vs)) same
            (keep make s' v vs (rebuild make at (suc i) bs ts vs s' f.1 k.1 n1 q))
    ]
rebuild make at i (true ∷ bs) (t ∷ ts) (v ∷ vs) s f k n e =
    let (n0, n1) = head-covers t ts v vs n in
    elim (Option-cases (concretize t (at i))) [
      | inl q ↦ absurd (ground arith)
      | inr (c, p) ↦ elim (Option-cases (concretize_marked make at (suc i) bs ts)) [
        | inl q ↦ absurd (ground arith)
        | inr (s', q) ↦
            let same : some (make c) ∷ s' ≡ s = ground arith in
            let d : Denotes c v =
              concretize-Denotes t (at i) v c k.0 (refines-exact t v (f.0 refl) n0) p in
            subst (λ x. Rebuilds make x (arg_perm 0 x) (v ∷ vs)) same
              (replace make c s' v vs d (rebuild make at (suc i) bs ts vs s' f.1 k.1 n1 q))
      ]
    ]
