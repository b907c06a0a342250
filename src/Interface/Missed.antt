-- ===== src/Interface/Missed.antt =====
-- Which calls `ComponentInterface::call` keeps apart, src/PrevirtualizeInterfaces.cpp.
use occam.Base.{
  subst, ◌∙◌, suc, ◌≡◌, refl, ◌≢◌, Bool, true, Option, none, some, List, [], ◌∷◌, ◌++◌, Name, map,
  name_eq_refl, arith, inl, inr, Option-cases, Bool-cases, In, zero,
}
use occam.Value.{Value}
use occam.Previrt.{PrevirtType, abstract, refines}
use occam.Previrt.Match.{IsFaithful, refines-abstract}
use occam.Interface.{
  CallInfo, ComponentInterface, find, bump, bump_first, create, record_call, call, calls_of,
  refines_args, matches_first, first_operand,
}
use occam.Interface.Maps.{find-put}

-- Some recorded call of the function covers these arguments.
abbrev pub Covers : Name → List Value → ComponentInterface → Type 0
Covers f args i = (c : CallInfo) × In c (calls_of f i) × (refines_args c.args args ≢ none)

abstract-matches : (v : Value) → IsFaithful v → refines (abstract v) v ≢ none
abstract-matches v h = ground (arith, refines-abstract v h)

bump_first-In :
    (p : CallInfo → Bool) (cs ds : List CallInfo)
    → bump_first p cs ≡ some ds
    → (c : CallInfo) × In c cs × (p c ≡ true) × In (bump c) ds
unfolding bump_first
bump_first-In p [] ds e = absurd (ground arith)
bump_first-In p (c ∷ cs) ds e = elim (Bool-cases (p c)) [
  | inl h ↦ (c, (0, refl), h, (0, ground arith))
  | inr h ↦ elim (Option-cases (bump_first p cs)) [
    | inl n ↦ absurd (ground arith)
    | inr (r, q) ↦
        let (d, (k, at), ok, (l, new)) = bump_first-In p cs r q in
        (d, (suc k, at), ok, (suc l, ground arith))
  ]
]

-- What a recorded call adds to the calls of its function.
abbrev recorded : Option (List CallInfo) → List CallInfo → CallInfo → List CallInfo
recorded (some bumped) cs new = bumped
recorded none cs new = cs ++ new ∷ []

calls_of-record_call :
    (f : Name) (p : CallInfo → Bool) (args : List PrevirtType) (i : ComponentInterface)
    → calls_of f (record_call f p args i)
      ≡ recorded (bump_first p (calls_of f i)) (calls_of f i) (create i args 1)
unfolding calls_of record_call
calls_of-record_call f p args i = elim (Option-cases (find f i.calls)) [
  | inl n ↦ ground (arith, name_eq_refl f, find-put f f (create i args 1 ∷ []) i.calls)
  | inr (cs, q) ↦ elim (Option-cases (bump_first p cs)) [
    | inl n ↦ ground (arith, name_eq_refl f, find-put f f (cs ++ create i args 1 ∷ []) i.calls)
    | inr (ds, e) ↦ ground (arith, name_eq_refl f, find-put f f ds i.calls)
  ]
]

append-In : (c : CallInfo) (cs : List CallInfo) → In c (cs ++ c ∷ [])
append-In c [] = (0, refl)
append-In c (x ∷ cs) = let (k, e) = append-In c cs in (suc k, e)

-- A function of one parameter: after `call`, some recorded call covers the argument.
pub call-Covers :
    (f : Name) (v behind : Value) (i : ComponentInterface)
    → IsFaithful v
    → ((c : CallInfo) → In c (calls_of f i) → (t : PrevirtType) × (c.args ≡ t ∷ []))
    → Covers f (v ∷ []) (call f (v ∷ []) behind i)
unfolding call matches_first refines_args
call-Covers f v behind i h arity =
    elim (Option-cases (bump_first (λ c. matches_first c.args v) (calls_of f i))) [
      | inl n ↦ (
        create i (abstract v ∷ []) 1,
        rw (calls_of-record_call f _ (abstract v ∷ []) i) (rw n (append-In _ (calls_of f i))),
        one_arg (abstract v) (abstract-matches v h),
      )
      | inr (ds, q) ↦
          let (c, old, ok, new) = bump_first-In _ (calls_of f i) ds q in
          let (t, e) = arity c old in
          (
            bump c,
            rw (calls_of-record_call f _ (abstract v ∷ []) i) (rw q new),
            rw e (one_arg t (λ n. ground arith)),
          )
    ]
  where
    one_arg : (t : PrevirtType) → refines t v ≢ none → refines_args (t ∷ []) (v ∷ []) ≢ none
    one_arg t h e = ground arith

calls_of-call :
    (f : Name) (args : List Value) (b : Value) (i : ComponentInterface) (cs : List CallInfo)
    → calls_of f i ≡ cs
    → calls_of f (call f args b i)
      ≡ recorded
          (bump_first (λ c. matches_first c.args (first_operand args b)) cs)
          cs
          (create i (map abstract args) 1)
unfolding call
calls_of-call f args b i cs e = rw (calls_of-record_call f _ (map abstract args) i) (rw e refl)

In-singleton : (c x : CallInfo) → In c (x ∷ []) → x ≡ c
In-singleton c x (zero, e) = cc
In-singleton c x (suc k, e) = cc

module _ (f : Name) (v w b b' : Value) (i : ComponentInterface) where
  abbrev both_calls : ComponentInterface
  both_calls = call f (v ∷ w ∷ []) b' (call f (v ∷ v ∷ []) b i)

  abbrev only_call : CallInfo
  only_call = record { id = i.next_id; count = 2; args = abstract v ∷ abstract v ∷ [] }

  calls_of-both_calls :
      IsFaithful v → find f i.calls ≡ none → calls_of f both_calls ≡ only_call ∷ []
  unfolding calls_of bump_first matches_first first_operand
  calls_of-both_calls h e =
      calls_of-call f (v ∷ w ∷ []) b' _ _ (calls_of-call f (v ∷ v ∷ []) b i [] (ground arith))
      ∙ ground (arith, abstract-matches v h)

  refines_args-only_call :
      refines (abstract v) w ≡ none → refines_args only_call.args (v ∷ w ∷ []) ≡ none
  unfolding refines_args
  refines_args-only_call n = ground arith

-- Each abstract argument of a recorded call is held against the first argument. If the function has no
-- recorded call, v is matched by its own abstraction (it is no NaN with a payload, no alias, and its name
-- has no NUL) and w is not matched by the abstraction of v, then after a call on (v, v) a call on (v, w)
-- is counted as one more on (v, v), and no recorded call covers it.
pub call_misses :
    (f : Name) (v w b b' : Value) (i : ComponentInterface)
    → IsFaithful v
    → find f i.calls ≡ none
    → refines (abstract v) w ≡ none
    → let j = call f (v ∷ w ∷ []) b' (call f (v ∷ v ∷ []) b i) in
      (calls_of f j
        ≡ record { id = i.next_id; count = 2; args = abstract v ∷ abstract v ∷ [] } ∷ [])
      × ¬ Covers f (v ∷ w ∷ []) j
call_misses f v w b b' i h e n = (
  seen,
  λ (c, at, covers).
      let same = In-singleton c _ (subst (In c) seen at) in
      covers (rw (← same) (refines_args-only_call f v w b b' i n)),
)
  where
    seen : calls_of f (both_calls f v w b b' i) ≡ only_call f v w b b' i ∷ []
    seen = calls_of-both_calls f v w b b' i h e
