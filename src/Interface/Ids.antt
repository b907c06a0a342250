-- ===== src/Interface/Ids.antt =====
-- Every `CallInfo` of an interface has a pointer of its own, whatever is recorded.
use occam.Base.{
  ℕ, zero, suc, ◌+◌, ◌≤◌, ◌≡◌, refl, sym, ap, subst, get_elem?, In, Bool, Option, none, some, List,
  [], ◌∷◌, ◌++◌, Name, name_eq, arith, if◌then◌else◌, inl, inr, Option-cases, Bool-cases, ◌==◌,
}
use occam.Value.{Value}
use occam.Previrt.{PrevirtType}
use occam.Interface.{
  CallInfo, ComponentInterface, find, put, bump_first, create, record_call, call, call_any,
  reference, get_or_create_call, find_call, empty_interface, calls_of,
}

-- How many calls of a list, or of the whole map, have the pointer `n`.
abbrev uses : ℕ → List CallInfo → ℕ
uses n [] = 0
uses n (c ∷ cs) = (if c.id == n then 1 else 0) + uses n cs

abbrev occurrences : ℕ → List (Name × List CallInfo) → ℕ
occurrences n [] = 0
occurrences n ((f, cs) ∷ m) = uses n cs + occurrences n m

pub record IsWellFormed (i : ComponentInterface) : Type 0 where
  pub unique : (n : ℕ) → occurrences n i.calls ≤ 1
  pub fresh : (n : ℕ) → i.next_id ≤ n → occurrences n i.calls ≡ 0

abbrev found : Option (List CallInfo) → List CallInfo
found none = []
found (some cs) = cs

occurrences-put :
    (n : ℕ) (f : Name) (v : List CallInfo) (m : List (Name × List CallInfo))
    → occurrences n (put f v m) + uses n (found (find f m)) ≡ occurrences n m + uses n v
unfolding find put
occurrences-put n f v [] = omega arith
occurrences-put n f v ((g, w) ∷ m) = elim (Bool-cases (name_eq g f)) [
  | inl e ↦ rw e (omega arith)
  | inr e ↦ rw e (omega (arith, occurrences-put n f v m))
]

uses-append : (n : ℕ) (xs ys : List CallInfo) → uses n (xs ++ ys) ≡ uses n xs + uses n ys
uses-append n [] ys = omega arith
uses-append n (x ∷ xs) ys = omega (arith, uses-append n xs ys)

uses-bump_first :
    (n : ℕ) (p : CallInfo → Bool) (cs ds : List CallInfo)
    → bump_first p cs ≡ some ds
    → uses n ds ≡ uses n cs
unfolding bump_first
uses-bump_first n p [] ds e = cc
uses-bump_first n p (c ∷ cs) ds e = elim (Option-cases (bump_first p cs)) [
  | inl m ↦ ground arith
  | inr (r, q) ↦ ground (arith, uses-bump_first n p cs r q)
]

-- One more call, with the next pointer, in the list of one function.
grow-IsWellFormed :
    (i : ComponentInterface) (f : Name) (v : List CallInfo)
    → IsWellFormed i
    → ((n : ℕ) → uses n v ≡ uses n (found (find f i.calls)) + (if i.next_id == n then 1 else 0))
    → IsWellFormed (record i { calls = put f v i.calls; next_id = suc i.next_id })
grow-IsWellFormed i f v h e = record {
  unique = λ n. ground (arith, e n, occurrences-put n f v i.calls, h.unique n, h.fresh n);
  fresh = λ n le. ground (arith, e n, occurrences-put n f v i.calls, h.fresh n);
}

keep-IsWellFormed :
    (i : ComponentInterface) (f : Name) (v : List CallInfo)
    → IsWellFormed i
    → ((n : ℕ) → uses n v ≡ uses n (found (find f i.calls)))
    → IsWellFormed (record i { calls = put f v i.calls })
keep-IsWellFormed i f v h e = record {
  unique = λ n. ground (arith, e n, occurrences-put n f v i.calls, h.unique n);
  fresh = λ n le. ground (arith, e n, occurrences-put n f v i.calls, h.fresh n);
}

record_call-IsWellFormed :
    (f : Name) (p : CallInfo → Bool) (args : List PrevirtType) (i : ComponentInterface)
    → IsWellFormed i
    → IsWellFormed (record_call f p args i)
unfolding record_call
record_call-IsWellFormed f p args i h = elim (Option-cases (find f i.calls)) [
  | inl n ↦ ground (arith, grow-IsWellFormed i f (create i args 1 ∷ []) h (λ k. ground arith))
  | inr (cs, q) ↦ elim (Option-cases (bump_first p cs)) [
    | inl n ↦ ground (
      arith,
      grow-IsWellFormed i f (cs ++ create i args 1 ∷ []) h
          (λ k. ground (arith, uses-append k cs (create i args 1 ∷ []))),
    )
    | inr (ds, e) ↦
        ground
          (arith, keep-IsWellFormed i f ds h (λ k. ground (arith, uses-bump_first k p cs ds e)))
  ]
]

get_or_create_call-IsWellFormed :
    (f : Name) (args : List PrevirtType) (i : ComponentInterface)
    → IsWellFormed i
    → IsWellFormed (get_or_create_call f args i).1
unfolding get_or_create_call
get_or_create_call-IsWellFormed f args i h = elim (Option-cases (find f i.calls)) [
  | inl n ↦ ground (arith, grow-IsWellFormed i f (create i args 0 ∷ []) h (λ k. ground arith))
  | inr (cs, q) ↦ elim (Option-cases (find_call args cs)) [
    | inl n ↦ ground (
      arith,
      grow-IsWellFormed i f (cs ++ create i args 0 ∷ []) h
          (λ k. ground (arith, uses-append k cs (create i args 0 ∷ []))),
    )
    | inr (c, e) ↦ ground arith
  ]
]

-- The operations that change an interface.
pub data Update : Type 0 where
  calls : Name → List Value → Value → Update
  calls_any : Name → ℕ → Update
  refers : Name → Update
  gets : Name → List PrevirtType → Update

pub update : ComponentInterface → Update → ComponentInterface
update i (calls f args behind) = call f args behind i
update i (calls_any f n) = call_any f n i
update i (refers n) = reference n i
update i (gets f args) = (get_or_create_call f args i).1

pub update_all : ComponentInterface → List Update → ComponentInterface
unfolding update
update_all i [] = i
update_all i (u ∷ us) = update_all (update i u) us

update-IsWellFormed :
    (i : ComponentInterface) (u : Update) → IsWellFormed i → IsWellFormed (update i u)
unfolding update call call_any reference
update-IsWellFormed i (calls f args behind) h = record_call-IsWellFormed f _ _ i h
update-IsWellFormed i (calls_any f n) h = record_call-IsWellFormed f _ _ i h
update-IsWellFormed i (refers n) h = record {
  unique = λ k. ground (arith, h.unique k);
  fresh = λ k le. ground (arith, h.fresh k);
}
update-IsWellFormed i (gets f args) h = get_or_create_call-IsWellFormed f args i h

-- Any sequence of operations keeps the pointers of an interface distinct and below the next one.
pub update_all-IsWellFormed :
    (i : ComponentInterface) (us : List Update) → IsWellFormed i → IsWellFormed (update_all i us)
unfolding update_all
update_all-IsWellFormed i [] h = h
update_all-IsWellFormed i (u ∷ us) h =
    update_all-IsWellFormed (update i u) us (update-IsWellFormed i u h)

pub empty_interface-IsWellFormed : IsWellFormed empty_interface
unfolding empty_interface
empty_interface-IsWellFormed = record { unique = λ n. omega arith; fresh = λ n h. refl }

uses-In : (cs : List CallInfo) (c : CallInfo) (k : ℕ) → get_elem? cs k ≡ some c → 1 ≤ uses c.id cs
uses-In [] c k e = absurd (ground arith)
uses-In (d ∷ cs) c zero e =
    let same : d ≡ c = ground arith in
    subst (λ (x : CallInfo). 1 ≤ uses x.id (d ∷ cs)) same (ground arith)
uses-In (d ∷ cs) c (suc k) e = omega (arith, uses-In cs c k e)

uses-own :
    (cs : List CallInfo) (c d : CallInfo) (j k : ℕ)
    → get_elem? cs j ≡ some c
    → get_elem? cs k ≡ some d
    → c.id ≡ d.id
    → uses c.id cs ≤ 1
    → c ≡ d
uses-own [] c d j k e q same one = absurd (ground arith)
uses-own (x ∷ cs) c d zero zero e q same one = ground arith
uses-own (x ∷ cs) c d zero (suc k) e q same one =
    let head : x ≡ c = ground arith in
    let at : x.id ≡ c.id = ap (λ (y : CallInfo). y.id) head in
    let more = uses-In cs d k q in absurd (ground arith)
uses-own (x ∷ cs) c d (suc j) zero e q same one =
    let head : x ≡ d = ground arith in
    let at : x.id ≡ d.id = ap (λ (y : CallInfo). y.id) head in
    let more = uses-In cs c j e in absurd (ground arith)
uses-own (x ∷ cs) c d (suc j) (suc k) e q same one = uses-own cs c d j k e q same (omega arith)

uses-find :
    (n : ℕ) (f : Name) (m : List (Name × List CallInfo))
    → uses n (found (find f m)) ≤ occurrences n m
unfolding find
uses-find n f [] = omega arith
uses-find n f ((g, cs) ∷ m) = elim (Bool-cases (name_eq g f)) [
  | inl y ↦ rw y (omega arith)
  | inr y ↦ rw y (omega (arith, uses-find n f m))
]

-- Two recorded calls of one function are one if their pointers are equal.
pub IsWellFormed-own :
    (i : ComponentInterface)
    → IsWellFormed i
    → (f : Name) (c d : CallInfo) → In c (calls_of f i)
    → In d (calls_of f i)
    → c.id ≡ d.id
    → c ≡ d
unfolding calls_of
IsWellFormed-own i h f c d a b same =
    let here : calls_of f i ≡ found (find f i.calls) = calls_of-found i f in
    uses-own (calls_of f i) c d a.0 b.0 a.1 b.1 same (
      subst (λ l. uses c.id l ≤ 1) (sym here)
        (omega (arith, uses-find c.id f i.calls, h.unique c.id)))
  where
    calls_of-found : (i : ComponentInterface) (f : Name) → calls_of f i ≡ found (find f i.calls)
    calls_of-found i f = elim (Option-cases (find f i.calls)) [
      | inl e ↦ ground arith
      | inr (cs, e) ↦ ground arith
    ]
