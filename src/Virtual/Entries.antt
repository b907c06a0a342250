-- ===== src/Virtual/Entries.antt =====
-- What the candidates of one type and of a list of types are.
use occam.Base.{
  ℕ, zero, suc, ◌≤◌, ◌≡◌, refl, sym, ap, subst, ◌∙◌, Bool, true, false, ◌||◌, ◌==◌, Option, none,
  some, List, [], ◌∷◌, arith, length, get_elem?, inl, inr, ◌⊎◌, ◌↔◌, In, Bool-cases, Option-cases,
}
use occam.Vtables.{FunctionType, Method, Vtable, find_vtable, Analysis}
use occam.Virtual.{
  match_virtual_signature, insert_method, add_entry, add_candidate_function, add_candidates,
}

-- A method at this address is in the set.
unfoldable pub has_method : ℕ → List Method → Bool
has_method x [] = false
has_method x (m ∷ ms) = m.function.address == x || has_method x ms

-- The vtable of the type has at the index a function at this address whose signature matches.
abbrev pub IsEntry : Analysis → ℕ → FunctionType → ℕ → ℕ → Type 0
IsEntry a i cs x ty =
    (v : Vtable) × (m : Method) × (find_vtable ty a.vtables ≡ some v)
    × (get_elem? v i ≡ some (some m))
    × (match_virtual_signature cs m.signature ≡ true)
    × (m.function.address ≡ x)

-- The type has a vtable that the index is out of.
abbrev pub IsShort : Analysis → ℕ → ℕ → Type 0
IsShort a i ty = (v : Vtable) × (find_vtable ty a.vtables ≡ some v) × (length v ≤ i)

has_method-insert :
    (x : ℕ) (m : Method) (ms : List Method)
    → has_method x (insert_method m ms) ≡ (m.function.address == x || has_method x ms)
unfolding has_method insert_method
has_method-insert x m [] = refl
has_method-insert x m (k ∷ ms) = ground (arith, has_method-insert x m ms)

get_elem?-none : {A : Type 0} (xs : List A) (i : ℕ) → (get_elem? xs i ≡ none) ↔ (length xs ≤ i)
get_elem?-none [] i = ground arith
get_elem?-none (x ∷ xs) zero = ground arith
get_elem?-none (x ∷ xs) (suc i) = ground (arith, get_elem?-none xs i)

-- The entry is a function at this address whose signature matches.
abbrev IsFound : FunctionType → ℕ → Option (Option Method) → Type 0
IsFound cs x o =
    (m : Method) × (o ≡ some (some m))
    × (match_virtual_signature cs m.signature ≡ true)
    × (m.function.address ≡ x)

add_entry-some :
    (cs : FunctionType) (o : Option (Option Method)) (out next : List Method) (x : ℕ)
    → add_entry cs o out ≡ some next
    → (has_method x next ≡ true) ↔ ((has_method x out ≡ true) ⊎ IsFound cs x o)
unfolding add_entry
add_entry-some cs none out next x h = absurd (ground arith)
add_entry-some cs (some none) out next x h =
    let same : next ≡ out = ground arith in
    (
      λ k. inl (ground arith),
      λ k. elim k [ inl j ↦ ground arith | inr (m, e, f, g) ↦ absurd (ground arith) ],
    )
add_entry-some cs (some (some m)) out next x h =
    elim (Bool-cases (match_virtual_signature cs m.signature)) [
      | inl fits ↦
          let same : next ≡ insert_method m out = ground arith in
          let found = has_method-insert x m out in
          (
            λ k. elim (Bool-cases (m.function.address == x)) [
              | inl here ↦ inr (m, refl, fits, ground arith)
              | inr there ↦ inl (ground arith)
            ],
            λ k. elim k [ inl j ↦ ground arith | inr (n, e, f, g) ↦ ground arith ],
          )
      | inr differs ↦
          let same : next ≡ out = ground arith in
          (
            λ k. inl (ground arith),
            λ k. elim k [ inl j ↦ ground arith | inr (n, e, f, g) ↦ absurd (ground arith) ],
          )
    ]

pub add_candidate_function-some :
    (a : Analysis) (ty i : ℕ) (cs : FunctionType) (out next : List Method) (x : ℕ)
    → add_candidate_function a ty i cs out ≡ some next
    → (has_method x next ≡ true) ↔ ((has_method x out ≡ true) ⊎ IsEntry a i cs x ty)
unfolding add_candidate_function
add_candidate_function-some a ty i cs out next x h =
    elim (Option-cases (find_vtable ty a.vtables)) [
      | inl n ↦
          let same : next ≡ out = ground arith in
          (
            λ k. inl (ground arith),
            λ k. elim k [ inl j ↦ ground arith | inr (v, m, e, f, g, q) ↦ absurd (ground arith) ],
          )
      | inr (v, e) ↦
          let step : add_entry cs (get_elem? v i) out ≡ some next = ground arith in
          let (from, to) = add_entry-some cs (get_elem? v i) out next x step in
          (
            λ k. elim (from k) [ inl j ↦ inl j | inr (m, p, q, r) ↦ inr (v, m, e, p, q, r) ],
            λ k. elim k [
              | inl j ↦ to (inl j)
              | inr (w, m, f, at, p, q) ↦
                  let same : w ≡ v = ground arith in
                  to (inr (m, ap (λ (u : Vtable). get_elem? u i) (sym same) ∙ at, p, q))
            ],
          )
    ]

add_entry-none :
    (cs : FunctionType) (o : Option (Option Method)) (out : List Method)
    → (add_entry cs o out ≡ none) ↔ (o ≡ none)
unfolding add_entry
add_entry-none cs none out = (λ h. refl, λ h. refl)
add_entry-none cs (some none) out = ground arith
add_entry-none cs (some (some m)) out = ground arith

-- The run ends at a type exactly if the index is out of its vtable.
pub add_candidate_function-none :
    (a : Analysis) (ty i : ℕ) (cs : FunctionType) (out : List Method)
    → (add_candidate_function a ty i cs out ≡ none) ↔ IsShort a i ty
unfolding add_candidate_function
add_candidate_function-none a ty i cs out = elim (Option-cases (find_vtable ty a.vtables)) [
  | inl n ↦ (λ h. absurd (ground arith), λ (v, e, h). absurd (ground arith))
  | inr (v, e) ↦
      let (from, to) = add_entry-none cs (get_elem? v i) out in
      let (f, t) = get_elem?-none v i in
      (
        λ h. (v, e, f (from (ground arith))),
        λ (w, g, h).
            let same : w ≡ v = ground arith in let ends = to (t (ground arith)) in ground arith,
      )
]

-- The same for a list of types.
pub add_candidates-some :
    (a : Analysis) (tys : List ℕ) (i : ℕ) (cs : FunctionType) (out next : List Method) (x : ℕ)
    → add_candidates a tys i cs out ≡ some next
    → (has_method x next ≡ true)
      ↔ ((has_method x out ≡ true) ⊎ ((ty : ℕ) × In ty tys × IsEntry a i cs x ty))
unfolding add_candidates
add_candidates-some a [] i cs out next x h = (
  λ k. inl (ground arith),
  λ k. elim k [ inl j ↦ ground arith | inr (t, (n, m), p) ↦ absurd (ground arith) ],
)
add_candidates-some a (ty ∷ tys) i cs out next x h =
    elim (Option-cases (add_candidate_function a ty i cs out)) [
      | inl n ↦ absurd (ground arith)
      | inr (mid, e) ↦
          let (from, to) = add_candidate_function-some a ty i cs out mid x e in
          let (from', to') = add_candidates-some a tys i cs mid next x (ground arith) in
          (
            λ k. elim (from' k) [
              | inl j ↦ elim (from j) [ inl o ↦ inl o | inr p ↦ inr (ty, (0, refl), p) ]
              | inr (t, (n, m), p) ↦ inr (t, (suc n, m), p)
            ],
            λ k. elim k [
              | inl j ↦ to' (inl (to (inl j)))
              | inr (t, (zero, m), p) ↦
                  let same : t ≡ ty = ground arith in
                  to' (inl (to (inr (subst (λ (y : ℕ). IsEntry a i cs x y) same p))))
              | inr (t, (suc n, m), p) ↦ to' (inr (t, (n, m), p))
            ],
          )
    ]

any_cons :
    (P : ℕ → Type 0) (y : ℕ) (ys : List ℕ)
    → (t : ℕ) × In t (y ∷ ys) × P t
    → P y ⊎ ((t : ℕ) × In t ys × P t)
any_cons P y ys (t, (zero, m), p) = inl (subst P (ground arith) p)
any_cons P y ys (t, (suc n, m), p) = inr (t, (n, m), p)

pub add_candidates-none :
    (a : Analysis) (tys : List ℕ) (i : ℕ) (cs : FunctionType) (out : List Method)
    → (add_candidates a tys i cs out ≡ none) ↔ ((ty : ℕ) × In ty tys × IsShort a i ty)
unfolding add_candidates
add_candidates-none a [] i cs out =
    (λ h. absurd (ground arith), λ (t, (n, m), p). absurd (ground arith))
add_candidates-none a (ty ∷ tys) i cs out =
    let (ends, short) = add_candidate_function-none a ty i cs out in
    elim (Option-cases (add_candidate_function a ty i cs out)) [
      | inl n ↦ (λ h. (ty, (0, refl), ends n), λ p. ground arith)
      | inr (mid, e) ↦
          let (from, to) = add_candidates-none a tys i cs mid in
          (
            λ h. let (t, (n, m), p) = from (ground arith) in (t, (suc n, m), p),
            λ p. elim (any_cons (λ t. IsShort a i t) ty tys p) [
              | inl q ↦ let stopped = short q in absurd (ground arith)
              | inr q ↦ let rest = to q in ground arith
            ],
          )
    ]
