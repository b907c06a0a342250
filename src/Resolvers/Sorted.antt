-- ===== src/Resolvers/Sorted.antt =====
-- Sorted targets, and `set_intersection` on them.
use occam.Base.{
  ℕ, ◌≤◌, ◌<◌, Bool, true, false, ◌&&◌, ◌||◌, ◌==◌, ltb, List, [], ◌∷◌, ◌≡◌, refl, arith,
  if◌then◌else◌, Bool-cases, inl, inr, All, ap, ◌∙◌,
}
use occam.Ir.{Function}
use occam.Policy.{has_address}
use occam.Resolvers.{
  insert_sorted, drop_below, take_match, intersection, sort_functions, insert_by_name, sort_by_name,
}

-- No address of the targets is below this one.
abbrev pub IsFloor : ℕ → List Function → Type 0
IsFloor a fs = All (λ (g : Function). a ≤ g.address) fs

abbrev pub IsSorted : List Function → Type 0
IsSorted [] = Unit {0}
IsSorted (f ∷ fs) = IsFloor f.address fs × IsSorted fs

module _ (a : ℕ) where
  pub has_address-insert_sorted :
      (f : Function) (fs : List Function)
      → has_address a (insert_sorted f fs) ≡ (f.address == a || has_address a fs)
  unfolding insert_sorted has_address
  has_address-insert_sorted f [] = ground arith
  has_address-insert_sorted f (g ∷ gs) = ground (arith, has_address-insert_sorted f gs)

  pub has_address-sort_functions :
      (fs : List Function) → has_address a (sort_functions fs) ≡ has_address a fs
  unfolding sort_functions has_address
  has_address-sort_functions [] = refl
  has_address-sort_functions (f ∷ fs) =
      ground (arith, has_address-insert_sorted f (sort_functions fs), has_address-sort_functions fs)

  has_address-insert_by_name :
      (f : Function) (fs : List Function)
      → has_address a (insert_by_name f fs) ≡ (f.address == a || has_address a fs)
  unfolding insert_by_name has_address
  has_address-insert_by_name f [] = ground arith
  has_address-insert_by_name f (g ∷ gs) = ground (arith, has_address-insert_by_name f gs)

  pub has_address-sort_by_name :
      (fs : List Function) → has_address a (sort_by_name fs) ≡ has_address a fs
  unfolding sort_by_name has_address
  has_address-sort_by_name [] = refl
  has_address-sort_by_name (f ∷ fs) =
      ground (arith, has_address-insert_by_name f (sort_by_name fs), has_address-sort_by_name fs)

  pub has_address-drop_below :
      (b : ℕ) (fs : List Function) → b ≤ a → has_address a (drop_below b fs) ≡ has_address a fs
  unfolding drop_below has_address
  has_address-drop_below b [] h = refl
  has_address-drop_below b (f ∷ fs) h = ground (arith, has_address-drop_below b fs h)

  IsFloor-missing : (b : ℕ) (fs : List Function) → a < b → IsFloor b fs → has_address a fs ≡ false
  unfolding has_address
  IsFloor-missing b [] h k = refl
  IsFloor-missing b (f ∷ fs) h k = ground (arith, IsFloor-missing b fs h)

IsFloor-insert_sorted :
    (a : ℕ) (f : Function) (fs : List Function)
    → a ≤ f.address
    → IsFloor a fs
    → IsFloor a (insert_sorted f fs)
unfolding insert_sorted
IsFloor-insert_sorted a f [] h k = (h, tt)
IsFloor-insert_sorted a f (g ∷ gs) h k = elim (Bool-cases (ltb f.address g.address)) [
  | inl below ↦ ground arith
  | inr above ↦ ground (arith, IsFloor-insert_sorted a f gs h k.1)
]

IsFloor-lower : (a b : ℕ) (fs : List Function) → a ≤ b → IsFloor b fs → IsFloor a fs
IsFloor-lower a b [] h k = tt
IsFloor-lower a b (f ∷ fs) h k = (omega (arith, k.0), IsFloor-lower a b fs h k.1)

pub insert_sorted-IsSorted :
    (f : Function) (fs : List Function) → IsSorted fs → IsSorted (insert_sorted f fs)
unfolding insert_sorted
insert_sorted-IsSorted f [] s = (tt, tt)
insert_sorted-IsSorted f (g ∷ gs) s = elim (Bool-cases (ltb f.address g.address)) [
  | inl below ↦
      let less : f.address ≤ g.address = ground arith in
      let floor = IsFloor-lower f.address g.address gs less s.0 in
      let whole : IsSorted (f ∷ g ∷ gs) = ((less, floor), s) in ground arith
  | inr above ↦
      let less : g.address ≤ f.address = ground arith in
      let floor = IsFloor-insert_sorted g.address f gs less s.0 in
      let rest = insert_sorted-IsSorted f gs s.1 in ground arith
]

pub sort_functions-IsSorted : (fs : List Function) → IsSorted (sort_functions fs)
unfolding sort_functions
sort_functions-IsSorted [] = tt
sort_functions-IsSorted (f ∷ fs) =
    insert_sorted-IsSorted f (sort_functions fs) (sort_functions-IsSorted fs)

-- What is left of a sorted range behind `drop_below` and `take_match`.
drop_below-IsSorted :
    (b : ℕ) (fs : List Function)
    → IsSorted fs
    → IsSorted (drop_below b fs) × IsFloor b (drop_below b fs)
unfolding drop_below
drop_below-IsSorted b [] s = (tt, tt)
drop_below-IsSorted b (f ∷ fs) s = elim (Bool-cases (ltb f.address b)) [
  | inl below ↦ let rest = drop_below-IsSorted b fs s.1 in ground arith
  | inr above ↦
      let more : b ≤ f.address = ground arith in
      let floor = IsFloor-lower b f.address fs more s.0 in ground arith
]

take_match-IsSorted :
    (f : Function) (fs : List Function) → IsSorted fs → IsSorted (take_match f fs).1
unfolding take_match
take_match-IsSorted f [] s = tt
take_match-IsSorted f (g ∷ gs) s = elim (Bool-cases (f.address == g.address)) [
  | inl same ↦ let rest = s.1 in ground arith
  | inr other ↦ ground arith
]

take_match-same :
    (f : Function) (fs : List Function)
    → IsFloor f.address fs
    → IsSorted fs
    → (take_match f fs).0 ≡ has_address f.address fs
unfolding take_match has_address
take_match-same f [] h s = refl
take_match-same f (g ∷ gs) h s = ground (arith, IsFloor-missing f.address g.address gs)

take_match-larger :
    (a : ℕ) (f : Function) (fs : List Function)
    → f.address < a
    → has_address a (take_match f fs).1 ≡ has_address a fs
unfolding take_match has_address
take_match-larger a f [] h = refl
take_match-larger a f (g ∷ gs) h = ground arith

take_match-missed :
    (f : Function) (fs : List Function) → (take_match f fs).0 ≡ false → (take_match f fs).1 ≡ fs
unfolding take_match
take_match-missed f [] h = refl
take_match-missed f (g ∷ gs) h = ground arith

has_address-optional :
    (a : ℕ) (b : Bool) (f : Function) (fs : List Function)
    → has_address a (if b then f ∷ fs else fs) ≡ (b && f.address == a || has_address a fs)
unfolding has_address
has_address-optional a false f fs = refl
has_address-optional a true f fs = ground arith

-- The intersection of two sorted ranges has the functions of both.
pub has_address-intersection :
    (a : ℕ) (fs gs : List Function)
    → IsSorted fs
    → IsSorted gs
    → has_address a (intersection fs gs) ≡ (has_address a fs && has_address a gs)
unfolding intersection has_address
has_address-intersection a [] gs s t = refl
has_address-intersection a (f ∷ fs) gs s t =
    let (sorted, floor) = drop_below-IsSorted f.address gs t in
    let below = drop_below f.address gs in
    let rest = take_match-IsSorted f below sorted in
    let more = has_address-intersection a fs (take_match f below).1 s.1 rest in
    let same = take_match-same f below floor sorted in
    let matched = take_match f below in
    let split = has_address-optional a matched.0 f (intersection fs matched.1) in
    elim (Bool-cases (f.address == a)) [
      | inl here ↦
          let kept = has_address-drop_below a f.address gs (ground arith) in
          let key : f.address ≡ a = ground arith in
          let found : matched.0 ≡ has_address a gs =
            same ∙ ap (λ (x : ℕ). has_address x below) key ∙ kept in
          elim (Bool-cases matched.0) [
            | inl hit ↦ split ∙ ground arith
            | inr missed ↦
                let left : has_address a matched.1 ≡ has_address a below =
                  ap (has_address a) (take_match-missed f below missed) in
                split ∙ ground arith
          ]
      | inr there ↦ elim (Bool-cases (ltb f.address a)) [
        | inl larger ↦
            let kept = has_address-drop_below a f.address gs (ground arith) in
            let left = take_match-larger a f below (ground arith) in split ∙ ground arith
        | inr smaller ↦
            let none_left = IsFloor-missing a f.address fs (ground arith) s.0 in
            split ∙ ground arith
      ]
    ]
