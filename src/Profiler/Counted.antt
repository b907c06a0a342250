-- ===== src/Profiler/Counted.antt =====
-- Counters by name, as src/utils/Profiler.cpp counts in them.
use occam.Base.{
  ℕ, zero, suc, ◌+◌, ◌%◌, Option, none, some, List, [], ◌∷◌, ◌++◌, ◌≡◌, refl, sym, ap, ◌∙◌, arith,
  inl, inr, Name, name_eq, name_eq_iff, Bool-cases, if◌then◌else◌,
}
use occam.Profiler.{bump_counter}

-- The value of a counter of `instCounters`.
unfoldable pub find_counter : Name → List (Name × ℕ) → Option ℕ
unfolding name_eq
find_counter name [] = none
find_counter name ((n, v) ∷ cs) = if name_eq name n then some v else find_counter name cs

unfoldable pub occurrences : Name → List Name → ℕ
unfolding name_eq
occurrences name [] = 0
occurrences name (n ∷ ns) = (if name_eq name n then 1 else 0) + occurrences name ns

-- One less than a number, in 32 bits, and nothing for 0.
unfoldable pub one_less : ℕ → Option ℕ
one_less zero = none
one_less (suc k) = some (k % 4294967296)

-- A counter that is met: it is new, or one more.
unfoldable pub met : Option ℕ → Option ℕ
met none = some 0
met (some v) = some ((v + 1) % 4294967296)

unfoldable pub bump_all : List Name → List (Name × ℕ) → List (Name × ℕ)
unfolding bump_counter
bump_all [] cs = cs
bump_all (n ∷ ns) cs = bump_all ns (bump_counter n 1 cs)

pub bump_all-append :
    (ms ns : List Name) (cs : List (Name × ℕ))
    → bump_all (ms ++ ns) cs ≡ bump_all ns (bump_all ms cs)
unfolding bump_all
bump_all-append [] ns cs = refl
bump_all-append (m ∷ ms) ns cs = bump_all-append ms ns (bump_counter m 1 cs)

find_counter-bump_counter :
    (name m : Name) (cs : List (Name × ℕ))
    → find_counter name (bump_counter m 1 cs)
      ≡ (if name_eq name m then met (find_counter name cs) else find_counter name cs)
unfolding find_counter bump_counter met
find_counter-bump_counter name m [] = ground (arith, Bool-cases (name_eq name m))
find_counter-bump_counter name m ((n, v) ∷ cs) = elim (Bool-cases (name_eq m n)) [
  | inl same ↦
      let agree : name_eq name m ≡ name_eq name n = ap (name_eq name) ((name_eq_iff m n).0 same) in
      ground (arith, Bool-cases (name_eq name n))
  | inr other ↦ elim (Bool-cases (name_eq name m)) [
    | inl here ↦
        let agree : name_eq m n ≡ name_eq name n =
          ap (λ x. name_eq x n) (sym ((name_eq_iff name m).0 here)) in
        ground (arith, find_counter-bump_counter name m cs)
    | inr elsewhere ↦
        ground (arith, find_counter-bump_counter name m cs, Bool-cases (name_eq name n))
  ]
]

pub empty-one_less : (name : Name) → find_counter name [] ≡ one_less 0
unfolding find_counter one_less
empty-one_less name = refl

met-one_less : (k : ℕ) → met (one_less k) ≡ one_less (suc k)
unfolding met one_less
met-one_less zero = refl
met-one_less (suc k) = ap some (omega arith)

pub find_counter-bump_all :
    (name : Name) (ns : List Name) (cs : List (Name × ℕ)) (k : ℕ)
    → find_counter name cs ≡ one_less k
    → find_counter name (bump_all ns cs) ≡ one_less (k + occurrences name ns)
unfolding bump_all occurrences
find_counter-bump_all name [] cs k h = h ∙ ap one_less (omega arith)
find_counter-bump_all name (n ∷ ns) cs k h = elim (Bool-cases (name_eq name n)) [
  | inl same ↦
      let bumped : find_counter name (bump_counter n 1 cs) ≡ one_less (suc k) =
        find_counter-bump_counter name n cs
        ∙ ap (λ b. if b then met (find_counter name cs) else find_counter name cs) same
        ∙ ap met h
        ∙ met-one_less k in
      find_counter-bump_all name ns (bump_counter n 1 cs) (suc k) bumped
      ∙ ap one_less (ground arith)
  | inr other ↦
      let bumped : find_counter name (bump_counter n 1 cs) ≡ one_less k =
        find_counter-bump_counter name n cs
        ∙ ap (λ b. if b then met (find_counter name cs) else find_counter name cs) other
        ∙ h in
      find_counter-bump_all name ns (bump_counter n 1 cs) k bumped ∙ ap one_less (ground arith)
]
