-- ===== src/Profiler/Shifts.antt =====
-- The test for oversized shifts in src/utils/Profiler.cpp.
use occam.Base.{
  ℕ, zero, suc, ◌+◌, ◌-◌, ◌^◌, ◌%◌, ◌<◌, ◌≤◌, Bool, true, false, ltb, ◌≡◌, refl, sym, ap, ◌∙◌,
  arith, inl, inr, ◌⊎◌, ◌↔◌, Bool-cases, if◌then◌else◌,
}
use native.Mathlib.Nat.{mod-eq_of_lt, add-mod_right, two-pow-succ}
use occam.Profiler.{safe_left_shift, unsafe_left_shift, counter_code}
use occam.Profiler.Visits.{constant_int, slt, count_shift}

-- A number below twice a bound, moved by the bound.
moved :
    (n h : ℕ)
    → n < h + h
    → ((n < h) × ((n + h) % (h + h) ≡ n + h)) ⊎ ((h ≤ n) × ((n + h) % (h + h) ≡ n - h))
moved n h less = elim (Bool-cases (ltb n h)) [
  | inl low ↦ inl (ground arith, mod-eq_of_lt (ground arith))
  | inr high ↦
      let same : n + h ≡ (n - h) + (h + h) = ground arith in
      inr (
        ground arith,
        ap (λ x. x % (h + h)) same ∙ add-mod_right (n - h) (h + h) ∙ mod-eq_of_lt (ground arith),
      )
]

double : (w : ℕ) → 0 < w → 2 ^ w ≡ 2 ^ (w - 1) + 2 ^ (w - 1)
double zero h = absurd (omega arith)
double (suc w) h =
    let same : suc w - 1 ≡ w = omega arith in two-pow-succ w ∙ ap (λ x. 2 ^ x + 2 ^ x) (sym same)

-- The bound of the comparison is the width itself.
slt-width :
    (n w : ℕ)
    → 0 < w
    → w < 2 ^ (w - 1)
    → slt w n (w % 2 ^ w) ≡ ltb ((n + 2 ^ (w - 1)) % (2 ^ (w - 1) + 2 ^ (w - 1))) (w + 2 ^ (w - 1))
unfolding slt
slt-width n w positive fits =
    let h = 2 ^ (w - 1) in
    let wide = double w positive in
    let inner : w % (h + h) ≡ w = mod-eq_of_lt (omega arith) in
    let outer : (w + h) % (h + h) ≡ w + h = mod-eq_of_lt (omega arith) in
    ap (λ x. ltb ((n + h) % x) ((w % x + h) % x)) wide
    ∙ ap (λ y. ltb ((n + h) % (h + h)) ((y + h) % (h + h))) inner
    ∙ ap (λ z. ltb ((n + h) % (h + h)) z) outer

slt-width_iff :
    (n w : ℕ)
    → 0 < w
    → w < 2 ^ (w - 1)
    → n < 2 ^ w
    → (slt w n (w % 2 ^ w) ≡ true) ↔ ((n < w) ⊎ (2 ^ (w - 1) ≤ n))
slt-width_iff n w positive fits bits =
    let h = 2 ^ (w - 1) in
    let test = slt-width n w positive fits in
    elim (moved n h (omega (arith, double w positive))) [
      | inl (low, place) ↦
          let both : slt w n (w % 2 ^ w) ≡ ltb (n + h) (w + h) =
            test ∙ ap (λ x. ltb x (w + h)) place in
          (
            λ safe. inl (ground arith),
            λ either. elim either [ inl less ↦ ground arith | inr high ↦ absurd (omega arith) ],
          )
      | inr (high, place) ↦
          let both : slt w n (w % 2 ^ w) ≡ ltb (n - h) (w + h) =
            test ∙ ap (λ x. ltb x (w + h)) place in
          let wide = double w positive in (λ safe. inr high, λ either. both ∙ ground arith)
    ]

counted_safe :
    (b : Bool) → (if b then safe_left_shift else unsafe_left_shift) ≡ safe_left_shift → b ≡ true
unfolding counter_code
counted_safe true h = refl
counted_safe false h =
    let codes : counter_code unsafe_left_shift ≡ counter_code safe_left_shift = ap counter_code h in
    absurd (ground arith)

-- A shift by a constant amount is counted as safe just when the amount is below the width, or so large
-- that it is negative when it is read with a sign; the width is positive and its own sign bit is unset.
pub count_shift-safe :
    (n w : ℕ)
    → 0 < w
    → w < 2 ^ (w - 1)
    → n < 2 ^ w
    → (count_shift (constant_int n w) ≡ safe_left_shift) ↔ ((n < w) ⊎ (2 ^ (w - 1) ≤ n))
unfolding count_shift
count_shift-safe n w positive fits bits =
    let (to, back) = slt-width_iff n w positive fits bits in
    (
      λ safe. to (counted_safe (slt w n (w % 2 ^ w)) safe),
      λ either. ap (λ b. if b then safe_left_shift else unsafe_left_shift) (back either),
    )
