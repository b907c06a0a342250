-- ===== src/Policy/Bounded.antt =====
-- How often the bounded policy lets a function be copied, src/BoundedSpecPolicy.cpp.
use occam.Base.{
  ℕ, suc, ◌+◌, ◌-◌, ◌%◌, ◌≤◌, ◌<◌, ◌≡◌, refl, ap, ◌∙◌, Bool, true, false, ◌&&◌, Option, none, some,
  List, [], ◌∷◌, ◌++◌, arith, length, if◌then◌else◌, Bool-cases, Option-cases, inl, inr, ◌==◌, Name,
}
use native.Mathlib.Nat.{mod-eq_of_lt}
use occam.Previrt.{PrevirtType}
use occam.Interface.{ComponentInterface}
use occam.Ir.{Function, CallSite}
use occam.Specializer.Names.{IsBase}
use occam.Policy.{
  Answer, Policy, bounded, bound_answer, Counters, counter, set_counter, add_counter, unsigned_mod,
  occam_spec, base_name, drop_prefix, before_paren,
}

-- A question to a policy, and the function that it is about.
pub data Question : Type 0 where
  at_call : CallSite → Question
  at_interface : Function → List PrevirtType → ComponentInterface → Question

abbrev pub asks_about : Question → Option Function
asks_about (at_call cs) = cs.callee
asks_about (at_interface f args i) = some f

abbrev pub is_about : ℕ → Question → Bool
is_about a q = elim (asks_about q) [ none ↦ false | some f ↦ f.address == a ]

module _ {S : Type 0} where
  unfoldable pub answer : Policy S → Question → S → Bool × S
  answer p (at_call cs) s = let r = p.intra cs s in (r.0.specialize, r.1)
  answer p (at_interface f args i) s = let r = p.inter f args i s in (r.0.specialize, r.1)

  -- How many of the questions about the function at an address are answered by yes.
  unfoldable pub granted : Policy S → ℕ → List Question → S → ℕ
  unfolding answer
  granted p a [] s = 0
  granted p a (q ∷ qs) s =
      let r = answer p q s in (if is_about a q && r.0 then 1 else 0) + granted p a qs r.1

-- The counter of a function, 0 at first.
unfoldable pub copies : ℕ → Counters → ℕ
unfolding counter
copies a m = elim (counter a m) [ some n ↦ n | none ↦ 0 ]

counter-set_counter :
    (a b n : ℕ) (m : Counters)
    → counter b (set_counter a n m) ≡ (if a == b then some n else counter b m)
unfolding counter set_counter
counter-set_counter a b n [] = refl
counter-set_counter a b n ((c, k) ∷ m) = ground (arith, counter-set_counter a b n m)

-- A counter below the largest number grows by one; the others stay.
add_counter-copies :
    (a b : ℕ) (m : Counters)
    → suc (copies b m) < unsigned_mod
    → ((a == b) ≡ true → (add_counter a m).0 ≡ suc (copies b m))
      × (copies b (add_counter a m).1 ≡ (if a == b then suc (copies b m) else copies b m))
unfolding add_counter copies
add_counter-copies a b m h = elim (Option-cases (counter a m)) [
  | inl n ↦ ground (arith, counter-set_counter a b 1 m)
  | inr (k, q) ↦ elim (Bool-cases (a == b)) [
    | inl e ↦
        let small : (k + 1) % unsigned_mod ≡ k + 1 = mod-eq_of_lt (ground arith) in
        ground (arith, small, counter-set_counter a b ((k + 1) % unsigned_mod) m)
    | inr e ↦ ground (arith, counter-set_counter a b ((k + 1) % unsigned_mod) m)
  ]
]

-- One question: the counter of the function grows by one at most, and a yes takes one of what is
-- left of the threshold.
bound_answer-copies {ℓ} :
    {S : Type 0} {A : Type ℓ} (t a b : ℕ) (r : Answer A × S) (m : Counters)
    → suc (copies b m) < unsigned_mod
    → let q = bound_answer t a r m in
      (copies b q.1.1 ≤ suc (copies b m))
      × ((if (a == b) && q.0.specialize then 1 else 0) + (t - copies b q.1.1) ≤ t - copies b m)
unfolding bound_answer
bound_answer-copies t a b r m h = elim (Bool-cases r.0.specialize) [
  | inl e ↦ ground (arith, add_counter-copies a b m h)
  | inr e ↦ ground arith
]

module _ {S : Type 0} (t : ℕ) (sub : Policy S) where
  answer-copies :
      (b : ℕ) (q : Question) (s : S × Counters)
      → suc (copies b s.1) < unsigned_mod
      → let r = answer (bounded t sub) q s in
        (copies b r.1.1 ≤ suc (copies b s.1))
        × ((if is_about b q && r.0 then 1 else 0) + (t - copies b r.1.1) ≤ t - copies b s.1)
  unfolding answer bounded
  answer-copies b (at_call cs) s h = elim (Option-cases cs.callee) [
    | inl n ↦ ground arith
    | inr (f, e) ↦ ground (arith, bound_answer-copies t f.address b (sub.intra cs s.0) s.1 h)
  ]
  answer-copies b (at_interface f args i) s h =
      ground (arith, bound_answer-copies t f.address b (sub.inter f args i s.0) s.1 h)

  -- In a run of fewer questions than `unsigned` can count, the bounded policy lets a function be
  -- specialized at most as often as the threshold exceeds its counter, whatever the policy below.
  pub granted-le :
      (b : ℕ) (qs : List Question) (s : S × Counters)
      → copies b s.1 + length qs < unsigned_mod
      → granted (bounded t sub) b qs s ≤ t - copies b s.1
  unfolding granted
  granted-le b [] s h = omega arith
  granted-le b (q ∷ qs) s h =
      let step = answer-copies b q s (omega arith) in
      omega (
        arith,
        step.0,
        step.1,
        granted-le b qs (answer (bounded t sub) q s).1 (omega (arith, step.0)),
      )

drop_prefix-append : (p n : Name) → drop_prefix p (p ++ n) ≡ n
unfolding drop_prefix
drop_prefix-append [] n = refl
drop_prefix-append (c ∷ p) n = drop_prefix-append p n

before_paren-append : (n rest : Name) → IsBase n → before_paren (n ++ b'(' ∷ rest) ≡ n
unfolding before_paren
before_paren-append [] rest h = refl
before_paren-append (c ∷ n) rest h = ground (arith, before_paren-append n rest h.1)

-- The constructor finds the function that a specialized function was made from: the text between
-- the prefix and the first '(' is its name, provided that this name has no '('.
pub base_name-append : (n rest : Name) → IsBase n → base_name (occam_spec ++ (n ++ b'(' ∷ rest)) ≡ n
unfolding base_name
base_name-append n rest h =
    ap before_paren (drop_prefix-append occam_spec (n ++ b'(' ∷ rest))
    ∙ before_paren-append n rest h
