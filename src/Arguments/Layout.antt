-- ===== src/Arguments/Layout.antt =====
-- The arguments that the old `main` gets, src/PartialCommandLineArguments.cpp.
use mathlib.Core.List.{append_assoc}
use occam.Base.{
  ℕ, zero, suc, ◌+◌, ◌-◌, ◌%◌, ◌<◌, ◌≡◌, refl, sym, subst, ap, ◌∙◌, true, false, ◌==◌, Option, none,
  some, List, [], ◌∷◌, ◌++◌, map, arith, length, get_elem?, replicate, length-append, Bool-cases,
  inl, inr, if◌then◌else◌, ltb, length-map,
}
use occam.Arguments.{store, signed_lt, store_manifest, copy_args, calls_main, returns, new_main}

module _ {ℓ} {A : Type ℓ} where
  store-append :
      (xs : List (Option A)) (y : Option A) (ys : List (Option A)) (a : A)
      → store (length xs) a (xs ++ y ∷ ys) ≡ some (xs ++ some a ∷ ys)
  unfolding store
  store-append [] y ys a = refl
  store-append (x ∷ xs) y ys a = rw (store-append xs y ys a) refl

  snoc :
      (xs : List (Option A)) (x : Option A) (ys : List (Option A))
      → (xs ++ x ∷ []) ++ ys ≡ xs ++ x ∷ ys
  snoc xs x ys = append_assoc xs (x ∷ []) ys

  store_at :
      (i : ℕ) (xs : List (Option A)) (y : Option A) (ys slots : List (Option A)) (a : A)
      → i ≡ length xs
      → slots ≡ xs ++ y ∷ ys
      → store i a slots ≡ some (xs ++ some a ∷ ys)
  store_at i xs y ys slots a e q =
      subst (λ k. store k a slots ≡ some (xs ++ some a ∷ ys)) (sym e)
        (subst (λ z. store (length xs) a z ≡ some (xs ++ some a ∷ ys)) (sym q)
          (store-append xs y ys a))

  -- The manifest fills the slots behind the first ones.
  store_manifest-fills :
      (i : ℕ) (vs : List A) (done tail slots : List (Option A))
      → i ≡ length done
      → slots ≡ done ++ (replicate (length vs) none ++ tail)
      → store_manifest i vs slots ≡ some (done ++ (map some vs ++ tail))
  unfolding store_manifest
  store_manifest-fills i [] done tail slots e q = ap some q
  store_manifest-fills i (v ∷ vs) done tail slots e q =
      let rest = replicate (length vs) none ++ tail in
      let stored = store_at i done none rest slots v e q in
      let next =
        store_manifest-fills (suc i) vs (done ++ some v ∷ []) tail (done ++ some v ∷ rest)
          (omega (arith, length-append done (some v ∷ []))) (sym (snoc done (some v) rest)) in
      let last = ap some (snoc done (some v) (map some vs ++ tail)) in
      ground (arith, stored, next, last)

  get_elem?-append : (xs ys : List A) (a : A) → get_elem? (xs ++ a ∷ ys) (length xs) ≡ some a
  get_elem?-append [] ys a = refl
  get_elem?-append (x ∷ xs) ys a = get_elem?-append xs ys a

  get_at :
      (j : ℕ) (argv xs ys : List A) (a : A)
      → j ≡ length xs
      → argv ≡ xs ++ a ∷ ys
      → get_elem? argv j ≡ some a
  get_at j argv xs ys a e q =
      subst (λ k. get_elem? argv k ≡ some a) (sym e)
        (subst (λ z. get_elem? z (length xs) ≡ some a) (sym q) (get_elem?-append xs ys a))

signed_lt-small : (a b : ℕ) → a < 2147483648 → b < 2147483648 → signed_lt a b ≡ ltb a b
unfolding signed_lt
signed_lt-small a b h k = ground arith

mod-small : (a : ℕ) → a < 4294967296 → a % 4294967296 ≡ a
mod-small a h = omega arith

module _ {ℓ} {A : Type ℓ} where
  copy_args-step :
      (n : ℕ) (argv : List A) (argc offset j : ℕ) (slots next : List (Option A)) (r : A)
      → signed_lt j argc ≡ true
      → get_elem? argv j ≡ some r
      → store ((offset + j) % 4294967296) r slots ≡ some next
      → copy_args (suc n) argv argc offset j slots
        ≡ copy_args n argv argc offset ((j + 1) % 4294967296) next
  unfolding copy_args
  copy_args-step n argv argc offset j slots next r e g q = rw (e, copy_args) (rw g (rw q refl))

  -- The loop copies what is left of `argv` behind the slots that are done, and ends.
  copy_args-fills :
      (rest pre argv : List A) (n argc offset j : ℕ) (done slots : List (Option A))
      → argv ≡ pre ++ rest
      → argc ≡ length argv
      → j ≡ length pre
      → offset + j ≡ length done
      → slots ≡ done ++ replicate (length rest) none
      → offset + argc < 2147483648
      → length rest < n
      → copy_args n argv argc offset j slots ≡ some (done ++ map some rest)
  unfolding copy_args
  copy_args-fills rest pre argv zero argc offset j done slots a c e o q h f = absurd (omega arith)
  copy_args-fills [] pre argv (suc n) argc offset j done slots a c e o q h f =
      let n0 = c ∙ ap length a ∙ length-append pre [] in
      let less : signed_lt j argc ≡ false =
        signed_lt-small j argc (omega arith) (omega arith) ∙ ground arith in
      let all = ap some q in ground (arith, less, all)
  copy_args-fills (r ∷ rest) pre argv (suc n) argc offset j done slots a c e o q h f =
      let n0 = c ∙ ap length a ∙ length-append pre (r ∷ rest) in
      let less : signed_lt j argc ≡ true =
        signed_lt-small j argc (omega arith) (omega arith) ∙ ground arith in
      let got = get_at j argv pre rest r e a in
      let place = mod-small (offset + j) (omega arith) in
      let stored =
        store_at ((offset + j) % 4294967296) done none (replicate (length rest) none) slots r
          (place ∙ o) q in
      let later =
        copy_args-fills rest (pre ++ r ∷ []) argv n argc offset ((j + 1) % 4294967296)
          (done ++ some r ∷ []) (done ++ some r ∷ replicate (length rest) none)
          (a ∙ sym (append_assoc pre (r ∷ []) rest)) c
          (mod-small (j + 1) (omega arith) ∙ omega (arith, length-append pre (r ∷ [])))
          (omega (arith, mod-small (j + 1) (omega arith), length-append done (some r ∷ [])))
          (sym (snoc done (some r) (replicate (length rest) none))) h (omega arith) in
      let last = ap some (snoc done (some r) (map some rest)) in
      copy_args-step n argv argc offset j slots (done ++ some r ∷ replicate (length rest) none) r
        less got stored
      ∙ later
      ∙ last

replicate-add {ℓ} :
    {A : Type ℓ} (a b : ℕ) (x : A) → replicate (a + b) x ≡ replicate a x ++ replicate b x
replicate-add zero b x = ap (λ n. replicate n x) (omega arith)
replicate-add (suc a) b x =
    let same : suc a + b ≡ suc (a + b) = omega arith in
    ap (λ n. replicate n x) same ∙ ap (λ l. x ∷ l) (replicate-add a b x)

-- If the count of arguments is the one that the manifest asks for, and the counts fit an `int`, the
-- loop ends, no access is out of range, and the old `main` gets the texts of the manifest and then the
-- arguments from the second one on, in a block with a slot for each of them and no more; else the
-- new `main` returns 1.
pub new_main-layout {ℓ} :
    {A : Type ℓ} (m : A) (ms : List A) (extra_argc : ℕ) (program : A) (args : List A)
    → suc (length args) + length ms < 2147483648
    → new_main (suc (suc (length args))) (m ∷ ms) extra_argc (suc (length args)) (program ∷ args)
      ≡ (if suc (length args) == (extra_argc + 1) % 4294967296
          then some
              (calls_main (suc (length ms) + length args) (map some (m ∷ ms) ++ map some args))
          else some (returns 1))
unfolding new_main
new_main-layout m ms extra_argc program args h =
    let off : length (m ∷ ms) - 1 ≡ length ms = omega arith in
    let size = suc (length ms) + length args in
    let total : (suc (length args) + length ms) % 4294967296 ≡ size =
      mod-small (suc (length args) + length ms) (omega arith) ∙ omega arith in
    let filled =
      store_manifest-fills 0 (m ∷ ms) [] (replicate (length args) none) (replicate size none) refl
        (replicate-add (suc (length ms)) (length args) none) in
    let copied =
      copy_args-fills args (program ∷ []) (program ∷ args) (suc (suc (length args)))
        (suc (length args)) (length ms) 1 (map some (m ∷ ms))
        (map some (m ∷ ms) ++ replicate (length args) none) refl refl refl
        (omega (arith, length-map ms some)) refl (omega arith) (omega arith) in
    let total' : (suc (length args) + (length (m ∷ ms) - 1)) % 4294967296 ≡ size =
      ap (λ k. (suc (length args) + k) % 4294967296) off ∙ total in
    let copied' =
      subst
        (λ k.
          copy_args (suc (suc (length args))) (program ∷ args) (suc (length args)) k 1
            (map some (m ∷ ms) ++ replicate (length args) none)
          ≡ some (map some (m ∷ ms) ++ map some args))
        (sym off) copied in
    elim (Bool-cases (suc (length args) == (extra_argc + 1) % 4294967296)) [
      | inl y ↦ ground (arith, y, total', filled, copied')
      | inr n ↦ rw (n, new_main) refl
    ]
