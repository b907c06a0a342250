-- ===== src/Specializer/Versions.antt =====
-- The functions that share a specialized name, src/Specializer.cpp.
use occam.Base.{
  is_empty, ◌≡◌, ◌≢◌, true, false, none, some, List, [], ◌∷◌, ◌++◌, Name, arith, name_eq_iff,
  Option-cases, inl, inr,
}
use occam.Value.{Value}
use occam.Previrt.{str, abstract, to_string}
use occam.Ir.{Function}
use occam.Specializer.{Scheme, find_function, specialized_name, specialize_function, find_or_clone}

find_function-append :
    (n : Name) (m : List Function) (g : Function)
    → find_function n m ≡ none
    → g.name ≡ n
    → find_function n (m ++ g ∷ []) ≡ some g
unfolding find_function
find_function-append n [] g h e = ground (arith, name_eq_iff g.name n)
find_function-append n (f ∷ m) g h e = ground (arith, find_function-append n m g)

module _ (hash : Name → Name) (clone : Function → Scheme → Name → Function)
    (clone_name : (f : Function) (s : Scheme) (n : Name) → (clone f s n).name ≡ n) where
  find_or_clone-again :
      (m : List Function) (f : Function) (s t : Scheme) (n : Name)
      → let (g, m') = find_or_clone hash clone m f s n in
        find_or_clone hash clone m' f t n ≡ (g, m')
  unfolding find_or_clone
  find_or_clone-again m f s t n = elim (Option-cases (find_function n m)) [
    | inl e ↦ ground (arith, find_function-append n m (clone f s n) e (clone_name f s n))
    | inr (g, e) ↦ ground arith
  ]

  -- A function specialized on two schemes under one name is one function: the second time the
  -- module does not change.
  pub specialize_function-shared :
      (m m' : List Function) (f g : Function) (s t : Scheme)
      → specialized_name hash f s ≡ specialized_name hash f t
      → specialize_function hash clone m f s ≡ some (g, m')
      → specialize_function hash clone m' f t ≡ some (g, m')
  unfolding specialize_function
  specialize_function-shared m m' f g s t e h = elim (Option-cases (specialized_name hash f s)) [
    | inl n ↦ absurd (ground arith)
    | inr (n, q) ↦ ground (arith, find_or_clone-again m f s t n)
  ]

-- Two strings with one hash give one name.
pub specialized_name-collision :
    (hash : Name → Name) (f : Function) (v w : Value) (s : Scheme) (d d' : Name)
    → abstract v ≡ str d true
    → abstract w ≡ str d' true
    → hash d ≡ hash d'
    → specialized_name hash f (some v ∷ s) ≡ specialized_name hash f (some w ∷ s)
unfolding specialized_name to_string
specialized_name-collision hash f v w s d d' p q e = ground arith

-- A function with a name gets a version if the new name is defined.
pub specialize_function-defined :
    (hash : Name → Name) (clone : Function → Scheme → Name → Function) (m : List Function)
    (f : Function) (s : Scheme)
    → is_empty f.name ≡ false
    → specialized_name hash f s ≢ none
    → (o : Function × List Function) × (specialize_function hash clone m f s ≡ some o)
unfolding specialize_function
specialize_function-defined hash clone m f s e n = elim (Option-cases (specialized_name hash f s)) [
  | inl q ↦ absurd (n q)
  | inr (t, q) ↦ (find_or_clone hash clone m f s t, ground arith)
]
