-- ===== src/Specializer/Names.antt =====
-- The names of specialized functions, src/Specializer.cpp.
use mathlib.Core.List.{append_assoc, append-nil}
use mathlib.Core.Option
use occam.Base.{
  ◌⊎◌, ℕ, suc, ◌+◌, ◌≡◌, refl, ap, ◌∙◌, ◌≢◌, true, false, Option, none, some, List, [], ◌∷◌, ◌++◌,
  Name, codes, name_eq, ◌==◌, if◌then◌else◌, length, All, arith, name_eq_iff, Bool-cases, inl, inr,
}
use occam.Specializer.{
  split_paren, ends_with, parse_args, specialize_name, fill_names, join, print_name, more,
}

-- A base name: no '('.
abbrev pub IsBase : Name → Type 0
IsBase [] = Unit {0}
IsBase (c ∷ cs) = (c ≢ b'(') × IsBase cs

-- Text that the parser takes as it is: no separator and no quote.
abbrev pub IsPlain : Name → Type 0
IsPlain [] = Unit {0}
IsPlain (c ∷ cs) = (c ≢ b',') × (c ≢ b')') × (c ≢ b'"') × IsPlain cs

abbrev pub IsText : Name → Type 0
IsText n = IsPlain n × (n ≢ [])

split_paren-append :
    (base rest : Name) → IsBase base → split_paren (base ++ b'(' ∷ rest) ≡ some (base, rest)
unfolding split_paren
split_paren-append [] rest h = refl
split_paren-append (c ∷ cs) rest h = ground (arith, split_paren-append cs rest h.1)

ends_with-append : (c : ℕ) (a : Name) → ends_with c (a ++ c ∷ []) ≡ true
unfolding ends_with
ends_with-append c [] = ground arith
ends_with-append c (x ∷ []) = ground arith
ends_with-append c (x ∷ y ∷ ys) = ends_with-append c (y ∷ ys)

-- The parser takes a plain text up to a separator.
abbrev after_text : Name → Name → Option (List Name)
after_text cs token =
    if more cs then Option.map (λ l. token ∷ l) (parse_args cs 0 false []) else some (token ∷ [])

==_ne : (a b : ℕ) → a ≢ b → (a == b) ≡ false
==_ne a b h = ground arith

parse_args-stop :
    (s : ℕ) (cs token : Name)
    → (s ≡ b',') ⊎ (s ≡ b')')
    → parse_args (s ∷ cs) 0 false token ≡ after_text cs token
unfolding parse_args
parse_args-stop s cs token (inl e) = rw e refl
parse_args-stop s cs token (inr e) = rw e refl

parse_args-step :
    (c : ℕ) (cs token : Name)
    → (c ≢ b',') × (c ≢ b')') × (c ≢ b'"')
    → parse_args (c ∷ cs) 0 false token ≡ parse_args cs 0 false (token ++ c ∷ [])
unfolding parse_args
parse_args-step c cs token h = rw (==_ne c b'"' h.2, ==_ne c b',' h.0, ==_ne c b')' h.1) refl

parse_args-separator :
    (s : ℕ) (n cs token : Name)
    → (s ≡ b',') ⊎ (s ≡ b')')
    → IsPlain n
    → parse_args (n ++ s ∷ cs) 0 false token ≡ after_text cs (token ++ n)
parse_args-separator s [] cs token h p = rw append-nil (parse_args-stop s cs token h)
parse_args-separator s (c ∷ n) cs token h p =
    parse_args-step c (n ++ s ∷ cs) token (p.0, p.1, p.2)
    ∙ parse_args-separator s n cs (token ++ c ∷ []) h p.3
    ∙ rw (append_assoc token (c ∷ []) n) refl

more-append : (m cs : Name) (s : ℕ) → m ≢ [] → more (m ++ s ∷ cs) ≡ true
more-append [] cs s h = absurd (h refl)
more-append (c ∷ []) cs s h = refl
more-append (c ∷ d ∷ m) cs s h = refl

join_ne_nil : (m : Name) (ns : List Name) → m ≢ [] → join (m ∷ ns) ≢ []
unfolding join
join_ne_nil m [] h e = h e
join_ne_nil [] (k ∷ ns) h e = h refl
join_ne_nil (c ∷ m) (k ∷ ns) h e = cc

more-join :
    (m : Name) (ns : List Name) → All IsText (m ∷ ns) → more (join (m ∷ ns) ++ b')' ∷ []) ≡ true
more-join m ns h = more-append (join (m ∷ ns)) [] b')' (join_ne_nil m ns h.0.1)

parse_args-join :
    (n : Name) (ns : List Name)
    → All IsText (n ∷ ns)
    → parse_args (join (n ∷ ns) ++ b')' ∷ []) 0 false [] ≡ some (n ∷ ns)
unfolding join
parse_args-join n [] h = parse_args-separator b')' n [] [] (inr refl) h.0.0
parse_args-join n (m ∷ ns) h =
    let rest = join (m ∷ ns) ++ b')' ∷ [] in
    rw (append_assoc n (b',' ∷ join (m ∷ ns)) (b')' ∷ [])) (
      parse_args-separator b',' n rest [] (inl refl) h.0.0
      ∙ rw (more-join m ns h.1, parse_args-join m ns h.1) refl)

specialize_name-parts :
    (base args : Name) (n : ℕ)
    → IsBase base
    → specialize_name (base ++ b'(' ∷ (args ++ b')' ∷ [])) n ≡ (
        if more (args ++ b')' ∷ [])
        then Option.map (λ l. (base, l)) (parse_args (args ++ b')' ∷ []) 0 false [])
        else some (base, []))
unfolding specialize_name
specialize_name-parts base args n b =
    let closed : ends_with b')' (base ++ b'(' ∷ (args ++ b')' ∷ [])) ≡ true =
      rw (← append_assoc base (b'(' ∷ args) (b')' ∷ []))
        (ends_with-append b')' (base ++ b'(' ∷ args)) in
    rw (split_paren-append base (args ++ b')' ∷ []) b, closed, specialize_name) refl

-- A printed name is read back: `specializeName` gives the base and the texts of a name that
-- `specializeFunction` made, provided that the base has no '(', and that no text is empty or has a
-- comma, a ')' or a quote.
pub specialize_name-print_name :
    (base : Name) (names : List Name) (n : ℕ)
    → IsBase base
    → All IsText names
    → specialize_name (print_name base names) n ≡ some (base, names)
unfolding specialize_name print_name
specialize_name-print_name base [] n b h = specialize_name-parts base [] n b ∙ refl
specialize_name-print_name base (m ∷ ns) n b h =
    specialize_name-parts base (join (m ∷ ns)) n b
    ∙ rw (more-join m ns h, parse_args-join m ns h) refl

-- How many of the texts are "?", and how many parameters stay.
abbrev pub holes : List Name → ℕ
holes [] = 0
holes (n ∷ ns) = (if name_eq n (codes "?") then 1 else 0) + holes ns

abbrev pub blanks {ℓ} : {A : Type ℓ} → List (Option A) → ℕ
blanks [] = 0
blanks (none ∷ s) = suc (blanks s)
blanks (some a ∷ s) = blanks s

abbrev pub IsNoHole : Option Name → Type 0
IsNoHole none = Unit {0}
IsNoHole (some t) = t ≢ codes "?"

-- If the name has as many "?" as the function has parameters, then the loop of `specializeFunction`
-- ends within it, and the new name has as many "?" as the new function has parameters: so a
-- specialized function can be specialized again.
pub fill_names-holes :
    (ns : List Name) (ts : List (Option Name))
    → holes ns ≡ length ts
    → All IsNoHole ts
    → (ms : List Name) × (fill_names ns ts ≡ some ms)
      × (holes ms ≡ blanks ts)
      × (length ms ≡ length ns)
unfolding fill_names
fill_names-holes [] [] h a = ([], refl, refl, refl)
fill_names-holes (n ∷ ns) [] h a = (n ∷ ns, refl, h, refl)
fill_names-holes [] (t ∷ ts) h a = absurd (omega arith)
fill_names-holes (n ∷ ns) (t ∷ ts) h a = elim (Bool-cases (name_eq n (codes "?"))) [
  | inl e ↦
      let (ms, q, c, l) = fill_names-holes ns ts (ground arith) a.1 in
      (text t n ∷ ms, ground arith, kept t ts ms e a.0 c, ap suc l)
  | inr e ↦
      let (ms, q, c, l) = fill_names-holes ns (t ∷ ts) (ground arith) a in
      (n ∷ ms, ground arith, ground arith, ap suc l)
]
  where
    text : Option Name → Name → Name
    text t n = elim t [ some x ↦ x | none ↦ n ]

    kept :
        (t : Option Name) (ts : List (Option Name)) (ms : List Name)
        → name_eq n (codes "?") ≡ true
        → IsNoHole t
        → holes ms ≡ blanks ts
        → holes (text t n ∷ ms) ≡ blanks (t ∷ ts)
    kept none ts ms e h c = ground arith
    kept (some x) ts ms e h c = ground (arith, name_eq_iff x (codes "?"))
