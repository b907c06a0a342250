-- ===== src/CommandLine/Read.antt =====
-- The arguments that are read back from a file, src/CommandLineArguments.cpp.
use occam.Base.{
  ℕ, zero, suc, ◌<◌, ◌≡◌, ◌≢◌, refl, ap, ◌∙◌, false, some, List, [], ◌∷◌, ◌++◌, Name, c_str,
  NulFree, c_str_self, arith, length, length-append, All, is_empty,
}
use occam.CommandLine.{fgets, strip_end, read_args, file_args}

-- A line of a file: no NUL, no line feed and no carriage return.
abbrev pub IsLine : Name → Type 0
IsLine [] = Unit {0}
IsLine (c ∷ cs) = (c ≢ 0) × (c ≢ 10) × (c ≢ 13) × IsLine cs

-- A file with these lines.
pub write_lines : List Name → Name
write_lines [] = []
write_lines (l ∷ ls) = l ++ 10 ∷ write_lines ls

fgets-line :
    (k : ℕ) (l rest : Name)
    → IsLine l
    → length l < k
    → fgets k (l ++ 10 ∷ rest) ≡ (l ++ 10 ∷ [], rest)
unfolding fgets
fgets-line zero l rest h f = absurd (omega arith)
fgets-line (suc k) [] rest h f = refl
fgets-line (suc k) (c ∷ l) rest h f = ground (arith, fgets-line k l rest h.3 (omega arith))

strip_end-line : (l : Name) → IsLine l → strip_end (l ++ 10 ∷ []) ≡ l
unfolding strip_end
strip_end-line [] h = refl
strip_end-line (c ∷ l) h = ground (arith, strip_end-line l h.3)

line-NulFree : (l : Name) → IsLine l → NulFree (l ++ 10 ∷ [])
line-NulFree [] h = (λ e. absurd (omega arith), tt)
line-NulFree (c ∷ l) h = (h.0, line-NulFree l h.3)

not-empty : (l rest : Name) → is_empty (l ++ 10 ∷ rest) ≡ false
not-empty [] rest = refl
not-empty (c ∷ l) rest = refl

read_args-step :
    (n : ℕ) (cs line rest : Name) (ls : List Name)
    → is_empty cs ≡ false
    → fgets 1023 cs ≡ (line, rest)
    → read_args n rest ≡ some ls
    → read_args (suc n) cs ≡ some (strip_end (c_str line) ∷ ls)
unfolding read_args
read_args-step n cs line rest ls e g r = ground arith

read_args-write_lines :
    (n : ℕ) (ls : List Name)
    → All (λ l. IsLine l × (length l < 1023)) ls
    → length (write_lines ls) < n
    → read_args n (write_lines ls) ≡ some ls
unfolding read_args write_lines
read_args-write_lines zero ls h f = absurd (omega arith)
read_args-write_lines (suc n) [] h f = refl
read_args-write_lines (suc n) (l ∷ ls) h f =
    let rest = write_lines ls in
    let later = read_args-write_lines n ls h.1 (omega (arith, length-append l (10 ∷ rest))) in
    let text : strip_end (c_str (l ++ 10 ∷ [])) ≡ l =
      ap strip_end (c_str_self (l ++ 10 ∷ []) (line-NulFree l h.0.0)) ∙ strip_end-line l h.0.0 in
    read_args-step n (l ++ 10 ∷ rest) (l ++ 10 ∷ []) rest ls (not-empty l rest)
      (fgets-line 1023 l rest h.0.0 h.0.1) later
    ∙ ap (λ t. some (t ∷ ls)) text

-- The lines of a file are the arguments, each without its line feed, provided that they are shorter
-- than 1023 bytes and have no NUL, line feed or carriage return; the loop ends.
pub file_args-write_lines :
    (ls : List Name)
    → All (λ l. IsLine l × (length l < 1023)) ls
    → file_args (some (write_lines ls)) ≡ some ls
unfolding file_args
file_args-write_lines ls h =
    read_args-write_lines (suc (length (write_lines ls))) ls h (omega arith)
