-- ===== src/CommandLine/Tests.antt =====
-- Runs of src/CommandLineArguments.cpp on small files, and the theorem at one.
use occam.Base.{◌≡◌, refl, none, some, [], ◌∷◌, codes, arith}
use occam.CommandLine.{file_args, new_argv, fgets}
use occam.CommandLine.Read.{IsLine, write_lines, file_args-write_lines}

-- A line of two parts of 3 bytes at most is read as two.
long_run : fgets 3 (codes "abcd") ≡ (codes "abc", codes "d")
unfolding fgets
long_run = refl

argv_run :
    new_argv none (codes "-v" ∷ []) (codes "a.out" ∷ codes "x" ∷ [])
    ≡ some (codes "a.out" ∷ codes "-v" ∷ [])
unfolding new_argv
argv_run = refl

letter : IsLine (codes "f")
letter = (λ e. omega arith, λ e. omega arith, λ e. omega arith, tt)

dash : IsLine (codes "-v")
dash = (
  λ e. omega arith,
  λ e. omega arith,
  λ e. omega arith,
  (λ e. omega arith, λ e. omega arith, λ e. omega arith, tt),
)

file_args-write_lines_example :
    file_args (some (write_lines (codes "-v" ∷ codes "f" ∷ [])))
    ≡ some (codes "-v" ∷ codes "f" ∷ [])
file_args-write_lines_example =
    file_args-write_lines (codes "-v" ∷ codes "f" ∷ [])
      ((dash, omega arith), ((letter, omega arith), tt))
