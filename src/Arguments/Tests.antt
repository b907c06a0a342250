-- ===== src/Arguments/Tests.antt =====
-- Runs of src/PartialCommandLineArguments.cpp on a small manifest, and the theorem at it.
use occam.Base.{◌≡◌, refl, some, List, [], ◌∷◌, Name, codes, arith}
use occam.Arguments.{populate_program_arguments, new_main, calls_main}
use occam.Arguments.Layout.{new_main-layout}

-- A line with no space is passed over, and the first line of an index stays; the quotes of a text are
-- part of it.
populate_run :
    populate_program_arguments
      (codes "1" ∷ codes "1 -v" ∷ codes "0 \"ls\"" ∷ codes "x" ∷ codes "1 -q" ∷ [])
    ≡ some ((0, codes "\"ls\"") ∷ (1, codes "-v") ∷ [], 1)
unfolding populate_program_arguments
populate_run = refl

abbrev given : List Name
given = codes "file" ∷ []

new_main-layout_example :
    new_main 3 (codes "ls" ∷ codes "-v" ∷ []) 1 2 (codes "a.out" ∷ given)
    ≡ some (calls_main 3 (some (codes "ls") ∷ some (codes "-v") ∷ some (codes "file") ∷ []))
new_main-layout_example =
    new_main-layout (codes "ls") (codes "-v" ∷ []) 1 (codes "a.out") given (omega arith)
