-- ===== src/CommandLine.antt =====
-- The arguments of `main` that a file fixes, src/CommandLineArguments.cpp: the reading of the file, and
-- what the `main` that the pass builds does when it runs.
pub mod Read
pub mod Tests
use occam.Base.{
  ℕ, zero, suc, ◌+◌, Bool, true, false, ◌&&◌, ◌||◌, ◌==◌, Option, none, some, List, [], ◌∷◌, ◌++◌,
  Name, c_str, if◌then◌else◌, length, is_empty, get_elem?,
}
use mathlib.Core.Option

-- `fgets` of a file's bytes: at most so many of them, up to the first line feed, and the bytes behind.
unfoldable pub fgets : ℕ → Name → Name × Name
fgets zero cs = ([], cs)
fgets (suc k) [] = ([], [])
fgets (suc k) (c ∷ cs) =
    let (line, rest) = fgets k cs in if c == 10 then (c ∷ [], cs) else (c ∷ line, rest)

-- The loop that cuts line feeds and carriage returns off the end.
unfoldable pub strip_end : Name → Name
strip_end [] = []
strip_end (c ∷ cs) =
    let rest = strip_end cs in if is_empty rest && (c == 10 || c == 13) then [] else c ∷ rest

-- The loop over the file on fuel; `strlen` ends a text at its first NUL.
unfoldable pub read_args : ℕ → Name → Option (List Name)
unfolding fgets strip_end
read_args zero cs = none
read_args (suc n) cs =
    if is_empty cs
    then some []
    else let (line, rest) = fgets 1023 cs in
      Option.map (λ l. strip_end (c_str line) ∷ l) (read_args n rest)

-- `argc` and `argv` of the pass; with no file `argc` is -1, and there are no arguments.
unfoldable pub file_args : Option Name → Option (List Name)
unfolding read_args
file_args none = some []
file_args (some cs) = read_args (suc (length cs)) cs

-- The block that the new `main` fills and hands to the old one, with its length as `argc`: the name of
-- the program, which is `argv[0]` if none is given, and the arguments. `none` is out of range.
unfoldable pub new_argv : Option Name → List Name → List Name → Option (List Name)
new_argv (some name) args argv = some (c_str name ∷ args)
new_argv none args argv = Option.map (λ program. program ∷ args) (get_elem? argv 0)
