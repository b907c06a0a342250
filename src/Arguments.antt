-- ===== src/Arguments.antt =====
-- The arguments of `main` that a manifest fixes, src/PartialCommandLineArguments.cpp: the reading of
-- the manifest, and what the `main` that the pass builds does when it runs. An `int` is kept as its 32
-- bits.
pub mod Layout
pub mod Tests
use occam.Base.{
  ℕ, zero, suc, ◌+◌, ◌-◌, ◌*◌, ◌%◌, Bool, true, false, not, ◌&&◌, ◌||◌, ◌==◌, Option, none, some,
  List, [], ◌∷◌, ◌++◌, Name, if◌then◌else◌, ltb, leb, length, get_elem?, replicate, is_empty,
}
use mathlib.Core.Option

-- The text before the first space and the text behind it.
unfoldable pub split_space : Name → Option (Name × Name)
split_space [] = none
split_space (c ∷ cs) =
    if c == b' '
    then some ([], cs)
    else Option.map (λ (p : Name × Name). (c ∷ p.0, p.1)) (split_space cs)

abbrev is_space : ℕ → Bool
is_space c = c == 32 || (leb 9 c && leb c 13)

abbrev is_digit : ℕ → Bool
is_digit c = leb 48 c && leb c 57

unfoldable pub skip_space : Name → Name
skip_space [] = []
skip_space (c ∷ cs) = if is_space c then skip_space cs else c ∷ cs

-- The number that the digits at the start make, after the number so far.
unfoldable pub read_digits : ℕ → Name → ℕ
read_digits n [] = n
read_digits n (c ∷ cs) = if is_digit c then read_digits (n * 10 + (c - 48)) cs else n

unfoldable pub starts_with_digit : Name → Bool
starts_with_digit [] = false
starts_with_digit (c ∷ cs) = is_digit c

-- `std::stoi` of what follows the sign; `none` is an exception: no digit, or out of range.
unfoldable pub stoi_digits : Bool → Name → Option ℕ
unfolding read_digits starts_with_digit
stoi_digits negative cs =
    if not (starts_with_digit cs)
    then none
    else if negative
    then if leb (read_digits 0 cs) 2147483648
      then some ((4294967296 - read_digits 0 cs) % 4294967296)
      else none
    else if leb (read_digits 0 cs) 2147483647
    then some (read_digits 0 cs)
    else none

unfoldable pub stoi_sign : Name → Option ℕ
unfolding stoi_digits
stoi_sign [] = none
stoi_sign (c ∷ cs) =
    if c == b'-'
    then stoi_digits true cs
    else if c == b'+'
    then stoi_digits false cs
    else stoi_digits false (c ∷ cs)

unfoldable pub stoi : Name → Option ℕ
unfolding stoi_sign skip_space
stoi s = stoi_sign (skip_space s)

-- `parse_input_line`: the inner `none` is a line that is passed over, the outer one an exception.
unfoldable pub parse_input_line : Name → Option (Option (ℕ × Name))
unfolding split_space stoi
parse_input_line line = elim (split_space line) [
  | none ↦ some none
  | some (n, s) ↦ Option.map (λ i. some (i, s)) (stoi n)
]

-- `std::map::insert`: the keys ascend, and an old entry stays.
unfoldable pub insert_arg : ℕ → Name → List (ℕ × Name) → List (ℕ × Name)
insert_arg i v [] = (i, v) ∷ []
insert_arg i v ((j, w) ∷ m) =
    let rest = insert_arg i v m in
    if ltb i j then (i, v) ∷ (j, w) ∷ m else if i == j then (j, w) ∷ m else (j, w) ∷ rest

unfoldable pub read_lines : List Name → List (ℕ × Name) → Option (List (ℕ × Name))
unfolding parse_input_line insert_arg
read_lines [] m = some m
read_lines (l ∷ ls) m = elim (parse_input_line l) [
  | none ↦ none
  | some o ↦ elim o [ none ↦ read_lines ls m | some (i, v) ↦ read_lines ls (insert_arg i v m) ]
]

-- `populate_program_arguments` on the lines of the file: the map and `argc`.
unfoldable pub populate_program_arguments : List Name → Option (List (ℕ × Name) × ℕ)
unfolding read_lines stoi
populate_program_arguments [] = none
populate_program_arguments (first ∷ ls) = elim (stoi first) [
  | none ↦ none
  | some argc ↦ Option.map (λ m. (m, argc)) (read_lines ls [])
]

-- A pointer that is stored in a block of pointers; `none` is out of range.
unfoldable pub store {ℓ} : {A : Type ℓ} → ℕ → A → List (Option A) → Option (List (Option A))
store i a [] = none
store zero a (x ∷ xs) = some (some a ∷ xs)
store (suc i) a (x ∷ xs) = Option.map (λ ys. x ∷ ys) (store i a xs)

-- `icmp slt` on 32 bits.
unfoldable pub signed_lt : ℕ → ℕ → Bool
signed_lt a b = ltb ((a + 2147483648) % 4294967296) ((b + 2147483648) % 4294967296)

-- The stores of the manifest from index `i` on.
unfoldable pub store_manifest {ℓ} :
    {A : Type ℓ} → ℕ → List A → List (Option A) → Option (List (Option A))
unfolding store
store_manifest i [] slots = some slots
store_manifest i (v ∷ vs) slots = elim (store i v slots) [
  | none ↦ none
  | some next ↦ store_manifest (suc i) vs next
]

-- The loop of the new `main` on fuel: from `j` on, `argv[j]` is stored at `j` and the offset.
unfoldable pub copy_args {ℓ} :
    {A : Type ℓ} → ℕ → List A → ℕ → ℕ → ℕ → List (Option A) → Option (List (Option A))
unfolding signed_lt store
copy_args zero argv argc offset j slots = none
copy_args (suc n) argv argc offset j slots =
    if not (signed_lt j argc) then some slots else elim (get_elem? argv j) [
      | none ↦ none
      | some a ↦ elim (store ((offset + j) % 4294967296) a slots) [
        | none ↦ none
        | some next ↦ copy_args n argv argc offset ((j + 1) % 4294967296) next
      ]
    ]

-- What the new `main` ends in: a return, or a call of the old one with `argc` and the block.
pub data Outcome {ℓ} (A : Type ℓ) : Type ℓ where
  returns : ℕ → Outcome A
  calls_main : ℕ → List (Option A) → Outcome A

-- The new `main`, over the pointers to the texts of the manifest, its `extra_argc`, and `argc` and
-- `argv`; `none` is an access out of range, or no end within the fuel.
unfoldable pub new_main {ℓ} : {A : Type ℓ} → ℕ → List A → ℕ → ℕ → List A → Option (Outcome A)
unfolding store_manifest copy_args
new_main fuel manifest extra_argc argc argv =
    if not (argc == (extra_argc + 1) % 4294967296)
    then some (returns 1)
    else let new_argc = (argc + (length manifest - 1)) % 4294967296 in
      elim (store_manifest 0 manifest (replicate new_argc none)) [
        | none ↦ none
        | some slots ↦
            Option.map (calls_main new_argc)
              (copy_args fuel argv argc (length manifest - 1) 1 slots)
      ]
