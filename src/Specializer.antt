-- ===== src/Specializer.antt =====
-- Specialized functions and their call sites, src/Specializer.cpp.
pub mod Names
pub mod Versions
pub mod Calls
pub mod Tests
use occam.Base.{
  ℕ, zero, suc, ◌+◌, Bool, true, false, not, ◌&&◌, ◌||◌, Option, none, some, List, [], ◌∷◌, ◌++◌,
  Name, codes, name_eq, is_empty, ◌==◌, leb, if◌then◌else◌, length, replicate, get_elem?,
}
use occam.Value.{Value}
use occam.Previrt.{abstract, to_string}
use occam.Ir.{Function, CallSite, Kind}
use mathlib.Core.Option

-- `specScheme`: the constant of each specialized parameter, `none` (a null pointer) elsewhere.
abbrev pub Scheme : Type 0
Scheme = List (Option Value)

-- The text before the first '(' and the text behind it.
unfoldable pub split_paren : Name → Option (Name × Name)
split_paren [] = none
split_paren (c ∷ cs) =
    if c == b'('
    then some ([], cs)
    else Option.map (λ (p : Name × Name). (c ∷ p.0, p.1)) (split_paren cs)

unfoldable pub ends_with : ℕ → Name → Bool
ends_with c [] = false
ends_with c (x ∷ []) = x == c
ends_with c (x ∷ y ∷ ys) = ends_with c (y ∷ ys)

-- `st < fn.length() - 1`.
abbrev more : Name → Bool
more [] = false
more (c ∷ []) = false
more (c ∷ d ∷ cs) = true

-- The loops of `specializeName` from position `idx`, with the characters to step over, `in_str` and
-- the text since `st`; `none` is a read past the end. A backslash in a string steps over two
-- characters more.
unfoldable pub parse_args : Name → ℕ → Bool → Name → Option (List Name)
parse_args [] k in_str token = none
parse_args (c ∷ cs) (suc k) in_str token = parse_args cs k in_str (token ++ c ∷ [])
parse_args (c ∷ cs) zero in_str token =
    let onward = parse_args cs 0 in_str (token ++ c ∷ []) in
    let flipped = parse_args cs 0 (not in_str) (token ++ c ∷ []) in
    let escaped = parse_args cs 2 in_str (token ++ c ∷ []) in
    let next = parse_args cs 0 in_str [] in
    if c == b'"'
    then flipped
    else if not in_str
    then if c == b',' || c == b')'
      then if more cs then Option.map (λ l. token ∷ l) next else some (token ∷ [])
      else onward
    else if c == 0x5c
    then escaped
    else onward

-- `specializeName`: the base name and the texts of the arguments.
unfoldable pub specialize_name : Name → ℕ → Option (Name × List Name)
unfolding split_paren ends_with parse_args
specialize_name fn n = elim (split_paren fn) [
  | some (base, rest) ↦
      if ends_with b')' fn
      then if more rest
        then Option.map (λ l. (base, l)) (parse_args rest 0 false [])
        else some (base, [])
      else some (codes "__occam_spec." ++ fn, replicate n (codes "?"))
  | none ↦ some (codes "__occam_spec." ++ fn, replicate n (codes "?"))
]

-- The loop of `specializeFunction` over the parameters: each takes the next "?" of `argNames`, and
-- writes the text of its constant there. `none` is a read past the end.
unfoldable pub fill_names : List Name → List (Option Name) → Option (List Name)
fill_names ns [] = some ns
fill_names [] (a ∷ ts) = none
fill_names (n ∷ ns) (a ∷ ts) =
    let used = fill_names ns ts in
    let kept = fill_names ns (a ∷ ts) in
    if name_eq n (codes "?")
    then Option.map (λ l. elim a [ some t ↦ t | none ↦ n ] ∷ l) used
    else Option.map (λ l. n ∷ l) kept

unfoldable pub join : List Name → Name
join [] = []
join (n ∷ []) = n
join (n ∷ m ∷ ns) = n ++ b',' ∷ join (m ∷ ns)

-- The name of the specialized function.
unfoldable pub print_name : Name → List Name → Name
unfolding join
print_name base names = base ++ b'(' ∷ (join names ++ b')' ∷ [])

unfoldable pub find_function : Name → List Function → Option Function
find_function n [] = none
find_function n (g ∷ gs) = if name_eq g.name n then some g else find_function n gs

-- Over the text of LLVM's `HashString`.
module _ (hash : Name → Name) where
  -- The texts of the constants; the outer `none` is the undefined `std::string(NULL)`.
  unfoldable pub scheme_texts : Scheme → Option (List (Option Name))
  scheme_texts [] = some []
  scheme_texts (none ∷ s) = Option.map (λ l. none ∷ l) (scheme_texts s)
  scheme_texts (some v ∷ s) = elim (to_string hash (abstract v)) [
    | none ↦ none
    | some t ↦ Option.map (λ l. some t ∷ l) (scheme_texts s)
  ]

  -- `baseName` as `specializeFunction` builds it.
  unfoldable pub specialized_name : Function → Scheme → Option Name
  unfolding scheme_texts specialize_name fill_names print_name
  specialized_name f s = elim (specialize_name f.name f.arg_size) [
    | none ↦ none
    | some (base, names) ↦ elim (scheme_texts s) [
      | none ↦ none
      | some ts ↦ Option.map (print_name base) (fill_names names ts)
    ]
  ]

-- Over `HashString` and `CloneFunction`, the latter under the name that the clone then gets.
module _ (hash : Name → Name) (clone : Function → Scheme → Name → Function) where
  find_or_clone : List Function → Function → Scheme → Name → Function × List Function
  unfolding find_function
  find_or_clone m f s n = elim (find_function n m) [
    | some g ↦ (g, m)
    | none ↦ (clone f s n, m ++ clone f s n ∷ [])
  ]

  -- `specializeFunction` in a module with these functions: an old function of the name, or a clone,
  -- and the functions of the module afterwards. `none`: the function has no name, or undefined.
  unfoldable pub specialize_function :
      List Function → Function → Scheme → Option (Function × List Function)
  unfolding specialized_name find_or_clone
  specialize_function m f s =
      if is_empty f.name then none else Option.map (find_or_clone m f s) (specialized_name hash f s)

-- `getArgOperand(perm[j])` for each j; `none` is out of range.
unfoldable pub pick : List ℕ → List Value → Option (List Value)
pick [] vs = some []
pick (p ∷ ps) vs = elim (get_elem? vs p) [
  | none ↦ none
  | some v ↦ Option.map (λ l. v ∷ l) (pick ps vs)
]

-- The assertion of `specializeCallSite` on the number of operands.
unfoldable pub takes_operands : Function → List ℕ → Bool
takes_operands g perm =
    if g.is_var_arg then leb g.arg_size (length perm) else g.arg_size == length perm

-- `specializeCallSite`: the new instruction, with its calling convention; `none` is a failed assertion
-- or a read out of range.
unfoldable pub specialize_call_site : CallSite → Function → List ℕ → Option CallSite
unfolding pick takes_operands
specialize_call_site cs g perm =
    if not (takes_operands g perm) then none else elim (pick perm cs.args) [
      | none ↦ none
      | some ops ↦ some (record {
        kind = cs.kind;
        name = cs.name;
        callee = some g;
        args = ops;
        calling_conv = g.calling_conv;
      })
    ]

-- `argPerm`: the positions of the parameters that are not specialized, from `from` on.
unfoldable pub arg_perm : ℕ → Scheme → List ℕ
arg_perm from [] = []
arg_perm from (none ∷ s) = from ∷ arg_perm (suc from) s
arg_perm from (some v ∷ s) = arg_perm (suc from) s
