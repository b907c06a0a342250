-- ===== src/Interface.antt =====
-- The interface of a module: the calls that other modules make, with abstract arguments.
-- `CallInfo` and `ComponentInterface` of src/PrevirtualizeInterfaces.cpp.
pub mod Ids
pub mod Maps
pub mod Missed
pub mod Serial
pub mod Tests
use occam.Base.{
  ℕ, suc, ◌+◌, ◌%◌, Bool, true, false, ◌&&◌, Option, none, some, List, [], ◌∷◌, ◌++◌, map, Name,
  name_eq, if◌then◌else◌, is_some, length, replicate,
}
use mathlib.Core.Option
use occam.Value.{Value}
use occam.Previrt.{PrevirtType, unknown, abstract, refines, is_unknown, eq}

-- `id` stands for the pointer, which is the key of the rewrites; `count` is an unsigned int.
pub record CallInfo : Type 0 where
  pub id : ℕ
  pub count : ℕ
  pub args : List PrevirtType

-- The sum of two scores; `NO_MATCH` absorbs.
abbrev pub add_score : Option ℕ → Option ℕ → Option ℕ
add_score none s = none
add_score (some a) none = none
add_score (some a) (some b) = some (a + b)

-- The loop of `CallInfo::refines`.
unfoldable pub refines_args : List PrevirtType → List Value → Option ℕ
refines_args [] [] = some 0
refines_args [] (v ∷ vs) = none
refines_args (t ∷ ts) [] = none
refines_args (t ∷ ts) (v ∷ vs) = add_score (refines t v) (refines_args ts vs)

-- A `StringMap` as an association list; its iteration order is that of the list.
pub record ComponentInterface : Type 0 where
  pub calls : List (Name × List CallInfo)
  pub references : List Name
  -- the next fresh pointer
  pub next_id : ℕ

unfoldable pub empty_interface : ComponentInterface
empty_interface = record { calls = []; references = []; next_id = 0 }

module _ {ℓ} {V : Type ℓ} where
  -- `StringMap::find`, and `operator[]` as a read and as a write.
  unfoldable pub find : Name → List (Name × V) → Option V
  find f [] = none
  find f ((g, v) ∷ m) = if name_eq g f then some v else find f m

  unfoldable pub put : Name → V → List (Name × V) → List (Name × V)
  put f v [] = (f, v) ∷ []
  put f v ((g, w) ∷ m) = if name_eq g f then (g, v) ∷ m else (g, w) ∷ put f v m

-- `CallInfo::Create` with the pointer that it returns.
abbrev pub create : ComponentInterface → List PrevirtType → ℕ → CallInfo
create i args n = record { id = i.next_id; count = n; args = args }

abbrev pub bump : CallInfo → CallInfo
bump c = record c { count = suc c.count % 4294967296 }

-- `(*begin)->count++; return`, at the first call that passes the test.
unfoldable pub bump_first : (CallInfo → Bool) → List CallInfo → Option (List CallInfo)
bump_first p [] = none
bump_first p (c ∷ cs) =
    if p c then some (bump c ∷ cs) else Option.map (λ r. c ∷ r) (bump_first p cs)

-- The calls of `f` are bumped where the test passes, or else get one more call.
record_call : Name → (CallInfo → Bool) → List PrevirtType → ComponentInterface → ComponentInterface
unfolding find put bump_first
record_call f p args i = elim (find f i.calls) [
  | none ↦ record i { calls = put f (create i args 1 ∷ []) i.calls; next_id = suc i.next_id }
  | some cs ↦ elim (bump_first p cs) [
    | some bumped ↦ record i { calls = put f bumped i.calls }
    | none ↦ record i {
      calls = put f (cs ++ create i args 1 ∷ []) i.calls;
      next_id = suc i.next_id;
    }
  ]
]

-- The inner loop of `ComponentInterface::call`: `cur` stays at the first operand.
unfoldable pub matches_first : List PrevirtType → Value → Bool
matches_first [] v = true
matches_first (t ∷ ts) v = is_some (refines t v) && matches_first ts v

-- The operand at `args_begin`: the first argument, or what follows the arguments if there is none.
unfoldable pub first_operand : List Value → Value → Value
first_operand [] behind = behind
first_operand (v ∷ vs) behind = v

-- `ComponentInterface::call`, with the operand that follows the arguments in the instruction.
unfoldable pub call : Name → List Value → Value → ComponentInterface → ComponentInterface
unfolding record_call matches_first first_operand
call f args behind =
    record_call f (λ c. matches_first c.args (first_operand args behind)) (map abstract args)

unfoldable pub all_unknown : List PrevirtType → Bool
all_unknown [] = true
all_unknown (t ∷ ts) = is_unknown t && all_unknown ts

-- `ComponentInterface::callAny`, of a function with this name and number of parameters.
unfoldable pub call_any : Name → ℕ → ComponentInterface → ComponentInterface
unfolding record_call all_unknown
call_any f n = record_call f (λ c. all_unknown c.args) (replicate n unknown)

unfoldable pub contains : Name → List Name → Bool
contains n [] = false
contains n (m ∷ ms) = if name_eq m n then true else contains n ms

-- `ComponentInterface::reference`, into a `std::set`.
unfoldable pub reference : Name → ComponentInterface → ComponentInterface
unfolding contains
reference n i = if contains n i.references then i else record i { references = n ∷ i.references }

-- The size test and the loop over both argument lists in `getOrCreateCall`.
unfoldable pub same_args : List PrevirtType → List PrevirtType → Bool
same_args [] [] = true
same_args [] (y ∷ ys) = false
same_args (x ∷ xs) [] = false
same_args (x ∷ xs) (y ∷ ys) = eq x y && same_args xs ys

unfoldable pub find_call : List PrevirtType → List CallInfo → Option CallInfo
unfolding same_args
find_call args [] = none
find_call args (c ∷ cs) = if same_args args c.args then some c else find_call args cs

-- `ComponentInterface::getOrCreateCall`.
unfoldable pub get_or_create_call :
    Name → List PrevirtType → ComponentInterface → CallInfo × ComponentInterface
unfolding find put find_call
get_or_create_call f args i = elim (find f i.calls) [
  | none ↦ (
    create i args 0,
    record i { calls = put f (create i args 0 ∷ []) i.calls; next_id = suc i.next_id },
  )
  | some cs ↦ elim (find_call args cs) [
    | some c ↦ (c, i)
    | none ↦ (
      create i args 0,
      record i { calls = put f (cs ++ create i args 0 ∷ []) i.calls; next_id = suc i.next_id },
    )
  ]
]

-- `call_begin(f)` to `call_end(f)`; a missing key, where the code asserts, has none.
unfoldable pub calls_of : Name → ComponentInterface → List CallInfo
unfolding find
calls_of f i = elim (find f i.calls) [ some cs ↦ cs | none ↦ [] ]
