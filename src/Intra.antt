-- ===== src/Intra.antt =====
-- Specialization inside a module: `trySpecializeFunction` of src/IntraSpecializer.cpp.
pub mod Versions
pub mod Calls
pub mod Tests
use occam.Base.{
  ℕ, Bool, true, false, not, ◌&&◌, ◌||◌, Option, none, some, List, [], ◌∷◌, ◌++◌, Name,
  if◌then◌else◌, is_empty, length, ◌==◌,
}
use occam.Ir.{Function, CallSite}
use occam.Specializer.{Scheme, specialize_function, specialize_call_site, arg_perm}
use occam.Table.{Child, SpecTable, refines, get_specializations, add_specialization}
use occam.Policy.{Policy}

-- The functions of the module, the table, the state of the policy, `to_add` and `modified`.
pub record State (S : Type 0) : Type 0 where
  pub functions : List Function
  pub table : SpecTable
  pub policy_state : S
  pub to_add : List Function
  pub modified : Bool

-- The call sites that enter the worklist.
unfoldable pub is_candidate : CallSite → Bool
is_candidate cs = elim cs.callee [
  | none ↦ false
  | some f ↦ not (f.is_declaration || f.is_var_arg) && not f.optimize_none
]

-- The first version that the scheme refines; the outer `none` is a failed assertion, here and below.
unfoldable pub first_version : Scheme → List Child → Option (Option Child)
unfolding refines
first_version s [] = some none
first_version s (v ∷ vs) =
    let rest = first_version s vs in
    elim (refines s v.args) [ none ↦ none | some b ↦ if b then some (some v) else rest ]

-- The new call of a version, which the code asserts to have as many parameters as arguments are left.
unfoldable pub replace_call :
    {S : Type 0} → CallSite → Scheme → Function → State S → Option (CallSite × State S)
unfolding specialize_call_site arg_perm
replace_call cs s g st =
    if not (g.arg_size == length (arg_perm 0 s))
    then none
    else elim (specialize_call_site cs g (arg_perm 0 s)) [
      | none ↦ none
      | some c ↦ some (c, record st { modified = true })
    ]

-- Over the text of `HashString` and `CloneFunction`.
module _ (hash : Name → Name) (clone : Function → Scheme → Name → Function) {S : Type 0} where
  -- A new version, which enters the table and `to_add`.
  unfoldable pub new_version : CallSite → Function → Scheme → State S → Option (CallSite × State S)
  unfolding specialize_function add_specialization replace_call
  new_version cs f s st =
      if is_empty f.name
      then some (cs, st)
      else elim (specialize_function hash clone st.functions f s) [
        | none ↦ none
        | some (g, m) ↦ replace_call cs s g (record st {
          functions = m;
          table = (add_specialization f s g st.table).1;
          to_add = st.to_add ++ g ∷ [];
        })
      ]

  -- An old version of the function or a new one.
  unfoldable pub specialize_call :
      CallSite → Function → Scheme → State S → Option (CallSite × State S)
  unfolding get_specializations first_version new_version replace_call
  specialize_call cs f s st = elim (get_specializations f s st.table) [
    | none ↦ none
    | some (versions, t) ↦
        let next : State S = record st { table = t } in
        elim (first_version s versions) [
          | none ↦ none
          | some none ↦ new_version cs f s next
          | some (some v) ↦ replace_call cs s v.handle next
        ]
  ]

  -- One round of the worklist's loop.
  unfoldable pub try_call : Policy S → CallSite → State S → Option (CallSite × State S)
  unfolding is_candidate specialize_call
  try_call policy cs st = elim cs.callee [
    | none ↦ some (cs, st)
    | some f ↦
        if not (is_candidate cs && f.is_local)
        then some (cs, st)
        else let (answer, s) = policy.intra cs st.policy_state in
          if answer.specialize
          then specialize_call cs f answer.marks (record st { policy_state = s })
          else some (cs, record st { policy_state = s })
  ]

  -- `trySpecializeFunction` on the call sites of a function: the last one is taken first.
  unfoldable pub try_specialize_function :
      Policy S → List CallSite → State S → Option (List CallSite × State S)
  unfolding try_call
  try_specialize_function policy [] st = some ([], st)
  try_specialize_function policy (cs ∷ rest) st = elim (try_specialize_function policy rest st) [
    | none ↦ none
    | some (done, r) ↦ elim (try_call policy cs r) [
      | none ↦ none
      | some (c, q) ↦ some (c ∷ done, q)
    ]
  ]
