-- ===== src/Devirt.antt =====
-- The replacement of indirect calls, src/transforms/DevirtFunctions.cpp.
pub mod Steps
use occam.Base.{
  ℕ, Bool, true, false, not, ◌&&◌, ◌||◌, Option, none, some, List, [], ◌∷◌, ◌++◌, Name, codes,
  is_empty, if◌then◌else◌, length,
}
use occam.Value.{Value}
use occam.Ir.{Function, Kind, call, invoke}
use occam.Bounce.{Block, bounce_blocks}

-- What is read of a call or invoke instruction: whether the called value is a function behind its casts,
-- the pointer type of the called value, and the pointer type in front of the cast if the called value is
-- loaded through a constant bit cast of such a pointer.
pub record Site : Type 0 where
  pub instruction : ℕ
  pub kind : Kind
  pub name : Name
  pub called : Value
  pub is_function : Bool
  pub is_inline_asm : Bool
  pub called_type : ℕ
  pub through_cast : Option ℕ
  pub is_void : Bool
  pub args : List Value

unfoldable pub is_indirect_call : Site → Bool
is_indirect_call cs = not cs.is_function

-- `typeAliasId` of a call site.
unfoldable pub type_alias_id : Site → Bool → ℕ
type_alias_id cs look_through_cast =
    if look_through_cast
    then elim cs.through_cast [ some t ↦ t | none ↦ cs.called_type ]
    else cs.called_type

-- A bounce function of the module, with its number.
pub record BounceFunction : Type 0 where
  pub handle : ℕ
  pub blocks : List Block

-- `CallSiteResolver`, whose methods may change its state.
pub record Resolver (S : Type 0) : Type 0 where
  pub get_targets : Site → S → Option (List Function) × S
  pub get_bounce_function : Site → S → Option BounceFunction × S
  pub cache_bounce_function : Site → BounceFunction → S → S

-- The resolver's state, and the bounce functions that were put into the module.
pub record State (S : Type 0) : Type 0 where
  pub resolver : S
  pub bounces : List BounceFunction

-- The call that stands in the place of an old one.
pub record NewCall : Type 0 where
  pub kind : Kind
  pub name : Name
  pub callee : BounceFunction
  pub params : List Value

-- The operands of a new call: the old callee first. A new call instruction is no tail call.
unfoldable pub replace_call : Site → BounceFunction → NewCall
replace_call cs b = record {
  kind = elim cs.kind [ call tail ↦ call 0 | invoke normal unwind ↦ invoke normal unwind ];
  name = if is_empty cs.name then [] else cs.name ++ codes ".dv";
  callee = b;
  params = cs.called ∷ cs.args;
}

-- `visitCallInst` and `visitInvokeInst`: is the instruction put on the worklist?
unfoldable pub is_visited : Site → Bool
unfolding is_indirect_call
is_visited cs = elim cs.kind [
  | call tail ↦ not cs.is_inline_asm && is_indirect_call cs
  | invoke normal unwind ↦ is_indirect_call cs
]

module _ {S : Type 0} (allow_indirect_calls : Bool) (csr : Resolver S) where
  -- A new bounce function, put into the module and cached.
  unfoldable pub create_bounce_fn : Site → List Function → State S → Option BounceFunction × State S
  unfolding bounce_blocks
  create_bounce_fn cs targets st =
      let b : BounceFunction = record {
        handle = length st.bounces;
        blocks = bounce_blocks allow_indirect_calls cs.is_void targets;
      } in
      (
        some b,
        record {
          resolver = csr.cache_bounce_function cs b st.resolver;
          bounces = st.bounces ++ b ∷ [];
        },
      )

  -- The function for the targets, `none` for a null pointer and for no target.
  unfoldable pub bounce_for :
      Site → Option (List Function) → State S → Option BounceFunction × State S
  unfolding create_bounce_fn
  bounce_for cs none st = (none, st)
  bounce_for cs (some []) st = (none, st)
  bounce_for cs (some (f ∷ fs)) st = create_bounce_fn cs (f ∷ fs) st

  -- The cached function, or one for the targets.
  unfoldable pub bounce_or_new :
      Site → Option BounceFunction → State S → Option BounceFunction × State S
  unfolding bounce_for
  bounce_or_new cs (some b) st = (some b, st)
  bounce_or_new cs none st =
      let (targets, s) = csr.get_targets cs st.resolver in
      bounce_for cs targets (record st { resolver = s })

  unfoldable pub mk_bounce_fn : Site → State S → Option BounceFunction × State S
  unfolding bounce_or_new
  mk_bounce_fn cs st =
      let (cached, s) = csr.get_bounce_function cs st.resolver in
      bounce_or_new cs cached (record st { resolver = s })

  -- The new call, `none` if the old one stays.
  unfoldable pub mk_direct_call : Site → State S → Option NewCall × State S
  unfolding mk_bounce_fn replace_call
  mk_direct_call cs st =
      let (bounce, next) = mk_bounce_fn cs st in
      (elim bounce [ none ↦ none | some b ↦ some (replace_call cs b) ], next)

  -- The calls of the module with what is put in their place; the worklist is emptied from its end.
  unfoldable pub resolve_sites : List Site → State S → List (Option NewCall) × State S
  unfolding is_visited mk_direct_call
  resolve_sites [] st = ([], st)
  resolve_sites (cs ∷ rest) st =
      let (calls, next) = resolve_sites rest st in
      let (new, last) = mk_direct_call cs next in
      if is_visited cs then (new ∷ calls, last) else (none ∷ calls, next)

  -- `Changed`: was the worklist not empty?
  unfoldable pub has_visited : List Site → Bool
  unfolding is_visited
  has_visited [] = false
  has_visited (cs ∷ rest) = is_visited cs || has_visited rest

  unfoldable pub resolve_call_sites : List Site → State S → Bool × List (Option NewCall) × State S
  unfolding has_visited resolve_sites
  resolve_call_sites sites st =
      let (calls, next) = resolve_sites sites st in (has_visited sites, calls, next)
