-- ===== src/Rewriter.antt =====
-- The calls of a client rewritten, src/InterRewriter.cpp. The uses of a function are the call sites
-- of the module that call it, in the order of the module, as they are when its loop starts. A call that
-- is replaced is erased with its uses, and the loop then goes on from the erased use: where that leads
-- is a parameter.
pub mod Steps
pub mod Sites
pub mod Whole
pub mod Tests
use occam.Base.{
  ℕ, zero, suc, Bool, true, false, not, ◌&&◌, ◌||◌, ◌==◌, ltb, Option, none, some, List, [], ◌∷◌,
  ◌++◌, Name, if◌then◌else◌, length,
}
use occam.Value.{Global, Value}
use occam.Transform.{CallRewrite, CallMap, ComponentInterfaceTransform, lookup_rewrite}
use occam.Ir.{Function, CallSite}
use occam.Specializer.{find_function, specialize_call_site}
use occam.Inter.{set_external}
use mathlib.Core.Option

-- The state of `TransformComponent`: the functions and the call sites of the module, and `modified`.
pub record Client : Type 0 where
  pub functions : List Function
  pub sites : List CallSite
  pub modified : Bool

unfoldable pub has_position : ℕ → List ℕ → Bool
has_position i [] = false
has_position i (p ∷ ps) = if p == i then true else has_position i ps

abbrev is_function : Option Global → Bool
is_function none = false
is_function (some g) = g.is_function

-- The loop that marks the functions among the dropped arguments as external, from position `i` on.
unfoldable pub keep_functions : List ℕ → ℕ → List Value → List Function → List Function
unfolding has_position set_external
keep_functions perm i [] m = m
keep_functions perm i (v ∷ vs) m =
    keep_functions perm (suc i) vs
      (if not (has_position i perm) && is_function v.global then set_external v.address m else m)

-- `getParamType` at each of the positions: false is a read out of range.
unfoldable pub has_param_types : Function → List ℕ → Bool
has_param_types target [] = true
has_param_types target (p ∷ ps) = ltb p target.arg_size && has_param_types target ps

-- Over what LLVM does: the address of a new declaration, and `hasExternalLinkage`.
module _ (fresh : Name → ℕ) (has_external : Function → Bool) where
  -- The declaration that `getOrInsertFunction` makes.
  unfoldable pub declare : Function → CallRewrite → Function
  declare target new = record {
    address = fresh new.function;
    name = new.function;
    arg_size = length new.args;
    is_declaration = true;
    is_var_arg = target.is_var_arg;
    is_local = false;
    optimize_none = false;
    calling_conv = 0;
  }

  -- `applyRewriteToCall`: the new call, and the functions of the module afterwards; `none` is a failed
  -- assertion or a read out of range, here and below.
  unfoldable pub apply_rewrite_to_call :
      List Function → CallRewrite → Function → CallSite → Option (CallSite × List Function)
  unfolding find_function declare specialize_call_site has_param_types
  apply_rewrite_to_call m new target cs = elim (find_function new.function m) [
    | some g ↦ Option.map (λ c. (c, m)) (specialize_call_site cs g new.args)
    | none ↦
        if not (has_param_types target new.args)
        then none
        else Option.map (λ c. (c, m ++ declare target new ∷ []))
            (specialize_call_site cs (declare target new) new.args)
  ]

  -- The rewrite of a call of `target`, with the functions that it must not lose.
  unfoldable pub rewrite_call :
      List Function → CallRewrite → Function → CallSite → Option (CallSite × List Function)
  unfolding keep_functions apply_rewrite_to_call
  rewrite_call m new target cs =
      apply_rewrite_to_call (if has_external target then keep_functions new.args 0 cs.args m else m)
        new target cs

  -- Over what the use of an erased call leads the loop to, with as many call sites behind it: `none` is
  -- a crash, and a number is that of the call sites which are then missed.
  module _ (erased : CallSite → ℕ → Option ℕ) (t : ComponentInterfaceTransform) where
    -- The body of the inner loop at one call site, for the function `f` of the name `key`; it also gives
    -- whether the call is replaced.
    unfoldable pub transform_site : Name → Function → CallSite → Client → Option (Client × Bool)
    unfolding lookup_rewrite rewrite_call
    transform_site key f cs s =
        let plain = some (record s { sites = s.sites ++ cs ∷ [] }, false) in
        elim cs.callee [
          | none ↦ plain
          | some target ↦
              if target.address == f.address
              then elim (lookup_rewrite key cs.args t) [
                | none ↦ plain
                | some new ↦ elim (rewrite_call s.functions new target cs) [
                  | none ↦ none
                  | some (c, m) ↦
                      some
                        (record { functions = m; sites = s.sites ++ c ∷ []; modified = true }, true)
                ]
              ]
              else plain
        ]

    -- `++ui`, behind a call site.
    unfoldable pub next_use : Bool → CallSite → ℕ → Option ℕ
    next_use replaced cs behind = if replaced then erased cs behind else some 0

    -- The inner loop; the number is that of the call sites that it misses.
    unfoldable pub transform_sites : Name → Function → ℕ → List CallSite → Client → Option Client
    unfolding transform_site next_use
    transform_sites key f missed [] s = some s
    transform_sites key f (suc k) (cs ∷ rest) s =
        transform_sites key f k rest (record s { sites = s.sites ++ cs ∷ [] })
    transform_sites key f zero (cs ∷ rest) s = elim (transform_site key f cs s) [
      | none ↦ none
      | some (r, replaced) ↦ elim (next_use replaced cs (length rest)) [
        | none ↦ none
        | some k ↦ transform_sites key f k rest r
      ]
    ]

    -- The body of the outer loop.
    unfoldable pub transform_name : Name → Client → Option Client
    unfolding find_function transform_sites
    transform_name key s = elim (find_function key s.functions) [
      | none ↦ some s
      | some f ↦ transform_sites key f 0 s.sites (record s { sites = [] })
    ]

    unfoldable pub transform_names : List (Name × CallMap) → Client → Option Client
    unfolding transform_name
    transform_names [] s = some s
    transform_names ((key, m) ∷ rest) s = elim (transform_name key s) [
      | none ↦ none
      | some r ↦ transform_names rest r
    ]

    -- `TransformComponent`.
    unfoldable pub transform_component : Client → Option Client
    unfolding transform_names
    transform_component s = transform_names t.rewrites s
