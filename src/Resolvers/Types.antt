-- ===== src/Resolvers/Types.antt =====
-- What the calls do that stand in the place of indirect calls under `CallSiteResolverByTypes`.
use occam.Base.{ℕ, Bool, true, false, Option, none, some, List, [], ◌∷◌, ◌≡◌, ◌≢◌, ◌⊎◌, map}
use occam.Value.{Value}
use occam.Ir.{Function}
use occam.Policy.{has_address}
use occam.Bounce.{bounce_blocks, run_bounce}
use occam.Bounce.Runs.{outcome_if}
use occam.Devirt.{Site, BounceFunction, State, NewCall, is_visited, replace_call}
use occam.Resolvers.{AliasSets, TypesState, lookup, targets_of}

-- The new call of a site, for any values of its operands, does what a bounce function for these targets
-- does with the callee of the old call and its arguments.
abbrev pub Does : Bool → Site → List Function → NewCall → Type 0
Does allow cs targets n =
    (env : Value → ℕ)
    → run_bounce n.callee.blocks (map env n.params)
      ≡ some (
          outcome_if (has_address (env cs.called) targets) allow cs.is_void (env cs.called)
            (map env cs.args))

-- What is put in the place of a visited call: nothing exactly if there is no target, and else a call
-- that does what the targets ask for.
abbrev pub IsReplaced : Bool → AliasSets → Site → Option NewCall → Type 0
IsReplaced allow m cs new =
    ((targets_of cs.called_type m ≡ []) × (new ≡ none))
    ⊎ ((n : NewCall) × (new ≡ some n)
        × (targets_of cs.called_type m ≢ [])
        × Does allow cs (targets_of cs.called_type m) n)

-- A site that is not visited keeps its call.
abbrev pub IsResolved : Bool → AliasSets → Site → Option NewCall → Type 0
IsResolved allow m cs new =
    ((is_visited cs ≡ false) × (new ≡ none)) ⊎ ((is_visited cs ≡ true) × IsReplaced allow m cs new)

abbrev pub AreResolved : Bool → AliasSets → List Site → List (Option NewCall) → Type 0
AreResolved allow m [] [] = Unit {0}
AreResolved allow m [] (n ∷ ns) = ⊥
AreResolved allow m (cs ∷ rest) [] = ⊥
AreResolved allow m (cs ∷ rest) (n ∷ ns) = IsResolved allow m cs n × AreResolved allow m rest ns

-- The called value is not loaded through a cast, and its type says whether the call is void.
abbrev pub IsPlain : (ℕ → Bool) → Site → Type 0
IsPlain void_of cs = (cs.through_cast ≡ none) × (cs.is_void ≡ void_of cs.called_type)

module _ (allow : Bool) (void_of : ℕ → Bool) (m : AliasSets) where
  -- A cached bounce function is one for the targets of its key.
  abbrev IsCache : List (ℕ × BounceFunction) → Type 0
  IsCache bm =
      (id : ℕ) (b : BounceFunction)
      → lookup id bm ≡ some b
      → (b.blocks ≡ bounce_blocks allow (void_of id) (targets_of id m)) × (targets_of id m ≢ [])

  abbrev with_cache : List (ℕ × BounceFunction) → List BounceFunction → State TypesState
  with_cache bm bs = record { resolver = record { targets_map = m; bounce_map = bm }; bounces = bs }

  -- A call is resolved, and the cache stays one.
  abbrev IsStep : Site → Option NewCall × State TypesState → Type 0
  IsStep cs r =
      (bm : List (ℕ × BounceFunction)) × (bs : List BounceFunction) × (r.1 ≡ with_cache bm bs)
      × IsCache bm
      × IsReplaced allow m cs r.0

  abbrev replaced :
      Site → Option BounceFunction × State TypesState → Option NewCall × State TypesState
  replaced cs r = (elim r.0 [ none ↦ none | some b ↦ some (replace_call cs b) ], r.1)

  abbrev AreSteps : List Site → List (Option NewCall) × State TypesState → Type 0
  AreSteps sites r =
      (bm : List (ℕ × BounceFunction)) × (bs : List BounceFunction) × (r.1 ≡ with_cache bm bs)
      × IsCache bm
      × AreResolved allow m sites r.0
