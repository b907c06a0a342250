-- ===== src/Resolvers.antt =====
-- The three resolvers of call sites, src/transforms/DevirtFunctions.cpp.
pub mod Tests
pub mod Maps
pub mod Dsa
pub mod Aliases
pub mod Sorted
pub mod Types
pub mod Cha
use occam.Base.{
  ℕ, zero, suc, Bool, true, false, not, ◌&&◌, ◌||◌, ◌==◌, ltb, leb, Option, none, some, List, [],
  ◌∷◌, ◌++◌, Name, codes, name_eq, starts_with, is_empty, if◌then◌else◌, length, map,
}
use occam.Ir.{Function}
use occam.Devirt.{Site, BounceFunction, Resolver, is_indirect_call, type_alias_id}

-- A function of the module with the pointer to its type.
pub record Candidate : Type 0 where
  pub function : Function
  pub pointer_type : ℕ
  pub is_intrinsic : Bool
  pub has_address_taken : Bool

-- `DenseMap::find`, and `operator[]` as a write; `insert`, which keeps what is there.
module _ {V : Type 0} where
  unfoldable pub lookup : ℕ → List (ℕ × V) → Option V
  lookup k [] = none
  lookup k ((j, v) ∷ m) = if k == j then some v else lookup k m

  unfoldable pub assign : ℕ → V → List (ℕ × V) → List (ℕ × V)
  assign k v [] = (k, v) ∷ []
  assign k v ((j, w) ∷ m) = if k == j then (j, v) ∷ m else (j, w) ∷ assign k v m

  unfoldable pub insert_new : ℕ → V → List (ℕ × V) → List (ℕ × V)
  insert_new k v [] = (k, v) ∷ []
  insert_new k v ((j, w) ∷ m) = if k == j then (j, w) ∷ m else (j, w) ∷ insert_new k v m

-- The insertion at `upper_bound`, in the order of the addresses.
unfoldable pub insert_sorted : Function → List Function → List Function
insert_sorted f [] = f ∷ []
insert_sorted f (g ∷ gs) = if ltb f.address g.address then f ∷ g ∷ gs else g ∷ insert_sorted f gs

-- The tests of `populateTypeAliasSets`.
unfoldable pub is_candidate : Candidate → Bool
unfolding starts_with name_eq
is_candidate c = not (
    c.is_intrinsic
    || (c.function.is_local && not c.has_address_taken)
    || starts_with c.function.name (codes "seahorn.")
    || starts_with c.function.name (codes "verifier.")
    || name_eq c.function.name (codes "main"))

abbrev pub AliasSets : Type 0
AliasSets = List (ℕ × List Function)

unfoldable pub targets_of : ℕ → AliasSets → List Function
unfolding lookup
targets_of id m = elim (lookup id m) [ none ↦ [] | some ts ↦ ts ]

unfoldable pub populate_type_alias_sets : List Candidate → AliasSets → AliasSets
unfolding is_candidate targets_of assign insert_sorted
populate_type_alias_sets [] m = m
populate_type_alias_sets (c ∷ cs) m =
    if is_candidate c
    then populate_type_alias_sets cs
        (assign c.pointer_type (insert_sorted c.function (targets_of c.pointer_type m)) m)
    else populate_type_alias_sets cs m

-- `CallSiteResolverByTypes`.
pub record TypesState : Type 0 where
  pub targets_map : AliasSets
  pub bounce_map : List (ℕ × BounceFunction)

unfoldable pub new_types : List Candidate → TypesState
unfolding populate_type_alias_sets
new_types cs = record { targets_map = populate_type_alias_sets cs []; bounce_map = [] }

unfoldable pub types_targets : Site → AliasSets → Option (List Function)
unfolding type_alias_id lookup
types_targets cs m = lookup (type_alias_id cs true) m

unfoldable pub by_types : Resolver TypesState
unfolding types_targets type_alias_id lookup insert_new
by_types = record {
  get_targets = λ cs s. (types_targets cs s.targets_map, s);
  get_bounce_function = λ cs s. (lookup (type_alias_id cs false) s.bounce_map, s);
  cache_bounce_function =
      λ cs b s. record s { bounce_map = insert_new (type_alias_id cs false) b s.bounce_map };
}

-- The state of the two other resolvers: targets of instructions, and the multimap of bounce functions
-- with the targets that they were made for.
pub record SitesState : Type 0 where
  pub targets_map : AliasSets
  pub bounce_map : List (ℕ × (List Function × BounceFunction))

-- `std::equal` of the cached targets and as many others; past their end it is false here.
unfoldable pub equal_targets : List Function → List Function → Bool
equal_targets [] ys = true
equal_targets (x ∷ xs) [] = false
equal_targets (x ∷ xs) (y ∷ ys) = x.address == y.address && equal_targets xs ys

-- The first bounce function with the key, if its targets are those of the site.
unfoldable pub cached_bounce :
    Option (List Function × BounceFunction) → Option (List Function) → Option BounceFunction
unfolding equal_targets
cached_bounce none targets = none
cached_bounce (some (ts, b)) none = none
cached_bounce (some (cached, b)) (some targets) =
    if equal_targets cached targets then some b else none

-- `set_intersection` of two sorted ranges.
unfoldable pub drop_below : ℕ → List Function → List Function
drop_below a [] = []
drop_below a (g ∷ gs) = if ltb g.address a then drop_below a gs else g ∷ gs

unfoldable pub take_match : Function → List Function → Bool × List Function
take_match f [] = (false, [])
take_match f (g ∷ gs) = if f.address == g.address then (true, gs) else (false, g ∷ gs)

unfoldable pub intersection : List Function → List Function → List Function
unfolding drop_below take_match
intersection [] ys = []
intersection (f ∷ fs) ys =
    let (found, rest) = take_match f (drop_below f.address ys) in
    let more = intersection fs rest in if found then f ∷ more else more

unfoldable pub sort_functions : List Function → List Function
unfolding insert_sorted
sort_functions [] = []
sort_functions (f ∷ fs) = insert_sorted f (sort_functions fs)

-- The order of `StringRef`.
unfoldable pub name_lt : Name → Name → Bool
name_lt [] [] = false
name_lt [] (y ∷ ys) = true
name_lt (x ∷ xs) [] = false
name_lt (x ∷ xs) (y ∷ ys) = ltb x y || (x == y && name_lt xs ys)

unfoldable pub insert_by_name : Function → List Function → List Function
unfolding name_lt
insert_by_name f [] = f ∷ []
insert_by_name f (g ∷ gs) = if name_lt g.name f.name then g ∷ insert_by_name f gs else f ∷ g ∷ gs

unfoldable pub sort_by_name : List Function → List Function
unfolding insert_by_name
sort_by_name [] = []
sort_by_name (f ∷ fs) = insert_by_name f (sort_by_name fs)

unfoldable pub all_named : List Function → Bool
all_named [] = true
all_named (f ∷ fs) = not (is_empty f.name) && all_named fs

-- `CallSiteResolverByDsa`, over the answers of the pointer analysis.
module _ (is_complete : Site → Bool) (dsa : Site → List Function) where
  -- The targets that are kept for a site, by those of its type.
  unfoldable pub refine_targets : ℕ → List Function → List Function → Option (List Function)
  unfolding intersection sort_by_name all_named
  refine_targets max dsa_targets types_targets =
      let refined = intersection dsa_targets types_targets in
      if length refined == 0 || ltb max (length refined)
      then none
      else some (if all_named refined then sort_by_name refined else refined)

  unfoldable pub dsa_targets : Bool → ℕ → AliasSets → Site → Option (List Function)
  unfolding refine_targets sort_functions types_targets is_indirect_call
  dsa_targets allow_incomplete max types cs =
      if not (is_indirect_call cs)
        || not (allow_incomplete || is_complete cs)
        || length (dsa cs) == 0
      then none
      else elim (types_targets cs types) [
        | none ↦ none
        | some ts ↦ refine_targets max (sort_functions (dsa cs)) ts
      ]

  unfoldable pub build_dsa_map : Bool → ℕ → AliasSets → List Site → AliasSets → AliasSets
  unfolding dsa_targets insert_new
  build_dsa_map allow_incomplete max types [] m = m
  build_dsa_map allow_incomplete max types (cs ∷ rest) m =
      elim (dsa_targets allow_incomplete max types cs) [
        | none ↦ build_dsa_map allow_incomplete max types rest m
        | some ts ↦ build_dsa_map allow_incomplete max types rest (insert_new cs.instruction ts m)
      ]

unfoldable pub site_targets : Site → SitesState → Option (List Function)
unfolding lookup
site_targets cs s = lookup cs.instruction s.targets_map

-- A bounce function is cached where the site has targets.
unfoldable pub cache_for : Site → Option (List Function) → BounceFunction → SitesState → SitesState
unfolding type_alias_id
cache_for cs none b s = s
cache_for cs (some ts) b s = record s {
  bounce_map = s.bounce_map ++ (type_alias_id cs false, (ts, b)) ∷ [];
}

unfoldable pub by_dsa : Resolver SitesState
unfolding site_targets cached_bounce cache_for lookup type_alias_id
by_dsa = record {
  get_targets = λ cs s. (site_targets cs s, s);
  get_bounce_function =
      λ cs s. (cached_bounce (lookup (type_alias_id cs false) s.bounce_map) (site_targets cs s), s);
  cache_bounce_function = λ cs b s. cache_for cs (site_targets cs s) b s;
}
