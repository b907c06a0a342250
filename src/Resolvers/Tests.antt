-- ===== src/Resolvers/Tests.antt =====
-- Runs of the three resolvers on a call through a pointer.
use occam.Base.{
  ℕ, Bool, true, false, none, some, List, [], ◌∷◌, name_eq, starts_with, ◌≡◌, refl, In, ◌↔◌,
  replicate,
}
use occam.Ir.{Function, call}
use occam.Policy.{has_address}
use occam.Previrt.Tests.{opaque_value}
use occam.Bounce.{bounce_blocks}
use occam.Bounce.Tests.{f, g}
use occam.Devirt.{
  Site, is_indirect_call, type_alias_id, replace_call, is_visited, create_bounce_fn, bounce_for,
  bounce_or_new, mk_bounce_fn, mk_direct_call, resolve_sites,
}
use occam.Resolvers.{
  Candidate, lookup, assign, insert_new, insert_sorted, is_candidate, targets_of,
  populate_type_alias_sets, types_targets, by_types, drop_below, take_match, intersection,
  sort_functions, insert_by_name, sort_by_name, all_named, refine_targets, dsa_targets,
  build_dsa_map,
}
use occam.Resolvers.Sorted.{IsSorted}
use occam.Resolvers.Aliases.{IsTarget, populate_type_alias_sets-targets}
use occam.Resolvers.Dsa.{IsKept, build_dsa_map-IsKept}
use occam.Resolvers.Cha.{by_cha, no_bounces, by_cha-replaces-nothing}

abbrev pointer : Site
pointer = record {
  instruction = 100;
  kind = call 0;
  name = [];
  called = opaque_value 1;
  is_function = false;
  is_inline_asm = false;
  called_type = 5;
  through_cast = none;
  is_void = false;
  args = opaque_value 2 ∷ [];
}

-- The same type of the called value, which is loaded through a cast from another type.
abbrev cast_pointer : Site
cast_pointer = record pointer { instruction = 101; through_cast = some 6 }

abbrev candidate : Function → ℕ → Candidate
candidate fn t = record {
  function = fn;
  pointer_type = t;
  is_intrinsic = false;
  has_address_taken = true;
}

abbrev candidates : List Candidate
candidates = candidate g 5 ∷ candidate f 6 ∷ candidate f 5 ∷ []

populated : populate_type_alias_sets candidates [] ≡ (5, f ∷ g ∷ []) ∷ (6, f ∷ []) ∷ []
unfolding populate_type_alias_sets is_candidate starts_with name_eq targets_of lookup assign
    insert_sorted
populated = refl

-- The second call gets the bounce function of the first, which was made for the targets of its own type.
shared_bounce :
    (resolve_sites false by_types (cast_pointer ∷ pointer ∷ []) (record {
      resolver = record { targets_map = (5, g ∷ []) ∷ (6, f ∷ []) ∷ []; bounce_map = [] };
      bounces = [];
    })).0
    ≡ some (
        replace_call cast_pointer
          (record { handle = 0; blocks = bounce_blocks false false (g ∷ []) }))
      ∷ some (
          replace_call pointer (record { handle = 0; blocks = bounce_blocks false false (g ∷ []) }))
      ∷ []
unfolding resolve_sites is_visited is_indirect_call mk_direct_call mk_bounce_fn bounce_or_new
    bounce_for create_bounce_fn by_types types_targets type_alias_id lookup insert_new replace_call
shared_bounce = refl

populate_type_alias_sets-targets_example :
    IsSorted (targets_of 5 (populate_type_alias_sets candidates []))
    × ((has_address 20 (targets_of 5 (populate_type_alias_sets candidates [])) ≡ true)
        ↔ IsTarget candidates 5 20)
populate_type_alias_sets-targets_example = populate_type_alias_sets-targets candidates 5 20

abbrev complete : Site → Bool
complete cs = true

abbrev pointees : Site → List Function
pointees cs = g ∷ g ∷ []

kept :
    lookup 100 (
      build_dsa_map complete pointees false 4
        (populate_type_alias_sets candidates [])
        (pointer ∷ [])
        [])
    ≡ some (g ∷ [])
unfolding populate_type_alias_sets is_candidate starts_with name_eq targets_of lookup assign
    insert_sorted build_dsa_map dsa_targets is_indirect_call types_targets type_alias_id
    refine_targets sort_functions intersection drop_below take_match all_named sort_by_name
    insert_by_name insert_new
kept = refl

build_dsa_map-IsKept_example :
    (cs : Site) × In cs (pointer ∷ [])
    × (cs.instruction ≡ 100)
    × IsKept complete pointees false 4 (populate_type_alias_sets candidates []) cs (g ∷ [])
build_dsa_map-IsKept_example =
    build_dsa_map-IsKept complete pointees false 4 candidates (pointer ∷ []) 100 (g ∷ []) kept

abbrev virtual : Site → Unit {0} → (Bool × List Function) × Unit {0}
virtual cs a = ((true, f ∷ []), a)

by_cha-replaces-nothing_example :
    ((resolve_sites true
        (by_cha virtual)
        (pointer ∷ cast_pointer ∷ [])
        (no_bounces virtual [] tt [])).0
      ≡ replicate 2 none)
    × ((resolve_sites true
          (by_cha virtual)
          (pointer ∷ cast_pointer ∷ [])
          (no_bounces virtual [] tt [])).1.bounces
        ≡ [])
by_cha-replaces-nothing_example =
    by_cha-replaces-nothing virtual true (pointer ∷ cast_pointer ∷ []) tt [] ((refl, tt), (tt, tt))
