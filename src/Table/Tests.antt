-- ===== src/Table/Tests.antt =====
-- Runs of the table, and the theorems at them.
use occam.Base.{◌≡◌, refl, true, none, some, codes, [], ◌∷◌, arith}
use occam.Ir.{Function}
use occam.Previrt.Tests.{int_of}
use occam.Specializer.{Scheme}
use occam.Specializer.Tests.{function_named}
use occam.Table.{
  Specialization, SpecTable, refines, find_spec, get_specializations, add_specialization, principal,
}
use occam.Table.Children.{found, get_specializations-add_specialization}
use occam.Table.Principal.{IsRanked, add_specialization-IsRanked, principal_ends}

abbrev f : Function
f = function_named 1 (codes "f") 2

abbrev g : Function
g = function_named 2 (codes "g") 1

abbrev on_first : Scheme
on_first = some (int_of 10 (codes "1")) ∷ none ∷ []

abbrev on_both : Scheme
on_both = some (int_of 10 (codes "1")) ∷ some (int_of 11 (codes "2")) ∷ []

abbrev table : SpecTable
table =
    record { handle = g; args = on_first; parent = some 1; children = [] }
    ∷ record {
      handle = f;
      args = [];
      parent = none;
      children = record { handle = g; args = on_first } ∷ [];
    }
    ∷ []

added : (add_specialization f on_first g []).1 ≡ table
unfolding add_specialization
added = refl

found-on_first : found f on_first table ≡ some (record { handle = g; args = on_first } ∷ [])
unfolding get_specializations refines find_spec
found-on_first = refl

refines-on_both : refines on_both on_first ≡ some true
unfolding refines
refines-on_both = refl

get_specializations-add_specialization_example :
    found f on_first (add_specialization f on_both (function_named 3 (codes "h") 0) table).1
    ≡ some (
        record { handle = g; args = on_first }
        ∷ record { handle = function_named 3 (codes "h") 0; args = on_both }
        ∷ [])
unfolding find_spec
get_specializations-add_specialization_example =
    get_specializations-add_specialization f (function_named 3 (codes "h") 0) f on_both on_first
      table (record { handle = g; args = on_first } ∷ []) true refl (omega arith) found-on_first
      (λ same. refines-on_both)

table-IsRanked : IsRanked table
unfolding find_spec
table-IsRanked = (refl, refl, (refl, tt, tt))

add_specialization-IsRanked_example :
    IsRanked (add_specialization f on_both (function_named 3 (codes "h") 0) table).1
add_specialization-IsRanked_example =
    add_specialization-IsRanked f (function_named 3 (codes "h") 0) on_both table (omega arith)
      table-IsRanked

principal_ends_example : (e : Specialization) × (principal 2 2 table ≡ some e) × (e.parent ≡ none)
unfolding find_spec
principal_ends_example = principal_ends 2 table table-IsRanked refl
