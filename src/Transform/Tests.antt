-- ===== src/Transform/Tests.antt =====
-- Runs of the rewrites on a small interface, and the theorems at them.
use occam.Base.{◌≡◌, refl, ◌≢◌, none, some, Name, codes, List, [], ◌∷◌, name_eq, In}
use occam.Value.{Value}
use occam.Previrt.{unknown, int, refines}
use occam.Previrt.Tests.{int_of}
use occam.Interface.{CallInfo, calls_of, refines_args}
use occam.Transform.{
  CallRewrite, ComponentInterfaceTransform, lookup_call, lookup_rewrite, get_interface,
  RewriteMessage,
}
use occam.Transform.Lookup.{AtMost, lookup_rewrite-best}

abbrev f_name : Name
f_name = codes "f"

abbrev loose : CallInfo
loose = record { id = 0; count = 1; args = int 32 (codes "1") ∷ unknown ∷ [] }

abbrev exact : CallInfo
exact = record { id = 1; count = 1; args = int 32 (codes "1") ∷ int 32 (codes "2") ∷ [] }

abbrev loose_rewrite : CallRewrite
loose_rewrite = record { function = codes "f(1,?)"; args = 1 ∷ [] }

abbrev exact_rewrite : CallRewrite
exact_rewrite = record { function = codes "f(1,2)"; args = [] }

abbrev both : ComponentInterfaceTransform
both = record {
  interface =
      some (record { calls = (codes "f", loose ∷ exact ∷ []) ∷ []; references = []; next_id = 2 });
  rewrites = (codes "f", (0, loose_rewrite) ∷ (1, exact_rewrite) ∷ []) ∷ [];
}

abbrev operands : List Value
operands = int_of 1 (codes "1") ∷ int_of 2 (codes "2") ∷ []

-- The call f(1, 2) is rewritten to the version for f(1, ?).
lookup_both : lookup_rewrite f_name operands both ≡ some loose_rewrite
unfolding lookup_rewrite refines_args refines name_eq
lookup_both = refl

lookup_rewrite-best_example :
    (c : CallInfo) × In c (calls_of f_name (get_interface both))
    × (refines_args c.args operands ≢ none)
    × ((d : CallInfo)
        → In d (calls_of f_name (get_interface both))
        → AtMost (refines_args d.args operands) (refines_args c.args operands))
    × (lookup_call f_name c.id both ≡ some loose_rewrite)
lookup_rewrite-best_example = lookup_rewrite-best f_name operands both loose_rewrite lookup_both

abbrev message : RewriteMessage
message = record {
  call = record { name = codes "g"; count = 3; args = unknown ∷ [] };
  new_function = codes "g(1)";
  args = [];
}
