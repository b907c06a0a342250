-- ===== src/Rewriter/Tests.antt =====
-- Runs of src/InterRewriter.cpp on a small client, and the theorems at them.
use occam.Base.{ℕ, ◌≡◌, refl, Bool, true, false, Option, some, Name, codes, [], ◌∷◌, name_eq}
use occam.Previrt.{refines}
use occam.Previrt.Tests.{opaque_value}
use occam.Interface.{refines_args}
use occam.Ir.{Function, CallSite, Kind}
use occam.Specializer.Tests.{function_named}
use occam.Inter.Tests.{finished, operands}
use occam.Rewriter.{Client, transform_component}
use occam.Rewriter.Steps.{ArePasses}
use occam.Rewriter.Sites.{IsIntact, transform_component-ArePasses}

abbrev client : Client
client = record {
  functions = function_named 2 (codes "f") 2 ∷ [];
  sites =
      record {
        kind = Kind.call 0;
        name = codes "x";
        callee = some (function_named 2 (codes "f") 2);
        args = operands;
        calling_conv = 0;
      }
      ∷ [];
  modified = false;
}

abbrev fresh : Name → ℕ
fresh n = 12

abbrev everywhere : Function → Bool
everywhere f = true

abbrev next : CallSite → ℕ → Option ℕ
next cs behind = some 0

abbrev declared : Function
declared = record {
  address = 12;
  name = codes "__occam_spec.f(0x1,?)";
  arg_size = 1;
  is_declaration = true;
  is_var_arg = false;
  is_local = false;
  optimize_none = false;
  calling_conv = 0;
}

-- The client's call f(1, y) becomes a call of a new declaration with the argument y.
abbrev after : Client
after = record {
  functions = function_named 2 (codes "f") 2 ∷ declared ∷ [];
  sites =
      record {
        kind = Kind.call 0;
        name = codes "x";
        callee = some declared;
        args = opaque_value 5 ∷ [];
        calling_conv = 0;
      }
      ∷ [];
  modified = true;
}

transform_run : transform_component fresh everywhere next finished.transform client ≡ some after
unfolding transform_component refines_args refines name_eq
transform_run = refl

next-IsIntact : IsIntact next
next-IsIntact cs behind = refl

transform_component-ArePasses_example :
    ArePasses finished.transform finished.transform.rewrites client after
transform_component-ArePasses_example =
    transform_component-ArePasses fresh everywhere next finished.transform client after
      next-IsIntact transform_run
