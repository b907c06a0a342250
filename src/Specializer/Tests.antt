-- ===== src/Specializer/Tests.antt =====
-- Runs of src/Specializer.cpp on small names and calls, and the theorems at them.
use occam.Base.{
  ℕ, ◌≡◌, refl, true, false, none, some, Name, codes, List, [], ◌∷◌, ◌++◌, arith, name_eq, length,
}
use occam.Value.{Value}
use occam.Previrt.{abstract, to_string}
use occam.Previrt.Tests.{int_of, opaque_value}
use occam.Ir.{Function, CallSite, Kind}
use occam.Specializer.{
  Scheme, specialize_name, print_name, parse_args, specialized_name, takes_operands,
  specialize_call_site, arg_perm,
}
use occam.Specializer.Names.{specialize_name-print_name, blanks}
use occam.Specializer.Calls.{plug, specialize_call_site-plug}

abbrev pub function_named : ℕ → Name → ℕ → Function
function_named a n k = record {
  address = a;
  name = n;
  arg_size = k;
  is_declaration = false;
  is_var_arg = false;
  is_local = true;
  optimize_none = false;
  calling_conv = 0;
}

-- A clone keeps the parameters that are not specialized.
abbrev pub clone_at : ℕ → Function → Scheme → Name → Function
clone_at a f s n = record (function_named a n (blanks s)) { calling_conv = f.calling_conv }

abbrev no_hash : Name → Name
no_hash d = codes "0"

abbrev f_name : Name
f_name = codes "f"

abbrev scheme : Scheme
scheme = none ∷ some (int_of 1 (codes "1")) ∷ []

specialized_name_run :
    specialized_name no_hash (function_named 1 f_name 2) scheme
    ≡ some (codes "__occam_spec.f(?,0x1)")
unfolding specialized_name abstract to_string name_eq
specialized_name_run = refl

-- In a string a backslash steps over two characters more, here over the closing quote.
escape_run : parse_args (codes "\"\\x\",y)" ++ []) 0 false [] ≡ none
unfolding parse_args
escape_run = refl

specialize_name-print_name_example :
    specialize_name (print_name f_name (codes "?" ∷ codes "0x1" ∷ [])) 1
    ≡ some (f_name, codes "?" ∷ codes "0x1" ∷ [])
specialize_name-print_name_example =
    specialize_name-print_name f_name (codes "?" ∷ codes "0x1" ∷ []) 1 (omega arith)
      ((omega arith, λ e. cc), ((omega arith, λ e. cc), tt))

abbrev f : Function
f = function_named 1 f_name 2

abbrev clone : Function
clone = clone_at 2 f scheme (codes "__occam_spec.f(?,0x1)")

abbrev text_value : Name → Value
text_value d = record (opaque_value 7) {
  is_constant = true;
  is_const_expr = true;
  string_info = some d;
}

abbrev site : CallSite
site = record {
  kind = Kind.call 0;
  name = [];
  callee = some f;
  args = opaque_value 5 ∷ int_of 1 (codes "1") ∷ [];
  calling_conv = 0;
}

specialize_call_site-plug_example :
    (ops : List Value) × (specialize_call_site site clone (arg_perm 0 scheme)
      ≡ some (record {
        kind = site.kind;
        name = site.name;
        callee = some clone;
        args = ops;
        calling_conv = 0;
      }))
    × (length ops ≡ 1)
    × (plug scheme ops ≡ some site.args)
unfolding takes_operands arg_perm
specialize_call_site-plug_example = specialize_call_site-plug site clone scheme (refl, tt) refl
