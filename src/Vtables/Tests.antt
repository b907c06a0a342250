-- ===== src/Vtables/Tests.antt =====
-- Runs of the reading of vtables.
use occam.Base.{
  ℕ, ◌≡◌, refl, true, false, Option, none, some, [], ◌∷◌, ◌++◌, Name, codes, name_eq, c_str, ◌↔◌,
}
use occam.Vtables.{
  Method, has_char, behind_last_of, typeinfo_for_str, cxx_demangle, class_type, keep_typeinfo,
  read_typeinfo, scan_elements, push_function, empty_scan, cast, other,
}
use occam.Vtables.Names.{has_none_of, behind_last_of-class}

abbrev pub f1 : Method
f1 = record {
  function = record {
    address = 11;
    name = codes "f1";
    arg_size = 1;
    is_declaration = false;
    is_var_arg = false;
    is_local = false;
    optimize_none = false;
    calling_conv = 0;
  };
  signature = record { return_type = 5; params = 6 ∷ [] };
}

abbrev pub pure : Method
pure = record f1 {
  function = record (f1.function) { name = codes "__cxa_pure_virtual"; address = 12 };
}

-- A class whose name has no letter of the text is found.
behind_last_of_D1 : behind_last_of typeinfo_for_str (codes "typeinfo for D1") ≡ some (codes "D1")
unfolding behind_last_of has_char
behind_last_of_D1 = refl

-- One with such letters is cut.
behind_last_of_Base : behind_last_of typeinfo_for_str (codes "typeinfo for Base") ≡ some []
unfolding behind_last_of has_char
behind_last_of_Base = refl

abbrev pub demangle_D1 : Name → Option Name
unfolding name_eq
demangle_D1 n = elim (name_eq n (codes "_ZTI2D1")) [
  | true ↦ some (codes "typeinfo for D1")
  | false ↦ none
]

abbrev pub type_D1 : Name → Option ℕ
unfolding name_eq
type_D1 n = elim (name_eq n (codes "class.D1")) [ true ↦ some 1 | false ↦ none ]

scan_elements_runs :
    scan_elements demangle_D1 type_D1
      (other ∷ cast (codes "_ZTI2D1") none ∷ cast (codes "__cxa_pure_virtual") (some pure) ∷ [])
      empty_scan
    ≡ some (record { class_typeinfo = some 1; vtable = none ∷ [] })
unfolding scan_elements read_typeinfo cxx_demangle c_str behind_last_of has_char class_type
    keep_typeinfo push_function name_eq
scan_elements_runs = refl

behind_last_of-class_example :
    (behind_last_of typeinfo_for_str (codes "typeinfo for " ++ codes "Base") ≡ some (codes "Base"))
    ↔ (has_none_of typeinfo_for_str (codes "Base") ≡ true)
behind_last_of-class_example = behind_last_of-class (codes "Base")
