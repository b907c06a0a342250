-- ===== src/Vtables.antt =====
-- The tables of virtual functions, src/analysis/ClassHierarchyAnalysis.cpp.
pub mod Tests
pub mod Names
pub mod Kept
use occam.Base.{
  ℕ, zero, suc, ◌+◌, ◌%◌, Bool, true, false, not, ◌&&◌, ◌||◌, ◌==◌, Option, none, some, List, [],
  ◌∷◌, ◌++◌, Name, codes, name_eq, is_empty, c_str, starts_with, if◌then◌else◌, ltb, leb, length,
  get_elem?,
}
use occam.Ir.{Function}
use occam.Hierarchy.{Graph, StructType, tick, build_chg, closure_chg}
use mathlib.Core.Option

-- A function type; types are unique, so their addresses are compared.
pub record FunctionType : Type 0 where
  pub return_type : ℕ
  pub params : List ℕ

-- A function with `getFunctionType`.
pub record Method : Type 0 where
  pub function : Function
  pub signature : FunctionType

-- `vtable_t`: a null pointer stands for a pure virtual function.
abbrev pub Vtable : Type 0
Vtable = List (Option Method)

-- An element of the array in an initializer: a cast with the name of its operand, which may be empty,
-- and the operand if it is a function, or something else.
pub data Element : Type 0 where
  cast : Name → Option Method → Element
  other : Element

-- A global variable: its name, and the operands of its initializer, `some` for a constant array.
pub record GlobalVariable : Type 0 where
  pub name : Name
  pub initializer : Option (List (Option (List Element)))

-- `cxx_demangle`, over `abi::__cxa_demangle`.
unfoldable pub cxx_demangle : (Name → Option Name) → Name → Name
cxx_demangle demangle n = elim (demangle (c_str n)) [ none ↦ n | some d ↦ d ]

-- `find(t) != npos`.
unfoldable pub contains_text : Name → Name → Bool
unfolding starts_with
contains_text [] t = is_empty t
contains_text (c ∷ cs) t = starts_with (c ∷ cs) t || contains_text cs t

unfoldable pub has_char : ℕ → Name → Bool
has_char c [] = false
has_char c (x ∷ xs) = c == x || has_char c xs

-- `substr(pos + 1)` for `pos = find_last_of(chars)`; `none` for `npos`.
unfoldable pub behind_last_of : Name → Name → Option Name
unfolding has_char
behind_last_of chars [] = none
behind_last_of chars (c ∷ cs) = elim (behind_last_of chars cs) [
  | some rest ↦ some rest
  | none ↦ if has_char c chars then some cs else none
]

abbrev pub typeinfo_for_str : Name
typeinfo_for_str = codes "typeinfo for"

abbrev pub vtable_for_str : Name
vtable_for_str = codes "vtable for"

abbrev pub pure_virtual_str : Name
pure_virtual_str = codes "__cxa_pure_virtual"

-- `m_vtables`, where `insert` keeps what is there.
abbrev pub Vtables : Type 0
Vtables = List (ℕ × Vtable)

unfoldable pub find_vtable : ℕ → Vtables → Option Vtable
find_vtable ty [] = none
find_vtable ty ((t, v) ∷ vs) = if ty == t then some v else find_vtable ty vs

unfoldable pub insert_vtable : ℕ → Vtable → Vtables → Vtables
insert_vtable ty v [] = (ty, v) ∷ []
insert_vtable ty v ((t, w) ∷ vs) = if ty == t then (t, w) ∷ vs else (t, w) ∷ insert_vtable ty v vs

-- `class_typeinfo` and `vtable`.
pub record Scan : Type 0 where
  pub class_typeinfo : Option ℕ
  pub vtable : Vtable

abbrev pub empty_scan : Scan
empty_scan = record { class_typeinfo = none; vtable = [] }

-- The old and the new typeinfo; `none` for two that differ, which ends the run.
unfoldable pub keep_typeinfo : Option ℕ → Option ℕ → Option (Option ℕ)
keep_typeinfo none new = some new
keep_typeinfo (some old) none = some (some old)
keep_typeinfo (some old) (some new) = if old == new then some (some new) else none

-- `vtable.push_back`.
unfoldable pub push_function : Option Method → Vtable → Vtable
unfolding name_eq
push_function none v = v
push_function (some m) v =
    if name_eq m.function.name pure_virtual_str then v ++ none ∷ [] else v ++ some m ∷ []

-- The analysis with its counters.
pub record Analysis : Type 0 where
  pub graph : Graph
  pub vtables : Vtables
  pub num_graph_nodes : ℕ
  pub num_graph_edges : ℕ
  pub num_graph_closed_edges : ℕ
  pub num_potential_vtables : ℕ
  pub num_vtables : ℕ
  pub num_potential_virtual_calls : ℕ
  pub num_resolved_virtual_calls : ℕ

-- `buildCHG` of a new analysis.
unfoldable pub new_analysis : List StructType → Analysis
unfolding build_chg
new_analysis types =
    let (g, (nodes, edges)) = build_chg types in
    record {
      graph = g;
      vtables = [];
      num_graph_nodes = nodes;
      num_graph_edges = edges;
      num_graph_closed_edges = 0;
      num_potential_vtables = 0;
      num_vtables = 0;
      num_potential_virtual_calls = 0;
      num_resolved_virtual_calls = 0;
    }

-- The swap of `closureCHG`.
unfoldable pub close_analysis : Analysis → Analysis
unfolding closure_chg
close_analysis a =
    let (closed, c) = closure_chg a.graph in record a { graph = closed; num_graph_closed_edges = c }

-- Over the demangler and `getTypeByName`.
module _ (demangle : Name → Option Name) (type_by_name : Name → Option ℕ) where
  -- The struct type with the name, with the prefix or without.
  unfoldable pub class_type : Name → Option ℕ
  class_type n = elim (type_by_name (codes "class." ++ n)) [
    | some t ↦ some t
    | none ↦ type_by_name n
  ]

  -- The typeinfo behind an operand's name.
  unfoldable pub read_typeinfo : Name → Option ℕ → Option (Option ℕ)
  unfolding cxx_demangle behind_last_of class_type keep_typeinfo
  read_typeinfo n old =
      if is_empty n
      then some old
      else elim (behind_last_of typeinfo_for_str (cxx_demangle demangle n)) [
        | none ↦ some old
        | some class_name ↦ keep_typeinfo old (class_type class_name)
      ]

  -- The loop over an array; `none` is `llvm_unreachable`.
  unfoldable pub scan_elements : List Element → Scan → Option Scan
  unfolding read_typeinfo push_function
  scan_elements [] s = some s
  scan_elements (other ∷ rest) s = scan_elements rest s
  scan_elements (cast n f ∷ rest) s = elim (read_typeinfo n s.class_typeinfo) [
    | none ↦ none
    | some t ↦ scan_elements rest (record { class_typeinfo = t; vtable = push_function f s.vtable })
  ]

  -- A vtable goes into the map if its class is known.
  unfoldable pub record_vtable : Scan → Analysis → Analysis
  unfolding insert_vtable tick
  record_vtable s a = elim s.class_typeinfo [
    | none ↦ a
    | some t ↦ record a {
      vtables = insert_vtable t s.vtable a.vtables;
      num_vtables = tick a.num_vtables;
    }
  ]

  -- The loop over the operands of an initializer.
  unfoldable pub scan_operands : List (Option (List Element)) → Analysis → Option Analysis
  unfolding scan_elements record_vtable tick
  scan_operands [] a = some a
  scan_operands (none ∷ rest) a = scan_operands rest a
  scan_operands (some es ∷ rest) a = elim (scan_elements es empty_scan) [
    | none ↦ none
    | some s ↦
        scan_operands rest
          (record_vtable s (record a { num_potential_vtables = tick a.num_potential_vtables }))
  ]

  -- A global is read if its demangled name has the text for vtables in it.
  unfoldable pub scan_global : GlobalVariable → Analysis → Option Analysis
  unfolding cxx_demangle contains_text scan_operands
  scan_global gv a =
      let demangled = cxx_demangle demangle gv.name in
      if is_empty demangled || not (contains_text demangled vtable_for_str)
      then some a
      else elim gv.initializer [ none ↦ some a | some ops ↦ scan_operands ops a ]

  unfoldable pub build_vtables : List GlobalVariable → Analysis → Option Analysis
  unfolding scan_global
  build_vtables [] a = some a
  build_vtables (gv ∷ rest) a = elim (scan_global gv a) [
    | none ↦ none
    | some b ↦ build_vtables rest b
  ]

  unfoldable pub calculate : List StructType → List GlobalVariable → Option Analysis
  unfolding new_analysis build_vtables close_analysis
  calculate types globals = Option.map close_analysis (build_vtables globals (new_analysis types))
