-- ===== src/Vtables/Kept.antt =====
-- The graph of a calculated analysis is the closure of the graph that is built first.
use occam.Base.{
  ℕ, ◌≡◌, sym, ap, ◌∙◌, ◌||◌, not, Option, none, some, List, [], ◌∷◌, Name, arith, inl, inr,
  is_empty, Bool-cases, Option-cases,
}
use mathlib.Core.Option.{some-injective}
use occam.Hierarchy.{Graph, tick, StructType, build_chg, closure_chg}
use occam.Vtables.{
  GlobalVariable, Element, Scan, empty_scan, Analysis, new_analysis, close_analysis, cxx_demangle,
  contains_text, vtable_for_str, scan_elements, record_vtable, scan_operands, scan_global,
  build_vtables, calculate,
}

module _ (demangle : Name → Option Name) (type_by_name : Name → Option ℕ) where
  record_vtable-graph :
      (s : Scan) (a : Analysis) → (record_vtable demangle type_by_name s a).graph ≡ a.graph
  unfolding record_vtable
  record_vtable-graph s a = ground (arith, Option-cases s.class_typeinfo)

  scan_operands-graph :
      (ops : List (Option (List Element))) (a b : Analysis)
      → scan_operands demangle type_by_name ops a ≡ some b
      → b.graph ≡ a.graph
  unfolding scan_operands
  scan_operands-graph [] a b h = ground arith
  scan_operands-graph (none ∷ ops) a b h = scan_operands-graph ops a b h
  scan_operands-graph (some es ∷ ops) a b h =
      elim (Option-cases (scan_elements demangle type_by_name es empty_scan)) [
        | inl n ↦ absurd (ground arith)
        | inr (s, e) ↦
            let next : Analysis =
              record_vtable demangle type_by_name s
                (record a { num_potential_vtables = tick a.num_potential_vtables }) in
            scan_operands-graph ops next b (ground arith) ∙ record_vtable-graph s _
      ]

  scan_global-graph :
      (gv : GlobalVariable) (a b : Analysis)
      → scan_global demangle type_by_name gv a ≡ some b
      → b.graph ≡ a.graph
  unfolding scan_global
  scan_global-graph gv a b h =
      elim (Bool-cases (
        is_empty (cxx_demangle demangle gv.name)
        || not (contains_text (cxx_demangle demangle gv.name) vtable_for_str))) [
          | inl skipped ↦ ground arith
          | inr read ↦ elim (Option-cases gv.initializer) [
            | inl n ↦ ground arith
            | inr (ops, e) ↦ scan_operands-graph ops a b (ground arith)
          ]
        ]

  build_vtables-graph :
      (globals : List GlobalVariable) (a b : Analysis)
      → build_vtables demangle type_by_name globals a ≡ some b
      → b.graph ≡ a.graph
  unfolding build_vtables
  build_vtables-graph [] a b h = ground arith
  build_vtables-graph (gv ∷ rest) a b h =
      elim (Option-cases (scan_global demangle type_by_name gv a)) [
        | inl n ↦ absurd (ground arith)
        | inr (mid, e) ↦
            build_vtables-graph rest mid b (ground arith) ∙ scan_global-graph gv a mid e
      ]

  pub calculate-graph :
      (types : List StructType) (globals : List GlobalVariable) (a : Analysis)
      → calculate demangle type_by_name types globals ≡ some a
      → a.graph ≡ (closure_chg (build_chg types).0).0
  unfolding calculate
  calculate-graph types globals a h =
      elim (Option-cases (build_vtables demangle type_by_name globals (new_analysis types))) [
        | inl n ↦ absurd (ground arith)
        | inr (b, e) ↦
            let kept = build_vtables-graph globals (new_analysis types) b e in
            let same : close_analysis b ≡ a = some-injective _ _ (ground arith) in
            ap (λ (x : Analysis). x.graph) (sym same) ∙ ap (λ (g : Graph). (closure_chg g).0) kept
      ]
