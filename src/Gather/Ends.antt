-- ===== src/Gather/Ends.antt =====
-- The traversal of the call graph ends, src/GatherInterface.cpp.
use occam.Base.{
  ℕ, zero, suc, ◌+◌, ◌<◌, ◌≤◌, ◌≡◌, refl, sym, subst, ap, ◌∙◌, ◌⊎◌, inl, inr, Bool, true, false,
  ◌==◌, Option, some, List, [], ◌∷◌, arith, length, Bool-cases, if◌then◌else◌, All, Name,
}
use occam.Interface.{ComponentInterface, call_any, empty_interface}
use occam.Gather.{
  CallRecord, from_outside, from_site, CallGraph, State, Used, is_external, is_visited, push_first,
  record_external, visit_record, visit_records, visit_node, traverse, gather, start_queue,
  reference_used, reference_declared,
}
use occam.Gather.Loop.{target_of, record_external-queue, push_first-visited}

-- The visit of a node `n` adds nothing, or it is the first one and adds one of the nodes.
abbrev Progress : List ℕ → ℕ → State → State → Type 0
Progress nodes n s q =
    ((q.queue ≡ s.queue) × (q.visited ≡ s.visited))
    ⊎ ((t : ℕ) × (is_visited n s.visited ≡ false)
        × (is_visited t nodes ≡ true)
        × (q.queue ≡ t ∷ s.queue)
        × (q.visited ≡ n ∷ s.visited))

abbrev InNodes : List ℕ → ℕ → Type 0
InNodes nodes n = is_visited n nodes ≡ true

-- The targets of the records are nodes of the list, and so is the node for the calls from outside.
pub record IsClosed (g : CallGraph) (nodes : List ℕ) : Type 0 where
  pub outside : is_visited g.external_calling nodes ≡ true
  pub targets : (n : ℕ) → All (λ r. is_visited (target_of r) nodes ≡ true) (g.records n)

push_first-Progress :
    (nodes : List ℕ) (n m : ℕ) (s q : State)
    → InNodes nodes m
    → Progress nodes n (push_first n m s) q
    → Progress nodes n s q
unfolding push_first
push_first-Progress nodes n m s q h (inr (t, v, k, e, f)) =
    absurd (ground (arith, push_first-visited n m s))
push_first-Progress nodes n m s q h (inl (a, b)) = elim (Bool-cases (is_visited n s.visited)) [
  | inl y ↦ inl (ground arith, ground arith)
  | inr y ↦ inr (m, y, h, ground arith, ground arith)
]

visit_records-Progress :
    (g : CallGraph) (nodes : List ℕ) (n : ℕ) (rs : List CallRecord) (s : State)
    → All (λ r. InNodes nodes (target_of r)) rs
    → Progress nodes n s (visit_records g n rs s)
unfolding visit_records visit_record
visit_records-Progress g nodes n [] s h = inl (refl, refl)
visit_records-Progress g nodes n (from_outside f m ∷ rs) s h =
    let next : State = record s { interface = call_any f.name f.arg_size s.interface } in
    push_first-Progress nodes n m next (visit_records g n rs (push_first n m next)) h.0
      (visit_records-Progress g nodes n rs (push_first n m next) h.1)
visit_records-Progress g nodes n (from_site args behind m ∷ rs) s h =
    elim (Bool-cases (is_external (g.function m))) [
      | inl y ↦
          let next = record_external args behind (g.function m) s in
          let e = record_external-queue args behind (g.function m) s in
          let same : visit_records g n (from_site args behind m ∷ rs) s
              ≡ visit_records g n rs next =
            ground arith in
          subst (Progress nodes n s) (sym same)
            (elim (visit_records-Progress g nodes n rs next h.1) [
              | inl (a, b) ↦ inl (a ∙ e.0, b ∙ e.1)
              | inr (t, v, k, a, b) ↦ inr (
                t,
                subst (λ x. is_visited n x ≡ false) e.1 v,
                k,
                a ∙ ap (λ x. t ∷ x) e.0,
                b ∙ ap (λ x. n ∷ x) e.1,
              )
            ])
      | inr y ↦
          let same : visit_records g n (from_site args behind m ∷ rs) s
              ≡ visit_records g n rs (push_first n m s) =
            ground arith in
          subst (Progress nodes n s) (sym same) (
            push_first-Progress nodes n m s (visit_records g n rs (push_first n m s)) h.0
              (visit_records-Progress g nodes n rs (push_first n m s) h.1))
    ]

-- The node that is visited may be that of the calls from outside.
visit_node-Progress :
    (g : CallGraph) (nodes : List ℕ) (n : ℕ) (s : State)
    → IsClosed g nodes
    → InNodes nodes n
    → (k : ℕ) × InNodes nodes k × Progress nodes k s (visit_node g n s)
unfolding visit_node
visit_node-Progress g nodes n s h m = elim (Bool-cases (is_external (g.function n))) [
  | inl y ↦ (n, m, inl (ground arith, ground arith))
  | inr y ↦ elim (Bool-cases (n == g.calls_external)) [
    | inl z ↦ elim (Bool-cases (is_visited g.external_calling s.visited)) [
      | inl w ↦ (n, m, inl (ground arith, ground arith))
      | inr w ↦
          let same : visit_node g n s
              ≡ visit_records g g.external_calling (g.records g.external_calling) s =
            ground arith in
          (
            g.external_calling,
            h.outside,
            subst (Progress nodes g.external_calling s) (sym same) (
                visit_records-Progress g nodes g.external_calling (g.records g.external_calling) s
                  (h.targets g.external_calling)),
          )
    ]
    | inr z ↦
        let same : visit_node g n s ≡ visit_records g n (g.records n) s = ground arith in
        (
          n,
          m,
          subst (Progress nodes n s) (sym same)
              (visit_records-Progress g nodes n (g.records n) s (h.targets n)),
        )
  ]
]

-- How many of the nodes are not visited.
unvisited : List ℕ → List ℕ → ℕ
unvisited [] vs = 0
unvisited (n ∷ ns) vs = (if is_visited n vs then 0 else 1) + unvisited ns vs

unvisited-le : (ns vs : List ℕ) (n : ℕ) → unvisited ns (n ∷ vs) ≤ unvisited ns vs
unfolding unvisited is_visited
unvisited-le [] vs n = omega arith
unvisited-le (m ∷ ns) vs n = ground (arith, unvisited-le ns vs n)

unvisited-lt :
    (ns vs : List ℕ) (n : ℕ)
    → is_visited n ns ≡ true
    → is_visited n vs ≡ false
    → unvisited ns (n ∷ vs) < unvisited ns vs
unfolding unvisited is_visited
unvisited-lt [] vs n h k = absurd (ground arith)
unvisited-lt (m ∷ ns) vs n h k = elim (Bool-cases (m == n)) [
  | inl y ↦ let same : m ≡ n = ground arith in ground (arith, unvisited-le ns vs n)
  | inr y ↦ ground (arith, unvisited-lt ns vs n)
]

unvisited-length : (ns : List ℕ) → unvisited ns [] ≤ length ns
unfolding unvisited is_visited
unvisited-length [] = omega arith
unvisited-length (n ∷ ns) = ground (arith, unvisited-length ns)

traverse-ends :
    (k : ℕ) (g : CallGraph) (nodes queue : List ℕ) (s : State)
    → IsClosed g nodes
    → s.queue ≡ queue
    → All (InNodes nodes) queue
    → length queue + unvisited nodes s.visited < k
    → (q : State) × (traverse k g s ≡ some q)
unfolding traverse
traverse-ends zero g nodes queue s h e a f = absurd (omega arith)
traverse-ends (suc k) g nodes [] s h e a f = (s, ground arith)
traverse-ends (suc k) g nodes (n ∷ rest) s h e a f =
    let taken : State = record s { queue = rest } in
    let next = visit_node g n taken in
    let step : traverse (suc k) g s ≡ traverse k g next = ground arith in
    let (m, here, p) = visit_node-Progress g nodes n taken h a.0 in
    elim p [
      | inl (same, old) ↦
          let less : length rest + unvisited nodes next.visited < k =
            subst (λ v. length rest + unvisited nodes v < k) (sym old) (omega arith) in
          let (q, z) = traverse-ends k g nodes rest next h same a.1 less in (q, step ∙ z)
      | inr (t, new, at, more, now) ↦
          let fewer = unvisited-lt nodes s.visited m here new in
          let less : length (t ∷ rest) + unvisited nodes next.visited < k =
            subst (λ v. length (t ∷ rest) + unvisited nodes v < k) (sym now) (omega arith) in
          let (q, z) = traverse-ends k g nodes (t ∷ rest) next h more (at, a.1) less in
          (q, step ∙ z)
    ]

-- The traversal ends: each round takes a node from the queue, and a node is added only at the first
-- visit of another one, so as many rounds as there are entries and nodes, and one more, are enough.
-- The list holds the entries, the targets of all records, and the node for the calls from outside.
pub gather-ends :
    (g : CallGraph) (nodes : List ℕ) (entries : Option (List ℕ)) (used : List Used)
    (symbols : List (Name × Bool))
    → IsClosed g nodes
    → All (λ n. is_visited n nodes ≡ true) (start_queue g entries)
    → (i : ComponentInterface) × (gather
          (suc (length (start_queue g entries) + length nodes))
          g
          entries
          used
          symbols
        ≡ some i)
unfolding gather
gather-ends g nodes entries used symbols h a =
    let start : State = record {
      queue = start_queue g entries;
      visited = [];
      interface = reference_used used empty_interface;
    } in
    let bound = unvisited-length nodes in
    let (q, z) =
      traverse-ends (suc (length (start_queue g entries) + length nodes)) g nodes
        (start_queue g entries) start h refl a (omega arith) in
    (reference_declared symbols q.interface, ground arith)
