-- ===== src/Gather/Loop.antt =====
-- The traversal of the call graph, src/GatherInterface.cpp.
use occam.Base.{
  ℕ, ◌≡◌, refl, inl, inr, true, Option, none, some, List, [], ◌∷◌, ◌++◌, arith, Bool-cases,
  if◌then◌else◌,
}
use occam.Interface.{call_any}
use occam.Value.{Value}
use occam.Gather.{
  Callee, CallRecord, from_outside, from_site, CallGraph, State, is_external, is_visited,
  push_first, record_external, visit_record, visit_records,
}

abbrev pub target_of : CallRecord → ℕ
target_of (from_outside f n) = n
target_of (from_site args behind n) = n

-- The targets of the records that are no calls of other modules.
pub inner_targets : CallGraph → List CallRecord → List ℕ
inner_targets g [] = []
inner_targets g (from_outside f n ∷ rs) = n ∷ inner_targets g rs
inner_targets g (from_site args behind n ∷ rs) =
    if is_external (g.function n) then inner_targets g rs else n ∷ inner_targets g rs

abbrev pub first_of : List ℕ → List ℕ
first_of [] = []
first_of (n ∷ ns) = n ∷ []

pub record_external-queue :
    (args : List Value) (behind : Value) (f : Option Callee) (s : State)
    → ((record_external args behind f s).queue ≡ s.queue)
      × ((record_external args behind f s).visited ≡ s.visited)
unfolding record_external
record_external-queue args behind none s = (refl, refl)
record_external-queue args behind (some f) s = (refl, refl)

pub push_first-visited : (n m : ℕ) (s : State) → is_visited n (push_first n m s).visited ≡ true
unfolding push_first
push_first-visited n m s = elim (Bool-cases (is_visited n s.visited)) [
  | inl y ↦ ground arith
  | inr y ↦ ground arith
]

push_first-queue :
    (n m : ℕ) (s : State)
    → (push_first n m s).queue ≡ (if is_visited n s.visited then [] else m ∷ []) ++ s.queue
unfolding push_first
push_first-queue n m s = elim (Bool-cases (is_visited n s.visited)) [
  | inl y ↦ ground arith
  | inr y ↦ ground arith
]

-- The records behind one that was pushed.
after_push :
    (n m : ℕ) (s : State) (q ts : List ℕ)
    → q ≡ (if is_visited n (push_first n m s).visited then [] else ts) ++ (push_first n m s).queue
    → q ≡ (if is_visited n s.visited then [] else m ∷ []) ++ s.queue
after_push n m s q ts h = ground (arith, push_first-visited n m s, push_first-queue n m s)

-- A visit of a node that was visited before adds nothing to the queue. At the first visit one node
-- is added, whatever the number of records: the target of the first record that is no call of
-- another module.
pub visit_records-queue :
    (g : CallGraph) (n : ℕ) (rs : List CallRecord) (s : State)
    → (visit_records g n rs s).queue
      ≡ (if is_visited n s.visited then [] else first_of (inner_targets g rs)) ++ s.queue
unfolding visit_records visit_record push_first inner_targets
visit_records-queue g n [] s = elim (Bool-cases (is_visited n s.visited)) [
  | inl y ↦ ground arith
  | inr y ↦ ground arith
]
visit_records-queue g n (from_outside f m ∷ rs) s =
    after_push n m (record s { interface = call_any f.name f.arg_size s.interface })
      (visit_records g n rs
        (push_first n m (record s { interface = call_any f.name f.arg_size s.interface }))).queue
      (first_of (inner_targets g rs))
      (visit_records-queue g n rs
        (push_first n m (record s { interface = call_any f.name f.arg_size s.interface })))
visit_records-queue g n (from_site args behind m ∷ rs) s =
    elim (Bool-cases (is_external (g.function m))) [
      | inl y ↦
          let next = record_external args behind (g.function m) s in
          let e = record_external-queue args behind (g.function m) s in
          let rest = visit_records-queue g n rs next in ground (arith, e, rest)
      | inr y ↦
          let rest =
            after_push n m s (visit_records g n rs (push_first n m s)).queue
              (first_of (inner_targets g rs)) (visit_records-queue g n rs (push_first n m s)) in
          ground (arith, rest)
    ]
