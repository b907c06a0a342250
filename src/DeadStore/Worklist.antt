-- ===== src/DeadStore/Worklist.antt =====
-- The worklist of src/transforms/IPDeadStoreElimination.cpp.
use occam.Base.{
  ℕ, zero, suc, ◌+◌, ◌%◌, Bool, true, false, not, ◌&&◌, ◌||◌, ◌==◌, Option, none, some, List, [],
  ◌∷◌, if◌then◌else◌,
}
use occam.MemorySsa.{MemCall, Formals, store, is_mem_ssa}
use occam.DeadStore.{User, Effect, visit_users, has_load_user}

-- `QueueElem`: the memory instruction, the store, and the number of steps between them.
pub record QueueElem : Type 0 where
  pub shadow_mem_inst : ℕ
  pub store_inst : ℕ
  pub length : ℕ

-- The state: the queue with its back in front, the visited pairs, `m_store_map` with true for a store
-- that is kept, and the count of chains that are too long.
pub record Search : Type 0 where
  pub queue : List QueueElem
  pub visited : List (ℕ × ℕ)
  pub store_map : List (ℕ × Bool)
  pub skipped_chains : ℕ

unfoldable pub is_seen : ℕ → ℕ → List (ℕ × ℕ) → Bool
is_seen i s [] = false
is_seen i s ((j, t) ∷ ps) = (i == j && s == t) || is_seen i s ps

unfoldable pub mark : ℕ → Bool → List (ℕ × Bool) → List (ℕ × Bool)
mark s b [] = (s, b) ∷ []
mark s b ((t, c) ∷ m) = if s == t then (t, b) ∷ m else (t, c) ∷ mark s b m

unfoldable pub find_mark : ℕ → List (ℕ × Bool) → Option Bool
find_mark s [] = none
find_mark s ((t, c) ∷ m) = if s == t then some c else find_mark s m

-- `markStoreToKeep`.
unfoldable pub keep_store : ℕ → Search → Search
unfolding mark
keep_store s t = record t { store_map = mark s true t.store_map }

-- The elements of the next instructions, pushed one by one.
unfoldable pub enqueue_all : List ℕ → ℕ → ℕ → List QueueElem → List QueueElem
enqueue_all [] s n q = q
enqueue_all (i ∷ is) s n q =
    enqueue_all is s n ((record { shadow_mem_inst = i; store_inst = s; length = n }) ∷ q)

unfoldable pub apply_effect : QueueElem → Effect → Search → Search
unfolding enqueue_all keep_store
apply_effect w e t =
    let pushed : Search = record t {
      queue = enqueue_all e.pushed w.store_inst ((w.length + 1) % 4294967296) t.queue;
    } in
    if e.keep then keep_store w.store_inst pushed else pushed

-- An instruction of a function: a call, a store, or something else.
pub data Inst : Type 0 where
  mem_call : MemCall → Inst
  store_inst : ℕ → Inst
  other_inst : Inst

-- What a run gives; a fatal error ends it.
pub data Result : Type 0 where
  finished : Search → Result
  fatal : Result
  out_of_fuel : Result

-- Over the users of an instruction and `MMan.getFunction`, with the options.
module _ (uses : ℕ → List User) (get_function : ℕ → Option Formals) (only_singleton : Bool)
    (max_len : ℕ) where
  -- The body of the loop, for the element that is popped.
  unfoldable pub process : QueueElem → Search → Option Search
  unfolding is_seen keep_store visit_users has_load_user apply_effect
  process w t =
      if is_seen w.shadow_mem_inst w.store_inst t.visited
      then some (keep_store w.store_inst t)
      else let u : Search = record t { visited = (w.shadow_mem_inst, w.store_inst) ∷ t.visited } in
        if w.length == max_len
        then some (
            keep_store w.store_inst
              (record u { skipped_chains = (u.skipped_chains + 1) % 4294967296 }))
        else if has_load_user get_function only_singleton (uses w.shadow_mem_inst)
        then some (keep_store w.store_inst u)
        else elim (visit_users get_function only_singleton (uses w.shadow_mem_inst)) [
          | none ↦ none
          | some e ↦ some (apply_effect w e u)
        ]

  unfoldable pub loop : ℕ → Search → Result
  unfolding process
  loop zero t = out_of_fuel
  loop (suc n) t = elim t.queue [
    | [] ↦ finished t
    | w ∷ q ↦ elim (process w (record t { queue = q })) [ none ↦ fatal | some u ↦ loop n u ]
  ]

-- The store behind a shadow store.
unfoldable pub next_store : List Inst → Option ℕ
next_store [] = none
next_store (store_inst s ∷ rest) = some s
next_store (mem_call c ∷ rest) = none
next_store (other_inst ∷ rest) = none

unfoldable pub start_chain : ℕ → ℕ → Search → Search
unfolding mark
start_chain i s t = record t {
  queue = (record { shadow_mem_inst = i; store_inst = s; length = 0 }) ∷ t.queue;
  store_map = mark s false t.store_map;
}

-- The first worklist: each shadow store with the store behind it, which is to be removed so far; `none` is
-- a fatal error.
unfoldable pub start_search : Bool → List Inst → Search → Option Search
unfolding is_mem_ssa next_store start_chain
start_search only_singleton [] t = some t
start_search only_singleton (store_inst s ∷ rest) t = start_search only_singleton rest t
start_search only_singleton (other_inst ∷ rest) t = start_search only_singleton rest t
start_search only_singleton (mem_call c ∷ rest) t =
    if is_mem_ssa store c only_singleton
    then elim (next_store rest) [
      | none ↦ none
      | some s ↦ start_search only_singleton rest (start_chain c.address s t)
    ]
    else start_search only_singleton rest t

abbrev pub empty_search : Search
empty_search = record { queue = []; visited = []; store_map = []; skipped_chains = 0 }

-- `runOnModule` up to the removal, on the instructions of the module.
unfoldable pub run_dse : (ℕ → List User) → (ℕ → Option Formals) → Bool → ℕ → ℕ → List Inst → Result
unfolding start_search loop
run_dse uses get_function only_singleton max_len fuel insts =
    elim (start_search only_singleton insts empty_search) [
      | none ↦ fatal
      | some t ↦ loop uses get_function only_singleton max_len fuel t
    ]

-- Is the store removed at the end?
unfoldable pub is_removed : ℕ → Search → Bool
unfolding find_mark
is_removed s t = elim (find_mark s t.store_map) [ none ↦ false | some keep ↦ not keep ]
