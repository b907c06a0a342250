-- ===== src/DeadStore/Known.antt =====
-- What the worklist knows of an instruction and a store.
use occam.Base.{
  ℕ, Bool, true, false, ◌&&◌, ◌||◌, ◌==◌, some, List, [], ◌∷◌, ◌≡◌, ◌≢◌, ap, ◌∙◌, arith, inl, inr,
  ◌⊎◌, All, Bool-cases, if◌then◌else◌,
}
use occam.DeadStore.Worklist.{QueueElem, Search, is_seen, mark, find_mark, enqueue_all}

unfoldable pub is_queued : ℕ → ℕ → List QueueElem → Bool
is_queued i s [] = false
is_queued i s (w ∷ q) = (i == w.shadow_mem_inst && s == w.store_inst) || is_queued i s q

-- The pair is visited or waits in the queue.
unfoldable pub is_known : ℕ → ℕ → Search → Bool
unfolding is_seen is_queued
is_known i s t = is_seen i s t.visited || is_queued i s t.queue

pub find_mark-mark :
    (s t : ℕ) (b : Bool) (m : List (ℕ × Bool))
    → find_mark s (mark t b m) ≡ (if s == t then some b else find_mark s m)
unfolding find_mark mark
find_mark-mark s t b [] = ground arith
find_mark-mark s t b ((u, c) ∷ m) = ground (arith, find_mark-mark s t b m)

pub is_queued-enqueue_all :
    (i s : ℕ) (is : List ℕ) (t n : ℕ) (q : List QueueElem)
    → is_queued i s q ≡ true
    → is_queued i s (enqueue_all is t n q) ≡ true
unfolding is_queued enqueue_all
is_queued-enqueue_all i s [] t n q h = h
is_queued-enqueue_all i s (j ∷ is) t n q h =
    is_queued-enqueue_all i s is t n
      ((record { shadow_mem_inst = j; store_inst = t; length = n }) ∷ q) (ground arith)

pub enqueued-is_queued :
    (is : List ℕ) (t n : ℕ) (q : List QueueElem)
    → All (λ j. is_queued j t (enqueue_all is t n q) ≡ true) is
unfolding is_queued enqueue_all
enqueued-is_queued [] t n q = tt
enqueued-is_queued (j ∷ is) t n q =
    let next : List QueueElem = (record { shadow_mem_inst = j; store_inst = t; length = n }) ∷ q in
    (is_queued-enqueue_all j t is t n next (ground arith), enqueued-is_queued is t n next)

pub queued-is_known : (j s : ℕ) (u : Search) → is_queued j s u.queue ≡ true → is_known j s u ≡ true
unfolding is_known
queued-is_known j s u h = ground (arith, Bool-cases (is_seen j s u.visited))

pub seen-cons :
    (w : QueueElem) (v : List (ℕ × ℕ)) (i s : ℕ)
    → is_seen i s ((w.shadow_mem_inst, w.store_inst) ∷ v) ≡ true
    → ((i ≡ w.shadow_mem_inst) × (s ≡ w.store_inst)) ⊎ (is_seen i s v ≡ true)
unfolding is_seen
seen-cons w v i s h = elim (Bool-cases (i == w.shadow_mem_inst && s == w.store_inst)) [
  | inl same ↦ inl (ground arith, ground arith)
  | inr other ↦ inr (ground arith)
]

-- A state and one in which everything known is still known.
abbrev pub Knows : Search → Search → Type 0
Knows t u = (i s : ℕ) → is_known i s t ≡ true → is_known i s u ≡ true

pub seen_other :
    (w : QueueElem) (v : List (ℕ × ℕ)) (i s : ℕ)
    → s ≢ w.store_inst
    → is_seen i s ((w.shadow_mem_inst, w.store_inst) ∷ v) ≡ true
    → is_seen i s v ≡ true
unfolding is_seen
seen_other w v i s differs h = elim (Bool-cases (s == w.store_inst)) [
  | inl same ↦ absurd (differs (ground arith))
  | inr other ↦ ground (arith, Bool-cases (i == w.shadow_mem_inst))
]

-- The states of a step: with its element in the queue, without it, and with it visited.
pub Knows-visited :
    (w : QueueElem) (q p : List QueueElem) (v : List (ℕ × ℕ)) (m n : List (ℕ × Bool)) (k l : ℕ)
    → ((i s : ℕ) → is_queued i s q ≡ true → is_queued i s p ≡ true)
    → Knows
        (record { queue = w ∷ q; visited = v; store_map = m; skipped_chains = k })
        (record {
          queue = p;
          visited = (w.shadow_mem_inst, w.store_inst) ∷ v;
          store_map = n;
          skipped_chains = l;
        })
unfolding is_known is_seen is_queued
Knows-visited w q p v m n k l more i s h =
    ground (arith, more i s, Bool-cases (is_seen i s v), Bool-cases (is_queued i s q))

pub Knows-again :
    (w : QueueElem) (q : List QueueElem) (v : List (ℕ × ℕ)) (m n : List (ℕ × Bool)) (k : ℕ)
    → is_seen w.shadow_mem_inst w.store_inst v ≡ true
    → Knows
        (record { queue = w ∷ q; visited = v; store_map = m; skipped_chains = k })
        (record { queue = q; visited = v; store_map = n; skipped_chains = k })
unfolding is_known is_queued
Knows-again w q v m n k seen i s h =
    elim (Bool-cases (i == w.shadow_mem_inst && s == w.store_inst)) [
      | inl same ↦
          let key : i ≡ w.shadow_mem_inst = ground arith in
          let store : s ≡ w.store_inst = ground arith in
          let here : is_seen i s v ≡ true =
            ap (λ x. is_seen x s v) key ∙ ap (λ y. is_seen w.shadow_mem_inst y v) store ∙ seen in
          ground arith
      | inr other ↦ ground arith
    ]

-- The state in which the loop finds an element, and the one without it.
abbrev pub with_queue : List QueueElem → Search → Search
with_queue q t = record t { queue = q }

abbrev pub visited_with : QueueElem → Search → Search
visited_with w t = record t { visited = (w.shadow_mem_inst, w.store_inst) ∷ t.visited }
