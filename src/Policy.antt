-- ===== src/Policy.antt =====
-- Specialization policies: include/SpecializationPolicy.h and the four policies of src/.
pub mod Bounded
pub mod Once
pub mod Recursive
pub mod Marks
pub mod Tests
use occam.Base.{
  ℕ, zero, suc, ◌+◌, ◌%◌, Bool, true, false, not, ◌&&◌, ◌||◌, Option, none, some, List, [], ◌∷◌,
  ◌++◌, ◌==◌, if◌then◌else◌, Name, codes, starts_with, name_eq, ltb, leb, length, is_empty,
}
use occam.Value.{Value}
use occam.Previrt.{PrevirtType, abstract, is_concrete}
use occam.Interface.{ComponentInterface, calls_of}
use occam.Ir.{Function, CallSite}
use occam.Specializer.{Scheme, find_function}

-- What a policy says of a call site: to specialize or not, and the marks that it leaves.
pub record Answer {ℓ} (A : Type ℓ) : Type ℓ where
  pub specialize : Bool
  pub marks : A

-- `SpecializationPolicyType`.
pub data PolicyType : Type 0 where
  no_specialize aggressive_policy bounded_policy only_once_policy non_recursive_policy : PolicyType

-- The class `SpecializationPolicy` over the state of a policy.
pub record Policy (S : Type 0) : Type 0 where
  pub intra : CallSite → S → Answer Scheme × S
  pub inter : Function → List PrevirtType → ComponentInterface → S → Answer (List Bool) × S

-- `SpecializationPolicy::isConstantSpecializable`, after the cast to a constant.
unfoldable pub is_specializable : Value → Bool
is_specializable v = v.is_constant && is_concrete (abstract v)

unfoldable pub mark_args : List Value → Scheme
unfolding is_specializable
mark_args [] = []
mark_args (v ∷ vs) = (if is_specializable v then some v else none) ∷ mark_args vs

abbrev pub any_marked : Scheme → Bool
any_marked [] = false
any_marked (some v ∷ s) = true
any_marked (none ∷ s) = any_marked s

unfoldable pub mark_types : List PrevirtType → List Bool
mark_types [] = []
mark_types (t ∷ ts) = is_concrete t ∷ mark_types ts

abbrev pub any_set : List Bool → Bool
any_set [] = false
any_set (true ∷ bs) = true
any_set (false ∷ bs) = any_set bs

abbrev pub refuse {ℓ} : {A : Type ℓ} → List A → Answer (List A)
refuse m = record { specialize = false; marks = m }

-- `AggressiveSpecPolicy::intraSpecializeOn`.
unfoldable pub aggressive_intra : CallSite → Answer Scheme
unfolding mark_args
aggressive_intra cs = elim cs.callee [
  | none ↦ refuse []
  | some f ↦ record { specialize = any_marked (mark_args cs.args); marks = mark_args cs.args }
]

-- `AggressiveSpecPolicy::interSpecializeOn`.
unfoldable pub aggressive_inter : List PrevirtType → Answer (List Bool)
unfolding mark_types
aggressive_inter args = record { specialize = any_set (mark_types args); marks = mark_types args }

unfoldable pub aggressive : {S : Type 0} → Policy S
unfolding aggressive_intra aggressive_inter
aggressive = record {
  intra = λ cs s. (aggressive_intra cs, s);
  inter = λ f args i s. (aggressive_inter args, s);
}

-- "__occam_spec."
abbrev pub occam_spec : Name
occam_spec = codes "__occam_spec."

abbrev pub is_specialized : Function → Bool
is_specialized f = starts_with f.name occam_spec

-- The number of values of `unsigned`.
pub unsigned_mod : ℕ
unsigned_mod = 4294967296

-- `m_num_copy_map`, by the address of the function.
abbrev pub Counters : Type 0
Counters = List (ℕ × ℕ)

unfoldable pub counter : ℕ → Counters → Option ℕ
counter a [] = none
counter a ((b, n) ∷ m) = if b == a then some n else counter a m

unfoldable pub set_counter : ℕ → ℕ → Counters → Counters
set_counter a n [] = (a, n) ∷ []
set_counter a n ((b, k) ∷ m) = if b == a then (b, n) ∷ m else (b, k) ∷ set_counter a n m

-- `BoundedSpecPolicy::addCounter`.
unfoldable pub add_counter : ℕ → Counters → ℕ × Counters
unfolding counter set_counter unsigned_mod
add_counter a m = elim (counter a m) [
  | some n ↦ ((n + 1) % unsigned_mod, set_counter a ((n + 1) % unsigned_mod) m)
  | none ↦ (1, set_counter a 1 m)
]

-- `name.split(OccamSpecStr).second`, of a name that begins with the prefix.
unfoldable pub drop_prefix : Name → Name → Name
drop_prefix [] n = n
drop_prefix (p ∷ ps) [] = []
drop_prefix (p ∷ ps) (c ∷ n) = drop_prefix ps n

-- `name.split("(").first`.
unfoldable pub before_paren : Name → Name
before_paren [] = []
before_paren (c ∷ n) = if c == b'(' then [] else c ∷ before_paren n

unfoldable pub base_name : Name → Name
unfolding drop_prefix before_paren
base_name n = before_paren (drop_prefix occam_spec n)

-- One round of the loop of `BoundedSpecPolicy::BoundedSpecPolicy`.
unfoldable pub count_copy : List Function → Function → Counters → Counters
unfolding add_counter base_name find_function starts_with
count_copy m f cs =
    if not f.is_declaration && is_specialized f
    then elim (find_function (base_name f.name) m) [
      | some g ↦ (add_counter g.address cs).1
      | none ↦ cs
    ]
    else cs

-- The counters at the start: the specialized functions that the module `m` has already.
unfoldable pub count_copies : List Function → List Function → Counters → Counters
unfolding count_copy
count_copies m [] cs = cs
count_copies m (f ∷ fs) cs = count_copies m fs (count_copy m f cs)

-- The answer of the policy below, while the function has been asked for at most `threshold` times.
bound_answer {ℓ} :
    {S : Type 0} {A : Type ℓ} → ℕ → ℕ → Answer A × S → Counters → Answer A × (S × Counters)
unfolding add_counter
bound_answer threshold a (ans, s) cs =
    let counted = add_counter a cs in
    if ans.specialize
    then (record ans { specialize = leb counted.0 threshold }, (s, counted.1))
    else (ans, (s, cs))

-- `BoundedSpecPolicy`: `intraSpecializeOn` and `interSpecializeOn`.
unfoldable pub bounded : {S : Type 0} → ℕ → Policy S → Policy (S × Counters)
unfolding bound_answer starts_with
bounded threshold sub = record {
  intra = λ cs st. elim cs.callee [
    | none ↦ (refuse [], st)
    | some f ↦
        if is_specialized f
        then (refuse [], st)
        else bound_answer threshold f.address (sub.intra cs st.0) st.1
  ];
  inter = λ f args i st.
      if is_specialized f
      then (refuse [], st)
      else bound_answer threshold f.address (sub.inter f args i st.0) st.1;
}

unfoldable pub has_address : ℕ → List Function → Bool
has_address a [] = false
has_address a (f ∷ fs) = if f.address == a then true else has_address a fs

-- `calledS` and `m_blacklist` of the constructor of `OnlyOnceSpecPolicy`, over the call sites of the
-- module in order.
unfoldable pub black_list : List CallSite → List Function → List Function → List Function
unfolding has_address
black_list [] called black = black
black_list (cs ∷ rest) called black =
    let plain = black_list rest called black in
    elim cs.callee [
      | none ↦ plain
      | some f ↦
          let again = black_list rest called (f ∷ black) in
          let first = black_list rest (f ∷ called) black in
          if f.is_declaration then plain else if has_address f.address called then again else first
    ]

-- `OnlyOnceSpecPolicy` with its black list.
unfoldable pub only_once : {S : Type 0} → List Function → Policy S
unfolding has_address starts_with aggressive_intra aggressive_inter
only_once black = record {
  intra = λ cs st. elim cs.callee [
    | none ↦ (refuse [], st)
    | some f ↦
        if is_specialized f
        then (refuse [], st)
        else if has_address f.address black
        then (refuse [], st)
        else (aggressive_intra cs, st)
  ];
  inter = λ f args i st.
      if is_specialized f
      then (refuse [], st)
      else if ltb 1 (length (calls_of f.name i))
      then (refuse [], st)
      else (aggressive_inter args, st);
}

-- A strongly connected component of the call graph, as `scc_begin` gives it; a node may have no
-- function. `is_empty` is of the body.
pub record Component : Type 0 where
  pub functions : List (Option (Function × Bool))
  pub has_loop : Bool

unfoldable pub is_recursive_component : Component → Bool
is_recursive_component c = (length c.functions == 1 && c.has_loop) || ltb 1 (length c.functions)

-- The functions of a component that have a body.
unfoldable pub with_body : List (Option (Function × Bool)) → List Function
with_body [] = []
with_body (none ∷ ns) = with_body ns
with_body (some (f, empty) ∷ ns) =
    let rest = with_body ns in if f.is_declaration || empty then rest else f ∷ rest

-- `RecursiveGuardSpecPolicy::markRecursiveFunctions`.
unfoldable pub recursive_functions : List Component → List Function
unfolding is_recursive_component with_body
recursive_functions [] = []
recursive_functions (c ∷ cs) =
    if is_recursive_component c
    then with_body c.functions ++ recursive_functions cs
    else recursive_functions cs

-- `RecursiveGuardSpecPolicy` with its `m_rec_functions`.
unfoldable pub recursive_guard : {S : Type 0} → List Function → Policy S → Policy S
unfolding has_address
recursive_guard rec sub = record {
  intra = λ cs st. elim cs.callee [
    | none ↦ (refuse [], st)
    | some f ↦ if has_address f.address rec then (refuse [], st) else sub.intra cs st
  ];
  inter =
      λ f args i st. if has_address f.address rec then (refuse [], st) else sub.inter f args i st;
}
