-- ===== src/Transform.antt =====
-- Rewrites of calls: `CallRewrite` and `ComponentInterfaceTransform` of
-- src/PrevirtualizeInterfaces.cpp.
pub mod Lookup
pub mod Read
pub mod Tests
use occam.Base.{
  ℕ, suc, ◌+◌, ◌%◌, Bool, true, false, Option, none, some, List, [], ◌∷◌, ◌++◌, map, Name, ltb,
  ◌==◌, if◌then◌else◌, is_some,
}
use occam.Value.{Value}
use occam.Interface.{
  CallInfo, ComponentInterface, find, put, refines_args, get_or_create_call, empty_interface,
}
use occam.Interface.Serial.{CallMessage, encode_call}

-- The function to call, and the positions of the arguments that remain.
pub record CallRewrite : Type 0 where
  pub function : Name
  pub args : List ℕ

-- `CMap` and `FMap`; a key of `CMap` is the pointer of a `CallInfo`.
abbrev pub CallMap : Type 0
CallMap = List (ℕ × CallRewrite)

pub record ComponentInterfaceTransform : Type 0 where
  pub interface : Option ComponentInterface
  pub rewrites : List (Name × CallMap)

unfoldable pub find_id : ℕ → CallMap → Option CallRewrite
find_id k [] = none
find_id k ((j, r) ∷ m) = if j == k then some r else find_id k m

-- `std::map::insert`, which keeps an old entry.
unfoldable pub insert_new : ℕ → CallRewrite → CallMap → CallMap
unfolding find_id
insert_new k r m = if is_some (find_id k m) then m else (k, r) ∷ m

abbrev pub or_empty : Option CallMap → CallMap
or_empty none = []
or_empty (some m) = m

-- `ComponentInterfaceTransform::rewrite`, both overloads.
unfoldable pub rewrite :
    Name → ℕ → CallRewrite → ComponentInterfaceTransform → ComponentInterfaceTransform
unfolding find put insert_new
rewrite f k r t = record t {
  rewrites = put f (insert_new k r (or_empty (find f t.rewrites))) t.rewrites;
}

-- `ComponentInterfaceTransform::getInterface`, which makes an empty interface if there is none.
unfoldable pub get_interface : ComponentInterfaceTransform → ComponentInterface
unfolding empty_interface
get_interface t = elim t.interface [ some i ↦ i | none ↦ empty_interface ]

-- `tscore > score`, where `none` is -1.
abbrev pub better : Option ℕ → Option ℕ → Bool
better none s = false
better (some a) none = true
better (some a) (some b) = ltb b a

-- The loop of `lookupRewrite` over the calls, with `score` and `search`.
unfoldable pub best : List Value → List CallInfo → Option ℕ → Option CallInfo → Option CallInfo
best vs [] score search = search
best vs (c ∷ cs) score search =
    let tscore = refines_args c.args vs in
    best vs cs (if better tscore score then tscore else score)
      (if better tscore score then some c else search)

-- `lookupRewrite` by the pointer of a call.
unfoldable pub lookup_call : Name → ℕ → ComponentInterfaceTransform → Option CallRewrite
unfolding find find_id
lookup_call f k t = elim (find f t.rewrites) [ some m ↦ find_id k m | none ↦ none ]

-- `lookupRewrite` by the operands of a call site.
unfoldable pub lookup_rewrite : Name → List Value → ComponentInterfaceTransform → Option CallRewrite
unfolding find best lookup_call
lookup_rewrite f vs t = elim t.interface [
  | none ↦ none
  | some i ↦ elim (find f i.calls) [
    | none ↦ none
    | some cs ↦ elim (best vs cs none none) [ some c ↦ lookup_call f c.id t | none ↦ none ]
  ]
]

unfoldable pub count_rewrites : List (Name × CallMap) → ℕ
count_rewrites [] = 0
count_rewrites ((f, m) ∷ r) = size m + count_rewrites r
  where
    size : CallMap → ℕ
    size [] = 0
    size (x ∷ xs) = suc (size xs)

-- `ComponentInterfaceTransform::rewriteCount`.
unfoldable pub rewrite_count : ComponentInterfaceTransform → ℕ
unfolding count_rewrites
rewrite_count t = count_rewrites t.rewrites

pub record RewriteMessage : Type 0 where
  pub call : CallMessage
  pub new_function : Name
  pub args : List ℕ

encode_rewrite : ComponentInterfaceTransform → Name → List CallInfo → List RewriteMessage
encode_rewrite t f [] = []
encode_rewrite t f (c ∷ cs) = elim (lookup_call f c.id t) [
  | some r ↦
      record { call = encode_call f c; new_function = r.function; args = r.args }
      ∷ encode_rewrite t f cs
  | none ↦ encode_rewrite t f cs
]

encode_all : ComponentInterfaceTransform → List (Name × List CallInfo) → List RewriteMessage
unfolding encode_rewrite
encode_all t [] = []
encode_all t ((f, cs) ∷ m) = encode_rewrite t f cs ++ encode_all t m

-- `codeInto<ComponentInterfaceTransform, proto::ComponentInterfaceTransform>`.
unfoldable pub encode_transform : ComponentInterfaceTransform → List RewriteMessage
unfolding encode_all
encode_transform t = encode_all t (get_interface t).calls

-- `result->count += info.count()` at the call with that pointer.
add_count : ℕ → ℕ → List CallInfo → List CallInfo
add_count k n [] = []
add_count k n (c ∷ cs) =
    (if c.id == k then record c { count = (c.count + n) % 4294967296 } else c) ∷ add_count k n cs

abbrev or_no_calls : Option (List CallInfo) → List CallInfo
or_no_calls none = []
or_no_calls (some cs) = cs

unfoldable pub count_calls : Name → ℕ → ℕ → ComponentInterface → ComponentInterface
unfolding add_count find put
count_calls f k n i = record i {
  calls = put f (add_count k n (or_no_calls (find f i.calls))) i.calls;
}

-- One round of the loop that reads a transform.
unfoldable pub decode_rewrite :
    ComponentInterfaceTransform → RewriteMessage → ComponentInterfaceTransform
decode_rewrite t m =
    let f = m.call.name in
    let (c, i) = get_or_create_call f m.call.args (get_interface t) in
    rewrite f c.id (record { function = m.new_function; args = m.args })
      (record t { interface = some (count_calls f c.id m.call.count i) })

decode_rewrites : ComponentInterfaceTransform → List RewriteMessage → ComponentInterfaceTransform
unfolding decode_rewrite
decode_rewrites t [] = t
decode_rewrites t (m ∷ ms) = decode_rewrites (decode_rewrite t m) ms

-- `codeInto<proto::ComponentInterfaceTransform, ComponentInterfaceTransform>`.
unfoldable pub decode_transform :
    List RewriteMessage → ComponentInterfaceTransform → ComponentInterfaceTransform
unfolding decode_rewrites get_interface
decode_transform ms t = decode_rewrites (record t { interface = some (get_interface t) }) ms
