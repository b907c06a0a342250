-- ===== src/Interface/Serial.antt =====
-- Interfaces as messages: the `codeInto` functions of `ComponentInterface` and `CallInfo` in
-- src/PrevirtualizeInterfaces.cpp. The bytes of a message are left to the protocol buffer library.
use mathlib.Core.List.{append-nil, append_assoc, map-append}
use occam.Base.{
  ℕ, suc, ◌≡◌, refl, ap, ◌∙◌, sym, Bool, true, false, ◌||◌, Option, none, some, List, [], ◌∷◌, ◌++◌,
  Name, name_eq, map, name_eq_iff, arith, if◌then◌else◌, inl, inr, Option-cases, Bool-cases,
}
use occam.Previrt.{PrevirtType}
use occam.Interface.{
  CallInfo, ComponentInterface, find, put, create, calls_of, contains, reference, empty_interface,
}
use occam.Interface.Maps.{find-put}

pub record CallMessage : Type 0 where
  pub name : Name
  pub count : ℕ
  pub args : List PrevirtType

pub record InterfaceMessage : Type 0 where
  pub calls : List CallMessage
  pub references : List Name

abbrev pub encode_call : Name → CallInfo → CallMessage
encode_call f c = record { name = f; count = c.count; args = c.args }

pub encode_calls : List (Name × List CallInfo) → List CallMessage
encode_calls [] = []
encode_calls ((f, cs) ∷ m) = map (encode_call f) cs ++ encode_calls m

-- `codeInto<ComponentInterface, proto::ComponentInterface>`.
pub encode : ComponentInterface → InterfaceMessage
unfolding encode_calls
encode i = record { calls = encode_calls i.calls; references = i.references }

-- One round of the loop over the calls; the new `CallInfo` has count 0, for the message's count is
-- not read.
pub decode_call : ComponentInterface → CallMessage → ComponentInterface
unfolding find put
decode_call i m = elim (find m.name i.calls) [
  | none ↦ record i { calls = put m.name (create i m.args 0 ∷ []) i.calls; next_id = suc i.next_id }
  | some cs ↦ record i {
    calls = put m.name (cs ++ create i m.args 0 ∷ []) i.calls;
    next_id = suc i.next_id;
  }
]

pub decode_calls : ComponentInterface → List CallMessage → ComponentInterface
unfolding decode_call
decode_calls i [] = i
decode_calls i (m ∷ ms) = decode_calls (decode_call i m) ms

pub decode_references : ComponentInterface → List Name → ComponentInterface
unfolding reference
decode_references i [] = i
decode_references i (n ∷ ns) = decode_references (reference n i) ns

-- `codeInto<proto::ComponentInterface, ComponentInterface>`.
pub decode : InterfaceMessage → ComponentInterface → ComponentInterface
unfolding decode_calls decode_references
decode m i = decode_references (decode_calls i m.calls) m.references

-- The argument lists recorded for a function, in order.
abbrev pub args_of : Name → ComponentInterface → List (List PrevirtType)
args_of f i = map (λ c. c.args) (calls_of f i)

abbrev selected : Name → List CallMessage → List (List PrevirtType)
selected f [] = []
selected f (m ∷ ms) = (if name_eq m.name f then m.args ∷ [] else []) ++ selected f ms

calls_of-decode_call :
    (f : Name) (i : ComponentInterface) (m : CallMessage)
    → calls_of f (decode_call i m)
      ≡ calls_of f i ++ (if name_eq m.name f then create i m.args 0 ∷ [] else [])
unfolding calls_of decode_call
calls_of-decode_call f i m = elim (Option-cases (find m.name i.calls)) [
  | inl n ↦ ground (
    arith,
    name_eq_iff m.name f,
    find-put m.name f (create i m.args 0 ∷ []) i.calls,
    append-nil (calls_of f i),
  )
  | inr (cs, q) ↦ ground (
    arith,
    name_eq_iff m.name f,
    find-put m.name f (cs ++ create i m.args 0 ∷ []) i.calls,
    append-nil (calls_of f i),
  )
]

args_of-decode_call :
    (f : Name) (i : ComponentInterface) (m : CallMessage)
    → args_of f (decode_call i m) ≡ args_of f i ++ (if name_eq m.name f then m.args ∷ [] else [])
args_of-decode_call f i m =
    rw (calls_of-decode_call f i m)
      (map-append _ (calls_of f i) _ ∙ ap (◌++◌ (args_of f i)) (pick (name_eq m.name f)))
  where
    pick :
        (b : Bool)
        → map (λ (c : CallInfo). c.args) (if b then create i m.args 0 ∷ [] else [])
          ≡ (if b then m.args ∷ [] else [])
    pick true = refl
    pick false = refl

args_of-decode_calls :
    (f : Name) (i : ComponentInterface) (ms : List CallMessage)
    → args_of f (decode_calls i ms) ≡ args_of f i ++ selected f ms
unfolding decode_calls
args_of-decode_calls f i [] = sym (append-nil (args_of f i))
args_of-decode_calls f i (m ∷ ms) =
    args_of-decode_calls f (decode_call i m) ms
    ∙ ap (λ l. l ++ selected f ms) (args_of-decode_call f i m)
    ∙ append_assoc (args_of f i) _ (selected f ms)

selected-append :
    (f : Name) (ms ns : List CallMessage) → selected f (ms ++ ns) ≡ selected f ms ++ selected f ns
selected-append f [] ns = refl
selected-append f (m ∷ ms) ns =
    rw (selected-append f ms ns) (sym (append_assoc _ (selected f ms) (selected f ns)))

selected-encode_call :
    (f g : Name) (cs : List CallInfo)
    → selected g (map (encode_call f) cs) ≡ (if name_eq f g then map (λ c. c.args) cs else [])
selected-encode_call f g [] = elim (Bool-cases (name_eq f g)) [
  | inl e ↦ rw e refl
  | inr e ↦ rw e refl
]
selected-encode_call f g (c ∷ cs) = ground (arith, selected-encode_call f g cs)

-- The keys of the map differ.
abbrev pub Distinct : List (Name × List CallInfo) → Type 0
Distinct [] = Unit
Distinct ((f, cs) ∷ m) = (find f m ≡ none) × Distinct m

abbrev found_args : Option (List CallInfo) → List (List PrevirtType)
found_args none = []
found_args (some cs) = map (λ c. c.args) cs

selected-encode_calls :
    (g : Name) (m : List (Name × List CallInfo))
    → Distinct m
    → selected g (encode_calls m) ≡ found_args (find g m)
unfolding encode_calls find
selected-encode_calls g [] d = refl
selected-encode_calls g ((f, cs) ∷ m) d =
    selected-append g (map (encode_call f) cs) (encode_calls m)
    ∙ ground (
      arith,
      selected-encode_call f g cs,
      selected-encode_calls g m d.1,
      name_eq_iff f g,
      append-nil (map (λ (c : CallInfo). c.args) cs),
    )

contains-reference :
    (n m : Name) (i : ComponentInterface)
    → contains n (reference m i).references ≡ (name_eq m n || contains n i.references)
unfolding contains reference
contains-reference n m i = ground (arith, name_eq_iff m n)

contains-decode_references :
    (n : Name) (i : ComponentInterface) (ns : List Name)
    → contains n (decode_references i ns).references ≡ (contains n ns || contains n i.references)
unfolding decode_references contains
contains-decode_references n i [] = refl
contains-decode_references n i (m ∷ ns) =
    ground (arith, contains-decode_references n (reference m i) ns, contains-reference n m i)

args_of-decode_references :
    (f : Name) (i : ComponentInterface) (ns : List Name)
    → args_of f (decode_references i ns) ≡ args_of f i
unfolding decode_references calls_of reference
args_of-decode_references f i [] = refl
args_of-decode_references f i (n ∷ ns) = args_of-decode_references f (reference n i) ns ∙ kept
  where
    kept : args_of f (reference n i) ≡ args_of f i
    kept = ground arith

references-decode_calls :
    (i : ComponentInterface) (ms : List CallMessage) → (decode_calls i ms).references ≡ i.references
unfolding decode_calls decode_call
references-decode_calls i [] = refl
references-decode_calls i (m ∷ ms) = references-decode_calls (decode_call i m) ms ∙ ground arith

found_args-calls_of :
    (f : Name) (i : ComponentInterface) → found_args (find f i.calls) ≡ args_of f i
unfolding calls_of
found_args-calls_of f i = elim (Option-cases (find f i.calls)) [
  | inl n ↦ ground arith
  | inr (cs, q) ↦ ground arith
]

or_false : (n : Name) (b : Bool) → (b || contains n empty_interface.references) ≡ b
unfolding empty_interface contains
or_false n true = refl
or_false n false = refl

-- An interface with distinct keys that is written and read back records the same argument lists in
-- the same order for each function, and the same references.
pub decode-encode :
    (i : ComponentInterface)
    → Distinct i.calls
    → ((f : Name) → args_of f (decode (encode i) empty_interface) ≡ args_of f i)
      × ((n : Name)
          → contains n (decode (encode i) empty_interface).references ≡ contains n i.references)
unfolding decode encode empty_interface calls_of
decode-encode i d = (
  λ f.
      args_of-decode_references f (decode_calls empty_interface (encode_calls i.calls)) i.references
      ∙ args_of-decode_calls f empty_interface (encode_calls i.calls)
      ∙ selected-encode_calls f i.calls d
      ∙ found_args-calls_of f i,
  λ n.
      contains-decode_references n (decode_calls empty_interface (encode_calls i.calls))
        i.references
      ∙ rw (references-decode_calls empty_interface (encode_calls i.calls))
          (or_false n (contains n i.references)),
)
