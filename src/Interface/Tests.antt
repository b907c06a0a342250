-- ===== src/Interface/Tests.antt =====
-- Runs of the interface on small modules, and the theorems at them.
use occam.Base.{◌≡◌, refl, Name, codes, List, [], ◌∷◌, name_eq}
use occam.Value.{Value}
use occam.Previrt.{unknown, int, abstract, refines}
use occam.Previrt.Tests.{opaque_value, int_of, int_of-IsFaithful}
use occam.Interface.{ComponentInterface, call, calls_of, empty_interface, contains, find}
use occam.Interface.Ids.{Update}
use occam.Interface.Missed.{Covers, call_misses}
use occam.Interface.Serial.{decode, encode, args_of, decode-encode}

abbrev f_name : Name
f_name = codes "f"

abbrev one : Value
one = int_of 1 (codes "1")

abbrev two : Value
two = int_of 2 (codes "2")

abbrev behind : Value
behind = opaque_value 9

abbrev pub one_call : ComponentInterface
one_call = record {
  calls =
      (codes "f", record { id = 0; count = 1; args = int 32 (codes "1") ∷ unknown ∷ [] } ∷ []) ∷ [];
  references = codes "g" ∷ [];
  next_id = 1;
}

call_twice :
    calls_of f_name (call f_name (one ∷ opaque_value 3 ∷ []) behind one_call)
    ≡ record { id = 0; count = 2; args = int 32 (codes "1") ∷ unknown ∷ [] } ∷ []
unfolding call calls_of refines abstract name_eq
call_twice = refl

abbrev history : List Update
history =
    Update.calls f_name (one ∷ []) behind
    ∷ Update.calls_any f_name 1
    ∷ Update.refers f_name
    ∷ Update.gets f_name (unknown ∷ [])
    ∷ []

call_misses_example :
    (calls_of f_name
        (call f_name (one ∷ two ∷ []) behind (call f_name (one ∷ one ∷ []) behind empty_interface))
      ≡ record { id = 0; count = 2; args = abstract one ∷ abstract one ∷ [] } ∷ [])
    × ¬ Covers f_name
        (one ∷ two ∷ [])
        (call f_name (one ∷ two ∷ []) behind (call f_name (one ∷ one ∷ []) behind empty_interface))
unfolding empty_interface abstract refines name_eq find
call_misses_example =
    call_misses f_name one two behind behind empty_interface (int_of-IsFaithful 1 (codes "1")) refl
      refl

decode-encode_example :
    ((f : Name) → args_of f (decode (encode one_call) empty_interface) ≡ args_of f one_call)
    × ((n : Name)
        → contains n (decode (encode one_call) empty_interface).references
          ≡ contains n one_call.references)
unfolding find
decode-encode_example = decode-encode one_call (refl, tt)
