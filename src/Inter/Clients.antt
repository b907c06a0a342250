-- ===== src/Inter/Clients.antt =====
-- What a client's call gets from the rewrites of a specialized module, src/InterSpecializer.cpp and
-- `lookupRewrite` of src/PrevirtualizeInterfaces.cpp.
use occam.Base.{
  ℕ, ◌≡◌, ◌≢◌, refl, sym, subst, Bool, Option, none, some, List, [], Name, arith, All, In,
  Option-cases, inl, inr,
}
use occam.Value.{Value}
use occam.Previrt.{Constant, Target}
use occam.Previrt.Round.{IsCString}
use occam.Interface.Ids.{IsWellFormed, IsWellFormed-own}
use occam.Interface.{CallInfo, ComponentInterface, calls_of, find, refines_args}
use occam.Transform.{
  CallRewrite, ComponentInterfaceTransform, lookup_rewrite, lookup_call, get_interface,
}
use occam.Transform.Lookup.{lookup_rewrite-best}
use occam.Ir.{Function}
use occam.Specializer.{Scheme, specialize_function}
use occam.Policy.{Policy}
use occam.Policy.Marks.{IsHonest}
use occam.Inter.{Run, specialize_component, specialize_all}
use occam.Inter.Made.{IsSound, specialize_all-IsSound}
use occam.Inter.Served.{Rebuilds, rebuild}

-- The strings of the recorded calls end in their only NUL.
abbrev pub HasCStrings : ComponentInterface → Type 0
HasCStrings i = (n : Name) (c : CallInfo) → In c (calls_of n i) → All IsCString c.args

-- The rewrite names the function that `specializeFunction` gives for a scheme, and the arguments that it
-- passes rebuild the arguments of the call with the constants of this scheme.
pub record Served (hash : Name → Name) (clone : Function → Scheme → Name → Function)
    (make : Constant → Value) (vs : List Value) (new : CallRewrite) : Type 0 where
  pub scheme : Scheme
  pub original : Function
  pub before : List Function
  pub version : Function × List Function
  pub found : specialize_function hash clone before original scheme ≡ some version
  pub named : version.0.name ≡ new.function
  pub rebuilds : Rebuilds make scheme new.args vs

lookup_call-none :
    (n : Name) (k : ℕ) (t : ComponentInterfaceTransform)
    → t.rewrites ≡ []
    → lookup_call n k t ≡ none
unfolding lookup_call find
lookup_call-none n k t e = ground arith

interface-kept :
    (i : ComponentInterface) (t : ComponentInterfaceTransform)
    → t.interface ≡ some i
    → get_interface t ≡ i
unfolding get_interface
interface-kept i t e = ground arith

Made-Served :
    (hash : Name → Name) (clone : Function → Scheme → Name → Function) (make : Constant → Value)
    (i : ComponentInterface) (t : ComponentInterfaceTransform) (name : Name) (vs : List Value)
    (new : CallRewrite)
    → IsWellFormed i
    → HasCStrings i
    → IsSound hash clone make i t
    → lookup_rewrite name vs t ≡ some new
    → Served hash clone make vs new
unfolding get_interface
Made-Served hash clone make i t name vs new own strings h e =
    let (c, here, covers, most, key) = lookup_rewrite-best name vs t new e in
    let (d, there, same_id, m) = h.made name c.id new key in
    let kept : get_interface t ≡ i = interface-kept i t h.kept in
    let in_i : In c (calls_of name i) = subst (λ x. In c (calls_of name x)) kept here in
    let same : d ≡ c = IsWellFormed-own i own name d c there in_i same_id in
    let covers_d = subst (λ x. refines_args x.args vs ≢ none) (sym same) covers in
    record {
      scheme = m.scheme;
      original = m.original;
      before = m.before;
      version = m.version;
      found = m.found;
      named = m.named;
      rebuilds =
          subst (λ p. Rebuilds make m.scheme p vs) (sym m.positions)
            (rebuild make m.at 0 m.marks d.args vs m.scheme m.fits (strings name d there) covers_d
              m.constants);
    }

-- After a module was specialized with respect to its interface, under a policy that marks concrete
-- arguments only and with no rewrite at first, a call that finds a rewrite finds the name of a
-- function that `specializeFunction` gave for a scheme of constants; this function is found by its
-- name, so that it is an older one on a collision. The arguments that the rewrite passes are as many as
-- the scheme has blanks. Put into these blanks, they give as many values as the call has arguments, each
-- the argument or a constant that the argument is, provided that the recorded strings end in their only
-- NUL and that the interface is well-formed.
pub specialize_component-Served :
    {S : Type 0} (hash : Name → Name) (clone : Function → Scheme → Name → Function)
    (make : Constant → Value) (target : List Function → Function → ℕ → Target)
    (alias : Name → Option Function) (policy : Policy S) (r q : Run S) (b : Bool) (name : Name)
    (vs : List Value) (new : CallRewrite)
    → IsHonest policy
    → r.transform.rewrites ≡ []
    → IsWellFormed (get_interface r.transform)
    → HasCStrings (get_interface r.transform)
    → specialize_component hash clone make target alias policy r ≡ some (q, b)
    → lookup_rewrite name vs q.transform ≡ some new
    → Served hash clone make vs new
unfolding specialize_component
specialize_component-Served hash clone make target alias policy r q b name vs new honest empty own
      strings run e =
    let i = get_interface r.transform in
    let start = record r.transform { interface = some i } in
    let begin : IsSound hash clone make i start = record {
      kept = refl;
      made = λ n k w x.
          let old : lookup_call n k start ≡ none = lookup_call-none n k start empty in
          absurd (ground arith);
    } in
    elim (Option-cases (
      specialize_all hash clone make target alias policy i i.calls
        (record r { transform = start }))) [
          | inl n ↦ absurd (ground arith)
          | inr (p, z) ↦
              let same : p ≡ q = ground arith in
              Made-Served hash clone make i q.transform name vs new own strings
                (subst (λ x. IsSound hash clone make i x.transform) same
                  (specialize_all-IsSound hash clone make target alias policy honest i i.calls _ p
                    begin z))
                e
        ]
