-- ===== src/Transform/Read.antt =====
-- Reading a transform: `getOrCreateCall` and the loop of `codeInto` in
-- src/PrevirtualizeInterfaces.cpp.
use occam.Base.{
  subst, ℕ, ◌≡◌, refl, true, Option, none, some, List, [], ◌∷◌, ◌++◌, Name, name_eq_refl, arith,
  inl, inr, Option-cases, Bool-cases,
}
use occam.Previrt.{PrevirtType, eq, unknown, int, float, str, null, global}
use occam.Interface.{
  CallInfo, ComponentInterface, find, same_args, find_call, get_or_create_call, create,
}
use occam.Interface.Maps.{find-put}
use occam.Transform.{
  ComponentInterfaceTransform, lookup_call, get_interface, RewriteMessage, decode_rewrite,
  count_calls,
}
use occam.Transform.Lookup.{lookup_call-rewrite}

eq_refl : (t : PrevirtType) → eq t t ≡ true
unfolding eq
eq_refl unknown = refl
eq_refl null = refl
eq_refl (int b t) = ground (arith, name_eq_refl t)
eq_refl (float s d) = refl
eq_refl (str d c) = name_eq_refl d
eq_refl (global n c) = name_eq_refl n

same_args_refl : (ts : List PrevirtType) → same_args ts ts ≡ true
unfolding same_args
same_args_refl [] = refl
same_args_refl (t ∷ ts) = ground (arith, eq_refl t, same_args_refl ts)

find_call-same :
    (args : List PrevirtType) (cs : List CallInfo) (c : CallInfo)
    → find_call args cs ≡ some c
    → same_args args c.args ≡ true
unfolding find_call
find_call-same args [] c e = absurd (ground arith)
find_call-same args (d ∷ cs) c e = elim (Bool-cases (same_args args d.args)) [
  | inl b ↦ let same : d ≡ c = ground arith in subst (λ x. same_args args x.args ≡ true) same b
  | inr b ↦ find_call-same args cs c (rw b at e)
]

find_call-append :
    (args : List PrevirtType) (cs : List CallInfo) (c : CallInfo)
    → find_call args cs ≡ none
    → same_args args c.args ≡ true
    → find_call args (cs ++ c ∷ []) ≡ some c
unfolding find_call
find_call-append args [] c n b = rw b
find_call-append args (d ∷ cs) c n b = ground (arith, find_call-append args cs c)

-- The call that `getOrCreateCall` returns has arguments equal to those asked for, and to ask again
-- returns the same call and changes nothing.
pub get_or_create_call_idem :
    (f : Name) (args : List PrevirtType) (i : ComponentInterface)
    → let (c, j) = get_or_create_call f args i in
      (same_args args c.args ≡ true) × (get_or_create_call f args j ≡ (c, j))
unfolding get_or_create_call
get_or_create_call_idem f args i = elim (Option-cases (find f i.calls)) [
  | inl n ↦
      let new = create i args 0 in
      ground (
        arith,
        same_args_refl args,
        name_eq_refl f,
        find-put f f (new ∷ []) i.calls,
        find_call-append args [] new refl (same_args_refl args),
      )
  | inr (cs, q) ↦ elim (Option-cases (find_call args cs)) [
    | inl n ↦
        let new = create i args 0 in
        ground (
          arith,
          same_args_refl args,
          name_eq_refl f,
          find-put f f (cs ++ new ∷ []) i.calls,
          find_call-append args cs new n (same_args_refl args),
        )
    | inr (c, e) ↦ ground (arith, find_call-same args cs c e)
  ]
]

-- The call that a message of a transform asks for.
abbrev pub asked : ComponentInterfaceTransform → RewriteMessage → CallInfo
asked t m = (get_or_create_call m.call.name m.call.args (get_interface t)).0

lookup_call-interface :
    (f : Name) (k : ℕ) (t : ComponentInterfaceTransform) (i : Option ComponentInterface)
    → lookup_call f k (record t { interface = i }) ≡ lookup_call f k t
unfolding lookup_call
lookup_call-interface f k t i = refl

-- A message that is read gives its call its rewrite, unless the call had one.
pub lookup_call-decode_rewrite :
    (t : ComponentInterfaceTransform) (m : RewriteMessage)
    → lookup_call m.call.name (asked t m).id t ≡ none
    → lookup_call m.call.name (asked t m).id (decode_rewrite t m)
      ≡ some (record { function = m.new_function; args = m.args })
unfolding decode_rewrite
lookup_call-decode_rewrite t m n =
    let f = m.call.name in
    let k = (asked t m).id in
    let t' = record t {
      interface =
          some
            (count_calls f k m.call.count (get_or_create_call f m.call.args (get_interface t)).1);
    } in
    ground (
      arith,
      lookup_call-rewrite f f k k (record { function = m.new_function; args = m.args }) t',
      lookup_call-interface f k t t'.interface,
      name_eq_refl f,
    )
