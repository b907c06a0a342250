-- ===== src/Transform/Lookup.antt =====
-- Which rewrite a call site gets, src/PrevirtualizeInterfaces.cpp.
use occam.Base.{
  subst, not, ℕ, suc, zero, ◌≤◌, ◌≡◌, refl, ◌≢◌, true, false, Option, none, some, List, [], ◌∷◌,
  Name, name_eq, ◌&&◌, name_eq_iff, arith, if◌then◌else◌, inl, inr, ◌⊎◌, Option-cases, Bool-cases,
  In, ◌==◌, is_some,
}
use occam.Value.{Value}
use occam.Interface.{CallInfo, find, refines_args, calls_of}
use occam.Interface.Maps.{find-put}
use occam.Transform.{
  CallRewrite, CallMap, ComponentInterfaceTransform, find_id, insert_new, rewrite, better, best,
  lookup_call, lookup_rewrite, get_interface,
}

-- A score that is no worse than another.
abbrev pub AtMost : Option ℕ → Option ℕ → Type 0
AtMost none s = Unit {0}
AtMost (some a) none = ⊥
AtMost (some a) (some b) = a ≤ b

AtMost-trans : (a b c : Option ℕ) → AtMost a b → AtMost b c → AtMost a c
AtMost-trans none b c h k = tt
AtMost-trans (some a) (some b) (some c) h k = omega arith
AtMost-trans (some a) none c h k = absurd h
AtMost-trans (some a) (some b) none h k = absurd k

AtMost-refl : (a : Option ℕ) → AtMost a a
AtMost-refl none = tt
AtMost-refl (some a) = omega arith

better-AtMost : (t s : Option ℕ) → better t s ≡ true → AtMost s t × (t ≢ none)
better-AtMost none s h = absurd (ground arith)
better-AtMost (some a) none h = (tt, λ e. cc)
better-AtMost (some a) (some b) h = (ground arith, λ e. cc)

not-better-AtMost : (t s : Option ℕ) → better t s ≡ false → AtMost t s
not-better-AtMost none s h = tt
not-better-AtMost (some a) none h = absurd (ground arith)
not-better-AtMost (some a) (some b) h = ground arith

-- The call that the loop ends with: none better was seen, and it was seen itself.
record Chosen (vs : List Value) (cs : List CallInfo) (score : Option ℕ) (search : Option CallInfo)
    (c : CallInfo) : Type 0 where
  top : AtMost score (refines_args c.args vs)
  most : (d : CallInfo) → In d cs → AtMost (refines_args d.args vs) (refines_args c.args vs)
  seen : In c cs ⊎ (search ≡ some c)

-- What `search` holds has the score.
abbrev Holds : List Value → Option ℕ → Option CallInfo → Type 0
Holds vs score none = score ≡ none
Holds vs score (some c) = (refines_args c.args vs ≡ score) × (score ≢ none)

most-cons :
    (vs : List Value) (d c : CallInfo) (cs : List CallInfo)
    → AtMost (refines_args d.args vs) (refines_args c.args vs)
    → ((x : CallInfo) → In x cs → AtMost (refines_args x.args vs) (refines_args c.args vs))
    → (x : CallInfo) → In x (d ∷ cs)
    → AtMost (refines_args x.args vs) (refines_args c.args vs)
most-cons vs d c cs h k x (zero, at) =
    subst (λ y. AtMost (refines_args y.args vs) (refines_args c.args vs)) same h
  where
    same : d ≡ x
    same = cc
most-cons vs d c cs h k x (suc n, at) = k x (n, at)

seen-later :
    (d c : CallInfo) (cs : List CallInfo) (s : Option CallInfo)
    → In c cs ⊎ (s ≡ some c)
    → In c (d ∷ cs) ⊎ (s ≡ some c)
seen-later d c cs s (inl (k, at)) = inl (suc k, at)
seen-later d c cs s (inr e) = inr e

seen-cons :
    (d c : CallInfo) (cs : List CallInfo) {s : Option CallInfo}
    → In c cs ⊎ (some d ≡ some c)
    → In c (d ∷ cs) ⊎ (s ≡ some c)
seen-cons d c cs (inl (k, at)) = inl (suc k, at)
seen-cons d c cs (inr e) = inl (0, e)

best-Chosen :
    (vs : List Value) (cs : List CallInfo) (score : Option ℕ) (search : Option CallInfo)
    (c : CallInfo)
    → Holds vs score search
    → best vs cs score search ≡ some c
    → Chosen vs cs score search c × (refines_args c.args vs ≢ none)
unfolding best
best-Chosen vs [] score none c h e = absurd (ground arith)
best-Chosen vs [] score (some d) c h e =
    let same : d ≡ c = cc in
    (
      record {
        top = subst (λ x. AtMost score (refines_args x.args vs)) same (rw h.0 (AtMost-refl score));
        most = λ x (k, at). absurd (ground arith);
        seen = inr e;
      },
      subst (λ x. refines_args x.args vs ≢ none) same (rw h.0 h.1),
    )
best-Chosen vs (d ∷ cs) score search c h e =
    let r = refines_args d.args vs in
    elim (Bool-cases (better r score)) [
      | inl b ↦
          let (up, real) = better-AtMost r score b in
          let (ch, ne) = best-Chosen vs cs r (some d) c (refl, real) (rw b at e) in
          (
            record {
              top = AtMost-trans score r (refines_args c.args vs) up ch.top;
              most = most-cons vs d c cs ch.top ch.most;
              seen = seen-cons d c cs ch.seen;
            },
            ne,
          )
      | inr b ↦
          let (ch, ne) = best-Chosen vs cs score search c h (rw b at e) in
          (
            record {
              top = ch.top;
              most =
                  most-cons vs d c cs
                    (AtMost-trans r score (refines_args c.args vs) (not-better-AtMost r score b)
                      ch.top)
                    ch.most;
              seen = seen-later d c cs search ch.seen;
            },
            ne,
          )
    ]

-- The rewrite of a call site belongs to a recorded call that covers it, and no recorded call has a
-- higher score.
pub lookup_rewrite-best :
    (f : Name) (vs : List Value) (t : ComponentInterfaceTransform) (r : CallRewrite)
    → lookup_rewrite f vs t ≡ some r
    → (c : CallInfo) × In c (calls_of f (get_interface t))
      × (refines_args c.args vs ≢ none)
      × ((d : CallInfo)
          → In d (calls_of f (get_interface t))
          → AtMost (refines_args d.args vs) (refines_args c.args vs))
      × (lookup_call f c.id t ≡ some r)
unfolding lookup_rewrite calls_of get_interface
lookup_rewrite-best f vs t r e = elim (Option-cases t.interface) [
  | inl n ↦ absurd (ground arith)
  | inr (i, q) ↦ elim (Option-cases (find f i.calls)) [
    | inl n ↦ absurd (ground arith)
    | inr (cs, p) ↦ elim (Option-cases (best vs cs none none)) [
      | inl n ↦ absurd (ground arith)
      | inr (c, b) ↦
          let (ch, ne) = best-Chosen vs cs none none c refl b in
          let here : calls_of f (get_interface t) ≡ cs = ground arith in
          (c, rw here (in_list c cs ch.seen), ne, rw here ch.most, ground arith)
    ]
  ]
]
  where
    in_list : (c : CallInfo) (cs : List CallInfo) → In c cs ⊎ (none ≡ some c) → In c cs
    in_list c cs (inl h) = h
    in_list c cs (inr h) = absurd (ground arith)

find_id-insert_new :
    (k j : ℕ) (r : CallRewrite) (m : CallMap)
    → find_id j (insert_new k r m)
      ≡ (if k == j && not (is_some (find_id k m)) then some r else find_id j m)
unfolding find_id insert_new
find_id-insert_new k j r m = ground arith

-- A recorded rewrite is found under its call, unless the call had one: the first stays. The
-- rewrites of other calls and functions are as before.
pub lookup_call-rewrite :
    (f g : Name) (k j : ℕ) (r : CallRewrite) (t : ComponentInterfaceTransform)
    → lookup_call g j (rewrite f k r t) ≡ (
        if name_eq f g && (k == j && not (is_some (lookup_call f k t)))
        then some r
        else lookup_call g j t)
unfolding lookup_call rewrite
lookup_call-rewrite f g k j r t = elim (Option-cases (find f t.rewrites)) [
  | inl n ↦ ground (
    arith,
    name_eq_iff f g,
    find-put f g (insert_new k r []) t.rewrites,
    find_id-insert_new k j r [],
  )
  | inr (m, q) ↦ ground (
    arith,
    name_eq_iff f g,
    find-put f g (insert_new k r m) t.rewrites,
    find_id-insert_new k j r m,
  )
]
