-- ===== src/Resolvers/Cha.antt =====
-- `CallSiteResolverByCHA` of src/transforms/DevirtFunctions.cpp.
use occam.Base.{
  ℕ, Bool, true, false, ◌==◌, Option, none, some, List, [], ◌∷◌, ◌≡◌, refl, arith, length,
  Bool-cases, inl, inr, All, replicate, ap, ◌∙◌,
}
use occam.Ir.{Function}
use occam.Devirt.{
  Site, BounceFunction, Resolver, State, type_alias_id, NewCall, is_visited, bounce_for,
  bounce_or_new, mk_bounce_fn, mk_direct_call, resolve_sites, replace_call,
}
use occam.Devirt.Steps.{resolve_sites-visited, resolve_sites-other}
use occam.Resolvers.Maps.{lookup-insert_other}
use occam.Resolvers.{
  SitesState, AliasSets, lookup, insert_new, site_targets, cached_bounce, cache_for,
}

-- The state with the analysis, whose counters `resolveVirtualCall` changes.
pub record ChaState (A : Type 0) : Type 0 where
  pub sites : SitesState
  pub cha : A

-- Over `resolveVirtualCall` from an empty vector, where it does not end the run: its result and the
-- targets.
module _ {A : Type 0} (resolve : Site → A → (Bool × List Function) × A) where
  -- What is kept of a result.
  unfoldable pub keep_targets : Site → Bool → List Function → SitesState → SitesState
  unfolding insert_new
  keep_targets cs false out s = s
  keep_targets cs true [] s = s
  keep_targets cs true (f ∷ fs) s = record s {
    targets_map = insert_new cs.instruction (f ∷ fs) s.targets_map;
  }

  unfoldable pub resolve_targets :
      Site → Option (List Function) → ChaState A → Option (List Function) × ChaState A
  unfolding keep_targets
  resolve_targets cs (some ts) s = (some ts, s)
  resolve_targets cs none s =
      let ((is_virtual, out), a) = resolve cs s.cha in
      (none, record { sites = keep_targets cs is_virtual out s.sites; cha = a })

  unfoldable pub cha_targets : Site → ChaState A → Option (List Function) × ChaState A
  unfolding resolve_targets site_targets
  cha_targets cs s = resolve_targets cs (site_targets cs s.sites) s

  unfoldable pub cha_bounce :
      Site
      → Option (List Function × BounceFunction)
      → ChaState A
      → Option BounceFunction × ChaState A
  unfolding cha_targets cached_bounce
  cha_bounce cs none s = (none, s)
  cha_bounce cs (some cached) s =
      let (targets, next) = cha_targets cs s in (cached_bounce (some cached) targets, next)

  unfoldable pub by_cha : Resolver (ChaState A)
  unfolding cha_targets cha_bounce cache_for lookup type_alias_id
  by_cha = record {
    get_targets = cha_targets;
    get_bounce_function =
        λ cs s. cha_bounce cs (lookup (type_alias_id cs false) s.sites.bounce_map) s;
    cache_bounce_function = λ cs b s.
        let (targets, next) = cha_targets cs s in
        record next { sites = cache_for cs targets b next.sites };
  }

  -- The instruction has no targets in the map.
  abbrev IsNew : AliasSets → Site → Type 0
  IsNew m cs = lookup cs.instruction m ≡ none

  -- Instructions that differ from one another.
  abbrev pub IsApart : ℕ → List Site → Type 0
  IsApart i sites = All (λ cs. (cs.instruction == i) ≡ false) sites

  abbrev pub AreDistinct : List Site → Type 0
  AreDistinct [] = Unit {0}
  AreDistinct (cs ∷ rest) = IsApart cs.instruction rest × AreDistinct rest

  abbrev pub empty_bounces : AliasSets → SitesState
  empty_bounces m = record { targets_map = m; bounce_map = [] }

  keep_targets-bounces :
      (cs : Site) (b : Bool) (out : List Function) (m : AliasSets)
      → keep_targets cs b out (empty_bounces m)
        ≡ empty_bounces (keep_targets cs b out (empty_bounces m)).targets_map
  unfolding keep_targets
  keep_targets-bounces cs false out m = refl
  keep_targets-bounces cs true [] m = refl
  keep_targets-bounces cs true (f ∷ fs) m = refl

  lookup-keep_targets :
      (cs : Site) (b : Bool) (out : List Function) (m : AliasSets) (k : ℕ)
      → (cs.instruction == k) ≡ false
      → lookup k m ≡ none
      → lookup k (keep_targets cs b out (empty_bounces m)).targets_map ≡ none
  unfolding keep_targets
  lookup-keep_targets cs false out m k h n = n
  lookup-keep_targets cs true [] m k h n = n
  lookup-keep_targets cs true (f ∷ fs) m k h n =
      lookup-insert_other k cs.instruction (f ∷ fs) m (ground arith) n

  -- A state with no bounce function in the cache.
  abbrev pub no_bounces : AliasSets → A → List BounceFunction → State (ChaState A)
  no_bounces m a bs = record {
    resolver = record { sites = empty_bounces m; cha = a };
    bounces = bs;
  }

  mk_direct_call-first :
      (allow : Bool) (cs : Site) (m : AliasSets) (a : A) (bs : List BounceFunction)
      → IsNew m cs
      → mk_direct_call allow by_cha cs (no_bounces m a bs) ≡ (
        none,
        no_bounces
            (keep_targets cs (resolve cs a).0.0 (resolve cs a).0.1 (empty_bounces m)).targets_map
            (resolve cs a).1
            bs,
      )
  unfolding mk_direct_call mk_bounce_fn bounce_or_new bounce_for by_cha cha_bounce cha_targets
      site_targets lookup
  mk_direct_call-first allow cs m a bs new =
      ap after new
      ∙ ap
          (λ (s : SitesState). (
            none,
            record { resolver = record { sites = s; cha = (resolve cs a).1 }; bounces = bs },
          ))
          (keep_targets-bounces cs (resolve cs a).0.0 (resolve cs a).0.1 m)
    where
      after : Option (List Function) → Option NewCall × State (ChaState A)
      after t =
          let (targets, s) = resolve_targets cs t (record { sites = empty_bounces m; cha = a }) in
          let (b, next) =
            bounce_for allow by_cha cs targets (record { resolver = s; bounces = bs }) in
          (elim b [ none ↦ none | some c ↦ some (replace_call cs c) ], next)

  -- Behind sites that differ from one another: no new call, no bounce function, and no targets of others.
  abbrev IsIdle :
      List BounceFunction → List Site → List (Option NewCall) × State (ChaState A) → Type 0
  IsIdle bs sites r =
      (m : AliasSets) × (a : A) × (r ≡ (replicate (length sites) none, no_bounces m a bs))
      × ((k : ℕ) → IsApart k sites → lookup k m ≡ none)

  resolve_sites-IsIdle :
      (allow : Bool) (sites : List Site) (a : A) (bs : List BounceFunction)
      → AreDistinct sites
      → IsIdle bs sites (resolve_sites allow by_cha sites (no_bounces [] a bs))
  unfolding resolve_sites lookup
  resolve_sites-IsIdle allow [] a bs d = ([], a, refl, λ k h. refl)
  resolve_sites-IsIdle allow (cs ∷ rest) a bs d =
      let (m, b, same, new) = resolve_sites-IsIdle allow rest a bs d.1 in
      let step = mk_direct_call-first allow cs m b bs (new cs.instruction d.0) in
      elim (Bool-cases (is_visited cs)) [
        | inl visited ↦ (
          (keep_targets cs (resolve cs b).0.0 (resolve cs b).0.1 (empty_bounces m)).targets_map,
          (resolve cs b).1,
          resolve_sites-visited allow by_cha cs rest _ _ _ _ _ visited same step,
          λ k h. lookup-keep_targets cs (resolve cs b).0.0 (resolve cs b).0.1 m k h.0 (new k h.1),
        )
        | inr skipped ↦
            (m, b, resolve_sites-other allow by_cha cs rest _ _ _ skipped same, λ k h. new k h.1)
      ]

  -- When this resolver is new and the instructions differ from one another, no call of the module is
  -- replaced and the module gets no bounce function.
  pub by_cha-replaces-nothing :
      (allow : Bool) (sites : List Site) (a : A) (bs : List BounceFunction)
      → AreDistinct sites
      → ((resolve_sites allow by_cha sites (no_bounces [] a bs)).0 ≡ replicate (length sites) none)
        × ((resolve_sites allow by_cha sites (no_bounces [] a bs)).1.bounces ≡ bs)
  by_cha-replaces-nothing allow sites a bs d =
      let (m, b, same, new) = resolve_sites-IsIdle allow sites a bs d in
      (
        ap (λ (r : List (Option NewCall) × State (ChaState A)). r.0) same,
        ap (λ (r : List (Option NewCall) × State (ChaState A)). r.1.bounces) same,
      )
