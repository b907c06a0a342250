-- ===== src/Devirt/Steps.antt =====
-- One call of the worklist, behind those that come later in the module.
use occam.Base.{Bool, true, false, Option, none, List, ◌∷◌, ◌≡◌, ap, ◌∙◌, if◌then◌else◌}
use occam.Devirt.{Site, Resolver, State, NewCall, is_visited, mk_direct_call, resolve_sites}

module _ {S : Type 0} (allow : Bool) (csr : Resolver S) where
  put : Site → Bool → List (Option NewCall) × State S → List (Option NewCall) × State S
  put cs visited r =
      let (new, last) = mk_direct_call allow csr cs r.1 in
      if visited then (new ∷ r.0, last) else (none ∷ r.0, r.1)

  pub resolve_sites-visited :
      (cs : Site) (rest : List Site) (st next last : State S) (calls : List (Option NewCall))
      (new : Option NewCall)
      → is_visited cs ≡ true
      → resolve_sites allow csr rest st ≡ (calls, next)
      → mk_direct_call allow csr cs next ≡ (new, last)
      → resolve_sites allow csr (cs ∷ rest) st ≡ (new ∷ calls, last)
  unfolding resolve_sites put
  resolve_sites-visited cs rest st next last calls new v e m =
      ap (put cs (is_visited cs)) e
      ∙ ap (λ b. put cs b (calls, next)) v
      ∙ ap (λ (q : Option NewCall × State S). (q.0 ∷ calls, q.1)) m

  pub resolve_sites-other :
      (cs : Site) (rest : List Site) (st next : State S) (calls : List (Option NewCall))
      → is_visited cs ≡ false
      → resolve_sites allow csr rest st ≡ (calls, next)
      → resolve_sites allow csr (cs ∷ rest) st ≡ (none ∷ calls, next)
  unfolding resolve_sites put
  resolve_sites-other cs rest st next calls v e =
      ap (put cs (is_visited cs)) e ∙ ap (λ b. put cs b (calls, next)) v
