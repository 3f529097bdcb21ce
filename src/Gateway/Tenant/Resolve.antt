-- ===== src/Gateway/Tenant/Resolve.antt =====
-- gateway/tenant.go: the tenant of a principal, and what it may see.
use fold.Prelude.{
  ◌==◌, Bool, true, ◌||◌, List, [], ◌∷◌, ◌++◌, any, keep, map, Option, none, some, Str,
  sort_strings, contains, Dict, lookup, is_empty, if◌then◌else◌,
}
use fold.Value.{Any, Items, field_lookup}
use fold.Auth.{Principal}
use fold.Policy.Subjects.{match_subjects}
use fold.Gateway.Tenant.{
  Tenant, TenantSet, Resolution, unmatched, matched, ambiguous, key_equal, index_key, list_of,
}

-- `found` and `also`.
abbrev pub Found : Type 0 → Type 0 → Type 0
Found B L = Option (Tenant B L) × List (Tenant B L)

module _ {B L : Type 0} where
  -- Two pointers to the same tenant.
  abbrev pub same : Tenant B L → Tenant B L → Bool
  same t u = t.ref == u.ref

  unfoldable pub consider_tenant : Tenant B L → Found B L → Found B L
  consider_tenant t (none, also) = (some t, also)
  consider_tenant t (some f, also) =
      if same f t || any (λ u. same u t) also then (some f, also) else (some f, also ++ t ∷ [])

  unfoldable pub consider_tenants : List (Tenant B L) → Principal → Found B L → Found B L
  unfolding consider_tenant
  consider_tenants [] p st = st
  consider_tenants (t ∷ candidates) p st =
      consider_tenants candidates p
        (if match_subjects t.cfg.subjects (some p) then consider_tenant t st else st)

  unfoldable pub at_value : List (Any × List (Tenant B L)) → Any → List (Tenant B L)
  unfolding key_equal
  at_value [] v = []
  at_value ((key, ts) ∷ m) v = if key_equal key v then ts else at_value m v

  -- `byValue[indexKey(v)]`: nil is no key.
  unfoldable pub at_key : List (Any × List (Tenant B L)) → Option Any → List (Tenant B L)
  unfolding at_value
  at_key m none = []
  at_key m (some v) = at_value m v

  unfoldable pub consider_items :
      List (Any × List (Tenant B L)) → Principal → Items → Found B L → Found B L
  unfolding at_key index_key consider_tenants
  consider_items m p Items.nil st = st
  consider_items m p (Items.cons v vs) st =
      consider_items m p vs (consider_tenants (at_key m (index_key v)) p st)

  -- One claim of the index, with what the principal holds under its name.
  unfoldable pub consider_claim :
      Option Any → List (Any × List (Tenant B L)) → Principal → Found B L → Found B L
  unfolding consider_items at_key index_key consider_tenants
  consider_claim none m p st = st
  consider_claim (some (Any.array vs)) m p st = consider_items m p vs st
  consider_claim (some got) m p st = consider_tenants (at_key m (index_key got)) p st

  unfoldable pub consider_claims :
      Dict (List (Any × List (Tenant B L))) → Principal → Found B L → Found B L
  unfolding consider_claim
  consider_claims [] p st = st
  consider_claims ((key, m) ∷ d) p st =
      consider_claims d p (consider_claim (field_lookup key p.claims) m p st)

  -- The loop over the groups, and the one over the scopes.
  unfoldable pub consider_held :
      Dict (List (Tenant B L)) → List Str → Principal → Found B L → Found B L
  unfolding consider_tenants
  consider_held d [] p st = st
  consider_held d (g ∷ held) p st =
      consider_held d held p (consider_tenants (list_of (lookup g d)) p st)

  unfoldable pub gather : TenantSet B L → Principal → Found B L
  unfolding consider_claims consider_held consider_tenants
  gather ts p =
      let by_claim = consider_claims ts.by_claim p (none, []) in
      let by_group = consider_held ts.by_group p.groups p by_claim in
      let by_scope = consider_held ts.by_scope p.scopes p by_group in
      consider_tenants ts.scan p by_scope

  unfoldable pub verdict_of : Str → Found B L → Resolution B L
  verdict_of sub (none, []) = unmatched
  verdict_of sub (some f, []) = matched f
  verdict_of sub (none, t ∷ also) = ambiguous sub (sort_strings (map (λ u. u.cfg.id) (t ∷ also)))
  verdict_of sub (some f, t ∷ also) =
      ambiguous sub (sort_strings (map (λ u. u.cfg.id) (f ∷ t ∷ also)))

  unfoldable pub resolve_tenant : TenantSet B L → Option Principal → Resolution B L
  unfolding gather verdict_of
  resolve_tenant ts none = unmatched
  resolve_tenant ts (some p) =
      if ts.total == 0 then unmatched else verdict_of p.subject (gather ts p)

  unfoldable pub sees : Option (Tenant B L) → Str → Bool
  sees none upstream_id = true
  sees (some t) upstream_id = is_empty t.upstreams || contains t.upstreams upstream_id

  -- The upstreams of a fan-out, each under its id.
  unfoldable pub visible_upstreams {ℓ} :
      {U : Type ℓ} → (U → Str) → Option (Tenant B L) → List U → List U
  visible_upstreams id none ups = ups
  visible_upstreams id (some t) ups =
      if is_empty t.upstreams then ups else keep (λ u. contains t.upstreams (id u)) ups
