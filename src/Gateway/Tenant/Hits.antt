-- ===== src/Gateway/Tenant/Hits.antt =====
-- gateway/tenant.go: which tenants the lookups find.
use fold.Prelude.{
  Bool, true, false, ◌&&◌, ◌||◌, List, [], ◌∷◌, any, any-append, Option, none, some, Str, Dict,
  lookup, ◌≡◌, refl, arith,
}
use fold.Value.{Any, Items, field_lookup}
use fold.Auth.{Principal}
use fold.Policy.Subjects.{match_subjects}
use fold.Gateway.Tenant.{Tenant, TenantSet, index_key, list_of}
use fold.Gateway.Tenant.Resolve.{
  Found, same, consider_tenant, consider_tenants, at_key, consider_items, consider_claim,
  consider_claims, consider_held, gather,
}

module _ {B L : Type 0} where
  -- The tenant is the one found, or one of the others.
  unfoldable pub is_found : Found B L → Tenant B L → Bool
  is_found (none, also) u = any (λ t. same t u) also
  is_found (some f, also) u = same f u || any (λ t. same t u) also

  same_right :
      (t u : Tenant B L) (ts : List (Tenant B L))
      → same t u ≡ true
      → any (λ v. same v t) ts ≡ any (λ v. same v u) ts
  same_right t u [] h = refl
  same_right t u (v ∷ ts) h = ground (arith, same_right t u ts h)

  consider_tenant-is_found :
      (t u : Tenant B L) (st : Found B L)
      → is_found (consider_tenant t st) u ≡ (is_found st u || same t u)
  unfolding consider_tenant is_found
  consider_tenant-is_found t u (none, also) = ground arith
  consider_tenant-is_found t u (some f, also) =
      ground (arith, same_right t u also, any-append (λ v. same v u) also (t ∷ []))

module _ {B L : Type 0} (p : Principal) (u : Tenant B L) where
  -- The tenant at hand, with a selector that the principal matches.
  abbrev pub hit : Tenant B L → Bool
  hit t = same t u && match_subjects t.cfg.subjects (some p)

  consider_tenants-is_found :
      (ts : List (Tenant B L)) (st : Found B L)
      → is_found (consider_tenants ts p st) u ≡ (is_found st u || any hit ts)
  unfolding consider_tenants
  consider_tenants-is_found [] st = ground arith
  consider_tenants-is_found (t ∷ ts) st = ground (
    arith,
    consider_tenants-is_found ts st,
    consider_tenants-is_found ts (consider_tenant t st),
    consider_tenant-is_found t u st,
  )

  unfoldable pub in_items : List (Any × List (Tenant B L)) → Items → Bool
  in_items m Items.nil = false
  in_items m (Items.cons v vs) = any hit (at_key m (index_key v)) || in_items m vs

  unfoldable pub in_claim : Option Any → List (Any × List (Tenant B L)) → Bool
  unfolding in_items
  in_claim none m = false
  in_claim (some (Any.array vs)) m = in_items m vs
  in_claim (some got) m = any hit (at_key m (index_key got))

  unfoldable pub in_claims : Dict (List (Any × List (Tenant B L))) → Bool
  unfolding in_claim
  in_claims [] = false
  in_claims ((key, m) ∷ d) = in_claim (field_lookup key p.claims) m || in_claims d

  unfoldable pub in_held : Dict (List (Tenant B L)) → List Str → Bool
  in_held d [] = false
  in_held d (g ∷ held) = any hit (list_of (lookup g d)) || in_held d held

  -- The tenant is among the candidates that the index and the scan list give, and matches.
  unfoldable pub reached : TenantSet B L → Bool
  unfolding in_claims in_held
  reached ts =
      ((in_claims ts.by_claim || in_held ts.by_group p.groups) || in_held ts.by_scope p.scopes)
      || any hit ts.scan

  items-is_found :
      (m : List (Any × List (Tenant B L))) (vs : Items) (st : Found B L)
      → is_found (consider_items m p vs st) u ≡ (is_found st u || in_items m vs)
  unfolding consider_items in_items
  items-is_found m Items.nil st = ground arith
  items-is_found m (Items.cons v vs) st =
      let ts = at_key m (index_key v) in
      ground
        (arith, items-is_found m vs (consider_tenants ts p st), consider_tenants-is_found ts st)

  claim-is_found :
      (got : Option Any) (m : List (Any × List (Tenant B L))) (st : Found B L)
      → is_found (consider_claim got m p st) u ≡ (is_found st u || in_claim got m)
  unfolding consider_claim in_claim
  claim-is_found none m st = ground arith
  claim-is_found (some (Any.array vs)) m st = items-is_found m vs st
  claim-is_found (some Any.null) m st = consider_tenants-is_found (at_key m (index_key Any.null)) st
  claim-is_found (some (Any.bool b)) m st =
      consider_tenants-is_found (at_key m (index_key (Any.bool b))) st
  claim-is_found (some (Any.float64 b)) m st =
      consider_tenants-is_found (at_key m (index_key (Any.float64 b))) st
  claim-is_found (some (Any.string s)) m st =
      consider_tenants-is_found (at_key m (index_key (Any.string s))) st
  claim-is_found (some (Any.object fs)) m st =
      consider_tenants-is_found (at_key m (index_key (Any.object fs))) st

  claims-is_found :
      (d : Dict (List (Any × List (Tenant B L)))) (st : Found B L)
      → is_found (consider_claims d p st) u ≡ (is_found st u || in_claims d)
  unfolding consider_claims in_claims
  claims-is_found [] st = ground arith
  claims-is_found ((key, m) ∷ d) st =
      let got = field_lookup key p.claims in
      ground (arith, claims-is_found d (consider_claim got m p st), claim-is_found got m st)

  held-is_found :
      (d : Dict (List (Tenant B L))) (held : List Str) (st : Found B L)
      → is_found (consider_held d held p st) u ≡ (is_found st u || in_held d held)
  unfolding consider_held in_held
  held-is_found d [] st = ground arith
  held-is_found d (g ∷ held) st =
      let ts = list_of (lookup g d) in
      ground
        (arith, held-is_found d held (consider_tenants ts p st), consider_tenants-is_found ts st)

  -- What a resolution gathers is what it can reach.
  pub gather-is_found : (ts : TenantSet B L) → is_found (gather ts p) u ≡ reached ts
  unfolding gather reached
  gather-is_found ts =
      let by_claim = consider_claims ts.by_claim p (none, []) in
      let by_group = consider_held ts.by_group p.groups p by_claim in
      let by_scope = consider_held ts.by_scope p.scopes p by_group in
      let start : is_found (none, []) u ≡ false = unfold is_found in refl in
      rw
        (
          consider_tenants-is_found ts.scan by_scope,
          held-is_found ts.by_scope p.scopes by_group,
          held-is_found ts.by_group p.groups by_claim,
          claims-is_found ts.by_claim (none, []),
          start,
        )
        refl
