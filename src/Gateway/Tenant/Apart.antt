-- ===== src/Gateway/Tenant/Apart.antt =====
-- gateway/tenant.go: a resolution finds no tenant twice.
use fold.Prelude.{
  Bool, true, not, List, [], ◌∷◌, any, any-append, Option, none, some, Str, Dict, lookup, is_empty,
  ◌≡◌, refl, arith, inl, inr, Bool-cases,
}
use fold.Value.{Any, Items, field_lookup}
use fold.Auth.{Principal}
use fold.Policy.Subjects.{match_subjects}
use fold.Gateway.Tenant.{Tenant, TenantSet, index_key, list_of}
use fold.Gateway.Tenant.Resolve.{
  Found, same, consider_tenant, consider_tenants, consider_items, consider_claim, consider_claims,
  consider_held, at_key, gather,
}

module _ {B L : Type 0} where
  abbrev pub covers : Principal → Tenant B L → Bool
  covers p t = match_subjects t.cfg.subjects (some p)

  -- `also` holds tenants only once there is a found one, and not that one.
  abbrev pub is_apart : Found B L → Bool
  is_apart (none, also) = is_empty also
  is_apart (some f, also) = not (any (same f) also)

  consider_tenant-is_apart :
      (t : Tenant B L) (st : Found B L)
      → is_apart st ≡ true
      → is_apart (consider_tenant t st) ≡ true
  unfolding consider_tenant
  consider_tenant-is_apart t (none, []) h = refl
  consider_tenant-is_apart t (none, a ∷ also) h = absurd (ground arith)
  consider_tenant-is_apart t (some f, also) h = ground (arith, any-append (same f) also (t ∷ []))

  consider_tenants-is_apart :
      (p : Principal) (ts : List (Tenant B L)) (st : Found B L)
      → is_apart st ≡ true
      → is_apart (consider_tenants ts p st) ≡ true
  unfolding consider_tenants
  consider_tenants-is_apart p [] st h = h
  consider_tenants-is_apart p (t ∷ ts) st h = elim (Bool-cases (covers p t)) [
    | inl e ↦
        rw e
          (consider_tenants-is_apart p ts (consider_tenant t st) (consider_tenant-is_apart t st h))
    | inr e ↦ rw e (consider_tenants-is_apart p ts st h)
  ]

  items-is_apart :
      (p : Principal) (m : List (Any × List (Tenant B L))) (vs : Items) (st : Found B L)
      → is_apart st ≡ true
      → is_apart (consider_items m p vs st) ≡ true
  unfolding consider_items
  items-is_apart p m Items.nil st h = h
  items-is_apart p m (Items.cons v vs) st h =
      items-is_apart p m vs _ (consider_tenants-is_apart p (at_key m (index_key v)) st h)

  claim-is_apart :
      (p : Principal) (got : Option Any) (m : List (Any × List (Tenant B L))) (st : Found B L)
      → is_apart st ≡ true
      → is_apart (consider_claim got m p st) ≡ true
  unfolding consider_claim
  claim-is_apart p none m st h = h
  claim-is_apart p (some (Any.array vs)) m st h = items-is_apart p m vs st h
  claim-is_apart p (some Any.null) m st h =
      consider_tenants-is_apart p (at_key m (index_key Any.null)) st h
  claim-is_apart p (some (Any.bool b)) m st h =
      consider_tenants-is_apart p (at_key m (index_key (Any.bool b))) st h
  claim-is_apart p (some (Any.float64 b)) m st h =
      consider_tenants-is_apart p (at_key m (index_key (Any.float64 b))) st h
  claim-is_apart p (some (Any.string s)) m st h =
      consider_tenants-is_apart p (at_key m (index_key (Any.string s))) st h
  claim-is_apart p (some (Any.object fs)) m st h =
      consider_tenants-is_apart p (at_key m (index_key (Any.object fs))) st h

  claims-is_apart :
      (p : Principal) (d : Dict (List (Any × List (Tenant B L)))) (st : Found B L)
      → is_apart st ≡ true
      → is_apart (consider_claims d p st) ≡ true
  unfolding consider_claims
  claims-is_apart p [] st h = h
  claims-is_apart p ((key, m) ∷ d) st h =
      claims-is_apart p d _ (claim-is_apart p (field_lookup key p.claims) m st h)

  held-is_apart :
      (p : Principal) (d : Dict (List (Tenant B L))) (held : List Str) (st : Found B L)
      → is_apart st ≡ true
      → is_apart (consider_held d held p st) ≡ true
  unfolding consider_held
  held-is_apart p d [] st h = h
  held-is_apart p d (g ∷ held) st h =
      held-is_apart p d held _ (consider_tenants-is_apart p (list_of (lookup g d)) st h)

  pub gather-is_apart : (p : Principal) (ts : TenantSet B L) → is_apart (gather ts p) ≡ true
  unfolding gather
  gather-is_apart p ts = consider_tenants-is_apart p ts.scan _ (
      held-is_apart p ts.by_scope p.scopes _
        (held-is_apart p ts.by_group p.groups _ (claims-is_apart p ts.by_claim (none, []) refl)))
