-- ===== src/Gateway/Tenant/Unique.antt =====
-- gateway/tenant.go: the one tenant of a principal.
use fold.Prelude.{
  suc, ◌+◌, ◌==◌, Bool, true, false, not, ◌&&◌, ◌||◌, List, [], ◌∷◌, any, any_mono, none, some, Str,
  lookup, insert, length, ◌≡◌, refl, ap, ◌∙◌, arith, inl, inr, Bool-cases,
}
use fold.Auth.{Principal}
use fold.Config.{TenantConfig}
use fold.Gateway.Tenant.{Provider, Tenant, TenantSet, Resolution, unmatched, matched, ambiguous}
use fold.Gateway.Tenant.Index.{
  index_other, index, add_tenant, add_tenants, tenants_from, no_tenants, build_tenants,
}
use fold.Gateway.Tenant.Resolve.{Found, same, gather, verdict_of, resolve_tenant}
use fold.Gateway.Tenant.Hits.{is_found, hit, in_claims, in_held, reached, gather-is_found}
use fold.Gateway.Tenant.Apart.{covers, is_apart, gather-is_apart}
use fold.Gateway.Tenant.Growth.{add_tenant-reached}

module _ {B L : Type 0} where
  -- Whether a resolution is this tenant, and whether it is none.
  abbrev pub is_matched : Resolution B L → Tenant B L → Bool
  is_matched unmatched u = false
  is_matched (matched t) u = same t u
  is_matched (ambiguous sub ids) u = false

  abbrev pub is_unmatched : Resolution B L → Bool
  is_unmatched unmatched = true
  is_unmatched (matched t) = false
  is_unmatched (ambiguous sub ids) = false

  add_tenants-reached :
      (p : Principal) (u : Tenant B L) (tenants : List (Tenant B L)) (ts : TenantSet B L)
      → reached p u (add_tenants tenants ts) ≡ (reached p u ts || any (hit p u) tenants)
  unfolding add_tenants
  add_tenants-reached p u [] ts = ground arith
  add_tenants-reached p u (t ∷ tenants) ts =
      ground (arith, add_tenants-reached p u tenants (add_tenant t ts), add_tenant-reached p u t ts)

  in_held-nothing : (p : Principal) (u : Tenant B L) (held : List Str) → in_held p u [] held ≡ false
  unfolding in_held lookup
  in_held-nothing p u [] = refl
  in_held-nothing p u (g ∷ held) = in_held-nothing p u held

  no_tenants-reached : (p : Principal) (u : Tenant B L) → reached p u no_tenants ≡ false
  unfolding reached no_tenants in_claims
  no_tenants-reached p u =
      ground (arith, in_held-nothing p u p.groups, in_held-nothing p u p.scopes)

  -- The index loses no tenant and adds none.
  gather-all :
      (p : Principal) (u : Tenant B L) (tenants : List (Tenant B L))
      → is_found (gather (add_tenants tenants no_tenants) p) u ≡ any (hit p u) tenants
  gather-all p u tenants =
      gather-is_found p u (add_tenants tenants no_tenants)
      ∙ add_tenants-reached p u tenants no_tenants
      ∙ ap (λ b. b || any (hit p u) tenants) (no_tenants-reached p u)

  -- Tenants that nobody finds match nobody.
  any_unfound :
      (p : Principal) (q : Tenant B L → Bool) (ts : List (Tenant B L))
      → ((x : Tenant B L) → any (hit p x) ts ≡ true → q x ≡ false)
      → any (λ t. q t && covers p t) ts ≡ false
  any_unfound p q [] h = refl
  any_unfound p q (t ∷ ts) h =
      let here : covers p t ≡ true → q t ≡ false = λ c. h t (ground arith) in
      ground (arith, here, any_unfound p q ts (λ x e. h x (ground arith)))

  any_other :
      (p : Principal) (x u : Tenant B L) (ts : List (Tenant B L))
      → any (hit p x) ts ≡ true
      → same x u ≡ false
      → any (λ t. not (same t u) && covers p t) ts ≡ true
  any_other p x u ts h k = any_mono ts (λ t e. ground arith) h

  any-covers :
      (p : Principal) (x : Tenant B L) (ts : List (Tenant B L))
      → any (hit p x) ts ≡ true
      → any (covers p) ts ≡ true
  any-covers p x ts h = any_mono ts (λ t e. ground arith) h

  abbrev alone : Principal → Tenant B L → List (Tenant B L) → Bool
  alone p u ts = any (hit p u) ts && not (any (λ t. not (same t u) && covers p t) ts)

  verdict_of-alone :
      (p : Principal) (u : Tenant B L) (ts : List (Tenant B L)) (st : Found B L)
      → is_apart st ≡ true
      → ((x : Tenant B L) → is_found st x ≡ any (hit p x) ts)
      → (is_matched (verdict_of p.subject st) u ≡ alone p u ts)
        × (is_unmatched (verdict_of p.subject st) ≡ not (any (covers p) ts))
  unfolding verdict_of is_found
  verdict_of-alone p u ts (none, []) a h = (
    ground (arith, h u),
    ground (arith, any_unfound p (λ x. true) ts (λ x e. absurd (ground (arith, h x)))),
  )
  verdict_of-alone p u ts (none, t ∷ also) a h = absurd (ground arith)
  verdict_of-alone p u ts (some f, []) a h = (
    elim (Bool-cases (same f u)) [
      | inl e ↦
          ground
            (arith, e, h u, any_unfound p (λ x. not (same x u)) ts (λ x k. ground (arith, h x)))
      | inr e ↦ ground (arith, e, h u)
    ],
    ground (arith, h f, any-covers p f ts),
  )
  verdict_of-alone p u ts (some f, t ∷ also) a h = (
    elim (Bool-cases (same f u)) [
      | inl e ↦ ground (arith, e, h t, any_other p t u ts)
      | inr e ↦ ground (arith, e, h f, any_other p f u ts)
    ],
    ground (arith, h f, any-covers p f ts),
  )

  index-total : (t : Tenant B L) (ts : TenantSet B L) → (index t ts).total ≡ ts.total
  unfolding index index_other
  index-total t ts = ground arith

  add_tenants-total :
      (tenants : List (Tenant B L)) (ts : TenantSet B L)
      → (add_tenants tenants ts).total ≡ ts.total + length tenants
  unfolding add_tenants add_tenant
  add_tenants-total [] ts = omega arith
  add_tenants-total (t ∷ tenants) ts = omega (
    arith,
    add_tenants-total tenants (add_tenant t ts),
    index-total t (record ts { by_id = insert t.cfg.id t ts.by_id; total = suc ts.total }),
  )

  resolve_all :
      (tenants : List (Tenant B L)) (p : Principal) (u : Tenant B L)
      → let r = resolve_tenant (add_tenants tenants no_tenants) (some p) in
        (is_matched r u ≡ alone p u tenants) × (is_unmatched r ≡ not (any (covers p) tenants))
  unfolding resolve_tenant
  resolve_all [] p u = unfold add_tenants no_tenants in (refl, refl)
  resolve_all (t ∷ tenants) p u =
      let ts = add_tenants (t ∷ tenants) no_tenants in
      let some_tenants : (ts.total == 0) ≡ false =
        ground (arith, add_tenants-total (t ∷ tenants) no_tenants) in
      rw some_tenants (
        verdict_of-alone p u (t ∷ tenants) (gather ts p) (gather-is_apart p ts)
          (λ x. gather-all p x (t ∷ tenants)))

  -- A principal is placed in a tenant exactly when the selector of that tenant covers it and that of
  -- no other does, and in none exactly when no selector covers it: the index narrows the search and
  -- changes nothing in its outcome. In every other case the resolution is an ambiguity.
  pub resolve_tenant-lem :
      (provider : Provider B L) (prev : TenantSet B L) (cfgs : List TenantConfig) (p : Principal)
      (u : Tenant B L)
      → let tenants = tenants_from provider prev 0 cfgs in
        let r = resolve_tenant (build_tenants provider prev cfgs) (some p) in
        (is_matched r u
          ≡ (any (hit p u) tenants && not (any (λ t. not (same t u) && covers p t) tenants)))
        × (is_unmatched r ≡ not (any (covers p) tenants))
  unfolding build_tenants
  resolve_tenant-lem provider prev cfgs p u = resolve_all (tenants_from provider prev 0 cfgs) p u
