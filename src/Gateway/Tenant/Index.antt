-- ===== src/Gateway/Tenant/Index.antt =====
-- gateway/tenant.go: how a snapshot's tenants are built and filed.
use fold.Prelude.{
  ℕ, suc, List, [], ◌∷◌, ◌++◌, Option, none, some, Str, str, Dict, lookup, insert, if◌then◌else◌,
}
use fold.Value.{Any}
use fold.Config.{TenantConfig, resolved_period, allowance}
use fold.Gateway.Tenant.{
  Provider, Tenant, TenantSet, key_equal, indexable_claim, indexable_groups, indexable_scope,
  groups_of, list_of, budget_equal, rate_limit_equal, rpm_of,
}

module _ {B L : Type 0} where
  -- The handles of a tenant: those of the previous snapshot as far as their configuration is the same.
  unfoldable pub wire : Provider B L → TenantConfig → Option (Tenant B L) → B × L
  unfolding budget_equal rate_limit_equal resolved_period allowance
  wire provider cfg prev =
      let scope = str "tenant:" ++ cfg.id in
      let fresh_budget =
        provider.budget scope (resolved_period cfg.budget) (allowance cfg.budget) in
      let fresh_limiter = provider.limiter scope (rpm_of cfg.rate_limit) in
      elim prev [
        | none ↦ (fresh_budget, fresh_limiter)
        | some t ↦ (
          if budget_equal t.cfg.budget cfg.budget then t.budget else fresh_budget,
          if rate_limit_equal t.cfg.rate_limit cfg.rate_limit then t.limiter else fresh_limiter,
        )
      ]

  -- `byValue[val] = append(byValue[val], t)`.
  unfoldable pub add_value :
      Any → Tenant B L → List (Any × List (Tenant B L)) → List (Any × List (Tenant B L))
  unfolding key_equal
  add_value val t [] = (val, t ∷ []) ∷ []
  add_value val t ((key, ts) ∷ m) =
      let rest = add_value val t m in
      if key_equal key val then (key, ts ++ t ∷ []) ∷ m else (key, ts) ∷ rest

  abbrev pub add_to : Str → Tenant B L → Dict (List (Tenant B L)) → Dict (List (Tenant B L))
  add_to key t d = insert key (list_of (lookup key d) ++ t ∷ []) d

  unfoldable pub add_groups :
      List Str → Tenant B L → Dict (List (Tenant B L)) → Dict (List (Tenant B L))
  add_groups [] t d = d
  add_groups (g ∷ groups) t d = add_groups groups t (add_to g t d)

  -- The part of `index` behind the claim index.
  unfoldable pub index_other : Tenant B L → TenantSet B L → TenantSet B L
  unfolding indexable_groups indexable_scope add_groups
  index_other t ts =
      if indexable_groups t.cfg.subjects
      then record ts { by_group = add_groups (groups_of t.cfg.subjects) t ts.by_group }
      else elim (indexable_scope t.cfg.subjects) [
        | some sc ↦ record ts { by_scope = add_to sc t ts.by_scope }
        | none ↦ record ts { scan = ts.scan ++ t ∷ [] }
      ]

  unfoldable pub index : Tenant B L → TenantSet B L → TenantSet B L
  unfolding indexable_claim add_value index_other
  index t ts = elim (indexable_claim t.cfg.subjects) [
    | some (key, val) ↦ record ts {
      by_claim = insert key (add_value val t (list_of (lookup key ts.by_claim))) ts.by_claim;
    }
    | none ↦ index_other t ts
  ]

  -- The tenant at one position of the document.
  unfoldable pub new_tenant : Provider B L → TenantSet B L → ℕ → TenantConfig → Tenant B L
  unfolding wire
  new_tenant provider prev ref cfg =
      let (budget, limiter) = wire provider cfg (lookup cfg.id prev.by_id) in
      record { ref = ref; cfg = cfg; upstreams = cfg.upstreams; budget = budget; limiter = limiter }

  unfoldable pub no_tenants : TenantSet B L
  no_tenants = record {
    by_claim = [];
    by_scope = [];
    by_group = [];
    scan = [];
    by_id = [];
    total = 0;
  }

  -- The tenants of the document, in its order.
  unfoldable pub tenants_from :
      Provider B L → TenantSet B L → ℕ → List TenantConfig → List (Tenant B L)
  unfolding new_tenant
  tenants_from provider prev ref [] = []
  tenants_from provider prev ref (cfg ∷ cfgs) =
      new_tenant provider prev ref cfg ∷ tenants_from provider prev (suc ref) cfgs

  unfoldable pub add_tenant : Tenant B L → TenantSet B L → TenantSet B L
  unfolding index
  add_tenant t ts = index t (record ts { by_id = insert t.cfg.id t ts.by_id; total = suc ts.total })

  unfoldable pub add_tenants : List (Tenant B L) → TenantSet B L → TenantSet B L
  unfolding add_tenant
  add_tenants [] ts = ts
  add_tenants (t ∷ tenants) ts = add_tenants tenants (add_tenant t ts)

  unfoldable pub build_tenants : Provider B L → TenantSet B L → List TenantConfig → TenantSet B L
  unfolding add_tenants tenants_from no_tenants
  build_tenants provider prev cfgs = add_tenants (tenants_from provider prev 0 cfgs) no_tenants
