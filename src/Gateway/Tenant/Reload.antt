-- ===== src/Gateway/Tenant/Reload.antt =====
-- gateway/tenant.go: what a tenant keeps over a reload, and what it sees.
use fold.Prelude.{
  ℕ, true, List, [], ◌∷◌, keep, Option, none, some, Str, str_eq_iff, lookup, is_empty, ℤ, leb_int,
  ◌≡◌, refl, ap, arith, inl, inr, Bool-cases,
}
use fold.Config.{TenantConfig, BudgetConfig}
use fold.Gateway.Tenant.{Provider, Tenant, TenantSet, budget_equal}
use fold.Gateway.Tenant.Index.{wire, new_tenant}
use fold.Gateway.Tenant.Resolve.{sees, visible_upstreams}

int_equal_refl : (z : ℤ) → leb_int z z ≡ true
int_equal_refl z = ground arith

budget_equal_refl : (b : Option BudgetConfig) → budget_equal b b ≡ true
unfolding budget_equal
budget_equal_refl none = refl
budget_equal_refl (some b) =
    ground (arith, str_eq_iff b.period b.period, int_equal_refl b.upstream_calls)

module _ {B L : Type 0} where
  -- A tenant that is rebuilt with the budget configuration it had keeps the budget, with what was
  -- spent of it, whatever else of the tenant has changed.
  pub new_tenant-budget :
      (provider : Provider B L) (prev : TenantSet B L) (ref : ℕ) (cfg : TenantConfig)
      {t : Tenant B L}
      → lookup cfg.id prev.by_id ≡ some t
      → t.cfg.budget ≡ cfg.budget
      → (new_tenant provider prev ref cfg).budget ≡ t.budget
  unfolding new_tenant wire
  new_tenant-budget provider prev ref cfg {t} h e = rw (h, e, budget_equal_refl cfg.budget) refl

  -- A fan-out asks exactly the upstreams that the tenant sees.
  pub visible_upstreams-sees :
      {U : Type 0} (id : U → Str) (t : Option (Tenant B L)) (ups : List U)
      → visible_upstreams id t ups ≡ keep (λ u. sees t (id u)) ups
  unfolding visible_upstreams sees
  visible_upstreams-sees id none [] = refl
  visible_upstreams-sees id none (u ∷ ups) = ap (◌∷◌ u) (visible_upstreams-sees id none ups)
  visible_upstreams-sees {U = U} id (some t) ups = elim (Bool-cases (is_empty t.upstreams)) [
    | inl e ↦ rw e (all_seen ups)
    | inr e ↦ rw e refl
  ]
    where
      all_seen : (us : List U) → us ≡ keep (λ u. true) us
      all_seen [] = refl
      all_seen (u ∷ us) = ap (◌∷◌ u) (all_seen us)
