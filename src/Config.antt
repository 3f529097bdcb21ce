-- ===== src/Config.antt =====
-- config/config.go: the policy document and the tenants. An omitted pointer is `none`.
pub mod Checks
pub mod Document
pub mod Upstreams
pub mod Sections
pub mod Sinks
pub mod Server
pub mod Validate
use fold.Prelude.{ℤ, pos, leb_int, not, List, is_empty, Option, none, some, Str, str, if◌then◌else◌}
use fold.Value.{Fields}

pub record PolicySubjects : Type 0 where
  pub groups : List Str
  pub subs : List Str
  pub issuers : List Str
  pub claims : Fields
  pub scopes : List Str

pub record PolicyAllow : Type 0 where
  pub server : Str
  pub methods : List Str
  pub names : List Str
  pub args : Fields
  pub tool_kind : Str

pub record PolicyRule : Type 0 where
  pub id : Str
  pub subjects : Option PolicySubjects
  pub allow : List PolicyAllow
  pub deny : List PolicyAllow
  pub max_items : ℤ

pub record PolicyConfig : Type 0 where
  pub default_decision : Str
  pub rules : List PolicyRule
  pub server_initiated_decision : Str

-- `RateLimit`, `Budget` and `Tenant`.
pub record RateLimitConfig : Type 0 where
  pub requests_per_minute : ℤ
  pub per_principal_per_minute : ℤ

pub record BudgetConfig : Type 0 where
  pub period : Str
  pub upstream_calls : ℤ

unfoldable pub resolved_period : Option BudgetConfig → Str
resolved_period none = str "month"
resolved_period (some b) = if is_empty b.period then str "month" else b.period

unfoldable pub allowance : Option BudgetConfig → ℤ
allowance none = pos 0
allowance (some b) = if not (leb_int (pos 0) b.upstream_calls) then pos 0 else b.upstream_calls

pub record TenantConfig : Type 0 where
  pub id : Str
  pub subjects : Option PolicySubjects
  pub budget : Option BudgetConfig
  pub rate_limit : Option RateLimitConfig
  pub upstreams : List Str
