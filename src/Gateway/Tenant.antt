-- ===== src/Gateway/Tenant.antt =====
-- gateway/tenant.go: the tenants of a routing snapshot, their index, and which one a principal is in.
-- A pointer to a tenant is its position in the document. The provider of budgets and buckets is a
-- parameter, and so are the handles that it gives out.
pub mod Index
pub mod Resolve
pub mod Apart
pub mod Hits
pub mod Keys
pub mod Growth
pub mod Unique
pub mod Reload
use fold.Prelude.{
  ℕ, suc, ◌+◌, ◌==◌, ℤ, pos, leb_int, Bool, true, false, not, ◌&&◌, ◌||◌, List, [], ◌∷◌, ◌++◌, any,
  keep, map, Option, none, some, Str, str, str_eq, str_le, contains, Dict, lookup, insert, is_empty,
  if◌then◌else◌,
}
use fold.Value.{Any, Items, Fields, field_lookup, float_eq, bool_eq}
use fold.Auth.{Principal}
use fold.Config.{
  PolicySubjects, BudgetConfig, RateLimitConfig, TenantConfig, resolved_period, allowance,
}
use fold.Policy.Subjects.{match_subjects}

-- `state.Provider`, as far as a tenant asks it.
pub record Provider (B L : Type 0) : Type 0 where
  pub budget : Str → Str → ℤ → B
  pub limiter : Str → ℤ → L

pub record Tenant (B L : Type 0) : Type 0 where
  pub ref : ℕ
  pub cfg : TenantConfig
  pub upstreams : List Str
  pub budget : B
  pub limiter : L

-- `tenantSet`. A value map has the scalars that its keys may be, by Go's equality on them.
pub record TenantSet (B L : Type 0) : Type 0 where
  pub by_claim : Dict (List (Any × List (Tenant B L)))
  pub by_scope : Dict (List (Tenant B L))
  pub by_group : Dict (List (Tenant B L))
  pub scan : List (Tenant B L)
  pub by_id : Dict (Tenant B L)
  pub total : ℕ

-- What a principal resolves to; an ambiguity names the subject and the tenants.
pub data Resolution (B L : Type 0) : Type 0 where
  unmatched : Resolution B L
  matched : Tenant B L → Resolution B L
  ambiguous : Str → List Str → Resolution B L

unfoldable pub key_equal : Any → Any → Bool
key_equal (Any.string a) (Any.string b) = str_eq a b
key_equal (Any.float64 a) (Any.float64 b) = float_eq a b
key_equal (Any.bool a) (Any.bool b) = bool_eq a b
key_equal a b = false

abbrev pub is_scalar : Any → Bool
is_scalar (Any.string s) = true
is_scalar (Any.float64 b) = true
is_scalar (Any.bool b) = true
is_scalar v = false

unfoldable pub index_key : Any → Option Any
index_key v = if is_scalar v then some v else none

abbrev pub scalar_claim : Fields → Option (Str × Any)
scalar_claim Fields.end = none
scalar_claim (Fields.field key val Fields.end) = if is_scalar val then some (key, val) else none
scalar_claim (Fields.field key val (Fields.field k v fs)) = none

abbrev pub no_fields : Fields → Bool
no_fields Fields.end = true
no_fields (Fields.field k v fs) = false

unfoldable pub indexable_claim : Option PolicySubjects → Option (Str × Any)
indexable_claim none = none
indexable_claim (some s) =
    if is_empty s.issuers && is_empty s.subs && is_empty s.groups && is_empty s.scopes
    then scalar_claim s.claims
    else none

unfoldable pub indexable_groups : Option PolicySubjects → Bool
indexable_groups none = false
indexable_groups (some s) =
    not (is_empty s.groups)
    && no_fields s.claims
    && is_empty s.issuers
    && is_empty s.subs
    && is_empty s.scopes

abbrev pub only_one : List Str → Option Str
only_one [] = none
only_one (sc ∷ []) = some sc
only_one (sc ∷ other ∷ scopes) = none

unfoldable pub indexable_scope : Option PolicySubjects → Option Str
indexable_scope none = none
indexable_scope (some s) =
    if no_fields s.claims && is_empty s.issuers && is_empty s.subs && is_empty s.groups
    then only_one s.scopes
    else none

abbrev pub groups_of : Option PolicySubjects → List Str
groups_of none = []
groups_of (some s) = s.groups

-- What a read of a nil slice or map gives.
abbrev pub list_of {ℓ} : {A : Type ℓ} → Option (List A) → List A
list_of none = []
list_of (some xs) = xs

abbrev pub int_equal : ℤ → ℤ → Bool
int_equal a b = leb_int a b && leb_int b a

unfoldable pub budget_equal : Option BudgetConfig → Option BudgetConfig → Bool
budget_equal none none = true
budget_equal none (some b) = false
budget_equal (some a) none = false
budget_equal (some a) (some b) =
    str_eq a.period b.period && int_equal a.upstream_calls b.upstream_calls

unfoldable pub rate_limit_equal : Option RateLimitConfig → Option RateLimitConfig → Bool
rate_limit_equal none none = true
rate_limit_equal none (some b) = false
rate_limit_equal (some a) none = false
rate_limit_equal (some a) (some b) =
    int_equal a.requests_per_minute b.requests_per_minute
    && int_equal a.per_principal_per_minute b.per_principal_per_minute

abbrev pub rpm_of : Option RateLimitConfig → ℤ
rpm_of none = pos 0
rpm_of (some rl) = rl.requests_per_minute
