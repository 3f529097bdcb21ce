-- ===== src/Tests/Tenants.antt =====
-- Tenants and names on concrete inputs.
use fold.Prelude.{ℕ, true, false, [], ◌∷◌, none, some, str, str_eq, ◌≡◌, if◌then◌else◌}
use fold.Value.{Any, end, field, field_lookup}
use fold.Value.Claims.{claim_satisfies, claims_match}
use fold.Config.{PolicySubjects, TenantConfig}
use fold.Policy.Subjects.{match_subjects}
use fold.Gateway.Tenant.{Provider, Tenant}
use fold.Gateway.Tenant.Index.{no_tenants, build_tenants, tenants_from, new_tenant}
use fold.Gateway.Tenant.Resolve.{resolve_tenant}
use fold.Gateway.Tenant.Unique.{is_matched, is_unmatched, resolve_tenant-lem}
use fold.Gateway.Router.{Upstream, Answer, value, error, fan_out, partial_failure_meta}
use fold.Gateway.Router.Failures.{is_down, is_well, partial_failure_meta-fan_out}
use fold.Tests.Data.{alice, engineers}

-- A provider that counts from one.
abbrev counting : Provider ℕ ℕ
counting = record { budget = λ scope period n. 1; limiter = λ scope rpm. 1 }

abbrev in_region : PolicySubjects
in_region = record engineers {
  groups = [];
  claims = field (str "region") (Any.string (str "eu")) end;
}

abbrev eng : TenantConfig
eng = record {
  id = str "eng";
  subjects = some engineers;
  budget = none;
  rate_limit = none;
  upstreams = str "ci" ∷ [];
}

abbrev eu : TenantConfig
eu = record eng { id = str "eu"; subjects = some in_region }

abbrev eng_tenant : Tenant ℕ ℕ
eng_tenant = record { ref = 0; cfg = eng; upstreams = str "ci" ∷ []; budget = 1; limiter = 1 }

-- Alice is in the group and not in the region.
resolve_tenant-lem_example :
    let r = resolve_tenant (build_tenants counting no_tenants (eng ∷ eu ∷ [])) (some alice) in
    (is_matched r eng_tenant ≡ true) × (is_unmatched r ≡ false)
unfolding tenants_from new_tenant match_subjects claims_match claim_satisfies field_lookup str_eq
resolve_tenant-lem_example = resolve_tenant-lem counting no_tenants (eng ∷ eu ∷ []) alice eng_tenant

abbrev github : Upstream
github = record { id = str "u1"; namespace = str "github" }

abbrev jira : Upstream
jira = record { id = str "u2"; namespace = str "jira-2" }

abbrev only_github : Upstream → Answer ℕ
only_github u = if str_eq u.id (str "u1") then value 1 else error

partial_failure_meta-fan_out_example :
    let outcome = partial_failure_meta (fan_out only_github (github ∷ jira ∷ [])).1 2 in
    (is_down outcome ≡ false) × (is_well outcome ≡ false)
unfolding str_eq
partial_failure_meta-fan_out_example = partial_failure_meta-fan_out only_github (github ∷ jira ∷ [])

abbrev spent : Tenant ℕ ℕ
spent = record eng_tenant { budget = 7 }
