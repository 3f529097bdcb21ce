-- ===== src/Config/Sections.antt =====
-- config/config.go: the checks of the sections below the upstreams. `url.Parse`, `json.Marshal` of
-- the subjects of a tenant, `strings.TrimSpace` and the case folding of a header name are parameters.
use fold.Prelude.{
  pos, leb_int, is_positive, Bool, true, false, not, ◌&&◌, ◌||◌, List, [], ◌∷◌, ◌++◌, any, Option,
  none, some, present, Str, str, str_eq, has_prefix, contains, is_empty, if◌then◌else◌,
}
use fold.Value.{Any, Fields, end, field}
use fold.Config.{
  PolicySubjects, PolicyAllow, PolicyRule, PolicyConfig, RateLimitConfig, TenantConfig,
}
use fold.Config.Checks.{Check, Rule, ◌>>◌, problem, need, each, on, one_of, negative}
use fold.Config.Document.{UpstreamConfig, Issuer, EmaConfig, AuthConfig, Discovery, Config}
use fold.Config.Upstreams.{ParseUrl, require_secure_endpoint, validate_budget}
use fold.Gateway.Hook.{HookConfig}
use fold.Gateway.Router.{matches_id}

-- What the standard library gives.
pub record Std : Type 0 where
  pub parse_url : ParseUrl
  pub marshal_subjects : PolicySubjects → Option Str
  pub trim_space : Str → Str
  pub equal_fold : Str → Str → Bool
  pub split_host_port : Str → Bool

abbrev pub has_upstream : Config → Str → Bool
has_upstream c id = any (λ (u : UpstreamConfig). str_eq u.id id) c.upstreams

module _ (std : Std) where
  unfoldable pub validate_scopes : Str → List Str → Check
  validate_scopes subject scopes =
      each (λ sc. need (not (is_empty (std.trim_space sc))) subject Rule.empty_scope) scopes

  abbrev pub seen_selector : Str → List Str → Option Str → Check
  seen_selector id prints none = problem id Rule.unencodable
  seen_selector id prints (some fp) = need (not (contains prints fp)) id Rule.identical_subjects

  abbrev pub note_print : Option Str → List Str → List Str
  note_print none prints = prints
  note_print (some fp) prints = fp ∷ prints

  abbrev pub print_of : Option PolicySubjects → Option Str
  print_of none = none
  print_of (some s) = std.marshal_subjects s

  abbrev pub subject_checks : Str → List Str → Option PolicySubjects → Check
  subject_checks id prints none = problem id Rule.no_subjects
  subject_checks id prints (some s) =
      seen_selector id prints (std.marshal_subjects s) >> validate_scopes id s.scopes

  abbrev pub is_shared : Option RateLimitConfig → Bool
  is_shared none = true
  is_shared (some rl) =
      leb_int rl.per_principal_per_minute (pos 0) && leb_int (pos 0) rl.per_principal_per_minute

  unfoldable pub validate_tenant : Config → List Str → List Str → TenantConfig → Check
  unfolding validate_budget validate_scopes
  validate_tenant c ids prints t = do
    need (matches_id t.id) t.id Rule.bad_id
    need (not (contains ids t.id)) t.id Rule.duplicate_id
    subject_checks t.id prints t.subjects
    validate_budget t.id t.budget
    need (is_shared t.rate_limit) t.id Rule.server_level_limit
    each (λ id. need (has_upstream c id) t.id Rule.unknown_upstream) t.upstreams

  unfoldable pub validate_tenants : Config → List Str → List Str → List TenantConfig → Check
  unfolding validate_tenant
  validate_tenants c ids prints [] = none
  validate_tenants c ids prints (t ∷ ts) = do
    validate_tenant c ids prints t
    validate_tenants c (t.id ∷ ids) (note_print (print_of t.subjects) prints) ts

  abbrev pub hook_stages : List Str
  hook_stages = str "ingress" ∷ str "egress" ∷ str "serverInitiated" ∷ []

  abbrev pub hook_methods : List Str
  hook_methods =
      str "tools/call"
      ∷ str "prompts/get"
      ∷ str "sampling/createMessage"
      ∷ str "elicitation/create"
      ∷ []

  unfoldable pub validate_hook : HookConfig → Check
  unfolding require_secure_endpoint
  validate_hook h = do
    require_secure_endpoint std.parse_url (str "hook url") h.url
    need (is_positive h.timeout_ms) (str "hook") Rule.no_timeout
    need (one_of h.on_error (str "allow" ∷ str "deny" ∷ [])) (str "hook") Rule.bad_on_error
    each (λ s. need (one_of s hook_stages) s Rule.unknown_stage) h.stages
    each (λ m. need (one_of m hook_methods) m Rule.unknown_method) h.methods

  -- A secure endpoint, or an empty one.
  abbrev pub optional_endpoint : Str → Str → Check
  optional_endpoint what endpoint =
      if is_empty endpoint then none else require_secure_endpoint std.parse_url what endpoint

  unfoldable pub validate_issuer : Issuer → Check
  unfolding require_secure_endpoint
  validate_issuer iss = do
    need (present (std.parse_url iss.issuer) && not (is_empty iss.issuer)) iss.issuer
        Rule.bad_issuer
    require_secure_endpoint std.parse_url (str "auth issuer") iss.issuer
    optional_endpoint (str "auth issuer jwksUri") iss.jwks_uri
    need (one_of iss.mode ([] ∷ str "direct" ∷ str "exchange" ∷ [])) iss.issuer Rule.bad_mode

  abbrev pub no_empty : Str → List Str → Check
  no_empty subject entries =
      each (λ (s : Str). need (not (is_empty s)) subject Rule.empty_entry) entries

  unfoldable pub validate_ema : Bool → EmaConfig → Check
  unfolding require_secure_endpoint
  validate_ema required ema = do
    need required (str "auth.ema") Rule.needs_auth
    need (not (is_empty ema.idp_issuer) && not (is_empty ema.signing_key_ref)) (str "auth.ema")
        Rule.no_key
    require_secure_endpoint std.parse_url (str "auth.ema idpIssuer") ema.idp_issuer
    optional_endpoint (str "auth.ema idpJwksUri") ema.idp_jwks_uri
    need (not (negative ema.token_ttl_sec || negative ema.token_rate_limit_per_minute))
        (str "auth.ema") Rule.negative_limit
    no_empty (str "auth.ema allowedAssertionTypes") ema.allowed_assertion_types
    no_empty (str "auth.ema allowedClientIDs") ema.allowed_client_ids

  unfoldable pub validate_mode : AuthConfig → Check
  unfolding validate_issuer
  validate_mode a =
      if one_of a.mode ([] ∷ str "disabled" ∷ [])
      then none
      else if str_eq a.mode (str "required")
      then (do
        need (not (is_empty a.resource)) (str "auth") Rule.no_resource
        need (not (is_empty a.issuers)) (str "auth") Rule.no_issuer
        each validate_issuer a.issuers)
      else problem (str "auth") Rule.bad_mode

  unfoldable pub validate_auth_section : AuthConfig → Check
  unfolding validate_mode validate_ema
  validate_auth_section a =
      validate_mode a >> on a.ema (validate_ema (str_eq a.mode (str "required")))

  abbrev pub is_scalar : Any → Bool
  is_scalar (Any.string s) = true
  is_scalar (Any.float64 b) = true
  is_scalar (Any.bool b) = true
  is_scalar v = false

  -- Every key has a name and every value is a scalar.
  unfoldable pub validate_fields : Str → Fields → Check
  validate_fields subject end = none
  validate_fields subject (field k v fs) = do
    need (not (is_empty k)) subject Rule.no_path
    need (is_scalar v) subject Rule.not_scalar
    validate_fields subject fs

  abbrev pub known_server : Config → Str → Bool
  known_server c server = is_empty server || str_eq server (str "*") || has_upstream c server

  unfoldable pub validate_clause : Config → Str → PolicyAllow → Check
  unfolding validate_fields
  validate_clause c rule a = do
    need (known_server c a.server) rule Rule.unknown_server
    need (one_of a.tool_kind ([] ∷ str "readOnly" ∷ str "nonDestructive" ∷ [])) rule Rule.bad_kind
    validate_fields rule a.args

  unfoldable pub validate_rule : Config → PolicyRule → Check
  unfolding validate_clause validate_scopes
  validate_rule c r = do
    need (not (is_empty r.id)) (str "policy") Rule.no_rule_id
    need (not (is_empty r.allow && is_empty r.deny)) r.id Rule.no_clause
    need (not (negative r.max_items)) r.id Rule.negative_items
    each (validate_clause c r.id) (r.allow ++ r.deny)
    on r.subjects (λ s. validate_fields r.id s.claims >> validate_scopes r.id s.scopes)

  abbrev pub decisions : List Str
  decisions = [] ∷ str "deny" ∷ str "allow" ∷ []

  unfoldable pub validate_policy : Config → PolicyConfig → Check
  unfolding validate_rule
  validate_policy c p = do
    need (one_of p.default_decision decisions) (str "policy") Rule.bad_decision
    need (one_of p.server_initiated_decision decisions) (str "policy") Rule.bad_decision
    each (validate_rule c) p.rules

  -- A host name, or "*." and a suffix.
  unfoldable pub is_host_pattern : Str → Bool
  is_host_pattern pat =
      not (is_empty pat || str_eq pat (str "*"))
      && (not (has_prefix pat (str "*")) || has_prefix pat (str "*."))

  abbrev pub list_or {ℓ} : {A : Type ℓ} → Option (List A) → List A
  list_or none = []
  list_or (some xs) = xs

  abbrev pub strategies : List Str
  strategies =
      str "none"
      ∷ str "static"
      ∷ str "passthrough"
      ∷ str "client-credentials"
      ∷ str "token-exchange"
      ∷ []

  abbrev pub is_credentialed : Discovery → Bool
  is_credentialed d =
      not (is_empty d.allowed_secret_refs)
      || any (λ s. not (str_eq s (str "none"))) d.allowed_auth_strategies

  unfoldable pub validate_discovery : Discovery → Check
  unfolding require_secure_endpoint is_host_pattern
  validate_discovery d = do
    require_secure_endpoint std.parse_url (str "discovery url") d.url
    need (not (negative d.interval_ms)) (str "discovery") Rule.bad_interval
    each (λ s. need (one_of s strategies) s Rule.unknown_strategy) d.allowed_auth_strategies
    no_empty (str "discovery allowedSecretRefs") d.allowed_secret_refs
    each (λ p. need (is_host_pattern p) p Rule.bad_host) (list_or d.allowed_credential_hosts)
    each (λ p. need (is_host_pattern p) p Rule.bad_host) d.allowed_upstream_hosts
    need (not (is_credentialed d) || present d.allowed_credential_hosts) (str "discovery")
        Rule.unbounded_credentials
