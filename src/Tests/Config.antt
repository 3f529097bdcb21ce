-- ===== src/Tests/Config.antt =====
-- A configuration document that `Validate` lets through, and one that it refuses.
use fold.Prelude.{true, [], ◌∷◌, map, pos, none, some, str, str_eq, ◌≡◌, refl}
use fold.Config.Checks.{Rule, problem, ◌>>◌, need, each}
use fold.Config.Document.{UpstreamConfig, UpstreamAuth, AuthConfig, Config}
use fold.Config.Upstreams.{auth_required, per_principal}
use fold.Config.Sections.{Std}
use fold.Config.Validate.{Others, validate, namespace_separator}
use fold.Config.Validate.Served.{routed, resolve-validate}
use fold.Config.Validate.Guarded.{hook_secure, discovery_secure, issuers_secure, validate-secure}
use fold.Config.Validate.Identity.{validate-needs_auth}
use fold.Gateway.Router.{new_routes, resolve, public_name, matches_id}
use fold.Tests.World.{hook_config}

-- Every URL is https here.
abbrev std : Std
std = record {
  parse_url = λ s. some (str "https", s);
  marshal_subjects = λ s. none;
  trim_space = λ s. s;
  equal_fold = str_eq;
  split_host_port = λ s. true;
}

abbrev no_others : Others
no_others = record { tracing = none }

abbrev forwards : UpstreamAuth
forwards = record {
  strategy = str "passthrough";
  secret_ref = [];
  token_endpoint = [];
  client_id = [];
  client_auth = none;
  audience = [];
}

abbrev ci_config : UpstreamConfig
ci_config = record {
  id = str "ci";
  url = str "https://ci";
  urls = [];
  namespace = str "ci";
  protocol = [];
  auth = some forwards;
  timeouts = none;
  circuit_breaker = none;
  budget = none;
  health_check = none;
  max_response_bytes = pos 0;
  pin_definitions = [];
}

abbrev wiki_config : UpstreamConfig
wiki_config = record ci_config { id = str "wiki"; namespace = str "wiki"; auth = none }

abbrev required : AuthConfig
required = record {
  mode = str "required";
  resource = str "https://fold";
  issuers = record { issuer = str "https://idp"; jwks_uri = []; mode = [] } ∷ [];
  ema = none;
}

abbrev served_config : Config
served_config = record {
  upstreams = ci_config ∷ wiki_config ∷ [];
  discovery = none;
  server = none;
  separator = [];
  tenants = [];
  hook = some hook_config;
  auth = some required;
  policy = none;
  audit = none;
}

served_config_passes : validate std no_others served_config ≡ none
unfolding validate ◌>>◌ need matches_id str_eq per_principal auth_required each
served_config_passes = refl

-- The same without authentication.
open_config_fails :
    validate std no_others (record served_config { auth = none })
    ≡ problem (str "ci") Rule.needs_auth
unfolding validate ◌>>◌ need matches_id str_eq per_principal auth_required
open_config_fails = refl

resolve-validate_example :
    resolve
      (new_routes (map routed served_config.upstreams))
      (namespace_separator served_config)
      (public_name (namespace_separator served_config) (routed wiki_config) (str "page"))
    ≡ some (routed wiki_config, str "page")
resolve-validate_example =
    resolve-validate std no_others served_config (routed ci_config ∷ []) [] (routed wiki_config)
      (str "page") served_config_passes refl

validate-secure_example :
    (hook_secure std served_config.hook ≡ true)
    × (discovery_secure std served_config.discovery ≡ true)
    × (issuers_secure std served_config.auth ≡ true)
validate-secure_example = validate-secure std no_others served_config served_config_passes

validate-needs_auth_example : auth_required served_config ≡ true
unfolding per_principal str_eq
validate-needs_auth_example =
    validate-needs_auth std no_others served_config served_config_passes refl
