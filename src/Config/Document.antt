-- ===== src/Config/Document.antt =====
-- config/config.go: the sections of the document that `Validate` reads, as far as it reads them. An
-- omitted pointer is `none`, and an omitted list that is told from an empty one too.
use fold.Prelude.{ℤ, Bool, List, Option, Str, Dict}
use fold.Config.{PolicyConfig, BudgetConfig, TenantConfig}
use fold.Audit.Delivery.{AuditRetry}
use fold.Gateway.Hook.{HookConfig}

pub record ClientAuth : Type 0 where
  pub type_name : Str
  pub secret_ref : Str

pub record UpstreamAuth : Type 0 where
  pub strategy : Str
  pub secret_ref : Str
  pub token_endpoint : Str
  pub client_id : Str
  pub client_auth : Option ClientAuth
  pub audience : Str

pub record Timeouts : Type 0 where
  pub connect_ms : ℤ
  pub request_ms : ℤ
  pub stream_idle_ms : ℤ

pub record CircuitBreaker : Type 0 where
  pub failure_threshold : ℤ
  pub half_open_after_ms : ℤ

-- `health_check` is its interval.
pub record UpstreamConfig : Type 0 where
  pub id : Str
  pub url : Str
  pub urls : List Str
  pub namespace : Str
  pub protocol : Str
  pub auth : Option UpstreamAuth
  pub timeouts : Option Timeouts
  pub circuit_breaker : Option CircuitBreaker
  pub budget : Option BudgetConfig
  pub health_check : Option ℤ
  pub max_response_bytes : ℤ
  pub pin_definitions : Str

pub record Issuer : Type 0 where
  pub issuer : Str
  pub jwks_uri : Str
  pub mode : Str

pub record EmaConfig : Type 0 where
  pub idp_issuer : Str
  pub idp_jwks_uri : Str
  pub signing_key_ref : Str
  pub token_ttl_sec : ℤ
  pub token_rate_limit_per_minute : ℤ
  pub allowed_assertion_types : List Str
  pub allowed_client_ids : List Str

pub record AuthConfig : Type 0 where
  pub mode : Str
  pub resource : Str
  pub issuers : List Issuer
  pub ema : Option EmaConfig

pub record Discovery : Type 0 where
  pub url : Str
  pub interval_ms : ℤ
  pub allowed_auth_strategies : List Str
  pub allowed_secret_refs : List Str
  pub allowed_credential_hosts : Option (List Str)
  pub allowed_upstream_hosts : List Str

pub record AuditSink : Type 0 where
  pub type_name : Str
  pub url : Str
  pub headers : Dict Str
  pub bearer_secret_ref : Str
  pub path : Str
  pub max_size_mb : ℤ
  pub max_files : ℤ
  pub retry : Option AuditRetry
  pub dead_letter_path : Str

-- `max_error_length` is that of the scrub section.
pub record AuditConfig : Type 0 where
  pub sinks : List AuditSink
  pub max_error_length : Option ℤ
  pub require_durable : Bool

pub record IconsSection : Type 0 where
  pub max_bytes : ℤ
  pub timeout_ms : ℤ
  pub cache_ttl_ms : ℤ

pub record Icon : Type 0 where
  pub src : Str
  pub theme : Str

pub record Introspection : Type 0 where
  pub enabled : Bool
  pub groups : List Str

pub record ConsoleOauth : Type 0 where
  pub client_id : Str
  pub issuer : Str

pub record Console : Type 0 where
  pub enabled : Bool
  pub oauth : Option ConsoleOauth

-- The fields that a check reads; `identity` has the icons of that section.
pub record ServerSection : Type 0 where
  pub allowed_origins : List Str
  pub budget : Option BudgetConfig
  pub max_body_bytes : ℤ
  pub metrics_addr : Str
  pub mcp_path : Str
  pub introspection : Option Introspection
  pub console : Option Console
  pub public_url : Str
  pub icons : Option IconsSection
  pub identity : Option (List Icon)

-- `separator` is `routing.namespaceSeparator`, empty without a routing section.
pub record Config : Type 0 where
  pub upstreams : List UpstreamConfig
  pub discovery : Option Discovery
  pub server : Option ServerSection
  pub separator : Str
  pub tenants : List TenantConfig
  pub hook : Option HookConfig
  pub auth : Option AuthConfig
  pub policy : Option PolicyConfig
  pub audit : Option AuditConfig
