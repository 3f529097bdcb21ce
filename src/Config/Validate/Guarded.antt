-- ===== src/Config/Validate/Guarded.antt =====
-- config/config.go: what a document that `Validate` lets through keeps safe.
use fold.Prelude.{
  is_empty, Bool, true, false, not, ◌&&◌, ◌||◌, List, [], ◌∷◌, ◌++◌, any, all, Option, none, some,
  Str, str, str_eq, str_eq_iff, ◌≡◌, refl, Bool-cases, inl, inr,
}
use fold.Config.{PolicyAllow, PolicyRule, PolicyConfig}
use fold.Config.Checks.{Rule, each, on, >>-none, need-none, one_of}
use fold.Config.Document.{Issuer, EmaConfig, AuthConfig, Discovery, AuditConfig, Config}
use fold.Config.Upstreams.{
  ParseUrl, is_loopback, secure_parts, require_secure_endpoint, validate_upstreams,
}
use fold.Config.Sections.{
  Std, known_server, validate_clause, validate_rule, validate_policy, validate_issuer,
  validate_mode, validate_auth_section, validate_hook, validate_discovery, validate_ema,
  optional_endpoint,
}
use fold.Config.Sinks.{durable, validate_audit}
use fold.Config.Server.{validate_console}
use fold.Config.Validate.{Others, validate}
use fold.Gateway.Hook.{HookConfig}

-- `https`, or `http` on a loopback host.
abbrev pub secure : Option (Str × Str) → Bool
secure none = false
secure (some (scheme, host)) =
    str_eq scheme (str "https") || (str_eq scheme (str "http") && is_loopback host)

secure_parts-secure :
    (what : Str) (parts : Option (Str × Str)) → secure_parts what parts ≡ none → secure parts ≡ true
secure_parts-secure what none h = cc
secure_parts-secure what (some (scheme, host)) h = elim (Bool-cases (str_eq scheme (str "https"))) [
  | inl e ↦ rw e refl
  | inr e ↦
      rw e
        (need-none (str_eq scheme (str "http") && is_loopback host) what Rule.insecure (rw e at h))
]

require_secure_endpoint-secure :
    (parse : ParseUrl) (what endpoint : Str)
    → require_secure_endpoint parse what endpoint ≡ none
    → secure (parse endpoint) ≡ true
unfolding require_secure_endpoint
require_secure_endpoint-secure parse what endpoint h = secure_parts-secure what (parse endpoint) h

-- The endpoints that decide whom the gateway trusts.
abbrev pub hook_secure : Std → Option HookConfig → Bool
hook_secure std none = true
hook_secure std (some h) = secure (std.parse_url h.url)

abbrev pub discovery_secure : Std → Option Discovery → Bool
discovery_secure std none = true
discovery_secure std (some d) = secure (std.parse_url d.url)

-- An endpoint that may be left out.
abbrev pub secure_or_none : Std → Str → Bool
secure_or_none std endpoint = is_empty endpoint || secure (std.parse_url endpoint)

-- Where the keys that tokens are verified with come from.
abbrev pub issuer_secure : Std → Issuer → Bool
issuer_secure std iss = secure (std.parse_url iss.issuer) && secure_or_none std iss.jwks_uri

abbrev pub ema_secure : Std → Option EmaConfig → Bool
ema_secure std none = true
ema_secure std (some ema) =
    secure (std.parse_url ema.idp_issuer) && secure_or_none std ema.idp_jwks_uri

abbrev pub issuers_secure : Std → Option AuthConfig → Bool
issuers_secure std none = true
issuers_secure std (some a) =
    (not (str_eq a.mode (str "required")) || all (issuer_secure std) a.issuers)
    && ema_secure std a.ema

optional_endpoint-secure :
    (std : Std) (what endpoint : Str)
    → optional_endpoint std what endpoint ≡ none
    → secure_or_none std endpoint ≡ true
optional_endpoint-secure std what [] h = refl
optional_endpoint-secure std what (b ∷ endpoint) h =
    require_secure_endpoint-secure std.parse_url what (b ∷ endpoint) h

issuers-secure :
    (std : Std) (issuers : List Issuer)
    → each (validate_issuer std) issuers ≡ none
    → all (issuer_secure std) issuers ≡ true
unfolding each validate_issuer
issuers-secure std [] h = refl
issuers-secure std (iss ∷ issuers) h =
    let (one, rest) = >>-none h in
    let (a, b) = >>-none one in
    let (c, d) = >>-none b in
    let (keys, mode) = >>-none d in
    rw
      (
        require_secure_endpoint-secure std.parse_url _ iss.issuer c,
        optional_endpoint-secure std _ iss.jwks_uri keys,
      )
      (issuers-secure std issuers rest)

ema-secure :
    (std : Std) (required : Bool) (ema : Option EmaConfig)
    → on ema (validate_ema std required) ≡ none
    → ema_secure std ema ≡ true
unfolding validate_ema
ema-secure std required none h = refl
ema-secure std required (some ema) h =
    let (a, h1) = >>-none h in
    let (b, h2) = >>-none h1 in
    let (idp, h3) = >>-none h2 in
    let (keys, rest) = >>-none h3 in
    rw
      (
        require_secure_endpoint-secure std.parse_url _ ema.idp_issuer idp,
        optional_endpoint-secure std _ ema.idp_jwks_uri keys,
      )
      refl

required_mode :
    (mode : Str)
    → str_eq mode (str "required") ≡ true
    → one_of mode ([] ∷ str "disabled" ∷ []) ≡ false
unfolding str_eq
required_mode mode h = rw ((str_eq_iff mode (str "required")).0 h) refl

mode-secure :
    (std : Std) (a : AuthConfig)
    → validate_mode std a ≡ none
    → (not (str_eq a.mode (str "required")) || all (issuer_secure std) a.issuers) ≡ true
unfolding validate_mode
mode-secure std a h = elim (Bool-cases (str_eq a.mode (str "required"))) [
  | inr e ↦ rw e refl
  | inl e ↦
      let (resource, rest) = >>-none (rw (required_mode a.mode e, e) at h) in
      let (some_issuer, issuers) = >>-none rest in rw e (issuers-secure std a.issuers issuers)
]

auth-secure :
    (std : Std) (a : AuthConfig)
    → validate_auth_section std a ≡ none
    → issuers_secure std (some a) ≡ true
unfolding validate_auth_section
auth-secure std a h =
    let (mode, ema) = >>-none h in
    rw (mode-secure std a mode, ema-secure std (str_eq a.mode (str "required")) a.ema ema) refl

-- The sections of a document that is let through are each let through.
pub record Passed (std : Std) (c : Config) : Type 0 where
  pub upstreams : validate_upstreams std.parse_url c [] [] c.upstreams ≡ none
  pub hook : on c.hook (validate_hook std) ≡ none
  pub auth : on c.auth (validate_auth_section std) ≡ none
  pub policy : on c.policy (validate_policy std c) ≡ none
  pub discovery : on c.discovery (validate_discovery std) ≡ none
  pub console : validate_console std c ≡ none
  pub audit : on c.audit (validate_audit std) ≡ none

pub validate-Passed :
    (std : Std) (others : Others) (c : Config) → validate std others c ≡ none → Passed std c
unfolding validate
validate-Passed std others c h =
    let (a1, h1) = >>-none h in
    let (a2, h2) = >>-none h1 in
    let (a3, h3) = >>-none h2 in
    let (a4, h4) = >>-none h3 in
    let (a5, h5) = >>-none h4 in
    let (a6, h6) = >>-none h5 in
    let (a7, h7) = >>-none h6 in
    let (a8, h8) = >>-none h7 in
    let (a9, h9) = >>-none h8 in
    let (a10, h10) = >>-none h9 in
    let (a11, h11) = >>-none h10 in
    let (a12, h12) = >>-none h11 in
    let (a13, h13) = >>-none h12 in
    record {
      upstreams = a2;
      hook = a7;
      console = a8;
      auth = a9;
      policy = a10;
      discovery = a11;
      audit = h13;
    }

hook-secure :
    (std : Std) (h : Option HookConfig) → on h (validate_hook std) ≡ none → hook_secure std h ≡ true
unfolding validate_hook
hook-secure std none e = refl
hook-secure std (some h) e =
    let (a, rest) = >>-none e in require_secure_endpoint-secure std.parse_url _ h.url a

discovery-secure :
    (std : Std) (d : Option Discovery)
    → on d (validate_discovery std) ≡ none
    → discovery_secure std d ≡ true
unfolding validate_discovery
discovery-secure std none e = refl
discovery-secure std (some d) e =
    let (a, rest) = >>-none e in require_secure_endpoint-secure std.parse_url _ d.url a

issuers_secure_lem :
    (std : Std) (a : Option AuthConfig)
    → on a (validate_auth_section std) ≡ none
    → issuers_secure std a ≡ true
issuers_secure_lem std none h = refl
issuers_secure_lem std (some a) h = auth-secure std a h

-- In a document that `Validate` lets through, the endpoints of the hook and of discovery, with
-- required authentication the URL and the key set of every issuer, and the identity provider and the
-- key set of the EMA section, are reached over https or on a loopback host; a key set without a URL
-- of its own is left out.
pub validate-secure :
    (std : Std) (others : Others) (c : Config)
    → validate std others c ≡ none
    → (hook_secure std c.hook ≡ true)
      × (discovery_secure std c.discovery ≡ true)
      × (issuers_secure std c.auth ≡ true)
validate-secure std others c h =
    let p = validate-Passed std others c h in
    (
      hook-secure std c.hook p.hook,
      discovery-secure std c.discovery p.discovery,
      issuers_secure_lem std c.auth p.auth,
    )

-- Every clause of a rule names a server of the document, or all of them.
abbrev pub rule_known : Std → Config → PolicyRule → Bool
rule_known std c r = all (λ (a : PolicyAllow). known_server std c a.server) (r.allow ++ r.deny)

clauses-known :
    (std : Std) (c : Config) (rule : Str) (clauses : List PolicyAllow)
    → each (validate_clause std c rule) clauses ≡ none
    → all (λ (a : PolicyAllow). known_server std c a.server) clauses ≡ true
unfolding each validate_clause
clauses-known std c rule [] h = refl
clauses-known std c rule (a ∷ clauses) h =
    let (one, rest) = >>-none h in
    let (server, kind) = >>-none one in
    rw (need-none _ _ _ server) (clauses-known std c rule clauses rest)

rules-known :
    (std : Std) (c : Config) (rules : List PolicyRule)
    → each (validate_rule std c) rules ≡ none
    → all (rule_known std c) rules ≡ true
unfolding each validate_rule
rules-known std c [] h = refl
rules-known std c (r ∷ rules) h =
    let (one, rest) = >>-none h in
    let (a, h1) = >>-none one in
    let (b, h2) = >>-none h1 in
    let (d, h3) = >>-none h2 in
    let (clauses, subjects) = >>-none h3 in
    rw (clauses-known std c r.id (r.allow ++ r.deny) clauses) (rules-known std c rules rest)

-- In a document that `Validate` lets through, every clause of the policy names a server of the
-- document, or all of them.
pub validate-known_server :
    (std : Std) (others : Others) (c : Config) (p : PolicyConfig)
    → validate std others c ≡ none
    → c.policy ≡ some p
    → all (rule_known std c) p.rules ≡ true
unfolding validate_policy
validate-known_server std others c p h e =
    let checked = (validate-Passed std others c h).policy in
    let (a, h1) = >>-none (rw e at checked) in
    let (b, rules) = >>-none h1 in rules-known std c p.rules rules

-- A document that `Validate` lets through and that requires durable auditing has a sink that keeps
-- what could not be delivered.
pub validate-durable :
    (std : Std) (others : Others) (c : Config) (a : AuditConfig)
    → validate std others c ≡ none
    → c.audit ≡ some a
    → a.require_durable ≡ true
    → any durable a.sinks ≡ true
unfolding validate_audit
validate-durable std others c a h e required =
    let checked = (validate-Passed std others c h).audit in
    let (n, h1) = >>-none (rw e at checked) in
    let (sinks, last) = >>-none h1 in
    let q = need-none (not a.require_durable || any durable a.sinks) _ _ last in rw required at q
