-- ===== src/Config/Server.antt =====
-- config/config.go: the server section of a document and its checks in `Validate`. A field that no
-- check reads is left out. `net.SplitHostPort` is a parameter: whether it accepts an address.
use fold.Prelude.{
  ℤ, pos, leb_int, is_positive, Bool, false, not, ◌&&◌, ◌||◌, List, [], ◌∷◌, Option, none, some,
  present, Str, str, str_eq, has_prefix, is_empty, if◌then◌else◌,
}
use fold.Config.Checks.{Check, Rule, ◌>>◌, need, each, on, one_of, negative}
use fold.Config.Document.{
  Issuer, AuthConfig, ServerSection, IconsSection, Icon, Introspection, Console, ConsoleOauth,
  Config,
}
use fold.Config.Upstreams.{validate_budget, require_secure_endpoint, auth_required}
use fold.Config.Sections.{Std, optional_endpoint, no_empty, is_host_pattern}
use fold.Policy.Glob.{index}

abbrev pub subject : Str
subject = str "server"

abbrev pub min_icon_bytes : ℤ
min_icon_bytes = pos 1024

abbrev pub reserved_paths : List Str
reserved_paths =
    str "/health"
    ∷ str "/metrics"
    ∷ str "/console"
    ∷ str "/console/"
    ∷ str "/api/federation"
    ∷ str "/api/auth-hint"
    ∷ str "/oauth/token"
    ∷ str "/icons"
    ∷ str "/icons/"
    ∷ []

-- `strings.Contains`.
abbrev pub has_part : Str → Str → Bool
has_part s part = present (index s part)

module _ (std : Std) where
  unfoldable pub validate_icons : IconsSection → Check
  validate_icons ic = do
    need (not (negative ic.max_bytes || negative ic.timeout_ms || negative ic.cache_ttl_ms)) subject
        Rule.negative_limit
    need (not (is_positive ic.max_bytes && not (leb_int min_icon_bytes ic.max_bytes))) subject
        Rule.low_icon_cap

  unfoldable pub validate_icon : Icon → Check
  unfolding require_secure_endpoint
  validate_icon icon = do
    need (not (is_empty icon.src)) subject Rule.no_icon_src
    if has_prefix icon.src (str "data:")
        then none
        else require_secure_endpoint std.parse_url (str "server: identity.icons src") icon.src
    need (one_of icon.theme ([] ∷ str "light" ∷ str "dark" ∷ [])) subject Rule.bad_theme

  -- The server's checks before those of the tenants, in their order.
  unfoldable pub validate_server : ServerSection → Check
  unfolding validate_icons validate_icon validate_budget require_secure_endpoint
  validate_server s = do
    need (not (negative s.max_body_bytes)) subject Rule.negative_limit
    optional_endpoint std (str "server: publicUrl") s.public_url
    on s.icons validate_icons
    on s.identity (each validate_icon)
    need (is_empty s.metrics_addr || std.split_host_port s.metrics_addr) subject Rule.bad_address
    need
        (is_empty s.mcp_path
          || not (one_of s.mcp_path reserved_paths || has_prefix s.mcp_path (str "/.well-known/")))
        subject Rule.reserved_path
    validate_budget subject s.budget

  unfoldable pub console_enabled : Config → Bool
  console_enabled c = elim c.server [
    | none ↦ false
    | some s ↦ elim s.console [ none ↦ false | some k ↦ k.enabled ]
  ]

  unfoldable pub introspection_enabled : Config → Bool
  introspection_enabled c = elim c.server [
    | none ↦ false
    | some s ↦ elim s.introspection [ none ↦ false | some i ↦ i.enabled ]
  ]

  -- `ConsoleOAuthIssuer`: the first issuer in direct mode that has the name that is asked for.
  unfoldable pub direct_issuer : Str → List Issuer → Option Issuer
  direct_issuer want [] = none
  direct_issuer want (iss ∷ issuers) =
      let next = direct_issuer want issuers in
      if not (one_of iss.mode ([] ∷ str "direct" ∷ []))
      then next
      else if is_empty want || str_eq iss.issuer want
      then some iss
      else next

  abbrev pub issuers_of : Option AuthConfig → List Issuer
  issuers_of none = []
  issuers_of (some a) = a.issuers

  unfoldable pub validate_oauth : Config → ConsoleOauth → Check
  unfolding auth_required console_enabled direct_issuer
  validate_oauth c oauth = do
    need (not (is_empty oauth.client_id)) subject Rule.no_console_client
    need (console_enabled c) subject Rule.needs_console
    need (auth_required c) subject Rule.needs_auth
    need (present (direct_issuer oauth.issuer (issuers_of c.auth))) subject Rule.no_direct_issuer

  unfoldable pub validate_viewers : Config → Introspection → Check
  unfolding auth_required
  validate_viewers c i =
      if is_empty i.groups
      then none
      else no_empty std (str "server: introspection.groups") i.groups
        >> need (auth_required c) subject Rule.needs_auth

  -- The server's checks after that of the hook.
  unfoldable pub validate_console : Config → Check
  unfolding validate_viewers validate_oauth console_enabled introspection_enabled
  validate_console c = do
    on c.server (λ (s : ServerSection). on s.introspection (validate_viewers c))
    need (not (console_enabled c) || introspection_enabled c) subject Rule.needs_introspection
    on c.server
        (λ (s : ServerSection). on s.console (λ (k : Console). on k.oauth (validate_oauth c)))

  unfoldable pub is_origin_pattern : Str → Bool
  unfolding is_host_pattern index
  is_origin_pattern pat =
      str_eq pat (str "*")
      || (is_host_pattern std pat && not (has_part pat (str "://")) && not (has_part pat (str "/")))

  unfoldable pub validate_origins : Config → Check
  unfolding is_origin_pattern
  validate_origins c = on c.server (λ (s : ServerSection).
      each (λ (pat : Str). need (is_origin_pattern pat) pat Rule.bad_origin) s.allowed_origins)
