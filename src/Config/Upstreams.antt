-- ===== src/Config/Upstreams.antt =====
-- config/config.go: the loop of `Validate` over the upstreams, with `validateAuth`, `Budget.validate`
-- and `requireSecureEndpoint`. `url.Parse` is a parameter: the scheme and the host name.
use fold.Prelude.{
  ℕ, ◌*◌, ◌^◌, ℤ, pos, leb_int, is_positive, Bool, false, not, ◌&&◌, ◌||◌, List, [], ◌∷◌, Option,
  none, some, present, Str, str, str_eq, contains, is_empty, if◌then◌else◌,
}
use fold.Config.{BudgetConfig}
use fold.Config.Checks.{Check, Rule, ◌>>◌, problem, need, on, one_of, negative}
use fold.Config.Document.{ClientAuth, UpstreamAuth, UpstreamConfig, Config}
use fold.Gateway.Router.{matches_id}

abbrev pub ParseUrl : Type 0
ParseUrl = Str → Option (Str × Str)

abbrev pub is_loopback : Str → Bool
is_loopback host = one_of host (str "localhost" ∷ str "127.0.0.1" ∷ str "::1" ∷ [])

abbrev pub secure_parts : Str → Option (Str × Str) → Check
secure_parts what none = problem what Rule.invalid_url
secure_parts what (some (scheme, host)) =
    if str_eq scheme (str "https")
    then none
    else need (str_eq scheme (str "http") && is_loopback host) what Rule.insecure

unfoldable pub require_secure_endpoint : ParseUrl → Str → Str → Check
require_secure_endpoint parse what endpoint = secure_parts what (parse endpoint)

abbrev pub http_parts : Option (Str × Str) → Bool
http_parts none = false
http_parts (some (scheme, host)) = str_eq scheme (str "http") || str_eq scheme (str "https")

unfoldable pub is_http_url : ParseUrl → Str → Bool
is_http_url parse endpoint = http_parts (parse endpoint)

unfoldable pub validate_budget : Str → Option BudgetConfig → Check
validate_budget whose none = none
validate_budget whose (some b) = do
  need (one_of b.period ([] ∷ str "hour" ∷ str "day" ∷ str "month" ∷ [])) whose Rule.bad_period
  need (is_positive b.upstream_calls) whose Rule.no_allowance

unfoldable pub validate_client_auth : Str → ClientAuth → Check
validate_client_auth id ca = do
  need (one_of ca.type_name (str "client_secret_post" ∷ str "client_secret_basic" ∷ [])) id
      Rule.bad_client_auth
  need (not (is_empty ca.secret_ref)) id Rule.no_secret

-- The `switch` over the strategy.
unfoldable pub validate_strategy : ParseUrl → Str → UpstreamAuth → Check
unfolding require_secure_endpoint
validate_strategy parse id a =
    let client =
      not (is_empty a.token_endpoint) && not (is_empty a.client_id) && present a.client_auth in
    if one_of a.strategy ([] ∷ str "none" ∷ str "passthrough" ∷ [])
    then none
    else if str_eq a.strategy (str "static")
    then need (not (is_empty a.secret_ref)) id Rule.no_secret
    else if str_eq a.strategy (str "client-credentials")
    then need client id Rule.no_client >> require_secure_endpoint parse id a.token_endpoint
    else if str_eq a.strategy (str "token-exchange")
    then need (client && not (is_empty a.audience)) id Rule.no_audience
      >> require_secure_endpoint parse id a.token_endpoint
    else problem id Rule.unknown_strategy

unfoldable pub validate_auth : ParseUrl → UpstreamConfig → Check
unfolding validate_strategy validate_client_auth
validate_auth parse u =
    on u.auth (λ a. validate_strategy parse u.id a >> on a.client_auth (validate_client_auth u.id))

abbrev pub endpoints : UpstreamConfig → List Str
endpoints u =
    if not (is_empty u.urls) then u.urls else if not (is_empty u.url) then u.url ∷ [] else []

unfoldable pub validate_endpoints : ParseUrl → Str → List Str → List Str → Check
unfolding is_http_url
validate_endpoints parse id seen [] = none
validate_endpoints parse id seen (ep ∷ eps) = do
  need (is_http_url parse ep) id Rule.bad_url
  need (not (contains seen ep)) id Rule.duplicate_endpoint
  validate_endpoints parse id (ep ∷ seen) eps

abbrev pub min_max_response_bytes : ℕ
min_max_response_bytes = 64 * 2 ^ 10

-- The checks between the duplicate id and the namespace.
unfoldable pub validate_place : ParseUrl → UpstreamConfig → Check
unfolding validate_endpoints
validate_place parse u = do
  need (is_empty u.url || is_empty u.urls) u.id Rule.url_or_urls
  need (one_of u.pin_definitions ([] ∷ str "off" ∷ str "warn" ∷ [])) u.id Rule.bad_pin
  need (not (is_empty (endpoints u))) u.id Rule.no_url
  validate_endpoints parse u.id [] (endpoints u)

abbrev pub too_low : ℤ → Bool
too_low n = is_positive n && not (leb_int (pos min_max_response_bytes) n)

unfoldable pub auth_required : Config → Bool
auth_required c = elim c.auth [ none ↦ false | some a ↦ str_eq a.mode (str "required") ]

-- A strategy that forwards or exchanges the caller's own token.
unfoldable pub per_principal : Option UpstreamAuth → Bool
per_principal none = false
per_principal (some a) = one_of a.strategy (str "passthrough" ∷ str "token-exchange" ∷ [])

-- The checks after the namespace.
unfoldable pub validate_rest : ParseUrl → Config → UpstreamConfig → Check
unfolding validate_budget validate_auth
validate_rest parse c u = do
  on u.health_check (λ ms. need (is_positive ms) u.id Rule.bad_interval)
  need (not (too_low u.max_response_bytes)) u.id Rule.low_response_cap
  on u.timeouts (λ t.
      need (not (negative t.connect_ms || negative t.request_ms || negative t.stream_idle_ms)) u.id
        Rule.negative_timeout)
  on u.circuit_breaker (λ b.
      need (not (negative b.failure_threshold || negative b.half_open_after_ms)) u.id
        Rule.negative_breaker)
  validate_budget u.id u.budget
  need (one_of u.protocol ([] ∷ str "session" ∷ str "auto" ∷ str "2026-07-28" ∷ [])) u.id
      Rule.bad_protocol
  validate_auth parse u
  need (not (per_principal u.auth) || auth_required c) u.id Rule.needs_auth

unfoldable pub validate_namespace : List Str → UpstreamConfig → Check
validate_namespace seen u =
    if is_empty u.namespace
    then none
    else need (matches_id u.namespace) u.id Rule.bad_namespace
      >> need (not (contains seen u.namespace)) u.id Rule.duplicate_namespace

abbrev pub note_namespace : Str → List Str → List Str
note_namespace ns seen = if is_empty ns then seen else ns ∷ seen

-- The loop; it remembers the ids and the namespaces that it has passed.
unfoldable pub validate_upstreams :
    ParseUrl → Config → List Str → List Str → List UpstreamConfig → Check
unfolding validate_place validate_namespace validate_rest
validate_upstreams parse c ids spaces [] = none
validate_upstreams parse c ids spaces (u ∷ ups) = do
  need (matches_id u.id) u.id Rule.bad_id
  need (not (contains ids u.id)) u.id Rule.duplicate_id
  validate_place parse u
  validate_namespace spaces u
  validate_rest parse c u
  validate_upstreams parse c (u.id ∷ ids) (note_namespace u.namespace spaces) ups
