-- ===== src/Config/Validate.antt =====
-- config/config.go: `Validate`, in the order of its sections. The checks of
-- tracing are a parameter.
pub mod Served
pub mod Guarded
pub mod Identity
use fold.Prelude.{
  Bool, true, false, not, ◌&&◌, ◌||◌, List, [], ◌∷◌, any, length, leb, Option, none, some, Str, str,
  is_empty, if◌then◌else◌,
}
use fold.Config.Checks
use fold.Config.Checks.{Check, Rule, ◌>>◌, problem, need, each, on}
use fold.Config.Document.{UpstreamConfig, Discovery, Config}
use fold.Config.Upstreams.{validate_upstreams}
use fold.Config.Sections.{
  Std, validate_tenants, validate_hook, validate_auth_section, validate_policy, validate_discovery,
}
use fold.Config.Sinks.{validate_audit}
use fold.Config.Server.{validate_server, validate_console, validate_origins}
use fold.Gateway.Router.{in_alphabet}

-- The checks of tracing, whose ratio is a float64, are not modelled.
pub record Others : Type 0 where
  pub tracing : Check

abbrev pub discovers : Option Discovery → Bool
discovers none = false
discovers (some d) = not (is_empty d.url)

unfoldable pub validate_all_named : List UpstreamConfig → Check
validate_all_named ups =
    if leb (length ups) 1
    then none
    else each (λ (u : UpstreamConfig). need (not (is_empty u.namespace)) u.id Rule.needs_namespace)
        ups

unfoldable pub validate_separator : Str → Check
validate_separator sep =
    need (is_empty sep || not (any in_alphabet sep)) (str "routing") Rule.bad_separator

unfoldable pub namespace_separator : Config → Str
namespace_separator c = if is_empty c.separator then str "__" else c.separator

unfoldable pub validate : Std → Others → Config → Check
unfolding validate_upstreams validate_all_named validate_separator validate_tenants validate_hook
    validate_auth_section validate_policy validate_discovery validate_audit validate_server
    validate_console validate_origins
validate std others c = do
  need (not (is_empty c.upstreams) || discovers c.discovery) (str "config") Rule.no_upstream
  validate_upstreams std.parse_url c [] [] c.upstreams
  validate_all_named c.upstreams
  validate_separator c.separator
  on c.server (validate_server std)
  validate_tenants std c [] [] c.tenants
  on c.hook (validate_hook std)
  validate_console std c
  on c.auth (validate_auth_section std)
  on c.policy (validate_policy std c)
  on c.discovery (validate_discovery std)
  validate_origins std c
  others.tracing
  on c.audit (validate_audit std)
