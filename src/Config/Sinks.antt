-- ===== src/Config/Sinks.antt =====
-- config/config.go: the checks of the audit section.
use fold.Prelude.{
  leb_int, is_positive, Bool, true, not, ◌&&◌, ◌||◌, List, [], ◌∷◌, any, none, Str, str, str_eq,
  is_empty, if◌then◌else◌, Dict,
}
use fold.Config.Checks.{Check, Rule, ◌>>◌, problem, need, each, on, one_of, negative}
use fold.Config.Document.{AuditSink, AuditConfig}
use fold.Config.Upstreams.{is_http_url}
use fold.Audit.Delivery.{AuditRetry}
use fold.Config.Sections.{Std}

abbrev pub names_of {ℓ} : {A : Type ℓ} → Dict A → List Str
names_of [] = []
names_of ((k, v) ∷ d) = k ∷ names_of d

unfoldable pub durable : AuditSink → Bool
durable s =
    if str_eq s.type_name (str "file")
    then true
    else one_of s.type_name (str "webhook" ∷ str "otlp-logs" ∷ [])
      && not (is_empty s.dead_letter_path)

unfoldable pub validate_retry : AuditRetry → Check
validate_retry r = do
  need (not (negative r.max_attempts || negative r.initial_backoff_ms || negative r.max_backoff_ms))
      (str "audit") Rule.negative_limit
  need (not (is_positive r.max_backoff_ms) || leb_int r.initial_backoff_ms r.max_backoff_ms)
      (str "audit") Rule.inverted_backoff

module _ (std : Std) where
  unfoldable pub has_authorization_header : Dict Str → Bool
  has_authorization_header headers =
      any (λ name. std.equal_fold name (str "Authorization")) (names_of headers)

  abbrev pub sink_kind : AuditSink → Check
  sink_kind s =
      if str_eq s.type_name (str "stdout")
      then none
      else if str_eq s.type_name (str "webhook")
      then need (not (is_empty s.url)) s.type_name Rule.no_url
        >> need (is_empty s.bearer_secret_ref || not (has_authorization_header s.headers))
            s.type_name Rule.two_credentials
      else if str_eq s.type_name (str "file")
      then need (not (is_empty s.path)) s.type_name Rule.no_sink_path
      else if str_eq s.type_name (str "otlp-logs")
      then need (not (is_empty s.url)) s.type_name Rule.no_url
        >> need (is_http_url std.parse_url s.url) s.type_name Rule.bad_url
      else problem s.type_name Rule.unknown_sink

  unfoldable pub validate_sink : AuditSink → Check
  unfolding has_authorization_header is_http_url validate_retry
  validate_sink s = do
    sink_kind s
    need (is_empty s.bearer_secret_ref || str_eq s.type_name (str "webhook")) s.type_name
        Rule.misplaced_credential
    need (not (negative s.max_size_mb || negative s.max_files)) s.type_name Rule.negative_size
    on s.retry validate_retry

  unfoldable pub validate_audit : AuditConfig → Check
  unfolding validate_sink durable
  validate_audit a = do
    on a.max_error_length (λ n. need (not (negative n)) (str "audit") Rule.negative_limit)
    each validate_sink a.sinks
    need (not a.require_durable || any durable a.sinks) (str "audit") Rule.not_durable
