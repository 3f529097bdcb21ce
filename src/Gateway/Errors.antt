-- ===== src/Gateway/Errors.antt =====
-- The errors of the request path: the codes of gateway/upstream.go and gateway/tasks.go,
-- `errOutsideSubset` and `errAmbiguousTenant` of gateway/tenant.go, `classify` and `asWireError` of
-- gateway/router.go. A message is its pieces, as the format strings put them together.
use fold.Prelude.{
  ℕ, ◌-◌, ◌==◌, ℤ, pos, negsuc, Bool, false, List, [], ◌∷◌, Option, none, some, Str, str,
  if◌then◌else◌,
}
use fold.Audit.{Outcome, error, denied, rate_limited, upstream_down, budget_exhausted}

-- `%s`, `%q` and `%v` of a list of strings.
pub data Piece : Type 0 where
  text : Str → Piece
  quoted : Str → Piece
  listed : List Str → Piece

-- `jsonrpc.Error`; `missing_scopes` is what its data carries.
pub record WireError : Type 0 where
  pub code : ℤ
  pub message : List Piece
  pub missing_scopes : List Str

-- A Go error: a wire error, an error that wraps another, or any other.
pub data Error : Type 0 where
  wire : WireError → Error
  wraps : List Piece → Error → Error
  plain : List Piece → Error

abbrev pub wire_error : ℤ → List Piece → Error
wire_error code message = wire (record { code = code; message = message; missing_scopes = [] })

abbrev pub minus : ℕ → ℤ
minus n = negsuc (n - 1)

abbrev pub code_rate_limited : ℤ
code_rate_limited = minus 31040

abbrev pub code_upstream_down : ℤ
code_upstream_down = minus 31041

abbrev pub code_denied : ℤ
code_denied = minus 31042

abbrev pub code_unknown_namespace : ℤ
code_unknown_namespace = minus 31043

abbrev pub code_budget_exhausted : ℤ
code_budget_exhausted = minus 31044

abbrev pub code_task_not_found : ℤ
code_task_not_found = minus 31045

-- The SDK's `CodeInvalidParams` and `CodeInternalError`, as JSON-RPC 2.0 fixes them.
abbrev pub code_invalid_params : ℤ
code_invalid_params = minus 32602

abbrev pub code_internal_error : ℤ
code_internal_error = minus 32603

abbrev pub code_eq : ℤ → ℤ → Bool
code_eq (pos a) (pos b) = a == b
code_eq (negsuc a) (negsuc b) = a == b
code_eq _ _ = false

unfoldable pub as_wire_error : Error → Option WireError
as_wire_error (wire w) = some w
as_wire_error (wraps m e) = as_wire_error e
as_wire_error (plain m) = none

abbrev pub outcome_of_code : ℤ → Outcome
outcome_of_code c =
    if code_eq c code_rate_limited
    then rate_limited
    else if code_eq c code_upstream_down
    then upstream_down
    else if code_eq c code_denied
    then denied
    else if code_eq c code_budget_exhausted
    then budget_exhausted
    else error

abbrev pub outcome_of_wire : Option WireError → Outcome
outcome_of_wire none = error
outcome_of_wire (some w) = outcome_of_code w.code

unfoldable pub classify : Error → Outcome
unfolding as_wire_error
classify e = outcome_of_wire (as_wire_error e)

unfoldable pub err_outside_subset : Str → Str → Str → Str → Error
err_outside_subset tenant_id method name upstream_id = wire_error code_denied (
    text (str "denied ")
    ∷ text method
    ∷ text (str " ")
    ∷ quoted name
    ∷ text (str ": upstream ")
    ∷ quoted upstream_id
    ∷ text (str " is outside tenant ")
    ∷ quoted tenant_id
    ∷ text (str "'s subset")
    ∷ [])

unfoldable pub err_ambiguous_tenant : Str → List Str → Error
err_ambiguous_tenant sub ids = wire_error code_internal_error (
    text (str "tenant configuration is ambiguous: principal ")
    ∷ quoted sub
    ∷ text (str " matches tenants ")
    ∷ listed ids
    ∷ text (str "; a principal must match at most one")
    ∷ [])
