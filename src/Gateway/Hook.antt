-- ===== src/Gateway/Hook.antt =====
-- gateway/hook.go: the decision hook. Raw JSON is bytes, and empty for an absent field; the timeout
-- is the HTTP client's. Logging is left out.
pub mod Verdict
pub mod Stages
use fold.Prelude.{
  ℕ, ◌^◌, ℤ, Bool, true, false, not, ◌&&◌, ◌||◌, List, [], ◌∷◌, ◌++◌, map, length, ltb, leb, Option,
  none, some, present, Str, str, str_eq, Dict, lookup, insert, is_empty, if◌then◌else◌,
}
use fold.Auth.{Principal}
use fold.Audit.{Event, hook_denied}
use fold.Gateway.Errors.{Error, Piece, text, quoted, wire_error, code_denied}
use fold.Gateway.Run.{
  HttpRequest, HookPrincipal, HookRequest, HookResponse, HttpReply, unsendable, failed, response,
  Served, posted, observed_hook, ok, err, World, Run, M, ◌>>=◌, ◌>>◌, pure, throw, record_event,
  emit,
}

-- `config.Hook`.
pub record HookConfig : Type 0 where
  pub url : Str
  pub stages : List Str
  pub methods : List Str
  pub timeout_ms : ℤ
  pub on_error : Str
  pub headers : Dict Str
  pub bearer_secret_ref : Str

pub record DecisionHook : Type 0 where
  pub url : Str
  pub headers : Dict Str
  pub bearer : Str
  pub fail_open : Bool
  pub stages : Dict Bool
  pub methods : Dict Bool

abbrev pub hook_wire_version : Str
hook_wire_version = str "1"

abbrev pub hook_max_result_bytes : ℕ
hook_max_result_bytes = 2 ^ 20

abbrev pub stage_ingress : Str
stage_ingress = str "ingress"

abbrev pub stage_egress : Str
stage_egress = str "egress"

abbrev pub stage_server_initiated : Str
stage_server_initiated = str "serverInitiated"

pub data HookOutcome : Type 0 where
  allowed denied errored : HookOutcome

abbrev pub outcome_name : HookOutcome → Str
outcome_name allowed = str "allow"
outcome_name denied = str "deny"
outcome_name errored = str "error"

-- A set built by `m[s] = true` for each string.
unfoldable pub add_names : List Str → Dict Bool → Dict Bool
add_names [] d = d
add_names (s ∷ names) d = add_names names (insert s true d)

abbrev pub has_name : Dict Bool → Str → Bool
has_name d s = elim (lookup s d) [ none ↦ false | some b ↦ b ]

-- `getenv` is the environment.
unfoldable pub new_decision_hook : (Str → Str) → Option HookConfig → Option DecisionHook
unfolding add_names
new_decision_hook getenv none = none
new_decision_hook getenv (some cfg) = some (record {
  url = cfg.url;
  headers = cfg.headers;
  bearer = if is_empty cfg.bearer_secret_ref then [] else getenv cfg.bearer_secret_ref;
  fail_open = str_eq cfg.on_error (str "allow");
  stages = add_names cfg.stages [];
  methods = add_names cfg.methods [];
})

unfoldable pub inspects : Option DecisionHook → Str → Str → Bool
inspects none stage method = false
inspects (some h) stage method =
    has_name h.stages stage && (is_empty h.methods || has_name h.methods method)

unfoldable pub on_error : DecisionHook → HookOutcome
on_error h = if h.fail_open then errored else denied

-- `hreq.Header.Set` on a header in canonical form, in the order of the calls.
unfoldable pub hook_headers : (Str → Str) → DecisionHook → List (Str × Str)
hook_headers canonical h =
    let set = map (λ (kv : Str × Str). (canonical kv.0, kv.1)) h.headers in
    let plain = insert (canonical (str "Content-Type")) (str "application/json") [] in
    let bearer =
      if is_empty h.bearer
      then []
      else (canonical (str "Authorization"), str "Bearer " ++ h.bearer) ∷ [] in
    plain ++ (set ++ bearer)

-- The `switch` over the answer: the outcome, and the hook's reason.
unfoldable pub read_decision : DecisionHook → Option HookResponse → HookOutcome × Str
unfolding on_error
read_decision h none = (on_error h, [])
read_decision h (some out) =
    if str_eq out.decision (str "allow")
    then (allowed, [])
    else if str_eq out.decision (str "deny")
    then (denied, out.reason)
    else (on_error h, [])

unfoldable pub read_reply : DecisionHook → HttpReply → HookOutcome × Str
unfolding read_decision
read_reply h unsendable = (on_error h, [])
read_reply h failed = (on_error h, [])
read_reply h (response status out) =
    if ltb status 200 || ltb 299 status then (on_error h, []) else read_decision h out

-- A request that cannot be built is not sent.
abbrev pub is_sent : HttpReply → Bool
is_sent unsendable = false
is_sent failed = true
is_sent (response status out) = true

unfoldable pub http_request : World → DecisionHook → Str → HttpRequest
unfolding hook_headers
http_request w h body = record {
  url = h.url;
  headers = hook_headers w.canonical_header h;
  body = body;
}

abbrev pub post_request : World → HttpRequest → M HttpReply
post_request w q r =
    let reply = w.post r.trace q in
    (ok reply, if is_sent reply then record r { trace = r.trace ++ posted q ∷ [] } else r)

abbrev pub send : World → DecisionHook → Option Str → M (HookOutcome × Str)
send w h none = pure (on_error h, [])
send w h (some body) = do reply ← post_request w (http_request w h body); pure (read_reply h reply)

unfoldable pub decide : World → DecisionHook → HookRequest → M (HookOutcome × Str)
unfolding read_reply http_request on_error
decide w h req = send w h (w.encode_request req)

abbrev pub hook_principal : Option Principal → Option HookPrincipal
hook_principal none = none
hook_principal (some p) = some (record { sub = p.subject; issuer = p.issuer; groups = p.groups })

abbrev pub with_reason : List Piece → Str → List Piece
with_reason msg reason =
    if is_empty reason then msg else msg ++ (text (str ": ") ∷ text reason ∷ [])

-- The metric and the event, before the outcome is acted on.
abbrev pub note_outcome : Str → HookOutcome → (Event → Event) → M (Unit {0})
note_outcome stage outcome f = do emit (observed_hook stage (outcome_name outcome)); record_event f

abbrev pub refuse : List Piece → M (Unit {0})
refuse msg = do
  record_event (λ (e : Event). record e { outcome = hook_denied; decision = str "deny" })
  throw (wire_error code_denied msg)

-- `switch outcome`: a denial ends the request, and anything else lets it go on.
abbrev pub act_on : HookOutcome → List Piece → M (Unit {0})
act_on allowed msg = pure tt
act_on denied msg = refuse msg
act_on errored msg = pure tt

abbrev pub ingress_denial : Str → Str → Str → List Piece
ingress_denial method name reason =
    with_reason
      (text (str "decision hook denied ") ∷ text method ∷ text (str " ") ∷ quoted name ∷ []) reason

abbrev pub egress_denial : Str → Str → Str → List Piece
egress_denial method name reason =
    with_reason
      (text (str "decision hook withheld the result of ")
        ∷ text method
        ∷ text (str " ")
        ∷ quoted name
        ∷ text (str " (the upstream has already acted)")
        ∷ [])
      reason

-- One call of the hook: what it says about the invocation and the caller.
abbrev pub hook_request : Str → Str → Str → Str → Option Principal → Event → HookRequest
hook_request stage method name upstream_id p e = record {
  version = hook_wire_version;
  stage = stage;
  method = method;
  name = name;
  upstream = upstream_id;
  principal = hook_principal p;
  tenant = e.tenant;
  arguments = [];
  result = [];
}

module _ (w : World) (p : Option Principal) (method : Str) (upstream_id : Str) where
  -- What follows an outcome, on the way in and on the way out.
  abbrev pub settle_ingress : HookOutcome × Str → M (Unit {0})
  settle_ingress (outcome, reason) = do
    note_outcome stage_ingress outcome
        (λ (e : Event). record e { hook_outcome = outcome_name outcome })
    λ (r : Run). act_on outcome (ingress_denial method r.event.name reason) r

  abbrev pub ask_ingress : DecisionHook → Str → Str → M (Unit {0})
  ask_ingress h name args r =
      (do
        answer ← decide w h (record (hook_request stage_ingress method name upstream_id p r.event) {
          arguments = args;
        })
        settle_ingress answer)
        r

  unfoldable pub hook_ingress : Option DecisionHook → Str → Str → M (Unit {0})
  unfolding decide
  hook_ingress none name args = pure tt
  hook_ingress (some h) name args =
      if inspects (some h) stage_ingress method then ask_ingress h name args else pure tt

  -- An earlier outcome stays unless this one is no allow.
  abbrev pub later_outcome : HookOutcome → Str → Str
  later_outcome allowed before = if is_empty before then str "allow" else before
  later_outcome denied before = str "deny"
  later_outcome errored before = str "error"

  abbrev pub settle_egress : HookOutcome × Str → M (Unit {0})
  settle_egress (outcome, reason) = do
    note_outcome stage_egress outcome
        (λ (e : Event). record e { hook_outcome = later_outcome outcome e.hook_outcome })
    λ (r : Run). act_on outcome (egress_denial method r.event.name reason) r

  -- A result that cannot be encoded, or is too large, is not sent.
  abbrev pub ask_egress : DecisionHook → Str → Option Str → M (HookOutcome × Str)
  ask_egress h name none = pure (on_error h, [])
  ask_egress h name (some body) = λ (r : Run).
      if ltb hook_max_result_bytes (length body)
      then (ok (on_error h, []), r)
      else decide w h
          (record (hook_request stage_egress method name upstream_id p r.event) { result = body }) r

  unfoldable pub hook_egress : Option DecisionHook → Str → Served → M (Unit {0})
  unfolding decide
  hook_egress none name out = pure tt
  hook_egress (some h) name out =
      if inspects (some h) stage_egress method
      then ask_egress h name (w.encode_result out) >>= settle_egress
      else pure tt

  -- The reverse path: what an upstream asks of the caller's client.
  abbrev pub settle_server_initiated : HookOutcome × Str → M (Unit {0})
  settle_server_initiated (outcome, reason) = do
    note_outcome stage_server_initiated outcome
        (λ (e : Event). record e { hook_outcome = outcome_name outcome })
    act_on outcome (with_reason (text (str "decision hook denied ") ∷ text method ∷ []) reason)

  abbrev pub ask_server_initiated : DecisionHook → Option Str → M (HookOutcome × Str)
  ask_server_initiated h none = pure (on_error h, [])
  ask_server_initiated h (some body) = λ (r : Run).
      if ltb hook_max_result_bytes (length body)
      then (ok (on_error h, []), r)
      else decide w h
          (record (hook_request stage_server_initiated method [] upstream_id p r.event) {
            arguments = body;
          })
          r

  -- `params` is the JSON of what the upstream asks, or `none` when it has none.
  unfoldable pub hook_server_initiated : Option DecisionHook → Option Str → M (Unit {0})
  unfolding decide
  hook_server_initiated none params = pure tt
  hook_server_initiated (some h) params =
      if inspects (some h) stage_server_initiated method
      then ask_server_initiated h params >>= settle_server_initiated
      else pure tt
