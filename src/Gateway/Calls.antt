-- ===== src/Gateway/Calls.antt =====
-- gateway/router.go: `authorizeCall`, `callTool` and `getPrompt`. The per-client session is its key,
-- and what the bridge does with it is in the trace.
pub mod Reached
pub mod Guarded
pub mod Disclosed
use fold.Prelude.{
  Bool, true, false, not, ◌||◌, List, [], ◌∷◌, ◌++◌, Option, none, some, Str, str, str_eq, Dict,
  is_empty, if◌then◌else◌,
}
use fold.Value.{Any, Fields, field_lookup}
use fold.Auth.{Principal}
use fold.Audit.{Event, Outcome, denied, no_event}
use fold.Policy.Clauses.{Evidence}
use fold.Policy.Engine.{Engine, Decision, Ask, no_evidence, decide_call, decide_server_initiated}
use fold.Gateway.Errors.{
  Error, WireError, Piece, text, quoted, listed, wire, wire_error, code_denied, code_invalid_params,
  code_unknown_namespace, err_outside_subset, classify,
}
use fold.Gateway.Meta.{Meta, sanitize_request_meta, tag_upstream, fields_of, no_meta_fields}
use fold.Gateway.Run.{
  Forward, Served, Result, ok, err, Effect, pushed, popped, drained, World, Run, M, ◌>>=◌, ◌>>◌,
  pure, throw, record_event, emit, ask_upstream,
}
use fold.Gateway.Hook.{DecisionHook, hook_ingress, hook_egress, hook_server_initiated}
use fold.Gateway.Tasks.{note_minted_task}
use fold.Gateway.Router.{Upstream, Routes, resolve}
use fold.Gateway.Tenant.{Tenant}
use fold.Gateway.Tenant.Resolve.{sees}

-- The part of a routing snapshot that a named invocation reads.
pub record Snapshot : Type 0 where
  pub routes : Routes
  pub policy : Engine
  pub hook : Option DecisionHook
  pub by_id : Dict Upstream

-- The context of a request: who calls, in which tenant, through which session.
pub record Caller (B L : Type 0) : Type 0 where
  pub principal : Option Principal
  pub tenant : Option (Tenant B L)
  pub session : Str

abbrev pub tenant_id : {B L : Type 0} → Option (Tenant B L) → Str
tenant_id none = []
tenant_id (some t) = t.cfg.id

abbrev pub deny_event : Event → Event
deny_event e = record e { decision = str "deny"; outcome = denied }

abbrev pub ask_of : Option Principal → Str → Str → Str → Ask
ask_of p id method name = record { principal = p; upstream_id = id; method = method; name = name }

-- The message of a policy denial and what it discloses.
abbrev pub arg_note : Str → List Piece
arg_note failed_arg =
    if is_empty failed_arg
    then []
    else text (str ": argument ")
      ∷ quoted failed_arg
      ∷ text (str " does not satisfy the grant")
      ∷ []

abbrev pub scope_note : List Str → List Piece
scope_note missing =
    if is_empty missing then [] else text (str ": requires scope ") ∷ listed missing ∷ []

unfoldable pub policy_denial : Str → Str → Decision → Error
policy_denial method name d = wire (record {
  code = code_denied;
  message =
      (text (str "policy denied ") ∷ text method ∷ text (str " ") ∷ quoted name ∷ [])
      ++ (arg_note d.failed_arg ++ scope_note d.missing_scopes);
  missing_scopes = d.missing_scopes;
})

-- The event of a decided invocation.
abbrev pub decided_event : Decision → Event → Event
decided_event d e =
    if d.allowed then record e { rule_id = d.rule_id; decision = str "allow" } else record e {
      rule_id = d.rule_id;
      decision = str "deny";
      outcome = denied;
      missing_scopes = if is_empty d.missing_scopes then e.missing_scopes else d.missing_scopes;
    }

abbrev pub with_call_ctx : {A : Type 0} → Str → M A → M A
with_call_ctx key m r =
    if is_empty key
    then m r
    else let (x, r') = m (record r { trace = r.trace ++ pushed key ∷ [] }) in
      (x, record r' { trace = r'.trace ++ popped key ∷ [] })

abbrev pub drain_bridge : Str → M (Unit {0})
drain_bridge key = if is_empty key then pure tt else emit (drained key)

-- A call of the upstream under the session, with the wait for its trailing traffic, whatever it
-- answers.
abbrev pub drained_ask : World → Str → Str → Str → Forward → M Served
drained_ask w key id method fwd r =
    let (x, r') = ask_upstream w id method fwd r in (x, (drain_bridge key r').1)

abbrev pub owned : Str → Option (Upstream × Str) → M (Upstream × Str)
owned name (some o) = pure o
owned name none = throw (
    wire_error code_unknown_namespace (
      text (str "unknown name ")
      ∷ quoted name
      ∷ text (str ": no upstream owns this namespace")
      ∷ []))

-- `noteUsage`: the meter's value goes into the event.
abbrev pub usage_of : Option Any → Option Fields
usage_of (some (Any.object fs)) = if no_meta_fields fs then none else some fs
usage_of other = none

abbrev pub note_usage : Meta → M (Unit {0})
note_usage meta = record_event (λ (e : Event).
    elim (usage_of (field_lookup (str "usage") (fields_of meta))) [
      | none ↦ e
      | some fs ↦ record e { usage = fs }
    ])

module _ {B L : Type 0} (w : World) (rt : Snapshot) (sep : Str) (c : Caller B L) where
  unfoldable pub authorize_call : Upstream → Str → Str → Evidence → M (Unit {0})
  unfolding sees policy_denial
  authorize_call u method bare ev r =
      let d = decide_call rt.policy (ask_of c.principal u.id method bare) ev in
      if not (sees c.tenant u.id)
      then (
        err (err_outside_subset (tenant_id c.tenant) method r.event.name u.id),
        record r { event = deny_event r.event },
      )
      else (
        if d.allowed then ok tt else err (policy_denial method r.event.name d),
        record r { event = decided_event d r.event },
      )

  unfoldable pub authorize : Upstream → Str → Str → M (Unit {0})
  unfolding authorize_call
  authorize u method bare = authorize_call u method bare no_evidence

  -- The arguments and the annotations, each only when a rule asks for it.
  unfoldable pub evidence_for : Upstream → Str → Str → Evidence
  evidence_for u bare args = record {
    args = if not rt.policy.has_args || is_empty args then none else some (w.decode_args args);
    tool = if rt.policy.has_kind then some (w.annotations_for u.id bare) else none;
  }

  -- What goes to the upstream: its own name for the thing, and no connection-owned key.
  abbrev pub forwarded : Str → Forward → Forward
  forwarded bare params = record params {
    name = bare;
    meta = sanitize_request_meta w.keys params.meta;
  }

  -- After the upstream: the hook, and what is noted of a result that the caller is to see.
  abbrev pub disclose : (Upstream → Meta → M (Unit {0})) → Upstream → Str → Str → Served → M Served
  disclose note u method bare out = do
    hook_egress w c.principal method u.id rt.hook bare out
    note u out.meta
    pure (record out { meta = tag_upstream w.keys u.id out.meta })

  -- After the hook: the upstream.
  abbrev pub reach : (Upstream → Meta → M (Unit {0})) → Upstream → Str → Str → Forward → M Served
  reach note u method bare params = do
    out ← with_call_ctx c.session (drained_ask w c.session u.id method (forwarded bare params))
    disclose note u method bare out

  -- After the policy: the hook.
  unfoldable pub invoke :
      (Upstream → Meta → M (Unit {0})) → Upstream → Str → Str → Str → Forward → M Served
  invoke note u method bare args params = do
    hook_ingress w c.principal method u.id rt.hook bare args
    reach note u method bare params

  abbrev pub name_event : Str → M (Unit {0})
  name_event name = record_event (λ (e : Event). record e { name = name })

  abbrev pub route_event : Str → M (Unit {0})
  route_event id = record_event (λ (e : Event). record e { upstream = id })

  abbrev pub note_call : Upstream → Meta → M (Unit {0})
  note_call u meta = do note_minted_task w c.principal u.id meta; note_usage meta

  abbrev pub call_owned : Forward → Upstream × Str → M Served
  call_owned params (u, bare) = do
    route_event u.id
    authorize_call u (str "tools/call") bare (evidence_for u bare params.arguments)
    invoke note_call u (str "tools/call") bare params.arguments params

  unfoldable pub call_tool : Option Forward → M Served
  unfolding authorize_call evidence_for invoke
  call_tool none = throw (wire_error code_invalid_params (text (str "missing tool name") ∷ []))
  call_tool (some params) = do
    name_event params.name
    o ← owned params.name (resolve rt.routes sep params.name)
    call_owned params o

  -- The hook is given no arguments of a prompt.
  abbrev pub prompt_owned : Forward → Upstream × Str → M Served
  prompt_owned params (u, bare) = do
    route_event u.id
    authorize u (str "prompts/get") bare
    invoke (λ v meta. pure tt) u (str "prompts/get") bare [] params

  unfoldable pub get_prompt : Option Forward → M Served
  unfolding authorize invoke
  get_prompt none = throw (wire_error code_invalid_params (text (str "missing prompt name") ∷ []))
  get_prompt (some params) = do
    name_event params.name
    o ← owned params.name (resolve rt.routes sep params.name)
    prompt_owned params o
