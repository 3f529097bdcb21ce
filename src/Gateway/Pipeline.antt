-- ===== src/Gateway/Pipeline.antt =====
-- gateway/router.go: `federationMiddleware`, `routeSafe` and `route`: what happens around every
-- request, from the tenant to the audit event.
pub mod Told
pub mod Invoked
pub mod Read
pub mod Completed
pub mod Exit
use fold.Prelude.{
  Bool, true, false, not, ◌||◌, List, [], ◌∷◌, ◌++◌, Option, none, some, Str, str, str_eq,
  if◌then◌else◌,
}
use fold.Auth.{Principal}
use fold.Audit.{Event, Outcome, unset, no_event}
use fold.Gateway.Errors.{
  Error, text, wire_error, code_internal_error, classify, err_ambiguous_tenant,
}
use fold.Gateway.Run.{
  Forward, Served, CompleteParams, Effect, emitted, Result, ok, err, World, Run, M,
}
use fold.Gateway.Tenant.{Tenant, TenantSet, Resolution, unmatched, matched, ambiguous}
use fold.Gateway.Tenant.Resolve.{resolve_tenant}
use fold.Gateway.Calls.{Snapshot, Caller, call_tool, get_prompt}
use fold.Gateway.Resources.{read_resource}
use fold.Gateway.Complete.{complete}

-- The parameters by their Go types.
pub data Params : Type 0 where
  call_params get_params read_params : Forward → Params
  complete_params : CompleteParams → Params
  other_params : Params

pub record Request : Type 0 where
  pub method : Str
  pub params : Params

abbrev pub as_call : Params → Option Forward
as_call (call_params f) = some f
as_call other = none

abbrev pub as_get : Params → Option Forward
as_get (get_params f) = some f
as_get other = none

abbrev pub as_read : Params → Option Forward
as_read (read_params f) = some f
as_read other = none

abbrev pub as_complete : Params → Option CompleteParams
as_complete (complete_params f) = some f
as_complete other = none

-- How a handler ends.
pub data Ended : Type 0 where
  returned : Result Served → Ended
  panicked : Ended

abbrev pub returning : M Served → Run → Ended × Run
returning m r = let (x, r') = m r in (returned x, r')

abbrev pub internal_error : Error
internal_error = wire_error code_internal_error (text (str "internal gateway error") ∷ [])

abbrev pub recovered : Ended → Result Served
recovered (returned x) = x
recovered panicked = err internal_error

-- Notifications and pings have no audit event.
unfoldable pub is_plumbing : Str → Bool
is_plumbing method = str_eq method (str "notifications/initialized") || str_eq method (str "ping")

unfoldable pub start_event : Str → Option Principal → Event
start_event method none = record no_event { method = method }
start_event method (some p) = record no_event {
  method = method;
  principal = p.subject;
  issuer = p.issuer;
}

abbrev pub is_unset : Outcome → Bool
is_unset unset = true
is_unset other = false

abbrev pub or_outcome : Outcome → Outcome → Outcome
or_outcome outcome default = if is_unset outcome then default else outcome

-- The error and the outcome.
unfoldable pub settle : World → Result Served → Event → Event
unfolding classify
settle w (ok out) e = record e { outcome = or_outcome e.outcome Outcome.ok }
settle w (err x) e = record e {
  error = w.render_error x;
  outcome = or_outcome e.outcome (classify x);
}

-- The meters.
abbrev pub metered_event : World → List Effect → Event → Event
metered_event w trace e = record e {
  upstream_calls = w.metered trace;
  latency_ms = w.elapsed_ms trace;
}

-- `others` has the handlers of the lists, of `logging/setLevel` and of the SDK's server.
module _ {B L : Type 0} (w : World) (rt : Snapshot) (sep : Str) (ts : TenantSet B L) (session : Str)
    (others : Str → Caller B L → Run → Ended × Run) where
  unfoldable pub dispatch : Caller B L → Request → Run → Ended × Run
  unfolding call_tool get_prompt read_resource complete
  dispatch c q =
      if str_eq q.method (str "tools/call")
      then returning (call_tool w rt sep c (as_call q.params))
      else if str_eq q.method (str "prompts/get")
      then returning (get_prompt w rt sep c (as_get q.params))
      else if str_eq q.method (str "resources/read")
      then returning (read_resource w rt c (as_read q.params))
      else if str_eq q.method (str "completion/complete")
      then returning (complete w rt sep c (as_complete q.params))
      else others q.method c

  abbrev pub caller_of : Option Principal → Option (Tenant B L) → Caller B L
  caller_of p tenant = record { principal = p; tenant = tenant; session = session }

  -- An ambiguous tenant ends the request.
  abbrev pub route_in : Option Principal → Request → Resolution B L → Run → Ended × Run
  route_in p q unmatched r = dispatch (caller_of p none) q r
  route_in p q (matched t) r =
      dispatch (caller_of p (some t)) q (record r { event = record r.event { tenant = t.cfg.id } })
  route_in p q (ambiguous sub ids) r = (returned (err (err_ambiguous_tenant sub ids)), r)

  unfoldable pub route : Option Principal → Request → Run → Ended × Run
  unfolding dispatch resolve_tenant
  route p q r = route_in p q (resolve_tenant ts p) r

  unfoldable pub route_safe : Option Principal → Request → M Served
  unfolding route
  route_safe p q r = let (x, r') = route p q r in (recovered x, r')

  unfoldable pub federation_middleware : Option Principal → Request → M Served
  unfolding route_safe settle is_plumbing start_event
  federation_middleware p q r =
      let (x, r') = route_safe p q (record r { event = start_event q.method p }) in
      let e = settle w x (metered_event w r'.trace r'.event) in
      (
        x,
        record r' {
          event = e;
          trace = if is_plumbing q.method then r'.trace else r'.trace ++ emitted e ∷ [];
        },
      )
