-- ===== src/Gateway/Pipeline/Exit.antt =====
-- gateway/router.go: the exit of a request from `federationMiddleware`, by every handler.
use fold.Prelude.{
  ℤ, append-nil, sym, false, [], ◌∷◌, ◌++◌, Option, none, some, Str, str, str_eq, if◌then◌else◌,
  ◌≡◌, refl, arith, Bool-cases, inl, inr, ◌∙◌, ap,
}
use fold.Auth.{Principal}
use fold.Audit.{Event, Outcome, unset}
use fold.Gateway.Errors.{
  Error, WireError, outcome_of_wire, classify, as_wire_error, outcome_of_code,
}
use fold.Gateway.Run.{Served, emitted, Result, ok, err, World, Run}
use fold.Gateway.Tenant.{TenantSet, Resolution, unmatched, matched, ambiguous}
use fold.Gateway.Tenant.Resolve.{resolve_tenant}
use fold.Gateway.Hook.Verdict.{is_ok}
use fold.Gateway.Calls.{Snapshot, Caller}
use fold.Gateway.Pipeline.{
  Request, Ended, returned, panicked, recovered, is_plumbing, start_event, settle, dispatch,
  caller_of, route_in, route, route_safe, federation_middleware, metered_event, as_call, as_get,
  as_read, as_complete,
}
use fold.Gateway.Pipeline.Told.{exits, exits-append, is_ok_outcome, Told, Tells}
use fold.Gateway.Pipeline.Invoked.{call_tool-Tells, get_prompt-Tells}
use fold.Gateway.Pipeline.Read.{read_resource-Tells}
use fold.Gateway.Pipeline.Completed.{complete-Tells}

outcome_of_code_not_ok : (c : ℤ) → is_ok_outcome (outcome_of_code c) ≡ false
unfolding is_ok_outcome
outcome_of_code_not_ok c = ground arith

outcome_of_wire_not_ok : (x : Option WireError) → is_ok_outcome (outcome_of_wire x) ≡ false
unfolding is_ok_outcome
outcome_of_wire_not_ok none = refl
outcome_of_wire_not_ok (some x) = outcome_of_code_not_ok x.code

classify_not_ok : (e : Error) → is_ok_outcome (classify e) ≡ false
unfolding classify
classify_not_ok e = outcome_of_wire_not_ok (as_wire_error e)

-- The event says `ok` exactly when the caller gets a result.
settle_lem :
    (w : World) (x : Result Served) (e : Event)
    → Told x e.outcome
    → is_ok_outcome (settle w x e).outcome ≡ is_ok x
unfolding settle is_ok_outcome
settle_lem w (ok out) e h = rw h refl
settle_lem w (err x) e h = ground (arith, classify_not_ok x)

-- What the handlers that are not modelled are asked for.
abbrev pub ToldEnd : Ended → Outcome → Type 0
ToldEnd (returned x) o = Told x o
ToldEnd panicked o = is_ok_outcome o ≡ false

abbrev pub Ends : (Run → Ended × Run) → Type 0
Ends m =
    (r : Run)
    → r.event.outcome ≡ unset
    → (exits (m r).1.trace ≡ exits r.trace) × ToldEnd (m r).0 (m r).1.event.outcome

recovered-Told : (x : Ended) (o : Outcome) → ToldEnd x o → Told (recovered x) o
recovered-Told (returned x) o h = h
recovered-Told panicked o h = h

module _ {B L : Type 0} (w : World) (rt : Snapshot) (sep : Str) (ts : TenantSet B L) (session : Str)
    (others : Str → Caller B L → Run → Ended × Run)
    (quiet : (method : Str) (c : Caller B L) → Ends (others method c)) where
  dispatch-Ends : (c : Caller B L) (q : Request) → Ends (dispatch w rt sep ts session others c q)
  unfolding dispatch
  dispatch-Ends c q r h = elim (Bool-cases (str_eq q.method (str "tools/call"))) [
    | inl e ↦ rw e (call_tool-Tells w rt sep c (as_call q.params) r h)
    | inr e ↦ elim (Bool-cases (str_eq q.method (str "prompts/get"))) [
      | inl f ↦ rw (e, f) (get_prompt-Tells w rt sep c (as_get q.params) r h)
      | inr f ↦ elim (Bool-cases (str_eq q.method (str "resources/read"))) [
        | inl g ↦ rw (e, f, g) (read_resource-Tells w rt c (as_read q.params) r h)
        | inr g ↦ elim (Bool-cases (str_eq q.method (str "completion/complete"))) [
          | inl k ↦ rw (e, f, g, k) (complete-Tells w rt sep c (as_complete q.params) r h)
          | inr k ↦ rw (e, f, g, k) (quiet q.method c r h)
        ]
      ]
    ]
  ]

  route_in-Ends :
      (p : Option Principal) (q : Request) (found : Resolution B L)
      → Ends (route_in w rt sep ts session others p q found)
  unfolding is_ok_outcome
  route_in-Ends p q unmatched r h =
      dispatch-Ends (caller_of w rt sep ts session others p none) q r h
  route_in-Ends p q (matched t) r h =
      dispatch-Ends (caller_of w rt sep ts session others p (some t)) q
        (record r { event = record r.event { tenant = t.cfg.id } }) h
  route_in-Ends p q (ambiguous sub ids) r h = (refl, rw h refl)

  route_safe-Tells :
      (p : Option Principal) (q : Request) → Tells (route_safe w rt sep ts session others p q)
  unfolding route_safe route
  route_safe-Tells p q r h =
      let (e, t) = route_in-Ends p q (resolve_tenant ts p) r h in (e, recovered-Told _ _ t)

  start_unset : (method : Str) (p : Option Principal) → (start_event method p).outcome ≡ unset
  unfolding start_event
  start_unset method none = refl
  start_unset method (some p) = refl

  -- A request leaves one audit event, its last act, and plumbing leaves none: also when the tenant is
  -- ambiguous, when a handler fails, and when it panics. The event says `ok` exactly when the caller
  -- gets a result. The handlers that are not modelled are asked to emit no event and to leave the
  -- outcome open unless they fail, in which case it is not `ok`.
  pub exits-federation_middleware :
      (p : Option Principal) (q : Request) (r : Run)
      → let (x, r') = federation_middleware w rt sep ts session others p q r in
        (exits r'.trace ≡ exits r.trace ++ (if is_plumbing q.method then [] else r'.event ∷ []))
        × (is_ok_outcome r'.event.outcome ≡ is_ok x)
  unfolding federation_middleware exits
  exits-federation_middleware p q r =
      let started = record r { event = start_event q.method p } in
      let (e, t) = route_safe-Tells p q started (start_unset q.method p) in
      let (x, r') = route_safe w rt sep ts session others p q started in
      let event = settle w x (metered_event w r'.trace r'.event) in
      (
        elim (Bool-cases (is_plumbing q.method)) [
          | inl f ↦ rw f (e ∙ sym (append-nil (exits r.trace)))
          | inr f ↦
              rw f (exits-append r'.trace (emitted event ∷ []) ∙ ap (λ es. es ++ event ∷ []) e)
        ],
        settle_lem w x _ t,
      )
