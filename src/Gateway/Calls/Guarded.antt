-- ===== src/Gateway/Calls/Guarded.antt =====
-- gateway/router.go: when `callTool` and `getPrompt` reach an upstream, and with what.
use fold.Prelude.{
  Bool, false, ◌&&◌, List, [], ◌∷◌, ◌++◌, Option, none, some, Str, str, if◌then◌else◌, ◌≡◌, refl,
  Bool-cases, inl, inr, append-nil, ◌∙◌, ap, ap₂, sym,
}
use fold.Audit.{Outcome}
use fold.Policy.Clauses.{Evidence}
use fold.Policy.Engine.{no_evidence, decide_call}
use fold.Gateway.Meta.{Meta}
use fold.Gateway.Run.{Forward, World, Run, M, resume, pure}
use fold.Gateway.Router.{Upstream, resolve}
use fold.Gateway.Tenant.Resolve.{sees}
use fold.Gateway.Tasks.{note_minted_task}
use fold.Gateway.Hook.Verdict.{calls, is_ok}
use fold.Gateway.Hook.Stages.{ingress_passes}
use fold.Gateway.Calls.{
  Snapshot, Caller, ask_of, owned, authorize_call, authorize, evidence_for, forwarded, invoke,
  note_call, note_usage, call_owned, prompt_owned, call_tool, get_prompt,
}
use fold.Gateway.Calls.Reached.{
  Call, calls-resume, if-and, resume_quiet, note_minted_quiet, IsQuiet, invoke-calls,
}

module _ {B L : Type 0} (w : World) (rt : Snapshot) (sep : Str) (c : Caller B L) where
  -- What the tenant and the policy say of one invocation.
  unfoldable pub grants_call : Upstream → Str → Str → Evidence → Bool
  grants_call u method bare ev =
      sees c.tenant u.id && (decide_call rt.policy (ask_of c.principal u.id method bare) ev).allowed

  -- An authorization succeeds exactly when the tenant sees the upstream and the policy allows the
  -- invocation; it touches nothing but the event, and a refusal is recorded there.
  pub authorize_call_lem :
      (u : Upstream) (method bare : Str) (ev : Evidence) (r : Run)
      → let (x, r') = authorize_call w rt sep c u method bare ev r in
        (is_ok x ≡ grants_call u method bare ev)
        × (r'.trace ≡ r.trace)
        × (r'.event.tenant ≡ r.event.tenant)
        × (grants_call u method bare ev ≡ false
            → (r'.event.decision ≡ str "deny") × (r'.event.outcome ≡ Outcome.denied))
  unfolding authorize_call grants_call
  authorize_call_lem u method bare ev r = elim (Bool-cases (sees c.tenant u.id)) [
    | inr e ↦ rw e (refl, refl, refl, λ h. (refl, refl))
    | inl e ↦
        elim (Bool-cases (decide_call rt.policy (ask_of c.principal u.id method bare) ev).allowed) [
          | inl a ↦ rw (e, a) (refl, refl, refl, λ h. cc)
          | inr a ↦ rw (e, a) (refl, refl, refl, λ h. (refl, refl))
        ]
  ]

  ingress_passes_same :
      (method id bare args : Str) (r r' : Run)
      → r'.trace ≡ r.trace
      → r'.event.tenant ≡ r.event.tenant
      → ingress_passes w c.principal method id rt.hook bare args r'
        ≡ ingress_passes w c.principal method id rt.hook bare args r
  unfolding ingress_passes
  ingress_passes_same method id bare args r r' e f =
      elim rt.hook
        as (λ h.
          ingress_passes w c.principal method id h bare args r'
          ≡ ingress_passes w c.principal method id h bare args r) [
            | none ↦ refl
            | some h ↦ rw (e, f) refl
          ]

  -- The calls of an invocation that is authorized first.
  guarded_calls :
      (note : Upstream → Meta → M (Unit {0}))
      → IsQuiet w rt sep c note
      → (u : Upstream) (method bare args : Str) (ev : Evidence) (params : Forward) (r : Run)
      → calls
          (resume
            (λ a. invoke w rt sep c note u method bare args params)
            (authorize_call w rt sep c u method bare ev r).0
            (authorize_call w rt sep c u method bare ev r).1).1.trace
        ≡ calls r.trace
          ++ (if grants_call u method bare ev
                && ingress_passes w c.principal method u.id rt.hook bare args r
              then (u.id, method, forwarded w rt sep c bare params) ∷ []
              else [])
  guarded_calls note q u method bare args ev params r =
      let (granted, quiet, tenant, denial) = authorize_call_lem u method bare ev r in
      let (x, r') = authorize_call w rt sep c u method bare ev r in
      let call : Call = (u.id, method, forwarded w rt sep c bare params) in
      let passes = ingress_passes w c.principal method u.id rt.hook bare args r in
      let invoked : calls (invoke w rt sep c note u method bare args params r').1.trace
          ≡ calls r'.trace ++ (if passes then call ∷ [] else []) =
        rw (← ingress_passes_same method u.id bare args r r' quiet tenant)
          (invoke-calls w rt sep c note q u method bare args params r') in
      calls-resume x (λ a. invoke w rt sep c note u method bare args params) r'
        (if passes then call ∷ [] else []) (grants_call u method bare ev) granted (λ a. invoked)
      ∙ ap₂ (λ t more. calls t ++ more) quiet
          (if-and (grants_call u method bare ev) passes (call ∷ []))

  -- The one call that a request is to make, if any.
  abbrev pub call_for :
      Str → (Upstream → Str → Evidence) → Str → Forward → Run → Option (Upstream × Str) → List Call
  call_for method ev args params r none = []
  call_for method ev args params r (some (u, bare)) =
      if grants_call u method bare (ev u bare)
        && ingress_passes w c.principal method u.id rt.hook bare args r
      then (u.id, method, forwarded w rt sep c bare params) ∷ []
      else []

  call_for_same :
      (method : Str) (ev : Upstream → Str → Evidence) (args : Str) (params : Forward) (r r' : Run)
      → r'.trace ≡ r.trace
      → r'.event.tenant ≡ r.event.tenant
      → (o : Option (Upstream × Str))
      → call_for method ev args params r' o ≡ call_for method ev args params r o
  call_for_same method ev args params r r' e f none = refl
  call_for_same method ev args params r r' e f (some (u, bare)) =
      rw (ingress_passes_same method u.id bare args r r' e f) refl

  note_call-IsQuiet : IsQuiet w rt sep c (note_call w rt sep c)
  note_call-IsQuiet u meta r =
      let (x, r') = note_minted_task w c.principal u.id meta r in
      resume_quiet x (λ a. note_usage meta) r' (λ a. refl)
      ∙ note_minted_quiet w c.principal u.id meta r

  tool_calls :
      (params : Forward) (o : Option (Upstream × Str)) (r : Run)
      → calls
          (resume
            (call_owned w rt sep c params)
            (owned params.name o r).0
            (owned params.name o r).1).1.trace
        ≡ calls r.trace
          ++ call_for
              (str "tools/call")
              (λ u bare. evidence_for w rt sep c u bare params.arguments)
              params.arguments
              params
              r
              o
  tool_calls params none r = sym (append-nil (calls r.trace))
  tool_calls params (some (u, bare)) r =
      let r' = record r { event = record r.event { upstream = u.id } } in
      let ev = λ (v : Upstream) (name : Str). evidence_for w rt sep c v name params.arguments in
      guarded_calls (note_call w rt sep c) note_call-IsQuiet u (str "tools/call") bare
        params.arguments (ev u bare) params r'
      ∙ ap (λ more. calls r.trace ++ more)
          (call_for_same (str "tools/call") ev params.arguments params r r' refl refl
            (some (u, bare)))

  -- `tools/call` makes one call when some upstream owns the name, the tenant sees it, the policy
  -- allows the invocation with its arguments, and the ingress hook does not refuse it; the call
  -- carries the upstream's own name and the sanitised metadata. Otherwise it makes no call.
  pub call_tool-calls :
      (params : Forward) (r : Run)
      → calls (call_tool w rt sep c (some params) r).1.trace
        ≡ calls r.trace
          ++ call_for
              (str "tools/call")
              (λ u bare. evidence_for w rt sep c u bare params.arguments)
              params.arguments
              params
              r
              (resolve rt.routes sep params.name)
  unfolding call_tool
  call_tool-calls params r =
      let o = resolve rt.routes sep params.name in
      let r' = record r { event = record r.event { name = params.name } } in
      let ev = λ (v : Upstream) (name : Str). evidence_for w rt sep c v name params.arguments in
      tool_calls params o r'
      ∙ ap (λ more. calls r.trace ++ more)
          (call_for_same (str "tools/call") ev params.arguments params r r' refl refl o)

  prompt_calls :
      (params : Forward) (o : Option (Upstream × Str)) (r : Run)
      → calls
          (resume
            (prompt_owned w rt sep c params)
            (owned params.name o r).0
            (owned params.name o r).1).1.trace
        ≡ calls r.trace ++ call_for (str "prompts/get") (λ u bare. no_evidence) [] params r o
  unfolding authorize
  prompt_calls params none r = sym (append-nil (calls r.trace))
  prompt_calls params (some (u, bare)) r =
      let r' = record r { event = record r.event { upstream = u.id } } in
      guarded_calls (λ v meta. pure tt) (λ v meta t. refl) u (str "prompts/get") bare [] no_evidence
        params r'
      ∙ ap (λ more. calls r.trace ++ more)
          (call_for_same (str "prompts/get") (λ v name. no_evidence) [] params r r' refl refl
            (some (u, bare)))

  -- The same of `prompts/get`, whose arguments neither the policy nor the hook is given.
  pub get_prompt-calls :
      (params : Forward) (r : Run)
      → calls (get_prompt w rt sep c (some params) r).1.trace
        ≡ calls r.trace
          ++ call_for
              (str "prompts/get")
              (λ u bare. no_evidence)
              []
              params
              r
              (resolve rt.routes sep params.name)
  unfolding get_prompt
  get_prompt-calls params r =
      let o = resolve rt.routes sep params.name in
      let r' = record r { event = record r.event { name = params.name } } in
      prompt_calls params o r'
      ∙ ap (λ more. calls r.trace ++ more)
          (call_for_same (str "prompts/get") (λ v name. no_evidence) [] params r r' refl refl o)
