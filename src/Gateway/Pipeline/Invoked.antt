-- ===== src/Gateway/Pipeline/Invoked.antt =====
-- gateway/router.go: what `callTool` and `getPrompt` do to the audit event and to the audit trail.
use fold.Prelude.{
  [], ◌∷◌, ◌++◌, Option, none, some, Str, str, is_empty, ◌≡◌, refl, Bool-cases, inl, inr, ◌∙◌,
}
use fold.Auth.{Principal}
use fold.Value.{Fields}
use fold.Audit.{Event, unset}
use fold.Policy.Clauses.{Evidence}
use fold.Policy.Engine.{decide_call}
use fold.Gateway.Meta.{Meta}
use fold.Gateway.Run.{Forward, Served, called, pushed, popped, drained, World, M, pure}
use fold.Gateway.Hook.{hook_ingress, hook_egress}
use fold.Gateway.Tasks.{note_minted_task, minted_task}
use fold.Gateway.Router.{Upstream, resolve}
use fold.Gateway.Tenant.Resolve.{sees}
use fold.Gateway.Calls.{
  Snapshot, Caller, ask_of, with_call_ctx, drained_ask, owned, authorize_call, authorize,
  evidence_for, forwarded, disclose, invoke, note_call, note_usage, call_owned, prompt_owned,
  call_tool, get_prompt,
}
use fold.Gateway.Pipeline.Told.{
  exits, exits-quiet, is_ok_outcome, unset-Told, Tells, bind-Tells, hook_ingress-Tells,
  hook_egress-Tells,
}

pub drained_ask-Tells :
    (w : World) (key id method : Str) (fwd : Forward)
    → Tells (with_call_ctx key (drained_ask w key id method fwd))
unfolding exits
drained_ask-Tells w [] id method fwd r u =
    (exits-quiet r.trace _ refl, unset-Told (w.ask r.trace id method fwd) _ u)
drained_ask-Tells w (c ∷ key) id method fwd r u =
    let before = r.trace ++ pushed (c ∷ key) ∷ [] in
    let after = before ++ called id method fwd ∷ [] in
    (
      exits-quiet (after ++ drained (c ∷ key) ∷ []) (popped (c ∷ key)) refl
          ∙ exits-quiet after (drained (c ∷ key)) refl
          ∙ exits-quiet before (called id method fwd) refl
          ∙ exits-quiet r.trace (pushed (c ∷ key)) refl,
      unset-Told (w.ask before id method fwd) _ u,
    )

note_minted-Tells :
    (w : World) (p : Option Principal) (id : Str) (meta : Meta)
    → Tells (note_minted_task w p id meta)
unfolding note_minted_task
note_minted-Tells w p id meta r u = elim (Bool-cases (is_empty (minted_task meta))) [
  | inl e ↦ rw e (refl, u)
  | inr e ↦ rw e (refl, u)
]

usage_kept :
    (fs : Option Fields) (e : Event)
    → e.outcome ≡ unset
    → let noted : Event = elim fs [ none ↦ e | some vals ↦ record e { usage = vals } ] in
      noted.outcome ≡ unset
usage_kept none e h = h
usage_kept (some fs) e h = h

note_usage-Tells : (meta : Meta) → Tells (note_usage meta)
note_usage-Tells meta r u = (refl, usage_kept _ r.event u)

pub owned-Tells : (name : Str) (o : Option (Upstream × Str)) → Tells (owned name o)
unfolding is_ok_outcome
owned-Tells name none r u = (refl, rw u refl)
owned-Tells name (some o) r u = (refl, u)

module _ {B L : Type 0} (w : World) (rt : Snapshot) (sep : Str) (c : Caller B L) where
  pub authorize_call-Tells :
      (u : Upstream) (method bare : Str) (ev : Evidence)
      → Tells (authorize_call w rt sep c u method bare ev)
  unfolding authorize_call is_ok_outcome
  authorize_call-Tells u method bare ev r h = elim (Bool-cases (sees c.tenant u.id)) [
    | inr e ↦ rw e (refl, refl)
    | inl e ↦
        elim (Bool-cases (decide_call rt.policy (ask_of c.principal u.id method bare) ev).allowed) [
          | inl a ↦ rw (e, a) (refl, h)
          | inr a ↦ rw (e, a) (refl, refl)
        ]
  ]

  disclose-Tells :
      (note : Upstream → Meta → M (Unit {0}))
      → ((u : Upstream) (meta : Meta) → Tells (note u meta))
      → (u : Upstream) (method bare : Str) (out : Served)
      → Tells (disclose w rt sep c note u method bare out)
  disclose-Tells note q u method bare out =
      bind-Tells (hook_egress w c.principal method u.id rt.hook bare out) _
        (hook_egress-Tells w c.principal method u.id rt.hook bare out)
        (λ a. bind-Tells (note u out.meta) _ (q u out.meta) (λ b r h. (refl, h)))

  invoke-Tells :
      (note : Upstream → Meta → M (Unit {0}))
      → ((u : Upstream) (meta : Meta) → Tells (note u meta))
      → (u : Upstream) (method bare args : Str) (params : Forward)
      → Tells (invoke w rt sep c note u method bare args params)
  unfolding invoke
  invoke-Tells note q u method bare args params =
      let fwd = forwarded w rt sep c bare params in
      bind-Tells (hook_ingress w c.principal method u.id rt.hook bare args) _
        (hook_ingress-Tells w c.principal method u.id rt.hook bare args)
        (λ a.
          bind-Tells (with_call_ctx c.session (drained_ask w c.session u.id method fwd)) _
            (drained_ask-Tells w c.session u.id method fwd) (disclose-Tells note q u method bare))

  note_call-Tells : (u : Upstream) (meta : Meta) → Tells (note_call w rt sep c u meta)
  note_call-Tells u meta =
      bind-Tells (note_minted_task w c.principal u.id meta) _
        (note_minted-Tells w c.principal u.id meta) (λ a. note_usage-Tells meta)

  call_owned-Tells :
      (params : Forward) (o : Upstream × Str) → Tells (call_owned w rt sep c params o)
  call_owned-Tells params (u, bare) r h =
      bind-Tells
        (authorize_call w rt sep c u (str "tools/call") bare
          (evidence_for w rt sep c u bare params.arguments))
        _ (authorize_call-Tells u (str "tools/call") bare _)
        (λ a.
          invoke-Tells (note_call w rt sep c) note_call-Tells u (str "tools/call") bare
            params.arguments params)
        (record r { event = record r.event { upstream = u.id } }) h

  pub call_tool-Tells : (params : Option Forward) → Tells (call_tool w rt sep c params)
  unfolding call_tool is_ok_outcome
  call_tool-Tells none r h = (refl, rw h refl)
  call_tool-Tells (some params) r h =
      bind-Tells (owned params.name (resolve rt.routes sep params.name)) _
        (owned-Tells params.name (resolve rt.routes sep params.name)) (call_owned-Tells params)
        (record r { event = record r.event { name = params.name } }) h

  prompt_owned-Tells :
      (params : Forward) (o : Upstream × Str) → Tells (prompt_owned w rt sep c params o)
  unfolding authorize
  prompt_owned-Tells params (u, bare) r h =
      bind-Tells (authorize w rt sep c u (str "prompts/get") bare) _
        (authorize_call-Tells u (str "prompts/get") bare _)
        (λ a.
          invoke-Tells (λ v meta. pure tt) (λ v meta s k. (refl, k)) u (str "prompts/get") bare []
            params)
        (record r { event = record r.event { upstream = u.id } }) h

  pub get_prompt-Tells : (params : Option Forward) → Tells (get_prompt w rt sep c params)
  unfolding get_prompt is_ok_outcome
  get_prompt-Tells none r h = (refl, rw h refl)
  get_prompt-Tells (some params) r h =
      bind-Tells (owned params.name (resolve rt.routes sep params.name)) _
        (owned-Tells params.name (resolve rt.routes sep params.name)) (prompt_owned-Tells params)
        (record r { event = record r.event { name = params.name } }) h
