-- ===== src/Gateway/Calls/Reached.antt =====
-- gateway/router.go: when a named invocation reaches its upstream, once the policy allows it.
use fold.Prelude.{
  Bool, true, false, ◌&&◌, List, [], ◌∷◌, ◌++◌, Option, Str, is_empty, if◌then◌else◌, ◌≡◌, refl,
  Bool-cases, inl, inr, append-nil, ◌∙◌, ap, sym,
}
use fold.Auth.{Principal}
use fold.Gateway.Meta.{Meta, tag_upstream}
use fold.Gateway.Run.{
  Forward, Served, called, pushed, popped, drained, Result, ok, err, World, Run, M, ◌>>◌, resume,
  pure,
}
use fold.Gateway.Router.{Upstream}
use fold.Gateway.Tasks.{note_minted_task, minted_task}
use fold.Gateway.Hook.{hook_ingress, hook_egress}
use fold.Gateway.Hook.Verdict.{calls, calls-append, calls-quiet, is_ok}
use fold.Gateway.Hook.Stages.{ingress_passes, hook_ingress_lem, hook_egress_lem}
use fold.Gateway.Calls.{
  Snapshot, Caller, with_call_ctx, drain_bridge, drained_ask, forwarded, disclose, reach, invoke,
}

abbrev pub Call : Type 0
Call = Str × Str × Forward

-- What follows a step that may have failed.
pub calls-resume :
    {A B : Type 0} (x : Result A) (k : A → M B) (r : Run) (more : List Call) (b : Bool)
    → is_ok x ≡ b
    → ((a : A) → calls (k a r).1.trace ≡ calls r.trace ++ more)
    → calls (resume k x r).1.trace ≡ calls r.trace ++ (if b then more else [])
calls-resume (ok a) k r more b e h = rw (← e) (h a)
calls-resume (err x) k r more b e h = rw (← e) (sym (append-nil (calls r.trace)))

pub if-and :
    {A : Type 0} (a b : Bool) (xs : List A)
    → (if a then (if b then xs else []) else []) ≡ (if a && b then xs else [])
if-and true b xs = refl
if-and false b xs = refl

pub resume_quiet :
    {A B : Type 0} (x : Result A) (k : A → M B) (r : Run)
    → ((a : A) → calls (k a r).1.trace ≡ calls r.trace)
    → calls (resume k x r).1.trace ≡ calls r.trace
resume_quiet (ok a) k r h = h a
resume_quiet (err x) k r h = refl

drain_quiet : (key : Str) (r : Run) → calls (drain_bridge key r).1.trace ≡ calls r.trace
unfolding calls
drain_quiet [] r = refl
drain_quiet (c ∷ key) r = calls-quiet r.trace _ refl

pub drained_ask-calls :
    (w : World) (key id method : Str) (fwd : Forward) (r : Run)
    → calls (with_call_ctx key (drained_ask w key id method fwd) r).1.trace
      ≡ calls r.trace ++ (id, method, fwd) ∷ []
unfolding calls
drained_ask-calls w [] id method fwd r = calls-append r.trace (called id method fwd ∷ [])
drained_ask-calls w (c ∷ key) id method fwd r =
    let before = r.trace ++ pushed (c ∷ key) ∷ [] in
    let after = before ++ called id method fwd ∷ [] in
    calls-quiet (after ++ drained (c ∷ key) ∷ []) (popped (c ∷ key)) refl
    ∙ calls-quiet after (drained (c ∷ key)) refl
    ∙ calls-append before (called id method fwd ∷ [])
    ∙ ap (λ cs. cs ++ (id, method, fwd) ∷ []) (calls-quiet r.trace (pushed (c ∷ key)) refl)

pub note_minted_quiet :
    (w : World) (p : Option Principal) (id : Str) (meta : Meta) (r : Run)
    → calls (note_minted_task w p id meta r).1.trace ≡ calls r.trace
unfolding note_minted_task
note_minted_quiet w p id meta r = elim (Bool-cases (is_empty (minted_task meta))) [
  | inl e ↦ rw e refl
  | inr e ↦ rw e refl
]

module _ {B L : Type 0} (w : World) (rt : Snapshot) (sep : Str) (c : Caller B L) where
  abbrev pub IsQuiet : (Upstream → Meta → M (Unit {0})) → Type 0
  IsQuiet note =
      (u : Upstream) (meta : Meta) (r : Run) → calls (note u meta r).1.trace ≡ calls r.trace

  disclose_quiet :
      (note : Upstream → Meta → M (Unit {0}))
      → IsQuiet note
      → (u : Upstream) (method bare : Str) (out : Served) (r : Run)
      → calls (disclose w rt sep c note u method bare out r).1.trace ≡ calls r.trace
  disclose_quiet note q u method bare out r =
      let (x, r') = hook_egress w c.principal method u.id rt.hook bare out r in
      let after : Unit {0} → M Served =
        λ a. note u out.meta >> pure (record out { meta = tag_upstream w.keys u.id out.meta }) in
      resume_quiet x after r' (λ a.
        resume_quiet (note u out.meta r').0
          (λ b. pure (record out { meta = tag_upstream w.keys u.id out.meta }))
          (note u out.meta r').1 (λ b. refl)
        ∙ q u out.meta r')
      ∙ (hook_egress_lem w c.principal method u.id rt.hook bare out r).1

  reach-calls :
      (note : Upstream → Meta → M (Unit {0}))
      → IsQuiet note
      → (u : Upstream) (method bare : Str) (params : Forward) (r : Run)
      → calls (reach w rt sep c note u method bare params r).1.trace
        ≡ calls r.trace ++ (u.id, method, forwarded w rt sep c bare params) ∷ []
  reach-calls note q u method bare params r =
      let fwd = forwarded w rt sep c bare params in
      let (x, r') = with_call_ctx c.session (drained_ask w c.session u.id method fwd) r in
      resume_quiet x (disclose w rt sep c note u method bare) r'
        (λ out. disclose_quiet note q u method bare out r')
      ∙ drained_ask-calls w c.session u.id method fwd r

  -- An invocation makes one call when the ingress stage lets it go on, and none otherwise.
  pub invoke-calls :
      (note : Upstream → Meta → M (Unit {0}))
      → IsQuiet note
      → (u : Upstream) (method bare args : Str) (params : Forward) (r : Run)
      → calls (invoke w rt sep c note u method bare args params r).1.trace
        ≡ calls r.trace
          ++ (if ingress_passes w c.principal method u.id rt.hook bare args r
              then (u.id, method, forwarded w rt sep c bare params) ∷ []
              else [])
  unfolding invoke
  invoke-calls note q u method bare args params r =
      let (passes, quiet, denial) =
        hook_ingress_lem w c.principal method u.id rt.hook bare args r in
      let (x, r') = hook_ingress w c.principal method u.id rt.hook bare args r in
      rw (← quiet) (
        calls-resume x (λ a. reach w rt sep c note u method bare params) r'
          ((u.id, method, forwarded w rt sep c bare params) ∷ [])
          (ingress_passes w c.principal method u.id rt.hook bare args r) passes
          (λ a. reach-calls note q u method bare params r'))
