-- ===== src/Gateway/Pipeline/Told.antt =====
-- gateway/hook.go: what a handler, and the hook in it, does to the audit event and to the audit trail
-- before the middleware settles them.
use fold.Prelude.{
  Bool, true, false, List, [], ◌∷◌, ◌++◌, Option, none, some, Str, ltb, length, if◌then◌else◌, ◌≡◌,
  refl, arith, Bool-cases, inl, inr, append-nil, ◌∙◌,
}
use fold.Auth.{Principal}
use fold.Audit.{Event, Outcome, unset}
use fold.Gateway.Run.{
  Served, Effect, called, completed, posted, observed_hook, pushed, popped, drained, emitted,
  asked_task, listed_by, HttpRequest, HttpReply, unsendable, failed, response, Result, ok, err,
  World, Run, M, ◌>>=◌, resume,
}
use fold.Gateway.Hook.{
  DecisionHook, HookOutcome, allowed, denied, errored, inspects, http_request, is_sent, send,
  decide, hook_max_result_bytes, stage_ingress, stage_egress, settle_ingress, hook_ingress,
  settle_egress, ask_egress, hook_egress,
}

-- The audit events that have left.
unfoldable pub exits : List Effect → List Event
exits [] = []
exits (called id method fwd ∷ es) = exits es
exits (completed id params ∷ es) = exits es
exits (posted q ∷ es) = exits es
exits (observed_hook stage outcome ∷ es) = exits es
exits (pushed key ∷ es) = exits es
exits (popped key ∷ es) = exits es
exits (drained key ∷ es) = exits es
exits (emitted e ∷ es) = e ∷ exits es
exits (asked_task id method raw ∷ es) = exits es
exits (listed_by id ∷ es) = exits es

pub exits-append : (es fs : List Effect) → exits (es ++ fs) ≡ exits es ++ exits fs
unfolding exits
exits-append [] fs = refl
exits-append (called id method fwd ∷ es) fs = exits-append es fs
exits-append (completed id params ∷ es) fs = exits-append es fs
exits-append (posted q ∷ es) fs = exits-append es fs
exits-append (observed_hook stage outcome ∷ es) fs = exits-append es fs
exits-append (pushed key ∷ es) fs = exits-append es fs
exits-append (popped key ∷ es) fs = exits-append es fs
exits-append (drained key ∷ es) fs = exits-append es fs
exits-append (emitted e ∷ es) fs = ground (arith, exits-append es fs)
exits-append (asked_task id method raw ∷ es) fs = exits-append es fs
exits-append (listed_by id ∷ es) fs = exits-append es fs

-- An effect that is no exit.
pub exits-quiet :
    (es : List Effect) (e : Effect) → exits (e ∷ []) ≡ [] → exits (es ++ e ∷ []) ≡ exits es
exits-quiet es e h = rw (exits-append es (e ∷ []), h) (append-nil (exits es))

unfoldable pub is_ok_outcome : Outcome → Bool
is_ok_outcome Outcome.ok = true
is_ok_outcome other = false

-- A result leaves the outcome open, and an error never leaves `ok`.
abbrev pub Told {ℓ} : {A : Type ℓ} → Result A → Outcome → Type 0
Told (ok a) o = o ≡ unset
Told (err e) o = is_ok_outcome o ≡ false

pub unset-Told {ℓ} : {A : Type ℓ} (x : Result A) (o : Outcome) → o ≡ unset → Told x o
unfolding is_ok_outcome
unset-Told (ok a) o h = h
unset-Told (err e) o h = rw h refl

-- A handler that emits no event and keeps to `Told`.
abbrev pub Tells : {A : Type 0} → M A → Type 0
Tells m =
    (r : Run)
    → r.event.outcome ≡ unset
    → (exits (m r).1.trace ≡ exits r.trace) × Told (m r).0 (m r).1.event.outcome

pub resume-Tells :
    {A B : Type 0} (x : Result A) (k : A → M B)
    → ((a : A) → Tells (k a))
    → (before after : Run) → exits after.trace ≡ exits before.trace
    → Told x after.event.outcome
    → (exits (resume k x after).1.trace ≡ exits before.trace)
      × Told (resume k x after).0 (resume k x after).1.event.outcome
resume-Tells (ok a) k f before after e t = let (q, u) = f a after t in (q ∙ e, u)
resume-Tells (err x) k f before after e t = (e, t)

pub bind-Tells :
    {A B : Type 0} (m : M A) (k : A → M B) → Tells m → ((a : A) → Tells (k a)) → Tells (m >>= k)
bind-Tells m k f g r h = let (q, t) = f r h in resume-Tells (m r).0 k g r (m r).1 q t

-- The hook.
module _ (w : World) (h : DecisionHook) where
  posted-exits :
      (q : HttpRequest) (reply : HttpReply) (r : Run)
      → let r' = if is_sent reply then record r { trace = r.trace ++ posted q ∷ [] } else r in
        (exits r'.trace ≡ exits r.trace) × (r'.event ≡ r.event)
  unfolding exits
  posted-exits q unsendable r = (refl, refl)
  posted-exits q failed r = (exits-quiet r.trace _ refl, refl)
  posted-exits q (response status out) r = (exits-quiet r.trace _ refl, refl)

  send-Tells : (body : Option Str) → Tells (send w h body)
  send-Tells none r u = (refl, u)
  send-Tells (some body) r u =
      let q = http_request w h body in
      let (same, event) = posted-exits q (w.post r.trace q) r in (same, rw event u)

module _ (w : World) (p : Option Principal) (method id : Str) where
  settle_ingress-Tells : (answer : HookOutcome × Str) → Tells (settle_ingress w p method id answer)
  unfolding exits is_ok_outcome
  settle_ingress-Tells (allowed, reason) r u = (exits-quiet r.trace _ refl, u)
  settle_ingress-Tells (denied, reason) r u = (exits-quiet r.trace _ refl, refl)
  settle_ingress-Tells (errored, reason) r u = (exits-quiet r.trace _ refl, u)

  pub hook_ingress-Tells :
      (h : Option DecisionHook) (name args : Str) → Tells (hook_ingress w p method id h name args)
  unfolding hook_ingress decide
  hook_ingress-Tells none name args r u = (refl, u)
  hook_ingress-Tells (some h) name args r u =
      elim (Bool-cases (inspects (some h) stage_ingress method)) [
        | inl e ↦ rw e (
            bind-Tells (send w h _) (settle_ingress w p method id) (send-Tells w h _)
              settle_ingress-Tells r u)
        | inr e ↦ rw e (refl, u)
      ]

  settle_egress-Tells : (answer : HookOutcome × Str) → Tells (settle_egress w p method id answer)
  unfolding exits is_ok_outcome
  settle_egress-Tells (allowed, reason) r u = (exits-quiet r.trace _ refl, u)
  settle_egress-Tells (denied, reason) r u = (exits-quiet r.trace _ refl, refl)
  settle_egress-Tells (errored, reason) r u = (exits-quiet r.trace _ refl, u)

  ask_egress-Tells :
      (h : DecisionHook) (name : Str) (body : Option Str)
      → Tells (ask_egress w p method id h name body)
  unfolding decide
  ask_egress-Tells h name none r u = (refl, u)
  ask_egress-Tells h name (some body) r u =
      elim (Bool-cases (ltb hook_max_result_bytes (length body))) [
        | inl e ↦ rw e (refl, u)
        | inr e ↦ rw e (send-Tells w h _ r u)
      ]

  pub hook_egress-Tells :
      (h : Option DecisionHook) (name : Str) (out : Served)
      → Tells (hook_egress w p method id h name out)
  unfolding hook_egress
  hook_egress-Tells none name out r u = (refl, u)
  hook_egress-Tells (some h) name out r u =
      elim (Bool-cases (inspects (some h) stage_egress method)) [
        | inl e ↦ rw e (
            bind-Tells (ask_egress w p method id h name (w.encode_result out))
              (settle_egress w p method id) (ask_egress-Tells h name (w.encode_result out))
              settle_egress-Tells r u)
        | inr e ↦ rw e (refl, u)
      ]
