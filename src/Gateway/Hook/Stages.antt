-- ===== src/Gateway/Hook/Stages.antt =====
-- gateway/hook.go: the ingress and the egress stage, on every branch.
use fold.Prelude.{
  Bool, true, false, not, ◌||◌, [], ltb, length, Option, none, some, Str, str, if◌then◌else◌, ◌≡◌,
  refl, Bool-cases, inl, inr, ◌∙◌,
}
use fold.Auth.{Principal}
use fold.Audit.{Event, hook_denied}
use fold.Gateway.Run.{HookRequest, Served, World, Run, ◌>>=◌}
use fold.Gateway.Hook.{
  DecisionHook, HookOutcome, allowed, denied, errored, inspects, on_error, decide, hook_ingress,
  hook_egress, hook_request, stage_ingress, stage_egress, hook_max_result_bytes, settle_ingress,
  settle_egress, ask_ingress, ask_egress,
}
use fold.Gateway.Hook.Verdict.{goes_on, verdict_of, calls, calls-quiet, is_ok, decide-verdict_of}

-- An event that records a denial by the hook.
abbrev pub RecordsDenial : Event → Type 0
RecordsDenial e =
    (e.outcome ≡ hook_denied) × (e.decision ≡ str "deny") × (e.hook_outcome ≡ str "deny")

module _ (w : World) (p : Option Principal) (method : Str) (id : Str) where
  abbrev ingress_of : Str → Str → Run → HookRequest
  ingress_of name args r = record (hook_request stage_ingress method name id p r.event) {
    arguments = args;
  }

  settle_ingress_lem :
      (outcome : HookOutcome) (reason : Str) (r : Run)
      → let (x, r') = settle_ingress w p method id (outcome, reason) r in
        (is_ok x ≡ goes_on outcome)
        × (calls r'.trace ≡ calls r.trace)
        × (goes_on outcome ≡ false → RecordsDenial r'.event)
  unfolding calls
  settle_ingress_lem allowed reason r = (refl, calls-quiet r.trace _ refl, λ h. cc)
  settle_ingress_lem denied reason r = (refl, calls-quiet r.trace _ refl, λ h. (refl, refl, refl))
  settle_ingress_lem errored reason r = (refl, calls-quiet r.trace _ refl, λ h. cc)

  -- What the ingress stage says of one invocation.
  unfoldable pub ingress_passes : Option DecisionHook → Str → Str → Run → Bool
  ingress_passes none name args r = true
  ingress_passes (some h) name args r =
      not (inspects (some h) stage_ingress method)
      || goes_on (verdict_of w h r.trace (w.encode_request (ingress_of name args r))).0

  ask_ingress_lem :
      (h : DecisionHook) (name args : Str) (r : Run)
      → let (x, r') = ask_ingress w p method id h name args r in
        let passes =
          goes_on (verdict_of w h r.trace (w.encode_request (ingress_of name args r))).0 in
        (is_ok x ≡ passes)
        × (calls r'.trace ≡ calls r.trace)
        × (passes ≡ false → RecordsDenial r'.event)
  ask_ingress_lem h name args r =
      let req = ingress_of name args r in
      let (said, quiet, same) = decide-verdict_of w h req r in
      let v = verdict_of w h r.trace (w.encode_request req) in
      let (a, b, c) = settle_ingress_lem v.0 v.1 (decide w h req r).1 in rw said (a, b ∙ quiet, c)

  -- The ingress stage lets an invocation go on exactly when it does not inspect it or the verdict is
  -- no denial; it calls no upstream; and when it refuses, the event says so.
  pub hook_ingress_lem :
      (h : Option DecisionHook) (name args : Str) (r : Run)
      → let (x, r') = hook_ingress w p method id h name args r in
        (is_ok x ≡ ingress_passes h name args r)
        × (calls r'.trace ≡ calls r.trace)
        × (ingress_passes h name args r ≡ false → RecordsDenial r'.event)
  unfolding hook_ingress ingress_passes
  hook_ingress_lem none name args r = (refl, refl, λ h. cc)
  hook_ingress_lem (some h) name args r =
      elim (Bool-cases (inspects (some h) stage_ingress method)) [
        | inl e ↦ rw e (ask_ingress_lem h name args r)
        | inr e ↦ rw e (refl, refl, λ h. cc)
      ]

  settle_egress_lem :
      (outcome : HookOutcome) (reason : Str) (r : Run)
      → let (x, r') = settle_egress w p method id (outcome, reason) r in
        (is_ok x ≡ goes_on outcome)
        × (calls r'.trace ≡ calls r.trace)
        × (goes_on outcome ≡ false → RecordsDenial r'.event)
  unfolding calls
  settle_egress_lem allowed reason r = (refl, calls-quiet r.trace _ refl, λ h. cc)
  settle_egress_lem denied reason r = (refl, calls-quiet r.trace _ refl, λ h. (refl, refl, refl))
  settle_egress_lem errored reason r = (refl, calls-quiet r.trace _ refl, λ h. cc)

  -- What the egress stage says of the encoded result.
  unfoldable pub egress_verdict : DecisionHook → Str → Option Str → Run → HookOutcome
  egress_verdict h name none r = on_error h
  egress_verdict h name (some body) r =
      if ltb hook_max_result_bytes (length body)
      then on_error h
      else (verdict_of w h r.trace (
          w.encode_request
            (record (hook_request stage_egress method name id p r.event) { result = body }))).0

  unfoldable pub egress_passes : Option DecisionHook → Str → Served → Run → Bool
  unfolding egress_verdict
  egress_passes none name out r = true
  egress_passes (some h) name out r =
      not (inspects (some h) stage_egress method)
      || goes_on (egress_verdict h name (w.encode_result out) r)

  sent_egress_lem :
      (h : DecisionHook) (req : HookRequest) (r : Run)
      → let (x, r') = (decide w h req >>= settle_egress w p method id) r in
        let passes = goes_on (verdict_of w h r.trace (w.encode_request req)).0 in
        (is_ok x ≡ passes)
        × (calls r'.trace ≡ calls r.trace)
        × (passes ≡ false → RecordsDenial r'.event)
  sent_egress_lem h req r =
      let (said, quiet, same) = decide-verdict_of w h req r in
      let v = verdict_of w h r.trace (w.encode_request req) in
      let (a, b, c) = settle_egress_lem v.0 v.1 (decide w h req r).1 in rw said (a, b ∙ quiet, c)

  ask_egress_lem :
      (h : DecisionHook) (name : Str) (body : Option Str) (r : Run)
      → let (x, r') = (ask_egress w p method id h name body >>= settle_egress w p method id) r in
        let passes = goes_on (egress_verdict h name body r) in
        (is_ok x ≡ passes)
        × (calls r'.trace ≡ calls r.trace)
        × (passes ≡ false → RecordsDenial r'.event)
  unfolding egress_verdict
  ask_egress_lem h name none r = settle_egress_lem (on_error h) [] r
  ask_egress_lem h name (some body) r =
      elim (Bool-cases (ltb hook_max_result_bytes (length body))) [
        | inl e ↦ rw e (settle_egress_lem (on_error h) [] r)
        | inr e ↦ rw e (
            sent_egress_lem h
              (record (hook_request stage_egress method name id p r.event) { result = body }) r)
      ]

  -- The same of the egress stage, where a result that cannot be encoded or is too large counts as a
  -- failure of the hook.
  pub hook_egress_lem :
      (h : Option DecisionHook) (name : Str) (out : Served) (r : Run)
      → let (x, r') = hook_egress w p method id h name out r in
        (is_ok x ≡ egress_passes h name out r)
        × (calls r'.trace ≡ calls r.trace)
        × (egress_passes h name out r ≡ false → RecordsDenial r'.event)
  unfolding hook_egress egress_passes
  hook_egress_lem none name out r = (refl, refl, λ h. cc)
  hook_egress_lem (some h) name out r = elim (Bool-cases (inspects (some h) stage_egress method)) [
    | inl e ↦ rw e (ask_egress_lem h name (w.encode_result out) r)
    | inr e ↦ rw e (refl, refl, λ h. cc)
  ]
