-- ===== src/Gateway/Calls/Disclosed.antt =====
-- gateway/router.go: which results of an upstream reach the caller.
use fold.Prelude.{Bool, true, Str, ◌≡◌, refl, sym}
use fold.Gateway.Meta.{Meta, tag_upstream}
use fold.Gateway.Run.{Forward, Served, Result, ok, err, World, Run, M, ◌>>=◌, resume, pure}
use fold.Gateway.Router.{Upstream}
use fold.Gateway.Hook.{hook_ingress, hook_egress}
use fold.Gateway.Hook.Verdict.{is_ok}
use fold.Gateway.Hook.Stages.{ingress_passes, egress_passes, hook_ingress_lem, hook_egress_lem}
use fold.Gateway.Calls.{
  Snapshot, Caller, with_call_ctx, drained_ask, forwarded, disclose, reach, invoke,
}

resume-eq-ok :
    {A B : Type 0} (x : Result A) (k : A → M B) (r : Run) {b : B}
    → (resume k x r).0 ≡ ok b
    → (a : A) × (x ≡ ok a) × ((k a r).0 ≡ ok b)
resume-eq-ok (ok a) k r h = (a, refl, h)
resume-eq-ok (err e) k r h = cc

ok-inj : {A : Type 0} {a b : A} → ◌≡◌ {A = Result A} (ok a) (ok b) → a ≡ b
ok-inj h = cc

is_ok_of : {A : Type 0} {x : Result A} {a : A} {b : Bool} → is_ok x ≡ b → x ≡ ok a → b ≡ true
is_ok_of h e = cc

module _ {B L : Type 0} (w : World) (rt : Snapshot) (sep : Str) (c : Caller B L) where
  disclose-ok :
      (note : Upstream → Meta → M (Unit {0})) (u : Upstream) (method bare : Str) (out : Served)
      (r : Run) {served : Served}
      → (disclose w rt sep c note u method bare out r).0 ≡ ok served
      → (egress_passes w c.principal method u.id rt.hook bare out r ≡ true)
        × (served ≡ record out { meta = tag_upstream w.keys u.id out.meta })
  disclose-ok note u method bare out r h =
      let (x, r') = hook_egress w c.principal method u.id rt.hook bare out r in
      let tag = λ (b : Unit {0}). pure (record out { meta = tag_upstream w.keys u.id out.meta }) in
      let (a, passed, rest) = resume-eq-ok x (λ b. note u out.meta >>= tag) r' h in
      let (b, noted, tagged) =
        resume-eq-ok (note u out.meta r').0 tag (note u out.meta r').1 rest in
      (
        is_ok_of (hook_egress_lem w c.principal method u.id rt.hook bare out r).0 passed,
        sym (ok-inj tagged),
      )

  -- A result that the caller gets is one that the upstream gave, to a request that the ingress stage
  -- let go on, and that the egress stage let go on; it is unchanged but for its metadata.
  pub invoke-ok :
      (note : Upstream → Meta → M (Unit {0})) (u : Upstream) (method bare args : Str)
      (params : Forward) (r : Run) (served : Served)
      → (invoke w rt sep c note u method bare args params r).0 ≡ ok served
      → let entered = (hook_ingress w c.principal method u.id rt.hook bare args r).1 in
        let fwd = forwarded w rt sep c bare params in
        let asked = with_call_ctx c.session (drained_ask w c.session u.id method fwd) entered in
        (ingress_passes w c.principal method u.id rt.hook bare args r ≡ true)
        × (out : Served) × (asked.0 ≡ ok out)
        × (egress_passes w c.principal method u.id rt.hook bare out asked.1 ≡ true)
        × (served ≡ record out { meta = tag_upstream w.keys u.id out.meta })
  unfolding invoke
  invoke-ok note u method bare args params r served h =
      let (x, r') = hook_ingress w c.principal method u.id rt.hook bare args r in
      let (a, entered, rest) =
        resume-eq-ok x (λ b. reach w rt sep c note u method bare params) r' h in
      let fwd = forwarded w rt sep c bare params in
      let (y, r2) = with_call_ctx c.session (drained_ask w c.session u.id method fwd) r' in
      let (out, answered, last) = resume-eq-ok y (disclose w rt sep c note u method bare) r2 rest in
      let (passed, same) = disclose-ok note u method bare out r2 last in
      (
        is_ok_of (hook_ingress_lem w c.principal method u.id rt.hook bare args r).0 entered,
        out,
        answered,
        passed,
        same,
      )
