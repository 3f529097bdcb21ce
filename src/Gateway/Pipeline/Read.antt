-- ===== src/Gateway/Pipeline/Read.antt =====
-- gateway/router.go: what `readResource` does to the audit event and to the audit trail.
use fold.Prelude.{
  Bool, true, false, List, [], ◌∷◌, Option, none, some, Str, lookup, ◌≡◌, refl, Bool-cases, inl,
  inr, ◌∙◌,
}
use fold.Audit.{unset}
use fold.State.Bounded.{load}
use fold.Gateway.Meta.{sanitize_request_meta}
use fold.Gateway.Run.{Forward, Served, Result, ok, err, World, Run, M}
use fold.Gateway.Router.{Upstream}
use fold.Gateway.Tenant.Resolve.{sees, visible_upstreams}
use fold.Gateway.Calls.{Snapshot, Caller}
use fold.Gateway.Resources.{
  may_read, ask_read, found_by, tagged, checked_read, probe, probe_all, read_known, read_owned,
  read_or_probe, read_minted, tag_minted, read_resource, ui_owner, otherwise,
}
use fold.Gateway.Pipeline.Told.{
  exits, exits-quiet, is_ok_outcome, Told, unset-Told, Tells, bind-Tells,
}

module _ {B L : Type 0} (w : World) (rt : Snapshot) (c : Caller B L) where
  otherwise-Tells :
      (x : Result Served) (found : Served → M Served) (rest : M Served)
      → ((out : Served) → Tells (found out))
      → Tells rest
      → Tells (otherwise x found rest)
  otherwise-Tells (ok out) found rest f g = f out
  otherwise-Tells (err e) found rest f g = g

  -- An upstream is asked before, which changes neither.
  asked-Tells :
      (u : Upstream) (fwd : Forward) (m : M Served)
      → Tells m
      → (r : Run) → r.event.outcome ≡ unset
      → let r' = (ask_read w rt c u fwd r).1 in
        (exits (m r').1.trace ≡ exits r.trace) × Told (m r').0 (m r').1.event.outcome
  unfolding exits
  asked-Tells u fwd m f r h =
      let (q, t) = f (ask_read w rt c u fwd r).1 h in (q ∙ exits-quiet r.trace _ refl, t)

  probe-Tells :
      (params : Forward) (ups : List Upstream) (denied : Bool)
      → Tells (probe w rt c params ups denied)
  unfolding probe is_ok_outcome
  probe-Tells params [] true r h = (refl, refl)
  probe-Tells params [] false r h = (refl, rw h refl)
  probe-Tells params (u ∷ ups) denied r h = elim (Bool-cases (may_read w rt c u.id params.name)) [
    | inr e ↦ rw e (probe-Tells params ups true r h)
    | inl e ↦ rw e (
        asked-Tells u params
          (otherwise (ask_read w rt c u params r).0 (found_by w rt c u params.name)
            (probe w rt c params ups denied))
          (otherwise-Tells (ask_read w rt c u params r).0 (found_by w rt c u params.name)
            (probe w rt c params ups denied) (λ out s k. (refl, k)) (probe-Tells params ups denied))
          r h)
  ]

  checked_read-Tells :
      (u : Upstream) (uri asked : Str) (m : M Served)
      → Tells m
      → Tells (checked_read w rt c u uri asked m)
  unfolding is_ok_outcome
  checked_read-Tells u uri asked m f r h = elim (Bool-cases (sees c.tenant u.id)) [
    | inr e ↦ rw e (refl, refl)
    | inl e ↦ elim (Bool-cases (may_read w rt c u.id uri)) [
      | inr a ↦ rw (e, a) (refl, refl)
      | inl a ↦ rw (e, a) (f _ h)
    ]
  ]

  probe_all-Tells : (params : Forward) → Tells (probe_all w rt c params)
  probe_all-Tells params =
      probe-Tells params (visible_upstreams (λ (u : Upstream). u.id) c.tenant rt.routes.upstreams)
        false

  read_or_probe-Tells : (params : Forward) (u : Upstream) → Tells (read_or_probe w rt c params u)
  read_or_probe-Tells params u r h =
      asked-Tells u params
        (otherwise (ask_read w rt c u params r).0 (tagged w rt c u) (probe_all w rt c params))
        (otherwise-Tells (ask_read w rt c u params r).0 (tagged w rt c u) (probe_all w rt c params)
          (λ out s k. (refl, k)) (probe_all-Tells params))
        r h

  read_known-Tells :
      (params : Forward) (known : Option Upstream) → Tells (read_known w rt c params known)
  read_known-Tells params none r h = probe_all-Tells params r h
  read_known-Tells params (some u) r h =
      checked_read-Tells u params.name params.name (read_or_probe w rt c params u)
        (read_or_probe-Tells params u) (record r { event = record r.event { upstream = u.id } }) h

  ask_read-Tells : (u : Upstream) (fwd : Forward) → Tells (ask_read w rt c u fwd)
  unfolding exits
  ask_read-Tells u fwd r h = (exits-quiet r.trace _ refl, unset-Told _ _ h)

  read_owned-Tells :
      (params : Forward) (o : Option (Upstream × Str)) → Tells (read_owned w rt c params o)
  read_owned-Tells params none r h =
      let known = load params.name w.now r.resource_owner in
      read_known-Tells params (elim known.1 [ none ↦ none | some id ↦ lookup id rt.by_id ])
        (record r { resource_owner = known.0 }) h
  read_owned-Tells params (some (u, original)) r h =
      checked_read-Tells u original params.name (read_minted w rt c params original u)
        (bind-Tells (ask_read w rt c u _) (tag_minted w rt c original params.name u)
          (ask_read-Tells u _) (λ out s k. (refl, k)))
        (record r { event = record r.event { upstream = u.id } }) h

  pub read_resource-Tells : (params : Option Forward) → Tells (read_resource w rt c params)
  unfolding read_resource is_ok_outcome
  read_resource-Tells none r h = (refl, rw h refl)
  read_resource-Tells (some params) r h =
      read_owned-Tells (record params { meta = sanitize_request_meta w.keys params.meta })
        (ui_owner rt.routes params.name)
        (record r { event = record r.event { name = params.name } }) h
