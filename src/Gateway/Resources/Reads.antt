-- ===== src/Gateway/Resources/Reads.antt =====
-- gateway/router.go: which upstreams a `resources/read` asks, on every path.
use fold.Prelude.{
  Bool, true, false, ◌&&◌, List, [], ◌∷◌, ◌++◌, all, keep, Option, none, some, Str, str_eq,
  str_eq_refl, lookup, ◌≡◌, refl, arith, Bool-cases, inl, inr,
}
use fold.State.Bounded.{load}
use fold.Gateway.Run.{Forward, Served, Result, ok, err, called, World, Run, M, resume}
use fold.Gateway.Router.{Upstream}
use fold.Gateway.Tenant.Resolve.{sees, visible_upstreams}
use fold.Gateway.Tenant.Reload.{visible_upstreams-sees}
use fold.Gateway.Hook.Verdict.{calls, calls-append}
use fold.Gateway.Calls.{Snapshot, Caller}
use fold.Gateway.Calls.Reached.{Call}
use fold.Gateway.Meta.{sanitize_request_meta}
use fold.Gateway.Resources.{
  read_method, may_read, ask_read, found_by, tagged, checked_read, probe, probe_all, read_known,
  read_owned, read_or_probe, read_minted, tag_minted, read_resource, ui_owner, otherwise,
}

all-append {ℓ} :
    {A : Type ℓ} (p : A → Bool) (xs ys : List A) → all p (xs ++ ys) ≡ (all p xs && all p ys)
all-append p [] ys = refl
all-append p (x ∷ xs) ys = ground (arith, all-append p xs ys)

module _ {B L : Type 0} (w : World) (rt : Snapshot) (c : Caller B L) where
  -- A call that the caller's tenant and its policy admit.
  abbrev pub admitted_read : Call → Bool
  admitted_read (id, method, fwd) =
      str_eq method read_method && sees c.tenant id && may_read w rt c id fwd.name

  abbrev pub Admitted : Run → Type 0
  Admitted r = all admitted_read (calls r.trace) ≡ true

  ask_read-Admitted :
      (u : Upstream) (fwd : Forward) (r : Run)
      → sees c.tenant u.id ≡ true
      → may_read w rt c u.id fwd.name ≡ true
      → Admitted r
      → Admitted (ask_read w rt c u fwd r).1
  unfolding calls
  ask_read-Admitted u fwd r s m h =
      rw
        (
          calls-append r.trace (called u.id read_method fwd ∷ []),
          all-append admitted_read (calls r.trace) ((u.id, read_method, fwd) ∷ []),
          h,
          s,
          m,
          str_eq_refl read_method,
        )
        refl

  abbrev Admits : M Served → Type 0
  Admits m = (r : Run) → Admitted r → Admitted (m r).1

  otherwise-Admits :
      {A : Type 0} (x : Result A) (found : A → M Served) (rest : M Served)
      → ((a : A) → Admits (found a))
      → Admits rest
      → Admits (otherwise x found rest)
  otherwise-Admits (ok a) found rest f g = f a
  otherwise-Admits (err e) found rest f g = g

  -- The loop over upstreams that the tenant sees.
  probe-Admits :
      (params : Forward) (ups : List Upstream) (denied : Bool)
      → all (λ (u : Upstream). sees c.tenant u.id) ups ≡ true
      → Admits (probe w rt c params ups denied)
  unfolding probe
  probe-Admits params [] true s r h = h
  probe-Admits params [] false s r h = h
  probe-Admits params (u ∷ ups) denied s r h =
      elim (Bool-cases (may_read w rt c u.id params.name)) [
        | inr e ↦ rw e (probe-Admits params ups true (ground arith) r h)
        | inl e ↦ rw e (
            otherwise-Admits (ask_read w rt c u params r).0 (found_by w rt c u params.name)
              (probe w rt c params ups denied) (λ a t k. k)
              (probe-Admits params ups denied (ground arith)) (ask_read w rt c u params r).1
              (ask_read-Admitted u params r (ground arith) e h))
      ]

  all_kept :
      (ups : List Upstream)
      → all (λ (u : Upstream). sees c.tenant u.id) (keep (λ (u : Upstream). sees c.tenant u.id) ups)
        ≡ true
  all_kept [] = refl
  all_kept (u ∷ ups) = ground (arith, all_kept ups)

  probe_all-Admits : (params : Forward) → Admits (probe_all w rt c params)
  probe_all-Admits params =
      probe-Admits params (visible_upstreams (λ (u : Upstream). u.id) c.tenant rt.routes.upstreams)
        false
        (rw (visible_upstreams-sees (λ (u : Upstream). u.id) c.tenant rt.routes.upstreams)
          (all_kept rt.routes.upstreams))

  -- A read of a known owner comes after the two checks.
  checked_read-Admits :
      (u : Upstream) (uri asked : Str) (m : M Served)
      → (sees c.tenant u.id ≡ true → may_read w rt c u.id uri ≡ true → Admits m)
      → Admits (checked_read w rt c u uri asked m)
  checked_read-Admits u uri asked m f r h = elim (Bool-cases (sees c.tenant u.id)) [
    | inr e ↦ rw e h
    | inl e ↦ elim (Bool-cases (may_read w rt c u.id uri)) [
      | inr a ↦ rw (e, a) h
      | inl a ↦ rw (e, a) (f e a _ h)
    ]
  ]

  routed : Upstream → Run → Run
  routed u r = record r { event = record r.event { upstream = u.id } }

  read_or_probe-Admits :
      (params : Forward) (u : Upstream)
      → sees c.tenant u.id ≡ true
      → may_read w rt c u.id params.name ≡ true
      → Admits (read_or_probe w rt c params u)
  read_or_probe-Admits params u s m r h =
      let (x, r') = ask_read w rt c u params r in
      otherwise-Admits x (tagged w rt c u) (probe_all w rt c params) (λ a t k. k)
        (probe_all-Admits params) r' (ask_read-Admitted u params r s m h)

  read_known-Admits :
      (params : Forward) (known : Option Upstream) → Admits (read_known w rt c params known)
  unfolding routed
  read_known-Admits params none r h = probe_all-Admits params r h
  read_known-Admits params (some u) r h =
      checked_read-Admits u params.name params.name (read_or_probe w rt c params u)
        (read_or_probe-Admits params u) (routed u r) h

  resume-Admits :
      {A : Type 0} (x : Result A) (k : A → M Served)
      → ((a : A) → Admits (k a))
      → Admits (resume k x)
  resume-Admits (ok a) k f r h = f a r h
  resume-Admits (err e) k f r h = h

  read_minted-Admits :
      (params : Forward) (original : Str) (u : Upstream)
      → sees c.tenant u.id ≡ true
      → may_read w rt c u.id original ≡ true
      → Admits (read_minted w rt c params original u)
  read_minted-Admits params original u s m r h =
      let fwd = record params { name = original } in
      let (x, r') = ask_read w rt c u fwd r in
      resume-Admits x (tag_minted w rt c original params.name u) (λ a t k. k) r'
        (ask_read-Admitted u fwd r s m h)

  read_owned-Admits :
      (params : Forward) (o : Option (Upstream × Str)) → Admits (read_owned w rt c params o)
  unfolding routed
  read_owned-Admits params none r h =
      let known = load params.name w.now r.resource_owner in
      read_known-Admits params (elim known.1 [ none ↦ none | some id ↦ lookup id rt.by_id ])
        (record r { resource_owner = known.0 }) h
  read_owned-Admits params (some (u, original)) r h =
      checked_read-Admits u original params.name (read_minted w rt c params original u)
        (read_minted-Admits params original u) (routed u r) h

  -- Every upstream that `resources/read` asks is one that the caller's tenant sees, and it is asked
  -- only for a URI that the policy lets the caller read from it: by a minted URI, by a remembered
  -- owner or in the probe, whatever the other upstreams have answered.
  pub read_resource-Admitted :
      (params : Option Forward) (r : Run)
      → all admitted_read (calls r.trace) ≡ true
      → all admitted_read (calls (read_resource w rt c params r).1.trace) ≡ true
  unfolding read_resource
  read_resource-Admitted none r h = h
  read_resource-Admitted (some params) r h =
      read_owned-Admits (record params { meta = sanitize_request_meta w.keys params.meta })
        (ui_owner rt.routes params.name)
        (record r { event = record r.event { name = params.name } }) h
