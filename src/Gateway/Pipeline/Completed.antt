-- ===== src/Gateway/Pipeline/Completed.antt =====
-- gateway/router.go: what `complete` does to the audit event and to the audit trail.
use fold.Prelude.{
  List, [], ◌∷◌, ◌++◌, Option, none, some, Str, str, str_eq, ◌≡◌, refl, Bool-cases, inl, inr, ◌∙◌,
}
use fold.Gateway.Meta.{sanitize_request_meta}
use fold.Gateway.Run.{CompleteParams, listed_by, World, Run}
use fold.Gateway.Router.{Upstream, resolve}
use fold.Gateway.Tenant.Resolve.{visible_upstreams}
use fold.Gateway.Calls.{Snapshot, Caller, owned, authorize}
use fold.Gateway.Complete.{
  complete, complete_ref, complete_at, complete_prompt, ask_complete, list_all, store_owners,
  store_lists, refresh_owners, indexed_owner, or_refreshed, or_not_found, owner_for_uri,
  first_upstream,
}
use fold.Gateway.Pipeline.Told.{exits, exits-quiet, is_ok_outcome, unset-Told, Tells, bind-Tells}
use fold.Gateway.Pipeline.Invoked.{owned-Tells, authorize_call-Tells}

module _ {B L : Type 0} (w : World) (rt : Snapshot) (sep : Str) (c : Caller B L) where
  Kept : Run → Run → Type 0
  Kept r r' = (exits r'.trace ≡ exits r.trace) × (r'.event ≡ r.event)

  store_owners-Kept :
      (id : Str) (uris : List Str) (r : Run) → Kept r (store_owners w rt sep c id uris r)
  unfolding store_owners Kept
  store_owners-Kept id [] r = (refl, refl)
  store_owners-Kept id (uri ∷ uris) r = store_owners-Kept id uris _

  store_lists-Kept :
      (lists : List (Str × List Str)) (r : Run) → Kept r (store_lists w rt sep c lists r)
  unfolding store_lists Kept
  store_lists-Kept [] r = (refl, refl)
  store_lists-Kept ((id, uris) ∷ lists) r =
      let (a, b) = store_owners-Kept id uris r in
      let (q, e) = store_lists-Kept lists (store_owners w rt sep c id uris r) in (q ∙ a, e ∙ b)

  list_all-Kept : (ups : List Upstream) (r : Run) → Kept r (list_all w rt sep c ups r).1
  unfolding list_all Kept exits
  list_all-Kept [] r = (refl, refl)
  list_all-Kept (u ∷ ups) r =
      let (q, e) = list_all-Kept ups (record r { trace = r.trace ++ listed_by u.id ∷ [] }) in
      (q ∙ exits-quiet r.trace (listed_by u.id) refl, e)

  refresh_owners-Tells : Tells (refresh_owners w rt sep c)
  unfolding refresh_owners Kept
  refresh_owners-Tells r h =
      let ups = visible_upstreams (λ (u : Upstream). u.id) c.tenant rt.routes.upstreams in
      let (a, b) = list_all-Kept ups r in
      let (lists, r') = list_all w rt sep c ups r in
      let (q, e) = store_lists-Kept lists r' in (q ∙ a, rw (e, b) h)

  indexed_owner-Tells : (uri : Str) → Tells (indexed_owner w rt sep c uri)
  unfolding indexed_owner
  indexed_owner-Tells uri r h = (refl, h)

  or_not_found-Tells : (uri : Str) (o : Option Upstream) → Tells (or_not_found w rt sep c uri o)
  unfolding is_ok_outcome
  or_not_found-Tells uri none r h = (refl, rw h refl)
  or_not_found-Tells uri (some u) r h = (refl, h)

  or_refreshed-Tells : (uri : Str) (o : Option Upstream) → Tells (or_refreshed w rt sep c uri o)
  or_refreshed-Tells uri (some u) r h = (refl, h)
  or_refreshed-Tells uri none r h =
      bind-Tells (refresh_owners w rt sep c) _ refresh_owners-Tells
        (λ a.
          bind-Tells (indexed_owner w rt sep c uri) (or_not_found w rt sep c uri)
            (indexed_owner-Tells uri) (or_not_found-Tells uri))
        r h

  first_upstream-Tells :
      (uri : Str) (ups : List Upstream) → Tells (first_upstream w rt sep c uri ups)
  unfolding is_ok_outcome
  first_upstream-Tells uri [] r h = (refl, rw h refl)
  first_upstream-Tells uri (u ∷ ups) r h = (refl, h)

  owner_for_uri-Tells : (uri : Str) → Tells (owner_for_uri w rt sep c uri)
  unfolding owner_for_uri
  owner_for_uri-Tells uri r h = elim (Bool-cases rt.routes.passthrough) [
    | inl e ↦ rw e (first_upstream-Tells uri rt.routes.upstreams r h)
    | inr e ↦ rw e (
        bind-Tells (indexed_owner w rt sep c uri) (or_refreshed w rt sep c uri)
          (indexed_owner-Tells uri) (or_refreshed-Tells uri) r h)
  ]

  ask_complete-Tells :
      (id : Str) (params : CompleteParams) → Tells (ask_complete w rt sep c id params)
  unfolding exits
  ask_complete-Tells id params r h = (exits-quiet r.trace _ refl, unset-Told _ _ h)

  complete_at-Tells :
      (u : Upstream) (method name : Str) (params : CompleteParams)
      → Tells (complete_at w rt sep c u method name params)
  unfolding authorize
  complete_at-Tells u method name params r h =
      bind-Tells (authorize w rt sep c u method name) _
        (authorize_call-Tells w rt sep c u method name _)
        (λ a.
          bind-Tells (ask_complete w rt sep c u.id params) _ (ask_complete-Tells u.id params)
            (λ out s k. (refl, k)))
        (record r { event = record r.event { upstream = u.id } }) h

  complete_prompt-Tells :
      (params : CompleteParams) (o : Upstream × Str) → Tells (complete_prompt w rt sep c params o)
  complete_prompt-Tells params (u, bare) = complete_at-Tells u (str "prompts/get") bare _

  named : Str → Run → Run
  named name r = record r { event = record r.event { name = name } }

  complete_ref-Tells : (params : CompleteParams) → Tells (complete_ref w rt sep c params)
  unfolding is_ok_outcome named
  complete_ref-Tells params r h = elim (Bool-cases (str_eq params.ref_type (str "ref/prompt"))) [
    | inl e ↦ rw e (
        bind-Tells (owned params.ref_name (resolve rt.routes sep params.ref_name)) _
          (owned-Tells params.ref_name (resolve rt.routes sep params.ref_name))
          (complete_prompt-Tells params) (named params.ref_name r) h)
    | inr e ↦ elim (Bool-cases (str_eq params.ref_type (str "ref/resource"))) [
      | inl a ↦
          rw (e, a)
            (bind-Tells (owner_for_uri w rt sep c params.ref_uri) _
              (owner_for_uri-Tells params.ref_uri)
              (λ u. complete_at-Tells u (str "resources/read") params.ref_uri params)
              (named params.ref_uri r) h)
      | inr a ↦ rw (e, a) (refl, rw h refl)
    ]
  ]

  pub complete-Tells : (params : Option CompleteParams) → Tells (complete w rt sep c params)
  unfolding complete is_ok_outcome
  complete-Tells none r h = (refl, rw h refl)
  complete-Tells (some params) r h =
      complete_ref-Tells (record params { meta = sanitize_request_meta w.keys params.meta }) r h
