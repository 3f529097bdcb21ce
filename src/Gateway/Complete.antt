-- ===== src/Gateway/Complete.antt =====
-- gateway/router.go: `complete`; and `ownerForURI` of gateway/gateway.go, which finds the upstream of
-- a resource by the index of owners, after a refresh by the lists of the upstreams if need be.
use fold.Prelude.{
  List, [], ◌∷◌, ◌++◌, Option, none, some, Str, str, str_eq, lookup, pos, if◌then◌else◌,
}
use fold.Audit.{Event}
use fold.State.Bounded.{load, store}
use fold.Gateway.Errors.{text, quoted, wire_error, code_invalid_params}
use fold.Gateway.Meta.{sanitize_request_meta, strip_result_meta}
use fold.Gateway.Run.{
  Served, CompleteParams, Result, ok, err, completed, listed_by, World, Run, M, ◌>>=◌, ◌>>◌, pure,
  throw, record_event,
}
use fold.Gateway.Router.{Upstream, resolve}
use fold.Gateway.Tenant.Resolve.{sees, visible_upstreams}
use fold.Gateway.Calls.{Snapshot, Caller, owned, authorize}

abbrev pub uris_of : Result (List Str) → List Str
uris_of (ok uris) = uris
uris_of (err e) = []

module _ {B L : Type 0} (w : World) (rt : Snapshot) (sep : Str) (c : Caller B L) where
  abbrev pub known_upstream : Option Str → Option Upstream
  known_upstream none = none
  known_upstream (some id) = elim (lookup id rt.by_id) [
    | none ↦ none
    | some u ↦ if sees c.tenant id then some u else none
  ]

  -- The owner in the index, if the snapshot has it and the tenant sees it.
  unfoldable pub indexed_owner : Str → M (Option Upstream)
  indexed_owner uri r =
      let (m, found) = load uri w.now r.resource_owner in
      (ok (known_upstream found), record r { resource_owner = m })

  unfoldable pub store_owners : Str → List Str → Run → Run
  store_owners id [] r = r
  store_owners id (uri ∷ uris) r =
      store_owners id uris
        (record r { resource_owner = store uri id (pos 0) w.now r.resource_owner })

  -- The lists of a fan-out, each under the id of its upstream; one that failed is empty.
  unfoldable pub list_all : List Upstream → Run → List (Str × List Str) × Run
  list_all [] r = ([], r)
  list_all (u ∷ ups) r =
      let uris = uris_of (w.list_uris r.trace u.id) in
      let (lists, r') = list_all ups (record r { trace = r.trace ++ listed_by u.id ∷ [] }) in
      ((u.id, uris) ∷ lists, r')

  unfoldable pub store_lists : List (Str × List Str) → Run → Run
  unfolding store_owners
  store_lists [] r = r
  store_lists ((id, uris) ∷ lists) r = store_lists lists (store_owners id uris r)

  unfoldable pub refresh_owners : M (Unit {0})
  unfolding list_all store_lists
  refresh_owners r =
      let (lists, r') =
        list_all (visible_upstreams (λ (u : Upstream). u.id) c.tenant rt.routes.upstreams) r in
      (ok tt, store_lists lists r')

  abbrev pub or_not_found : Str → Option Upstream → M Upstream
  or_not_found uri none = throw (w.resource_not_found uri)
  or_not_found uri (some u) = pure u

  abbrev pub or_refreshed : Str → Option Upstream → M Upstream
  or_refreshed uri (some u) = pure u
  or_refreshed uri none = do refresh_owners; found ← indexed_owner uri; or_not_found uri found

  -- In passthrough mode there is one upstream.
  abbrev pub first_upstream : Str → List Upstream → M Upstream
  first_upstream uri [] = throw (w.resource_not_found uri)
  first_upstream uri (u ∷ ups) = pure u

  unfoldable pub owner_for_uri : Str → M Upstream
  unfolding indexed_owner refresh_owners
  owner_for_uri uri =
      if rt.routes.passthrough
      then first_upstream uri rt.routes.upstreams
      else indexed_owner uri >>= or_refreshed uri

  abbrev pub name_ref : Str → M (Unit {0})
  name_ref name = record_event (λ (e : Event). record e { name = name })

  abbrev pub ask_complete : Str → CompleteParams → M Served
  ask_complete id params r =
      (w.complete_with r.trace id params, record r { trace = r.trace ++ completed id params ∷ [] })

  -- The invocation that stands for a reference, and the parameters that go to its upstream.
  abbrev pub complete_at : Upstream → Str → Str → CompleteParams → M Served
  complete_at u method name params = do
    record_event (λ (e : Event). record e { upstream = u.id })
    authorize w rt sep c u method name
    out ← ask_complete u.id params
    pure (record out { meta = strip_result_meta w.keys out.meta })

  abbrev pub complete_prompt : CompleteParams → Upstream × Str → M Served
  complete_prompt params (u, bare) =
      complete_at u (str "prompts/get") bare (record params { ref_name = bare })

  abbrev pub complete_resource : CompleteParams → Upstream → M Served
  complete_resource params u = complete_at u (str "resources/read") params.ref_uri params

  abbrev pub complete_prompt_ref : CompleteParams → M Served
  complete_prompt_ref params = do
    name_ref params.ref_name
    o ← owned params.ref_name (resolve rt.routes sep params.ref_name)
    complete_prompt params o

  abbrev pub complete_resource_ref : CompleteParams → M Served
  complete_resource_ref params = do
    name_ref params.ref_uri
    u ← owner_for_uri params.ref_uri
    complete_resource params u

  abbrev pub complete_ref : CompleteParams → M Served
  complete_ref params =
      if str_eq params.ref_type (str "ref/prompt")
      then complete_prompt_ref params
      else if str_eq params.ref_type (str "ref/resource")
      then complete_resource_ref params
      else throw (
          wire_error code_invalid_params
            (text (str "unknown completion ref type ") ∷ quoted params.ref_type ∷ []))

  -- `none` is a request without a reference.
  unfoldable pub complete : Option CompleteParams → M Served
  unfolding owner_for_uri authorize
  complete none = throw (wire_error code_invalid_params (text (str "missing completion ref") ∷ []))
  complete (some params) =
      complete_ref (record params { meta = sanitize_request_meta w.keys params.meta })
