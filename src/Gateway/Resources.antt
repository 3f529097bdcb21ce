-- ===== src/Gateway/Resources.antt =====
-- gateway/uiresource.go: the minted `ui://` URIs; and `readResource` of gateway/router.go.
pub mod Uris
pub mod Reads
use fold.Prelude.{
  Bool, true, false, not, ◌&&◌, ◌||◌, List, [], ◌∷◌, ◌++◌, map, drop, length, Option, none, some,
  Str, str, str_eq, has_prefix, Dict, lookup, is_empty, pos, if◌then◌else◌,
}
use fold.Audit.{Event}
use fold.State.Bounded.{load, store}
use fold.Policy.Engine.{Decision, decide}
use fold.Gateway.Errors.{
  Error, Piece, text, quoted, wire_error, code_denied, code_invalid_params, err_outside_subset,
}
use fold.Gateway.Meta.{sanitize_request_meta, tag_upstream}
use fold.Gateway.Run.{
  Forward, Served, Result, ok, err, World, Run, M, ◌>>=◌, ◌>>◌, resume, pure, throw, record_event,
  ask_upstream,
}
use fold.Gateway.Router.{Upstream, Routes, cut}
use fold.Gateway.Tenant.Resolve.{sees, visible_upstreams}
use fold.Gateway.Calls.{Snapshot, Caller, tenant_id, deny_event, ask_of}

abbrev pub ui_scheme : Str
ui_scheme = str "ui://"

abbrev pub ui_mint_host : Str
ui_mint_host = str "fold"

abbrev pub slash : Str
slash = str "/"

abbrev pub ui_prefix : Str
ui_prefix = ui_scheme ++ (ui_mint_host ++ slash)

unfoldable pub is_ui_uri : Str → Bool
is_ui_uri uri = has_prefix uri ui_scheme

unfoldable pub mint_ui_uri : Str → Str → Str
unfolding is_ui_uri
mint_ui_uri namespace uri =
    if is_empty namespace || not (is_ui_uri uri)
    then uri
    else ui_prefix ++ (namespace ++ (slash ++ drop (length ui_scheme) uri))

abbrev pub checked_parts : Option (Str × Str) → Option (Str × Str)
checked_parts none = none
checked_parts (some (ns, rest)) =
    if is_empty ns || is_empty rest then none else some (ns, ui_scheme ++ rest)

unfoldable pub split_ui_uri : Str → Option (Str × Str)
unfolding cut
split_ui_uri uri =
    if has_prefix uri ui_prefix
    then checked_parts (cut (drop (length ui_prefix) uri) slash)
    else none

abbrev pub owner_of_parts : Dict Upstream → Option (Str × Str) → Option (Upstream × Str)
owner_of_parts d none = none
owner_of_parts d (some (ns, original)) = elim (lookup ns d) [
  | none ↦ none
  | some u ↦ some (u, original)
]

unfoldable pub ui_owner : Routes → Str → Option (Upstream × Str)
unfolding split_ui_uri
ui_owner rt uri = if rt.passthrough then none else owner_of_parts rt.by_namespace (split_ui_uri uri)

-- The contents that carry the upstream's own URI get the one that was asked for.
unfoldable pub mint_read_result : Str → Str → Served → Served
mint_read_result original minted out =
    let renamed = λ (c : Str × Str). if str_eq c.0 original then (minted, c.1) else c in
    record out { resources = map renamed out.resources }

-- What follows an attempt: its result, or another attempt.
abbrev pub otherwise : {A B : Type 0} → Result A → (A → M B) → M B → M B
otherwise (ok a) found rest = found a
otherwise (err e) found rest = rest

abbrev pub read_denial : Str → Error
read_denial uri =
    wire_error code_denied (text (str "policy denied resources/read ") ∷ quoted uri ∷ [])

abbrev pub read_method : Str
read_method = str "resources/read"

module _ {B L : Type 0} (w : World) (rt : Snapshot) (c : Caller B L) where
  unfoldable pub may_read : Str → Str → Bool
  may_read id uri = (decide rt.policy (ask_of c.principal id read_method uri)).allowed

  abbrev pub refuse_read : Error → M Served
  refuse_read e = do record_event deny_event; throw e

  abbrev pub tagged : Upstream → Served → M Served
  tagged u out = pure (record out { meta = tag_upstream w.keys u.id out.meta })

  abbrev pub ask_read : Upstream → Forward → M Served
  ask_read u fwd = ask_upstream w u.id read_method fwd

  abbrev pub allow_event : Event → Event
  allow_event e = record e { decision = str "allow" }

  abbrev pub route_to : Upstream → M (Unit {0})
  route_to u = record_event (λ (e : Event). record e { upstream = u.id })

  -- The two checks before a read of a known owner, by the owner's URI and the caller's.
  abbrev pub checked_read : Upstream → Str → Str → M Served → M Served
  checked_read u uri asked m =
      if not (sees c.tenant u.id)
      then refuse_read (err_outside_subset (tenant_id c.tenant) read_method uri u.id)
      else if not (may_read u.id uri)
      then refuse_read (read_denial asked)
      else record_event allow_event >> m

  abbrev pub remember_owner : Str → Str → M (Unit {0})
  remember_owner uri id r =
      (ok tt, record r { resource_owner = store uri id (pos 0) w.now r.resource_owner })

  abbrev pub found_by : Upstream → Str → Served → M Served
  found_by u uri out = do
    remember_owner uri u.id
    route_to u
    record_event allow_event
    tagged u out

  -- The loop over the upstreams that the caller may read from; `denied` remembers a refusal.
  unfoldable pub probe : Forward → List Upstream → Bool → M Served
  unfolding may_read
  probe params [] denied =
      if denied
      then refuse_read (read_denial params.name)
      else throw (w.resource_not_found params.name)
  probe params (u ∷ ups) denied =
      let next = probe params ups denied in
      let skipped = probe params ups true in
      let tried : M Served = λ r.
        otherwise (ask_read u params r).0 (found_by u params.name) next (ask_read u params r).1 in
      if may_read u.id params.name then tried else skipped

  abbrev pub probe_all : Forward → M Served
  probe_all params =
      probe params (visible_upstreams (λ (u : Upstream). u.id) c.tenant rt.routes.upstreams) false

  abbrev pub known_owner : Str → M (Option Upstream)
  known_owner uri r =
      let (m, found) = load uri w.now r.resource_owner in
      (
        ok (elim found [ none ↦ none | some id ↦ lookup id rt.by_id ]),
        record r { resource_owner = m },
      )

  abbrev pub read_or_probe : Forward → Upstream → M Served
  read_or_probe params u r =
      let (x, r') = ask_read u params r in otherwise x (tagged u) (probe_all params) r'

  abbrev pub tag_minted : Str → Str → Upstream → Served → M Served
  tag_minted original asked u out = tagged u (mint_read_result original asked out)

  abbrev pub read_minted : Forward → Str → Upstream → M Served
  read_minted params original u =
      ask_read u (record params { name = original }) >>= tag_minted original params.name u

  -- A remembered owner that fails is followed by the probe.
  abbrev pub read_known : Forward → Option Upstream → M Served
  read_known params none = probe_all params
  read_known params (some u) = do
    route_to u
    checked_read u params.name params.name (read_or_probe params u)

  -- A minted URI names its owner, whose failure is the answer.
  abbrev pub read_owned : Forward → Option (Upstream × Str) → M Served
  read_owned params none = known_owner params.name >>= read_known params
  read_owned params (some (u, original)) = do
    route_to u
    checked_read u original params.name (read_minted params original u)

  unfoldable pub read_resource : Option Forward → M Served
  unfolding may_read probe
  read_resource none =
      throw (wire_error code_invalid_params (text (str "missing resource uri") ∷ []))
  read_resource (some params) = do
    record_event (λ (e : Event). record e { name = params.name })
    read_owned (record params { meta = sanitize_request_meta w.keys params.meta })
        (ui_owner rt.routes params.name)
