-- ===== src/Gateway/TaskRoutes.antt =====
-- gateway/tasks.go: `routeTask` and `locateTaskOwner`; `sanitizeRawMeta` of
-- gateway/meta.go. A raw message is its bytes, and empty for nil.
pub mod Safety
use fold.Prelude.{
  ℤ, Bool, true, false, not, ◌&&◌, ◌||◌, List, [], ◌∷◌, ◌++◌, Option, none, some, present, Str, str,
  str_eq, Dict, lookup, insert, erase, is_empty, if◌then◌else◌,
}
use fold.State.Bounded.{Bounded}
use fold.State.Stores.{get}
use fold.Gateway.Errors.{
  Error, Piece, text, quoted, wire_error, code_task_not_found, code_invalid_params,
}
use fold.Gateway.Meta.{SdkKeys, connection_request_meta_keys, skip_raw_scan}
use fold.Gateway.Run.{
  Result, ok, err, Effect, asked_task, World, Run, M, ◌>>=◌, ◌>>◌, resume, pure, throw,
}
use fold.Gateway.Router.{Upstream}
use fold.Gateway.Tenant.Resolve.{sees, visible_upstreams}
use fold.Gateway.Calls.{Snapshot, Caller}
use fold.Gateway.Paginate.{Codec}
use fold.Gateway.TaskPages.{call_task, tasks_list, serve_tasks}
use fold.Gateway.Tasks.{
  TaskRecord, task_owner_key, task_key, decoded, load_owner, put_owner, merge_task_owner,
  store_task_affinity,
}

unfoldable pub erase_keys : List Str → Dict Str → Dict Str
erase_keys [] d = d
erase_keys (k ∷ keys) d = erase_keys keys (erase k d)

-- The bytes that the codec gives, or the bytes as they came.
abbrev pub or_raw : Str → Option Str → Str
or_raw raw none = raw
or_raw raw (some out) = out

abbrev pub put_meta : World → Dict Str → Dict Str → Option (Dict Str)
put_meta w params [] = some (erase (str "_meta") params)
put_meta w params (kv ∷ meta) = elim (w.encode_object (kv ∷ meta)) [
  | none ↦ none
  | some encoded ↦ some (insert (str "_meta") encoded params)
]

abbrev pub encode_params : World → Str → Option (Dict Str) → Str
encode_params w raw none = raw
encode_params w raw (some params) = or_raw raw (w.encode_object params)

abbrev pub without_keys : World → Str → Dict Str → Option (Dict Str) → Str
without_keys w raw params none = raw
without_keys w raw params (some meta) =
    encode_params w raw (put_meta w params (erase_keys (connection_request_meta_keys w.keys) meta))

abbrev pub decode_meta : World → Option Str → Option (Dict Str)
decode_meta w none = none
decode_meta w (some raw_meta) = w.decode_object raw_meta

abbrev pub sanitize_object : World → Str → Option (Dict Str) → Str
sanitize_object w raw none = raw
sanitize_object w raw (some params) =
    without_keys w raw params (decode_meta w (lookup (str "_meta") params))

unfoldable pub sanitize_raw_meta : World → Str → Str
unfolding erase_keys
sanitize_raw_meta w raw =
    if skip_raw_scan raw then raw else sanitize_object w raw (w.decode_object raw)

abbrev pub tasks_get : Str
tasks_get = str "tasks/get"

abbrev pub not_found : Str → Error
not_found task_id =
    wire_error code_task_not_found (text (str "no upstream owns task ") ∷ quoted task_id ∷ [])

-- A probe is answered by a result that is not nil.
abbrev pub is_answer : Result Str → Bool
is_answer (ok raw) = not (is_empty raw)
is_answer (err e) = false

module _ {B L : Type 0} (w : World) (rt : Snapshot) (c : Caller B L) where
  -- Every upstream is probed, and the first that answers is the owner.
  unfoldable pub locate : Str → List Upstream → Run → Option Upstream × Run
  locate probe [] r = (none, r)
  locate probe (u ∷ ups) r =
      let (x, r') = call_task w u.id tasks_get probe r in
      let (later, r2) = locate probe ups r' in (if is_answer x then some u else later, r2)

  unfoldable pub locate_task_owner : Str → M (Option Upstream)
  unfolding locate
  locate_task_owner task_id r =
      let (found, r') =
        locate (w.encode_task_id task_id)
          (visible_upstreams (λ (u : Upstream). u.id) c.tenant rt.routes.upstreams) r in
      (ok found, r')

  -- A task found by the probe has no owner.
  abbrev pub pin : Str → Str → M (Unit {0})
  pin task_id id r =
      (ok tt, record r { task_owner = store_task_affinity w task_id id [] r.task_owner })

  abbrev pub act_on_owner : Str → Str → Str → Option Upstream → M Str
  act_on_owner task_id method raw none = throw (not_found task_id)
  act_on_owner task_id method raw (some u) = do pin task_id u.id; call_task w u.id method raw

  abbrev pub by_probe : Str → Str → Str → M Str
  by_probe task_id method raw = locate_task_owner task_id >>= act_on_owner task_id method raw

  abbrev pub refresh : Str → TaskRecord → M (Unit {0})
  refresh task_id rec r = (ok tt, record r { task_owner = put_owner w task_id rec r.task_owner })

  abbrev pub at_owner : Str → Str → Str → TaskRecord → Option Upstream → M Str
  at_owner task_id method raw rec none = by_probe task_id method raw
  at_owner task_id method raw rec (some u) = do refresh task_id rec; call_task w u.id method raw

  unfoldable pub hides : TaskRecord → Bool
  hides rec = not (is_empty rec.owner) && not (str_eq rec.owner (task_owner_key w c.principal))

  abbrev pub by_record : Str → Str → Str → Option TaskRecord → M Str
  by_record task_id method raw none = by_probe task_id method raw
  by_record task_id method raw (some rec) =
      if hides rec || not (sees c.tenant rec.upstream_id)
      then throw (not_found task_id)
      else at_owner task_id method raw rec (lookup rec.upstream_id rt.by_id)

  abbrev pub known_record : Str → M (Option TaskRecord)
  known_record task_id r =
      let (m, found) = load_owner w task_id r.task_owner in (ok found, record r { task_owner = m })

  abbrev pub route_one : Str → Str → Str → M Str
  route_one method raw [] =
      throw (wire_error code_invalid_params (text (str "task method requires a taskId") ∷ []))
  route_one method raw (b ∷ id) = known_record (b ∷ id) >>= by_record (b ∷ id) method raw

  -- A list is of every upstream that the caller sees; any other method names one task.
  unfoldable pub route_task : Codec → ℤ → Str → Str → M Str
  unfolding sanitize_raw_meta hides locate_task_owner serve_tasks
  route_task cursors size method raw =
      let clean = sanitize_raw_meta w raw in
      let one = route_one method clean (w.task_id clean) in
      let many = serve_tasks w rt c cursors size clean in
      if str_eq method tasks_list then many else one
