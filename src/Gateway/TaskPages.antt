-- ===== src/Gateway/TaskPages.antt =====
-- gateway/tasks.go: `listTasks` as a handler, from the question to every upstream to the encoded
-- page. The fan-out is one order of its calls, and a panic of a worker is an error like any other.
use fold.Prelude.{
  ℤ, List, [], ◌∷◌, ◌++◌, length, Option, none, some, Str, str, is_empty, sort_strings,
  if◌then◌else◌,
}
use fold.Gateway.Errors.{Error, text, wire_error, code_upstream_down, code_invalid_params}
use fold.Gateway.Paginate as Pages
use fold.Gateway.Paginate.{Codec}
use fold.Gateway.Run.{Result, ok, err, asked_task, World, Run, M}
use fold.Gateway.Router.{Upstream, Partial, all_well, some_failed, all_down, partial_failure_meta}
use fold.Gateway.Tenant.Resolve.{visible_upstreams}
use fold.Gateway.Calls.{Snapshot, Caller}
use fold.Gateway.TaskList.{list_tasks}

abbrev pub call_task : World → Str → Str → Str → M Str
call_task w id method raw r = (
  w.ask_task r.trace id method raw,
  record r { trace = r.trace ++ asked_task id method raw ∷ [] },
)

abbrev pub tasks_list : Str
tasks_list = str "tasks/list"

abbrev page_of : Result Str → Option Str
page_of (ok raw) = some raw
page_of (err e) = none

abbrev note_failure : Str → Result Str → List Str → List Str
note_failure id (ok raw) failed = failed
note_failure id (err e) failed = id ∷ failed

-- What the upstreams answer, and the ids of those that failed.
unfoldable pub ask_pages : World → List Upstream → Run → (List (Option Str) × List Str) × Run
ask_pages w [] r = (([], []), r)
ask_pages w (u ∷ ups) r =
    let (x, r') = call_task w u.id tasks_list (str "{}") r in
    let ((pages, failed), r2) = ask_pages w ups r' in
    ((page_of x ∷ pages, note_failure u.id x failed), r2)

unfoldable pub upstream_ids : List Upstream → List Str
upstream_ids [] = []
upstream_ids (u ∷ ups) = u.id ∷ upstream_ids ups

-- `strings.Join` with a comma and a space.
unfoldable pub join_comma : List Str → Str
join_comma [] = []
join_comma (s ∷ []) = s
join_comma (s ∷ t ∷ rest) = s ++ str ", " ++ join_comma (t ∷ rest)

-- The upstreams that the marker of the result names, if it has one.
unfoldable pub failed_upstreams : Partial → Result (Option (List Str))
unfolding join_comma
failed_upstreams all_well = ok none
failed_upstreams (some_failed ids) = ok (some ids)
failed_upstreams (all_down ids) = err (
    wire_error code_upstream_down
      (text (str "all upstreams unavailable: ") ∷ text (join_comma ids) ∷ []))

abbrev pub err_bad_cursor : Error
err_bad_cursor =
    wire_error code_invalid_params
      (text (str "invalid or expired cursor: restart the list from the beginning") ∷ [])

abbrev pub encode_page : World → Option (List Str) → Pages.Result (List Str × Str) → Result Str
encode_page w failed Pages.bad_cursor = err err_bad_cursor
encode_page w failed (Pages.ok (page, next)) =
    w.encode_list page (if is_empty next then none else some next) failed

module _ {B L : Type 0} (w : World) (rt : Snapshot) (c : Caller B L) where
  abbrev pub merge_pages :
      Codec → ℤ → Str → List Upstream → List (Option Str) → Result (Option (List Str)) → M Str
  merge_pages cursors size raw ups pages (err e) r = (err e, r)
  merge_pages cursors size raw ups pages (ok failed) r =
      let (x, m) =
        list_tasks w cursors size c.principal raw (upstream_ids ups) pages r.task_owner in
      (encode_page w failed x, record r { task_owner = m })

  unfoldable pub serve_tasks : Codec → ℤ → Str → M Str
  unfolding ask_pages upstream_ids failed_upstreams
  serve_tasks cursors size raw r =
      let ups = visible_upstreams (λ (u : Upstream). u.id) c.tenant rt.routes.upstreams in
      let ((pages, failed), r') = ask_pages w ups r in
      let outcome = partial_failure_meta (sort_strings failed) (length ups) in
      merge_pages cursors size raw ups pages (failed_upstreams outcome) r'
