-- ===== src/Gateway/TaskRoutes/Safety.antt =====
-- gateway/tasks.go: a task of another caller, or of an upstream outside the caller's subset, is
-- answered like an unknown one.
use fold.Prelude.{
  ℤ, Bool, true, false, not, ◌||◌, [], ◌∷◌, Option, none, some, Str, str_eq, is_empty, ◌≡◌, refl,
}
use fold.Gateway.Run.{err, World, Run}
use fold.Gateway.Tenant.Resolve.{sees}
use fold.Gateway.Calls.{Snapshot, Caller}
use fold.Gateway.Paginate.{Codec}
use fold.Gateway.TaskPages.{tasks_list}
use fold.Gateway.Tasks.{TaskRecord, load_owner}
use fold.Gateway.Tasks.Owners.{recorded, load_owner-recorded}
use fold.Gateway.TaskRoutes.{hides, not_found, sanitize_raw_meta, route_one, route_task, by_record}

module _ {B L : Type 0} (w : World) (rt : Snapshot) (c : Caller B L) where
  -- The record keeps the task from this caller.
  abbrev pub withheld : Option TaskRecord → Bool
  withheld none = false
  withheld (some rec) = hides w rt c rec || not (sees c.tenant rec.upstream_id)

  by_record-withheld :
      (task_id method raw : Str) (rec : Option TaskRecord) (r : Run)
      → withheld rec ≡ true
      → by_record w rt c task_id method raw rec r ≡ (err (not_found task_id), r)
  by_record-withheld task_id method raw none r h = cc
  by_record-withheld task_id method raw (some rec) r h = rw h refl

  route_one-withheld :
      (method raw task_id : Str) (r : Run)
      → is_empty task_id ≡ false
      → withheld (recorded w task_id r.task_owner) ≡ true
      → ((route_one w rt c method raw task_id r).0 ≡ err (not_found task_id))
        × ((route_one w rt c method raw task_id r).1.trace ≡ r.trace)
        × (recorded w task_id (route_one w rt c method raw task_id r).1.task_owner
            ≡ recorded w task_id r.task_owner)
  route_one-withheld method raw [] r e h = cc
  route_one-withheld method raw (b ∷ id) r e h =
      let (found, same) = load_owner-recorded w (b ∷ id) r.task_owner in
      let (m, rec) = load_owner w (b ∷ id) r.task_owner in
      rw (by_record-withheld (b ∷ id) method raw rec (record r { task_owner = m }) (rw found h))
        (refl, refl, same)

  -- In every task method but tasks/list, a task whose record names another caller, or an upstream that
  -- the tenant does not see, is answered with the error for a task that nobody owns; no upstream is
  -- asked, and the record stays.
  pub route_task-withheld :
      (cursors : Codec) (size : ℤ) (method raw : Str) (r : Run)
      → str_eq method tasks_list ≡ false
      → is_empty (w.task_id (sanitize_raw_meta w raw)) ≡ false
      → withheld (recorded w (w.task_id (sanitize_raw_meta w raw)) r.task_owner) ≡ true
      → ((route_task w rt c cursors size method raw r).0
          ≡ err (not_found (w.task_id (sanitize_raw_meta w raw))))
        × ((route_task w rt c cursors size method raw r).1.trace ≡ r.trace)
        × (recorded w
              (w.task_id (sanitize_raw_meta w raw))
              (route_task w rt c cursors size method raw r).1.task_owner
            ≡ recorded w (w.task_id (sanitize_raw_meta w raw)) r.task_owner)
  unfolding route_task
  route_task-withheld cursors size method raw r other e h =
      let clean = sanitize_raw_meta w raw in
      rw other (route_one-withheld method clean (w.task_id clean) r e h)
