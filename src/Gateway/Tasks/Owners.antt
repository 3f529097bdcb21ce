-- ===== src/Gateway/Tasks/Owners.antt =====
-- gateway/tasks.go: an owner on record stays, whoever finds the task again.
use fold.Prelude.{
  if◌then◌else◌, false, Option, none, some, Str, str_eq_refl, is_empty, ◌≡◌, refl, ◌∙◌, ap,
  Option-cases, inl, inr,
}
use fold.State.Bounded.{Bounded, store}
use fold.State.Bounded.View.{view, load-view, store-view}
use fold.State.Stores.{get, set}
use fold.Gateway.Run.{World}
use fold.Gateway.Tasks.{
  TaskRecord, task_key, decoded, load_owner, put_owner, merge_task_owner, store_task_affinity,
  task_owner_ttl,
}

-- The record of a task that reads would find now.
unfoldable pub recorded : World → Str → Bounded Str → Option TaskRecord
recorded w task_id m = decoded w (view m w.now (task_key w task_id))

pub load_owner-recorded :
    (w : World) (task_id : Str) (m : Bounded Str)
    → ((load_owner w task_id m).1 ≡ recorded w task_id m)
      × (recorded w task_id (load_owner w task_id m).0 ≡ recorded w task_id m)
unfolding load_owner recorded get
load_owner-recorded w task_id m =
    let (found, same) = load-view (task_key w task_id) w.now m (task_key w task_id) in
    (ap (decoded w) found, ap (decoded w) same)

-- `encoding/json` reads back what it writes.
abbrev pub DecodesTasks : World → Type 0
DecodesTasks w =
    (upstream owner bytes : Str)
    → w.encode_task upstream owner ≡ some bytes
    → w.decode_task bytes ≡ some (upstream, owner)

put_owner-recorded :
    (w : World) (codec : DecodesTasks w) (task_id : Str) (rec : TaskRecord) (m : Bounded Str)
    → is_empty rec.upstream_id ≡ false
    → (bytes : Str) → w.encode_task rec.upstream_id rec.owner ≡ some bytes
    → recorded w task_id (put_owner w task_id rec m) ≡ some rec
unfolding put_owner recorded set
put_owner-recorded w codec task_id rec m ne bytes e =
    let key = task_key w task_id in
    let stored : view (store key bytes task_owner_ttl w.now m) w.now key ≡ some bytes =
      store-view key bytes task_owner_ttl w.now m key ∙ rw (str_eq_refl key) refl in
    rw (e, stored, codec rec.upstream_id rec.owner bytes e, ne) refl

put_owner-unencoded :
    (w : World) (task_id : Str) (rec : TaskRecord) (m : Bounded Str)
    → w.encode_task rec.upstream_id rec.owner ≡ none
    → put_owner w task_id rec m ≡ m
unfolding put_owner
put_owner-unencoded w task_id rec m e = rw e refl

-- Whose the task is after a pin on behalf of `owner`: an owner on record stays.
unfoldable pub kept_owner : Option TaskRecord → Str → Str
kept_owner none owner = owner
kept_owner (some rec) owner = if is_empty rec.owner then owner else rec.owner

-- The record after a pin, by the bytes that the codec makes of the new one.
abbrev pub pinned : Str → Str → Option TaskRecord → Option Str → Option TaskRecord
pinned upstream_id owner before none = before
pinned upstream_id owner before (some bytes) =
    some (record { upstream_id = upstream_id; owner = owner })

merge_task_owner-kept_owner :
    (prev : Option TaskRecord) (upstream_id owner : Str)
    → merge_task_owner prev upstream_id owner
      ≡ record { upstream_id = upstream_id; owner = kept_owner prev owner }
unfolding merge_task_owner kept_owner
merge_task_owner-kept_owner none upstream_id owner = refl
merge_task_owner-kept_owner (some rec) upstream_id owner = refl

put_owner-pinned :
    (w : World) (codec : DecodesTasks w) (task_id upstream_id owner : Str) (m : Bounded Str)
    → is_empty upstream_id ≡ false
    → let rec : TaskRecord = record { upstream_id = upstream_id; owner = owner } in
      recorded w task_id (put_owner w task_id rec m)
      ≡ pinned upstream_id owner (recorded w task_id m) (w.encode_task upstream_id owner)
put_owner-pinned w codec task_id upstream_id owner m ne =
    let rec : TaskRecord = record { upstream_id = upstream_id; owner = owner } in
    elim (Option-cases (w.encode_task upstream_id owner)) [
      | inl e ↦ rw e (ap (recorded w task_id) (put_owner-unencoded w task_id rec m e))
      | inr (bytes, e) ↦ rw e (put_owner-recorded w codec task_id rec m ne bytes e)
    ]

-- With a codec that reads back what it writes. When a task is pinned to an upstream with an id, on
-- behalf of `owner`, its record names that upstream, and the owner that was on record if there was one;
-- only without one is it `owner`. If that record cannot be encoded, the old one stays.
pub store_task_affinity-recorded :
    (w : World)
    → DecodesTasks w
    → (task_id upstream_id owner : Str) (m : Bounded Str) → is_empty upstream_id ≡ false
    → let before = recorded w task_id m in
      let whose = kept_owner before owner in
      recorded w task_id (store_task_affinity w task_id upstream_id owner m)
      ≡ pinned upstream_id whose before (w.encode_task upstream_id whose)
unfolding store_task_affinity
store_task_affinity-recorded w codec task_id upstream_id owner m ne =
    let (found, same) = load_owner-recorded w task_id m in
    let (m', prev) = load_owner w task_id m in
    let whose = kept_owner prev owner in
    let stored =
      ap (λ rec. recorded w task_id (put_owner w task_id rec m'))
        (merge_task_owner-kept_owner prev upstream_id owner) in
    stored
    ∙ put_owner-pinned w codec task_id upstream_id whose m' ne
    ∙ ap (λ before. pinned upstream_id whose before (w.encode_task upstream_id whose)) same
    ∙ ap
        (λ old.
          pinned upstream_id (kept_owner old owner) (recorded w task_id m)
            (w.encode_task upstream_id (kept_owner old owner)))
        found
