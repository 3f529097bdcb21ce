-- ===== src/Gateway/Tasks.antt =====
-- gateway/tasks.go: the index of task owners. The store is the in-process one of internal/state; the
-- encoding of a record and SHA-256 are the world's.
pub mod Owners
use fold.Prelude.{
  ℕ, ◌*◌, ◌^◌, ℤ, pos, Bool, true, false, not, ◌&&◌, List, [], ◌∷◌, ◌++◌, Option, none, some, Str,
  str, str_eq, is_empty, if◌then◌else◌,
}
use fold.Value.{Any, Fields, field_lookup}
use fold.Auth.{Principal}
use fold.State.Bounded.{Bounded}
use fold.State.Stores.{get, set}
use fold.Gateway.Meta.{Meta}
use fold.Gateway.Run.{ok, World, Run, M, pure}

pub record TaskRecord : Type 0 where
  pub upstream_id : Str
  pub owner : Str

-- 24 hours in nanoseconds.
abbrev pub task_owner_ttl : ℤ
task_owner_ttl = pos (24 * 3600 * 10 ^ 9)

abbrev pub task_owner_key : World → Option Principal → Str
task_owner_key w none = []
task_owner_key w (some p) = w.sha256 (p.issuer ++ (0 ∷ p.subject))

abbrev pub task_key : World → Str → Str
task_key w task_id = w.sha256 task_id

abbrev pub checked_record : Option (Str × Str) → Option TaskRecord
checked_record none = none
checked_record (some (upstream, owner)) =
    if is_empty upstream then none else some (record { upstream_id = upstream; owner = owner })

unfoldable pub decode_task_record : World → Str → Option TaskRecord
decode_task_record w bytes = checked_record (w.decode_task bytes)

abbrev pub decoded : World → Option Str → Option TaskRecord
decoded w none = none
decoded w (some bytes) = checked_record (w.decode_task bytes)

unfoldable pub load_owner : World → Str → Bounded Str → Bounded Str × Option TaskRecord
load_owner w task_id m = let (m', found) = get (task_key w task_id) w.now m in (m', decoded w found)

-- A record that cannot be encoded is not stored.
abbrev pub set_bytes : World → Str → Option Str → Bounded Str → Bounded Str
set_bytes w key none m = m
set_bytes w key (some bytes) m = set key bytes task_owner_ttl w.now m

unfoldable pub put_owner : World → Str → TaskRecord → Bounded Str → Bounded Str
put_owner w task_id rec m =
    set_bytes w (task_key w task_id) (w.encode_task rec.upstream_id rec.owner) m

abbrev pub owner_of : Option TaskRecord → Str
owner_of none = []
owner_of (some rec) = rec.owner

unfoldable pub merge_task_owner : Option TaskRecord → Str → Str → TaskRecord
merge_task_owner prev upstream_id owner = record {
  upstream_id = upstream_id;
  owner = if is_empty (owner_of prev) then owner else owner_of prev;
}

unfoldable pub store_task_affinity : World → Str → Str → Str → Bounded Str → Bounded Str
unfolding load_owner put_owner merge_task_owner
store_task_affinity w task_id upstream_id owner m =
    let (m', prev) = load_owner w task_id m in
    put_owner w task_id (merge_task_owner prev upstream_id owner) m'

-- The task that a result says it has minted.
abbrev pub as_string : Option Any → Str
as_string (some (Any.string s)) = s
as_string other = []

abbrev pub task_id_of : Option Any → Str
task_id_of (some (Any.object fs)) = as_string (field_lookup (str "taskId") fs)
task_id_of other = []

unfoldable pub minted_task : Meta → Str
unfolding field_lookup
minted_task none = []
minted_task (some fs) = task_id_of (field_lookup (str "task") fs)

unfoldable pub note_minted_task : World → Option Principal → Str → Meta → M (Unit {0})
unfolding minted_task store_task_affinity
note_minted_task w p upstream_id meta r =
    let task_id = minted_task meta in
    let stored = store_task_affinity w task_id upstream_id (task_owner_key w p) r.task_owner in
    (ok tt, if is_empty task_id then r else record r { task_owner = stored })
