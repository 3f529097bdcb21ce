-- ===== src/Gateway/TaskList.antt =====
-- gateway/tasks.go: `loadMany`, `putMany` and `listTasks`, on the pages that the upstreams gave. The
-- fan-out, its failures and the pages of the result are those of the typed lists.
pub mod Hidden
use fold.Prelude.{
  Bool, true, false, not, ◌&&◌, ◌||◌, ℕ, ℤ, List, [], ◌∷◌, ◌++◌, contains, Option, none, some,
  present, Str, str, str_eq, str_le, Dict, lookup, insert, is_empty, if◌then◌else◌,
}
use fold.Auth.{Principal}
use fold.State.Bounded.{Bounded}
use fold.Gateway.Paginate as Pages
use fold.Gateway.Paginate.{Codec, paginate}
use fold.Gateway.Run.{World}
use fold.Gateway.Tasks.{
  TaskRecord, task_key, load_owner, put_owner, owner_of, merge_task_owner, task_owner_key,
}

pub record Listed : Type 0 where
  pub task : Str
  pub id : Str
  pub upstream : Str

module _ (w : World) where
  unfoldable pub listed_tasks : Str → List Str → List Listed
  listed_tasks upstream [] = []
  listed_tasks upstream (t ∷ tasks) =
      record { task = t; id = w.task_id t; upstream = upstream } ∷ listed_tasks upstream tasks

  abbrev pub tasks_of : Option (List Str) → List Str
  tasks_of none = []
  tasks_of (some tasks) = tasks

  abbrev pub page_tasks : Option Str → List Str
  page_tasks none = []
  page_tasks (some page) = if is_empty page then [] else tasks_of (w.decode_tasks page)

  -- The pages stand beside the upstreams that they came from; one that is missing or that cannot be
  -- read is passed over.
  unfoldable pub collect : List Str → List (Option Str) → List Listed
  unfolding listed_tasks
  collect [] pages = []
  collect (u ∷ ups) [] = []
  collect (u ∷ ups) (page ∷ pages) = listed_tasks u (page_tasks page) ++ collect ups pages

  abbrev pub noted_record : Str → Option TaskRecord → Dict TaskRecord → Dict TaskRecord
  noted_record id none out = out
  noted_record id (some rec) out = insert id rec out

  -- One read for each key; `seen` has the keys that were read.
  unfoldable pub load_many :
      List Listed → List Str → Bounded Str → Dict TaskRecord → Bounded Str × Dict TaskRecord
  load_many [] seen m out = (m, out)
  load_many (l ∷ all) seen m out =
      let (m', found) = load_owner w l.id m in
      let skipped = load_many all seen m out in
      let read = load_many all (task_key w l.id ∷ seen) m' (noted_record l.id found out) in
      if is_empty l.id || contains seen (task_key w l.id) then skipped else read

  abbrev pub same_record : Option TaskRecord → TaskRecord → Bool
  same_record none rec = false
  same_record (some prev) rec =
      str_eq prev.upstream_id rec.upstream_id && str_eq prev.owner rec.owner

  abbrev pub hidden_from : Str → TaskRecord → Bool
  hidden_from caller rec = not (is_empty rec.owner) && not (str_eq rec.owner caller)

  -- The records to write, and the tasks that the caller sees.
  unfoldable pub merge_tasks : Dict TaskRecord → Str → List Listed → Dict TaskRecord × List Str
  unfolding merge_task_owner
  merge_tasks known caller [] = ([], [])
  merge_tasks known caller (l ∷ all) =
      let (writes, merged) = merge_tasks known caller all in
      let prev = lookup l.id known in
      let rec = merge_task_owner prev l.upstream [] in
      if is_empty l.id then (writes, l.task ∷ merged) else (
        if same_record prev rec || present (lookup l.id writes)
            then writes
            else insert l.id rec writes,
        if hidden_from caller rec then merged else l.task ∷ merged,
      )

  -- `putMany`, in the order of the map's entries.
  unfoldable pub put_many : Dict TaskRecord → Bounded Str → Bounded Str
  put_many [] m = m
  put_many ((id, rec) ∷ recs) m = put_many recs (put_owner w id rec m)

  -- The order of the merged list: by id, and by bytes where two ids agree.
  unfoldable pub task_le : Str → Str → Bool
  task_le a b =
      if str_eq (w.task_id a) (w.task_id b) then str_le a b else str_le (w.task_id a) (w.task_id b)

  unfoldable pub place_task : Str → List Str → List Str
  unfolding task_le
  place_task t [] = t ∷ []
  place_task t (s ∷ tasks) =
      let rest = place_task t tasks in if task_le t s then t ∷ s ∷ tasks else s ∷ rest

  unfoldable pub sort_tasks : List Str → List Str
  unfolding place_task
  sort_tasks [] = []
  sort_tasks (t ∷ tasks) = place_task t (sort_tasks tasks)

  -- `listTasks` after the fan-out: the page, and the index with what it has learnt.
  unfoldable pub list_tasks :
      Codec
      → ℤ
      → Option Principal
      → Str
      → List Str
      → List (Option Str)
      → Bounded Str
      → Pages.Result (List Str × Str) × Bounded Str
  unfolding collect load_many merge_tasks put_many sort_tasks
  list_tasks codec size principal raw ups pages m =
      let all = collect ups pages in
      let (m', known) = load_many all [] m [] in
      let (writes, merged) = merge_tasks known (task_owner_key w principal) all in
      (
        paginate codec (sort_tasks merged) w.task_id (str "tasks") (w.cursor_of raw) size principal,
        put_many writes m',
      )
