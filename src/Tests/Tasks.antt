-- ===== src/Tests/Tasks.antt =====
-- Tasks on concrete inputs: the record of the task names the wiki and Bob.
use fold.Prelude.{
  true, [], ◌∷◌, all, Option, none, some, Str, str, str_eq, lookup, insert, pos, ◌≡◌, refl, ap, ap₂,
  take, drop, length, ◌++◌, has_prefix,
}
use fold.State.Bounded.{Bounded, live}
use fold.State.Stores.{get}
use fold.State.Bounded.View.{view}
use fold.Gateway.Paginate.{Codec, paginate}
use fold.Gateway.Meta.{skip_raw_scan}
use fold.Gateway.Run.{err, Run}
use fold.Gateway.Tasks.{load_owner, task_owner_key, store_task_affinity}
use fold.Gateway.Tasks.Owners.{DecodesTasks, recorded, kept_owner, store_task_affinity-recorded}
use fold.Gateway.TaskRoutes.{route_task, not_found, sanitize_raw_meta, hides}
use fold.Gateway.TaskRoutes.Safety.{route_task-withheld}
use fold.Gateway.Run.{asked_task}
use fold.Gateway.Router.{new_routes, partial_failure_meta}
use fold.Gateway.Tenant.Resolve.{visible_upstreams}
use fold.Gateway.TaskPages.{serve_tasks, ask_pages, failed_upstreams}
use fold.Gateway.TaskList.{list_tasks, load_many, collect}
use fold.Gateway.TaskList.Hidden.{shown, list_tasks-shown}
use fold.Tests.Data.{alice}
use fold.Tests.World.{world, fresh_run, snapshot, caller, empty_map}

abbrev bobs_map : Bounded Str
bobs_map = record empty_map {
  cur = (str "t1", record { value = 4 ∷ str "wikibob"; expires = none }) ∷ [];
}

abbrev bobs_run : Run
bobs_run = record fresh_run { task_owner = bobs_map }

take_front : (s t : Str) → take (length s) (s ++ t) ≡ s
take_front [] t = refl
take_front (c ∷ s) t = ap (◌∷◌ c) (take_front s t)

drop_front : (s t : Str) → drop (length s) (s ++ t) ≡ t
drop_front [] t = refl
drop_front (c ∷ s) t = drop_front s t

some_inj : {a b : Str} → ◌≡◌ {A = Option Str} (some a) (some b) → a ≡ b
some_inj e = cc

world-DecodesTasks : DecodesTasks world
world-DecodesTasks upstream owner bytes e =
    rw (← some_inj e)
      (ap₂ (λ a b. some (a, b)) (take_front upstream owner) (drop_front upstream owner))

store_task_affinity-recorded_example :
    recorded world
      (str "t1")
      (store_task_affinity world (str "t1") (str "ci") (str "alice") bobs_map)
    ≡ some (record { upstream_id = str "ci"; owner = str "bob" })
unfolding recorded view kept_owner lookup str_eq live
store_task_affinity-recorded_example =
    store_task_affinity-recorded world world-DecodesTasks (str "t1") (str "ci") (str "alice")
      bobs_map refl

abbrev codec : Codec
codec = record { encode = λ cur. str "c"; decode = λ s. none; short_sum = λ s. s }

route_task-withheld_example :
    ((route_task world snapshot caller codec (pos 10) (str "tasks/cancel") (str "t1") bobs_run).0
      ≡ err (not_found (str "t1")))
    × ((route_task world snapshot caller codec
          (pos 10)
          (str "tasks/cancel")
          (str "t1")
          bobs_run).1.trace
        ≡ [])
    × (recorded world
          (str "t1")
          (route_task world snapshot caller codec
            (pos 10)
            (str "tasks/cancel")
            (str "t1")
            bobs_run).1.task_owner
        ≡ some (record { upstream_id = str "wiki"; owner = str "bob" }))
unfolding recorded view sanitize_raw_meta hides skip_raw_scan has_prefix lookup str_eq live
route_task-withheld_example =
    route_task-withheld world snapshot caller codec (pos 10) (str "tasks/cancel") (str "t1")
      bobs_run refl refl refl

-- A list asks every upstream, whatever task its parameters name.
list_asks_all :
    (route_task world snapshot caller codec (pos 10) (str "tasks/list") (str "t1") bobs_run).1.trace
    ≡ asked_task (str "ci") (str "tasks/list") (str "{}")
      ∷ asked_task (str "wiki") (str "tasks/list") (str "{}")
      ∷ []
unfolding route_task serve_tasks ask_pages failed_upstreams partial_failure_meta str_eq
    visible_upstreams new_routes
list_asks_all = refl

-- The upstream lists Bob's task and one that nobody has recorded.
list_tasks-shown_example :
    all
      (shown world
        (task_owner_key world (some alice))
        (load_many world
          (collect world (str "wiki" ∷ str "ci" ∷ []) (some (str "t1") ∷ some (str "t2") ∷ []))
          []
          bobs_map
          []).1)
      (str "t2" ∷ [])
    ≡ true
unfolding list_tasks paginate lookup str_eq load_owner get insert
list_tasks-shown_example =
    list_tasks-shown world codec (pos 10) (some alice) [] (str "wiki" ∷ str "ci" ∷ [])
      (some (str "t1") ∷ some (str "t2") ∷ []) bobs_map (str "t2" ∷ []) [] refl
