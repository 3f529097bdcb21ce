-- ===== src/Gateway/TaskList/Hidden.antt =====
-- gateway/tasks.go: whose tasks a page of `tasks/list` shows.
use fold.Prelude.{
  ◌+◌, ◌-◌, ℕ, ℤ, Bool, true, false, not, ◌&&◌, ◌||◌, List, [], ◌∷◌, ◌++◌, all, take, drop, length,
  min, pos_part, is_positive, leb, Option, none, some, Str, str, str_eq, str_eq_iff, str_eq_refl,
  Dict, lookup, is_empty, if◌then◌else◌, ◌≡◌, refl, arith, Bool-cases, inl, inr, zero, suc,
}
use fold.Auth.{Principal}
use fold.State.Bounded.{Bounded}
use fold.Gateway.Paginate as Pages
use fold.Gateway.Paginate.{
  Codec, snapshot_gen, principal_cursor_key, start_offset, page_or, page_at, paginate,
}
use fold.Gateway.Run.{World}
use fold.Gateway.Tasks.{TaskRecord, owner_of, merge_task_owner, task_owner_key}
use fold.Gateway.TaskList.{
  Listed, listed_tasks, page_tasks, collect, load_many, merge_tasks, task_le, place_task,
  sort_tasks, list_tasks,
}

module _ {ℓ} {A : Type ℓ} (p : A → Bool) where
  all-append : (xs ys : List A) → all p xs ≡ true → all p ys ≡ true → all p (xs ++ ys) ≡ true
  all-append [] ys h k = k
  all-append (x ∷ xs) ys h k = ground (arith, all-append xs ys)

  all-take : (n : ℕ) (xs : List A) → all p xs ≡ true → all p (take n xs) ≡ true
  all-take zero xs h = refl
  all-take (suc n) [] h = refl
  all-take (suc n) (x ∷ xs) h = ground (arith, all-take n xs)

  all-drop : (n : ℕ) (xs : List A) → all p xs ≡ true → all p (drop n xs) ≡ true
  all-drop zero xs h = h
  all-drop (suc n) [] h = refl
  all-drop (suc n) (x ∷ xs) h = ground (arith, all-drop n xs)

  abbrev page_all : Pages.Result (List A × Str) → Bool
  page_all (Pages.ok page) = all p page.0
  page_all Pages.bad_cursor = true

  page_all_if :
      (b : Bool) (x y : Pages.Result (List A × Str))
      → page_all x ≡ true
      → page_all y ≡ true
      → page_all (if b then x else y) ≡ true
  page_all_if true x y h k = h
  page_all_if false x y h k = k

  page_or-all :
      (c : Codec) (items : List A) (kind gen pkey : Str) (size : ℕ) (offset : Option ℕ)
      → all p items ≡ true
      → page_all (page_or c items kind gen pkey size offset) ≡ true
  unfolding page_or page_at
  page_or-all c items kind gen pkey size none h = refl
  page_or-all c items kind gen pkey size (some offset) h =
      all-take (min (offset + size) (length items) - offset) (drop offset items)
        (all-drop offset items h)

  -- A page has only items of the list.
  pub paginate-all :
      (c : Codec) (items : List A) (name : A → Str) (kind raw : Str) (size : ℤ)
      (principal : Option Principal)
      → all p items ≡ true
      → page_all (paginate c items name kind raw size principal) ≡ true
  unfolding paginate
  paginate-all c items name kind raw size principal h =
      let gen = snapshot_gen c kind items name in
      let pkey = principal_cursor_key c principal in
      let start = start_offset c raw kind gen pkey (length items) in
      let paged = page_or c items kind gen pkey (pos_part size) start in
      let short = is_empty raw && leb (length items) (pos_part size) in
      page_all_if (not (is_positive size))
        (if not (is_empty raw) then Pages.bad_cursor else Pages.ok (items, []))
        (if short then Pages.ok (items, []) else paged)
        (page_all_if (not (is_empty raw)) Pages.bad_cursor (Pages.ok (items, [])) refl h)
        (page_all_if short (Pages.ok (items, [])) paged h
          (page_or-all c items kind gen pkey (pos_part size) start h))

module _ (w : World) (caller : Str) (known : Dict TaskRecord) where
  -- A task with no recorded owner, or with this caller's.
  abbrev pub shown : Str → Bool
  shown task =
      let owner = owner_of (lookup (w.task_id task) known) in
      is_empty (w.task_id task) || is_empty owner || str_eq owner caller

  abbrev labelled : Listed → Bool
  labelled l = str_eq l.id (w.task_id l.task)

  listed_tasks-labelled :
      (upstream : Str) (tasks : List Str) → all labelled (listed_tasks w upstream tasks) ≡ true
  unfolding listed_tasks
  listed_tasks-labelled upstream [] = refl
  listed_tasks-labelled upstream (t ∷ tasks) =
      rw (str_eq_refl (w.task_id t)) (listed_tasks-labelled upstream tasks)

  collect-labelled :
      (ups : List Str) (pages : List (Option Str)) → all labelled (collect w ups pages) ≡ true
  unfolding collect
  collect-labelled [] pages = refl
  collect-labelled (u ∷ ups) [] = refl
  collect-labelled (u ∷ ups) (page ∷ pages) =
      all-append labelled (listed_tasks w u (page_tasks w page)) (collect w ups pages)
        (listed_tasks-labelled u (page_tasks w page)) (collect-labelled ups pages)

  merge_tasks-shown :
      (ls : List Listed)
      → all labelled ls ≡ true
      → all shown (merge_tasks w known caller ls).1 ≡ true
  unfolding merge_tasks merge_task_owner
  merge_tasks-shown [] h = refl
  merge_tasks-shown (l ∷ ls) h =
      ground (arith, str_eq_iff l.id (w.task_id l.task), merge_tasks-shown ls)

  place_task-shown :
      (t : Str) (tasks : List Str)
      → shown t ≡ true
      → all shown tasks ≡ true
      → all shown (place_task w t tasks) ≡ true
  unfolding place_task
  place_task-shown t [] h k = ground arith
  place_task-shown t (s ∷ tasks) h k = elim (Bool-cases (task_le w t s)) [
    | inl e ↦ rw e (ground arith)
    | inr e ↦ rw e (ground (arith, place_task-shown t tasks))
  ]

  sort_tasks-shown :
      (tasks : List Str) → all shown tasks ≡ true → all shown (sort_tasks w tasks) ≡ true
  unfolding sort_tasks
  sort_tasks-shown [] h = refl
  sort_tasks-shown (t ∷ tasks) h =
      place_task-shown t (sort_tasks w tasks) (ground arith) (sort_tasks-shown tasks (ground arith))

-- A page of `tasks/list` has only tasks for which the index, as the listing read it, had no owner or
-- this caller.
pub list_tasks-shown :
    (w : World) (codec : Codec) (size : ℤ) (principal : Option Principal) (raw : Str)
    (ups : List Str) (pages : List (Option Str)) (m : Bounded Str) (tasks : List Str) (next : Str)
    → (list_tasks w codec size principal raw ups pages m).0 ≡ Pages.ok (tasks, next)
    → all (shown w (task_owner_key w principal) (load_many w (collect w ups pages) [] m []).1) tasks
      ≡ true
unfolding list_tasks
list_tasks-shown w codec size principal raw ups pages m tasks next e =
    let ls = collect w ups pages in
    let known = (load_many w ls [] m []).1 in
    let caller = task_owner_key w principal in
    let p = shown w caller known in
    let merged = (merge_tasks w known caller ls).1 in
    let sorted =
      sort_tasks-shown w caller known merged
        (merge_tasks-shown w caller known ls (collect-labelled w caller known ups pages)) in
    rw e at (
      paginate-all p codec (sort_tasks w merged) w.task_id (str "tasks") (w.cursor_of raw) size
        principal sorted)
