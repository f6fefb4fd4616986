-- ===== src/TaskStore/Keyed.antt =====
-- The map of the task store: each task stands under its own id, whatever the requests do.
use codex_a2a.Base.{
  ℕ, String, ◌≡◌, refl, false, none, some, Option, [], ◌∷◌, Result, ok, err, panic, ◌==◌, ==_iff,
  ==_refl, Bool-cases, inl, inr, arith, if-both, subst, not,
}
use codex_a2a.Base.Maps.{lookup, insert, remove, lookup-remove}
use codex_a2a.TaskStore.Store.{
  Task, StoredTask, StoreError, Store, TaskJson, clone_task, new_task_store, create, create_copy,
  update, update_copy, with_copy,
}
use codex_a2a.TaskStore.Listing.{ListRequest, filter_tasks, matches}
use codex_a2a.TaskStore.Order.{IsDistinct}
use codex_a2a.TaskStore.Pages.{All}

-- Each key is the id of its task, and there is one entry for it.
abbrev pub IsKeyed : Store → Type 0
IsKeyed [] = Unit {0}
IsKeyed ((id, stored) ∷ s) = (stored.task.id ≡ id) × (lookup id s ≡ none) × IsKeyed s

remove-IsKeyed : (k : String) (s : Store) → IsKeyed s → IsKeyed (remove k s)
unfolding remove
remove-IsKeyed k [] h = tt
remove-IsKeyed k ((id, stored) ∷ s) h = elim (Bool-cases (id == k)) [
  | inl q ↦ rw q (remove-IsKeyed k s h.2)
  | inr q ↦ rw q (h.0, ground (arith, lookup-remove k id s, h.1), remove-IsKeyed k s h.2)
]

insert-IsKeyed :
    (stored : StoredTask) (s : Store) → IsKeyed s → IsKeyed (insert stored.task.id stored s)
unfolding insert
insert-IsKeyed stored s h = (
  refl,
  ground (arith, lookup-remove stored.task.id stored.task.id s, ==_refl stored.task.id),
  remove-IsKeyed stored.task.id s h,
)

-- Encoding a task and decoding it again keeps its id.
abbrev pub KeepsId : TaskJson → Type 0
KeepsId json = (task copy : Task) → clone_task json task ≡ ok copy → copy.id ≡ task.id

-- The entry of a copy whose id is that of the task.
copy-IsKeyed :
    (stored : StoredTask) (id : String) (s : Store)
    → stored.task.id ≡ id
    → IsKeyed s
    → IsKeyed (insert id stored s)
copy-IsKeyed stored id s e h =
    subst (λ i. IsKeyed (insert i stored s)) e (insert-IsKeyed stored s h)

abbrev KeyedAfter : Result StoreError ℕ × Store → Type 0
KeyedAfter (result, s) = IsKeyed s

module _ (user : String) (now : ℕ) (task : Task) (s : Store) (h : IsKeyed s) where
  created-IsKeyed :
      (x : Result StoreError Task) (found : Option StoredTask)
      → ((copy : Task) → x ≡ ok copy → copy.id ≡ task.id)
      → IsKeyed (with_copy s (create_copy user now task.id s found) x).1
  created-IsKeyed (ok copy) none same = copy-IsKeyed _ task.id s (same copy refl) h
  created-IsKeyed (ok copy) (some stored) same = if-both KeyedAfter (not (stored.user == user)) h h
  created-IsKeyed (err e) found same = h
  created-IsKeyed panic found same = h

  updated-IsKeyed :
      (previous : ℕ) (x : Result StoreError Task) (found : Option StoredTask)
      → ((copy : Task) → x ≡ ok copy → copy.id ≡ task.id)
      → IsKeyed (with_copy s (update_copy user now previous task.id s found) x).1
  updated-IsKeyed previous (ok copy) none same = h
  updated-IsKeyed previous (ok copy) (some stored) same =
      if-both KeyedAfter (not (stored.user == user)) h
        (if-both KeyedAfter _ h (copy-IsKeyed _ task.id s (same copy refl) h))
  updated-IsKeyed previous (err e) found same = h
  updated-IsKeyed previous panic found same = h

module _ (json : TaskJson) (keeps : KeepsId json) (user : String) (now : ℕ) (task : Task) where
  create-IsKeyed : (s : Store) → IsKeyed s → IsKeyed (create json user now task s).1
  unfolding create
  create-IsKeyed s h =
      created-IsKeyed user now task s h (clone_task json task) (lookup task.id s) (keeps task)

  update-IsKeyed :
      (previous : ℕ) (s : Store) → IsKeyed s → IsKeyed (update json user now task previous s).1
  unfolding update
  update-IsKeyed previous s h =
      updated-IsKeyed user now task s h previous (clone_task json task) (lookup task.id s)
        (keeps task)

-- A store that starts empty and is written by any requests, in any order.
pub data Written (json : TaskJson) : Store → Type 0 where
  empty : Written json new_task_store
  creates :
      {s : Store} (user : String) (now : ℕ) (task : Task)
      → Written json s
      → Written json (create json user now task s).1
  updates :
      {s : Store} (user : String) (now : ℕ) (task : Task) (previous : ℕ)
      → Written json s
      → Written json (update json user now task previous s).1

-- Where a copy of a task has the task's id, a store that starts empty has, after any creations and
-- updates by any users, each task under its own id and one entry for an id.
pub Written-IsKeyed : (json : TaskJson) (s : Store) → KeepsId json → Written json s → IsKeyed s
Written-IsKeyed json s keeps empty = tt
Written-IsKeyed json s keeps (creates {s = old} user now task w) =
    create-IsKeyed json keeps user now task old (Written-IsKeyed json old keeps w)
Written-IsKeyed json s keeps (updates {s = old} user now task previous w) =
    update-IsKeyed json keeps user now task previous old (Written-IsKeyed json old keeps w)

module _ (user : String) (req : ListRequest) where
  filter_tasks_absent :
      (id : String) (s : Store)
      → IsKeyed s
      → lookup id s ≡ none
      → All (λ u. u.task.id == id) false (filter_tasks user req s)
  unfolding filter_tasks lookup
  filter_tasks_absent id [] h absent = tt
  filter_tasks_absent id ((j, stored) ∷ s) h absent = elim (Bool-cases (matches user req stored)) [
    | inl q ↦ rw q (
      ground (arith, h.0, absent, ==_iff stored.task.id id),
      filter_tasks_absent id s h.2 (ground (arith, absent)),
    )
    | inr q ↦ rw q (filter_tasks_absent id s h.2 (ground (arith, absent)))
  ]

  pub filter_tasks-IsDistinct : (s : Store) → IsKeyed s → IsDistinct (filter_tasks user req s)
  unfolding filter_tasks
  filter_tasks-IsDistinct [] h = tt
  filter_tasks-IsDistinct ((id, stored) ∷ s) h = elim (Bool-cases (matches user req stored)) [
    | inl q ↦ rw q (rw h.0 (filter_tasks_absent id s h.2 h.1), filter_tasks-IsDistinct s h.2)
    | inr q ↦ rw q (filter_tasks-IsDistinct s h.2)
  ]
