-- ===== src/TaskStore/Store.antt =====
-- internal/service/taskstore.go, lines 18 to 107 and 177 to 194: storing and reading tasks.
use codex_a2a.Base.{
  ℕ, suc, String, not, ◌&&◌, Option, none, some, List, [], Error, wrap, Result, ok, err, panic,
  ◌==◌, eqb, if◌then◌else◌,
}
use codex_a2a.Base.Maps.{Map, lookup, insert}

-- `a2a.Task`: the fields that the store reads or changes, and the rest of the task as it is.
pub record Task : Type 0 where
  pub id : String
  pub context_id : String
  pub state : String
  pub history : List String
  pub artifacts : List String
  pub rest : String

-- Times are counted in units that grow with the clock. `last_updated` is one number for the two readings of
-- Go's clock: the monotonic one, by which tasks are sorted, and the wall time, which a page token tells.
pub record StoredTask : Type 0 where
  pub task : Task
  pub user : String
  pub version : ℕ
  pub last_updated : ℕ

-- The sentinel errors of the library, and `failed` for any other error.
pub data StoreError : Type 0 where
  task_not_found task_already_exists concurrent_modification parse_error : StoreError
  bad_page_size bad_history_length : StoreError
  failed : Error → StoreError

-- `tasks` of `taskStore`, where no entry is nil.
abbrev pub Store : Type 0
Store = Map StoredTask

abbrev pub new_task_store : Store
new_task_store = []

-- What `cloneTask` uses of encoding/json.
pub record TaskJson : Type 0 where
  pub marshal : Task → Result Error String
  pub unmarshal : String → Result Error Task

abbrev copied : Result Error Task → Result StoreError Task
copied (ok task) = ok task
copied (err e) = err (failed (wrap "unmarshal task copy" e))
copied panic = panic

abbrev blob_copied : TaskJson → Result Error String → Result StoreError Task
blob_copied json (ok blob) = copied (json.unmarshal blob)
blob_copied json (err e) = err (failed (wrap "marshal task copy" e))
blob_copied json panic = panic

unfoldable pub clone_task : TaskJson → Task → Result StoreError Task
clone_task json task = blob_copied json (json.marshal task)

-- The user name of the call, which is `none` without a call context or user.
unfoldable pub task_store_user : Option String → String
task_store_user none = "anonymous"
task_store_user (some name) = if name == "" then "anonymous" else name

-- `TaskVersionMissing` is 0.
abbrev pub version_missing : ℕ
version_missing = 0

abbrev pub create_copy :
    String → ℕ → String → Store → Option StoredTask → Task → Result StoreError ℕ × Store
create_copy user now id s none copy =
    (ok 1, insert id (record { task = copy; user = user; version = 1; last_updated = now }) s)
create_copy user now id s (some stored) copy =
    if not (stored.user == user) then (err task_not_found, s) else (err task_already_exists, s)

abbrev pub with_copy :
    Store
    → (Task → Result StoreError ℕ × Store)
    → Result StoreError Task
    → Result StoreError ℕ × Store
with_copy s f (ok copy) = f copy
with_copy s f (err e) = (err e, s)
with_copy s f panic = (panic, s)

unfoldable pub create : TaskJson → String → ℕ → Task → Store → Result StoreError ℕ × Store
create json user now task s =
    with_copy s (create_copy user now task.id s (lookup task.id s)) (clone_task json task)

abbrev pub update_copy :
    String → ℕ → ℕ → String → Store → Option StoredTask → Task → Result StoreError ℕ × Store
update_copy user now previous id s none copy = (err task_not_found, s)
update_copy user now previous id s (some stored) copy =
    if not (stored.user == user)
    then (err task_not_found, s)
    else if not (eqb previous version_missing) && not (eqb stored.version previous)
    then (err concurrent_modification, s)
    else (
      ok (suc stored.version),
      insert id
          (record { task = copy; user = user; version = suc stored.version; last_updated = now }) s,
    )

-- `previous` is `update.PrevVersion`.
unfoldable pub update : TaskJson → String → ℕ → Task → ℕ → Store → Result StoreError ℕ × Store
update json user now task previous s =
    with_copy s (update_copy user now previous task.id s (lookup task.id s)) (clone_task json task)

abbrev read_copy : StoredTask → Result StoreError Task → Result StoreError (Task × ℕ)
read_copy stored (ok copy) = ok (copy, stored.version)
read_copy stored (err e) = err e
read_copy stored panic = panic

abbrev get_found : TaskJson → String → Option StoredTask → Result StoreError (Task × ℕ)
get_found json user none = err task_not_found
get_found json user (some stored) =
    if not (stored.user == user)
    then err task_not_found
    else read_copy stored (clone_task json stored.task)

-- `Get`: the task and its version.
unfoldable pub get : TaskJson → String → String → Store → Result StoreError (Task × ℕ)
get json user id s = get_found json user (lookup id s)
