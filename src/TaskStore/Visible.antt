-- ===== src/TaskStore/Visible.antt =====
-- internal/service/taskstore.go: a list shows the tasks of its user alone.
use Prim.Native.String.{String}
use codex_a2a.Base.{ℕ, ◌≤◌, ◌≡◌, ◌⊎◌, none, some, List, [], ◌∷◌, Result, ok, err, panic}
use codex_a2a.Base.Maps.{lookup}
use codex_a2a.TaskStore.Store.{Task, StoredTask, StoreError, Store, TaskJson, clone_task}
use codex_a2a.TaskStore.Listing.{ListRequest, ListResponse, TokenCodec}
use codex_a2a.TaskStore.Request.{trim_task}

module _ (P : StoredTask → Type 0) where
  abbrev Each : List StoredTask → Type 0
  Each [] = Unit {0}
  Each (x ∷ xs) = P x × Each xs

  abbrev EachPaged : Result StoreError (List StoredTask × String) → Type 0
  EachPaged (ok page) = Each page.0
  EachPaged (err e) = Unit {0}
  EachPaged panic = Unit {0}

module _ (user : String) (req : ListRequest) where
  -- A task of the user that passes the filters of the request.
  pub record IsShown (stored : StoredTask) : Type 0 where
    pub owned : stored.user ≡ user
    pub in_context : (req.context_id ≡ "") ⊎ (stored.task.context_id ≡ req.context_id)
    pub in_status : (req.status ≡ "") ⊎ (stored.task.state ≡ req.status)
    pub is_recent :
        (req.status_after ≡ none)
        ⊎ ((limit : ℕ) × (req.status_after ≡ some limit) × (limit ≤ stored.last_updated))

  -- It stands in the store under its id.
  abbrev pub IsFound : Store → StoredTask → Type 0
  IsFound s stored = (lookup stored.task.id s ≡ some stored) × IsShown stored

module _ (json : TaskJson) (codec : TokenCodec) (user : String) (req : ListRequest)
    (s : Store) where
  -- A task that is shown is a copy, cut as the request asks for, of a task of the store that the user
  -- may see and asked for.
  abbrev pub IsCopy : Task → Type 0
  IsCopy task =
      (stored : StoredTask) × (copy : Task) × IsFound user req s stored
      × (clone_task json stored.task ≡ ok copy)
      × (task ≡ trim_task req copy)

  abbrev pub Copies : List Task → Type 0
  Copies [] = Unit {0}
  Copies (task ∷ tasks) = IsCopy task × Copies tasks

  abbrev pub Shows : Result StoreError ListResponse → Type 0
  Shows (ok resp) = Copies resp.tasks
  Shows (err e) = Unit {0}
  Shows panic = Unit {0}

  abbrev Copied : Result StoreError (List Task) → Type 0
  Copied (ok tasks) = Copies tasks
  Copied (err e) = Unit {0}
  Copied panic = Unit {0}
