-- ===== src/TaskStore/Request.antt =====
-- internal/service/taskstore.go, lines 109 to 175: one request for a list of tasks.
use codex_a2a.Base.{
  ℕ, zero, suc, ◌-◌, String, Option, none, some, List, [], ◌∷◌, Result, ok, err, ltb, if◌then◌else◌,
  length, drop, ◌>>=◌, ◌>>◌,
}
use codex_a2a.TaskStore.Store.{
  Task, StoredTask, StoreError, bad_page_size, bad_history_length, Store, TaskJson, clone_task,
}
use codex_a2a.TaskStore.Listing.{
  ListRequest, ListResponse, GoInt, nonnegative, negative, TokenCodec, filter_tasks, sort_tasks,
  paginate_tasks,
}

-- The switch on `req.PageSize`: 0 stands for 50.
unfoldable pub page_size_of : GoInt → Result StoreError ℕ
page_size_of (nonnegative zero) = ok 50
page_size_of (nonnegative (suc n)) = if ltb 100 (suc n) then err bad_page_size else ok (suc n)
page_size_of negative = err bad_page_size

abbrev pub check_history : Option GoInt → Result StoreError Unit
check_history (some negative) = err bad_history_length
check_history (some (nonnegative n)) = ok tt
check_history none = ok tt

-- The last `n` messages, where `n` is positive.
abbrev last_messages : ℕ → List String → List String
last_messages zero history = history
last_messages (suc n) history =
    if ltb (suc n) (length history) then drop (length history - suc n) history else history

abbrev cut_history : Option GoInt → List String → List String
cut_history none history = history
cut_history (some negative) history = history
cut_history (some (nonnegative n)) history = last_messages n history

unfoldable pub trim_task : ListRequest → Task → Task
trim_task req task = record task {
  history = cut_history req.history_length task.history;
  artifacts = if req.include_artifacts then task.artifacts else [];
}

module _ (json : TaskJson) (codec : TokenCodec) where
  -- The loop over the page.
  unfoldable pub copy_page : ListRequest → List StoredTask → Result StoreError (List Task)
  unfolding trim_task
  copy_page req [] = ok []
  copy_page req (stored ∷ page) = do
    task ← clone_task json stored.task
    rest ← copy_page req page
    ok (trim_task req task ∷ rest)

  unfoldable pub list : String → ListRequest → Store → Result StoreError ListResponse
  list user req s = do
    size ← page_size_of req.page_size
    check_history req.history_length
    let filtered = filter_tasks user req s
    page ← paginate_tasks codec (sort_tasks filtered) size req.page_token
    tasks ← copy_page req page.0
    ok (record {
      tasks = tasks;
      total_size = length filtered;
      page_size = size;
      next_page_token = page.1;
    })
