-- ===== src/Broker/Tasks.antt =====
-- internal/service/broker.go, lines 306 to 435: starting, finding, finishing and cancelling tasks.
use Prim.Native.String.{◌++◌}
use codex_a2a.Base.{
  ℕ, suc, ◌-◌, String, Bool, true, false, Option, none, some, List, [], ◌∷◌, Error, errorf, Result,
  ok, err, panic, ◌==◌, ltb, if◌then◌else◌,
}
use codex_a2a.Base.Maps.{Map, lookup, insert, remove, adjust}
use codex_a2a.Config.{RequestOptions}
use codex_a2a.Runtime.{TaskRuntime, new_task_runtime, request_cancel}
use codex_a2a.Broker.Sessions.{
  TaskSession, ContextState, Broker, Answers, update, close_client, start_session, fork_session,
  context_tasks, resolve_base_session,
}

abbrev pub update_session : ℕ → (TaskSession → TaskSession) → Broker → Broker
update_session r f b = record b { session = update b.session r (f (b.session r)) }

abbrev pub update_runtime : ℕ → (TaskRuntime → TaskRuntime) → Broker → Broker
update_runtime r f b = record b { runtime = update b.runtime r (f (b.runtime r)) }

abbrev add_context : String → Option ContextState → Map ContextState → Map ContextState
add_context context_id (some state) contexts = contexts
add_context context_id none contexts =
    insert context_id (record { context_id = context_id; tasks = [] }) contexts

unfoldable pub ensure_context : String → Map ContextState → Map ContextState
ensure_context context_id contexts = add_context context_id (lookup context_id contexts) contexts

abbrev bump : Option ℕ → (ℕ → TaskSession) → ℕ → TaskSession
bump none h = h
bump (some p) h = update h p (record (h p) { child_count = suc (h p).child_count })

-- `parent.childCount++` for a parent that is still in the context.
unfoldable pub bump_parent : String → Map ℕ → (ℕ → TaskSession) → ℕ → TaskSession
bump_parent parent_task_id tasks h =
    if parent_task_id == "" then h else bump (lookup parent_task_id tasks) h

-- The locked part of `startTask`: the session and its new runtime enter the broker's maps.
unfoldable pub register : Broker → String → String → TaskSession → ℕ → ℕ × Broker
unfolding ensure_context bump_parent
register b task_id context_id session now =
    let contexts = ensure_context context_id b.contexts in
    let tasks = context_tasks (lookup context_id contexts) in
    (
      b.next_runtime,
      record b {
        contexts =
            adjust context_id
              (λ state. record state { tasks = insert task_id b.next_session state.tasks })
              contexts;
        tasks = insert task_id b.next_runtime b.tasks;
        session =
            bump_parent session.parent_task_id tasks (update b.session b.next_session session);
        next_session = suc b.next_session;
        runtime =
            update b.runtime b.next_runtime
              (new_task_runtime task_id context_id b.next_session now);
        next_runtime = suc b.next_runtime;
      },
    )

abbrev pub open_session :
    Broker
    → String
    → String
    → RequestOptions
    → Answers
    → Option ℕ
    → Result Error TaskSession × Broker
open_session b task_id context_id options a none = start_session b task_id context_id options a
open_session b task_id context_id options a (some p) =
    fork_session b task_id context_id (b.session p) options a

abbrev pub registered :
    String → String → ℕ → Result Error TaskSession × Broker → Result Error ℕ × Broker
registered task_id context_id now (ok session, b) =
    let (r, b') = register b task_id context_id session now in (ok r, b')
registered task_id context_id now (err e, b) = (err e, b)
registered task_id context_id now (panic, b) = (panic, b)

abbrev pub start_from :
    Broker
    → String
    → String
    → RequestOptions
    → Answers
    → ℕ
    → Result Error (Option ℕ)
    → Result Error ℕ × Broker
start_from b task_id context_id options a now (ok parent) =
    registered task_id context_id now (open_session b task_id context_id options a parent)
start_from b task_id context_id options a now (err e) = (err e, b)
start_from b task_id context_id options a now panic = (panic, b)

-- The result is the reference of the new runtime.
unfoldable pub start_task :
    (Map ℕ → Map ℕ)
    → Broker
    → String
    → String
    → RequestOptions
    → List String
    → Answers
    → ℕ
    → Result Error ℕ × Broker
start_task order b task_id context_id options references a now =
    start_from b task_id context_id options a now
      (resolve_base_session order b context_id references)

abbrev pub found_task : String → Option ℕ → Result Error ℕ
found_task task_id none = err (errorf ("task " ++ (task_id ++ " is not active in broker state")))
found_task task_id (some r) = ok r

unfoldable pub task : Broker → String → Result Error ℕ
task b task_id = found_task task_id (lookup task_id b.tasks)

abbrev drop_child : Option ℕ → (ℕ → TaskSession) → ℕ → TaskSession
drop_child none h = h
drop_child (some p) h =
    if ltb 0 (h p).child_count
    then update h p (record (h p) { child_count = (h p).child_count - 1 })
    else h

-- `parent.childCount--` for a parent that is still in the context.
unfoldable pub drop_parent : String → Map ℕ → (ℕ → TaskSession) → ℕ → TaskSession
drop_parent parent_task_id tasks h =
    if parent_task_id == "" then h else drop_child (lookup parent_task_id tasks) h

abbrev pub store_tasks : String → Map ℕ → Map ContextState → Map ContextState
store_tasks context_id [] contexts = remove context_id contexts
store_tasks context_id (e ∷ es) contexts =
    adjust context_id (λ state. record state { tasks = e ∷ es }) contexts

abbrev drop_from : Broker → String → String → Map ℕ → Option ℕ → Broker
drop_from b context_id task_id tasks none = b
drop_from b context_id task_id tasks (some r) = record b {
  session = drop_parent (b.session r).parent_task_id tasks b.session;
  contexts = store_tasks context_id (remove task_id tasks) b.contexts;
}

-- The branch of `finishTaskWithPolicy` for a session that is not preserved.
unfoldable pub drop_session : Broker → String → String → Broker
unfolding drop_parent
drop_session b context_id task_id =
    let tasks = context_tasks (lookup context_id b.contexts) in
    drop_from b context_id task_id tasks (lookup task_id tasks)

abbrev close_held : Option ℕ → Broker → Broker
close_held none b = b
close_held (some c) b = close_client c b

-- The session's client is taken out, and closed after the lock is released.
unfoldable pub release_client : ℕ → Broker → Broker
release_client r b =
    close_held (b.session r).client (update_session r (λ s. record s { client = none }) b)

abbrev finish_found : Broker → String → Bool → Option ℕ → Broker
finish_found b task_id preserve none = b
finish_found b task_id preserve (some r) =
    let runtime = b.runtime r in
    let gone = record b { tasks = remove task_id b.tasks } in
    let kept = if preserve then gone else drop_session gone runtime.context_id task_id in
    release_client runtime.session kept

unfoldable pub finish_task_with_policy : Broker → String → Bool → Broker
unfolding drop_session release_client
finish_task_with_policy b task_id preserve =
    finish_found b task_id preserve (lookup task_id b.tasks)

unfoldable pub finish_task : String → Broker → Broker
finish_task task_id b = finish_task_with_policy b task_id true

unfoldable pub discard_task : String → Broker → Broker
discard_task task_id b = finish_task_with_policy b task_id false

abbrev cancelled : Broker → Result Error ℕ → Result Error ℕ × Broker
cancelled b (ok r) = (ok r, update_runtime r request_cancel b)
cancelled b (err e) = (err e, b)
cancelled b panic = (panic, b)

unfoldable pub cancel : String → Broker → Result Error ℕ × Broker
unfolding task
cancel task_id b = cancelled b (task b task_id)

-- The loop of `broker.Close` over the active tasks, with the closing of each client.
unfoldable pub close_tasks : Map ℕ → Broker → Broker
unfolding release_client
close_tasks [] b = b
close_tasks ((task_id, r) ∷ tasks) b = close_tasks tasks (release_client (b.runtime r).session b)

-- `codexClient.Close` returns nil, so no error is joined.
unfoldable pub close : Broker → Broker
unfolding close_tasks
close b = record (close_tasks b.tasks b) { tasks = [] }
