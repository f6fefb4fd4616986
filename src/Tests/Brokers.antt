-- ===== src/Tests/Brokers.antt =====
-- The broker at concrete inputs.
use mathlib.Core.List.Perm
use codex_a2a.Base.{
  ℕ, ◌≡◌, ◌↔◌, refl, none, some, [], ◌∷◌, true, false, ok, err, errorf, arith, ==_iff,
}
use codex_a2a.Base.Maps.{Map, lookup, insert, remove, adjust}
use codex_a2a.Config.{validate, validate_approval_policy, normalize_sandbox}
use codex_a2a.Runtime.{new_task_runtime}
use codex_a2a.Broker.Sessions.{
  Broker, Answers, new_broker, resolve_base_session, start_session, resolve_tasks, find_leaf,
  task_blocks,
}
use codex_a2a.Broker.Tasks.{start_task, open_session, finish_task_with_policy, release_client}
use codex_a2a.Broker.Branching.{
  leaves, active_leaves, prepend, IsReference, resolve_base_session-iff_leaf,
  resolve_base_session-iff_IsReference,
}
use codex_a2a.Broker.Continuity.{IsBase, resolve_base_session-IsBase}
use codex_a2a.Broker.Forest.Links.{children}
use codex_a2a.Broker.Invariant.{IsWellFormed, tasks_in}
use codex_a2a.Broker.Invariant.Reach.{
  Reach, here, next, registers, finishes, IsNewTask, Reach-IsWellFormed,
}
use codex_a2a.Broker.Lifecycle.{SameState, start_task-err, finish_task_with_policy_lem}
use codex_a2a.Tests.Samples.{config, options, empty, one_task, first_session}

abbrev in_order : Map ℕ → Map ℕ
in_order m = m

empty_start : new_broker config ≡ ok empty
unfolding new_broker validate validate_approval_policy normalize_sandbox new_task_runtime
empty_start = refl

abbrev first_opening : Answers
first_opening = record {
  launched = ok 7;
  reply = ok "raw";
  unmarshal_thread = λ raw. ok "thread-1";
}

-- The first session is what `startSession` returns.
first_opened :
    (b' : Broker) × (open_session empty "t1" "c" options first_opening none
      ≡ (ok first_session, b'))
unfolding start_session
first_opened = (_, refl)

first_session-IsNewTask : IsNewTask empty "t1" "c" first_session
unfolding lookup children
first_session-IsNewTask = record {
  named = λ e. ground (arith, ==_iff "t1" "", e);
  new = refl;
  unclaimed = refl;
  not_own_parent = λ e. ground (arith, ==_iff "" "t1", e);
}

pub one_task_reached : Reach empty one_task
unfolding one_task
one_task_reached = next here (
    registers "t1" "c" first_session 100 empty first_opened.0 options first_opening none
      first_opened.1 first_session-IsNewTask)

Reach-IsWellFormed_example : IsWellFormed one_task
Reach-IsWellFormed_example = Reach-IsWellFormed config empty one_task empty_start one_task_reached

one_task_entries : tasks_in one_task "c" ≡ ("t1", 0) ∷ []
unfolding one_task lookup insert adjust remove
one_task_entries = refl

-- When the first task is finished, the next one continues its session.
abbrev finished : Broker
finished = finish_task_with_policy one_task "t1" true

finished_reached : Reach empty finished
finished_reached = next one_task_reached (finishes "t1" true)

only_base : resolve_base_session in_order finished "c" [] ≡ ok (some 0)
unfolding one_task resolve_base_session resolve_tasks find_leaf task_blocks lookup insert adjust
    remove finish_task_with_policy new_task_runtime release_client
only_base = refl

resolve_base_session-IsBase_example : IsBase finished "c" [] (some 0)
resolve_base_session-IsBase_example =
    resolve_base_session-IsBase config empty finished in_order "c" [] (some 0) empty_start
      finished_reached (Perm.refl (tasks_in finished "c")) only_base

resolve_base_session-iff_leaf_example :
    (resolve_base_session in_order one_task "c" [] ≡ ok (some 0)) ↔ (
      (active_leaves one_task (("t1", 0) ∷ []) ≡ [])
      × (leaves one_task (("t1", 0) ∷ []) ≡ prepend (some 0) []))
resolve_base_session-iff_leaf_example =
    resolve_base_session-iff_leaf in_order one_task "c" ("t1", 0) [] (some 0) one_task_entries
      (Perm.refl (("t1", 0) ∷ []))

resolve_base_session-iff_IsReference_example :
    (resolve_base_session in_order one_task "c" ("t1" ∷ []) ≡ ok (some 0))
    ↔ IsReference one_task (tasks_in one_task "c") "t1" [] (some 0)
resolve_base_session-iff_IsReference_example =
    resolve_base_session-iff_IsReference in_order one_task "c" "t1" [] (some 0)

-- The process starts and refuses the thread.
abbrev refusal : Answers
refusal = record {
  launched = ok 9;
  reply = err (errorf "codex thread/start: no");
  unmarshal_thread = λ raw. ok raw;
}

start_task-err_example : SameState empty (start_task in_order empty "t1" "c" options [] refusal 5).1
unfolding start_task resolve_base_session resolve_tasks start_session lookup
start_task-err_example =
    start_task-err in_order empty "t1" "c" options [] refusal 5 (errorf "codex thread/start: no")
      (λ k e. refl) refl

one_task_active : lookup "t1" one_task.tasks ≡ some 0
unfolding one_task lookup insert
one_task_active = refl

finish_task_with_policy_example :
    let d = finish_task_with_policy one_task "t1" false in
    (lookup "t1" d.tasks ≡ none)
    × ((d.session (one_task.runtime 0).session).client ≡ none)
    × (finish_task_with_policy d "t1" true ≡ d)
    × ((finish_task_with_policy one_task "t1" true).contexts ≡ one_task.contexts)
finish_task_with_policy_example =
    finish_task_with_policy_lem one_task "t1" 0 false true one_task_active
