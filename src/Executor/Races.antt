-- ===== src/Executor/Races.antt =====
-- `consumeTurn` reads `runtime.Session.Client` before each message without the broker's lock, while
-- `Cleanup` and `Close` take the client out.
use codex_a2a.Base.{
  ℕ, String, ◌≡◌, refl, true, false, none, some, List, [], ◌∷◌, panic, ◌==◌, Bool-cases, inl, inr,
  arith,
}
use codex_a2a.Base.Maps.{Map, lookup}
use codex_a2a.Broker.Sessions.{Broker}
use codex_a2a.Broker.Tasks.{
  finish_task, release_client, close_tasks, close, finish_task_with_policy,
}
use codex_a2a.Broker.Lifecycle.{finish_task_with_policy_lem}
use codex_a2a.Broker.Invariant.{client_of}
use codex_a2a.Executor.Events.{Codec, TaskInfo, canceled}
use codex_a2a.Executor.World.{World, Incoming, client_of_runtime}
use codex_a2a.Executor.Turn.{consume_turn}
use codex_a2a.Executor.Execute.{cleanup, task_result}

release_client-runtime : (q : ℕ) (b : Broker) → (release_client q b).runtime ≡ b.runtime
unfolding release_client
release_client-runtime q b = ground arith

release_client-none :
    (q s : ℕ) (b : Broker)
    → (b.session s).client ≡ none
    → ((release_client q b).session s).client ≡ none
unfolding release_client
release_client-none q s b h = ground (arith, h)

release_client_self : (q : ℕ) (b : Broker) → ((release_client q b).session q).client ≡ none
unfolding release_client
release_client_self q b = ground arith

close_tasks-none :
    (es : Map ℕ) (s : ℕ) (b : Broker)
    → (b.session s).client ≡ none
    → ((close_tasks es b).session s).client ≡ none
unfolding close_tasks
close_tasks-none [] s b h = h
close_tasks-none ((t, r) ∷ es) s b h =
    close_tasks-none es s (release_client (b.runtime r).session b)
      (release_client-none (b.runtime r).session s b h)

close_tasks-runtime : (es : Map ℕ) (b : Broker) → (close_tasks es b).runtime ≡ b.runtime
unfolding close_tasks
close_tasks-runtime [] b = refl
close_tasks-runtime ((t, r) ∷ es) b =
    rw (close_tasks-runtime es (release_client (b.runtime r).session b))
      (release_client-runtime (b.runtime r).session b)

close_tasks-client :
    (es : Map ℕ) (t : String) (r : ℕ) (b : Broker)
    → lookup t es ≡ some r
    → ((close_tasks es b).session (b.runtime r).session).client ≡ none
unfolding close_tasks lookup
close_tasks-client [] t r b e = ground (arith, e)
close_tasks-client ((u, q) ∷ es) t r b e = elim (Bool-cases (u == t)) [
  | inl here ↦
      close_tasks-none es (b.runtime r).session (release_client (b.runtime q).session b)
        (ground (arith, here, e, release_client_self (b.runtime q).session b))
  | inr there ↦
      let kept = release_client-runtime (b.runtime q).session b in
      rw kept at (
        close_tasks-client es t r (release_client (b.runtime q).session b)
          (ground (arith, there, e)))
]

close-client :
    (b : Broker) (t : String) (r : ℕ) → lookup t b.tasks ≡ some r → client_of (close b) r ≡ none
unfolding close
close-client b t r e = rw (close_tasks-runtime b.tasks b) (close_tasks-client b.tasks t r b e)

finish_task-runtime : (t : String) (b : Broker) → (finish_task t b).runtime ≡ b.runtime
unfolding finish_task finish_task_with_policy release_client
finish_task-runtime t b = ground arith

cleanup-client :
    (b : Broker) (t : String) (r : ℕ)
    → lookup t b.tasks ≡ some r
    → client_of (cleanup t false false (task_result canceled) b) r ≡ none
unfolding cleanup finish_task
cleanup-client b t r e =
    let (inactive, released, again, kept) = finish_task_with_policy_lem b t r true true e in
    rw (finish_task-runtime t b) released

module _ (k : Codec) (info : TaskInfo) (r : ℕ) where
  consume_turn-panic :
      (ms : List Incoming) (w : World)
      → client_of w.broker r ≡ none
      → (consume_turn k info r ms w).0 ≡ panic
  unfolding consume_turn client_of_runtime
  consume_turn-panic [] w h = rw h refl
  consume_turn-panic (m ∷ ms) w h = rw h refl

  -- If the cancellation of an active task is cleaned up, or the broker is closed, while the task's turn
  -- is between two messages, the loop goes on to call a method of a nil client and panics, whatever
  -- messages are still to come.
  pub consume_turn-races :
      (ms : List Incoming) (w : World)
      → lookup info.task_id w.broker.tasks ≡ some r
      → ((consume_turn k info r ms (record w {
        broker = cleanup info.task_id false false (task_result canceled) w.broker;
      })).0
          ≡ panic)
        × ((consume_turn k info r ms (record w { broker = close w.broker })).0 ≡ panic)
  consume_turn-races ms w active = (
    consume_turn-panic ms _ (cleanup-client w.broker info.task_id r active),
    consume_turn-panic ms _ (close-client w.broker info.task_id r active),
  )
