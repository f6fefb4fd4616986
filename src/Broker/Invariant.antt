-- ===== src/Broker/Invariant.antt =====
-- The invariant of the broker: each context is a forest, and each active task has an allocated
-- runtime whose session stands in its context under the task's id and holds a client.
pub mod Register
pub mod Finish
pub mod Reach
use codex_a2a.Base.{ℕ, ◌<◌, String, ◌≡◌, Option, some}
use codex_a2a.Base.Maps.{Map, lookup}
use codex_a2a.Runtime.{TaskRuntime}
use codex_a2a.Broker.Sessions.{Broker, context_tasks}
use codex_a2a.Broker.Forest.Links.{IsForest}

abbrev pub tasks_in : Broker → String → Map ℕ
tasks_in b c = context_tasks (lookup c b.contexts)

abbrev pub client_of : Broker → ℕ → Option ℕ
client_of b r = (b.session (b.runtime r).session).client

pub record IsLinked (b : Broker) (t : String) (r : ℕ) : Type 0 where
  pub allocated : r < b.next_runtime
  pub same_task : (b.runtime r).task_id ≡ t
  pub in_context : lookup t (tasks_in b (b.runtime r).context_id) ≡ some (b.runtime r).session
  pub client : ℕ
  pub holds_client : client_of b r ≡ some client

-- A link, by the runtime that stands at the reference.
pub linked_by :
    (b : Broker) (t : String) (r : ℕ) (rt : TaskRuntime) (client : ℕ)
    → b.runtime r ≡ rt
    → r < b.next_runtime
    → rt.task_id ≡ t
    → lookup t (tasks_in b rt.context_id) ≡ some rt.session
    → (b.session rt.session).client ≡ some client
    → IsLinked b t r
linked_by b t r rt client e allocated same_task in_context holds = record {
  allocated = allocated;
  same_task = rw e same_task;
  in_context = rw e in_context;
  client = client;
  holds_client = rw (client_of, e) holds;
}

pub record IsWellFormed (b : Broker) : Type 0 where
  pub forest : (c : String) → IsForest b.next_session b.session c (tasks_in b c)
  pub linked : (t : String) (r : ℕ) → lookup t b.tasks ≡ some r → IsLinked b t r
