-- ===== src/Executor/Safety/Broker.antt =====
-- Starting and finding a task: the broker does not panic, and the task's session holds a client.
use codex_a2a.Base.{
  ℕ, String, ◌≡◌, refl, ◌∙◌, Option, none, some, List, [], ◌∷◌, Error, Result, ok, err, panic,
  NoPanic, never_panics, arith,
}
use codex_a2a.Base.Maps.{Map, lookup}
use codex_a2a.Runtime.{new_task_runtime}
use codex_a2a.Config.{RequestOptions}
use codex_a2a.Wire.{RawMessage, Sent, decode_json}
use codex_a2a.Broker.Sessions.{
  TaskSession, Broker, Answers, start_session, fork_session, opened, replied, launch_and_request,
  send, update, find_leaf, referenced, resolve_tasks, resolve_base_session, context_tasks,
}
use codex_a2a.Broker.Tasks.{
  start_task, start_from, open_session, registered, register, ensure_context, task, found_task,
}
use codex_a2a.Broker.Forest.Insert.{bump_parent-SameParent}
use codex_a2a.Broker.Invariant.{client_of, IsWellFormed}
use codex_a2a.Executor.Safety.Actions.{decode_json-NoPanic}

-- The outside answers while a session is opened: launching, requesting and decoding return.
pub record Opens (a : Answers) : Type 0 where
  pub launched : NoPanic a.launched
  pub reply : NoPanic a.reply
  pub unmarshal_thread : (raw : RawMessage) → NoPanic (a.unmarshal_thread raw)

-- A session that is opened holds a client.
abbrev OpensClient : Result Error TaskSession × Broker → Type 0
OpensClient (ok s, b) = (c : ℕ) × (s.client ≡ some c)
OpensClient (err e, b) = Unit {0}
OpensClient (panic, b) = ⊥

-- A task that is started has a session with a client.
abbrev pub StartsClient : Result Error ℕ × Broker → Type 0
StartsClient (ok r, b) = (c : ℕ) × (client_of b r ≡ some c)
StartsClient (err e, b) = Unit {0}
StartsClient (panic, b) = ⊥

module _ (a : Answers) (h : Opens a) (message : Sent) (label : String)
    (make : ℕ → String → TaskSession) where
  opened-OpensClient :
      (c : ℕ) (b : Broker) (x : Result Error String)
      → NoPanic x
      → ((thread_id : String) → (make c thread_id).client ≡ some c)
      → OpensClient (opened c label (make c) b x)
  opened-OpensClient c b (ok thread_id) p holds = (c, holds thread_id)
  opened-OpensClient c b (err e) p holds = tt
  opened-OpensClient c b panic p holds = p

  replied-OpensClient :
      (c : ℕ) (b : Broker) (x : Result Error RawMessage)
      → NoPanic x
      → ((thread_id : String) → (make c thread_id).client ≡ some c)
      → OpensClient (replied a c label (make c) b x)
  replied-OpensClient c b (ok raw) p holds =
      opened-OpensClient c b (decode_json a.unmarshal_thread "" raw)
        (decode_json-NoPanic a.unmarshal_thread "" raw h.unmarshal_thread) holds
  replied-OpensClient c b (err e) p holds = tt
  replied-OpensClient c b panic p holds = p

  launch_and_request-OpensClient :
      (b : Broker) (x : Result Error ℕ)
      → NoPanic x
      → ((c : ℕ) (thread_id : String) → (make c thread_id).client ≡ some c)
      → OpensClient (launch_and_request a message label make b x)
  launch_and_request-OpensClient b (ok c) p holds =
      replied-OpensClient c (send c message (record b { running = c ∷ b.running })) a.reply h.reply
        (holds c)
  launch_and_request-OpensClient b (err e) p holds = tt
  launch_and_request-OpensClient b panic p holds = p

open_session-OpensClient :
    (b : Broker) (t c : String) (o : RequestOptions) (a : Answers) (parent : Option ℕ)
    → Opens a
    → OpensClient (open_session b t c o a parent)
unfolding start_session fork_session
open_session-OpensClient b t c o a none h =
    launch_and_request-OpensClient a h _ "decode thread/start response" _ b a.launched h.launched
      λ k thread_id. refl
open_session-OpensClient b t c o a (some p) h =
    launch_and_request-OpensClient a h _ "decode thread/fork response" _ b a.launched h.launched
      λ k thread_id. refl

find_leaf-ne_panic :
    (b : Broker) (c : String) (es : Map ℕ) (leaf : Option ℕ) → ¬ (find_leaf b c es leaf ≡ panic)
unfolding find_leaf
find_leaf-ne_panic b c [] leaf e = ground (arith, e)
find_leaf-ne_panic b c ((t, r) ∷ es) leaf e =
    ground (arith, e, find_leaf-ne_panic b c es leaf, find_leaf-ne_panic b c es (some r))

resolve_tasks-ne_panic :
    (order : Map ℕ → Map ℕ) (b : Broker) (c : String) (es : Map ℕ) (references : List String)
    → ¬ (resolve_tasks order b c es references ≡ panic)
unfolding resolve_tasks referenced
resolve_tasks-ne_panic order b c [] [] e = ground (arith, e)
resolve_tasks-ne_panic order b c [] (t ∷ ts) e = ground (arith, e)
resolve_tasks-ne_panic order b c (x ∷ es) [] e = find_leaf-ne_panic b c (order (x ∷ es)) none e
resolve_tasks-ne_panic order b c (x ∷ es) (t ∷ []) e = ground (arith, e)
resolve_tasks-ne_panic order b c (x ∷ es) (t ∷ u ∷ ts) e = ground (arith, e)

register-client :
    (b : Broker) (t c : String) (s : TaskSession) (now : ℕ)
    → client_of (register b t c s now).1 (register b t c s now).0 ≡ s.client
unfolding register new_task_runtime
register-client b t c s now = ground (
  arith,
  (bump_parent-SameParent s.parent_task_id (context_tasks (lookup c (ensure_context c b.contexts)))
      (update b.session b.next_session s) b.next_session).client,
)

registered-StartsClient :
    (t c : String) (now : ℕ) (x : Result Error TaskSession) (b : Broker)
    → OpensClient (x, b)
    → StartsClient (registered t c now (x, b))
registered-StartsClient t c now (ok s) b (k, holds) = (k, register-client b t c s now ∙ holds)
registered-StartsClient t c now (err e) b h = tt
registered-StartsClient t c now panic b h = h

start_from-StartsClient :
    (b : Broker) (t c : String) (o : RequestOptions) (a : Answers) (now : ℕ)
    (parent : Result Error (Option ℕ))
    → Opens a
    → NoPanic parent
    → StartsClient (start_from b t c o a now parent)
start_from-StartsClient b t c o a now (ok parent) h p =
    registered-StartsClient t c now (open_session b t c o a parent).0
      (open_session b t c o a parent).1 (open_session-OpensClient b t c o a parent h)
start_from-StartsClient b t c o a now (err e) h p = tt
start_from-StartsClient b t c o a now panic h p = p

-- Starting a task does not panic when opening a session does not, and the session that it starts
-- holds a client.
pub start_task-StartsClient :
    (order : Map ℕ → Map ℕ) (b : Broker) (t c : String) (o : RequestOptions)
    (references : List String) (a : Answers) (now : ℕ)
    → Opens a
    → StartsClient (start_task order b t c o references a now)
unfolding start_task resolve_base_session
start_task-StartsClient order b t c o references a now h =
    start_from-StartsClient b t c o a now _ h (
      never_panics _
        (resolve_tasks-ne_panic order b c (context_tasks (lookup c b.contexts)) references))

found_task-StartsClient :
    (b : Broker) (t : String) (o : Option ℕ)
    → IsWellFormed b
    → lookup t b.tasks ≡ o
    → StartsClient (found_task t o, b)
found_task-StartsClient b t none w e = tt
found_task-StartsClient b t (some r) w e = ((w.linked t r e).client, (w.linked t r e).holds_client)

-- An active task of a well-formed broker has a session with a client.
pub task-StartsClient : (b : Broker) (t : String) → IsWellFormed b → StartsClient (task b t, b)
unfolding task
task-StartsClient b t w = found_task-StartsClient b t (lookup t b.tasks) w refl
