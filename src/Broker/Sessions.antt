-- ===== src/Broker/Sessions.antt =====
-- internal/service/broker.go, lines 153 to 304: sessions, and the choice of the session that a new
-- task continues.
use Prim.Native.String.{◌++◌}
use codex_a2a.Base.{
  ℕ, String, Bool, true, false, not, Option, none, some, List, [], ◌∷◌, Error, errorf, wrap, Result,
  ok, err, panic, ◌>>◌, eqb, if◌then◌else◌,
}
pub use codex_a2a.Base.Maps.{update}
use codex_a2a.Base.Maps.{Map, lookup}
use codex_a2a.Config.{Config, RequestOptions, validate}
use codex_a2a.Runtime.{TaskRuntime, new_task_runtime, blocks_branching}
use codex_a2a.Wire.{RawMessage, Sent, thread_start, thread_fork, decode_json}

-- `client` is the handle of the session's process, or nil.
pub record TaskSession : Type 0 where
  pub task_id : String
  pub context_id : String
  pub thread_id : String
  pub parent_task_id : String
  pub options : RequestOptions
  pub client : Option ℕ
  pub child_count : ℕ

pub record ContextState : Type 0 where
  pub context_id : String
  pub tasks : Map ℕ

pub record Broker : Type 0 where
  pub config : Config
  pub contexts : Map ContextState
  pub tasks : Map ℕ
  pub session : ℕ → TaskSession
  pub next_session : ℕ
  pub runtime : ℕ → TaskRuntime
  pub next_runtime : ℕ
  pub running : List ℕ
  pub sent : List (ℕ × Sent)

-- What is at a reference that was not allocated.
abbrev no_session : RequestOptions → TaskSession
no_session o = record {
  task_id = "";
  context_id = "";
  thread_id = "";
  parent_task_id = "";
  options = o;
  client = none;
  child_count = 0;
}

abbrev no_options : RequestOptions
no_options = record { cwd = ""; model = ""; approval_policy = ""; sandbox = ""; codex_config = [] }

unfoldable pub new_broker : Config → Result Error Broker
new_broker cfg = do
  validate cfg
  ok (record {
    config = cfg;
    contexts = [];
    tasks = [];
    session = λ _. no_session no_options;
    next_session = 0;
    runtime = λ _. new_task_runtime "" "" 0 0;
    next_runtime = 0;
    running = [];
    sent = [];
  })

-- How the outside answers while a session is opened: `launchCodexClient`, which gives the handle of
-- a new process, `client.request`, and `json.Unmarshal` into a `threadResponse`, whose thread id
-- alone is read.
pub record Answers : Type 0 where
  pub launched : Result Error ℕ
  pub reply : Result Error RawMessage
  pub unmarshal_thread : RawMessage → Result Error String

abbrev pub without : ℕ → List ℕ → List ℕ
without c [] = []
without c (d ∷ ds) = let rest = without c ds in if eqb d c then rest else d ∷ rest

-- `client.Close()` kills the process.
abbrev pub close_client : ℕ → Broker → Broker
close_client c b = record b { running = without c b.running }

abbrev pub send : ℕ → Sent → Broker → Broker
send c message b = record b { sent = (c, message) ∷ b.sent }

-- The end of `startSession` and `forkSession`: the reply is decoded, and an error closes the client.
abbrev pub opened :
    ℕ
    → String
    → (String → TaskSession)
    → Broker
    → Result Error String
    → Result Error TaskSession × Broker
opened c label make b (ok thread_id) = (ok (make thread_id), b)
opened c label make b (err e) = (err (wrap label e), close_client c b)
opened c label make b panic = (panic, b)

abbrev pub replied :
    Answers
    → ℕ
    → String
    → (String → TaskSession)
    → Broker
    → Result Error RawMessage
    → Result Error TaskSession × Broker
replied a c label make b (ok raw) = opened c label make b (decode_json a.unmarshal_thread "" raw)
replied a c label make b (err e) = (err e, close_client c b)
replied a c label make b panic = (panic, b)

-- Both launch a client, send one request and decode its reply.
abbrev pub launch_and_request :
    Answers
    → Sent
    → String
    → (ℕ → String → TaskSession)
    → Broker
    → Result Error ℕ
    → Result Error TaskSession × Broker
launch_and_request a message label make b (err e) = (err e, b)
launch_and_request a message label make b panic = (panic, b)
launch_and_request a message label make b (ok c) =
    replied a c label (make c) (send c message (record b { running = c ∷ b.running })) a.reply

unfoldable pub start_session :
    Broker → String → String → RequestOptions → Answers → Result Error TaskSession × Broker
start_session b task_id context_id options a =
    let message = thread_start (record {
      cwd = options.cwd;
      model = options.model;
      approval_policy = options.approval_policy;
      sandbox = options.sandbox;
      config = options.codex_config;
      experimental_raw_events = false;
      persist_extended_history = true;
    }) in
    let make = λ (c : ℕ) (thread_id : String). record (no_session options) {
      task_id = task_id;
      context_id = context_id;
      thread_id = thread_id;
      client = some c;
    } in
    launch_and_request a message "decode thread/start response" make b a.launched

unfoldable pub fork_session :
    Broker
    → String
    → String
    → TaskSession
    → RequestOptions
    → Answers
    → Result Error TaskSession × Broker
fork_session b task_id context_id parent options a =
    let message = thread_fork (record {
      thread_id = parent.thread_id;
      cwd = options.cwd;
      model = options.model;
      approval_policy = options.approval_policy;
      sandbox = options.sandbox;
      config = options.codex_config;
      persist_extended_history = true;
    }) in
    let make = λ (c : ℕ) (thread_id : String). record (no_session options) {
      task_id = task_id;
      context_id = context_id;
      thread_id = thread_id;
      parent_task_id = parent.task_id;
      client = some c;
    } in
    launch_and_request a message "decode thread/fork response" make b a.launched

abbrev runtime_blocks : Broker → Option ℕ → Bool
runtime_blocks b none = false
runtime_blocks b (some r) = blocks_branching (b.runtime r)

-- `runtime := b.tasks[taskID]; runtime != nil && runtime.blocksBranching()`
unfoldable pub task_blocks : Broker → String → Bool
task_blocks b task_id = runtime_blocks b (lookup task_id b.tasks)

abbrev second_leaf : String → Option ℕ → Result Error (Option ℕ) → Result Error (Option ℕ)
second_leaf context_id none rest = rest
second_leaf context_id (some leaf) rest =
    err (
      errorf
        ("context " ++ (context_id ++ " has multiple task branches; specify referenceTaskIds")))

-- The loop over `state.tasks`, on the entries in the order in which they are visited.
unfoldable pub find_leaf : Broker → String → Map ℕ → Option ℕ → Result Error (Option ℕ)
find_leaf b context_id [] leaf = ok leaf
find_leaf b context_id ((task_id, r) ∷ entries) leaf =
    let skip = find_leaf b context_id entries leaf in
    let take = find_leaf b context_id entries (some r) in
    if not (eqb (b.session r).child_count 0)
    then skip
    else if task_blocks b (b.session r).task_id
    then err (
        errorf (
          "context "
          ++ (context_id
              ++ (" has an active task "
                  ++ ((b.session r).task_id
                      ++ "; wait for it to finish or specify referenceTaskIds")))))
    else second_leaf context_id leaf take

-- The one reference of a request.
unfoldable pub referenced : Broker → String → String → Option ℕ → Result Error (Option ℕ)
referenced b context_id task_id none =
    err (errorf ("reference task " ++ (task_id ++ (" is not part of context " ++ context_id))))
referenced b context_id task_id (some r) =
    if task_blocks b task_id
    then err (
        errorf (
          "reference task "
          ++ (task_id ++ " is still active; wait for it to finish before branching")))
    else ok (some r)

-- The order in which `range` visits a map is unspecified: it is the function `order`.
unfoldable pub resolve_tasks :
    (Map ℕ → Map ℕ) → Broker → String → Map ℕ → List String → Result Error (Option ℕ)
resolve_tasks order b context_id [] [] = ok none
resolve_tasks order b context_id [] (t ∷ ts) =
    err (errorf ("context " ++ (context_id ++ " does not contain referenced tasks")))
resolve_tasks order b context_id (e ∷ es) [] = find_leaf b context_id (order (e ∷ es)) none
resolve_tasks order b context_id (e ∷ es) (t ∷ []) = referenced b context_id t (lookup t (e ∷ es))
resolve_tasks order b context_id (e ∷ es) (t ∷ u ∷ ts) = err (
    errorf (
      "context " ++ (context_id ++ " has multiple references; supply exactly one referenceTaskId")))

-- `b.contexts[contextID]`, as its tasks: a nil context has none.
abbrev pub context_tasks : Option ContextState → Map ℕ
context_tasks none = []
context_tasks (some state) = state.tasks

unfoldable pub resolve_base_session :
    (Map ℕ → Map ℕ) → Broker → String → List String → Result Error (Option ℕ)
resolve_base_session order b context_id references =
    resolve_tasks order b context_id (context_tasks (lookup context_id b.contexts)) references
