-- ===== src/Lib.antt =====
-- codex-a2a: an A2A server in front of `codex app-server`.
--
-- A request of the A2A protocol reaches the executor (internal/service/executor.go). It validates
-- the configuration (internal/service/config.go), asks the broker (internal/service/broker.go) for
-- a task, whose session is a new Codex thread or a fork of the thread of an earlier task of the same
-- context, starts a turn in the task's own app-server process and translates the messages of that
-- process into events until the turn pauses or ends. Tasks are stored, listed and paged by
-- internal/service/taskstore.go. A session's process is behind a client
-- (internal/service/codex_client.go), whose goroutines read its lines, match answers to requests and
-- hand notifications to the executor. Two more modes of the program are a proxy that adds the
-- credentials of Codex to Responses requests (internal/service/auth_proxy.go) and a mock of the
-- endpoint behind it (internal/service/mock_responses.go); cmd/codex-a2a/main.go chooses the mode.
--
-- Files and what they model:
--   Base, Base/*: Go's strings, maps and errors. A map is an association list; where the program
--     ranges over a map, the order is a function that the theorems leave free. `panic` is a run-time
--     panic. `Value` is a JSON value, as `map[string]any` holds it.
--   Config: config.go (Config.validate, request_options_from_config, normalize_sandbox,
--     merged_codex_config). Config/Options and Config/Merge hold its theorems.
--   Wire: the messages of codex_types.go, and decodeJSON and incomingMessage of codex_client.go.
--   Runtime: taskRuntime and pendingRequest of broker.go, one function per method.
--   Broker/Sessions, Broker/Tasks: broker.go. Sessions and runtimes are shared by pointer in Go; the
--     model has two heaps, from references to values. The process of a session is a number;
--     `running` are the processes that have been started and not been closed, `sent` what was
--     written to them. Answers is what the start of a process and its first request give back.
--     Broker/Opened, Broker/Branching, Broker/Forest, Broker/Invariant, Broker/Continuity and
--     Broker/Lifecycle hold the theorems.
--   Executor/Events, Executor/Input, Executor/Artifacts, Executor/Messages: the pure parts of
--     executor.go: events, message parts, artifacts, notifications and server requests.
--   Executor/World, Executor/Turn, Executor/Execute: its stateful parts, as actions on a World: the
--     broker, what the outside will answer, and the events that were yielded. The messages of the
--     app-server are a list, each with the time at which it is handled and what other requests do to
--     the broker while it is waited for; a list that is used up is a `next` that ends with an error.
--     `meanwhile` is what they do while a call of `request` or `respond` waits. While a session is
--     opened or the consumer takes an event they do nothing; the steps of Broker/Invariant/Reach come
--     in any order.
--     Executor/Completed, Executor/Outcomes, Executor/Tracked, Executor/Settled, Executor/Failures,
--     Executor/Replies, Executor/Deltas, Executor/Streaming, Executor/Safety/*, Executor/Races and
--     Executor/Cancellation hold the theorems.
--   TaskStore/Store, TaskStore/Listing, TaskStore/Request: taskstore.go (create, update, get, list,
--     paginate_tasks, the page tokens). TaskStore/Ownership, TaskStore/Versions, TaskStore/Visible,
--     TaskStore/Tokens, TaskStore/Pages, TaskStore/Cover, TaskStore/Order, TaskStore/Keyed and
--     TaskStore/Complete hold the theorems.
--   Client/Lines: what codex_client.go computes from lines, environments and exit states (read_line,
--     append_stderr, lookup_env, codex_command). Client/Launch: launchCodexClient and initialize, as
--     the list of what they do to the outside and a result.
--   Client/State, Client/Threads, Client/Moves: the goroutines of codex_client.go. A state is the
--     client, with its channels in a heap, and where each goroutine stands. A step is one shared
--     access of one goroutine: an atomic operation, a section under the lock, a send, a receive or a close of a
--     channel. Goroutines 0, 1 and 2 are readLoop, waitLoop and stderrLoop, any other calls methods;
--     any goroutine that can move may move next, and of the ready cases of a select any may be taken.
--     What is read, the exit state, the failure of a write and a cancelled context are whatever the
--     outside makes them. Fields that only record history (answers, sent_events, received_events,
--     written, finisher, and owner, key, caller and received of a channel) are read by no step.
--     Client/Pending and Client/Invariant/* hold the invariant of all reachable states,
--     Client/Promises, Client/Ending, Client/Races, Client/Logs and Client/Leaks the theorems.
--   AuthProxy/Auth, AuthProxy/Headers, AuthProxy/Forward: auth_proxy.go (CurrentAuth, the filters of
--     headers, ServeHTTP with forwardWithRetry and doForward), as the list of what is done to the
--     outside and a result. AuthProxy/Provider: the handler with its helper process.
--     AuthProxy/Retry, AuthProxy/Credentials, AuthProxy/Service and AuthProxy/Usable hold the
--     theorems.
--   MockResponses: mock_responses.go, with MockResponses/Numbers for its theorems. Card: card.go.
--   CommandLine: the flags, modes and base URL of cmd/codex-a2a/main.go. CommandLine/Serve: its modes
--     run to the end of the process, with the calls that are deferred and that log.Fatalf skips.
--     CommandLine/Shutdown holds the theorems.
--   Tests: concrete runs.
--
-- Parameters: the A2A library, and of Go's library the JSON, time, base64, URL and HTTP functions
-- (Codec, TaskJson, TokenCodec, Decoders, ObjectJson, Outside). Locks are not modelled: each
-- operation of the broker and of the store is a step of its own, and so is each section of the
-- client that holds its lock, the write to the process included. Loops are recursions on their
-- lists; the binary search of the pages has the length of the list as fuel, which its halving
-- interval never uses up, and decimal numbers have one unit of fuel more than the number. Versions
-- and times are natural numbers without a bound. The time of an update is one number, which orders
-- the tasks and is told by a page token: Go's clock has a monotonic reading for the first and a wall
-- reading for the second, which differ after a step of the wall clock. A panic of a goroutine other
-- than that of `main` ends the program without its deferred calls; when one comes while a server runs
-- is given to CommandLine/Serve.
--
-- Not modelled: NewHandler of handler.go, which only calls the A2A library, and of
-- cmd/codex-a2a/main.go what flag.Parse, net/http and the signals do.
pub mod Base
pub mod Value
pub mod Config
pub mod Wire
pub mod Runtime
pub mod Client
pub mod AuthProxy
pub mod MockResponses
pub mod Card
pub mod CommandLine
pub mod Broker
pub mod Executor
pub mod TaskStore
mod Tests
