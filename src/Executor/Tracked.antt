-- ===== src/Executor/Tracked.antt =====
-- The runtime of a task, from its start on: the broker finds it under the task's id, or has forgotten
-- the task.
use codex_a2a.Base.{
  ℕ, String, ◌≡◌, refl, ◌⊎◌, inl, inr, Option, none, some, Option-cases, List, [], ◌∷◌, Error, zero,
  suc, Result, ok, err, panic, ◌>>=◌ as bind, ◌==◌, Bool-cases, arith,
}
use codex_a2a.Base.Maps.{Map, lookup, lookup-insert_self}
use codex_a2a.Config.{RequestOptions}
use codex_a2a.Runtime.{set_pending}
use codex_a2a.Wire.{
  RawMessage, Sent, CodexTurn, IncomingMessage, TurnCompletedNotification, decode_json,
}
use codex_a2a.Broker.Sessions.{TaskSession, Broker, Answers, send, resolve_base_session}
use codex_a2a.Broker.Tasks.{
  register, registered, open_session, start_from, start_task, task, update_runtime,
}
use codex_a2a.Executor.Events.{Codec, TaskInfo, Event}
use codex_a2a.Executor.Messages.{
  Outcome, continues, pauses, finishes, Handled, Paused, handle_server_request, handle_notification,
  complete_turn, Notification, turn_started, turn_completed, diff_updated, plan_updated,
  agent_message_delta, command_output_delta, file_change_delta, item_started, item_completed,
  request_resolved, unknown, handle, notification_of,
}
use codex_a2a.Executor.World.{
  World, Action, ◌>>=◌, ◌>>◌, continue, on_error, recover, lift, pure, modify, take_event, write,
  write_events, answer, written, request, respond, client_of_runtime,
}
use codex_a2a.Executor.Turn.{
  finish_and_fail, take_notification, take_request, settle, handle_message,
}
use codex_a2a.Executor.Safety.Actions.{Spared}

-- What holds when an action ends without an error.
abbrev pub Keeps : {A : Type 0} → (A → World → Type 0) → Result Error A × World → Type 0
Keeps P (ok a, w) = P a w
Keeps P (err e, w) = Unit {0}
Keeps P (panic, w) = Unit {0}

module _ {A B : Type 0} (P : A → World → Type 0) (Q : B → World → Type 0) (f : A → Action B) where
  continue-Keeps :
      (x : Result Error A) (w : World)
      → Keeps P (x, w)
      → ((a : A) (w' : World) → P a w' → Keeps Q (f a w'))
      → Keeps Q (continue x f w)
  continue-Keeps (ok a) w p h = h a w p
  continue-Keeps (err e) w p h = tt
  continue-Keeps panic w p h = tt

  pub >>=-Keeps :
      (m : Action A) (w : World)
      → Keeps P (m w)
      → ((a : A) (w' : World) → P a w' → Keeps Q (f a w'))
      → Keeps Q ((m >>= f) w)
  >>=-Keeps m w p h = continue-Keeps (m w).0 (m w).1 p h

module _ {A : Type 0} (P : A → World → Type 0) where
  recover-Keeps :
      (x : Result Error A) (handler : Error → Action A) (w : World)
      → Keeps P (x, w)
      → ((e : Error) (w' : World) → Keeps P (handler e w'))
      → Keeps P (recover x handler w)
  recover-Keeps (ok a) handler w p h = p
  recover-Keeps (err e) handler w p h = h e w
  recover-Keeps panic handler w p h = tt

  pub on_error-Keeps :
      (m : Action A) (handler : Error → Action A) (w : World)
      → Keeps P (m w)
      → ((e : Error) (w' : World) → Keeps P (handler e w'))
      → Keeps P (on_error m handler w)
  on_error-Keeps m handler w p h = recover-Keeps (m w).0 handler (m w).1 p h

module _ {A : Type 0} (P : World → Type 0) where
  -- An action that leaves the world as it is.
  pub lift-Keeps : (x : Result Error A) (w : World) → P w → Keeps (λ a. P) (x, w)
  lift-Keeps (ok a) w h = h
  lift-Keeps (err e) w h = tt
  lift-Keeps panic w h = tt

module _ (id : String) where
  -- The broker leads from the task's id to this runtime, or to none.
  abbrev pub Tracks : ℕ → Broker → Type 0
  Tracks r b = (lookup id b.tasks ≡ some r) ⊎ (lookup id b.tasks ≡ none)

  -- And so it stays, whatever others do while a message or a reply is waited for.
  abbrev pub Kept : ℕ → World → Type 0
  Kept r w =
      Tracks r w.broker
      × Spared (Tracks r) w.incoming
      × ((b : Broker) → Tracks r b → Tracks r (w.meanwhile b))

  module _ (r : ℕ) where
    taken-Kept : (e : Event) (n : ℕ) (w : World) → Kept r w → Keeps (λ u. Kept r) (take_event n e w)
    taken-Kept e zero w h = tt
    taken-Kept e (suc n) w h = h

    pub write-Kept : (e : Event) (w : World) → Kept r w → Keeps (λ u. Kept r) (write e w)
    unfolding write
    write-Kept e w h = taken-Kept e w.accepts w h

    write_events-Kept :
        (es : List Event) (w : World) → Kept r w → Keeps (λ u. Kept r) (write_events es w)
    unfolding write_events
    write_events-Kept [] w h = h
    write_events-Kept (e ∷ es) w h =
        >>=-Keeps (λ u. Kept r) (λ u. Kept r) (λ u. write_events es) (write e) w (write-Kept e w h)
          λ u w' h'. write_events-Kept es w' h'

    pub client_of_runtime-Kept :
        (w : World) → Kept r w → Keeps (λ c. Kept r) (client_of_runtime r w)
    unfolding client_of_runtime
    client_of_runtime-Kept w h = lift-Keeps (Kept r) _ w h

    answer-Kept :
        (replies : List (Result Error RawMessage)) (w : World)
        → Kept r w
        → Keeps (λ raw. Kept r) (answer replies w)
    answer-Kept [] w h = tt
    answer-Kept (ok raw ∷ replies) w h = h
    answer-Kept (err e ∷ replies) w h = tt
    answer-Kept (panic ∷ replies) w h = tt

    pub request-Kept :
        (c : ℕ) (message : Sent) (w : World)
        → Kept r w
        → Keeps (λ raw. Kept r) (request c message w)
    unfolding request
    request-Kept c message w h =
        answer-Kept w.replies (record w { broker = w.meanwhile (send c message w.broker) })
          (h.2 (send c message w.broker) h.0, h.1, h.2)

    written-Kept :
        (writes : List (Result Error Unit)) (w : World)
        → Kept r w
        → Keeps (λ u. Kept r) (written writes w)
    written-Kept [] w h = tt
    written-Kept (ok u ∷ writes) w h = h
    written-Kept (err e ∷ writes) w h = tt
    written-Kept (panic ∷ writes) w h = tt

    pub respond-Kept :
        (c : ℕ) (message : Sent) (w : World) → Kept r w → Keeps (λ u. Kept r) (respond c message w)
    unfolding respond
    respond-Kept c message w h =
        written-Kept w.writes (record w { broker = w.meanwhile (send c message w.broker) })
          (h.2 (send c message w.broker) h.0, h.1, h.2)

-- A notification leaves the active tasks of the broker.
module _ (k : Codec) (info : TaskInfo) (now : ℕ) (b : Broker) (r : ℕ) where
  complete_turn-tasks :
      (turn : CodexTurn) (h : Handled)
      → complete_turn k info now b r turn ≡ ok h
      → h.broker.tasks ≡ b.tasks
  unfolding complete_turn
  complete_turn-tasks turn h e = ground arith

  decoded_turn-tasks :
      (d : Result Error TurnCompletedNotification) (h : Handled)
      → bind d (λ n. complete_turn k info now b r n.turn) ≡ ok h
      → h.broker.tasks ≡ b.tasks
  decoded_turn-tasks (ok n) h e = complete_turn-tasks n.turn h e
  decoded_turn-tasks (err x) h e = ground arith
  decoded_turn-tasks panic h e = ground arith

  handle-tasks :
      (n : Notification) (params : RawMessage) (h : Handled)
      → handle k info now b r n params ≡ ok h
      → h.broker.tasks ≡ b.tasks
  handle-tasks turn_started params h e = ground arith
  handle-tasks turn_completed params h e =
      decoded_turn-tasks
        (decode_json k.unmarshal_turn_completed
          (record { thread_id = ""; turn = record { id = ""; status = ""; error = none } }) params)
        h e
  handle-tasks diff_updated params h e = ground arith
  handle-tasks plan_updated params h e = ground arith
  handle-tasks agent_message_delta params h e = ground arith
  handle-tasks command_output_delta params h e = ground arith
  handle-tasks file_change_delta params h e = ground arith
  handle-tasks item_started params h e = ground arith
  handle-tasks item_completed params h e = ground arith
  handle-tasks request_resolved params h e = ground arith
  handle-tasks unknown params h e = ground arith

  handle_notification-tasks :
      (msg : IncomingMessage) (h : Handled)
      → handle_notification k info now b r msg ≡ ok h
      → h.broker.tasks ≡ b.tasks
  unfolding handle_notification
  handle_notification-tasks msg h e = handle-tasks (notification_of msg.method) msg.params h e

module _ (k : Codec) (info : TaskInfo) (r : ℕ) where
  -- The runtime is tracked as long as the task is not finished.
  abbrev pub Goes : Outcome → World → Type 0
  Goes continues w = Kept info.task_id r w
  Goes pauses w = Kept info.task_id r w
  Goes finishes w = Unit {0}

  settle-Goes : (o : Outcome) (w : World) → Kept info.task_id r w → Keeps Goes (settle k info o w)
  settle-Goes continues w h = h
  settle-Goes pauses w h = h
  settle-Goes finishes w h = tt

  notified-Goes :
      (x : Result Error Handled) (w : World)
      → ((h : Handled) → x ≡ ok h → h.broker.tasks ≡ w.broker.tasks)
      → Kept info.task_id r w
      → Keeps Goes (
          (on_error (lift x) (finish_and_fail info.task_id) >>= λ h.
          take_notification k info h >>= settle k info)
            w)
  notified-Goes (ok h) w same kept =
      >>=-Keeps (λ o. Kept info.task_id r) Goes (settle k info) (take_notification k info h) w
        (>>=-Keeps (λ u. Kept info.task_id r) (λ o. Kept info.task_id r) (λ u. pure h.outcome)
          (write_events h.events) (record w { broker = h.broker })
          (write_events-Kept info.task_id r h.events (record w { broker = h.broker })
            (rw (same h refl) kept.0, kept.1, kept.2))
          λ u w' h'. h')
        settle-Goes
  notified-Goes (err e) w same kept = tt
  notified-Goes panic w same kept = tt

  requested-Goes :
      (x : Result Error Paused) (w : World)
      → Kept info.task_id r w
      → Keeps Goes ((on_error (lift x) (finish_and_fail info.task_id) >>= take_request k info r) w)
  requested-Goes (ok p) w kept =
      >>=-Keeps (λ u. Kept info.task_id r) Goes
        (λ u. modify (update_runtime r (set_pending p.pending)) >> pure pauses)
        (write_events p.events) w (write_events-Kept info.task_id r p.events w kept) λ u w' h'. h'
  requested-Goes (err e) w kept = tt
  requested-Goes panic w kept = tt

  pub handle_message-Goes :
      (msg : IncomingMessage) (w : World)
      → Kept info.task_id r w
      → Keeps Goes (handle_message k info r msg w)
  unfolding handle_message
  handle_message-Goes msg w kept = elim (Bool-cases (msg.id == "")) [
    | inl q ↦ rw q (
        notified-Goes (handle_notification k info w.now w.broker r msg) w
          (handle_notification-tasks k info w.now w.broker r msg) kept)
    | inr q ↦ rw q (requested-Goes (handle_server_request k info msg) w kept)
  ]

-- A task that is started is found under its id.
abbrev pub Registers : String → Result Error ℕ × Broker → Type 0
Registers id (ok r, b) = lookup id b.tasks ≡ some r
Registers id (err e, b) = Unit {0}
Registers id (panic, b) = Unit {0}

registered-Registers :
    (id c : String) (now : ℕ) (x : Result Error TaskSession × Broker)
    → Registers id (registered id c now x)
unfolding register
registered-Registers id c now (ok s, b) = lookup-insert_self id b.next_runtime b.tasks
registered-Registers id c now (err e, b) = tt
registered-Registers id c now (panic, b) = tt

start_from-Registers :
    (b : Broker) (id c : String) (o : RequestOptions) (a : Answers) (now : ℕ)
    (x : Result Error (Option ℕ))
    → Registers id (start_from b id c o a now x)
start_from-Registers b id c o a now (ok parent) =
    registered-Registers id c now (open_session b id c o a parent)
start_from-Registers b id c o a now (err e) = tt
start_from-Registers b id c o a now panic = tt

pub start_task-Registers :
    (order : Map ℕ → Map ℕ) (b : Broker) (id c : String) (o : RequestOptions)
    (references : List String) (a : Answers) (now : ℕ)
    → Registers id (start_task order b id c o references a now)
unfolding start_task
start_task-Registers order b id c o references a now =
    start_from-Registers b id c o a now (resolve_base_session order b c references)

pub task-lookup : (b : Broker) (id : String) (r : ℕ) → task b id ≡ ok r → lookup id b.tasks ≡ some r
unfolding task
task-lookup b id r e = elim (Option-cases (lookup id b.tasks)) [
  | inl absent ↦ cc (rw absent at e)
  | inr (q, found) ↦ ground (arith, found, rw found at e)
]
