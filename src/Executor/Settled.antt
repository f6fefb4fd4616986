-- ===== src/Executor/Settled.antt =====
-- `Execute` from its first event to its last: what a request leaves of its task.
use codex_a2a.Base.{
  ℕ, ◌≡◌, refl, ◌⊎◌, inl, inr, Option, none, some, List, [], ◌∷◌, Error, zero, suc, Result, ok, err,
  panic, Result-cases, Option-cases,
}
use codex_a2a.Base.Maps.{Map, lookup}
use codex_a2a.Broker.Sessions.{Broker}
use codex_a2a.Config.{RequestOptions, request_options_from_config}
use codex_a2a.Runtime.{PendingRequest}
use codex_a2a.Value.{Value}
use codex_a2a.Wire.{RawMessage, CodexUserInput, decode_json}
use codex_a2a.Broker.Tasks.{task}
use codex_a2a.Broker.Lifecycle.{finish_task-inactive}
use codex_a2a.Executor.Events.{
  Codec, TaskInfo, TaskState, working, canceled, other, failed, input_required, status_with_meta,
  input_required_status,
}
use codex_a2a.Executor.Input.{Message, codex_inputs_from_message, response_for_pending}
use codex_a2a.Executor.Messages.{Outcome, continues, pauses, finishes}
use codex_a2a.Executor.World.{
  World, Incoming, Action, lift, continue, ◌>>=◌, ◌>>◌, on_error, write, recover, client_of_runtime,
  request, respond,
}
use codex_a2a.Executor.Turn.{
  handle_message, consume_turn, go_on, consume, write_working, ask_for_turn, decode_turn,
  send_reply, start_new_turn, resume_input_required, ask_again, answer_pending,
}
use codex_a2a.Executor.Safety.Actions.{Spared}
use codex_a2a.Executor.Tracked.{
  Keeps, >>=-Keeps, on_error-Keeps, lift-Keeps, Tracks, Kept, write-Kept, client_of_runtime-Kept,
  request-Kept, respond-Kept, Goes, handle_message-Goes, Registers, start_task-Registers,
  task-lookup,
}
use codex_a2a.Executor.Outcomes.{IsPaused, IsEnded, Settled, handle_message-Settled}
use codex_a2a.Executor.Execute.{
  start_runtime, execute_new, ExecutorContext, continue_task, execute_stored, execute,
  execute_stream, submit, report_failure,
}

module _ (info : TaskInfo) where
  -- The broker finds a runtime under the task's id that waits for the user, or has forgotten the task.
  abbrev pub IsSettled : World → Type 0
  IsSettled w =
      ((r : ℕ) × (lookup info.task_id w.broker.tasks ≡ some r) × IsPaused info r w) ⊎ IsEnded info w

  abbrev pub Ends : Result Error Unit × World → Type 0
  Ends x = Keeps (λ u. IsSettled) x

  paused-IsSettled :
      (r : ℕ) (w : World) → IsPaused info r w → Tracks info.task_id r w.broker → IsSettled w
  paused-IsSettled r w waits (inl there) = inl (r, there, waits)
  paused-IsSettled r w waits (inr gone) = inr gone

  -- From a world in which the runtime is tracked.
  abbrev pub EndsWell : ℕ → Action Unit → Type 0
  EndsWell r m = (w : World) → Kept info.task_id r w → Ends (m w)

  module _ {A : Type 0} (r : ℕ) (m : Action A) where
    then-Ends :
        (f : A → Action Unit) (w : World)
        → Keeps (λ a. Kept info.task_id r) (m w)
        → ((a : A) → EndsWell r (f a))
        → Ends ((m >>= f) w)
    then-Ends f w kept h = >>=-Keeps (λ a. Kept info.task_id r) (λ u. IsSettled) f m w kept h

  outcome-Ends :
      (k : Codec) (r : ℕ) (rest : Action Unit) (x : Result Error Outcome) (w : World)
      → Settled info r (x, w)
      → Keeps (Goes k info r) (x, w)
      → EndsWell r rest
      → Ends (continue x (λ o. go_on k info o rest) w)
  outcome-Ends k r rest (ok continues) w s kept h = h w kept
  outcome-Ends k r rest (ok pauses) w s kept h = paused-IsSettled r w s kept.0
  outcome-Ends k r rest (ok finishes) w s kept h = inr s
  outcome-Ends k r rest (err e) w s kept h = tt
  outcome-Ends k r rest panic w s kept h = tt

  module _ (k : Codec) where
    pub consume_turn-Ends :
        (r : ℕ) (ms : List Incoming)
        → Spared (Tracks info.task_id r) ms
        → EndsWell r (consume_turn k info r ms)
    unfolding consume_turn
    consume_turn-Ends r [] spared w kept =
        then-Ends r (client_of_runtime r) _ w (client_of_runtime-Kept info.task_id r w kept)
          λ c w' kept'. tt
    consume_turn-Ends r (m ∷ ms) spared w kept =
        then-Ends r (client_of_runtime r) _ w (client_of_runtime-Kept info.task_id r w kept)
          λ c w' kept'.
            let v = record w' { broker = m.others w'.broker; incoming = ms; now = m.time } in
            outcome-Ends k r (consume_turn k info r ms) (handle_message k info r m.message v).0
              (handle_message k info r m.message v).1 (handle_message-Settled info r k m.message v)
              (handle_message-Goes k info r m.message v
                (spared.0 w'.broker kept'.0, spared.1, kept'.2))
              (consume_turn-Ends r ms spared.1)

    working-Ends : (r : ℕ) → EndsWell r (write_working k info r >> consume k info r)
    working-Ends r w kept =
        then-Ends r (write_working k info r) _ w (write-Kept info.task_id r _ w kept)
          λ u w' kept'. consume_turn-Ends r w'.incoming kept'.1 w' kept'

    decode_turn-Kept :
        (r : ℕ) (reply : RawMessage) (w : World)
        → Kept info.task_id r w
        → Keeps (λ turn. Kept info.task_id r) (decode_turn k info reply w)
    decode_turn-Kept r reply w kept =
        let found =
          decode_json k.unmarshal_turn_start (record { id = ""; status = ""; error = none })
            reply in
        elim (Result-cases found) [
          | inl (turn, q) ↦ rw q kept
          | inr (inl (e, q)) ↦ rw q tt
          | inr (inr q) ↦ rw q tt
        ]

    start_new_turn-Ends :
        (r : ℕ) (options : RequestOptions) (input : List CodexUserInput)
        → EndsWell r (start_new_turn k info r options input)
    unfolding start_new_turn request
    start_new_turn-Ends r options input w kept =
        then-Ends r (client_of_runtime r) _ w (client_of_runtime-Kept info.task_id r w kept)
          λ c w' kept'.
            then-Ends r (ask_for_turn k info r options input c w'.broker) _ w'
              (on_error-Keeps (λ reply. Kept info.task_id r) (request c _) _ w'
                (request-Kept info.task_id r c _ w' kept') λ e v. tt)
              λ reply w'' kept''.
                then-Ends r (decode_turn k info reply) _ w'' (decode_turn-Kept r reply w'' kept'')
                  λ turn v last. working-Ends r _ last

    asked-Ends :
        (r : ℕ) (p : PendingRequest) (e : Error) (w : World) (n : ℕ)
        → (w.broker.runtime r).pending ≡ some p
        → Tracks info.task_id r w.broker
        → Ends (ask_again k info p e (record w { accepts = n }))
    unfolding write input_required_status status_with_meta
    asked-Ends r p e w zero h there = tt
    asked-Ends r p e w (suc zero) h there = tt
    asked-Ends r p e w (suc (suc n)) h there =
        paused-IsSettled r _
          (record { text = _; meta = _; before = _; asks = refl; waits = inl (p, h) }) there

    answered-Ends :
        (r : ℕ) (p : PendingRequest) (x : Result Error (Map Value)) (w : World)
        → (w.broker.runtime r).pending ≡ some p
        → Kept info.task_id r w
        → Ends (answer_pending k info r p x w)
    unfolding respond
    answered-Ends r p (ok reply) w h kept =
        then-Ends r (client_of_runtime r) _ w (client_of_runtime-Kept info.task_id r w kept)
          λ c w' kept'.
            then-Ends r (send_reply k info p reply c) _ w'
              (on_error-Keeps (λ u. Kept info.task_id r) (respond c _) _ w'
                (respond-Kept info.task_id r c _ w' kept') λ e v. tt)
              λ u w'' kept''. working-Ends r _ kept''
    answered-Ends r p (err e) w h kept = asked-Ends r p e w w.accepts h kept.0
    answered-Ends r p panic w h kept = tt

    resume_input_required-Ends :
        (r : ℕ) (msg : Message) (p : PendingRequest) (w : World)
        → (w.broker.runtime r).pending ≡ some p
        → Kept info.task_id r w
        → Ends (resume_input_required k info r msg (some p) w)
    unfolding resume_input_required
    resume_input_required-Ends r msg p w h kept =
        answered-Ends r p (response_for_pending msg p) w h kept

-- While a message or a reply is waited for, the other requests do not start this task: the broker finds
-- the same runtime under its id, or they have finished the task.
pub record IsSpared (info : TaskInfo) (w : World) : Type 0 where
  pub incoming : (r : ℕ) → Spared (Tracks info.task_id r) w.incoming
  pub meanwhile :
      (r : ℕ) (b : Broker) → Tracks info.task_id r b → Tracks info.task_id r (w.meanwhile b)

module _ (k : Codec) (req : ExecutorContext) where
  spared-Kept :
      (r : ℕ) (b : Broker) (w : World)
      → lookup req.info.task_id b.tasks ≡ some r
      → IsSpared req.info w
      → Kept req.info.task_id r (record w { broker = b })
  spared-Kept r b w there h = (inl there, h.incoming r, h.meanwhile r)

  started-Kept :
      (x : Result Error ℕ) (b : Broker) (w : World)
      → Registers req.info.task_id (x, b)
      → IsSpared req.info w
      → Keeps (λ r. Kept req.info.task_id r) (x, record w { broker = b })
  started-Kept (ok r) b w there h = spared-Kept r b w there h
  started-Kept (err e) b w there h = tt
  started-Kept panic b w there h = tt

  continued-Ends :
      (options : RequestOptions) (r : ℕ) (p : Option PendingRequest) (w : World)
      → (w.broker.runtime r).pending ≡ p
      → Kept req.info.task_id r w
      → Ends req.info (continue_task k req options r p w)
  continued-Ends options r (some p) w h kept =
      resume_input_required-Ends req.info k r req.message p w h kept
  continued-Ends options r none w h kept =
      then-Ends req.info r (lift (codex_inputs_from_message k req.message)) _ w
        (lift-Keeps (Kept req.info.task_id r) _ w kept)
        λ input. start_new_turn-Ends req.info k r options input

  found-Ends :
      (options : RequestOptions) (x : Result Error ℕ) (w : World)
      → task w.broker req.info.task_id ≡ x
      → IsSpared req.info w
      → Ends req.info
          (continue x (λ r. continue_task k req options r (w.broker.runtime r).pending) w)
  found-Ends options (ok r) w e h =
      continued-Ends options r (w.broker.runtime r).pending w refl
        (spared-Kept r w.broker w (task-lookup w.broker req.info.task_id r e) h)
  found-Ends options (err x) w e h = tt
  found-Ends options panic w e h = tt

  stored-Ends :
      (options : RequestOptions) (state : TaskState) (w : World)
      → IsSpared req.info w
      → Ends req.info (execute_stored k req options state w)
  stored-Ends options input_required w h =
      found-Ends options (task w.broker req.info.task_id) w refl h
  stored-Ends options working w h = tt
  stored-Ends options canceled w h = tt
  stored-Ends options failed w h = tt
  stored-Ends options (other s) w h = tt

  new-Ends :
      (options : RequestOptions) (w : World)
      → IsSpared req.info w
      → Ends req.info (execute_new k req options w)
  new-Ends options w h =
      >>=-Keeps (λ input. IsSpared req.info) (λ u. IsSettled req.info) _
        (lift (codex_inputs_from_message k req.message)) w (lift-Keeps (IsSpared req.info) _ w h)
        λ input w' h'.
          >>=-Keeps (λ r. Kept req.info.task_id r) (λ u. IsSettled req.info)
            (λ r. start_new_turn k req.info r options input) (start_runtime req options) w'
            (started-Kept _ _ w'
              (start_task-Registers w'.order w'.broker req.info.task_id req.info.context_id options
                req.message.reference_tasks w'.opening w'.now)
              h')
            λ r. start_new_turn-Ends req.info k r options input

  execute-Ends :
      (options : RequestOptions) (w : World)
      → IsSpared req.info w
      → Ends req.info (execute k req options w)
  unfolding execute
  execute-Ends options w h = elim (Option-cases req.stored) [
    | inl q ↦ rw q (new-Ends options w h)
    | inr (state, q) ↦ rw q (stored-Ends options state w h)
  ]

  -- What is left when the task was submitted.
  abbrev pub Stops : Result Error Unit × World → Type 0
  Stops (ok u, w) = IsSettled req.info w
  Stops (err e, w) = IsEnded req.info w
  Stops (panic, w) = Unit {0}

  reported-Stops :
      (e : Error) (w : World) (n : ℕ) → Stops (report_failure k req e (record w { accepts = n }))
  unfolding write
  reported-Stops e w zero = finish_task-inactive req.info.task_id w.broker
  reported-Stops e w (suc n) = inr (finish_task-inactive req.info.task_id w.broker)

  recovered-Stops :
      (x : Result Error Unit) (w : World)
      → Ends req.info (x, w)
      → Stops (recover x (report_failure k req) w)
  recovered-Stops (ok u) w h = h
  recovered-Stops (err e) w h = reported-Stops e w w.accepts
  recovered-Stops panic w h = tt

  executed-Stops :
      (options : RequestOptions) (w : World)
      → IsSpared req.info w
      → Stops (on_error (execute k req options) (report_failure k req) w)
  executed-Stops options w h =
      recovered-Stops (execute k req options w).0 (execute k req options w).1
        (execute-Ends options w h)

  -- A request that is turned away before it starts leaves the broker alone.
  abbrev pub Leaves : World → Result Error Unit × World → Type 0
  Leaves w (ok u, w') = IsSettled req.info w'
  Leaves w (err e, w') = IsEnded req.info w' ⊎ (w'.broker ≡ w.broker)
  Leaves w (panic, w') = Unit {0}

  stopped-Leaves :
      (w : World) (x : Result Error Unit) (w' : World) → Stops (x, w') → Leaves w (x, w')
  stopped-Leaves w (ok u) w' h = h
  stopped-Leaves w (err e) w' h = inl h
  stopped-Leaves w panic w' h = tt

  submitted-Leaves :
      (options : RequestOptions) (w : World) (state : Option TaskState) (n : ℕ)
      → IsSpared req.info w
      → Leaves w (
          (submit k req state >> on_error (execute k req options) (report_failure k req))
            (record w { accepts = n }))
  unfolding write
  submitted-Leaves options w none zero h = inr refl
  submitted-Leaves options w none (suc n) h =
      stopped-Leaves w _ _
        (executed-Stops options _ (record { incoming = h.incoming; meanwhile = h.meanwhile }))
  submitted-Leaves options w (some state) n h =
      stopped-Leaves w _ _
        (executed-Stops options _ (record { incoming = h.incoming; meanwhile = h.meanwhile }))

  -- Unless the program panics, and whatever other requests do to the broker while `Execute` waits for a
  -- message, for the reply to `turn/start` or for the end of its response to Codex, as long as they do
  -- not start the same task and do nothing while a session is opened or the consumer takes an event: when
  -- it returns without an error, the last event asks for input and the runtime that the broker finds
  -- under the task's id holds a request of Codex or has no turn at work, or the broker has forgotten the
  -- task; when it returns an error, the broker has forgotten the task, or the request was turned away and
  -- the broker is as it was.
  pub execute_stream-Leaves : (w : World) → IsSpared req.info w → Leaves w (execute_stream k req w)
  unfolding execute_stream
  execute_stream-Leaves w h = elim (Result-cases (request_options_from_config w.broker.config)) [
    | inl (options, q) ↦ rw q (submitted-Leaves options w req.stored w.accepts h)
    | inr (inl (e, q)) ↦ rw q (inr refl)
    | inr (inr q) ↦ rw q tt
  ]
