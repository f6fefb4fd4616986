-- ===== src/Executor/Execute.antt =====
-- internal/service/executor.go, lines 53 to 120 and 717 to 744: the entry points of a request.
use Prim.Native.String.{◌++◌}
use codex_a2a.Base.{
  String, Bool, true, false, ◌||◌, Option, none, some, Error, errorf, is_stop, error_text, Result,
  ok, err, panic, ◌==◌, if◌then◌else◌, ℕ,
}
use codex_a2a.Config.{Config, RequestOptions, request_options_from_config}
use codex_a2a.Wire.{turn_interrupt}
use codex_a2a.Runtime.{PendingRequest}
use codex_a2a.Broker.Sessions.{Broker, new_broker}
use codex_a2a.Broker.Tasks.{start_task, task, finish_task, cancel, close}
use codex_a2a.Executor.Events.{
  Codec, TaskInfo, TaskState, input_required, canceled, failed, submitted_task, status_with_meta,
  codex_task_meta, thread_of,
}
use codex_a2a.Executor.Input.{Message, codex_inputs_from_message}
use codex_a2a.Executor.Turn.{start_new_turn, resume_input_required}
use codex_a2a.Executor.World.{
  World, event, failure, Action, ◌>>=◌, ◌>>◌, pure, fail, lift, gets, modify, on_error, write,
  yield_last, client_of_runtime, request,
}

-- `a2asrv.ExecutorContext`: the stored task by its state, if there is one.
pub record ExecutorContext : Type 0 where
  pub info : TaskInfo
  pub message : Message
  pub stored : Option TaskState

-- `NewExecutor` and `Executor.Close`: the executor is its broker, which holds the configuration.
unfoldable pub new_executor : Config → Result Error Broker
new_executor cfg = new_broker cfg

unfoldable pub close_executor : Broker → Broker
close_executor b = close b

-- `e.broker.startTask`, which answers with the reference of the new runtime
abbrev pub start_runtime : ExecutorContext → RequestOptions → Action ℕ
start_runtime req options w =
    let (r, b) =
      start_task w.order w.broker req.info.task_id req.info.context_id options
        req.message.reference_tasks w.opening w.now in
    (r, record w { broker = b })

module _ (k : Codec) (req : ExecutorContext) where
  abbrev pub execute_new : RequestOptions → Action Unit
  execute_new options = do
    input ← lift (codex_inputs_from_message k req.message)
    r ← start_runtime req options
    start_new_turn k req.info r options input

  abbrev pub continue_task : RequestOptions → ℕ → Option PendingRequest → Action Unit
  continue_task options r (some p) = resume_input_required k req.info r req.message (some p)
  continue_task options r none = do
    input ← lift (codex_inputs_from_message k req.message)
    start_new_turn k req.info r options input

  abbrev pub execute_stored : RequestOptions → TaskState → Action Unit
  execute_stored options input_required = do
    b ← gets (λ w. w.broker)
    r ← lift (task b req.info.task_id)
    continue_task options r (b.runtime r).pending
  execute_stored options state = fail (
      errorf (
        "task "
        ++ (req.info.task_id
            ++ (" is in state "
                ++ (k.state_text state ++ "; only INPUT_REQUIRED tasks may be continued")))))

  abbrev execute_case : RequestOptions → Option TaskState → Action Unit
  execute_case options none = execute_new options
  execute_case options (some state) = execute_stored options state

  unfoldable pub execute : RequestOptions → Action Unit
  unfolding task
  execute options = execute_case options req.stored

  abbrev pub submit : Option TaskState → Action Unit
  submit none = write (submitted_task req.info)
  submit (some state) = pure tt

  -- The answer to an error of `execute`.
  abbrev pub report_failure : Error → Action Unit
  report_failure e = do
    modify (finish_task req.info.task_id)
    write (status_with_meta req.info failed (some (error_text e)) none)

  unfoldable pub execute_stream : Action Unit
  execute_stream = do
    b ← gets (λ w. w.broker)
    options ← lift (request_options_from_config b.config)
    submit req.stored
    on_error (execute options) report_failure

  abbrev executed : Result Error Unit × World → World
  executed (ok u, w) = w
  executed (err e, w) = if is_stop e then w else yield_last (failure e) w
  executed (panic, w) = w

  -- `Executor.Execute`, run to its end.
  unfoldable pub execute_events : World → World
  execute_events w = executed (execute_stream w)

  abbrev pub interrupt : ℕ → String → Action Unit
  interrupt r turn_id = if turn_id == "" then pure tt else (do
    c ← client_of_runtime r
    b ← gets (λ w. w.broker)
    on_error (do request c (turn_interrupt (thread_of b r) turn_id); pure tt) (λ e. pure tt))

  abbrev pub cancel_task : Action ℕ
  cancel_task w = let (r, b) = cancel req.info.task_id w.broker in (r, record w { broker = b })

  abbrev pub cancel_run : Action Unit
  cancel_run = do
    r ← cancel_task
    b ← gets (λ w. w.broker)
    interrupt r (b.runtime r).turn_id
    b' ← gets (λ w. w.broker)
    λ w. (
      ok tt,
      yield_last
          (event (
            status_with_meta req.info canceled (some "Canceled by the user.")
              (some (codex_task_meta k b' r))))
          w,
    )

  abbrev pub cancelled : Result Error Unit × World → World
  cancelled (ok u, w) = w
  cancelled (err e, w) = yield_last (failure e) w
  cancelled (panic, w) = w

  -- `Executor.Cancel`, run to its end.
  unfoldable pub cancel_events : World → World
  cancel_events w = cancelled (cancel_run w)

-- What `Cleanup` is given as the result: a task in a state, or anything else.
pub data CleanupResult : Type 0 where
  task_result : TaskState → CleanupResult
  other_result : CleanupResult

abbrev is_canceled : CleanupResult → Bool
is_canceled (task_result canceled) = true
is_canceled (task_result _) = false
is_canceled other_result = false

-- `Executor.Cleanup`; the tests say whether the request has a message and whether it failed.
unfoldable pub cleanup : String → Bool → Bool → CleanupResult → Broker → Broker
cleanup task_id has_message has_error result b =
    if has_message || has_error then b else if is_canceled result then finish_task task_id b else b
