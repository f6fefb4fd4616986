-- ===== src/Executor/Turn.antt =====
-- internal/service/executor.go, lines 122 to 233: a turn of a task, from its start to its pause or end.
use Prim.Native.String.{◌++◌}
use codex_a2a.Base.{
  ℕ, String, Option, none, some, List, [], ◌∷◌, Error, errorf, wrap, error_text, Result, ok, err,
  panic, ◌==◌, if◌then◌else◌,
}
use codex_a2a.Config.{RequestOptions}
use codex_a2a.Value.{Value}
use codex_a2a.Wire.{
  IncomingMessage, RawMessage, CodexTurn, CodexUserInput, turn_start, response, decode_json,
}
use codex_a2a.Runtime.{PendingRequest, pending_id, set_pending, start_turn, clear_pending}
use codex_a2a.Broker.Sessions.{Broker}
use codex_a2a.Broker.Tasks.{update_runtime, finish_task, discard_task}
use codex_a2a.Executor.Events.{
  Codec, TaskInfo, working, status_with_meta, codex_task_meta, thread_of, pending_artifact,
  input_required_status,
}
use codex_a2a.Executor.Input.{Message, response_for_pending, sandbox_policy_from_string}
use codex_a2a.Executor.Messages.{
  Outcome, continues, pauses, finishes, Handled, Paused, handle_server_request, handle_notification,
}
use codex_a2a.Executor.World.{
  Incoming, Action, ◌>>=◌, ◌>>◌, pure, fail, lift, gets, modify, on_error, write, write_events,
  client_of_runtime, request, respond, receive,
}

-- `e.broker.finishTask(…); return err`
abbrev pub finish_and_fail : {A : Type 0} → String → Error → Action A
finish_and_fail task_id e = do modify (finish_task task_id); fail e

abbrev discard_and_fail : {A : Type 0} → String → Error → Action A
discard_and_fail task_id e = do modify (discard_task task_id); fail e

module _ (k : Codec) (info : TaskInfo) where
  -- The event that a turn is at work.
  abbrev pub write_working : ℕ → Action Unit
  write_working r = do
    b ← gets (λ w. w.broker)
    write (status_with_meta info working none (some (codex_task_meta k b r)))

  abbrev pub take_notification : Handled → Action Outcome
  take_notification h = do modify (λ _. h.broker); write_events h.events; pure h.outcome

  abbrev pub settle : Outcome → Action Outcome
  settle finishes = do modify (finish_task info.task_id); pure finishes
  settle o = pure o

  abbrev pub take_request : ℕ → Paused → Action Outcome
  take_request r p = do
    write_events p.events
    modify (update_runtime r (set_pending p.pending))
    pure pauses

  -- The body of the loop of `consumeTurn`, for one message.
  unfoldable pub handle_message : ℕ → IncomingMessage → Action Outcome
  handle_message r msg =
      if msg.id == ""
      then (do
        w ← gets (λ w. w)
        h ←
            on_error (lift (handle_notification k info w.now w.broker r msg))
              (finish_and_fail info.task_id)
        o ← take_notification h
        settle o)
      else (do
        p ← on_error (lift (handle_server_request k info msg)) (finish_and_fail info.task_id)
        take_request r p)

  abbrev pub go_on : Outcome → Action Unit → Action Unit
  go_on continues rest = rest
  go_on pauses rest = pure tt
  go_on finishes rest = pure tt

  -- `consumeTurn`, over the messages that are to come.
  unfoldable pub consume_turn : ℕ → List Incoming → Action Unit
  unfolding client_of_runtime
  consume_turn r [] = do
    client_of_runtime r
    e ← gets (λ w. w.ended)
    finish_and_fail info.task_id e
  consume_turn r (m ∷ ms) =
      let rest = consume_turn r ms in
      do client_of_runtime r; receive m ms; o ← handle_message r m.message; go_on o rest

  abbrev pub consume : ℕ → Action Unit
  consume r = do ms ← gets (λ w. w.incoming); consume_turn r ms

  abbrev pub ask_for_turn :
      ℕ → RequestOptions → List CodexUserInput → ℕ → Broker → Action RawMessage
  unfolding request
  ask_for_turn r options input c b =
      on_error
        (request c (
          turn_start (record {
            thread_id = thread_of b r;
            input = input;
            cwd = options.cwd;
            model = options.model;
            approval_policy = options.approval_policy;
            sandbox_policy = sandbox_policy_from_string options.sandbox;
          })))
        (λ e. discard_and_fail info.task_id (wrap "codex turn/start" e))

  abbrev pub decode_turn : RawMessage → Action CodexTurn
  decode_turn reply =
      on_error
        (lift (
          decode_json k.unmarshal_turn_start (record { id = ""; status = ""; error = none }) reply))
        (λ e. discard_and_fail info.task_id (wrap "decode turn/start response" e))

  abbrev pub run_turn : ℕ → CodexTurn → Action Unit
  run_turn r turn = do modify (update_runtime r (start_turn turn.id)); write_working r; consume r

  unfoldable pub start_new_turn : ℕ → RequestOptions → List CodexUserInput → Action Unit
  unfolding client_of_runtime
  start_new_turn r options input = do
    c ← client_of_runtime r
    b ← gets (λ w. w.broker)
    reply ← ask_for_turn r options input c b
    turn ← decode_turn reply
    run_turn r turn

  -- The reply of the user could not be understood: the request is shown again.
  abbrev pub ask_again : PendingRequest → Error → Action Unit
  ask_again p e = do
    write (pending_artifact info p (error_text e))
    write (input_required_status info p (error_text e))

  abbrev pub resume_with : ℕ → PendingRequest → Action Unit
  resume_with r p = do modify (update_runtime r clear_pending); write_working r; consume r

  abbrev pub send_reply : PendingRequest → List (String × Value) → ℕ → Action Unit
  unfolding respond
  send_reply p reply c =
      on_error (respond c (response (pending_id p) reply))
        (λ e. finish_and_fail info.task_id (wrap "respond to pending Codex request" e))

  abbrev pub answer_pending :
      ℕ → PendingRequest → Result Error (List (String × Value)) → Action Unit
  answer_pending r p (ok reply) = do c ← client_of_runtime r; send_reply p reply c; resume_with r p
  answer_pending r p (err e) = ask_again p e
  answer_pending r p panic = lift panic

  unfoldable pub resume_input_required : ℕ → Message → Option PendingRequest → Action Unit
  unfolding client_of_runtime
  resume_input_required r msg none = finish_and_fail info.task_id (
      errorf
        ("task " ++ (info.task_id ++ " is INPUT_REQUIRED but broker has no pending Codex request")))
  resume_input_required r msg (some p) = answer_pending r p (response_for_pending msg p)
