-- ===== src/Executor/Messages.antt =====
-- internal/service/executor.go, lines 235 to 364: what a message of the app-server does to a turn.
use Prim.Native.String.{◌++◌}
use codex_a2a.Base.{
  ℕ, String, Bool, true, false, Option, none, some, List, [], ◌∷◌, Error, errorf, Result, ok, err,
  ◌>>=◌, ◌==◌, if◌then◌else◌,
}
use codex_a2a.Base.Maps.{Map}
use codex_a2a.Base.Text.{quote}
use codex_a2a.Value.{Value, null, str}
use codex_a2a.Wire.{
  IncomingMessage, RawMessage, decode_json, CodexTurn, TurnError, ThreadItem, DeltaNotification,
  ItemNotification, CommandApprovalRequest, FileApprovalRequest, ElicitationRequest,
}
use codex_a2a.Runtime.{
  PendingRequest, command_approval, file_approval, elicitation, finish_turn_for_next_message,
  append_assistant_text, append_command_output, append_file_change_diff, assistant_text,
  note_item_started,
}
use codex_a2a.Broker.Sessions.{Broker}
use codex_a2a.Broker.Tasks.{update_runtime}
use codex_a2a.Executor.Events.{
  Codec, TaskInfo, TaskState, canceled, failed, Event, text_part, data_part, status_with_meta,
  append_artifact, replace_artifact, artifact_id, codex_task_meta, artifact_meta, pending_artifact,
  input_required_status, ready_for_next_turn_status,
}
use codex_a2a.Executor.Artifacts.{plan_value, start_artifact_events, completed_artifact_events}

-- The zero values that `decodeJSON` returns for an empty message.
abbrev no_turn : CodexTurn
no_turn = record { id = ""; status = ""; error = none }

abbrev no_item : ThreadItem
no_item = record {
  kind = "";
  id = "";
  text = "";
  command = "";
  cwd = "";
  status = "";
  command_actions = [];
  aggregated_output = none;
  exit_code = none;
  changes = [];
  server = "";
  tool = "";
  arguments = null;
  result = null;
  error = none;
  query = "";
  action = null;
  summary = null;
  content = null;
  phase = none;
}

abbrev no_delta : DeltaNotification
no_delta = record { thread_id = ""; turn_id = ""; item_id = ""; delta = "" }

abbrev no_item_notification : ItemNotification
no_item_notification = record { thread_id = ""; turn_id = ""; item = no_item }

abbrev no_command_approval : CommandApprovalRequest
no_command_approval = record {
  thread_id = "";
  turn_id = "";
  item_id = "";
  reason = none;
  command = none;
  cwd = none;
  raw = "";
}

abbrev no_file_approval : FileApprovalRequest
no_file_approval = record { thread_id = ""; turn_id = ""; item_id = ""; reason = none; raw = "" }

abbrev no_elicitation : ElicitationRequest
no_elicitation = record {
  thread_id = "";
  turn_id = none;
  server_name = "";
  mode = "";
  message = "";
  url = none;
  schema = "";
  raw = "";
}

-- `turnOutcome`
pub data Outcome : Type 0 where
  continues pauses finishes : Outcome

-- What a server request leads to when it is accepted; it always pauses the turn.
pub record Paused : Type 0 where
  pub pending : PendingRequest
  pub events : List Event

abbrev pub pause_with : TaskInfo → PendingRequest → Result Error Paused
pause_with info p = ok (record {
  pending = p;
  events = pending_artifact info p "" ∷ input_required_status info p "" ∷ [];
})

-- The methods of notifications that the program tells apart.
pub data Notification : Type 0 where
  turn_started turn_completed diff_updated plan_updated : Notification
  agent_message_delta command_output_delta file_change_delta : Notification
  item_started item_completed request_resolved unknown : Notification

unfoldable pub notification_of : String → Notification
notification_of m =
    if m == "turn/started"
    then turn_started
    else if m == "turn/completed"
    then turn_completed
    else if m == "turn/diff/updated"
    then diff_updated
    else if m == "turn/plan/updated"
    then plan_updated
    else if m == "item/agentMessage/delta"
    then agent_message_delta
    else if m == "item/commandExecution/outputDelta"
    then command_output_delta
    else if m == "item/fileChange/outputDelta"
    then file_change_delta
    else if m == "item/started"
    then item_started
    else if m == "item/completed"
    then item_completed
    else if m == "serverRequest/resolved"
    then request_resolved
    else unknown

-- The events of a notification, its outcome, and the broker with the changed runtime.
pub record Handled : Type 0 where
  pub events : List Event
  pub outcome : Outcome
  pub broker : Broker

module _ (k : Codec) (info : TaskInfo) where
  -- A pending request from its id and parameters.
  abbrev ask :
      {A : Type 0}
      → (RawMessage → Result Error A)
      → A
      → (A → PendingRequest)
      → IncomingMessage
      → Result Error Paused
  ask unmarshal zero make msg = do
    req ← decode_json unmarshal zero msg.params
    pause_with info (make req)

  unfoldable pub handle_server_request : IncomingMessage → Result Error Paused
  handle_server_request msg =
      if msg.method == "item/commandExecution/requestApproval"
      then ask k.unmarshal_command_approval no_command_approval
          (λ req. command_approval msg.id (record req { raw = msg.params })) msg
      else if msg.method == "item/fileChange/requestApproval"
      then ask k.unmarshal_file_approval no_file_approval
          (λ req. file_approval msg.id (record req { raw = msg.params })) msg
      else if msg.method == "mcpServer/elicitation/request"
      then ask k.unmarshal_elicitation no_elicitation
          (λ req. elicitation msg.id (record req { raw = msg.params })) msg
      else err (errorf ("unsupported Codex server request " ++ quote msg.method))

  module _ (now : ℕ) (b : Broker) (r : ℕ) where
    abbrev quiet : Result Error Handled
    quiet = ok (record { events = []; outcome = continues; broker = b })

    abbrev ended : TaskState → String → Result Error Handled
    ended state message = ok (record {
      events = status_with_meta info state (some message) (some (codex_task_meta k b r)) ∷ [];
      outcome = finishes;
      broker = b;
    })

    abbrev pub failure_text : Option TurnError → String
    failure_text none = "Codex turn failed."
    failure_text (some e) = if e.message == "" then "Codex turn failed." else e.message

    abbrev pub interrupted : Bool → Result Error Handled
    interrupted true = ok (record { events = []; outcome = finishes; broker = b })
    interrupted false = ended canceled "Codex interrupted the turn."

    -- The switch on the turn's status.
    unfoldable pub complete_turn : CodexTurn → Result Error Handled
    complete_turn turn =
        if turn.status == "completed"
        then (let b' = update_runtime r finish_turn_for_next_message b in
            ok (record {
              events = ready_for_next_turn_status k info b' r ∷ [];
              outcome = pauses;
              broker = b';
            }))
        else if turn.status == "interrupted"
        then interrupted (b.runtime r).cancel_requested
        else if turn.status == "failed"
        then ended failed (failure_text turn.error)
        else ended failed "Codex returned an unknown terminal status."

    abbrev shows : Broker → List Event → Result Error Handled
    shows b' events = ok (record { events = events; outcome = continues; broker = b' })

    abbrev explain : Option String → Map Value → Map Value
    explain none plan = plan
    explain (some e) plan = ("explanation", str e) ∷ plan

    abbrev pub handle : Notification → RawMessage → Result Error Handled
    handle turn_started params = quiet
    handle turn_completed params = do
      n ← decode_json k.unmarshal_turn_completed (record { thread_id = ""; turn = no_turn }) params
      complete_turn n.turn
    handle diff_updated params = do
      n ← decode_json k.unmarshal_diff (record { thread_id = ""; turn_id = ""; diff = "" }) params
      shows b (
          replace_artifact info "turn:diff" "Unified Diff"
            (some (artifact_meta k now b r "" "diff")) (text_part n.diff ∷ [])
          ∷ [])
    handle plan_updated params = do
      n ←
          decode_json k.unmarshal_plan
            (record { thread_id = ""; turn_id = ""; explanation = none; plan = [] }) params
      shows b (
          replace_artifact info "turn:plan" "Plan" (some (artifact_meta k now b r "" "plan"))
            (data_part (explain n.explanation (("plan", plan_value n.plan) ∷ [])) ∷ [])
          ∷ [])
    handle agent_message_delta params = do
      n ← decode_json k.unmarshal_delta no_delta params
      let b' = update_runtime r (append_assistant_text n.item_id n.delta) b
      shows b' (
          replace_artifact info (artifact_id "assistant" n.item_id) "Assistant Response"
            (some (artifact_meta k now b' r n.item_id "agentMessage"))
            (text_part (assistant_text n.item_id (b'.runtime r)) ∷ [])
          ∷ [])
    handle command_output_delta params = do
      n ← decode_json k.unmarshal_delta no_delta params
      let b' = update_runtime r (append_command_output n.item_id n.delta) b
      shows b' (
          append_artifact info (artifact_id "command" n.item_id) "Command Output"
            (some (artifact_meta k now b' r n.item_id "commandExecution")) (text_part n.delta ∷ [])
          ∷ [])
    handle file_change_delta params = do
      n ← decode_json k.unmarshal_delta no_delta params
      let b' = update_runtime r (append_file_change_diff n.item_id n.delta) b
      shows b' (
          append_artifact info (artifact_id "file-change" n.item_id) "File Change"
            (some (artifact_meta k now b' r n.item_id "fileChange")) (text_part n.delta ∷ [])
          ∷ [])
    handle item_started params = do
      n ← decode_json k.unmarshal_item no_item_notification params
      let b' = update_runtime r (note_item_started n.item.id now) b
      shows b' (start_artifact_events k now info b' r n.item)
    handle item_completed params = do
      n ← decode_json k.unmarshal_item no_item_notification params
      shows b (completed_artifact_events k now info b r n.item)
    handle request_resolved params = quiet
    handle unknown params = quiet

    unfoldable pub handle_notification : IncomingMessage → Result Error Handled
    unfolding notification_of complete_turn
    handle_notification msg = handle (notification_of msg.method) msg.params
