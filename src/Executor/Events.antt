-- ===== src/Executor/Events.antt =====
-- internal/service/executor.go, lines 520 to 616: the events that the wrapper emits for a task.
use Prim.Native.String.{◌++◌}
use codex_a2a.Base.{
  ℕ, String, Option, none, some, List, [], ◌∷◌, Error, Result, ◌==◌, if◌then◌else◌,
}
use codex_a2a.Base.Maps.{Map, insert}
use codex_a2a.Value.{Value, str, raw}
use codex_a2a.Runtime.{
  PendingRequest, command_approval, file_approval, elicitation, pending_kind, item_start_time,
}
use codex_a2a.Broker.Sessions.{Broker}
use codex_a2a.Wire.{
  RawMessage, CodexTurn, TurnCompletedNotification, TurnDiffUpdatedNotification,
  TurnPlanUpdatedNotification, DeltaNotification, ItemNotification, CommandApprovalRequest,
  FileApprovalRequest, ElicitationRequest,
}

pub record TaskInfo : Type 0 where
  pub task_id : String
  pub context_id : String

-- The states of an A2A task that the program names; `other` is any other one.
pub data TaskState : Type 0 where
  working input_required canceled failed : TaskState
  other : String → TaskState

-- What the executor uses of the packages time and encoding/json: the RFC 3339 form of a time, the
-- indented form of a value, and the decoding of each kind of message; and the text of a task state.
pub record Codec : Type 0 where
  pub format_time : ℕ → String
  pub state_text : TaskState → String
  pub marshal_indent : Value → Result Error String
  pub unmarshal_turn_start : RawMessage → Result Error CodexTurn
  pub unmarshal_turn_completed : RawMessage → Result Error TurnCompletedNotification
  pub unmarshal_diff : RawMessage → Result Error TurnDiffUpdatedNotification
  pub unmarshal_plan : RawMessage → Result Error TurnPlanUpdatedNotification
  pub unmarshal_delta : RawMessage → Result Error DeltaNotification
  pub unmarshal_item : RawMessage → Result Error ItemNotification
  pub unmarshal_command_approval : RawMessage → Result Error CommandApprovalRequest
  pub unmarshal_file_approval : RawMessage → Result Error FileApprovalRequest
  pub unmarshal_elicitation : RawMessage → Result Error ElicitationRequest

-- A part of an emitted message or artifact: `a2a.NewTextPart`, `a2a.NewDataPart`.
pub data OutPart : Type 0 where
  text_part : String → OutPart
  data_part : Map Value → OutPart

pub record Artifact : Type 0 where
  pub id : String
  pub name : String
  pub metadata : Option (Map Value)
  pub parts : List OutPart

-- `submitted_task` is `a2a.NewSubmittedTask`; the text of `status_update` is that of the agent's
-- message, `a2a.NewMessageForTask`, if there is one; `artifact_update` is built by
-- `a2a.NewArtifactUpdateEvent`, and `artifact_replace` is the update that is written out.
pub data Event : Type 0 where
  submitted_task : TaskInfo → Event
  status_update :
      TaskInfo → TaskState → (text : Option String) → (meta : Option (Map Value)) → Event
  artifact_update : TaskInfo → Artifact → Event
  artifact_replace : TaskInfo → Artifact → Event

-- The metadata goes under the namespace "codexA2A".
unfoldable pub status_with_meta : TaskInfo → TaskState → Option String → Option (Map Value) → Event
status_with_meta info state text meta = status_update info state text meta

unfoldable pub append_artifact :
    TaskInfo → String → String → Option (Map Value) → List OutPart → Event
append_artifact info id name meta parts =
    artifact_update info (record { id = id; name = name; metadata = meta; parts = parts })

unfoldable pub replace_artifact :
    TaskInfo → String → String → Option (Map Value) → List OutPart → Event
replace_artifact info id name meta parts =
    artifact_replace info (record { id = id; name = name; metadata = meta; parts = parts })

unfoldable pub artifact_id : String → String → String
artifact_id prefix item_id = prefix ++ (":" ++ item_id)

abbrev pub thread_of : Broker → ℕ → String
thread_of b r = (b.session (b.runtime r).session).thread_id

module _ (k : Codec) where
  unfoldable pub codex_task_meta : Broker → ℕ → Map Value
  codex_task_meta b r =
      ("threadId", str (thread_of b r))
      ∷ ("turnId", str (b.runtime r).turn_id)
      ∷ ("taskStartedAt", str (k.format_time (b.runtime r).started_at))
      ∷ []

  abbrev with_start : Option ℕ → Map Value → Map Value
  with_start none meta = meta
  with_start (some started_at) meta = insert "itemStartedAt" (str (k.format_time started_at)) meta

  -- `now` is the time of the call.
  unfoldable pub artifact_meta : ℕ → Broker → ℕ → String → String → Map Value
  artifact_meta now b r item_id item_type =
      let meta = insert "emittedAt" (str (k.format_time now)) (codex_task_meta b r) in
      let named =
        if item_id == ""
        then meta
        else with_start (item_start_time item_id (b.runtime r))
            (insert "itemId" (str item_id) meta) in
      if item_type == "" then named else insert "itemType" (str item_type) named

-- `json.RawMessage(….Raw)`
abbrev pub pending_raw : PendingRequest → RawMessage
pending_raw (command_approval id r) = r.raw
pending_raw (file_approval id r) = r.raw
pending_raw (elicitation id r) = r.raw

unfoldable pub pending_artifact : TaskInfo → PendingRequest → String → Event
unfolding replace_artifact
pending_artifact info p note =
    let asked = ("request", raw (pending_raw p)) ∷ ("kind", str (pending_kind p)) ∷ [] in
    replace_artifact info "pending:user-input" "Pending User Input"
      (some (("kind", str (pending_kind p)) ∷ []))
      (data_part (if note == "" then asked else insert "note" (str note) asked) ∷ [])

abbrev waiting_text : PendingRequest → String
waiting_text (command_approval id r) =
    "Codex is waiting for command approval. Reply with text `accept`, `decline`, or `cancel`, or send a data part like {\"decision\":\"accept\"}."
waiting_text (file_approval id r) =
    "Codex is waiting for file change approval. Reply with text `accept` or `decline`, or send a data part like {\"decision\":\"accept\"}."
waiting_text (elicitation id r) =
    "Codex is waiting for structured MCP input. Reply with a data part like {\"action\":\"accept\",\"content\":{...}}, or text `decline` / `cancel`."

unfoldable pub input_required_status : TaskInfo → PendingRequest → String → Event
unfolding status_with_meta
input_required_status info p note =
    let text = waiting_text p in
    status_with_meta info input_required (some (if note == "" then text else text ++ (" " ++ note)))
      (some (("pendingKind", str (pending_kind p)) ∷ []))

unfoldable pub ready_for_next_turn_status : Codec → TaskInfo → Broker → ℕ → Event
unfolding status_with_meta
ready_for_next_turn_status k info b r =
    status_with_meta info input_required (some "Waiting for the next user message.")
      (some (codex_task_meta k b r))
