-- ===== src/Wire.antt =====
-- internal/service/codex_types.go: the messages between the wrapper and `codex app-server`.
use codex_a2a.Base.{String, ◌==◌, Bool, Option, List, if◌then◌else◌}
use codex_a2a.Base.{Error, Result, ok}
use codex_a2a.Base.Maps.{Map}
use codex_a2a.Value.{Value}

-- A `json.RawMessage` is its text.
abbrev pub RawMessage : Type 0
RawMessage = String

pub record IncomingMessage : Type 0 where
  pub id : RawMessage
  pub method : String
  pub params : RawMessage

pub record ThreadStartParams : Type 0 where
  pub cwd : String
  pub model : String
  pub approval_policy : String
  pub sandbox : String
  pub config : Map Value
  pub experimental_raw_events : Bool
  pub persist_extended_history : Bool

pub record ThreadForkParams : Type 0 where
  pub thread_id : String
  pub cwd : String
  pub model : String
  pub approval_policy : String
  pub sandbox : String
  pub config : Map Value
  pub persist_extended_history : Bool

-- Of `codexUserInput` the program fills the type and the text or the URL.
pub record CodexUserInput : Type 0 where
  pub kind : String
  pub text : String
  pub url : String

-- A nil sandbox policy is `none`.
pub record TurnStartParams : Type 0 where
  pub thread_id : String
  pub input : List CodexUserInput
  pub cwd : String
  pub model : String
  pub approval_policy : String
  pub sandbox_policy : Option (Map Value)

pub record TurnError : Type 0 where
  pub message : String
  pub codex_error_info : RawMessage

-- Of a turn the program reads the id, the status and the error.
pub record CodexTurn : Type 0 where
  pub id : String
  pub status : String
  pub error : Option TurnError

pub record FileUpdate : Type 0 where
  pub path : String
  pub kind : Value
  pub diff : String

-- The exit code is held by its JSON text, as a number is.
pub record ThreadItem : Type 0 where
  pub kind : String
  pub id : String
  pub text : String
  pub command : String
  pub cwd : String
  pub status : String
  pub command_actions : List (Map Value)
  pub aggregated_output : Option String
  pub exit_code : Option String
  pub changes : List FileUpdate
  pub server : String
  pub tool : String
  pub arguments : Value
  pub result : Value
  pub error : Option TurnError
  pub query : String
  pub action : Value
  pub summary : Value
  pub content : Value
  pub phase : Option String

pub record TurnDiffUpdatedNotification : Type 0 where
  pub thread_id : String
  pub turn_id : String
  pub diff : String

pub record CodexPlanStep : Type 0 where
  pub step : String
  pub status : String

pub record TurnPlanUpdatedNotification : Type 0 where
  pub thread_id : String
  pub turn_id : String
  pub explanation : Option String
  pub plan : List CodexPlanStep

pub record ItemNotification : Type 0 where
  pub thread_id : String
  pub turn_id : String
  pub item : ThreadItem

pub record DeltaNotification : Type 0 where
  pub thread_id : String
  pub turn_id : String
  pub item_id : String
  pub delta : String

pub record TurnCompletedNotification : Type 0 where
  pub thread_id : String
  pub turn : CodexTurn

pub record CommandApprovalRequest : Type 0 where
  pub thread_id : String
  pub turn_id : String
  pub item_id : String
  pub reason : Option String
  pub command : Option String
  pub cwd : Option String
  pub raw : RawMessage

pub record FileApprovalRequest : Type 0 where
  pub thread_id : String
  pub turn_id : String
  pub item_id : String
  pub reason : Option String
  pub raw : RawMessage

pub record ElicitationRequest : Type 0 where
  pub thread_id : String
  pub turn_id : Option String
  pub server_name : String
  pub mode : String
  pub message : String
  pub url : Option String
  pub schema : RawMessage
  pub raw : RawMessage

-- What is written to a client: a request with its parameters, or the response to a request of the
-- app-server.
pub data Sent : Type 0 where
  thread_start : ThreadStartParams → Sent
  thread_fork : ThreadForkParams → Sent
  turn_start : TurnStartParams → Sent
  turn_interrupt : (thread_id turn_id : String) → Sent
  response : RawMessage → Map Value → Sent

-- `decodeJSON[T]`: an empty message gives the zero value, and any other goes to `json.Unmarshal`.
abbrev pub decode_json :
    {T : Type 0} → (RawMessage → Result Error T) → T → RawMessage → Result Error T
decode_json unmarshal zero raw = if raw == "" then ok zero else unmarshal raw
