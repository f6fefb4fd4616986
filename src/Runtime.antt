-- ===== src/Runtime.antt =====
-- internal/service/broker.go, lines 15 to 151: a pending Codex request and the runtime of a task.
-- Each method holds the runtime's mutex for its whole body, so it is one step on the record.
use Prim.Native.String.{◌++◌}
use codex_a2a.Base.{ℕ, String, Bool, true, false, ◌||◌, Option, none, some, [], ◌==◌, if◌then◌else◌}
use codex_a2a.Base.Maps.{Map, lookup, lookup_or, insert}
use codex_a2a.Wire.{RawMessage, CommandApprovalRequest, FileApprovalRequest, ElicitationRequest}

-- `pendingRequest`: the kind and the one pointer of its three that is set.
pub data PendingRequest : Type 0 where
  command_approval : (id : RawMessage) → CommandApprovalRequest → PendingRequest
  file_approval : (id : RawMessage) → FileApprovalRequest → PendingRequest
  elicitation : (id : RawMessage) → ElicitationRequest → PendingRequest

abbrev pub pending_id : PendingRequest → RawMessage
pending_id (command_approval id r) = id
pending_id (file_approval id r) = id
pending_id (elicitation id r) = id

-- `string(pending.Kind)`
abbrev pub pending_kind : PendingRequest → String
pending_kind (command_approval id r) = "commandApproval"
pending_kind (file_approval id r) = "fileChangeApproval"
pending_kind (elicitation id r) = "mcpElicitation"

-- `session` is the reference of the task's session; the constructor never leaves it nil.
pub record TaskRuntime : Type 0 where
  pub task_id : String
  pub context_id : String
  pub turn_id : String
  pub session : ℕ
  pub started_at : ℕ
  pub cancel_requested : Bool
  pub pending : Option PendingRequest
  pub turn_active : Bool
  pub assistant_texts : Map String
  pub command_outputs : Map String
  pub file_change_diffs : Map String
  pub item_started_at : Map ℕ

unfoldable pub new_task_runtime : String → String → ℕ → ℕ → TaskRuntime
new_task_runtime task_id context_id session now = record {
  task_id = task_id;
  context_id = context_id;
  turn_id = "";
  session = session;
  started_at = now;
  cancel_requested = false;
  pending = none;
  turn_active = false;
  assistant_texts = [];
  command_outputs = [];
  file_change_diffs = [];
  item_started_at = [];
}

unfoldable pub set_pending : PendingRequest → TaskRuntime → TaskRuntime
set_pending p t = record t { pending = some p }

unfoldable pub start_turn : String → TaskRuntime → TaskRuntime
start_turn turn_id t = record t { turn_id = turn_id; turn_active = true }

unfoldable pub finish_turn_for_next_message : TaskRuntime → TaskRuntime
finish_turn_for_next_message t = record t { pending = none; turn_active = false }

abbrev is_pending : Option PendingRequest → Bool
is_pending none = false
is_pending (some p) = true

unfoldable pub blocks_branching : TaskRuntime → Bool
blocks_branching t = t.turn_active || is_pending t.pending

unfoldable pub clear_pending : TaskRuntime → TaskRuntime
clear_pending t = record t { pending = none }

-- `m[itemID] += delta`
unfoldable pub append_text : String → String → Map String → Map String
append_text item_id delta m = insert item_id (lookup_or "" item_id m ++ delta) m

unfoldable pub append_command_output : String → String → TaskRuntime → TaskRuntime
unfolding append_text
append_command_output item_id delta t = record t {
  command_outputs = append_text item_id delta t.command_outputs;
}

unfoldable pub append_assistant_text : String → String → TaskRuntime → TaskRuntime
unfolding append_text
append_assistant_text item_id delta t = record t {
  assistant_texts = append_text item_id delta t.assistant_texts;
}

unfoldable pub append_file_change_diff : String → String → TaskRuntime → TaskRuntime
unfolding append_text
append_file_change_diff item_id delta t = record t {
  file_change_diffs = append_text item_id delta t.file_change_diffs;
}

unfoldable pub assistant_text : String → TaskRuntime → String
assistant_text item_id t = lookup_or "" item_id t.assistant_texts

unfoldable pub command_output : String → TaskRuntime → String
command_output item_id t = lookup_or "" item_id t.command_outputs

unfoldable pub file_change_diff : String → TaskRuntime → String
file_change_diff item_id t = lookup_or "" item_id t.file_change_diffs

-- The first time of an item is kept.
abbrev note_once : String → ℕ → Option ℕ → TaskRuntime → TaskRuntime
note_once item_id started_at (some earlier) t = t
note_once item_id started_at none t = record t {
  item_started_at = insert item_id started_at t.item_started_at;
}

unfoldable pub note_item_started : String → ℕ → TaskRuntime → TaskRuntime
note_item_started item_id started_at t =
    if item_id == "" then t else note_once item_id started_at (lookup item_id t.item_started_at) t

unfoldable pub item_start_time : String → TaskRuntime → Option ℕ
item_start_time item_id t = lookup item_id t.item_started_at

unfoldable pub request_cancel : TaskRuntime → TaskRuntime
request_cancel t = record t { cancel_requested = true }
