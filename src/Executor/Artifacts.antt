-- ===== src/Executor/Artifacts.antt =====
-- internal/service/executor.go, lines 618 to 706: the artifacts of a started or completed item.

use codex_a2a.Base.{ℕ, String, Option, none, some, List, [], ◌∷◌, map, ◌==◌, if◌then◌else◌}
use codex_a2a.Base.Maps.{Map}
use codex_a2a.Value.{Value, Values, null, str, num, raw, arr, obj, nil, cons, fields}
use codex_a2a.Runtime.{command_output, file_change_diff}
use codex_a2a.Broker.Sessions.{Broker}
use codex_a2a.Wire.{ThreadItem, FileUpdate, TurnError, CodexPlanStep}
use codex_a2a.Executor.Events.{
  Codec, TaskInfo, OutPart, text_part, data_part, Event, artifact_id, artifact_meta,
  replace_artifact,
}

unfoldable pub first_non_empty : Option String → String → String
first_non_empty none fallback = fallback
first_non_empty (some s) fallback = if s == "" then fallback else s

abbrev pub values : List Value → Values
values [] = nil
values (v ∷ vs) = cons v (values vs)

abbrev file_update : FileUpdate → Value
file_update u = obj (fields (("path", str u.path) ∷ ("kind", u.kind) ∷ ("diff", str u.diff) ∷ []))

abbrev changes_value : ThreadItem → Value
changes_value item = arr (values (map file_update item.changes))

abbrev actions_value : ThreadItem → Value
actions_value item = arr (values (map (λ a. obj (fields a)) item.command_actions))

-- A pointer as a value: nil is null.
abbrev pub pointer : (String → Value) → Option String → Value
pointer f none = null
pointer f (some s) = f s

abbrev text_if : String → List OutPart
text_if s = if s == "" then [] else text_part s ∷ []

abbrev pub plan_value : List CodexPlanStep → Value
plan_value steps =
    arr (
      values (map (λ s. obj (fields (("step", str s.step) ∷ ("status", str s.status) ∷ []))) steps))

-- Entries that `omitempty` leaves out.
abbrev unless_empty : String → String → Map Value → Map Value
unless_empty key s rest = if s == "" then rest else (key, str s) ∷ rest

abbrev unless_nil : String → (String → Value) → Option String → Map Value → Map Value
unless_nil key f none rest = rest
unless_nil key f (some s) rest = (key, f s) ∷ rest

abbrev unless_null : String → Value → Map Value → Map Value
unless_null key null rest = rest
unless_null key v rest = (key, v) ∷ rest

abbrev unless_none : {A : Type 0} → String → Value → List A → Map Value → Map Value
unless_none key v [] rest = rest
unless_none key v (x ∷ xs) rest = (key, v) ∷ rest

abbrev error_value : TurnError → Value
error_value e = obj (
    fields (
      ("message", str e.message)
      ∷ (if e.codex_error_info == "" then [] else ("codexErrorInfo", raw e.codex_error_info) ∷ [])))

abbrev unless_no_error : String → Option TurnError → Map Value → Map Value
unless_no_error key none rest = rest
unless_no_error key (some e) rest = (key, error_value e) ∷ rest

-- `structMap(item)`: the item's JSON object.
unfoldable pub struct_map : ThreadItem → Map Value
struct_map i =
    ("type", str i.kind)
    ∷ ("id", str i.id)
    ∷ (unless_empty "text" i.text (
        unless_empty "command" i.command (
          unless_empty "cwd" i.cwd (
            unless_empty "status" i.status (
              unless_none "commandActions" (actions_value i) i.command_actions (
                unless_nil "aggregatedOutput" str i.aggregated_output (
                  unless_nil "exitCode" num i.exit_code (
                    unless_none "changes" (changes_value i) i.changes (
                      unless_empty "server" i.server (
                        unless_empty "tool" i.tool (
                          unless_null "arguments" i.arguments (
                            unless_null "result" i.result (
                              unless_no_error "error" i.error (
                                unless_empty "query" i.query (
                                  unless_null "action" i.action (
                                    unless_null "summary" i.summary (
                                      unless_null "content" i.content
                                        (unless_nil "phase" str i.phase []))))))))))))))))))

-- The item types that the program tells apart. The three that are shown whole keep their name.
pub data ItemType : Type 0 where
  agent_message command_execution file_change other_item : ItemType
  shown_whole : ItemType

unfoldable pub item_type : String → ItemType
item_type t =
    if t == "agentMessage"
    then agent_message
    else if t == "commandExecution"
    then command_execution
    else if t == "fileChange"
    then file_change
    else if t == "mcpToolCall"
    then shown_whole
    else if t == "reasoning"
    then shown_whole
    else if t == "webSearch"
    then shown_whole
    else other_item

module _ (k : Codec) (now : ℕ) (info : TaskInfo) (b : Broker) (r : ℕ) (item : ThreadItem) where
  -- An artifact of the item, under the given id and name.
  abbrev item_artifact : String → String → List OutPart → List Event
  item_artifact prefix name parts =
      replace_artifact info (artifact_id prefix item.id) name
        (some (artifact_meta k now b r item.id item.kind)) parts
      ∷ []

  abbrev start_events : ItemType → List Event
  start_events command_execution = item_artifact "command" "Command Output" (
      data_part (
        ("command", str item.command)
        ∷ ("cwd", str item.cwd)
        ∷ ("status", str item.status)
        ∷ ("actions", actions_value item)
        ∷ [])
      ∷ [])
  start_events file_change =
      item_artifact "file-change" "File Change"
        (data_part (("changes", changes_value item) ∷ ("status", str item.status) ∷ []) ∷ [])
  start_events _ = []

  unfoldable pub start_artifact_events : List Event
  unfolding item_type replace_artifact artifact_id
  start_artifact_events = start_events (item_type item.kind)

  abbrev command_text : String
  command_text = first_non_empty item.aggregated_output (command_output item.id (b.runtime r))

  abbrev completed_events : ItemType → List Event
  completed_events agent_message =
      if item.text == ""
      then []
      else item_artifact "assistant" "Assistant Response" (text_part item.text ∷ [])
  completed_events command_execution = item_artifact "command" "Command Output" (
      data_part (
        ("command", str item.command)
        ∷ ("cwd", str item.cwd)
        ∷ ("status", str item.status)
        ∷ ("actions", actions_value item)
        ∷ ("aggregatedOutput", str command_text)
        ∷ ("exitCode", pointer num item.exit_code)
        ∷ [])
      ∷ text_if command_text)
  completed_events file_change = item_artifact "file-change" "File Change" (
      data_part (("changes", changes_value item) ∷ ("status", str item.status) ∷ [])
      ∷ text_if (file_change_diff item.id (b.runtime r)))
  completed_events shown_whole =
      item_artifact item.kind item.kind (data_part (struct_map item) ∷ [])
  completed_events other_item = []

  unfoldable pub completed_artifact_events : List Event
  unfolding item_type replace_artifact artifact_id first_non_empty struct_map
  completed_artifact_events = completed_events (item_type item.kind)
