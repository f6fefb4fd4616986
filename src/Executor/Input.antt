-- ===== src/Executor/Input.antt =====
-- internal/service/executor.go, lines 366 to 518: what a user message says to Codex.
use Prim.Native.String.{◌++◌}
use mathlib.Core.List.{reverse}
use codex_a2a.Base.{
  String, Bool, true, false, not, ◌&&◌, ◌||◌, Option, none, some, List, [], ◌∷◌, Error, errorf,
  wrap, Result, ok, err, panic, ◌>>=◌, ◌==◌, if◌then◌else◌,
}
use codex_a2a.Base.Maps.{Map}
use codex_a2a.Base.Text.{trim_space, to_lower, join, quote, has_prefix}
use codex_a2a.Value.{Value, Fields, null, str, obj, get_field, or_null}
use codex_a2a.Runtime.{PendingRequest, command_approval, file_approval, elicitation}
use codex_a2a.Wire.{CodexUserInput}
use codex_a2a.Executor.Events.{Codec}

-- The type switch on `part.Content`.
pub data Content : Type 0 where
  text : String → Content
  value : Value → Content
  url : Content
  raw_bytes : Content
  unknown : Content

-- A part of an A2A message with the answers of its methods `Text`, `Data` and `URL`; a nil answer of
-- `Data` is `null`. A nil part is `none` in the list of parts.
pub record Part : Type 0 where
  pub content : Content
  pub part_text : String
  pub part_data : Value
  pub part_url : String
  pub media_type : String

pub record Message : Type 0 where
  pub parts : List (Option Part)
  pub reference_tasks : List String

unfoldable pub codex_input_from_file_part : Part → Result Error CodexUserInput
codex_input_from_file_part part =
    if part.part_url == ""
    then err (errorf "file parts must provide a URL-backed content part")
    else if not (part.media_type == "") && not (has_prefix "image/" part.media_type)
    then err (
        errorf
          ("file parts are only supported for image MIME types, got " ++ quote part.media_type))
    else ok (record { kind = "image"; text = ""; url = part.part_url })

-- The loop's variables: the texts and the inputs so far, the last one first.
pub record Gathered : Type 0 where
  pub texts : List String
  pub inputs : List CodexUserInput

abbrev is_null : Value → Bool
is_null null = true
is_null _ = false

module _ (k : Codec) where
  abbrev add_data : Gathered → Value → Value → Result Error Gathered
  add_data g payload content = elim (k.marshal_indent payload) [
    | ok blob ↦ ok (record g { texts = (if is_null content then "null" else blob) ∷ g.texts })
    | err e ↦ err (wrap "marshal data part" e)
    | panic ↦ panic
  ]

  abbrev pub add_content : Gathered → Part → Content → Result Error Gathered
  add_content g part (text t) =
      if trim_space t == "" then ok g else ok (record g { texts = t ∷ g.texts })
  add_content g part (value v) = add_data g part.part_data v
  add_content g part url = do
    input ← codex_input_from_file_part part
    ok (record g { inputs = input ∷ g.inputs })
  add_content g part raw_bytes = err (errorf "unsupported raw message part content")
  add_content g part unknown = err (errorf "unsupported message part content")

  abbrev add_part : Gathered → Option Part → Result Error Gathered
  add_part g none = ok g
  add_part g (some part) = add_content g part part.content

  unfoldable pub gather_parts : List (Option Part) → Gathered → Result Error Gathered
  unfolding codex_input_from_file_part
  gather_parts [] g = ok g
  gather_parts (p ∷ ps) g = do g' ← add_part g p; gather_parts ps g'

  abbrev pub gathered_inputs : List String → List CodexUserInput → List CodexUserInput
  gathered_inputs [] inputs = inputs
  gathered_inputs (t ∷ ts) inputs =
      record { kind = "text"; text = join "\n\n" (t ∷ ts); url = "" } ∷ inputs

  abbrev pub some_input : List CodexUserInput → Result Error (List CodexUserInput)
  some_input [] = err (errorf "message does not contain any Codex-compatible content parts")
  some_input (i ∷ is) = ok (i ∷ is)

  unfoldable pub codex_inputs_from_message : Message → Result Error (List CodexUserInput)
  codex_inputs_from_message msg = do
    g ← gather_parts msg.parts (record { texts = []; inputs = [] })
    some_input (gathered_inputs (reverse g.texts) (reverse g.inputs))

abbrev object_of : Value → Option Fields
object_of (obj fs) = some fs
object_of _ = none

abbrev data_object : Option Part → Option Fields
data_object none = none
data_object (some part) = object_of part.part_data

abbrev or_else : Option Fields → Option Fields → Option Fields
or_else (some fs) rest = some fs
or_else none rest = rest

unfoldable pub first_data_part : List (Option Part) → Option Fields
first_data_part [] = none
first_data_part (p ∷ ps) = or_else (data_object p) (first_data_part ps)

abbrev text_of : Option Part → String
text_of none = ""
text_of (some part) = part.part_text

unfoldable pub text_parts : List (Option Part) → List String
text_parts [] = []
text_parts (p ∷ ps) = let rest = text_parts ps in if text_of p == "" then rest else text_of p ∷ rest

unfoldable pub message_text : Message → String
unfolding text_parts
message_text msg = join "\n\n" (text_parts msg.parts)

abbrev pub approval_data : Option Value → Result Error (Map Value)
approval_data (some decision) = ok (("decision", decision) ∷ [])
approval_data none = err (errorf "approval replies need a data part with a decision field")

abbrev pub elicitation_data : Fields → Option Value → Result Error (Map Value)
elicitation_data fs (some action) =
    ok (("action", action) ∷ ("content", or_null (get_field "content" fs)) ∷ [])
elicitation_data fs none = err (errorf "elicitation replies need a data part with an action field")

unfoldable pub data_response : PendingRequest → Fields → Result Error (Map Value)
data_response (command_approval id r) fs = approval_data (get_field "decision" fs)
data_response (file_approval id r) fs = approval_data (get_field "decision" fs)
data_response (elicitation id r) fs = elicitation_data fs (get_field "action" fs)

abbrev pub decision : String → Result Error (Map Value)
decision d = ok (("decision", str d) ∷ [])

-- The cases of the switch on the lower-case reply.
unfoldable pub means_accept : String → Bool
means_accept word =
    word == "accept" || word == "approve" || word == "approved" || word == "yes" || word == "y"

unfoldable pub means_decline : String → Bool
means_decline word =
    word == "decline" || word == "deny" || word == "reject" || word == "no" || word == "n"

abbrev pub approval_text : String → String → Result Error (Map Value)
approval_text reply word =
    if means_accept word
    then decision "accept"
    else if means_decline word
    then decision "decline"
    else if word == "cancel"
    then decision "cancel"
    else err (
        errorf (
          "unrecognized approval response " ++ (quote reply ++ "; use accept, decline, or cancel")))

abbrev pub elicitation_text : String → Result Error (Map Value)
elicitation_text word =
    if word == "decline"
    then ok (("action", str "decline") ∷ ("content", null) ∷ [])
    else if word == "cancel"
    then ok (("action", str "cancel") ∷ ("content", null) ∷ [])
    else err (
        errorf
          "elicitation replies should use a data part with action/content, or the text decline/cancel")

-- `reply` is the trimmed text of the message.
unfoldable pub text_response : PendingRequest → String → Result Error (Map Value)
text_response (command_approval id r) reply = approval_text reply (to_lower reply)
text_response (file_approval id r) reply = approval_text reply (to_lower reply)
text_response (elicitation id r) reply = elicitation_text (to_lower reply)

abbrev pub response_from : PendingRequest → String → Option Fields → Result Error (Map Value)
response_from p reply (some fs) = data_response p fs
response_from p reply none =
    if reply == ""
    then err (errorf "reply must include either a structured data part or a text decision")
    else text_response p reply

unfoldable pub response_for_pending : Message → PendingRequest → Result Error (Map Value)
response_for_pending msg p =
    response_from p (trim_space (message_text msg)) (first_data_part msg.parts)

abbrev policy : String → Option (Map Value)
policy mode = some (("type", str mode) ∷ [])

unfoldable pub sandbox_policy_from_string : String → Option (Map Value)
sandbox_policy_from_string mode =
    if mode == ""
    then none
    else if mode == "read-only" || mode == "readOnly"
    then policy "readOnly"
    else if mode == "workspace-write" || mode == "workspaceWrite"
    then policy "workspaceWrite"
    else if mode == "danger-full-access" || mode == "dangerFullAccess"
    then policy "dangerFullAccess"
    else policy mode
