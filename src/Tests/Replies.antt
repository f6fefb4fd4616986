-- ===== src/Tests/Replies.antt =====
-- The answers of a user to requests of Codex, in concrete runs.
use codex_a2a.Base.{String, ◌≡◌, refl, ◌⊎◌, none, some, [], ◌∷◌, ok}
use codex_a2a.Base.Maps.{Map}
use codex_a2a.Base.Text.{trim_space, to_lower, join}
use codex_a2a.Value.{Value, null, str}
use codex_a2a.Wire.{CommandApprovalRequest, ElicitationRequest}
use codex_a2a.Runtime.{command_approval, elicitation}
use codex_a2a.Executor.Input.{
  means_accept, response_for_pending, first_data_part, text_response, message_text,
}
use codex_a2a.Executor.Replies.{
  FitsRequest, word_of, response_for_pending-FitsRequest, elicitation-refused,
}
use codex_a2a.Tests.Executors.{says}

abbrev asked : CommandApprovalRequest
asked = record {
  thread_id = "";
  turn_id = "";
  item_id = "";
  reason = none;
  command = some "ls";
  cwd = none;
  raw = "{}";
}

abbrev form : ElicitationRequest
form = record {
  thread_id = "";
  turn_id = none;
  server_name = "";
  mode = "form";
  message = "";
  url = none;
  schema = "";
  raw = "{}";
}

yes_accepts :
    response_for_pending (says " Yes ") (command_approval "9" asked)
    ≡ ok (("decision", str "accept") ∷ [])
unfolding response_for_pending first_data_part text_response message_text join trim_space to_lower
    means_accept
yes_accepts = refl

declines :
    response_for_pending (says "Decline") (elicitation "9" form)
    ≡ ok (("action", str "decline") ∷ ("content", null) ∷ [])
unfolding response_for_pending first_data_part text_response message_text join trim_space to_lower
declines = refl

no_data : (s : String) → first_data_part (says s).parts ≡ none
unfolding first_data_part
no_data s = refl

response_for_pending-FitsRequest_example :
    FitsRequest (command_approval "9" asked) (("decision", str "accept") ∷ [])
response_for_pending-FitsRequest_example =
    response_for_pending-FitsRequest (says " Yes ") (command_approval "9" asked)
      (("decision", str "accept") ∷ []) yes_accepts

abbrev declined : Map Value
declined = ("action", str "decline") ∷ ("content", null) ∷ []

abbrev canceled_input : Map Value
canceled_input = ("action", str "cancel") ∷ ("content", null) ∷ []

elicitation-refused_example :
    ((declined ≡ declined) × (word_of (says "Decline") ≡ "decline"))
    ⊎ ((declined ≡ canceled_input) × (word_of (says "Decline") ≡ "cancel"))
elicitation-refused_example =
    elicitation-refused (says "Decline") "9" form declined (no_data "Decline") declines
