-- ===== src/Executor/Replies.antt =====
-- `responseForPending`: what the answer of a user to a request of Codex can become.
use codex_a2a.Base.{
  String, ◌≡◌, refl, sym, ap, ◌∙◌, Error, ◌⊎◌, inl, inr, ◌↔◌, Option, none, some, [], ◌∷◌, Result,
  ok, err, arith, ◌==◌, ==_iff, true, Bool, false, Bool-cases, false≢true, if◌then◌else◌,
}
use codex_a2a.Base.Maps.{Map}
use codex_a2a.Base.Text.{trim_space, to_lower}
use codex_a2a.Value.{Value, Fields, null, str}
use codex_a2a.Runtime.{PendingRequest, command_approval, file_approval, elicitation}
use codex_a2a.Wire.{ElicitationRequest, CommandApprovalRequest}
use codex_a2a.Executor.Input.{
  Message, first_data_part, message_text, data_response, text_response, response_for_pending,
  response_from, decision, approval_text, means_accept, means_decline,
}

-- The word that a text answer is read as.
abbrev pub word_of : Message → String
word_of msg = to_lower (trim_space (message_text msg))

abbrev pub IsDecision : Map Value → String → Type 0
IsDecision reply d = reply ≡ ("decision", str d) ∷ []

-- The fields that Codex expects in the answer to a request.
abbrev pub FitsRequest : PendingRequest → Map Value → Type 0
FitsRequest (command_approval id r) reply = (d : Value) × (reply ≡ ("decision", d) ∷ [])
FitsRequest (file_approval id r) reply = (d : Value) × (reply ≡ ("decision", d) ∷ [])
FitsRequest (elicitation id r) reply =
    (a : Value) × (c : Value) × (reply ≡ ("action", a) ∷ ("content", c) ∷ [])

approval_text-FitsRequest :
    (reply word : String) (fs : Map Value)
    → approval_text reply word ≡ ok fs
    → (d : Value) × (fs ≡ ("decision", d) ∷ [])
approval_text-FitsRequest reply word fs e = ground arith

response_from-FitsRequest :
    (p : PendingRequest) (text : String) (given : Option Fields) (reply : Map Value)
    → response_from p text given ≡ ok reply
    → FitsRequest p reply
unfolding data_response text_response
response_from-FitsRequest (command_approval id r) text (some fs) reply e = ground arith
response_from-FitsRequest (command_approval id r) text none reply e = ground arith
response_from-FitsRequest (file_approval id r) text (some fs) reply e = ground arith
response_from-FitsRequest (file_approval id r) text none reply e = ground arith
response_from-FitsRequest (elicitation id r) text (some fs) reply e = ground arith
response_from-FitsRequest (elicitation id r) text none reply e = ground arith

-- An answer that is passed on to Codex has the fields of the request it answers, and no other: an
-- approval has a decision, an elicitation an action and a content.
pub response_for_pending-FitsRequest :
    (msg : Message) (p : PendingRequest) (reply : Map Value)
    → response_for_pending msg p ≡ ok reply
    → FitsRequest p reply
unfolding response_for_pending
response_for_pending-FitsRequest msg p reply e =
    response_from-FitsRequest p (trim_space (message_text msg)) (first_data_part msg.parts) reply e

text-refused :
    (text : String) (id : String) (r : ElicitationRequest) (reply : Map Value)
    → response_from (elicitation id r) text none ≡ ok reply
    → ((reply ≡ ("action", str "decline") ∷ ("content", null) ∷ []) × (to_lower text ≡ "decline"))
      ⊎ ((reply ≡ ("action", str "cancel") ∷ ("content", null) ∷ []) × (to_lower text ≡ "cancel"))
unfolding text_response
text-refused text id r reply e =
    ground (arith, ==_iff (to_lower text) "decline", ==_iff (to_lower text) "cancel")

-- A text, without a data part, never accepts an elicitation: what it is passed on as declines or
-- cancels it, and it is the word for that.
pub elicitation-refused :
    (msg : Message) (id : String) (r : ElicitationRequest) (reply : Map Value)
    → first_data_part msg.parts ≡ none
    → response_for_pending msg (elicitation id r) ≡ ok reply
    → ((reply ≡ ("action", str "decline") ∷ ("content", null) ∷ []) × (word_of msg ≡ "decline"))
      ⊎ ((reply ≡ ("action", str "cancel") ∷ ("content", null) ∷ []) × (word_of msg ≡ "cancel"))
unfolding response_for_pending
elicitation-refused msg id r reply no_data e =
    text-refused (trim_space (message_text msg)) id r reply
      (ap (response_from (elicitation id r) (trim_space (message_text msg))) (sym no_data) ∙ e)

abbrev says_accept : Result Error (Map Value) → Bool
says_accept (ok ((name, str word) ∷ rest)) = word == "accept"
says_accept _ = false

refuses :
    (d c : Bool) (e : Error)
    → ¬ (
        (if d then decision "decline" else if c then decision "cancel" else err e)
        ≡ ok (("decision", str "accept") ∷ []))
refuses true c e h = false≢true (ap says_accept h)
refuses false true e h = false≢true (ap says_accept h)
refuses false false e h = false≢true (ap says_accept h)

word-approves :
    (text word : String)
    → (approval_text text word ≡ ok (("decision", str "accept") ∷ [])) ↔ (means_accept word ≡ true)
word-approves text word = elim (Bool-cases (means_accept word)) [
  | inl q ↦ rw q ((λ e. refl), λ e. refl)
  | inr q ↦ (
    (λ e. absurd (refuses (means_decline word) (word == "cancel") _ (rw q at e))),
    λ e. ground (arith, q, e),
  )
]

text-approves :
    (text : String) (id : String) (r : CommandApprovalRequest)
    → (response_from (command_approval id r) text none ≡ ok (("decision", str "accept") ∷ []))
      ↔ (means_accept (to_lower text) ≡ true)
unfolding text_response means_accept to_lower
text-approves text id r = elim (Bool-cases (text == "")) [
  | inl q ↦ rw ((==_iff text "").0 q) ((λ e. ground (arith, e)), λ e. ground (arith, e))
  | inr q ↦ rw q (word-approves text (to_lower text))
]

-- Without a data part, a command is approved by exactly the words for it, whatever their case and
-- the spaces around them; an empty text is no answer.
pub command_approval-iff_means_accept :
    (msg : Message) (id : String) (r : CommandApprovalRequest)
    → first_data_part msg.parts ≡ none
    → (response_for_pending msg (command_approval id r) ≡ ok (("decision", str "accept") ∷ []))
      ↔ (means_accept (word_of msg) ≡ true)
unfolding response_for_pending
command_approval-iff_means_accept msg id r no_data =
    rw no_data (text-approves (trim_space (message_text msg)) id r)
