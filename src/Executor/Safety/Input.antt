-- ===== src/Executor/Safety/Input.antt =====
-- Reading a message of the user does not panic.
use mathlib.Core.List.{reverse}
use codex_a2a.Base.{
  String, ◌≡◌, Option, none, some, List, [], ◌∷◌, panic, NoPanic, NoPanic-ne, never_panics,
  bind-NoPanic, arith,
}
use codex_a2a.Base.Text.{trim_space}
use codex_a2a.Value.{Fields}
use codex_a2a.Wire.{CodexUserInput}
use codex_a2a.Runtime.{PendingRequest, command_approval, file_approval, elicitation}
use codex_a2a.Executor.Events.{Codec}
use codex_a2a.Executor.Input.{
  Message, Part, Content, text, value, url, raw_bytes, unknown, Gathered, add_content, some_input,
  gathered_inputs, gather_parts, codex_input_from_file_part, codex_inputs_from_message,
  response_for_pending, response_from, data_response, text_response, message_text, first_data_part,
}
use codex_a2a.Executor.Safety.Messages.{IsTotal}

response_from-ne_panic :
    (p : PendingRequest) (reply : String) (given : Option Fields)
    → ¬ (response_from p reply given ≡ panic)
unfolding data_response text_response
response_from-ne_panic (command_approval id r) reply (some fs) e = ground (arith, e)
response_from-ne_panic (command_approval id r) reply none e = ground (arith, e)
response_from-ne_panic (file_approval id r) reply (some fs) e = ground (arith, e)
response_from-ne_panic (file_approval id r) reply none e = ground (arith, e)
response_from-ne_panic (elicitation id r) reply (some fs) e = ground (arith, e)
response_from-ne_panic (elicitation id r) reply none e = ground (arith, e)

pub response_for_pending-NoPanic :
    (msg : Message) (p : PendingRequest) → NoPanic (response_for_pending msg p)
unfolding response_for_pending
response_for_pending-NoPanic msg p =
    never_panics _
      (response_from-ne_panic p (trim_space (message_text msg)) (first_data_part msg.parts))

module _ (k : Codec) (total : IsTotal k) where
  add_content-ne_panic :
      (g : Gathered) (part : Part) (c : Content) → ¬ (add_content k g part c ≡ panic)
  unfolding codex_input_from_file_part
  add_content-ne_panic g part (text t) e = ground (arith, e)
  add_content-ne_panic g part (value v) e =
      ground (
        arith,
        e,
        NoPanic-ne (k.marshal_indent part.part_data) (total.marshal_indent part.part_data),
      )
  add_content-ne_panic g part url e = ground (arith, e)
  add_content-ne_panic g part raw_bytes e = ground (arith, e)
  add_content-ne_panic g part unknown e = ground (arith, e)

  gather_parts-NoPanic : (ps : List (Option Part)) (g : Gathered) → NoPanic (gather_parts k ps g)
  unfolding gather_parts
  gather_parts-NoPanic [] g = tt
  gather_parts-NoPanic (none ∷ ps) g = gather_parts-NoPanic ps g
  gather_parts-NoPanic (some part ∷ ps) g =
      bind-NoPanic (add_content k g part part.content) (gather_parts k ps)
        (never_panics _ (add_content-ne_panic g part part.content)) (gather_parts-NoPanic ps)

  some_input-NoPanic : (inputs : List CodexUserInput) → NoPanic (some_input k inputs)
  some_input-NoPanic [] = tt
  some_input-NoPanic (i ∷ is) = tt

  pub codex_inputs_from_message-NoPanic :
      (msg : Message) → NoPanic (codex_inputs_from_message k msg)
  unfolding codex_inputs_from_message
  codex_inputs_from_message-NoPanic msg =
      bind-NoPanic _ _ (gather_parts-NoPanic msg.parts (record { texts = []; inputs = [] }))
        λ g. some_input-NoPanic (gathered_inputs k (reverse g.texts) (reverse g.inputs))
