-- ===== src/Executor/Safety/Messages.antt =====
-- What a message does to a turn: handling it does not panic and keeps what is known of the broker.
use codex_a2a.Base.{
  ℕ, Bool, true, false, Error, Result, ok, err, panic, ◌>>=◌, NoPanic, bind-NoPanic, ◌==◌, if-both,
}
use codex_a2a.Value.{Value}
use codex_a2a.Wire.{RawMessage, IncomingMessage, CodexTurn}
use codex_a2a.Broker.Sessions.{Broker}
use codex_a2a.Broker.Invariant.Reach.{
  run_call, finishes_turn, appends_assistant, appends_command, appends_diff, notes_item,
}
use codex_a2a.Executor.Events.{Codec, TaskInfo}
use codex_a2a.Executor.Messages.{
  Handled, handle_server_request, complete_turn, interrupted, Notification, turn_started,
  turn_completed, diff_updated, plan_updated, agent_message_delta, command_output_delta,
  file_change_delta, item_started, item_completed, request_resolved, unknown, handle,
  handle_notification, notification_of,
}
use codex_a2a.Executor.Safety.Actions.{Guards, decode_json-NoPanic}

-- The encoding and decoding of JSON return an error where they fail.
pub record IsTotal (k : Codec) : Type 0 where
  pub marshal_indent : (v : Value) → NoPanic (k.marshal_indent v)
  pub turn_start : (raw : RawMessage) → NoPanic (k.unmarshal_turn_start raw)
  pub turn_completed : (raw : RawMessage) → NoPanic (k.unmarshal_turn_completed raw)
  pub diff : (raw : RawMessage) → NoPanic (k.unmarshal_diff raw)
  pub plan : (raw : RawMessage) → NoPanic (k.unmarshal_plan raw)
  pub delta : (raw : RawMessage) → NoPanic (k.unmarshal_delta raw)
  pub item : (raw : RawMessage) → NoPanic (k.unmarshal_item raw)
  pub command_approval : (raw : RawMessage) → NoPanic (k.unmarshal_command_approval raw)
  pub file_approval : (raw : RawMessage) → NoPanic (k.unmarshal_file_approval raw)
  pub elicitation : (raw : RawMessage) → NoPanic (k.unmarshal_elicitation raw)

module _ (I : Broker → Type 0) where
  -- A notification is handled, and the broker has the property.
  abbrev pub KeepsInv : Result Error Handled → Type 0
  KeepsInv (ok h) = I h.broker
  KeepsInv (err e) = Unit {0}
  KeepsInv panic = ⊥

  decoded-KeepsInv :
      {A : Type 0} (m : Result Error A) (f : A → Result Error Handled)
      → NoPanic m
      → ((a : A) → KeepsInv (f a))
      → KeepsInv (m >>= f)
  decoded-KeepsInv (ok a) f p h = h a
  decoded-KeepsInv (err e) f p h = tt
  decoded-KeepsInv panic f p h = p

  module _ (r : ℕ) (g : Guards r I) (b : Broker) (inv : I b) (k : Codec) (total : IsTotal k)
      (info : TaskInfo) (now : ℕ) where
    interrupted-KeepsInv : (c : Bool) → KeepsInv (interrupted k info now b r c)
    interrupted-KeepsInv true = inv
    interrupted-KeepsInv false = inv

    complete_turn-KeepsInv : (turn : CodexTurn) → KeepsInv (complete_turn k info now b r turn)
    unfolding complete_turn run_call
    complete_turn-KeepsInv turn =
        if-both KeepsInv (turn.status == "completed") (g.calls b finishes_turn inv) (
          if-both KeepsInv (turn.status == "interrupted")
            (interrupted-KeepsInv (b.runtime r).cancel_requested)
            (if-both KeepsInv (turn.status == "failed") inv inv))

    handle-KeepsInv :
        (n : Notification) (params : RawMessage) → KeepsInv (handle k info now b r n params)
    unfolding run_call
    handle-KeepsInv turn_started params = inv
    handle-KeepsInv turn_completed params =
        decoded-KeepsInv _ _ (decode_json-NoPanic _ _ params total.turn_completed)
          λ n. complete_turn-KeepsInv n.turn
    handle-KeepsInv diff_updated params =
        decoded-KeepsInv _ _ (decode_json-NoPanic _ _ params total.diff) λ n. inv
    handle-KeepsInv plan_updated params =
        decoded-KeepsInv _ _ (decode_json-NoPanic _ _ params total.plan) λ n. inv
    handle-KeepsInv agent_message_delta params =
        decoded-KeepsInv _ _ (decode_json-NoPanic _ _ params total.delta)
          λ n. g.calls b (appends_assistant n.item_id n.delta) inv
    handle-KeepsInv command_output_delta params =
        decoded-KeepsInv _ _ (decode_json-NoPanic _ _ params total.delta)
          λ n. g.calls b (appends_command n.item_id n.delta) inv
    handle-KeepsInv file_change_delta params =
        decoded-KeepsInv _ _ (decode_json-NoPanic _ _ params total.delta)
          λ n. g.calls b (appends_diff n.item_id n.delta) inv
    handle-KeepsInv item_started params =
        decoded-KeepsInv _ _ (decode_json-NoPanic _ _ params total.item)
          λ n. g.calls b (notes_item n.item.id now) inv
    handle-KeepsInv item_completed params =
        decoded-KeepsInv _ _ (decode_json-NoPanic _ _ params total.item) λ n. inv
    handle-KeepsInv request_resolved params = inv
    handle-KeepsInv unknown params = inv

    pub handle_notification-KeepsInv :
        (msg : IncomingMessage) → KeepsInv (handle_notification k info now b r msg)
    unfolding handle_notification
    handle_notification-KeepsInv msg = handle-KeepsInv (notification_of msg.method) msg.params

module _ (k : Codec) (total : IsTotal k) (info : TaskInfo) where
  pub handle_server_request-NoPanic :
      (msg : IncomingMessage) → NoPanic (handle_server_request k info msg)
  unfolding handle_server_request
  handle_server_request-NoPanic msg =
      if-both NoPanic (msg.method == "item/commandExecution/requestApproval")
        (bind-NoPanic _ _ (decode_json-NoPanic _ _ msg.params total.command_approval) λ req. tt)
        (if-both NoPanic (msg.method == "item/fileChange/requestApproval")
          (bind-NoPanic _ _ (decode_json-NoPanic _ _ msg.params total.file_approval) λ req. tt)
          (if-both NoPanic (msg.method == "mcpServer/elicitation/request")
            (bind-NoPanic _ _ (decode_json-NoPanic _ _ msg.params total.elicitation) λ req. tt) tt))
