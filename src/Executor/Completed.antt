-- ===== src/Executor/Completed.antt =====
-- `handleNotification`: the only notification that pauses a turn is its completion.
use codex_a2a.Base.{ℕ, ◌≡◌, false, none, [], ◌∷◌, Error, ◌>>=◌, Result, ok, err, panic, arith}
use codex_a2a.Runtime.{finish_turn_for_next_message}
use codex_a2a.Wire.{CodexTurn, RawMessage, TurnCompletedNotification, decode_json}
use codex_a2a.Broker.Sessions.{Broker}
use codex_a2a.Executor.Events.{Codec, TaskInfo, ready_for_next_turn_status}
use codex_a2a.Executor.Messages.{
  pauses, Handled, complete_turn, Notification, turn_started, turn_completed, diff_updated,
  plan_updated, agent_message_delta, command_output_delta, file_change_delta, item_started,
  item_completed, request_resolved, unknown, handle,
}

module _ (k : Codec) (info : TaskInfo) (now : ℕ) (b : Broker) (r : ℕ) where
  -- A handled notification that pauses the turn has completed it.
  abbrev pub IsCompleted : Handled → Type 0
  IsCompleted h =
      (h.events ≡ ready_for_next_turn_status k info h.broker r ∷ [])
      × ((h.broker.runtime r).pending ≡ none)
      × ((h.broker.runtime r).turn_active ≡ false)

  complete_turn-IsCompleted :
      (turn : CodexTurn) (h : Handled)
      → complete_turn k info now b r turn ≡ ok h
      → h.outcome ≡ pauses
      → IsCompleted h
  unfolding complete_turn finish_turn_for_next_message
  complete_turn-IsCompleted turn h e p = ground arith

  decoded_turn-IsCompleted :
      (d : Result Error TurnCompletedNotification) (h : Handled)
      → (d >>= λ n. complete_turn k info now b r n.turn) ≡ ok h
      → h.outcome ≡ pauses
      → IsCompleted h
  decoded_turn-IsCompleted (ok n) h e p = complete_turn-IsCompleted n.turn h e p
  decoded_turn-IsCompleted (err x) h e p = ground arith
  decoded_turn-IsCompleted panic h e p = ground arith

  pub handle-IsCompleted :
      (n : Notification) (params : RawMessage) (h : Handled)
      → handle k info now b r n params ≡ ok h
      → h.outcome ≡ pauses
      → IsCompleted h
  handle-IsCompleted turn_started params h e p = ground arith
  handle-IsCompleted turn_completed params h e p =
      decoded_turn-IsCompleted
        (decode_json k.unmarshal_turn_completed
          (record { thread_id = ""; turn = record { id = ""; status = ""; error = none } }) params)
        h e p
  handle-IsCompleted diff_updated params h e p = ground arith
  handle-IsCompleted plan_updated params h e p = ground arith
  handle-IsCompleted agent_message_delta params h e p = ground arith
  handle-IsCompleted command_output_delta params h e p = ground arith
  handle-IsCompleted file_change_delta params h e p = ground arith
  handle-IsCompleted item_started params h e p = ground arith
  handle-IsCompleted item_completed params h e p = ground arith
  handle-IsCompleted request_resolved params h e p = ground arith
  handle-IsCompleted unknown params h e p = ground arith
