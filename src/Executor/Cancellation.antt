-- ===== src/Executor/Cancellation.antt =====
-- `Cancel`: a canceled task is reported once, by `Cancel` itself and not by the end of its turn.
use codex_a2a.Base.{
  ℕ, String, ◌≡◌, some, List, [], ◌∷◌, Error, Result, ok, err, panic, ◌==◌, if◌then◌else◌,
}
use codex_a2a.Runtime.{request_cancel}
use codex_a2a.Wire.{Sent, CodexTurn, turn_interrupt}
use codex_a2a.Broker.Sessions.{Broker}
use codex_a2a.Broker.Tasks.{update_runtime}
use codex_a2a.Executor.Events.{Codec, canceled, status_with_meta, codex_task_meta, thread_of}
use codex_a2a.Executor.Messages.{complete_turn, finishes}
use codex_a2a.Executor.World.{World, Yield, event}
use codex_a2a.Executor.Execute.{ExecutorContext}

module _ (k : Codec) (req : ExecutorContext) (r c : ℕ) where
  -- What interrupting a turn writes to the process of the task.
  abbrev interrupt_sent : String → Broker → List (ℕ × Sent)
  interrupt_sent turn_id b =
      if turn_id == "" then b.sent else (c, turn_interrupt (thread_of b r) turn_id) ∷ b.sent

  -- The turn is interrupted: no event is emitted, and the broker only writes the interruption.
  abbrev Interrupts : String → World → Result Error Unit × World → Type 0
  Interrupts turn_id w (ok u, w') =
      (w'.yields ≡ w.yields)
      × (w'.broker ≡ record w.broker { sent = interrupt_sent turn_id w.broker })
  Interrupts turn_id w (err e, w') = ⊥
  Interrupts turn_id w (panic, w') = ⊥

  -- What is reported of a canceled task.
  abbrev report : Broker → Yield
  report b = event (
      status_with_meta req.info canceled (some "Canceled by the user.")
        (some (codex_task_meta k b r)))

  -- `Cancel` has emitted its event, and the end of the interrupted turn finishes the task without a
  -- further one.
  abbrev pub Cancels : World → World → Type 0
  Cancels w d =
      (d.yields ≡ report w.broker ∷ w.yields)
      × (d.broker.sent ≡ interrupt_sent (w.broker.runtime r).turn_id w.broker)
      × ((now : ℕ) (turn : CodexTurn)
          → turn.status ≡ "interrupted"
          → complete_turn k req.info now d.broker r turn
            ≡ ok (record { events = []; outcome = finishes; broker = d.broker }))

  abbrev marked : Broker → Broker
  marked b = update_runtime r request_cancel b

  abbrev sent_marked : List (ℕ × Sent) → Broker → Broker
  sent_marked sent b = record (marked b) { sent = sent }
