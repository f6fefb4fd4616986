-- ===== src/Executor/Failures.antt =====
-- `handleTurnCompleted`: what the end of a turn makes of its task.
use codex_a2a.Base.{
  ◌≢◌, Bool-cases, ℕ, String, ◌≡◌, refl, ◌⊎◌, inl, inr, Bool, true, false, Option, none, some, List,
  [], ◌∷◌, Error, arith, Result, ok, err, panic, ◌==◌, ==_iff,
}
use codex_a2a.Wire.{CodexTurn, TurnError}
use codex_a2a.Runtime.{finish_turn_for_next_message}
use codex_a2a.Broker.Sessions.{Broker}
use codex_a2a.Broker.Tasks.{update_runtime}
use codex_a2a.Executor.Events.{
  Codec, TaskInfo, TaskState, failed, canceled, codex_task_meta, status_with_meta, Event,
  ready_for_next_turn_status,
}
use codex_a2a.Executor.Messages.{
  pauses, finishes, Handled, complete_turn, interrupted, failure_text,
}

module _ (k : Codec) (info : TaskInfo) (now : ℕ) (b : Broker) (r : ℕ) where
  -- The one event of a turn that ends its task.
  abbrev pub Reports : TaskState → String → List Event → Type 0
  Reports state text events =
      events ≡ status_with_meta info state (some text) (some (codex_task_meta k b r)) ∷ []

  -- The text of a failed turn: that of its error, if it has one that is not empty.
  abbrev pub IsFailureText : Option TurnError → String → Type 0
  IsFailureText none text = text ≡ "Codex turn failed."
  IsFailureText (some e) text =
      ((e.message ≡ "") × (text ≡ "Codex turn failed.")) ⊎ ((e.message ≢ "") × (text ≡ e.message))

  -- What is emitted by a turn that was not completed.
  abbrev pub EndsWith : CodexTurn → List Event → Type 0
  EndsWith turn events =
      ((turn.status ≡ "interrupted")
        × ((((b.runtime r).cancel_requested ≡ true) × (events ≡ []))
            ⊎ (((b.runtime r).cancel_requested ≡ false)
                × Reports canceled "Codex interrupted the turn." events)))
      ⊎ (((turn.status ≡ "failed")
            × ((text : String) × IsFailureText turn.error text × Reports failed text events))
          ⊎ ((turn.status ≢ "interrupted")
              × (turn.status ≢ "failed")
              × Reports failed "Codex returned an unknown terminal status." events))

  abbrev pub TurnEnds : CodexTurn → Result Error Handled → Type 0
  TurnEnds turn (err e) = ⊥
  TurnEnds turn panic = ⊥
  TurnEnds turn (ok h) =
      ((turn.status ≡ "completed")
        × (h.outcome ≡ pauses)
        × (h.broker ≡ update_runtime r finish_turn_for_next_message b)
        × (h.events ≡ ready_for_next_turn_status k info h.broker r ∷ []))
      ⊎ ((turn.status ≢ "completed")
          × (h.outcome ≡ finishes)
          × (h.broker ≡ b)
          × EndsWith turn h.events)

  status_ne : (status other : String) → (status == other) ≡ false → status ≢ other
  status_ne status other q e = ground (arith, q, ==_iff status other, e)

  interrupted-TurnEnds :
      (turn : CodexTurn) (c : Bool)
      → (b.runtime r).cancel_requested ≡ c
      → (turn.status == "completed") ≡ false
      → (turn.status == "interrupted") ≡ true
      → TurnEnds turn (interrupted k info now b r c)
  interrupted-TurnEnds turn true c p q = inr (
    status_ne turn.status "completed" p,
    refl,
    refl,
    inl ((==_iff turn.status "interrupted").0 q, inl (c, refl)),
  )
  interrupted-TurnEnds turn false c p q = inr (
    status_ne turn.status "completed" p,
    refl,
    refl,
    inl ((==_iff turn.status "interrupted").0 q, inr (c, refl)),
  )

  failure_text-IsFailureText :
      (e : Option TurnError) → IsFailureText e (failure_text k info now b r e)
  failure_text-IsFailureText none = refl
  failure_text-IsFailureText (some e) = elim (Bool-cases (e.message == "")) [
    | inl q ↦ rw q (inl ((==_iff e.message "").0 q, refl))
    | inr q ↦ rw q (inr (status_ne e.message "" q, refl))
  ]

  -- A turn that is over never fails and leaves at most one event. It pauses exactly when it was
  -- completed: the runtime is made ready for the next message, which is asked for. Otherwise it finishes
  -- and leaves the broker. A turn that was interrupted leaves no event after the user cancelled it, and
  -- else the status that the task is canceled; a failed one that the task failed, with the text of its
  -- error or a fixed one; any other that the task failed with an unknown status.
  pub complete_turn-TurnEnds :
      (turn : CodexTurn) → TurnEnds turn (complete_turn k info now b r turn)
  unfolding complete_turn
  complete_turn-TurnEnds turn = elim (Bool-cases (turn.status == "completed")) [
    | inl p ↦ rw p (inl ((==_iff turn.status "completed").0 p, refl, refl, refl))
    | inr p ↦ elim (Bool-cases (turn.status == "interrupted")) [
      | inl q ↦ rw (p, q) (interrupted-TurnEnds turn _ refl p q)
      | inr q ↦ elim (Bool-cases (turn.status == "failed")) [
        | inl f ↦
            rw (p, q, f)
              (inr (
                status_ne turn.status "completed" p,
                refl,
                refl,
                inr (
                    inl (
                      (==_iff turn.status "failed").0 f,
                      (_, failure_text-IsFailureText turn.error, refl),
                    )),
              ))
        | inr f ↦
            rw (p, q, f)
              (inr (
                status_ne turn.status "completed" p,
                refl,
                refl,
                inr (
                    inr (
                      status_ne turn.status "interrupted" q,
                      status_ne turn.status "failed" f,
                      refl,
                    )),
              ))
      ]
    ]
  ]
