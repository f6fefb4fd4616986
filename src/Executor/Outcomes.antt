-- ===== src/Executor/Outcomes.antt =====
-- `consumeTurn`, line by line of its loop: how a turn leaves its task.
use codex_a2a.Base.{
  ℕ, zero, suc, String, ◌≡◌, refl, ◌⊎◌, inl, inr, false, Option, none, some, List, [], ◌∷◌, Error,
  Result, ok, err, panic, arith, ◌==◌, Bool-cases,
}
use codex_a2a.Base.Maps.{Map, lookup}
use codex_a2a.Executor.Completed.{handle-IsCompleted}
use codex_a2a.Runtime.{PendingRequest, set_pending}
use codex_a2a.Wire.{IncomingMessage}
use codex_a2a.Broker.Sessions.{Broker}
use codex_a2a.Broker.Lifecycle.{finish_task-inactive}
use codex_a2a.Value.{Value}
use codex_a2a.Executor.Events.{
  Codec, TaskInfo, input_required, Event, status_update, status_with_meta, pending_artifact,
  input_required_status, ready_for_next_turn_status,
}
use codex_a2a.Executor.Messages.{
  Outcome, continues, pauses, finishes, Handled, Paused, handle_server_request, handle_notification,
  notification_of,
}
use codex_a2a.Executor.World.{
  World, Yield, event, on_error, take_event, pure, lift, ◌>>=◌, ◌>>◌, write, write_events,
}
use codex_a2a.Executor.Turn.{
  handle_message, take_notification, settle, take_request, finish_and_fail,
}

-- The last event asks for input, and the task either waits for the answer to a request of Codex or
-- has no turn at work.
pub record IsPaused (info : TaskInfo) (r : ℕ) (w : World) : Type 0 where
  pub text : Option String
  pub meta : Option (Map Value)
  pub before : List Yield
  pub asks : w.yields ≡ event (status_update info input_required text meta) ∷ before
  pub waits :
      ((p : PendingRequest) × ((w.broker.runtime r).pending ≡ some p))
      ⊎ (((w.broker.runtime r).pending ≡ none) × ((w.broker.runtime r).turn_active ≡ false))

-- The broker has forgotten the task.
abbrev pub IsEnded : TaskInfo → World → Type 0
IsEnded info w = lookup info.task_id w.broker.tasks ≡ none

abbrev pub Settles : TaskInfo → ℕ → Outcome → World → Type 0
Settles info r continues w = Unit {0}
Settles info r pauses w = IsPaused info r w
Settles info r finishes w = IsEnded info w

module _ (info : TaskInfo) (r : ℕ) where
  -- What holds when an action ends without an error.
  abbrev pub Settled : Result Error Outcome × World → Type 0
  Settled (ok o, w) = Settles info r o w
  Settled (err e, w) = Unit {0}
  Settled (panic, w) = Unit {0}

  module _ (k : Codec) where
    pause-Settled :
        (b : Broker) (w : World)
        → (b.runtime r).pending ≡ none
        → (b.runtime r).turn_active ≡ false
        → (n : ℕ)
        → Settled (
            ((take_event n (ready_for_next_turn_status k info b r) >> pure tt)
                >> pure pauses
                >>= settle k info)
              (record w { broker = b }))
    unfolding ready_for_next_turn_status status_with_meta
    pause-Settled b w pending idle zero = tt
    pause-Settled b w pending idle (suc n) = record {
      text = _;
      meta = _;
      before = _;
      asks = refl;
      waits = inr (pending, idle);
    }

    finish-Settled :
        (x : Result Error Unit) (w : World)
        → Settled ((lift x >> pure finishes >>= settle k info) w)
    finish-Settled (ok u) w = finish_task-inactive info.task_id w.broker
    finish-Settled (err e) w = tt
    finish-Settled panic w = tt

    continue-Settled :
        (x : Result Error Unit) (w : World)
        → Settled ((lift x >> pure continues >>= settle k info) w)
    continue-Settled (ok u) w = tt
    continue-Settled (err e) w = tt
    continue-Settled panic w = tt

    notified-Settled :
        (es : List Event) (o : Outcome) (b : Broker) (w : World)
        → (o ≡ pauses
            → (es ≡ ready_for_next_turn_status k info b r ∷ [])
              × ((b.runtime r).pending ≡ none)
              × ((b.runtime r).turn_active ≡ false))
        → Settled (
            (take_notification k info (record { events = es; outcome = o; broker = b })
                >>= settle k info)
              w)
    unfolding write_events write
    notified-Settled es pauses b w h =
        let (one, pending, idle) = h refl in rw one (pause-Settled b w pending idle w.accepts)
    notified-Settled es finishes b w h =
        finish-Settled (write_events es (record w { broker = b })).0 _
    notified-Settled es continues b w h =
        continue-Settled (write_events es (record w { broker = b })).0 _

    requested-Settled :
        (p : PendingRequest) (w : World) (n : ℕ)
        → Settled (
            take_request k info r
              (record {
                pending = p;
                events = pending_artifact info p "" ∷ input_required_status info p "" ∷ [];
              })
              (record w { accepts = n }))
    unfolding write_events write input_required_status status_with_meta set_pending
    requested-Settled p w zero = tt
    requested-Settled p w (suc zero) = tt
    requested-Settled p w (suc (suc n)) = record {
      text = _;
      meta = _;
      before = _;
      asks = refl;
      waits = inl (p, ground arith);
    }

    handle_server_request-events :
        (msg : IncomingMessage) (p : Paused)
        → handle_server_request k info msg ≡ ok p
        → p.events
          ≡ pending_artifact info p.pending "" ∷ input_required_status info p.pending "" ∷ []
    unfolding handle_server_request
    handle_server_request-events msg p e = ground arith

    taken-Settled :
        (p : Paused) (w : World)
        → p.events
          ≡ pending_artifact info p.pending "" ∷ input_required_status info p.pending "" ∷ []
        → Settled (take_request k info r p w)
    taken-Settled p w e = rw e (requested-Settled p.pending w w.accepts)

    notification-Settled :
        (msg : IncomingMessage) (w : World) (x : Result Error Handled)
        → handle_notification k info w.now w.broker r msg ≡ x
        → Settled (
            (on_error (lift x) (finish_and_fail info.task_id) >>= λ h.
            take_notification k info h >>= settle k info)
              w)
    unfolding handle_notification
    notification-Settled msg w (ok h) e =
        notified-Settled h.events h.outcome h.broker w
          (handle-IsCompleted k info w.now w.broker r (notification_of msg.method) msg.params h e)
    notification-Settled msg w (err x) e = tt
    notification-Settled msg w panic e = tt

    request-Settled :
        (msg : IncomingMessage) (w : World) (x : Result Error Paused)
        → handle_server_request k info msg ≡ x
        → Settled ((on_error (lift x) (finish_and_fail info.task_id) >>= take_request k info r) w)
    request-Settled msg w (ok p) e = taken-Settled p w (handle_server_request-events msg p e)
    request-Settled msg w (err x) e = tt
    request-Settled msg w panic e = tt

    pub handle_message-Settled :
        (msg : IncomingMessage) (w : World) → Settled (handle_message k info r msg w)
    unfolding handle_message
    handle_message-Settled msg w = elim (Bool-cases (msg.id == "")) [
      | inl q ↦ rw q (notification-Settled msg w _ refl)
      | inr q ↦ rw q (request-Settled msg w _ refl)
    ]
