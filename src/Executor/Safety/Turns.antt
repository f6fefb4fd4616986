-- ===== src/Executor/Safety/Turns.antt =====
-- A turn on a session with a client: from its start to its pause, its end or an error.
use codex_a2a.Base.{
  ℕ, ◌≡◌, Option, none, some, List, [], ◌∷◌, Error, Result, ok, err, panic, NoPanic, arith, ◌==◌,
  Bool-cases, inl, inr,
}
use codex_a2a.Base.Maps.{Map}
use codex_a2a.Config.{RequestOptions}
use codex_a2a.Value.{Value}
use codex_a2a.Wire.{IncomingMessage, CodexTurn, CodexUserInput}
use codex_a2a.Runtime.{PendingRequest, set_pending}
use codex_a2a.Broker.Sessions.{Broker}
use codex_a2a.Broker.Tasks.{update_runtime}
use codex_a2a.Executor.Events.{Codec, TaskInfo}
use codex_a2a.Executor.Input.{Message, response_for_pending}
use codex_a2a.Executor.Messages.{
  Outcome, continues, pauses, finishes, Handled, Paused, handle_server_request, handle_notification,
}
use codex_a2a.Executor.World.{
  World, Incoming, Action, lift, ◌>>=◌, ◌>>◌, on_error, client_of_runtime, write, write_events,
  request, respond, modify, pure,
}
use codex_a2a.Executor.Turn.{
  finish_and_fail, write_working, take_notification, settle, take_request, handle_message, go_on,
  consume_turn, consume, ask_for_turn, decode_turn, run_turn, start_new_turn, ask_again,
  resume_with, send_reply, answer_pending, resume_input_required,
}
use codex_a2a.Broker.Invariant.Reach.{RuntimeCall, run_call, starts_turn, clears_pending}
use codex_a2a.Executor.Safety.Actions.{
  Guards, Spared, Fares, Ready, Steady, client_of_runtime-Steady, >>=-Fares, on_error-Fares,
  lift-Fares, write-Fares, write_events-Fares, client_of_runtime-Fares, request-Fares,
  respond-Fares, decode_json-NoPanic,
}
use codex_a2a.Executor.Safety.Input.{response_for_pending-NoPanic}
use codex_a2a.Executor.Safety.Messages.{
  IsTotal, KeepsInv, handle_notification-KeepsInv, handle_server_request-NoPanic,
}

-- The action does not panic.
abbrev pub Returns : {A : Type 0} → Result Error A × World → Type 0
Returns x = Fares (λ a w. Unit {0}) x

pub returned-ne_panic : (x : Result Error Unit × World) → Returns x → ¬ (x.0 ≡ panic)
returned-ne_panic (ok u, w) h e = ground (arith, e)
returned-ne_panic (err x, w) h e = ground (arith, e)
returned-ne_panic (panic, w) h e = h

module _ {A : Type 0} (P : A → World → Type 0) where
  Fares-Returns : (x : Result Error A × World) → Fares P x → Returns x
  Fares-Returns (ok a, w) h = tt
  Fares-Returns (err e, w) h = tt
  Fares-Returns (panic, w) h = h

module _ (I : Broker → Type 0) (r : ℕ) (g : Guards r I) (k : Codec) (total : IsTotal k)
    (info : TaskInfo) where
  -- Another broker with the property.
  rebroker-Ready : (w : World) (b : Broker) → I b → Ready I w → Ready I (record w { broker = b })
  rebroker-Ready w b inv h = record {
    inv = inv;
    spared = h.spared;
    replies = h.replies;
    writes = h.writes;
  }

  call-Ready :
      (call : RuntimeCall) (w : World)
      → Ready I w
      → Ready I (record w { broker = update_runtime r (run_call call) w.broker })
  call-Ready call w h =
      rebroker-Ready w (update_runtime r (run_call call) w.broker) (g.calls w.broker call h.inv) h

  -- What holds when the loop goes on.
  abbrev Goes : Outcome → World → Type 0
  Goes continues w = Ready I w
  Goes pauses w = Unit {0}
  Goes finishes w = Unit {0}

  settle-Fares : (o : Outcome) (w : World) → Ready I w → Fares Goes (settle k info o w)
  settle-Fares continues w h = h
  settle-Fares pauses w h = tt
  settle-Fares finishes w h = tt

  notified-Fares :
      (x : Result Error Handled) (w : World)
      → KeepsInv I x
      → Ready I w
      → Fares Goes (
          (on_error (lift x) (finish_and_fail info.task_id) >>= λ h.
          take_notification k info h >>= settle k info)
            w)
  notified-Fares (ok h) w same ready =
      >>=-Fares (λ o. Ready I) Goes (settle k info) (take_notification k info h) w
        (>>=-Fares (λ u. Ready I) (λ o. Ready I) (λ u. pure h.outcome) (write_events h.events)
          (record w { broker = h.broker })
          (write_events-Fares r I g h.events (record w { broker = h.broker })
            (rebroker-Ready w h.broker same ready))
          λ u w' h'. h')
        settle-Fares
  notified-Fares (err e) w same ready = tt
  notified-Fares panic w same ready = same

  requested-Fares :
      (x : Result Error Paused) (w : World)
      → NoPanic x
      → Ready I w
      → Fares Goes ((on_error (lift x) (finish_and_fail info.task_id) >>= take_request k info r) w)
  requested-Fares (ok p) w calm ready =
      >>=-Fares (λ u. Ready I) Goes
        (λ u. modify (update_runtime r (set_pending p.pending)) >> pure pauses)
        (write_events p.events) w (write_events-Fares r I g p.events w ready) λ u w' h'. tt
  requested-Fares (err e) w calm ready = tt
  requested-Fares panic w calm ready = calm

  handle_message-Fares :
      (msg : IncomingMessage) (w : World) → Ready I w → Fares Goes (handle_message k info r msg w)
  unfolding handle_message
  handle_message-Fares msg w ready = elim (Bool-cases (msg.id == "")) [
    | inl q ↦ rw q (
        notified-Fares (handle_notification k info w.now w.broker r msg) w
          (handle_notification-KeepsInv I r g w.broker ready.inv k total info w.now msg) ready)
    | inr q ↦ rw q (
        requested-Fares (handle_server_request k info msg) w
          (handle_server_request-NoPanic k total info msg) ready)
  ]

  go_on-Returns :
      (rest : Action Unit)
      → ((w : World) → Ready I w → Returns (rest w))
      → (o : Outcome) (w : World) → Goes o w
      → Returns (go_on k info o rest w)
  go_on-Returns rest h continues w ready = h w ready
  go_on-Returns rest h pauses w ready = tt
  go_on-Returns rest h finishes w ready = tt

  pub consume_turn-Returns :
      (ms : List Incoming) (w : World)
      → Spared I ms
      → Ready I w
      → Returns (consume_turn k info r ms w)
  unfolding consume_turn
  consume_turn-Returns [] w spared ready =
      >>=-Fares (λ c. Ready I) (λ u w'. Unit {0}) _ (client_of_runtime r) w
        (client_of_runtime-Fares r I g w ready) λ c w' h. tt
  consume_turn-Returns (m ∷ ms) w spared ready =
      >>=-Fares (λ c. Ready I) (λ u w'. Unit {0}) _ (client_of_runtime r) w
        (client_of_runtime-Fares r I g w ready)
        λ c w' h.
          let v = record w' { broker = m.others w'.broker; incoming = ms; now = m.time } in
          >>=-Fares Goes (λ u w''. Unit {0}) (λ o. go_on k info o (consume_turn k info r ms))
            (handle_message k info r m.message) v
            (handle_message-Fares m.message v (record {
              inv = spared.0 w'.broker h.inv;
              spared = spared.1;
              replies = h.replies;
              writes = h.writes;
            }))
            (go_on-Returns (consume_turn k info r ms)
              λ w'' h'. consume_turn-Returns ms w'' spared.1 h')

  working-Returns :
      (w : World) → Ready I w → Returns ((write_working k info r >> consume k info r) w)
  working-Returns w ready =
      >>=-Fares (λ u. Ready I) (λ u w'. Unit {0}) (λ u. consume k info r) (write_working k info r) w
        (write-Fares r I g _ w ready) λ u w' h. consume_turn-Returns w'.incoming w' h.spared h

  run_turn-Returns : (turn : CodexTurn) (w : World) → Ready I w → Returns (run_turn k info r turn w)
  unfolding run_call
  run_turn-Returns turn w ready = working-Returns _ (call-Ready (starts_turn turn.id) w ready)

  pub start_new_turn-Returns :
      (options : RequestOptions) (input : List CodexUserInput) (w : World)
      → Steady I w
      → Returns (start_new_turn k info r options input w)
  unfolding start_new_turn request
  start_new_turn-Returns options input w ready =
      >>=-Fares (λ c. Steady I) (λ u w'. Unit {0}) _ (client_of_runtime r) w
        (client_of_runtime-Steady r I g w ready)
        λ c w' h.
          >>=-Fares (λ reply. Ready I) (λ u w''. Unit {0}) _
            (ask_for_turn k info r options input c w'.broker) w'
            (on_error-Fares (λ reply. Ready I) (request c _) _ w' (request-Fares r I g c _ w' h)
              λ e w''. tt)
            λ reply w'' h'.
              >>=-Fares (λ turn. Ready I) (λ u v. Unit {0}) (run_turn k info r)
                (decode_turn k info reply) w''
                (on_error-Fares (λ turn. Ready I) (lift _) _ w''
                  (lift-Fares (Ready I) _ w'' (decode_json-NoPanic _ _ reply total.turn_start) h')
                  λ e v. tt)
                run_turn-Returns

  resume_with-Returns :
      (p : PendingRequest) (w : World) → Ready I w → Returns (resume_with k info r p w)
  unfolding run_call
  resume_with-Returns p w ready = working-Returns _ (call-Ready clears_pending w ready)

  ask_again-Returns :
      (p : PendingRequest) (e : Error) (w : World) → Ready I w → Returns (ask_again k info p e w)
  ask_again-Returns p e w ready =
      >>=-Fares (λ u. Ready I) (λ u w'. Unit {0}) _ (write _) w (write-Fares r I g _ w ready)
        λ u w' h. Fares-Returns (λ u. Ready I) (write _ w') (write-Fares r I g _ w' h)

  answer_pending-Returns :
      (p : PendingRequest) (x : Result Error (Map Value)) (w : World)
      → NoPanic x
      → Steady I w
      → Returns (answer_pending k info r p x w)
  unfolding respond
  answer_pending-Returns p (ok reply) w calm ready =
      >>=-Fares (λ c. Steady I) (λ u w'. Unit {0}) _ (client_of_runtime r) w
        (client_of_runtime-Steady r I g w ready)
        λ c w' h.
          >>=-Fares (λ u. Ready I) (λ u w''. Unit {0}) (λ u. resume_with k info r p)
            (send_reply k info p reply c) w'
            (on_error-Fares (λ u. Ready I) (respond c _) _ w' (respond-Fares r I g c _ w' h)
              λ e w''. tt)
            λ u. resume_with-Returns p
  answer_pending-Returns p (err e) w calm ready = ask_again-Returns p e w ready.0
  answer_pending-Returns p panic w calm ready = calm

  pub resume_input_required-Returns :
      (msg : Message) (p : Option PendingRequest) (w : World)
      → Steady I w
      → Returns (resume_input_required k info r msg p w)
  unfolding resume_input_required
  resume_input_required-Returns msg none w ready = tt
  resume_input_required-Returns msg (some p) w ready =
      answer_pending-Returns p (response_for_pending msg p) w (response_for_pending-NoPanic msg p)
        ready
