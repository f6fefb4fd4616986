-- ===== src/Executor/Streaming.antt =====
-- A turn from its first piece of text to its completion.
use Prim.Native.String.{◌++◌}
use mathlib.Core.List.{◌++◌ as append}
use codex_a2a.Base.{
  ℕ, suc, ◌+◌, String, ◌≡◌, refl, ap, ◌∙◌, false, Option, none, some, List, [], ◌∷◌, ok, ◌==◌,
  arith, length,
}
use codex_a2a.Wire.{RawMessage, DeltaNotification, TurnCompletedNotification}
use codex_a2a.Runtime.{append_assistant_text, assistant_text, finish_turn_for_next_message}
use codex_a2a.Broker.Sessions.{Broker}
use codex_a2a.Broker.Tasks.{update_runtime}
use codex_a2a.Broker.Invariant.{client_of}
use codex_a2a.Executor.Events.{
  Codec, TaskInfo, Event, replace_artifact, artifact_id, artifact_meta, text_part,
  ready_for_next_turn_status,
}
use codex_a2a.Executor.Messages.{handle_notification, notification_of, complete_turn}
use codex_a2a.Executor.World.{World, Yield, Incoming, event, client_of_runtime, write, write_events}
use codex_a2a.Executor.Deltas.{Pieces, pieces_of, receive_pieces, pieces-append}
use codex_a2a.Base.Maps.{Map}
use codex_a2a.Value.{Value}
use codex_a2a.Executor.Turn.{handle_message, consume_turn}

-- A piece of the assistant's text: the message and what it says.
pub record Piece : Type 0 where
  pub time : ℕ
  pub raw : RawMessage
  pub note : DeltaNotification

abbrev pub piece_message : Piece → Incoming
piece_message p = record {
  time = p.time;
  others = λ b. b;
  message = record { id = ""; method = "item/agentMessage/delta"; params = p.raw };
}

module _ (k : Codec) (info : TaskInfo) (r : ℕ) where
  -- The message is decoded as the piece.
  abbrev pub IsPiece : Piece → Type 0
  IsPiece p = ((p.raw == "") ≡ false) × (k.unmarshal_delta p.raw ≡ ok p.note)

  abbrev pub ArePieces : List Piece → Type 0
  ArePieces [] = Unit {0}
  ArePieces (p ∷ ps) = IsPiece p × ArePieces ps

  abbrev with_piece : Piece → Broker → Broker
  with_piece p b = update_runtime r (append_assistant_text p.note.item_id p.note.delta) b

  abbrev shows : Piece → Broker → String → Event
  shows p b text =
      replace_artifact info (artifact_id "assistant" p.note.item_id) "Assistant Response"
        (some (artifact_meta k p.time b r p.note.item_id "agentMessage")) (text_part text ∷ [])

  abbrev shown : Piece → Broker → Event
  shown p b = shows p b (assistant_text p.note.item_id (b.runtime r))

  -- The state after a piece.
  abbrev after_piece : Piece → List Incoming → ℕ → World → World
  after_piece p ms n w = record w {
    broker = with_piece p w.broker;
    incoming = ms;
    accepts = n;
    yields = event (shown p (with_piece p w.broker)) ∷ w.yields;
    now = p.time;
  }

  consume_turn-piece :
      (p : Piece) (ms : List Incoming) (n c : ℕ) (w : World)
      → IsPiece p
      → client_of w.broker r ≡ some c
      → w.accepts ≡ suc n
      → consume_turn k info r (piece_message p ∷ ms) w
        ≡ consume_turn k info r ms (after_piece p ms n w)
  unfolding consume_turn client_of_runtime handle_message handle_notification notification_of
      write_events write
  consume_turn-piece p ms n c w (given, decoded) holds accepts =
      rw (holds, given, decoded, accepts) refl

  -- The broker and the calls of `yield` after some pieces.
  abbrev with_pieces : List Piece → Broker → Broker
  with_pieces [] b = b
  with_pieces (p ∷ ps) b = with_pieces ps (with_piece p b)

  abbrev yields_of : List Piece → Broker → List Yield → List Yield
  yields_of [] b before = before
  yields_of (p ∷ ps) b before =
      yields_of ps (with_piece p b) (event (shown p (with_piece p b)) ∷ before)

  abbrev pub messages : List Piece → List Incoming → List Incoming
  messages [] ms = ms
  messages (p ∷ ps) ms = piece_message p ∷ messages ps ms

  -- The loop has come to the messages after the pieces.
  record Streamed (ps : List Piece) (ms : List Incoming) (n c : ℕ) (w : World) : Type 0 where
    after : World
    broker : after.broker ≡ with_pieces ps w.broker
    yields : after.yields ≡ yields_of ps w.broker w.yields
    accepts : after.accepts ≡ n
    holds : client_of after.broker r ≡ some c
    goes_on : consume_turn k info r (messages ps ms) w ≡ consume_turn k info r ms after

  with_piece-client : (p : Piece) (b : Broker) → client_of (with_piece p b) r ≡ client_of b r
  unfolding append_assistant_text
  with_piece-client p b = ground arith

  streamed :
      (ps : List Piece) (ms : List Incoming) (n c : ℕ) (w : World)
      → ArePieces ps
      → client_of w.broker r ≡ some c
      → w.accepts ≡ length ps + n
      → Streamed ps ms n c w
  streamed [] ms n c w pieces held accepts = record {
    after = w;
    broker = refl;
    yields = refl;
    accepts = omega (arith, accepts);
    holds = held;
    goes_on = refl;
  }
  streamed (p ∷ ps) ms n c w pieces held accepts =
      let v = after_piece p (messages ps ms) (length ps + n) w in
      let rest = streamed ps ms n c v pieces.1 (with_piece-client p w.broker ∙ held) refl in
      record {
        after = rest.after;
        broker = rest.broker;
        yields = rest.yields;
        accepts = rest.accepts;
        holds = rest.holds;
        goes_on =
            consume_turn-piece p (messages ps ms) (length ps + n) c w pieces.0 held
              (omega (arith, accepts))
            ∙ rest.goes_on;
      }

  -- The message that the turn is completed.
  abbrev pub end_message : ℕ → RawMessage → Incoming
  end_message time raw = record {
    time = time;
    others = λ b. b;
    message = record { id = ""; method = "turn/completed"; params = raw };
  }

  abbrev finished : Broker → Broker
  finished b = update_runtime r finish_turn_for_next_message b

  consume_turn-end :
      (time : ℕ) (raw : RawMessage) (note : TurnCompletedNotification) (ms : List Incoming)
      (n c : ℕ) (w : World)
      → (raw == "") ≡ false
      → k.unmarshal_turn_completed raw ≡ ok note
      → note.turn.status ≡ "completed"
      → client_of w.broker r ≡ some c
      → w.accepts ≡ suc n
      → consume_turn k info r (end_message time raw ∷ ms) w ≡ (
        ok tt,
        record w {
          broker = finished w.broker;
          incoming = ms;
          accepts = n;
          yields = event (ready_for_next_turn_status k info (finished w.broker) r) ∷ w.yields;
          now = time;
        },
      )
  unfolding consume_turn client_of_runtime handle_message handle_notification notification_of
      write_events write complete_turn
  consume_turn-end time raw note ms n c w given decoded completed holds accepts =
      rw (holds, given, decoded, completed, accepts) refl

  abbrev pub pairs : List Piece → Pieces
  pairs [] = []
  pairs (p ∷ ps) = (p.note.item_id, p.note.delta) ∷ pairs ps

  with_piece-runtime :
      (p : Piece) (b : Broker)
      → (with_piece p b).runtime r ≡ append_assistant_text p.note.item_id p.note.delta (b.runtime r)
  with_piece-runtime p b = ground arith

  with_pieces-runtime :
      (ps : List Piece) (b : Broker)
      → (with_pieces ps b).runtime r ≡ receive_pieces append_assistant_text (pairs ps) (b.runtime r)
  with_pieces-runtime [] b = refl
  with_pieces-runtime (p ∷ ps) b =
      with_pieces-runtime ps (with_piece p b)
      ∙ ap (receive_pieces append_assistant_text (pairs ps)) (with_piece-runtime p b)

  yields_of-last :
      (ps : List Piece) (q : Piece) (b : Broker) (before : List Yield)
      → yields_of (append ps (q ∷ [])) b before
        ≡ event (shown q (with_pieces (append ps (q ∷ [])) b)) ∷ yields_of ps b before
  yields_of-last [] q b before = refl
  yields_of-last (p ∷ ps) q b before =
      yields_of-last ps q (with_piece p b) (event (shown p (with_piece p b)) ∷ before)

  finished-IsIdle :
      (b : Broker)
      → (((finished b).runtime r).pending ≡ none) × (((finished b).runtime r).turn_active ≡ false)
  unfolding finish_turn_for_next_message
  finished-IsIdle b = (ground arith, ground arith)

  -- What is left of a turn: its last two events show the whole text of the last item and ask for the
  -- next message, and the task waits for it.
  abbrev pub Answers : String → String → World → Type 0
  Answers item text v =
      (meta : Option (Map Value)) × (before : List Yield) × (v.yields
        ≡ event (ready_for_next_turn_status k info v.broker r)
          ∷ event (
              replace_artifact info (artifact_id "assistant" item) "Assistant Response" meta
                (text_part text ∷ []))
          ∷ before)
      × ((v.broker.runtime r).pending ≡ none)
      × ((v.broker.runtime r).turn_active ≡ false)

  -- A turn whose messages are pieces of assistant messages and then its completion, all of which can be
  -- decoded, ends without an error or a panic, where the session has a client, the consumer takes the
  -- events and no other request changes the broker meanwhile. The last event but one shows, for the item
  -- of the last piece, the text before the turn followed by the item's own pieces in their order; the
  -- last one asks for the next message.
  pub consume_turn-Answers :
      (ps : List Piece) (q : Piece) (time : ℕ) (raw : RawMessage) (note : TurnCompletedNotification)
      (rest : List Incoming) (n c : ℕ) (w : World)
      → ArePieces (append ps (q ∷ []))
      → (raw == "") ≡ false
      → k.unmarshal_turn_completed raw ≡ ok note
      → note.turn.status ≡ "completed"
      → client_of w.broker r ≡ some c
      → w.accepts ≡ length (append ps (q ∷ [])) + suc n
      → (v : World) × (consume_turn k info r
            (messages (append ps (q ∷ [])) (end_message time raw ∷ rest))
            w
          ≡ (ok tt, v))
        × Answers q.note.item_id
            (assistant_text q.note.item_id (w.broker.runtime r)
              ++ pieces_of q.note.item_id (pairs (append ps (q ∷ []))))
            v
  consume_turn-Answers ps q time raw note rest n c w pieces given decoded completed held accepts =
      let all = append ps (q ∷ []) in
      let s = streamed all (end_message time raw ∷ rest) (suc n) c w pieces held accepts in
      let text =
        ap (assistant_text q.note.item_id) (with_pieces-runtime all w.broker)
        ∙ (pieces-append q.note.item_id (pairs all) (w.broker.runtime r)).0 in
      let (pending, idle) = finished-IsIdle s.after.broker in
      (
        _,
        s.goes_on
            ∙ consume_turn-end time raw note rest n c s.after given decoded completed s.holds
                s.accepts,
        (
          _,
          _,
          ap (λ ys. event (ready_for_next_turn_status k info (finished s.after.broker) r) ∷ ys)
              (s.yields
                ∙ yields_of-last ps q w.broker w.yields
                ∙ ap
                    (λ t.
                      event (shows q (with_pieces all w.broker) t) ∷ yields_of ps w.broker w.yields)
                    text),
          pending,
          idle,
        ),
      )
