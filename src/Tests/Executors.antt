-- ===== src/Tests/Executors.antt =====
-- The executor at concrete inputs.
use codex_a2a.Base.{
  String, ◌≡◌, refl, false, none, some, [], ◌∷◌, Error, errorf, Result, ok, err, true, panic, arith,
  ==_iff,
}
use Prim.Native.String.{◌++◌}
use codex_a2a.Config.{validate, validate_approval_policy, normalize_sandbox}
use codex_a2a.Value.{null}
use codex_a2a.Wire.{RawMessage, TurnCompletedNotification}
use codex_a2a.Runtime.{new_task_runtime, assistant_text}
use codex_a2a.Broker.Tasks.{finish_task_with_policy}
use codex_a2a.Executor.Events.{Codec, TaskInfo}
use codex_a2a.Executor.Input.{Message, text}
use codex_a2a.Executor.World.{World, Incoming}
use codex_a2a.Executor.Messages.{complete_turn}
use codex_a2a.Executor.Execute.{ExecutorContext, execute_stream}
use codex_a2a.Executor.Settled.{Leaves, execute_stream-Leaves}
use codex_a2a.Executor.Failures.{TurnEnds, complete_turn-TurnEnds}
use codex_a2a.Executor.Deltas.{pieces_of}
use codex_a2a.Executor.Turn.{consume, consume_turn}
use codex_a2a.Executor.Execute.{cleanup, task_result}
use codex_a2a.Executor.Events.{canceled}
use codex_a2a.Executor.Streaming.{
  Piece, messages, end_message, pairs, Answers, consume_turn-Answers,
}
use codex_a2a.Executor.Races.{consume_turn-races}
use codex_a2a.Broker.Invariant.{client_of}
use codex_a2a.Executor.Safety.Others.{idle, moves, Interleaves, consume-ne_panic}
use codex_a2a.Broker.Invariant.Reach.{finishes}
use codex_a2a.Tests.Brokers.{one_task_reached}
use codex_a2a.Executor.Safety.Execute.{execute_stream-ne_panic}
use codex_a2a.Executor.Safety.Messages.{IsTotal}
use codex_a2a.Broker.Sessions.{new_broker}
use codex_a2a.Broker.Tasks.{close, register}
use codex_a2a.Broker.Invariant.Reach.{Reach}
use codex_a2a.Base.Maps.{lookup, insert, remove}
use codex_a2a.Tests.Samples.{config, empty, one_task}

abbrev not_read : {A : Type 0} → RawMessage → Result Error A
not_read raw = err (errorf "invalid JSON")

-- A decoder that reads the message as the one string that matters.
abbrev codec : Codec
codec = record {
  format_time = λ t. "now";
  state_text = λ s. "TASK_STATE_COMPLETED";
  marshal_indent = λ v. ok "{}";
  unmarshal_turn_start = λ s. ok (record { id = s; status = "inProgress"; error = none });
  unmarshal_turn_completed =
      λ s. ok (record { thread_id = ""; turn = record { id = "u"; status = s; error = none } });
  unmarshal_diff = not_read;
  unmarshal_plan = not_read;
  unmarshal_delta = λ s. ok (record { thread_id = ""; turn_id = ""; item_id = "i"; delta = s });
  unmarshal_item = not_read;
  unmarshal_command_approval = not_read;
  unmarshal_file_approval = not_read;
  unmarshal_elicitation = not_read;
}

abbrev pub says : String → Message
says s = record {
  parts =
      some (record {
        content = text s;
        part_text = s;
        part_data = null;
        part_url = "";
        media_type = "";
      })
      ∷ [];
  reference_tasks = [];
}

abbrev info : TaskInfo
info = record { task_id = "t1"; context_id = "c" }

abbrev first_request : ExecutorContext
first_request = record { info = info; message = says "hello"; stored = none }

abbrev incoming : String → String → Incoming
incoming m p = record {
  time = 5;
  others = λ b. b;
  message = record { id = ""; method = m; params = p };
}

-- A new thread and turn, a piece of the answer and the end of the turn.
abbrev world : World
world = record {
  broker = empty;
  order = λ m. m;
  opening = record { launched = ok 7; reply = ok "thread"; unmarshal_thread = λ s. ok s };
  incoming = incoming "item/agentMessage/delta" "Hi" ∷ incoming "turn/completed" "completed" ∷ [];
  replies = ok "u" ∷ [];
  writes = [];
  ended = errorf "context canceled";
  meanwhile = λ b. b;
  accepts = 9;
  yields = [];
  now = 1;
}

execute_stream-Leaves_example :
    Leaves codec first_request world (execute_stream codec first_request world)
execute_stream-Leaves_example =
    execute_stream-Leaves codec first_request world
      (record { incoming = λ r. ((λ b h. h), ((λ b h. h), tt)); meanwhile = λ r b h. h })

fresh : new_broker config ≡ ok empty
unfolding new_broker validate validate_approval_policy normalize_sandbox
fresh = refl

codec-IsTotal : IsTotal codec
codec-IsTotal = record {
  marshal_indent = λ v. tt;
  turn_start = λ raw. tt;
  turn_completed = λ raw. tt;
  diff = λ raw. tt;
  plan = λ raw. tt;
  delta = λ raw. tt;
  item = λ raw. tt;
  command_approval = λ raw. tt;
  file_approval = λ raw. tt;
  elicitation = λ raw. tt;
}

execute_stream-ne_panic_example : ¬ ((execute_stream codec first_request world).0 ≡ panic)
execute_stream-ne_panic_example =
    execute_stream-ne_panic codec first_request config empty world fresh Reach.here codec-IsTotal
      (record {
        opening = record { launched = tt; reply = tt; unmarshal_thread = λ raw. tt };
        spared = λ r. ((λ b h. h), ((λ b h. h), tt));
        undisturbed = λ r b h. h;
        replies = (tt, tt);
        writes = tt;
      })

-- The same world while the task's turn is at work.
abbrev busy : World
busy = record world { broker = one_task }

one_active : lookup "t1" one_task.tasks ≡ some 0
unfolding one_task register lookup insert remove
one_active = refl

consume_turn-races_example :
    ((consume_turn codec info 0 busy.incoming
        (record busy { broker = cleanup "t1" false false (task_result canceled) one_task })).0
      ≡ panic)
    × ((consume_turn codec info 0 busy.incoming (record busy { broker = close one_task })).0
        ≡ panic)
consume_turn-races_example = consume_turn-races codec info 0 busy.incoming busy one_active

complete_turn-TurnEnds_example :
    TurnEnds codec info 0 one_task 0
      (record { id = "u"; status = "failed"; error = none })
      (complete_turn codec info 0 one_task 0 (record { id = "u"; status = "failed"; error = none }))
complete_turn-TurnEnds_example =
    complete_turn-TurnEnds codec info 0 one_task 0
      (record { id = "u"; status = "failed"; error = none })

one_client : client_of one_task 0 ≡ some 7
unfolding one_task register new_task_runtime
one_client = refl

-- While the first message is waited for, another task of the broker is finished.
abbrev shared : World
shared = record busy {
  incoming =
      record {
        time = 5;
        others = λ b. finish_task_with_policy b "t2" true;
        message = record { id = ""; method = "item/agentMessage/delta"; params = "Hi" };
      }
      ∷ incoming "turn/completed" "completed"
      ∷ [];
}

shared-Interleaves : Interleaves config empty fresh "t1" 0 shared.incoming
shared-Interleaves = (
  (λ b active. moves idle (finishes "t2" true) λ e. ground (arith, ==_iff "t2" "t1", e)),
  ((λ b active. idle), tt),
)

consume-ne_panic_example : ¬ ((consume codec info 0 shared).0 ≡ panic)
consume-ne_panic_example =
    consume-ne_panic config empty fresh codec info 0 shared codec-IsTotal one_task_reached
      one_active shared-Interleaves (tt, tt) tt

abbrev piece : String → Piece
piece s = record {
  time = 5;
  raw = s;
  note = record { thread_id = ""; turn_id = ""; item_id = "i"; delta = s };
}

abbrev end_note : TurnCompletedNotification
end_note = record { thread_id = ""; turn = record { id = "u"; status = "completed"; error = none } }

consume_turn-Answers_example :
    (v : World) × (consume_turn codec info 0
        (messages codec info 0
          (piece "Hel" ∷ piece "lo" ∷ [])
          (end_message codec info 0 6 "completed" ∷ []))
        busy
      ≡ (ok tt, v))
    × Answers codec info 0 "i"
        (assistant_text "i" (one_task.runtime 0)
          ++ pieces_of "i" (pairs codec info 0 (piece "Hel" ∷ piece "lo" ∷ [])))
        v
consume_turn-Answers_example =
    consume_turn-Answers codec info 0 (piece "Hel" ∷ []) (piece "lo") 6 "completed" end_note [] 6 7
      busy ((refl, refl), ((refl, refl), tt)) refl refl refl one_client refl
