-- ===== src/Client/Threads.antt =====
-- internal/service/codex_client.go: where a goroutine can stand.
use Prim.Native.String.{◌++◌}
use codex_a2a.Base.{ℕ, String, Option, none, some, Error, errorf, Result, ok, err}
use codex_a2a.Value.{Value}
use codex_a2a.Wire.{RawMessage, IncomingMessage}
use codex_a2a.Client.Lines.{Response, Line, skipped, broken, notified, answered}
use codex_a2a.Client.State.{Payload}

-- What the program can be ended by.
pub data Cause : Type 0 where
  send_on_closed_events close_of_closed_events close_of_closed_done : Cause
  send_on_closed_done send_on_closed_answer close_of_closed_answer : Cause

-- Where a goroutine stands, with the local variables that are live there.
pub data Pc : Type 0 where
  -- `readLoop`: before a read, the select on `events`, the lookup in `pending`, the send and the
  -- close of an answer
  reading : Pc
  delivering : IncomingMessage → Pc
  answering : String → Response → Pc
  holding : ℕ → Response → Pc
  closing : ℕ → Pc
  -- `waitLoop`: before and after `cmd.Wait`, before `stderrSummary`
  awaiting : Pc
  exited : Option Error → Pc
  unexpected : Option Error → Pc
  -- `finish`: before the compare-and-swap, the loop over `pending`, the close of `events`, the send
  -- on `done` and the close of `done`
  ending won drained hung_up : Error → Pc
  reported : Pc
  -- `stderrLoop`
  logging : Pc
  -- `request`: with an id; registered; alive; written; given up
  idle : Pc
  numbered : ℕ → String → Option Value → Pc
  registered checked : ℕ → (key : String) → (ch : ℕ) → String → Option Value → Pc
  waiting : (key : String) → (ch : ℕ) → String → Pc
  abandoning : String → Error → Pc
  returned : (key : String) → (ch : ℕ) → (method : String) → Result Error RawMessage → Pc
  failed : Error → Pc
  -- `notify` and `respond`
  sending alive : Payload → Pc
  sent : Result Error Unit → Pc
  -- `next`
  expecting : Pc
  received : Result Error IncomingMessage → Pc
  stopped : Pc
  panicked : Cause → Pc

abbrev pub after_line : Line → Pc
after_line skipped = Pc.reading
after_line (broken e) = ending e
after_line (notified m) = delivering m
after_line (answered key resp) = answering key resp

abbrev pub error_result : String → Response → Option String → Result Error RawMessage
error_result method resp none = ok resp.result
error_result method resp (some message) = err (errorf ("codex " ++ (method ++ (": " ++ message))))

-- `request` on a response.
unfoldable pub response_result : String → Response → Result Error RawMessage
response_result method resp = error_result method resp resp.error
