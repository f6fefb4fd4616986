-- ===== src/Tests/Clients.antt =====
-- The client of an app-server process in concrete runs.
use codex_a2a.Base.{
  ℕ, ◌≤◌, ◌-◌, drop, String, true, none, some, ◌≡◌, ◌⊎◌, refl, [], ◌∷◌, Error, Result, ok, ◌==◌,
  if◌then◌else◌, length,
}
use codex_a2a.Base.Maps.{lookup, insert, remove, update}
use codex_a2a.Base.Text.{trim_space, decimal}
use codex_a2a.Wire.{IncomingMessage}
use codex_a2a.Client.Lines.{Envelope, Response, read_line, exit_error}
use codex_a2a.Client.State.{Client, id_key, register_call, take_pending, put, close_chan, call}
use codex_a2a.Client.Moves.{
  send_on_closed_events, Pc, reading, delivering, answering, holding, closing, exited, unexpected,
  ending, won, numbered, registered, checked, waiting, returned, expecting, panicked, System, pick,
  take_line, wait, exit_new, explain, win, number, register, check, write, expect, answer_known,
  answer, close_answer, hear, response_result,
}
use codex_a2a.Client.Invariant.Defs.{IsRead}
use codex_a2a.Client.Invariant.Reach.{Reach, Run, followed, here, on, start, new_client}
use codex_a2a.Client.Promises.{only_events_panic, request_result}
use codex_a2a.Client.Ending.{Ended, finish_ends}
use codex_a2a.Client.Races.{delivery_can_panic, request_can_lose_error}
use codex_a2a.Client.Logs.{append_lines, trimmed_lines, append_lines_lem}

-- The line "r" answers request 1; any other is a notification.
abbrev unmarshal : String → Result Error Envelope
unmarshal text = ok (
    if text == "r"
    then record { id = "1"; method = ""; params = ""; result = "r"; error = none }
    else record { id = ""; method = text; params = ""; result = ""; error = none })

abbrev at : System → ℕ → Client → Pc → System
at s i c p = record { client = c; pc = update s.pc i p }

-- A request is written.
abbrev s1 : System
s1 = at start 3 (record new_client { next_id = 1 }) (numbered 1 "thread/start" none)

abbrev s2 : System
s2 = at s1 3 (register_call 3 (id_key 1) s1.client) (registered 1 (id_key 1) 0 "thread/start" none)

abbrev s3 : System
s3 = at s2 3 s2.client (checked 1 (id_key 1) 0 "thread/start" none)

abbrev asked : System
asked =
    at s3 3 (record s3.client { written = call 1 "thread/start" none ∷ [] })
      (waiting (id_key 1) 0 "thread/start")

asked-Reach : Reach unmarshal asked
unfolding register_call
asked-Reach =
    on
      (on (on (on here (pick 3 refl (number "thread/start" none))) (pick 3 refl register))
        (pick 3 refl (check refl)))
      (pick 3 refl write)

-- The reader holds a notification and goroutine 4 waits in `next` when the process ends.
abbrev m : IncomingMessage
m = record { id = ""; method = "turn"; params = "" }

abbrev s4 : System
s4 = at (at asked 0 asked.client (delivering m)) 4 asked.client expecting

abbrev racing : System
racing =
    at
      (at (at (at s4 1 s4.client (exited none)) 1 s4.client (unexpected none)) 1 s4.client
        (ending (exit_error none [])))
      1 (record s4.client { closed = true; finisher = some 1 }) (won (exit_error none []))

racing-Reach : Reach unmarshal racing
unfolding register_call read_line trim_space
racing-Reach =
    let read = on asked-Reach (pick 0 refl (take_line "turn")) in
    let expects = on read (pick 4 refl expect) in
    let waits = on (on expects (pick 1 refl (wait none))) (pick 1 refl (exit_new refl)) in
    on (on waits (pick 1 refl explain)) (pick 1 refl (win refl))

-- The process answers the request.
abbrev resp : Response
resp = record { result = "r"; error = none }

abbrev s5 : System
s5 = at asked 0 asked.client (answering "1" resp)

abbrev s6 : System
s6 = at s5 0 (take_pending 0 "1" resp 0 s5.client) (holding 0 resp)

abbrev s7 : System
s7 =
    at s6 0 (record s6.client { chan = update s6.client.chan 0 (put resp (s6.client.chan 0)) })
      (closing 0)

abbrev s8 : System
s8 =
    at s7 0 (record s7.client { chan = update s7.client.chan 0 (close_chan (s7.client.chan 0)) })
      reading

abbrev answered : System
answered =
    at s8 3
      (record s8.client {
        chan =
            update s8.client.chan 0 (record (s8.client.chan 0) { content = none; received = true });
      })
      (returned (id_key 1) 0 "thread/start" (ok "r"))

answered-Reach : Reach unmarshal answered
unfolding register_call read_line take_pending lookup insert remove response_result id_key decimal
    trim_space
answered-Reach =
    let known =
      on (on asked-Reach (pick 0 refl (take_line "r"))) (pick 0 refl (answer_known refl)) in
    let closed = on (on known (pick 0 refl (answer refl refl))) (pick 0 refl (close_answer refl)) in
    on closed (pick 3 refl (hear refl))

request_result_example :
    IsRead (id_key 1) resp answered.client.answers
    ⊎ ((resp.result ≡ "") × (answered.client.done_shut ≡ true))
request_result_example =
    request_result unmarshal answered-Reach 3 (id_key 1) 0 "thread/start" "r" refl

crashed : (s' : System) × Run unmarshal racing s' × (s'.pc 0 ≡ panicked send_on_closed_events)
crashed = delivery_can_panic unmarshal 1 (exit_error none []) racing-Reach refl 0 m refl

only_events_panic_example : send_on_closed_events ≡ send_on_closed_events
only_events_panic_example =
    only_events_panic unmarshal (followed unmarshal racing-Reach crashed.1) 0 send_on_closed_events
      crashed.2

finish_ends_example :
    (s' : System) × Run unmarshal racing s' × Ended 1 (exit_error none []) racing s'
finish_ends_example = finish_ends unmarshal 1 (exit_error none []) racing-Reach refl

delivery_can_panic_example :
    (s' : System) × Run unmarshal racing s' × (s'.pc 0 ≡ panicked send_on_closed_events)
delivery_can_panic_example =
    delivery_can_panic unmarshal 1 (exit_error none []) racing-Reach refl 0 m refl

request_can_lose_error_example :
    (s' : System) × Run unmarshal racing s'
    × (s'.pc 3 ≡ returned (id_key 1) 0 "thread/start" (ok ""))
request_can_lose_error_example =
    request_can_lose_error unmarshal 1 (exit_error none []) racing-Reach refl 3 4 (id_key 1) 0
      "thread/start" refl refl

append_lines_lem_example :
    (append_lines (" a" ∷ "" ∷ "b" ∷ []) []
      ≡ drop
          (length (trimmed_lines (" a" ∷ "" ∷ "b" ∷ [])) - 20)
          (trimmed_lines (" a" ∷ "" ∷ "b" ∷ [])))
    × (length (append_lines (" a" ∷ "" ∷ "b" ∷ []) []) ≤ 20)
append_lines_lem_example = append_lines_lem (" a" ∷ "" ∷ "b" ∷ [])
