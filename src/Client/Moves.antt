-- ===== src/Client/Moves.antt =====
-- internal/service/codex_client.go: the goroutines, a shared access at a time.
pub use codex_a2a.Client.Threads.{
  Cause, Pc, after_line, error_result, send_on_closed_events, close_of_closed_events,
  close_of_closed_done, send_on_closed_done, send_on_closed_answer, close_of_closed_answer, reading,
  delivering, answering, holding, closing, awaiting, exited, unexpected, ending, won, drained,
  hung_up, reported, logging, idle, numbered, registered, checked, waiting, abandoning, returned,
  failed, sending, alive, sent, expecting, received, stopped, panicked,
}
unfoldable pub use codex_a2a.Client.Threads.{response_result}
use mathlib.Core.List.{◌++◌ as append}
use codex_a2a.Base.{
  ℕ, ◌<◌, String, ◌≡◌, true, false, Option, none, some, List, [], ◌∷◌, Error, errorf, wrap, Result,
  ok, err, length,
}
use codex_a2a.Base.Maps.{lookup, update}
use codex_a2a.Value.{Value}
use codex_a2a.Wire.{IncomingMessage}
use codex_a2a.Client.Lines.{Envelope, Response, read_line, append_stderr, exit_error}
use codex_a2a.Client.State.{
  Chan, Payload, call, Client, events_capacity, add_int64, id_key, register_call, forget_call,
  take_pending, put, close_chan, done_with, panics, answer_all, closed_response,
}

-- `readLoop`, `waitLoop` and `stderrLoop` are goroutines 0, 1 and 2; any other one calls methods.
pub record System : Type 0 where
  pub client : Client
  pub pc : ℕ → Pc

module _ (unmarshal : String → Result Error Envelope) where
  -- One step of goroutine `i`. Where a select has several cases that are ready, any may follow; the
  -- lines, exit states, write errors and cancellations are whatever the outside makes them. A caller
  -- stops after one call, except of `next`: there are always others that are idle. A closed `done`
  -- gives a nil error, which comes with a nil result in `request` (`hear_over`).
  pub data Move (i : ℕ) (c : Client) : Pc → Client → Pc → Type 0 where
    take_line : (text : String) → Move i c reading c (after_line (read_line unmarshal text))
    read_eof : Move i c reading c stopped
    read_fails : (e : Error) → Move i c reading c (ending (wrap "read codex stream" e))
    deliver :
        {m : IncomingMessage}
        → c.events_shut ≡ false
        → length c.events < events_capacity
        → Move i c
            (delivering m)
            (record c {
              events = append c.events (m ∷ []);
              sent_events = append c.sent_events (m ∷ []);
            })
            reading
    deliver_shut :
        {m : IncomingMessage}
        → c.events_shut ≡ true
        → Move i c (delivering m) c (panicked send_on_closed_events)
    deliver_ended :
        {m : IncomingMessage} {e : Error}
        → c.done ≡ some e
        → Move i c (delivering m) (record c { done = none }) stopped
    deliver_over :
        {m : IncomingMessage}
        → c.done ≡ none
        → c.done_shut ≡ true
        → Move i c (delivering m) c stopped
    answer_unknown :
        {key : String} {resp : Response}
        → lookup key c.pending ≡ none
        → Move i c (answering key resp) c reading
    answer_known :
        {key : String} {resp : Response} {ch : ℕ}
        → lookup key c.pending ≡ some ch
        → Move i c (answering key resp) (take_pending i key resp ch c) (holding ch resp)
    answer :
        {resp : Response} {ch : ℕ}
        → (c.chan ch).shut ≡ false
        → (c.chan ch).content ≡ none
        → Move i c
            (holding ch resp)
            (record c { chan = update c.chan ch (put resp (c.chan ch)) })
            (closing ch)
    answer_shut :
        {resp : Response} {ch : ℕ}
        → (c.chan ch).shut ≡ true
        → Move i c (holding ch resp) c (panicked send_on_closed_answer)
    close_answer :
        {ch : ℕ}
        → (c.chan ch).shut ≡ false
        → Move i c
            (closing ch)
            (record c { chan = update c.chan ch (close_chan (c.chan ch)) })
            reading
    close_answer_again :
        {ch : ℕ}
        → (c.chan ch).shut ≡ true
        → Move i c (closing ch) c (panicked close_of_closed_answer)
    wait : (exit : Option Error) → Move i c awaiting c (exited exit)
    exit_known : {exit : Option Error} → c.closed ≡ true → Move i c (exited exit) c stopped
    exit_new : {exit : Option Error} → c.closed ≡ false → Move i c (exited exit) c (unexpected exit)
    explain :
        {exit : Option Error}
        → Move i c (unexpected exit) c (ending (exit_error exit c.stderr_tail))
    win :
        {e : Error}
        → c.closed ≡ false
        → Move i c (ending e) (record c { closed = true; finisher = some i }) (won e)
    lose : {e : Error} → c.closed ≡ true → Move i c (ending e) c stopped
    drain :
        {e : Error} {heap : ℕ → Chan}
        → answer_all (closed_response e) c.pending c.chan ≡ done_with heap
        → Move i c (won e) (record c { pending = []; chan = heap }) (drained e)
    drain_shut :
        {e : Error}
        → answer_all (closed_response e) c.pending c.chan ≡ panics
        → Move i c (won e) c (panicked send_on_closed_answer)
    hang_up :
        {e : Error}
        → c.events_shut ≡ false
        → Move i c (drained e) (record c { events_shut = true }) (hung_up e)
    hang_up_again :
        {e : Error}
        → c.events_shut ≡ true
        → Move i c (drained e) c (panicked close_of_closed_events)
    report :
        {e : Error}
        → c.done_shut ≡ false
        → c.done ≡ none
        → Move i c (hung_up e) (record c { done = some e }) reported
    report_shut :
        {e : Error} → c.done_shut ≡ true → Move i c (hung_up e) c (panicked send_on_closed_done)
    finish : c.done_shut ≡ false → Move i c reported (record c { done_shut = true }) stopped
    finish_again : c.done_shut ≡ true → Move i c reported c (panicked close_of_closed_done)
    log :
        (line : String)
        → Move i c logging (record c { stderr_tail = append_stderr line c.stderr_tail }) logging
    log_ends : Move i c logging c stopped
    close : Move i c idle (record c { killed = true }) stopped
    number :
        (method : String) (params : Option Value)
        → Move i c idle
            (record c { next_id = add_int64 c.next_id })
            (numbered (add_int64 c.next_id) method params)
    register :
        {id : ℕ} {method : String} {params : Option Value}
        → Move i c
            (numbered id method params)
            (register_call i (id_key id) c)
            (registered id (id_key id) c.next_chan method params)
    check :
        {id ch : ℕ} {key method : String} {params : Option Value}
        → c.closed ≡ false
        → Move i c (registered id key ch method params) c (checked id key ch method params)
    check_closed :
        {id ch : ℕ} {key method : String} {params : Option Value}
        → c.closed ≡ true
        → Move i c
            (registered id key ch method params)
            c
            (abandoning key (errorf "codex app-server is not running"))
    write :
        {id ch : ℕ} {key method : String} {params : Option Value}
        → Move i c
            (checked id key ch method params)
            (record c { written = call id method params ∷ c.written })
            (waiting key ch method)
    write_fails :
        {id ch : ℕ} {key method : String} {params : Option Value} (e : Error)
        → Move i c (checked id key ch method params) c (abandoning key e)
    abandon :
        {key : String} {e : Error} → Move i c (abandoning key e) (forget_call key c) (failed e)
    hear :
        {key method : String} {ch : ℕ} {resp : Response}
        → (c.chan ch).content ≡ some resp
        → Move i c
            (waiting key ch method)
            (record c {
              chan = update c.chan ch (record (c.chan ch) { content = none; received = true });
            })
            (returned key ch method (response_result method resp))
    hear_nothing :
        {key method : String} {ch : ℕ}
        → (c.chan ch).content ≡ none
        → (c.chan ch).shut ≡ true
        → Move i c (waiting key ch method) c (returned key ch method (ok ""))
    hear_end :
        {key method : String} {ch : ℕ} {e : Error}
        → c.done ≡ some e
        → Move i c
            (waiting key ch method)
            (record c { done = none })
            (returned key ch method (err e))
    hear_over :
        {key method : String} {ch : ℕ}
        → c.done ≡ none
        → c.done_shut ≡ true
        → Move i c (waiting key ch method) c (returned key ch method (ok ""))
    cancel :
        {key method : String} {ch : ℕ} (e : Error)
        → Move i c (waiting key ch method) c (returned key ch method (err e))
    send : (p : Payload) → Move i c idle c (sending p)
    send_closed :
        {p : Payload}
        → c.closed ≡ true
        → Move i c (sending p) c (sent (err (errorf "codex app-server is not running")))
    send_alive : {p : Payload} → c.closed ≡ false → Move i c (sending p) c (alive p)
    write_payload :
        {p : Payload} → Move i c (alive p) (record c { written = p ∷ c.written }) (sent (ok tt))
    payload_fails : {p : Payload} (e : Error) → Move i c (alive p) c (sent (err e))
    expect : Move i c idle c expecting
    take_event :
        {m : IncomingMessage} {rest : List IncomingMessage}
        → c.events ≡ m ∷ rest
        → Move i c expecting
            (record c { events = rest; received_events = append c.received_events (m ∷ []) })
            (received (ok m))
    event_end :
        {e : Error}
        → c.done ≡ some e
        → Move i c expecting (record c { done = none }) (received (err e))
    event_over :
        c.done ≡ none
        → c.done_shut ≡ true
        → Move i c expecting c (received (err (errorf "codex app-server closed")))
    no_events :
        c.events ≡ []
        → c.events_shut ≡ true
        → c.done ≡ none
        → Move i c expecting c (received (err (errorf "codex app-server closed")))
    cancel_next : (e : Error) → Move i c expecting c (received (err e))
    again : {r : Result Error IncomingMessage} → Move i c (received r) c idle

  pub data Step (s : System) : System → Type 0 where
    pick :
        (i : ℕ) {p p' : Pc} {c : Client}
        → s.pc i ≡ p
        → Move i s.client p c p'
        → Step s (record { client = c; pc = update s.pc i p' })
