-- ===== src/Client/Invariant/Own.antt =====
-- A move of a goroutine leads it to where its own part of the invariant holds.
use codex_a2a.Base.{
  ℕ, Error, eqb_refl, String, ◌≡◌, refl, sym, ap, subst, inl, inr, Option, none, some, Result,
  arith,
}
use codex_a2a.Base.Maps.{lookup, update}
use codex_a2a.Client.Lines.{
  Envelope, Response, Line, skipped, broken, notified, answered, read_line,
}
use codex_a2a.Client.State.{
  Client, take_pending, register_call, answer_all, closed_response, id_key, panics, put,
}
use codex_a2a.Client.Pending.{lookup-Found, answer_all-IsPending}
use codex_a2a.Client.Moves.{
  Move, send_on_closed_answer, send_on_closed_events, after_line, response_result, error_result, Pc,
  holding, closing, take_line, read_eof, read_fails, deliver, deliver_shut, deliver_ended,
  deliver_over, answer_unknown, answer_known, answer, answer_shut, close_answer, close_answer_again,
  wait, exit_known, exit_new, explain, win, lose, drain, drain_shut, hang_up, hang_up_again, report,
  report_shut, finish, finish_again, log, log_ends, close, number, register, check, check_closed,
  write, write_fails, abandon, hear, hear_nothing, hear_end, hear_over, cancel, send, send_closed,
  send_alive, write_payload, payload_fails, expect, take_event, event_end, event_over, no_events,
  cancel_next, again,
}
use codex_a2a.Client.Invariant.Defs.{IsRead, Origin, IsShared, IsLocal, IsResult, Waits}

line-IsLocal : (i : ℕ) (c : Client) (l : Line) → IsLocal i c (after_line l)
line-IsLocal i c skipped = tt
line-IsLocal i c (broken e) = tt
line-IsLocal i c (notified m) = tt
line-IsLocal i c (answered key resp) = tt

known :
    (i : ℕ) (key : String) (resp : Response) (ch : ℕ) (c : Client)
    → IsShared c
    → lookup key c.pending ≡ some ch
    → IsLocal i (take_pending i key resp ch c) (holding ch resp)
unfolding take_pending
known i key resp ch c s found =
    let f = lookup-Found c.chan c.next_chan key ch c.pending s.pendings found in
    let fresh = f.fresh in
    rw (eqb_refl ch) ((refl, fresh.open_, f.used), fresh.empty, inl (inl (sym f.named, refl)))

answered-WasSent :
    (i ch : ℕ) (resp : Response) (c : Client)
    → IsLocal i c (holding ch resp)
    → IsLocal i (record c { chan = update c.chan ch (put resp (c.chan ch)) }) (closing ch)
answered-WasSent i ch resp c ((mine, open_, used), empty, from) =
    rw (eqb_refl ch) ((mine, open_, used), inl (resp, refl))

fresh-Waits : (i : ℕ) (key : String) (c : Client) → Waits i (register_call i key c) key c.next_chan
unfolding register_call
fresh-Waits i key c = rw (eqb_refl c.next_chan) (refl, refl, omega arith, refl)

drain_never :
    (e : Error) (c : Client)
    → IsShared c
    → answer_all (closed_response e) c.pending c.chan ≡ panics
    → send_on_closed_answer ≡ send_on_closed_events
drain_never e c s h =
    let (heap, ends, all) =
      answer_all-IsPending (closed_response e) c.next_chan c.pending c.chan s.pendings in
    ground (arith, h, ends)

abbrev with_error : Response → Option String → Response
with_error resp error = record { result = resp.result; error = error }

error_result-IsResult :
    (c : Client) (key method : String) (resp : Response) (error : Option String)
    → resp.error ≡ error
    → Origin key resp c.answers
    → IsResult c key (error_result method resp error)
error_result-IsResult c key method resp (some m) e from = tt
error_result-IsResult c key method resp none e (inl read) =
    inl (subst (λ r. IsRead key r c.answers) (ap (with_error resp) e) read)
error_result-IsResult c key method resp none e (inr (m, q)) = ground (arith, e, q)

response_result-IsResult :
    (c : Client) (key method : String) (resp : Response)
    → Origin key resp c.answers
    → IsResult c key (response_result method resp)
unfolding response_result
response_result-IsResult c key method resp from =
    error_result-IsResult c key method resp resp.error refl from

module _ (unmarshal : String → Result Error Envelope) {i : ℕ} {c : Client} where
  pub Move-IsLocal :
      {p p' : Pc} {c' : Client}
      → IsShared c
      → Move unmarshal i c p c' p'
      → IsLocal i c p
      → IsLocal i c' p'
  Move-IsLocal s (take_line text) h = line-IsLocal i c (read_line unmarshal text)
  Move-IsLocal s read_eof h = tt
  Move-IsLocal s (read_fails e) h = tt
  Move-IsLocal s (deliver g0 g1) h = tt
  Move-IsLocal s (deliver_shut g0) h = refl
  Move-IsLocal s (deliver_ended g0) h = tt
  Move-IsLocal s (deliver_over g0 g1) h = tt
  Move-IsLocal s (answer_unknown g0) h = tt
  Move-IsLocal s (answer_known {key} {resp} {ch} g0) h = known i key resp ch c s g0
  Move-IsLocal s (answer {resp} {ch} g0 g1) h = answered-WasSent i ch resp c h
  Move-IsLocal s (answer_shut g0) h = ground (arith, g0, h)
  Move-IsLocal s (close_answer g0) h = tt
  Move-IsLocal s (close_answer_again g0) h = ground (arith, g0, h)
  Move-IsLocal s (wait exit) h = tt
  Move-IsLocal s (exit_known g0) h = tt
  Move-IsLocal s (exit_new g0) h = tt
  Move-IsLocal s explain h = tt
  Move-IsLocal s (win g0) h = ground (arith, s.alive_ g0)
  Move-IsLocal s (lose g0) h = tt
  Move-IsLocal s (drain g0) h = h
  Move-IsLocal s (drain_shut {e} g0) h = drain_never e c s g0
  Move-IsLocal s (hang_up g0) h = ground (arith, h)
  Move-IsLocal s (hang_up_again g0) h = ground (arith, g0, h)
  Move-IsLocal s (report g0 g1) h = ground (arith, h)
  Move-IsLocal s (report_shut g0) h = ground (arith, g0, h)
  Move-IsLocal s (finish g0) h = tt
  Move-IsLocal s (finish_again g0) h = ground (arith, g0, h)
  Move-IsLocal s (log line) h = tt
  Move-IsLocal s log_ends h = tt
  Move-IsLocal s close h = tt
  Move-IsLocal s (number method params) h = tt
  Move-IsLocal s (register {id} {method} {params}) h = fresh-Waits i (id_key id) c
  Move-IsLocal s (check g0) h = h
  Move-IsLocal s (check_closed g0) h = tt
  Move-IsLocal s write h = h
  Move-IsLocal s (write_fails e) h = tt
  Move-IsLocal s abandon h = tt
  Move-IsLocal s (hear {key} {method} {ch} {resp} g0) h =
      response_result-IsResult c key method resp (rw h.1 at (s.contents ch resp g0))
  Move-IsLocal s (hear_nothing {ch} g0 g1) h = ground (arith, g0, h, s.shuts ch g1)
  Move-IsLocal s (hear_end g0) h = tt
  Move-IsLocal s (hear_over g0 g1) h = inr (refl, g1)
  Move-IsLocal s (cancel e) h = tt
  Move-IsLocal s (send p) h = tt
  Move-IsLocal s (send_closed g0) h = tt
  Move-IsLocal s (send_alive g0) h = tt
  Move-IsLocal s write_payload h = tt
  Move-IsLocal s (payload_fails e) h = tt
  Move-IsLocal s expect h = tt
  Move-IsLocal s (take_event g0) h = tt
  Move-IsLocal s (event_end g0) h = tt
  Move-IsLocal s (event_over g0 g1) h = tt
  Move-IsLocal s (no_events g0 g1 g2) h = tt
  Move-IsLocal s (cancel_next e) h = tt
  Move-IsLocal s again h = tt
