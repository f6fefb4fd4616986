-- ===== src/Client/Invariant/Shared.antt =====
-- Every move keeps what holds of the shared state of a client.
use mathlib.Core.List.{◌++◌ as append, append_assoc}
use codex_a2a.Base.{
  ℕ, Error, String, refl, sym, ap, ◌∙◌, [], ◌∷◌, Result, arith, length, length-append,
}
use codex_a2a.Client.Lines.{Envelope}
use codex_a2a.Client.State.{Client, id_key, forget_call}
use codex_a2a.Client.Pending.{remove-IsPending}
use codex_a2a.Client.Moves.{
  Move, Pc, take_line, read_eof, read_fails, deliver, deliver_shut, deliver_ended, deliver_over,
  answer_unknown, answer_known, answer, answer_shut, close_answer, close_answer_again, wait,
  exit_known, exit_new, explain, win, lose, drain, drain_shut, hang_up, hang_up_again, report,
  report_shut, finish, finish_again, log, log_ends, close, number, register, check, check_closed,
  write, write_fails, abandon, hear, hear_nothing, hear_end, hear_over, cancel, send, send_closed,
  send_alive, write_payload, payload_fails, expect, take_event, event_end, event_over, no_events,
  cancel_next, again,
}
use codex_a2a.Client.Invariant.Defs.{IsShared, IsLocal}
use codex_a2a.Client.Invariant.Channels.{
  calm-IsShared, known-IsShared, answer-IsShared, close-IsShared, hear-IsShared, register-IsShared,
  drain-IsShared,
}

module _ (unmarshal : String → Result Error Envelope) {i : ℕ} {c : Client} where
  pub Move-IsShared :
      {p p' : Pc} {c' : Client}
      → IsShared c
      → Move unmarshal i c p c' p'
      → IsLocal i c p
      → IsShared c'
  unfolding forget_call
  Move-IsShared s (take_line text) h = s
  Move-IsShared s read_eof h = s
  Move-IsShared s (read_fails e) h = s
  Move-IsShared s (deliver {m} g0 g1) h =
      calm-IsShared s refl refl refl refl
        (sym (append_assoc c.received_events c.events (m ∷ []))
          ∙ ap (λ xs. append xs (m ∷ [])) s.in_order)
        (ground (arith, g1, length-append c.events (m ∷ []))) s.alive_
  Move-IsShared s (deliver_shut g0) h = s
  Move-IsShared s (deliver_ended g0) h =
      calm-IsShared s refl refl refl refl s.in_order s.bounded
        (λ o. let a = s.alive_ o in (a.0, a.1, refl, a.3))
  Move-IsShared s (deliver_over g0 g1) h = s
  Move-IsShared s (answer_unknown g0) h = s
  Move-IsShared s (answer_known {key} {resp} {ch} g0) h = known-IsShared i key resp ch c s g0
  Move-IsShared s (answer {resp} {ch} g0 g1) h = answer-IsShared i ch resp c s h
  Move-IsShared s (answer_shut g0) h = s
  Move-IsShared s (close_answer {ch} g0) h = close-IsShared i ch c s h
  Move-IsShared s (close_answer_again g0) h = s
  Move-IsShared s (wait exit) h = s
  Move-IsShared s (exit_known g0) h = s
  Move-IsShared s (exit_new g0) h = s
  Move-IsShared s explain h = s
  Move-IsShared s (win g0) h =
      calm-IsShared s refl refl refl refl s.in_order s.bounded (λ o. ground (arith, o))
  Move-IsShared s (lose g0) h = s
  Move-IsShared s (drain {e} {heap} g0) h = drain-IsShared e heap c s g0
  Move-IsShared s (drain_shut g0) h = s
  Move-IsShared s (hang_up g0) h =
      calm-IsShared s refl refl refl refl s.in_order s.bounded (λ o. ground (arith, o, h))
  Move-IsShared s (hang_up_again g0) h = s
  Move-IsShared s (report g0 g1) h =
      calm-IsShared s refl refl refl refl s.in_order s.bounded (λ o. ground (arith, o, h))
  Move-IsShared s (report_shut g0) h = s
  Move-IsShared s (finish g0) h =
      calm-IsShared s refl refl refl refl s.in_order s.bounded (λ o. ground (arith, o, h))
  Move-IsShared s (finish_again g0) h = s
  Move-IsShared s (log line) h = calm-IsShared s refl refl refl refl s.in_order s.bounded s.alive_
  Move-IsShared s log_ends h = s
  Move-IsShared s close h = calm-IsShared s refl refl refl refl s.in_order s.bounded s.alive_
  Move-IsShared s (number method params) h =
      calm-IsShared s refl refl refl refl s.in_order s.bounded s.alive_
  Move-IsShared s (register {id} {method} {params}) h = register-IsShared i (id_key id) c s
  Move-IsShared s (check g0) h = s
  Move-IsShared s (check_closed g0) h = s
  Move-IsShared s write h = calm-IsShared s refl refl refl refl s.in_order s.bounded s.alive_
  Move-IsShared s (write_fails e) h = s
  Move-IsShared s (abandon {key} {e}) h = record {
    pendings = remove-IsPending c.chan c.next_chan key c.pending s.pendings;
    contents = s.contents;
    shuts = s.shuts;
    alive_ = s.alive_;
    in_order = s.in_order;
    bounded = s.bounded;
  }
  Move-IsShared s (hear {key} {method} {ch} {resp} g0) h = hear-IsShared ch resp c s g0
  Move-IsShared s (hear_nothing g0 g1) h = s
  Move-IsShared s (hear_end g0) h =
      calm-IsShared s refl refl refl refl s.in_order s.bounded
        (λ o. let a = s.alive_ o in (a.0, a.1, refl, a.3))
  Move-IsShared s (hear_over g0 g1) h = s
  Move-IsShared s (cancel e) h = s
  Move-IsShared s (send p) h = s
  Move-IsShared s (send_closed g0) h = s
  Move-IsShared s (send_alive g0) h = s
  Move-IsShared s write_payload h =
      calm-IsShared s refl refl refl refl s.in_order s.bounded s.alive_
  Move-IsShared s (payload_fails e) h = s
  Move-IsShared s expect h = s
  Move-IsShared s (take_event {m} {rest} g0) h =
      calm-IsShared s refl refl refl refl
        (append_assoc c.received_events (m ∷ []) rest
          ∙ ap (append c.received_events) (sym g0)
          ∙ s.in_order)
        (ground (arith, s.bounded, ap (λ xs. length xs) g0)) s.alive_
  Move-IsShared s (event_end g0) h =
      calm-IsShared s refl refl refl refl s.in_order s.bounded
        (λ o. let a = s.alive_ o in (a.0, a.1, refl, a.3))
  Move-IsShared s (event_over g0 g1) h = s
  Move-IsShared s (no_events g0 g1 g2) h = s
  Move-IsShared s (cancel_next e) h = s
  Move-IsShared s again h = s
