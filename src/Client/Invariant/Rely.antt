-- ===== src/Client/Invariant/Rely.antt =====
-- Every move leaves to the other goroutines what they rely on.
use codex_a2a.Base.{ℕ, Error, String, refl, Result}
use codex_a2a.Client.Lines.{Envelope}
use codex_a2a.Client.State.{Client, id_key, forget_call}
use codex_a2a.Client.Moves.{
  Move, Pc, take_line, read_eof, read_fails, deliver, deliver_shut, deliver_ended, deliver_over,
  answer_unknown, answer_known, answer, answer_shut, close_answer, close_answer_again, wait,
  exit_known, exit_new, explain, win, lose, drain, drain_shut, hang_up, hang_up_again, report,
  report_shut, finish, finish_again, log, log_ends, close, number, register, check, check_closed,
  write, write_fails, abandon, hear, hear_nothing, hear_end, hear_over, cancel, send, send_closed,
  send_alive, write_payload, payload_fails, expect, take_event, event_end, event_over, no_events,
  cancel_next, again,
}
use codex_a2a.Client.Invariant.Defs.{IsShared, IsLocal, Frame}
use codex_a2a.Client.Invariant.Frames.{
  win-Frame, known-Frame, owner-Frame, hear-Frame, register-Frame, drain-Frame, kept-Frame,
  finish-Frame,
}

module _ (unmarshal : String → Result Error Envelope) {i : ℕ} {c : Client} where
  pub Move-Frame :
      {p p' : Pc} {c' : Client}
      → IsShared c
      → Move unmarshal i c p c' p'
      → IsLocal i c p
      → Frame i c c'
  unfolding forget_call
  Move-Frame s (take_line text) h = kept-Frame i c _ refl refl refl refl refl refl refl (λ e. e)
  Move-Frame s read_eof h = kept-Frame i c _ refl refl refl refl refl refl refl (λ e. e)
  Move-Frame s (read_fails e) h = kept-Frame i c _ refl refl refl refl refl refl refl (λ e. e)
  Move-Frame s (deliver g0 g1) h = kept-Frame i c _ refl refl refl refl refl refl refl (λ e. e)
  Move-Frame s (deliver_shut g0) h = kept-Frame i c _ refl refl refl refl refl refl refl (λ e. e)
  Move-Frame s (deliver_ended g0) h =
      kept-Frame i c _ refl refl refl refl refl refl refl (λ e. refl)
  Move-Frame s (deliver_over g0 g1) h = kept-Frame i c _ refl refl refl refl refl refl refl (λ e. e)
  Move-Frame s (answer_unknown g0) h = kept-Frame i c _ refl refl refl refl refl refl refl (λ e. e)
  Move-Frame s (answer_known {key} {resp} {ch} g0) h = known-Frame i key resp ch c s g0
  Move-Frame s (answer {resp} {ch} g0 g1) h =
      owner-Frame i ch _ c h.0.0 (record { caller = refl; key = refl; received = refl })
  Move-Frame s (answer_shut g0) h = kept-Frame i c _ refl refl refl refl refl refl refl (λ e. e)
  Move-Frame s (close_answer {ch} g0) h =
      owner-Frame i ch _ c h.0.0 (record { caller = refl; key = refl; received = refl })
  Move-Frame s (close_answer_again g0) h =
      kept-Frame i c _ refl refl refl refl refl refl refl (λ e. e)
  Move-Frame s (wait exit) h = kept-Frame i c _ refl refl refl refl refl refl refl (λ e. e)
  Move-Frame s (exit_known g0) h = kept-Frame i c _ refl refl refl refl refl refl refl (λ e. e)
  Move-Frame s (exit_new g0) h = kept-Frame i c _ refl refl refl refl refl refl refl (λ e. e)
  Move-Frame s explain h = kept-Frame i c _ refl refl refl refl refl refl refl (λ e. e)
  Move-Frame s (win g0) h = win-Frame i c s g0
  Move-Frame s (lose g0) h = kept-Frame i c _ refl refl refl refl refl refl refl (λ e. e)
  Move-Frame s (drain {e} {heap} g0) h = drain-Frame i e heap c s g0
  Move-Frame s (drain_shut g0) h = kept-Frame i c _ refl refl refl refl refl refl refl (λ e. e)
  Move-Frame s (hang_up g0) h = finish-Frame i c _ h.0.1 refl refl refl (λ e. e)
  Move-Frame s (hang_up_again g0) h = kept-Frame i c _ refl refl refl refl refl refl refl (λ e. e)
  Move-Frame s (report g0 g1) h = finish-Frame i c _ h.0.1 refl refl refl (λ e. e)
  Move-Frame s (report_shut g0) h = kept-Frame i c _ refl refl refl refl refl refl refl (λ e. e)
  Move-Frame s (finish g0) h = finish-Frame i c _ h.1 refl refl refl (λ e. refl)
  Move-Frame s (finish_again g0) h = kept-Frame i c _ refl refl refl refl refl refl refl (λ e. e)
  Move-Frame s (log line) h = kept-Frame i c _ refl refl refl refl refl refl refl (λ e. e)
  Move-Frame s log_ends h = kept-Frame i c _ refl refl refl refl refl refl refl (λ e. e)
  Move-Frame s close h = kept-Frame i c _ refl refl refl refl refl refl refl (λ e. e)
  Move-Frame s (number method params) h =
      kept-Frame i c _ refl refl refl refl refl refl refl (λ e. e)
  Move-Frame s (register {id} {method} {params}) h = register-Frame i (id_key id) c
  Move-Frame s (check g0) h = kept-Frame i c _ refl refl refl refl refl refl refl (λ e. e)
  Move-Frame s (check_closed g0) h = kept-Frame i c _ refl refl refl refl refl refl refl (λ e. e)
  Move-Frame s write h = kept-Frame i c _ refl refl refl refl refl refl refl (λ e. e)
  Move-Frame s (write_fails e) h = kept-Frame i c _ refl refl refl refl refl refl refl (λ e. e)
  Move-Frame s abandon h = kept-Frame i c _ refl refl refl refl refl refl refl (λ e. e)
  Move-Frame s (hear {key} {method} {ch} {resp} g0) h = hear-Frame i key ch c h
  Move-Frame s (hear_nothing g0 g1) h = kept-Frame i c _ refl refl refl refl refl refl refl (λ e. e)
  Move-Frame s (hear_end g0) h = kept-Frame i c _ refl refl refl refl refl refl refl (λ e. refl)
  Move-Frame s (hear_over g0 g1) h = kept-Frame i c _ refl refl refl refl refl refl refl (λ e. e)
  Move-Frame s (cancel e) h = kept-Frame i c _ refl refl refl refl refl refl refl (λ e. e)
  Move-Frame s (send p) h = kept-Frame i c _ refl refl refl refl refl refl refl (λ e. e)
  Move-Frame s (send_closed g0) h = kept-Frame i c _ refl refl refl refl refl refl refl (λ e. e)
  Move-Frame s (send_alive g0) h = kept-Frame i c _ refl refl refl refl refl refl refl (λ e. e)
  Move-Frame s write_payload h = kept-Frame i c _ refl refl refl refl refl refl refl (λ e. e)
  Move-Frame s (payload_fails e) h = kept-Frame i c _ refl refl refl refl refl refl refl (λ e. e)
  Move-Frame s expect h = kept-Frame i c _ refl refl refl refl refl refl refl (λ e. e)
  Move-Frame s (take_event g0) h = kept-Frame i c _ refl refl refl refl refl refl refl (λ e. e)
  Move-Frame s (event_end g0) h = kept-Frame i c _ refl refl refl refl refl refl refl (λ e. refl)
  Move-Frame s (event_over g0 g1) h = kept-Frame i c _ refl refl refl refl refl refl refl (λ e. e)
  Move-Frame s (no_events g0 g1 g2) h = kept-Frame i c _ refl refl refl refl refl refl refl (λ e. e)
  Move-Frame s (cancel_next e) h = kept-Frame i c _ refl refl refl refl refl refl refl (λ e. e)
  Move-Frame s again h = kept-Frame i c _ refl refl refl refl refl refl refl (λ e. e)
