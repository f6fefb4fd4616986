-- ===== src/Client/Races.antt =====
-- internal/service/codex_client.go: what can go wrong while `finish` ends a client.
use codex_a2a.Base.{ℕ, eqb_refl, Error, String, ◌≡◌, ◌≢◌, refl, ◌∙◌, Result, ok, err, arith}
use codex_a2a.Base.Maps.{update}
use codex_a2a.Wire.{IncomingMessage}
use codex_a2a.Client.Lines.{Envelope}
use codex_a2a.Client.Moves.{
  delivering, won, waiting, returned, expecting, received, panicked, send_on_closed_events,
  deliver_shut, hear_over, event_end, System, pick,
}
use codex_a2a.Client.Invariant.Reach.{Reach, Run, on}
use codex_a2a.Client.Ending.{finish_ends}

module _ (unmarshal : String → Result Error Envelope) (i : ℕ) {s : System} (e : Error)
    (r : Reach unmarshal s) (ends : s.pc i ≡ won e) where
  -- From every state that the goroutines of a client reach and in which one has won the race in
  -- `finish` while a reader holds a notification, there are steps to a state in which that reader has
  -- panicked, having sent on `events` after it was closed.
  pub delivery_can_panic :
      (j : ℕ) (m : IncomingMessage)
      → s.pc j ≡ delivering m
      → (s' : System) × Run unmarshal s s' × (s'.pc j ≡ panicked send_on_closed_events)
  delivery_can_panic j m at_p =
      let (s', steps, end) = finish_ends unmarshal i e r ends in
      let other : j ≢ i = λ same. ground (arith, at_p, ends, same) in
      (
        _,
        on steps (pick j (end.others j other ∙ at_p) (deliver_shut end.hung)),
        rw (eqb_refl j) refl,
      )

  -- From every state that they reach and in which one has won the race in `finish` while a `request`
  -- and a `next` wait, there are steps to a state in which the `request` has returned a nil result
  -- with no error.
  pub request_can_lose_error :
      (j k : ℕ) (key : String) (ch : ℕ) (method : String)
      → s.pc j ≡ waiting key ch method
      → s.pc k ≡ expecting
      → (s' : System) × Run unmarshal s s' × (s'.pc j ≡ returned key ch method (ok ""))
  request_can_lose_error j k key ch method waits expects =
      let (s', steps, end) = finish_ends unmarshal i e r ends in
      let j_i : j ≢ i = λ same. ground (arith, waits, ends, same) in
      let k_i : k ≢ i = λ same. ground (arith, expects, ends, same) in
      let apart : ¬ (k ≡ j) = λ same. ground (arith, waits, expects, same) in
      let still : update s'.pc k (received (err e)) j ≡ s'.pc j = ground (arith, apart) in
      let taken = on steps (pick k (end.others k k_i ∙ expects) (event_end end.told)) in
      (
        _,
        on taken (pick j (still ∙ end.others j j_i ∙ waits) (hear_over refl end.over)),
        rw (eqb_refl j) refl,
      )
