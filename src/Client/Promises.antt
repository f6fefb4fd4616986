-- ===== src/Client/Promises.antt =====
-- internal/service/codex_client.go: what the goroutines of a client can rely on.
use codex_a2a.Base.{ℕ, Error, String, ◌≡◌, ◌⊎◌, subst, true, none, Result, ok}
use codex_a2a.Wire.{RawMessage}
use codex_a2a.Client.Lines.{Envelope}
use codex_a2a.Client.Moves.{Cause, send_on_closed_events, Pc, returned, panicked, System}
use codex_a2a.Client.Invariant.Defs.{IsLocal, IsRead}
use codex_a2a.Client.Invariant.Reach.{Reach, Reach-Inv}

module _ (unmarshal : String → Result Error Envelope) {s : System} (r : Reach unmarshal s) where
  reached-IsLocal : (j : ℕ) {p : Pc} → s.pc j ≡ p → IsLocal j s.client p
  reached-IsLocal j at_p = subst (λ x. IsLocal j s.client x) at_p ((Reach-Inv unmarshal r).locals j)

  -- In every state that the goroutines of a client reach, a goroutine that has panicked has sent on
  -- `events` after `finish` closed it. No response channel, nor `done`, is ever sent on when closed,
  -- and no channel is closed twice.
  pub only_events_panic :
      (j : ℕ) (cause : Cause) → s.pc j ≡ panicked cause → cause ≡ send_on_closed_events
  only_events_panic j cause at_p = reached-IsLocal j at_p

  -- In every state that they reach, a `request` that has returned a result without an error has
  -- returned the result of a line that answered the key of this request, with no error in it, or
  -- nil after `done` was closed.
  pub request_result :
      (j : ℕ) (key : String) (ch : ℕ) (method : String) (raw : RawMessage)
      → s.pc j ≡ returned key ch method (ok raw)
      → IsRead key (record { result = raw; error = none }) s.client.answers
        ⊎ ((raw ≡ "") × (s.client.done_shut ≡ true))
  request_result j key ch method raw at_p = reached-IsLocal j at_p
