-- ===== src/Client/Ending.antt =====
-- internal/service/codex_client.go: how `finish` ends a client.
use codex_a2a.Base.{
  ℕ, eqb_refl, eqb, Bool-cases, Error, String, ◌≡◌, ◌≢◌, refl, subst, inl, inr, true, some, [],
  Result, arith,
}
use codex_a2a.Base.Maps.{lookup, update}
use codex_a2a.Client.Lines.{Envelope}
use codex_a2a.Client.State.{Chan, Client, answer_all, done_with, closed_response}
use codex_a2a.Client.Moves.{
  Pc, won, drained, hung_up, reported, stopped, Move, drain, hang_up, report, finish, System, pick,
}
use codex_a2a.Client.Pending.{answer_all-Drained}
use codex_a2a.Client.Invariant.Defs.{IsLocal}
use codex_a2a.Client.Invariant.Reach.{Reach, Run, here, on, Reach-Inv}

-- What the goroutine that has won the race in `finish` leaves behind.
pub record Ended (i : ℕ) (e : Error) (s s' : System) : Type 0 where
  pub forgotten : s'.client.pending ≡ []
  pub hung : s'.client.events_shut ≡ true
  pub told : s'.client.done ≡ some e
  pub over : s'.client.done_shut ≡ true
  pub at_end : s'.pc i ≡ stopped
  pub others : (j : ℕ) → j ≢ i → s'.pc j ≡ s.pc j
  pub answered :
      (key : String) (ch : ℕ)
      → lookup key s.client.pending ≡ some ch
      → (s'.client.chan ch).content ≡ some (closed_response e)

-- The states that it passes.
abbrev moved_to : (i : ℕ) (c : Client) (p : Pc) (s : System) → System
moved_to i c p s = record { client = c; pc = update s.pc i p }

module _ (unmarshal : String → Result Error Envelope) (i : ℕ) where
  moved :
      {s t : System} {c : Client} {p p' : Pc}
      → Run unmarshal s t
      → t.pc i ≡ p
      → Move unmarshal i t.client p c p'
      → Run unmarshal s (moved_to i c p' t)
  moved r at_p move = on r (pick i at_p move)

  at_last : (pc : ℕ → Pc) (p : Pc) → update pc i p i ≡ p
  at_last pc p = rw (eqb_refl i) refl

  to_end :
      (e : Error) (heap : ℕ → Chan) (s : System)
      → s.pc i ≡ won e
      → IsLocal i s.client (won e)
      → answer_all (closed_response e) s.client.pending s.client.chan ≡ done_with heap
      → (s' : System) × Run unmarshal s s'
        × (s'.client.pending ≡ [])
        × (s'.client.chan ≡ heap)
        × (s'.client.events_shut ≡ true)
        × (s'.client.done ≡ some e)
        × (s'.client.done_shut ≡ true)
        × (s'.pc i ≡ stopped)
        × ((j : ℕ) → j ≢ i → s'.pc j ≡ s.pc j)
  to_end e heap s at_p (mine, open_, empty) h =
      let c1 = record s.client { pending = []; chan = heap } in
      let r1 = moved here at_p (drain h) in
      let pc1 = update s.pc i (drained e) in
      let r2 = moved r1 (at_last s.pc (drained e)) (hang_up open_) in
      let pc2 = update pc1 i (hung_up e) in
      let r3 = moved r2 (at_last pc1 (hung_up e)) (report mine.2 empty) in
      let pc3 = update pc2 i reported in
      let r4 = moved r3 (at_last pc2 reported) (finish mine.2) in
      (
        _,
        r4,
        refl,
        refl,
        refl,
        refl,
        refl,
        at_last pc3 stopped,
        λ j other. elim (Bool-cases (eqb i j)) [
          | inl q ↦ ground (arith, q, other)
          | inr q ↦ rw q refl
        ],
      )

  -- From every state that the goroutines of a client reach and in which one has won the race in
  -- `finish` with an error, there are steps to a state in which that one has stopped, every request
  -- that was pending has the error as its answer, none is pending, `events` is closed, and `done`
  -- holds the error and is closed. The other goroutines stand where they stood.
  pub finish_ends :
      {s : System} (e : Error)
      → Reach unmarshal s
      → s.pc i ≡ won e
      → (s' : System) × Run unmarshal s s' × Ended i e s s'
  finish_ends {s} e r at_p =
      let inv = Reach-Inv unmarshal r in
      let pendings = inv.shared.pendings in
      let c = s.client in
      let (heap, d) =
        answer_all-Drained (closed_response e) c.next_chan c.pending c.chan pendings in
      let mine = subst (λ x. IsLocal i c x) at_p (inv.locals i) in
      let (s', steps, forgotten, same, hung, told, over, at_end, others) =
        to_end e heap s at_p mine d.ends in
      (
        s',
        steps,
        record {
          forgotten = forgotten;
          hung = hung;
          told = told;
          over = over;
          at_end = at_end;
          others = others;
          answered = λ key ch found. rw (same, d.filled key ch found) refl;
        },
      )
