-- ===== src/Client/Invariant/Frame.antt =====
-- What holds of a goroutine still holds after a move of another one.
use codex_a2a.Base.{ℕ, Error, String, ◌≢◌, sym, ◌∙◌, inl, inr, Result, ok, err, panic, arith}
use codex_a2a.Wire.{RawMessage}
use codex_a2a.Client.Lines.{Response}
use codex_a2a.Client.State.{Client}
use codex_a2a.Client.Moves.{
  Pc, reading, delivering, answering, holding, closing, awaiting, exited, unexpected, ending, won,
  drained, hung_up, reported, logging, idle, numbered, registered, checked, waiting, abandoning,
  returned, failed, sending, alive, sent, expecting, received, stopped, panicked,
}
use codex_a2a.Client.Invariant.Defs.{Origin, Frame, IsLocal, IsResult, Waits, Finishes}

module _ {i j : ℕ} {c c' : Client} (f : Frame i c c') (other : j ≢ i) where
  Frame-Origin :
      (key : String) (resp : Response) → Origin key resp c.answers → Origin key resp c'.answers
  Frame-Origin key resp (inl read) = inl (f.answers key resp read)
  Frame-Origin key resp (inr e) = inr e

  Frame-Waits : (key : String) (ch : ℕ) → Waits j c key ch → Waits j c' key ch
  Frame-Waits key ch (mine, named, used, unheard) =
      let k = f.called ch (λ e. other (sym mine ∙ e)) used in
      (k.caller ∙ mine, k.key ∙ named, ground (arith, used, f.grows), k.received ∙ unheard)

  Frame-Finishes : Finishes j c → Finishes j c'
  Frame-Finishes (over, mine, open_) =
      let k = f.finishing j other over mine in ground (arith, k, open_)

  Frame-IsResult :
      (key : String) (r : Result Error RawMessage) → IsResult c key r → IsResult c' key r
  Frame-IsResult key (ok raw) (inl read) = inl (f.answers key _ read)
  Frame-IsResult key (ok raw) (inr (nil, over)) = inr (nil, f.stays_shut over)
  Frame-IsResult key (err e) h = tt
  Frame-IsResult key panic h = elim h [ ]

  pub Frame-IsLocal : (p : Pc) → IsLocal j c p → IsLocal j c' p
  Frame-IsLocal (holding ch resp) ((mine, open_, used), empty, from) =
      let k = f.owned ch j other mine used in
      (
        (k.owner, k.shut ∙ open_, ground (arith, used, f.grows)),
        k.empty empty,
        rw k.key (Frame-Origin (c.chan ch).key resp from),
      )
  Frame-IsLocal (closing ch) ((mine, open_, used), was_sent) =
      let k = f.owned ch j other mine used in
      ((k.owner, k.shut ∙ open_, ground (arith, used, f.grows)), k.was_sent was_sent)
  Frame-IsLocal (won e) (h, open_, empty) =
      let k = f.finishing j other h.0 h.1 in (Frame-Finishes h, ground (arith, k, open_), k.4 empty)
  Frame-IsLocal (drained e) (h, open_, empty) =
      let k = f.finishing j other h.0 h.1 in (Frame-Finishes h, ground (arith, k, open_), k.4 empty)
  Frame-IsLocal (hung_up e) (h, empty) =
      let k = f.finishing j other h.0 h.1 in (Frame-Finishes h, k.4 empty)
  Frame-IsLocal reported h = Frame-Finishes h
  Frame-IsLocal (registered id key ch method params) h = Frame-Waits key ch h
  Frame-IsLocal (checked id key ch method params) h = Frame-Waits key ch h
  Frame-IsLocal (waiting key ch method) h = Frame-Waits key ch h
  Frame-IsLocal (returned key ch method result) h = Frame-IsResult key result h
  Frame-IsLocal (panicked cause) h = h
  Frame-IsLocal reading h = tt
  Frame-IsLocal (delivering m) h = tt
  Frame-IsLocal (answering key resp) h = tt
  Frame-IsLocal awaiting h = tt
  Frame-IsLocal (exited exit) h = tt
  Frame-IsLocal (unexpected exit) h = tt
  Frame-IsLocal (ending e) h = tt
  Frame-IsLocal logging h = tt
  Frame-IsLocal idle h = tt
  Frame-IsLocal (numbered id method params) h = tt
  Frame-IsLocal (abandoning key e) h = tt
  Frame-IsLocal (failed e) h = tt
  Frame-IsLocal (sending p) h = tt
  Frame-IsLocal (alive p) h = tt
  Frame-IsLocal (sent result) h = tt
  Frame-IsLocal expecting h = tt
  Frame-IsLocal (received result) h = tt
  Frame-IsLocal stopped h = tt
