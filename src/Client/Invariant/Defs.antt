-- ===== src/Client/Invariant/Defs.antt =====
-- The invariant of a client: of what is shared, of each goroutine, and what the others leave alone.
use mathlib.Core.List.{◌++◌ as append}
use codex_a2a.Base.{
  ℕ, ◌≤◌, ◌<◌, String, Error, ◌≡◌, ◌≢◌, ◌⊎◌, true, false, none, some, List, [], ◌∷◌, Result, ok,
  err, panic, length,
}
use codex_a2a.Wire.{RawMessage}
use codex_a2a.Client.Lines.{Response}
use codex_a2a.Client.State.{Chan, Client, events_capacity}
use codex_a2a.Client.Moves.{
  send_on_closed_events, Pc, reading, delivering, answering, holding, closing, awaiting, exited,
  unexpected, ending, won, drained, hung_up, reported, logging, idle, numbered, registered, checked,
  waiting, abandoning, returned, failed, sending, alive, sent, expecting, received, stopped,
  panicked,
}
use codex_a2a.Client.Pending.{IsPending}

-- A line of the process has answered the request with this response.
abbrev pub IsRead : String → Response → List (String × Response) → Type 0
IsRead key resp [] = ⊥
IsRead key resp ((k, r) ∷ answers) = ((k ≡ key) × (r ≡ resp)) ⊎ IsRead key resp answers

-- A response comes from the process, or is the error that ends all requests.
abbrev pub Origin : String → Response → List (String × Response) → Type 0
Origin key resp answers =
    IsRead key resp answers ⊎ ((message : String) × (resp.error ≡ some message))

-- A response was put into the channel.
abbrev pub WasSent : Chan → Type 0
WasSent ch = ((resp : Response) × (ch.content ≡ some resp)) ⊎ (ch.received ≡ true)

pub record IsShared (c : Client) : Type 0 where
  pub pendings : IsPending c.chan c.next_chan c.pending
  pub contents :
      (ch : ℕ) (resp : Response)
      → (c.chan ch).content ≡ some resp
      → Origin (c.chan ch).key resp c.answers
  pub shuts : (ch : ℕ) → (c.chan ch).shut ≡ true → WasSent (c.chan ch)
  pub alive_ :
      c.closed ≡ false
      → (c.finisher ≡ none) × (c.events_shut ≡ false) × (c.done ≡ none) × (c.done_shut ≡ false)
  pub in_order : append c.received_events c.events ≡ c.sent_events
  pub bounded : length c.events ≤ events_capacity

-- The goroutine has taken the channel out of `pending`.
abbrev pub Holds : ℕ → Client → ℕ → Type 0
Holds i c ch = ((c.chan ch).owner ≡ some i) × ((c.chan ch).shut ≡ false) × (ch < c.next_chan)

-- The goroutine runs `finish`.
abbrev pub Finishes : ℕ → Client → Type 0
Finishes i c = (c.closed ≡ true) × (c.finisher ≡ some i) × (c.done_shut ≡ false)

-- The goroutine waits for the answer to its request.
abbrev pub Waits : ℕ → Client → String → ℕ → Type 0
Waits i c key ch =
    ((c.chan ch).caller ≡ i)
    × ((c.chan ch).key ≡ key)
    × (ch < c.next_chan)
    × ((c.chan ch).received ≡ false)

-- The result of a request with this key: a response of the process, or nil after the end.
abbrev pub IsResult : Client → String → Result Error RawMessage → Type 0
IsResult c key (ok raw) =
    IsRead key (record { result = raw; error = none }) c.answers
    ⊎ ((raw ≡ "") × (c.done_shut ≡ true))
IsResult c key (err e) = Unit {0}
IsResult c key panic = ⊥

abbrev pub IsLocal : ℕ → Client → Pc → Type 0
IsLocal i c (holding ch resp) =
    Holds i c ch × ((c.chan ch).content ≡ none) × Origin (c.chan ch).key resp c.answers
IsLocal i c (closing ch) = Holds i c ch × WasSent (c.chan ch)
IsLocal i c (won e) = Finishes i c × (c.events_shut ≡ false) × (c.done ≡ none)
IsLocal i c (drained e) = Finishes i c × (c.events_shut ≡ false) × (c.done ≡ none)
IsLocal i c (hung_up e) = Finishes i c × (c.done ≡ none)
IsLocal i c reported = Finishes i c
IsLocal i c (registered id key ch method params) = Waits i c key ch
IsLocal i c (checked id key ch method params) = Waits i c key ch
IsLocal i c (waiting key ch method) = Waits i c key ch
IsLocal i c (returned key ch method result) = IsResult c key result
IsLocal i c (panicked cause) = cause ≡ send_on_closed_events
IsLocal i c (reading) = Unit {0}
IsLocal i c (delivering m) = Unit {0}
IsLocal i c (answering key resp) = Unit {0}
IsLocal i c awaiting = Unit {0}
IsLocal i c (exited exit) = Unit {0}
IsLocal i c (unexpected exit) = Unit {0}
IsLocal i c (ending e) = Unit {0}
IsLocal i c logging = Unit {0}
IsLocal i c idle = Unit {0}
IsLocal i c (numbered id method params) = Unit {0}
IsLocal i c (abandoning key e) = Unit {0}
IsLocal i c (failed e) = Unit {0}
IsLocal i c (sending p) = Unit {0}
IsLocal i c (alive p) = Unit {0}
IsLocal i c (sent result) = Unit {0}
IsLocal i c expecting = Unit {0}
IsLocal i c (received result) = Unit {0}
IsLocal i c stopped = Unit {0}

-- How a channel may change under a goroutine that owns it: the caller may receive from it.
pub record KeepsOwned (j : ℕ) (before after : Chan) : Type 0 where
  pub owner : after.owner ≡ some j
  pub shut : after.shut ≡ before.shut
  pub key : after.key ≡ before.key
  pub empty : before.content ≡ none → after.content ≡ none
  pub was_sent : WasSent before → WasSent after

-- How it may change under its caller.
pub record KeepsCalled (before after : Chan) : Type 0 where
  pub caller : after.caller ≡ before.caller
  pub key : after.key ≡ before.key
  pub received : after.received ≡ before.received

-- What a move of goroutine `i` leaves to the others.
pub record Frame (i : ℕ) (c c' : Client) : Type 0 where
  pub owned :
      (ch j : ℕ)
      → j ≢ i
      → (c.chan ch).owner ≡ some j
      → ch < c.next_chan
      → KeepsOwned j (c.chan ch) (c'.chan ch)
  pub called :
      (ch : ℕ) → (c.chan ch).caller ≢ i → ch < c.next_chan → KeepsCalled (c.chan ch) (c'.chan ch)
  pub grows : c.next_chan ≤ c'.next_chan
  pub answers :
      (key : String) (resp : Response) → IsRead key resp c.answers → IsRead key resp c'.answers
  pub finishing :
      (j : ℕ)
      → j ≢ i
      → c.closed ≡ true
      → c.finisher ≡ some j
      → (c'.closed ≡ true)
        × (c'.finisher ≡ some j)
        × (c'.events_shut ≡ c.events_shut)
        × (c'.done_shut ≡ c.done_shut)
        × (c.done ≡ none → c'.done ≡ none)
  pub stays_shut : c.done_shut ≡ true → c'.done_shut ≡ true
