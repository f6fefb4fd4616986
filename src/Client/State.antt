-- ===== src/Client/State.antt =====
-- internal/service/codex_client.go: the state of a client that its goroutines share.
use Prim.Native.String.{◌++◌}
use Prim.Native.Nat.{◌%◌, ◌^◌}
use codex_a2a.Base.{
  ℕ, suc, ◌+◌, ◌-◌, error_text, String, Bool, true, false, Option, none, some, List, [], ◌∷◌, Error,
  ltb, if◌then◌else◌,
}
use codex_a2a.Base.Maps.{Map, insert, remove, update}
use codex_a2a.Base.Text.{decimal}
use codex_a2a.Value.{Value}
use codex_a2a.Wire.{RawMessage, IncomingMessage}
use codex_a2a.Client.Lines.{Response}

-- A channel of capacity 1 that carries one response. Three fields only record its history: the key
-- and the goroutine of the request that made it, and whether that has received from it; `owner` is
-- the goroutine that has taken it out of `pending` to answer it.
pub record Chan : Type 0 where
  pub content : Option Response
  pub shut : Bool
  pub key : String
  pub caller : ℕ
  pub owner : Option ℕ
  pub received : Bool

-- What is written to the process: `params` are left out where they are nil.
pub data Payload : Type 0 where
  call : (id : ℕ) → (method : String) → (params : Option Value) → Payload
  notification : (method : String) → (params : Option Value) → Payload
  reply : RawMessage → Value → Payload

-- `codexClient`. A channel is a reference into `chan`; `events` and `done` are the buffers of two
-- more channels, with whether they are closed. Five fields record what has happened: the lines that
-- answered a request, the messages sent to and received from `events`, what was written, and the
-- goroutine that has won the race in `finish`.
pub record Client : Type 0 where
  pub next_id : ℕ
  pub pending : Map ℕ
  pub chan : ℕ → Chan
  pub next_chan : ℕ
  pub events : List IncomingMessage
  pub events_shut : Bool
  pub done : Option Error
  pub done_shut : Bool
  pub stderr_tail : List String
  pub closed : Bool
  pub killed : Bool
  pub answers : List (String × Response)
  pub sent_events : List IncomingMessage
  pub received_events : List IncomingMessage
  pub written : List Payload
  pub finisher : Option ℕ

-- The capacity of `events`.
abbrev pub events_capacity : ℕ
events_capacity = 256

-- `atomic.AddInt64`, on the two's complement
abbrev pub add_int64 : ℕ → ℕ
add_int64 n = (n + 1) % 2 ^ 64

-- `fmt.Sprintf("%d", id)`
unfoldable pub id_key : ℕ → String
id_key id = if ltb id (2 ^ 63) then decimal id else "-" ++ decimal (2 ^ 64 - id)

abbrev pub fresh_chan : String → ℕ → Chan
fresh_chan key caller = record {
  content = none;
  shut = false;
  key = key;
  caller = caller;
  owner = none;
  received = false;
}

-- `c.pending[idKey] = ch`
unfoldable pub register_call : ℕ → String → Client → Client
register_call i key c = record c {
  pending = insert key c.next_chan c.pending;
  chan = update c.chan c.next_chan (fresh_chan key i);
  next_chan = suc c.next_chan;
}

-- `delete(c.pending, key)`
unfoldable pub forget_call : String → Client → Client
forget_call key c = record c { pending = remove key c.pending }

-- The locked part of the loop of `readLoop`: what was pending under the key.
unfoldable pub take_pending : ℕ → String → Response → ℕ → Client → Client
take_pending i key resp ch c = record c {
  pending = remove key c.pending;
  chan = update c.chan ch (record (c.chan ch) { owner = some i });
  answers = (key, resp) ∷ c.answers;
}

-- `ch <- resp`, where the buffer is free
abbrev pub put : Response → Chan → Chan
put resp ch = record ch { content = some resp }

abbrev pub close_chan : Chan → Chan
close_chan ch = record ch { shut = true }

-- What becomes of a send on a channel of capacity 1 and the `close` after it.
pub data Sending : Type 0 where
  done_with : (ℕ → Chan) → Sending
  blocks : Sending
  panics : Sending

abbrev is_full : Option Response → Bool
is_full none = false
is_full (some resp) = true

-- `ch <- resp; close(ch)` for every entry of `pending`, in `finish`.
unfoldable pub answer_all : Response → Map ℕ → (ℕ → Chan) → Sending
answer_all resp [] chan = done_with chan
answer_all resp ((key, ch) ∷ entries) chan =
    let rest = answer_all resp entries (update chan ch (close_chan (put resp (chan ch)))) in
    if (chan ch).shut then panics else if is_full (chan ch).content then blocks else rest

-- The answer of `finish` to the requests that are pending.
abbrev pub closed_response : Error → Response
closed_response e = record { result = ""; error = some (error_text e) }
