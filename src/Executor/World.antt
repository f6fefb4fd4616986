-- ===== src/Executor/World.antt =====
-- The state that a handler of executor.go works on, and its actions: the broker, what the outside
-- still answers, and the events that were yielded.
use codex_a2a.Base.{
  ℕ, zero, suc, Option, none, some, List, [], ◌∷◌, Error, stop_streaming, Result, ok, err, panic,
}
use codex_a2a.Base.Maps.{Map}
use codex_a2a.Wire.{IncomingMessage, RawMessage, Sent}
use codex_a2a.Broker.Sessions.{Broker, Answers, send}
use codex_a2a.Executor.Events.{Event}

-- A message of the app-server, with the time at which it is handled, and what other requests do to the
-- broker while `next` waits for it.
pub record Incoming : Type 0 where
  pub time : ℕ
  pub others : Broker → Broker
  pub message : IncomingMessage

-- A call of `yield`: an event with no error, or an error with no event.
pub data Yield : Type 0 where
  event : Event → Yield
  failure : Error → Yield

-- `order` is the order in which maps are visited and `opening` how a new session is answered.
-- `incoming` are the messages that `next` will return, `replies` and `writes` the results of the
-- next calls of `request` and `respond`; where they are used up, the call ends with the error
-- `ended`, such as that of a cancelled context. `meanwhile` is what other requests do to the broker while
-- such a call waits; a request of a task makes one of them at most. While a session is opened or the
-- consumer takes an event they do nothing. The consumer of the events takes `accepts` more of
-- them and then stops; `yields` are the calls of `yield`, the last one first.
pub record World : Type 0 where
  pub broker : Broker
  pub order : Map ℕ → Map ℕ
  pub opening : Answers
  pub incoming : List Incoming
  pub replies : List (Result Error RawMessage)
  pub writes : List (Result Error Unit)
  pub meanwhile : Broker → Broker
  pub ended : Error
  pub accepts : ℕ
  pub yields : List Yield
  pub now : ℕ

abbrev pub Action : Type 0 → Type 0
Action A = World → Result Error A × World

abbrev pub continue : {A B : Type 0} → Result Error A → (A → Action B) → Action B
continue (ok a) f w = f a w
continue (err e) f w = (err e, w)
continue panic f w = (panic, w)

infixl 10 ◌>>=◌ ◌>>◌
abbrev pub ◌>>=◌ : {A B : Type 0} → Action A → (A → Action B) → Action B
◌>>=◌ m f w = let (r, w') = m w in continue r f w'

abbrev pub ◌>>◌ : {A B : Type 0} → Action A → Action B → Action B
m >> n = m >>= λ _. n

abbrev pub pure : {A : Type 0} → A → Action A
pure a w = (ok a, w)

abbrev pub fail : {A : Type 0} → Error → Action A
fail e w = (err e, w)

abbrev pub lift : {A : Type 0} → Result Error A → Action A
lift r w = (r, w)

abbrev pub gets : {A : Type 0} → (World → A) → Action A
gets f w = (ok (f w), w)

abbrev pub modify : (Broker → Broker) → Action Unit
modify f w = (ok tt, record w { broker = f w.broker })

abbrev pub recover : {A : Type 0} → Result Error A → (Error → Action A) → Action A
recover (ok a) handler w = (ok a, w)
recover (err e) handler w = handler e w
recover panic handler w = (panic, w)

-- `if err != nil { … }` after a call
abbrev pub on_error : {A : Type 0} → Action A → (Error → Action A) → Action A
on_error m handler w = let (r, w') = m w in recover r handler w'

abbrev pub take_event : ℕ → Event → Action Unit
take_event zero e w = (err stop_streaming, record w { yields = event e ∷ w.yields })
take_event (suc n) e w = (ok tt, record w { yields = event e ∷ w.yields; accepts = n })

-- `yieldEventWriter.Write`
unfoldable pub write : Event → Action Unit
write e w = take_event w.accepts e w

-- `writeEvents`
unfoldable pub write_events : List Event → Action Unit
unfolding write
write_events [] = pure tt
write_events (e ∷ es) = do write e; write_events es

-- A call of `yield` whose answer is not looked at.
abbrev pub yield_last : Yield → World → World
yield_last y w = record w { yields = y ∷ w.yields }

abbrev client_or_panic : Option ℕ → Result Error ℕ
client_or_panic none = panic
client_or_panic (some c) = ok c

-- `runtime.Session.Client`, before a method is called on it: nil is a panic.
unfoldable pub client_of_runtime : ℕ → Action ℕ
client_of_runtime r w = (client_or_panic (w.broker.session (w.broker.runtime r).session).client, w)

abbrev pub answer : List (Result Error RawMessage) → Action RawMessage
answer [] w = (err w.ended, w)
answer (reply ∷ replies) w = (reply, record w { replies = replies })

-- Other requests act while a call of `request` or `respond` waits.
abbrev pub others_act : Action Unit
others_act w = (ok tt, record w { broker = w.meanwhile w.broker })

-- `client.request`
unfoldable pub request : ℕ → Sent → Action RawMessage
request c message = do
  modify (send c message)
  others_act
  replies ← gets (λ w. w.replies)
  answer replies

abbrev pub written : List (Result Error Unit) → Action Unit
written [] w = (err w.ended, w)
written (result ∷ writes) w = (result, record w { writes = writes })

-- `client.respond`
unfoldable pub respond : ℕ → Sent → Action Unit
respond c message = do
  modify (send c message)
  others_act
  writes ← gets (λ w. w.writes)
  written writes

-- `client.next` returned this message, and the rest is to come.
abbrev pub receive : Incoming → List Incoming → Action Unit
receive m rest w = (ok tt, record w { broker = m.others w.broker; incoming = rest; now = m.time })
