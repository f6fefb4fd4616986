-- ===== src/Executor/Safety/Actions.antt =====
-- What the actions of the executor do when nothing panics.
use codex_a2a.Base.{
  ℕ, zero, suc, ◌≡◌, some, List, [], ◌∷◌, Error, Result, ok, err, panic, NoPanic, ◌==◌, Bool-cases,
  inl, inr,
}
use codex_a2a.Wire.{RawMessage, decode_json, Sent}
use codex_a2a.Broker.Sessions.{Broker, send}
use codex_a2a.Broker.Tasks.{update_runtime}
use codex_a2a.Broker.Invariant.Reach.{RuntimeCall, run_call}
use codex_a2a.Broker.Invariant.{client_of}
use codex_a2a.Executor.Events.{Event}
use codex_a2a.Executor.World.{
  World, Incoming, Action, lift, continue, ◌>>=◌, recover, on_error, take_event, write,
  write_events, client_of_runtime, answer, request, written, respond,
}

-- An action's result and the state after it: if it succeeds, they are as said, and it does not panic.
abbrev pub Fares : {A : Type 0} → (A → World → Type 0) → Result Error A × World → Type 0
Fares Q (ok a, w) = Q a w
Fares Q (err e, w) = Unit {0}
Fares Q (panic, w) = ⊥

module _ {A B : Type 0} (P : A → World → Type 0) (Q : B → World → Type 0) (f : A → Action B) where
  continue-Fares :
      (x : Result Error A) (w : World)
      → Fares P (x, w)
      → ((a : A) (w' : World) → P a w' → Fares Q (f a w'))
      → Fares Q (continue x f w)
  continue-Fares (ok a) w p h = h a w p
  continue-Fares (err e) w p h = tt
  continue-Fares panic w p h = p

  pub >>=-Fares :
      (m : Action A) (w : World)
      → Fares P (m w)
      → ((a : A) (w' : World) → P a w' → Fares Q (f a w'))
      → Fares Q ((m >>= f) w)
  >>=-Fares m w p h = continue-Fares (m w).0 (m w).1 p h

module _ {A : Type 0} (P : A → World → Type 0) where
  recover-Fares :
      (x : Result Error A) (handler : Error → Action A) (w : World)
      → Fares P (x, w)
      → ((e : Error) (w' : World) → Fares P (handler e w'))
      → Fares P (recover x handler w)
  recover-Fares (ok a) handler w p h = p
  recover-Fares (err e) handler w p h = h e w
  recover-Fares panic handler w p h = p

  pub on_error-Fares :
      (m : Action A) (handler : Error → Action A) (w : World)
      → Fares P (m w)
      → ((e : Error) (w' : World) → Fares P (handler e w'))
      → Fares P (on_error m handler w)
  on_error-Fares m handler w p h = recover-Fares (m w).0 handler (m w).1 p h

module _ {A : Type 0} (P : World → Type 0) where
  pub lift-Fares : (x : Result Error A) (w : World) → NoPanic x → P w → Fares (λ a. P) (lift x w)
  lift-Fares (ok a) w calm h = h
  lift-Fares (err e) w calm h = tt
  lift-Fares panic w calm h = calm

-- No answer that is to come is a panic.
abbrev pub Calm : {A : Type 0} → List (Result Error A) → Type 0
Calm [] = Unit {0}
Calm (x ∷ xs) = NoPanic x × Calm xs

abbrev pub HasClient : ℕ → Broker → Type 0
HasClient r b = (c : ℕ) × (client_of b r ≡ some c)

-- A property of the broker by which the session of the runtime has a client, and which the calls of the
-- runtime and the traffic with the processes keep.
pub record Guards (r : ℕ) (I : Broker → Type 0) : Type 0 where
  pub client : (b : Broker) → I b → HasClient r b
  pub calls : (b : Broker) (call : RuntimeCall) → I b → I (update_runtime r (run_call call) b)
  pub sends : (b : Broker) (c : ℕ) (message : Sent) → I b → I (send c message b)

-- What others do to the broker while `next` waits keeps the property.
abbrev pub Spared : (Broker → Type 0) → List Incoming → Type 0
Spared I [] = Unit {0}
Spared I (m ∷ ms) = ((b : Broker) → I b → I (m.others b)) × Spared I ms

-- The broker has the property and keeps it while `next` waits, and the answers to come are no panics.
pub record Ready (I : Broker → Type 0) (w : World) : Type 0 where
  pub inv : I w.broker
  pub spared : Spared I w.incoming
  pub replies : Calm w.replies
  pub writes : Calm w.writes

-- The same, and the property is also kept while a reply is waited for.
abbrev pub Steady : (Broker → Type 0) → World → Type 0
Steady I w = Ready I w × ((b : Broker) → I b → I (w.meanwhile b))

module _ (r : ℕ) (I : Broker → Type 0) (g : Guards r I) where
  taken-Fares :
      (e : Event) (w : World) (n : ℕ)
      → Ready I w
      → Fares (λ u. Ready I) (take_event n e (record w { accepts = n }))
  taken-Fares e w zero h = tt
  taken-Fares e w (suc n) h = record {
    inv = h.inv;
    spared = h.spared;
    replies = h.replies;
    writes = h.writes;
  }

  pub write-Fares : (e : Event) (w : World) → Ready I w → Fares (λ u. Ready I) (write e w)
  unfolding write
  write-Fares e w h = taken-Fares e w w.accepts h

  pub write_events-Fares :
      (es : List Event) (w : World) → Ready I w → Fares (λ u. Ready I) (write_events es w)
  unfolding write_events
  write_events-Fares [] w h = h
  write_events-Fares (e ∷ es) w h =
      >>=-Fares (λ u. Ready I) (λ u. Ready I) (λ u. write_events es) (write e) w (write-Fares e w h)
        λ u w' h'. write_events-Fares es w' h'

  pub client_of_runtime-Steady :
      (w : World) → Steady I w → Fares (λ c. Steady I) (client_of_runtime r w)
  unfolding client_of_runtime
  client_of_runtime-Steady w h = rw (g.client w.broker h.0.inv).1 h

  pub client_of_runtime-Fares :
      (w : World) → Ready I w → Fares (λ c. Ready I) (client_of_runtime r w)
  unfolding client_of_runtime
  client_of_runtime-Fares w h = rw (g.client w.broker h.inv).1 h

  answer-Fares :
      (w : World) (replies : List (Result Error RawMessage))
      → Ready I w
      → Calm replies
      → Fares (λ raw. Ready I) (answer replies w)
  answer-Fares w [] h calm = tt
  answer-Fares w (ok raw ∷ replies) h calm = record {
    inv = h.inv;
    spared = h.spared;
    replies = calm.1;
    writes = h.writes;
  }
  answer-Fares w (err e ∷ replies) h calm = tt
  answer-Fares w (panic ∷ replies) h calm = calm.0

  pub request-Fares :
      (c : ℕ) (message : Sent) (w : World)
      → Steady I w
      → Fares (λ raw. Ready I) (request c message w)
  unfolding request
  request-Fares c message w (h, kept) =
      answer-Fares (record w { broker = w.meanwhile (send c message w.broker) }) w.replies
        (record {
          inv = kept _ (g.sends w.broker c message h.inv);
          spared = h.spared;
          replies = h.replies;
          writes = h.writes;
        })
        h.replies

  written-Fares :
      (w : World) (writes : List (Result Error Unit))
      → Ready I w
      → Calm writes
      → Fares (λ u. Ready I) (written writes w)
  written-Fares w [] h calm = tt
  written-Fares w (ok u ∷ writes) h calm = record {
    inv = h.inv;
    spared = h.spared;
    replies = h.replies;
    writes = calm.1;
  }
  written-Fares w (err e ∷ writes) h calm = tt
  written-Fares w (panic ∷ writes) h calm = calm.0

  pub respond-Fares :
      (c : ℕ) (message : Sent) (w : World) → Steady I w → Fares (λ u. Ready I) (respond c message w)
  unfolding respond
  respond-Fares c message w (h, kept) =
      written-Fares (record w { broker = w.meanwhile (send c message w.broker) }) w.writes
        (record {
          inv = kept _ (g.sends w.broker c message h.inv);
          spared = h.spared;
          replies = h.replies;
          writes = h.writes;
        })
        h.writes

module _ {T : Type 0} (unmarshal : RawMessage → Result Error T) (none_value : T)
    (raw : RawMessage) where
  pub decode_json-NoPanic :
      ((text : RawMessage) → NoPanic (unmarshal text))
      → NoPanic (decode_json unmarshal none_value raw)
  decode_json-NoPanic h = elim (Bool-cases (raw == "")) [ inl q ↦ rw q tt | inr q ↦ rw q (h raw) ]
