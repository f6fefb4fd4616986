-- ===== src/Client/Invariant/Reach.antt =====
-- The states of a client that its goroutines reach from the start, and the invariant of all of them.
use codex_a2a.Base.{
  ℕ, zero, suc, eqb, eqb_refl, Bool-cases, Error, String, ◌≡◌, ◌≢◌, refl, subst, inl, inr, false,
  none, [], Result, arith,
}
use codex_a2a.Client.Lines.{Envelope}
use codex_a2a.Client.State.{Client, fresh_chan}
use codex_a2a.Client.Moves.{Pc, reading, awaiting, logging, idle, System, Step, pick}
use codex_a2a.Client.Invariant.Defs.{IsShared, IsLocal}
use codex_a2a.Client.Invariant.Frame.{Frame-IsLocal}
use codex_a2a.Client.Invariant.Own.{Move-IsLocal}
use codex_a2a.Client.Invariant.Rely.{Move-Frame}
use codex_a2a.Client.Invariant.Shared.{Move-IsShared}

-- The client that `launchCodexClient` makes.
abbrev pub new_client : Client
new_client = record {
  next_id = 0;
  pending = [];
  chan = λ ch. fresh_chan "" 0;
  next_chan = 0;
  events = [];
  events_shut = false;
  done = none;
  done_shut = false;
  stderr_tail = [];
  closed = false;
  killed = false;
  answers = [];
  sent_events = [];
  received_events = [];
  written = [];
  finisher = none;
}

-- Its goroutines, and the callers.
abbrev pub start_pc : ℕ → Pc
start_pc zero = reading
start_pc (suc zero) = awaiting
start_pc (suc (suc zero)) = logging
start_pc (suc (suc (suc i))) = idle

abbrev pub start : System
start = record { client = new_client; pc = start_pc }

-- The steps that lead from one state to another, in whatever order the goroutines take them.
module _ (unmarshal : String → Result Error Envelope) (s : System) where
  pub data Run : System → Type 0 where
    here : Run s
    on : {t u : System} → Run t → Step unmarshal t u → Run u

pub followed :
    (unmarshal : String → Result Error Envelope) {s t u : System}
    → Run unmarshal s t
    → Run unmarshal t u
    → Run unmarshal s u
followed unmarshal first here = first
followed unmarshal first (on second step) = on (followed unmarshal first second) step

abbrev pub Reach : (String → Result Error Envelope) → System → Type 0
Reach unmarshal s = Run unmarshal start s

-- What holds of every state of the client and of its goroutines.
pub record Inv (s : System) : Type 0 where
  pub shared : IsShared s.client
  pub locals : (j : ℕ) → IsLocal j s.client (s.pc j)

start-IsLocal : (j : ℕ) → IsLocal j new_client (start_pc j)
start-IsLocal zero = tt
start-IsLocal (suc zero) = tt
start-IsLocal (suc (suc zero)) = tt
start-IsLocal (suc (suc (suc j))) = tt

start-Inv : Inv start
start-Inv = record {
  shared = record {
    pendings = tt;
    contents = λ ch resp e. ground (arith, e);
    shuts = λ ch e. ground (arith, e);
    alive_ = λ e. (refl, refl, refl, refl);
    in_order = refl;
    bounded = omega arith;
  };
  locals = start-IsLocal;
}

module _ (unmarshal : String → Result Error Envelope) where
  pub Step-Inv : {s s' : System} → Inv s → Step unmarshal s s' → Inv s'
  Step-Inv {s} h (pick i {p} {p'} {c} at_p move) =
      let mine = subst (λ x. IsLocal i s.client x) at_p (h.locals i) in
      let frame = Move-Frame unmarshal h.shared move mine in
      record {
        shared = Move-IsShared unmarshal h.shared move mine;
        locals = λ j. elim (Bool-cases (eqb i j)) [
          | inl q ↦
              (let same : i ≡ j = ground (arith, q) in
                rw q (subst (λ x. IsLocal x c p') same (Move-IsLocal unmarshal h.shared move mine)))
          | inr q ↦
              (let other : j ≢ i = λ e. ground (arith, q, e, eqb_refl i) in
                rw q (Frame-IsLocal frame other (s.pc j) (h.locals j)))
        ];
      }

  pub Reach-Inv : {s : System} → Reach unmarshal s → Inv s
  Reach-Inv here = start-Inv
  Reach-Inv (on r step) = Step-Inv (Reach-Inv r) step
