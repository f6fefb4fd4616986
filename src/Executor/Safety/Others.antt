-- ===== src/Executor/Safety/Others.antt =====
-- A turn while other requests work on the same broker.
use codex_a2a.Base.{
  ℕ, String, ◌≡◌, ◌≢◌, refl, ◌∙◌, Bool, true, false, some, List, [], ◌∷◌, ok, panic, ==_ne,
  Option-cases, inl, inr,
}
use codex_a2a.Base.Maps.{lookup, remove, lookup-insert, lookup-remove}
use codex_a2a.Config.{Config}
use codex_a2a.Broker.Sessions.{TaskSession, Broker, new_broker}
use codex_a2a.Broker.Tasks.{register, finish_task_with_policy, drop_session}
use codex_a2a.Broker.Lifecycle.{release_client_lem, tasks-drop_session}
use codex_a2a.Broker.Invariant.Reach.{
  Step, registers, finishes, calls, talks, closes, Reach, next, Reach-IsWellFormed,
}
use codex_a2a.Executor.Events.{Codec, TaskInfo}
use codex_a2a.Executor.World.{World, Incoming}
use codex_a2a.Executor.Turn.{consume}
use codex_a2a.Executor.Safety.Actions.{Guards, Spared, Calm}
use codex_a2a.Executor.Safety.Messages.{IsTotal}
use codex_a2a.Executor.Safety.Turns.{returned-ne_panic, consume_turn-Returns}

-- A step that neither starts nor finishes the task, nor closes the broker.
abbrev pub IsElsewhere : String → {b d : Broker} → Step b d → Type 0
IsElsewhere t (registers u c s now earlier later o a parent opens fresh) = u ≢ t
IsElsewhere t (finishes u preserve) = u ≢ t
IsElsewhere t (calls r call) = Unit {0}
IsElsewhere t (talks running sent) = Unit {0}
IsElsewhere t closes = ⊥

-- Any number of such steps.
pub data Others (t : String) (b : Broker) : Broker → Type 0 where
  idle : Others t b b
  moves : {c d : Broker} → Others t b c → (step : Step c d) → IsElsewhere t step → Others t b d

register-lookup :
    (b : Broker) (t u c : String) (s : TaskSession) (now : ℕ)
    → u ≢ t
    → lookup t (register b u c s now).1.tasks ≡ lookup t b.tasks
unfolding register
register-lookup b t u c s now other =
    rw (lookup-insert u t b.next_runtime b.tasks, ==_ne u t other) refl

finish-tasks :
    (b : Broker) (u : String) (r : ℕ) (preserve : Bool)
    → lookup u b.tasks ≡ some r
    → (finish_task_with_policy b u preserve).tasks ≡ remove u b.tasks
unfolding finish_task_with_policy
finish-tasks b u r true active =
    rw active (release_client_lem (record b { tasks = remove u b.tasks }) (b.runtime r).session).0
finish-tasks b u r false active =
    let gone = record b { tasks = remove u b.tasks } in
    rw active (
      (release_client_lem (drop_session gone (b.runtime r).context_id u) (b.runtime r).session).0
      ∙ tasks-drop_session gone (b.runtime r).context_id u)

finish-lookup :
    (b : Broker) (t u : String) (preserve : Bool)
    → u ≢ t
    → lookup t (finish_task_with_policy b u preserve).tasks ≡ lookup t b.tasks
unfolding finish_task_with_policy
finish-lookup b t u preserve other = elim (Option-cases (lookup u b.tasks)) [
  | inl absent ↦ rw absent refl
  | inr (r, active) ↦
      rw (finish-tasks b u r preserve active, lookup-remove u t b.tasks, ==_ne u t other) refl
]

Step-lookup :
    (t : String) {b d : Broker} (step : Step b d)
    → IsElsewhere t step
    → lookup t d.tasks ≡ lookup t b.tasks
Step-lookup t {b} (registers u c s now earlier later o a parent opens fresh) other =
    register-lookup b t u c s now other
Step-lookup t {b} (finishes u preserve) other = finish-lookup b t u preserve other
Step-lookup t (calls r call) other = refl
Step-lookup t (talks running sent) other = refl
Step-lookup t closes other = absurd other

-- The task is active in a broker that the program can reach.
abbrev pub IsActive : Broker → String → ℕ → Broker → Type 0
IsActive start t r b = Reach start b × (lookup t b.tasks ≡ some r)

Others-IsActive :
    (start : Broker) (t : String) (r : ℕ) {b d : Broker}
    → Others t b d
    → IsActive start t r b
    → IsActive start t r d
Others-IsActive start t r idle h = h
Others-IsActive start t r (moves steps step other) h =
    let (reached, active) = Others-IsActive start t r steps h in
    (next reached step, Step-lookup t step other ∙ active)

module _ (cfg : Config) (start : Broker) (fresh : new_broker cfg ≡ ok start) where
  IsActive-Guards : (t : String) (r : ℕ) → Guards r (IsActive start t r)
  IsActive-Guards t r = record {
    client = λ b h.
        let linked = (Reach-IsWellFormed cfg start b fresh h.0).linked t r h.1 in
        (linked.client, linked.holds_client);
    calls = λ b call h. (next h.0 (calls r call), h.1);
    sends = λ b c message h. (next h.0 (talks b.running ((c, message) ∷ b.sent)), h.1);
  }

  -- While `next` waits for a message, other requests start and finish other tasks, change runtimes and
  -- write to processes, in any number and order.
  abbrev pub Interleaves : String → ℕ → List Incoming → Type 0
  Interleaves t r [] = Unit {0}
  Interleaves t r (m ∷ ms) =
      ((b : Broker) → IsActive start t r b → Others t b (m.others b)) × Interleaves t r ms

  Interleaves-Spared :
      (t : String) (r : ℕ) (ms : List Incoming)
      → Interleaves t r ms
      → Spared (IsActive start t r) ms
  Interleaves-Spared t r [] h = tt
  Interleaves-Spared t r (m ∷ ms) h =
      ((λ b active. Others-IsActive start t r (h.0 b active) active), Interleaves-Spared t r ms h.1)

  -- In a broker that the program can reach, the turn of an active task never panics, whatever messages
  -- come and whatever other requests do to the broker while it waits for them, as long as none of
  -- them starts or finishes this task or closes the broker, and the processes and the JSON package
  -- answer with values or errors.
  pub consume-ne_panic :
      (k : Codec) (info : TaskInfo) (r : ℕ) (w : World)
      → IsTotal k
      → Reach start w.broker
      → lookup info.task_id w.broker.tasks ≡ some r
      → Interleaves info.task_id r w.incoming
      → Calm w.replies
      → Calm w.writes
      → ¬ ((consume k info r w).0 ≡ panic)
  consume-ne_panic k info r w total reached active others replies writes =
      let spared = Interleaves-Spared info.task_id r w.incoming others in
      returned-ne_panic (consume k info r w) (
        consume_turn-Returns (IsActive start info.task_id r) r (IsActive-Guards info.task_id r) k
          total info w.incoming w spared
          (record { inv = (reached, active); spared = spared; replies = replies; writes = writes }))
