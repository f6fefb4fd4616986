-- ===== src/Executor/Safety/Execute.antt =====
-- `Execute` on a broker that the program can reach.
use codex_a2a.Base.{
  ℕ, ◌≡◌, ◌∙◌, Option, none, some, Error, Result, ok, err, panic, NoPanic, NoPanic-ne, never_panics,
  bind-NoPanic, String, Bool, true, false, not, ◌==◌, arith, Result-cases, Option-cases, inl, inr,
  zero, suc,
}
use codex_a2a.Config.{
  require, Config, RequestOptions, request_options_from_config, normalize_sandbox,
  validate_approval_policy,
}
use codex_a2a.Runtime.{PendingRequest}
use codex_a2a.Broker.Sessions.{Broker, new_broker}
use codex_a2a.Broker.Tasks.{task}
use codex_a2a.Broker.Invariant.{client_of, IsWellFormed}
use codex_a2a.Broker.Tasks.{update_runtime}
use codex_a2a.Broker.Invariant.Reach.{
  RuntimeCall, run_call, run_call_identity, Reach, Reach-IsWellFormed,
}
use codex_a2a.Executor.Events.{Codec, TaskState, working, input_required, canceled, failed, other}
use codex_a2a.Executor.Input.{codex_inputs_from_message}
use codex_a2a.Executor.World.{World, lift, ◌>>◌, on_error, write}
use codex_a2a.Executor.Turn.{start_new_turn}
use codex_a2a.Executor.Execute.{
  ExecutorContext, start_runtime, execute_new, continue_task, execute_stored, execute, submit,
  report_failure, execute_stream,
}
use codex_a2a.Executor.Safety.Actions.{
  Guards, HasClient, Spared, Fares, Calm, Steady, >>=-Fares, on_error-Fares, lift-Fares,
}
use codex_a2a.Executor.Safety.Broker.{
  Opens, StartsClient, start_task-StartsClient, task-StartsClient,
}
use codex_a2a.Executor.Safety.Input.{codex_inputs_from_message-NoPanic}
use codex_a2a.Executor.Safety.Messages.{IsTotal}
use codex_a2a.Executor.Safety.Turns.{
  returned-ne_panic, Returns, start_new_turn-Returns, resume_input_required-Returns,
}

-- A change of a runtime leaves the client of its session.
call-client :
    (b : Broker) (r : ℕ) (call : RuntimeCall)
    → client_of (update_runtime r (run_call call) b) r ≡ client_of b r
call-client b r call = ground (arith, run_call_identity call (b.runtime r))

-- The outside answers: each call of it returns a value or an error; and what others do to the broker
-- while `next` or a reply is waited for takes no client away.
pub record IsAnswering (w : World) : Type 0 where
  pub opening : Opens w.opening
  pub spared : (r : ℕ) → Spared (HasClient r) w.incoming
  pub undisturbed : (r : ℕ) (b : Broker) → HasClient r b → HasClient r (w.meanwhile b)
  pub replies : Calm w.replies
  pub writes : Calm w.writes

require-NoPanic : (b : Bool) (message : String) → NoPanic (require b message)
require-NoPanic true message = tt
require-NoPanic false message = tt

validate_approval_policy-NoPanic : (policy : String) → NoPanic (validate_approval_policy policy)
unfolding validate_approval_policy
validate_approval_policy-NoPanic policy = never_panics _ λ e. ground (arith, e)

normalize_sandbox-NoPanic : (mode : String) → NoPanic (normalize_sandbox mode)
unfolding normalize_sandbox
normalize_sandbox-NoPanic mode = never_panics _ λ e. ground (arith, e)

request_options_from_config-NoPanic : (c : Config) → NoPanic (request_options_from_config c)
unfolding request_options_from_config
request_options_from_config-NoPanic c =
    bind-NoPanic _ _ (require-NoPanic (not (c.default_cwd == "")) _) λ u.
      bind-NoPanic _ _ (validate_approval_policy-NoPanic c.default_approval_policy)
        λ v. bind-NoPanic _ _ (normalize_sandbox-NoPanic c.default_sandbox) λ s. tt

HasClient-Guards : (r : ℕ) → Guards r (HasClient r)
HasClient-Guards r = record {
  client = λ b h. h;
  calls = λ b call h. (h.0, call-client b r call ∙ h.1);
  sends = λ b c message h. h;
}

started-Fares :
    (x : Result Error ℕ) (b : Broker) (w : World)
    → StartsClient (x, b)
    → IsAnswering w
    → Fares (λ r. Steady (HasClient r)) (x, record w { broker = b })
started-Fares (ok r) b w (c, holds) h = (
  record { inv = (c, holds); spared = h.spared r; replies = h.replies; writes = h.writes },
  h.undisturbed r,
)
started-Fares (err e) b w starts h = tt
started-Fares panic b w starts h = starts

module _ (k : Codec) (total : IsTotal k) (req : ExecutorContext) where
  input-Fares :
      (P : World → Type 0) (w : World)
      → P w
      → Fares (λ input. P) (lift (codex_inputs_from_message k req.message) w)
  input-Fares P w h = lift-Fares P _ w (codex_inputs_from_message-NoPanic k total req.message) h

  new-Returns :
      (options : RequestOptions) (w : World) → IsAnswering w → Returns (execute_new k req options w)
  new-Returns options w h =
      >>=-Fares (λ input. IsAnswering) (λ u v. Unit {0}) _
        (lift (codex_inputs_from_message k req.message)) w (input-Fares IsAnswering w h)
        λ input w' h'.
          >>=-Fares (λ r. Steady (HasClient r)) (λ u v. Unit {0})
            (λ r. start_new_turn k req.info r options input) (start_runtime req options) w'
            (started-Fares _ _ w'
              (start_task-StartsClient w'.order w'.broker req.info.task_id req.info.context_id
                options req.message.reference_tasks w'.opening w'.now h'.opening)
              h')
            λ r.
              start_new_turn-Returns (HasClient r) r (HasClient-Guards r) k total req.info options
                input

  continued-Returns :
      (options : RequestOptions) (r : ℕ) (p : Option PendingRequest) (w : World)
      → Steady (HasClient r) w
      → Returns (continue_task k req options r p w)
  continued-Returns options r (some p) w h =
      resume_input_required-Returns (HasClient r) r (HasClient-Guards r) k total req.info
        req.message (some p) w h
  continued-Returns options r none w h =
      >>=-Fares (λ input. Steady (HasClient r)) (λ u v. Unit {0}) _
        (lift (codex_inputs_from_message k req.message)) w (input-Fares (Steady (HasClient r)) w h)
        λ input.
          start_new_turn-Returns (HasClient r) r (HasClient-Guards r) k total req.info options input

  stored-Returns :
      (options : RequestOptions) (state : TaskState) (w : World)
      → IsWellFormed w.broker
      → IsAnswering w
      → Returns (execute_stored k req options state w)
  stored-Returns options input_required w formed h =
      >>=-Fares (λ r. Steady (HasClient r)) (λ u v. Unit {0}) _
        (lift (task w.broker req.info.task_id)) w
        (started-Fares (task w.broker req.info.task_id) w.broker w
          (task-StartsClient w.broker req.info.task_id formed) h)
        λ r. continued-Returns options r (w.broker.runtime r).pending
  stored-Returns options working w formed h = tt
  stored-Returns options canceled w formed h = tt
  stored-Returns options failed w formed h = tt
  stored-Returns options (other s) w formed h = tt

  execute-Returns :
      (options : RequestOptions) (w : World)
      → IsWellFormed w.broker
      → IsAnswering w
      → Returns (execute k req options w)
  unfolding execute
  execute-Returns options w formed h = elim (Option-cases req.stored) [
    | inl q ↦ rw q (new-Returns options w h)
    | inr (state, q) ↦ rw q (stored-Returns options state w formed h)
  ]

  reported-Returns :
      (e : Error) (w : World) (n : ℕ) → Returns (report_failure k req e (record w { accepts = n }))
  unfolding write
  reported-Returns e w zero = tt
  reported-Returns e w (suc n) = tt

  executed-Returns :
      (options : RequestOptions) (w : World)
      → IsWellFormed w.broker
      → IsAnswering w
      → Returns (on_error (execute k req options) (report_failure k req) w)
  executed-Returns options w formed h =
      on_error-Fares (λ u v. Unit {0}) (execute k req options) (report_failure k req) w
        (execute-Returns options w formed h) λ e w'. reported-Returns e w' w'.accepts

  submitted-Returns :
      (options : RequestOptions) (w : World) (state : Option TaskState) (n : ℕ)
      → IsWellFormed w.broker
      → IsAnswering w
      → Returns (
          (submit k req state >> on_error (execute k req options) (report_failure k req))
            (record w { accepts = n }))
  unfolding write
  submitted-Returns options w none zero formed h = tt
  submitted-Returns options w none (suc n) formed h = executed-Returns options _ formed (record {
    opening = h.opening;
    spared = h.spared;
    undisturbed = h.undisturbed;
    replies = h.replies;
    writes = h.writes;
  })
  submitted-Returns options w (some state) n formed h = executed-Returns options _ formed (record {
    opening = h.opening;
    spared = h.spared;
    undisturbed = h.undisturbed;
    replies = h.replies;
    writes = h.writes;
  })

  stream-Returns :
      (w : World) → IsWellFormed w.broker → IsAnswering w → Returns (execute_stream k req w)
  unfolding execute_stream
  stream-Returns w formed h = elim (Result-cases (request_options_from_config w.broker.config)) [
    | inl (options, q) ↦ rw q (submitted-Returns options w req.stored w.accepts formed h)
    | inr (inl (e, q)) ↦ rw q tt
    | inr (inr q) ↦ absurd (NoPanic-ne _ (request_options_from_config-NoPanic w.broker.config) q)
  ]

-- In every broker that the program can reach, `executeStream` does not panic, whatever the request and
-- the messages of the app-server are and wherever the consumer of the events stops, provided that what
-- other requests do to the broker takes no client away while it waits for a message or for the end of
-- its `turn/start` request or of its response to Codex, that they do nothing to the broker while a
-- session is opened or the consumer takes an event, that the processes and the JSON package answer with values or errors, that a
-- decoded item can be encoded, and that a call of `yield` returns.
pub execute_stream-ne_panic :
    (k : Codec) (req : ExecutorContext) (cfg : Config) (start : Broker) (w : World)
    → new_broker cfg ≡ ok start
    → Reach start w.broker
    → IsTotal k
    → IsAnswering w
    → ¬ ((execute_stream k req w).0 ≡ panic)
execute_stream-ne_panic k req cfg start w fresh reached total answers =
    returned-ne_panic (execute_stream k req w)
      (stream-Returns k total req w (Reach-IsWellFormed cfg start w.broker fresh reached) answers)
