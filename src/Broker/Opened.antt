-- ===== src/Broker/Opened.antt =====
-- `startSession` and `forkSession`: what the session is that they return.
use codex_a2a.Base.{ℕ, String, ◌≡◌, refl, Option, none, some, Error, Result, ok, err, panic}
use codex_a2a.Config.{RequestOptions}
use codex_a2a.Wire.{RawMessage, Sent, decode_json}
use codex_a2a.Broker.Sessions.{
  TaskSession, Broker, Answers, opened, replied, launch_and_request, start_session, fork_session,
}
use codex_a2a.Broker.Tasks.{open_session}

-- A session of this task and context, without children, that holds this client.
pub record IsOpened (t c : String) (client : ℕ) (s : TaskSession) : Type 0 where
  pub same_task : s.task_id ≡ t
  pub same_context : s.context_id ≡ c
  pub childless : s.child_count ≡ 0
  pub holds : s.client ≡ some client

module _ (P : TaskSession → Type 0) where
  -- What holds of the session that is returned, if one is.
  abbrev IfOpened : Result Error TaskSession × Broker → Type 0
  IfOpened (ok s, b) = P s
  IfOpened (err e, b) = Unit {0}
  IfOpened (panic, b) = Unit {0}

  opened-IfOpened :
      (c : ℕ) (label : String) (make : String → TaskSession) (b : Broker) (x : Result Error String)
      → ((thread : String) → P (make thread))
      → IfOpened (opened c label make b x)
  opened-IfOpened c label make b (ok thread) h = h thread
  opened-IfOpened c label make b (err e) h = tt
  opened-IfOpened c label make b panic h = tt

  replied-IfOpened :
      (a : Answers) (c : ℕ) (label : String) (make : String → TaskSession) (b : Broker)
      (x : Result Error RawMessage)
      → ((thread : String) → P (make thread))
      → IfOpened (replied a c label make b x)
  replied-IfOpened a c label make b (ok raw) h =
      opened-IfOpened c label make b (decode_json a.unmarshal_thread "" raw) h
  replied-IfOpened a c label make b (err e) h = tt
  replied-IfOpened a c label make b panic h = tt

  launched-IfOpened :
      (a : Answers) (message : Sent) (label : String) (make : ℕ → String → TaskSession) (b : Broker)
      (x : Result Error ℕ)
      → ((c : ℕ) (thread : String) → P (make c thread))
      → IfOpened (launch_and_request a message label make b x)
  launched-IfOpened a message label make b (ok c) h =
      replied-IfOpened a c label (make c) _ a.reply (h c)
  launched-IfOpened a message label make b (err e) h = tt
  launched-IfOpened a message label make b panic h = tt

  opened_with :
      (x : Result Error TaskSession × Broker) (s : TaskSession) (b : Broker)
      → IfOpened x
      → x ≡ (ok s, b)
      → P s
  opened_with x s b h e = rw e at h

abbrev HoldsOpened : String → String → TaskSession → Type 0
HoldsOpened t c s = (client : ℕ) × IsOpened t c client s

open_session_holds :
    (b : Broker) (t c : String) (o : RequestOptions) (a : Answers) (parent : Option ℕ)
    → IfOpened (HoldsOpened t c) (open_session b t c o a parent)
unfolding start_session fork_session
open_session_holds b t c o a none =
    launched-IfOpened (HoldsOpened t c) a _ _ _ b a.launched λ client thread.
      (client, record { same_task = refl; same_context = refl; childless = refl; holds = refl })
open_session_holds b t c o a (some p) =
    launched-IfOpened (HoldsOpened t c) a _ _ _ b a.launched λ client thread.
      (client, record { same_task = refl; same_context = refl; childless = refl; holds = refl })

-- A session that is opened for a task of a context is one of that task and context, has no children, and
-- holds the client of its process.
pub open_session-IsOpened :
    (b : Broker) (t c : String) (o : RequestOptions) (a : Answers) (parent : Option ℕ)
    (s : TaskSession) (b' : Broker)
    → open_session b t c o a parent ≡ (ok s, b')
    → (client : ℕ) × IsOpened t c client s
open_session-IsOpened b t c o a parent s b' e =
    opened_with (HoldsOpened t c) (open_session b t c o a parent) s b'
      (open_session_holds b t c o a parent) e
