-- ===== src/Broker/Lifecycle.antt =====
-- Starting and finishing a task: what a failure leaves, and what stays of a finished task.
use codex_a2a.Base.{
  ℕ, String, ◌≡◌, refl, Bool, true, none, some, List, ◌∷◌, ==_refl, arith, if◌then◌else◌,
  Result-cases, Option-cases, inl, inr, ok, err, Error,
}
use codex_a2a.Base.Maps.{Map, lookup, remove, lookup-remove}
use codex_a2a.Config.{RequestOptions}
use codex_a2a.Broker.Sessions.{
  TaskSession, Broker, Answers, start_session, fork_session, resolve_base_session, without,
}
use codex_a2a.Broker.Tasks.{
  finish_task, start_task, finish_task_with_policy, release_client, drop_session,
}

-- The broker without what was written to its processes.
pub record SameState (b d : Broker) : Type 0 where
  pub contexts : d.contexts ≡ b.contexts
  pub tasks : d.tasks ≡ b.tasks
  pub session : d.session ≡ b.session
  pub runtime : d.runtime ≡ b.runtime
  pub running : d.running ≡ b.running

-- A handle that is not there has nothing to close.
without_absent : (c : ℕ) (ps : List ℕ) → without c ps ≡ ps → without c (c ∷ ps) ≡ ps
without_absent c ps h = ground (arith, h)

start_session-SameState :
    (b : Broker) (t c : String) (o : RequestOptions) (a : Answers) (e : Error)
    → ((k : ℕ) → a.launched ≡ ok k → without k b.running ≡ b.running)
    → (start_session b t c o a).0 ≡ err e
    → SameState b (start_session b t c o a).1
unfolding start_session
start_session-SameState b t c o a e new h = elim (Result-cases a.launched) [
  | inl (k, launched) ↦ rw (launched, start_session) (ground (arith, new k launched))
  | inr (inl (x, failed)) ↦ ground arith
  | inr (inr failed) ↦ ground arith
]

fork_session-SameState :
    (b : Broker) (t c : String) (parent : TaskSession) (o : RequestOptions) (a : Answers)
    (e : Error)
    → ((k : ℕ) → a.launched ≡ ok k → without k b.running ≡ b.running)
    → (fork_session b t c parent o a).0 ≡ err e
    → SameState b (fork_session b t c parent o a).1
unfolding fork_session
fork_session-SameState b t c parent o a e new h = elim (Result-cases a.launched) [
  | inl (k, launched) ↦ rw (launched, fork_session) (ground (arith, new k launched))
  | inr (inl (x, failed)) ↦ ground arith
  | inr (inr failed) ↦ ground arith
]

-- A task that fails to start leaves the broker's maps, sessions and runtimes as they were, and every
-- process that was launched for it has been closed again.
pub start_task-err :
    (order : Map ℕ → Map ℕ) (b : Broker) (t c : String) (o : RequestOptions)
    (references : List String) (a : Answers) (now : ℕ) (e : Error)
    → ((k : ℕ) → a.launched ≡ ok k → without k b.running ≡ b.running)
    → (start_task order b t c o references a now).0 ≡ err e
    → SameState b (start_task order b t c o references a now).1
unfolding start_task
start_task-err order b t c o references a now e new h =
    elim (Result-cases (resolve_base_session order b c references)) [
      | inl (none, none_found) ↦
          rw (none_found, start_task) (ground (arith, start_session-SameState b t c o a e new))
      | inl (some p, found) ↦
          rw (found, start_task)
            (ground (arith, fork_session-SameState b t c (b.session p) o a e new))
      | inr (inl (x, refused)) ↦
          rw (refused, start_task)
            (record {
              contexts = refl;
              tasks = refl;
              session = refl;
              runtime = refl;
              running = refl;
            })
      | inr (inr panicked) ↦
          rw (panicked, start_task)
            (record {
              contexts = refl;
              tasks = refl;
              session = refl;
              runtime = refl;
              running = refl;
            })
    ]

pub release_client_lem :
    (b : Broker) (q : ℕ)
    → ((release_client q b).tasks ≡ b.tasks)
      × ((release_client q b).contexts ≡ b.contexts)
      × (((release_client q b).session q).client ≡ none)
unfolding release_client
release_client_lem b q = ground arith

finish_inactive :
    (b : Broker) (t : String) (preserve : Bool)
    → lookup t b.tasks ≡ none
    → finish_task_with_policy b t preserve ≡ b
unfolding finish_task_with_policy
finish_inactive b t preserve inactive = rw (inactive, finish_task_with_policy)

pub tasks-drop_session : (b : Broker) (c t : String) → (drop_session b c t).tasks ≡ b.tasks
unfolding drop_session
tasks-drop_session b c t = ground arith

-- What finishing an active task leaves.
record Finished (b d : Broker) (t : String) (r : ℕ) (preserve : Bool) : Type 0 where
  inactive : lookup t d.tasks ≡ none
  released : (d.session (b.runtime r).session).client ≡ none
  kept : preserve ≡ true → d.contexts ≡ b.contexts

finish-Finished :
    (b : Broker) (t : String) (r : ℕ) (preserve : Bool)
    → lookup t b.tasks ≡ some r
    → Finished b (finish_task_with_policy b t preserve) t r preserve
unfolding finish_task_with_policy
finish-Finished b t r preserve active =
    let gone = record b { tasks = remove t b.tasks } in
    let kept = if preserve then gone else drop_session gone (b.runtime r).context_id t in
    let absent : lookup t (remove t b.tasks) ≡ none = simp (lookup-remove, ==_refl) in
    let (tasks, contexts, client) = release_client_lem kept (b.runtime r).session in
    rw (active, finish_task_with_policy)
      (record {
        inactive =
            rw tasks (ground (arith, absent, tasks-drop_session gone (b.runtime r).context_id t));
        released = client;
        kept = λ p. rw contexts (rw p);
      })

-- After a task was finished or discarded it is not active and its session holds no client; doing
-- it again, with either policy, changes nothing. A finished task's context stays as it was, so that
-- later tasks can be forked from its session.
pub finish_task_with_policy_lem :
    (b : Broker) (t : String) (r : ℕ) (preserve again : Bool)
    → lookup t b.tasks ≡ some r
    → let d = finish_task_with_policy b t preserve in
      (lookup t d.tasks ≡ none)
      × ((d.session (b.runtime r).session).client ≡ none)
      × (finish_task_with_policy d t again ≡ d)
      × ((finish_task_with_policy b t true).contexts ≡ b.contexts)
finish_task_with_policy_lem b t r preserve again active =
    let f = finish-Finished b t r preserve active in
    (
      f.inactive,
      f.released,
      finish_inactive (finish_task_with_policy b t preserve) t again f.inactive,
      (finish-Finished b t r true active).kept refl,
    )

pub finish_task-inactive : (t : String) (b : Broker) → lookup t (finish_task t b).tasks ≡ none
unfolding finish_task
finish_task-inactive t b = elim (Option-cases (lookup t b.tasks)) [
  | inl absent ↦ rw (finish_inactive b t true absent) absent
  | inr (r, active) ↦ (finish-Finished b t r true active).inactive
]
