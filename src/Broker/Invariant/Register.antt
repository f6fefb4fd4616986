-- ===== src/Broker/Invariant/Register.antt =====
-- A new task keeps the broker well formed, also where its parent left the context meanwhile.
use codex_a2a.Base.{
  ℕ, suc, ◌<◌, String, ◌≡◌, ◌≢◌, refl, ap, ◌∙◌, false, some, [], ◌==◌, ==_iff, ==_refl, arith,
  if◌then◌else◌, Bool-cases, Option-cases, inl, inr,
}
use codex_a2a.Base.Maps.{
  Map, lookup, insert, adjust, lookup-insert, lookup-adjust, lookup-insert_cases,
}
use codex_a2a.Runtime.{new_task_runtime}
use codex_a2a.Broker.Sessions.{TaskSession, ContextState, Broker, update, context_tasks}
use codex_a2a.Broker.Tasks.{bump_parent, register, ensure_context}
use codex_a2a.Broker.Forest.Links.{IsForest, SameParent, IsForest-congr}
use codex_a2a.Broker.Forest.Insert.{
  IsFresh, insert-IsForest, bump_parent-new, bump_parent-SameParent,
}
use codex_a2a.Broker.Invariant.{tasks_in, IsLinked, IsWellFormed, linked_by}

ensure_context-tasks :
    (c d : String) (m : Map ContextState)
    → context_tasks (lookup d (ensure_context c m)) ≡ context_tasks (lookup d m)
unfolding ensure_context
ensure_context-tasks c d m = elim (Option-cases (lookup c m)) [
  | inl absent ↦
      rw (absent, ensure_context) (rw (lookup-insert c d _ m) (ground (arith, absent, ==_iff c d)))
  | inr (state, there) ↦ rw (there, ensure_context)
]

ensure_context-some :
    (c : String) (m : Map ContextState)
    → (state : ContextState) × (lookup c (ensure_context c m) ≡ some state)
unfolding ensure_context
ensure_context-some c m = elim (Option-cases (lookup c m)) [
  | inl absent ↦
      rw (absent, ensure_context)
        (record { context_id = c; tasks = [] }, simp (lookup-insert, ==_refl))
  | inr (state, there) ↦ rw (there, ensure_context) (state, there)
]

adjust-tasks :
    (c d t : String) (r : ℕ) (m : Map ContextState) (state : ContextState)
    → lookup c m ≡ some state
    → context_tasks (lookup d (adjust c (λ st. record st { tasks = insert t r st.tasks }) m))
      ≡ (if c == d then insert t r (context_tasks (lookup c m)) else context_tasks (lookup d m))
adjust-tasks c d t r m state e =
    rw (lookup-adjust c d (λ st. record st { tasks = insert t r st.tasks }) m)
      (ground (arith, ==_iff c d, e))

module _ (b : Broker) (t c : String) (s : TaskSession) (now : ℕ) where
  registered : Broker
  registered = (register b t c s now).1

  register-tasks_in :
      (d : String)
      → tasks_in registered d
        ≡ (if c == d then insert t b.next_session (tasks_in b c) else tasks_in b d)
  unfolding registered register
  register-tasks_in d =
      let (state, e) = ensure_context-some c b.contexts in
      adjust-tasks c d t b.next_session (ensure_context c b.contexts) state e
      ∙ rw (ensure_context-tasks c c b.contexts, ensure_context-tasks c d b.contexts)

  register-session :
      registered.session
      ≡ bump_parent s.parent_task_id (tasks_in b c) (update b.session b.next_session s)
  unfolding registered register
  register-session = rw (ensure_context-tasks c c b.contexts)

module _ {b : Broker} (w : IsWellFormed b) (t c : String) (s : TaskSession) where
  abbrev registered_heap : ℕ → TaskSession
  registered_heap = bump_parent s.parent_task_id (tasks_in b c) (update b.session b.next_session s)

  -- A session of another context is left as it was.
  registered_heap_other :
      (d i : String) (r : ℕ)
      → c ≢ d
      → lookup i (tasks_in b d) ≡ some r
      → registered_heap r ≡ b.session r
  unfolding bump_parent
  registered_heap_other d i r other e =
      let mine = (w.forest d).entry i r e in
      elim (Option-cases (lookup s.parent_task_id (tasks_in b c))) [
        | inl absent ↦ rw (absent, bump_parent) (ground (arith, mine))
        | inr (q, there) ↦
            rw (there, bump_parent)
              (ground (arith, mine, (w.forest c).entry s.parent_task_id q there))
      ]

  -- A session that was there keeps its links but for the count, and its client.
  registered_heap-SameParent :
      (r : ℕ) → r < b.next_session → SameParent (b.session r) (registered_heap r)
  registered_heap-SameParent r old =
      let same =
        bump_parent-SameParent s.parent_task_id (tasks_in b c) (update b.session b.next_session s)
          r in
      let kept : update b.session b.next_session s r ≡ b.session r = ground arith in rw kept at same

  other_context-IsForest :
      (d : String) → c ≢ d → IsForest (suc b.next_session) registered_heap d (tasks_in b d)
  other_context-IsForest d other =
      IsForest-congr b.next_session (suc b.next_session) b.session registered_heap d (tasks_in b d)
        (omega arith) (w.forest d)
        λ i r e.
          let same = registered_heap_other d i r other e in
          record {
            task = ap (λ x. x.task_id) same;
            context = ap (λ x. x.context_id) same;
            parent = ap (λ x. x.parent_task_id) same;
            count = ap (λ x. x.child_count) same;
          }

  module _ (fresh : IsFresh b.session c t (tasks_in b c) s) (now : ℕ) where
    register-IsForest :
        (d : String)
        → IsForest
            (suc b.next_session)
            (registered b t c s now).session
            d
            (tasks_in (registered b t c s now) d)
    register-IsForest d =
        rw (register-session b t c s now, register-tasks_in b t c s now d)
          (elim (Bool-cases (c == d)) [
            | inl same ↦ rw (same, ← (==_iff c d).0 same) (insert-IsForest t s (w.forest c) fresh)
            | inr other ↦ rw other (other_context-IsForest d (λ e. cc (other, (==_iff c d).1 e)))
          ])

    module _ (client : ℕ) (holds : s.client ≡ some client) where
      new_task_in : lookup t (tasks_in (registered b t c s now) c) ≡ some b.next_session
      new_task_in = rw (register-tasks_in b t c s now c) (simp (==_refl, lookup-insert))

      new_client : ((registered b t c s now).session b.next_session).client ≡ some client
      new_client =
          rw (register-session b t c s now) (rw (bump_parent-new t s (w.forest c) fresh) holds)

      new-IsLinked : IsLinked (registered b t c s now) t b.next_runtime
      new-IsLinked =
          linked_by (registered b t c s now) t b.next_runtime
            (new_task_runtime t c b.next_session now) client
            (unfold registered register in ground arith) (unfold registered register in omega arith)
            (unfold new_task_runtime in refl) (unfold new_task_runtime in new_task_in)
            (unfold new_task_runtime in new_client)

      old_task_in :
          (d i : String) (q : ℕ)
          → (t == i) ≡ false
          → lookup i (tasks_in b d) ≡ some q
          → lookup i (tasks_in (registered b t c s now) d) ≡ some q
      old_task_in d i q other e =
          rw (register-tasks_in b t c s now d)
            (ground (arith, ==_iff c d, other, lookup-insert t i b.next_session (tasks_in b c)))

      old_client :
          (q k : ℕ)
          → q < b.next_session
          → (b.session q).client ≡ some k
          → ((registered b t c s now).session q).client ≡ some k
      old_client q k old e =
          rw (register-session b t c s now) ((registered_heap-SameParent q old).client ∙ e)

      old-IsLinked :
          (i : String) (r : ℕ)
          → (t == i) ≡ false
          → IsLinked b i r
          → IsLinked (registered b t c s now) i r
      old-IsLinked i r other old =
          let session =
            (w.forest (b.runtime r).context_id).entry i (b.runtime r).session old.in_context in
          linked_by (registered b t c s now) i r (b.runtime r) old.client
            (unfold registered register in ground (arith, old.allocated))
            (unfold registered register in omega (arith, old.allocated)) old.same_task
            (old_task_in (b.runtime r).context_id i (b.runtime r).session other old.in_context)
            (old_client (b.runtime r).session old.client session.allocated old.holds_client)

      registered-IsLinked :
          (i : String) (r : ℕ)
          → lookup i (insert t b.next_runtime b.tasks) ≡ some r
          → IsLinked (registered b t c s now) i r
      registered-IsLinked i r e = elim (lookup-insert_cases t i b.next_runtime r b.tasks e) [
        | inl (same, place) ↦ rw (same, place) new-IsLinked
        | inr (other, old) ↦ old-IsLinked i r other (w.linked i r old)
      ]

      -- The broker with the new task is well formed.
      registered-IsWellFormed : IsWellFormed (registered b t c s now)
      registered-IsWellFormed = record {
        forest = λ d. unfold registered register in register-IsForest d;
        linked = λ i r e. registered-IsLinked i r (unfold registered register in e);
      }

-- The locked part of `startTask` keeps the broker well formed, whatever happened to the parent since
-- it was chosen: the task has to be new to the broker's context, and the session to hold a client.
pub register-IsWellFormed :
    (b : Broker) (t c : String) (s : TaskSession) (now client : ℕ)
    → IsWellFormed b
    → IsFresh b.session c t (tasks_in b c) s
    → s.client ≡ some client
    → IsWellFormed (register b t c s now).1
unfolding registered
register-IsWellFormed b t c s now client w fresh holds =
    registered-IsWellFormed w t c s fresh now client holds
