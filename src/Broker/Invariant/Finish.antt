-- ===== src/Broker/Invariant/Finish.antt =====
-- Finishing and discarding a task keep the broker well formed.
use codex_a2a.Base.{
  ℕ, String, ◌≡◌, ◌≢◌, refl, ap, ◌∙◌, Bool, true, false, Option, none, some, List, [], ◌∷◌, ◌==◌,
  ==_iff, ==_refl, arith, if◌then◌else◌, Bool-cases, Option-cases, inl, inr,
}
use codex_a2a.Base.Maps.{Map, lookup, remove, lookup-remove, lookup-adjust, lookup-remove_cases}
use codex_a2a.Broker.Sessions.{ContextState, Broker, context_tasks, close_client}
use codex_a2a.Broker.Tasks.{
  drop_parent, drop_session, store_tasks, release_client, finish_task_with_policy, update_session,
}
use codex_a2a.Broker.Forest.Links.{IsForest, IsForest-congr}
use codex_a2a.Broker.Forest.Remove.{remove-IsForest, drop_parent-SameParent}
use codex_a2a.Broker.Invariant.{tasks_in, IsLinked, IsWellFormed, linked_by}

-- `delete(b.tasks, taskID)`
abbrev gone : Broker → String → Broker
gone b t = record b { tasks = remove t b.tasks }

gone-IsWellFormed : (b : Broker) (t : String) → IsWellFormed b → IsWellFormed (gone b t)
gone-IsWellFormed b t w = record {
  forest = w.forest;
  linked = λ i r e.
      let old = w.linked i r (lookup-remove_cases t i r b.tasks e).1 in
      linked_by (gone b t) i r (b.runtime r) old.client refl old.allocated old.same_task
        old.in_context old.holds_client;
}

-- The session without its client, and any processes.
abbrev unheld : Broker → ℕ → List ℕ → Broker
unheld b q ps = record (update_session q (λ s. record s { client = none }) b) { running = ps }

release_client_lem : (b : Broker) (q : ℕ) → (ps : List ℕ) × (release_client q b ≡ unheld b q ps)
unfolding release_client
release_client_lem b q = elim (Option-cases (b.session q).client) [
  | inl empty ↦ (b.running, rw (empty, release_client))
  | inr (c, held) ↦ ((close_client c b).running, rw (held, release_client))
]

module _ (b : Broker) (q : ℕ) (ps : List ℕ) (w : IsWellFormed b) where
  unheld-IsForest : (c : String) → IsForest b.next_session (unheld b q ps).session c (tasks_in b c)
  unheld-IsForest c =
      IsForest-congr b.next_session b.next_session b.session (unheld b q ps).session c
        (tasks_in b c) (omega arith) (w.forest c) λ t r e. ground arith

  unheld-IsWellFormed :
      ((t : String) (r : ℕ) → lookup t b.tasks ≡ some r → (b.runtime r).session ≢ q)
      → IsWellFormed (unheld b q ps)
  unheld-IsWellFormed unused = record {
    forest = unheld-IsForest;
    linked = λ i r e.
        let old = w.linked i r e in
        linked_by (unheld b q ps) i r (b.runtime r) old.client refl old.allocated old.same_task
          old.in_context (ground (arith, unused i r e, old.holds_client));
  }

-- A session whose task is not active can lose its client.
release_client-IsWellFormed :
    (b : Broker) (q : ℕ)
    → IsWellFormed b
    → lookup (b.session q).task_id b.tasks ≡ none
    → IsWellFormed (release_client q b)
release_client-IsWellFormed b q w inactive =
    let (ps, e) = release_client_lem b q in
    rw e (
      unheld-IsWellFormed b q ps w λ t r active same.
        let old = w.linked t r active in
        let session =
          (w.forest (b.runtime r).context_id).entry t (b.runtime r).session old.in_context in
        cc (session.same_task, ap (λ x. (b.session x).task_id) same))

store_tasks-tasks :
    (c d : String) (es : Map ℕ) (m : Map ContextState) (state : ContextState)
    → lookup c m ≡ some state
    → context_tasks (lookup d (store_tasks c es m))
      ≡ (if c == d then es else context_tasks (lookup d m))
store_tasks-tasks c d [] m state e = rw (lookup-remove c d m) (ground (arith, ==_iff c d))
store_tasks-tasks c d (x ∷ es) m state e =
    rw (lookup-adjust c d (λ st. record st { tasks = x ∷ es }) m) (ground (arith, ==_iff c d, e))

context_of_task :
    (t : String) (r : ℕ) (o : Option ContextState)
    → lookup t (context_tasks o) ≡ some r
    → (state : ContextState) × (o ≡ some state)
unfolding lookup
context_of_task t r none e = cc
context_of_task t r (some state) e = (state, refl)

module _ {b : Broker} (w : IsWellFormed b) (c t : String) (r : ℕ)
    (there : lookup t (tasks_in b c) ≡ some r) where
  abbrev dropped : Broker
  dropped = record b {
    session = drop_parent (b.session r).parent_task_id (tasks_in b c) b.session;
    contexts = store_tasks c (remove t (tasks_in b c)) b.contexts;
  }

  dropped-tasks_in :
      (d : String) → tasks_in dropped d ≡ (if c == d then remove t (tasks_in b c) else tasks_in b d)
  dropped-tasks_in d =
      let (state, e) = context_of_task t r (lookup c b.contexts) there in
      store_tasks-tasks c d (remove t (tasks_in b c)) b.contexts state e

  dropped_other :
      (d i : String) (q : ℕ)
      → c ≢ d
      → lookup i (tasks_in b d) ≡ some q
      → dropped.session q ≡ b.session q
  unfolding drop_parent
  dropped_other d i q other e =
      let mine = (w.forest d).entry i q e in
      let p = (b.session r).parent_task_id in
      elim (Option-cases (lookup p (tasks_in b c))) [
        | inl absent ↦ rw (absent, drop_parent) (ground arith)
        | inr (x, found) ↦
            rw (found, drop_parent) (ground (arith, mine, (w.forest c).entry p x found))
      ]

  dropped_other-IsForest :
      (d : String) → c ≢ d → IsForest b.next_session dropped.session d (tasks_in b d)
  dropped_other-IsForest d other =
      IsForest-congr b.next_session b.next_session b.session dropped.session d (tasks_in b d)
        (omega arith) (w.forest d)
        λ i q e.
          let same = dropped_other d i q other e in
          record {
            task = ap (λ x. x.task_id) same;
            context = ap (λ x. x.context_id) same;
            parent = ap (λ x. x.parent_task_id) same;
            count = ap (λ x. x.child_count) same;
          }

  dropped-IsForest : (d : String) → IsForest b.next_session dropped.session d (tasks_in dropped d)
  dropped-IsForest d = rw (dropped-tasks_in d) (elim (Bool-cases (c == d)) [
    | inl same ↦ rw (same, ← (==_iff c d).0 same) (remove-IsForest (w.forest c) t r there)
    | inr other ↦ rw other (dropped_other-IsForest d (λ e. cc (other, (==_iff c d).1 e)))
  ])

  dropped-IsLinked : (i : String) (x : ℕ) → t ≢ i → IsLinked b i x → IsLinked dropped i x
  dropped-IsLinked i x other old =
      let rt = b.runtime x in
      let kept =
        drop_parent-SameParent (b.session r).parent_task_id (tasks_in b c) b.session rt.session in
      linked_by dropped i x rt old.client refl old.allocated old.same_task
        (rw (dropped-tasks_in rt.context_id) (
          ground (
            arith,
            old.in_context,
            other,
            ==_iff t i,
            ==_iff c rt.context_id,
            lookup-remove t i (tasks_in b c),
          )))
        (kept.client ∙ old.holds_client)

  dropped-IsWellFormed : lookup t b.tasks ≡ none → IsWellFormed dropped
  dropped-IsWellFormed inactive = record {
    forest = dropped-IsForest;
    linked = λ i x e. dropped-IsLinked i x (λ same. cc (inactive, e)) (w.linked i x e);
  }

module _ (b : Broker) (c t : String) where
  drop_session-IsWellFormed :
      IsWellFormed b → lookup t b.tasks ≡ none → IsWellFormed (drop_session b c t)
  unfolding drop_session
  drop_session-IsWellFormed w inactive = elim (Option-cases (lookup t (tasks_in b c))) [
    | inl absent ↦ rw (absent, drop_session) w
    | inr (r, there) ↦ rw (there, drop_session) (dropped-IsWellFormed w c t r there inactive)
  ]

  tasks-drop_session : (drop_session b c t).tasks ≡ b.tasks
  unfolding drop_session
  tasks-drop_session = ground arith

  drop_session_task_id : (q : ℕ) → ((drop_session b c t).session q).task_id ≡ (b.session q).task_id
  unfolding drop_session
  drop_session_task_id q = ground arith

module _ (b : Broker) (t : String) (w : IsWellFormed b) where
  gone_absent : lookup t (gone b t).tasks ≡ none
  gone_absent = simp (lookup-remove, ==_refl)

  linked_task_id :
      (r : ℕ) → lookup t b.tasks ≡ some r → (b.session (b.runtime r).session).task_id ≡ t
  linked_task_id r e =
      let old = w.linked t r e in
      let session =
        (w.forest (b.runtime r).context_id).entry t (b.runtime r).session old.in_context in
      session.same_task

  finish_known :
      (preserve : Bool) (r : ℕ)
      → lookup t b.tasks ≡ some r
      → IsWellFormed (finish_task_with_policy b t preserve)
  unfolding finish_task_with_policy
  finish_known true r e =
      rw (e, finish_task_with_policy)
        (release_client-IsWellFormed (gone b t) (b.runtime r).session (gone-IsWellFormed b t w)
          (rw (linked_task_id r e) gone_absent))
  finish_known false r e =
      let kept = drop_session (gone b t) (b.runtime r).context_id t in
      rw (e, finish_task_with_policy)
        (release_client-IsWellFormed kept (b.runtime r).session
          (drop_session-IsWellFormed (gone b t) (b.runtime r).context_id t (gone-IsWellFormed b t w)
            gone_absent)
          (rw
            (
              tasks-drop_session (gone b t) (b.runtime r).context_id t,
              drop_session_task_id (gone b t) (b.runtime r).context_id t (b.runtime r).session,
              linked_task_id r e,
            )
            gone_absent))

-- Finishing or discarding a task keeps the broker well formed.
pub finish_task_with_policy-IsWellFormed :
    (b : Broker) (t : String) (preserve : Bool)
    → IsWellFormed b
    → IsWellFormed (finish_task_with_policy b t preserve)
unfolding finish_task_with_policy
finish_task_with_policy-IsWellFormed b t preserve w = elim (Option-cases (lookup t b.tasks)) [
  | inl absent ↦ rw (absent, finish_task_with_policy) w
  | inr (r, e) ↦ finish_known b t w preserve r e
]
