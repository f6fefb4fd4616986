-- ===== src/Broker/Invariant/Reach.antt =====
-- Every broker that the program can reach is well formed. The steps are the broker's locked
-- sections, so they interleave as the requests of several tasks do: between the choice of a parent
-- and the registration of its child any other step may happen.
use codex_a2a.Base.{
  ℕ, String, ◌≡◌, ◌≢◌, refl, ap, ◌∙◌, Bool, Option, none, List, [], ◌∷◌, arith, ok,
}
use codex_a2a.Base.Maps.{Map, lookup}
use codex_a2a.Config.{Config, RequestOptions}
use codex_a2a.Runtime.{
  TaskRuntime, PendingRequest, set_pending, start_turn, finish_turn_for_next_message, clear_pending,
  append_command_output, append_assistant_text, append_file_change_diff, note_item_started,
  request_cancel,
}
use codex_a2a.Wire.{Sent}
use codex_a2a.Broker.Sessions.{TaskSession, Broker, Answers, new_broker}
use codex_a2a.Broker.Tasks.{
  open_session, register, finish_task_with_policy, update_runtime, close, close_tasks,
  release_client,
}
use codex_a2a.Broker.Forest.Links.{children, SameLinks, IsForest-congr}
use codex_a2a.Broker.Opened.{open_session-IsOpened}
use codex_a2a.Broker.Invariant.{tasks_in, IsWellFormed, linked_by}
use codex_a2a.Broker.Invariant.Register.{register-IsWellFormed}
use codex_a2a.Broker.Invariant.Finish.{finish_task_with_policy-IsWellFormed}

-- The methods of a runtime that change it.
pub data RuntimeCall : Type 0 where
  sets_pending : PendingRequest → RuntimeCall
  starts_turn : String → RuntimeCall
  finishes_turn clears_pending requests_cancel : RuntimeCall
  appends_command appends_assistant appends_diff : (item_id delta : String) → RuntimeCall
  notes_item : (item_id : String) → ℕ → RuntimeCall

unfoldable pub run_call : RuntimeCall → TaskRuntime → TaskRuntime
unfolding set_pending start_turn finish_turn_for_next_message clear_pending request_cancel
    append_command_output append_assistant_text append_file_change_diff note_item_started
run_call (sets_pending p) = set_pending p
run_call (starts_turn t) = start_turn t
run_call finishes_turn = finish_turn_for_next_message
run_call clears_pending = clear_pending
run_call requests_cancel = request_cancel
run_call (appends_command i d) = append_command_output i d
run_call (appends_assistant i d) = append_assistant_text i d
run_call (appends_diff i d) = append_file_change_diff i d
run_call (notes_item i now) = note_item_started i now

-- What is asked of the task id of a new session, in the context that it enters: it is not empty, it
-- stands for no task of the context, no session there names it as its parent, and neither does the new
-- session.
pub record IsNewTask (b : Broker) (t c : String) (s : TaskSession) : Type 0 where
  pub named : t ≢ ""
  pub new : lookup t (tasks_in b c) ≡ none
  pub unclaimed : children b.session t (tasks_in b c) ≡ 0
  pub not_own_parent : s.parent_task_id ≢ t

-- One locked section of the broker, one call of a runtime, or traffic with the processes. A session that
-- is registered was opened before, from any broker that there was.
pub data Step (b : Broker) : Broker → Type 0 where
  registers :
      (t c : String) (s : TaskSession) (now : ℕ) (earlier later : Broker) (o : RequestOptions)
      (a : Answers) (parent : Option ℕ)
      → open_session earlier t c o a parent ≡ (ok s, later)
      → IsNewTask b t c s
      → Step b (register b t c s now).1
  finishes : (t : String) (preserve : Bool) → Step b (finish_task_with_policy b t preserve)
  calls : (r : ℕ) (call : RuntimeCall) → Step b (update_runtime r (run_call call) b)
  talks :
      (running : List ℕ) (sent : List (ℕ × Sent))
      → Step b (record b { running = running; sent = sent })
  closes : Step b (close b)

pub data Reach (b : Broker) : Broker → Type 0 where
  here : Reach b b
  next : {c d : Broker} → Reach b c → Step c d → Reach b d

pub run_call_identity :
    (call : RuntimeCall) (x : TaskRuntime)
    → ((run_call call x).session ≡ x.session)
      × ((run_call call x).task_id ≡ x.task_id)
      × ((run_call call x).context_id ≡ x.context_id)
unfolding run_call
run_call_identity (notes_item i now) x = ground arith
run_call_identity _ x = (refl, refl, refl)

module _ (b : Broker) (q : ℕ) (call : RuntimeCall) where
  abbrev called : Broker
  called = update_runtime q (run_call call) b

  called_identity :
      (r : ℕ)
      → ((called.runtime r).session ≡ (b.runtime r).session)
        × ((called.runtime r).task_id ≡ (b.runtime r).task_id)
        × ((called.runtime r).context_id ≡ (b.runtime r).context_id)
  called_identity r = ground (arith, run_call_identity call (b.runtime q))

  calls-IsWellFormed : IsWellFormed b → IsWellFormed called
  calls-IsWellFormed w = record {
    forest = w.forest;
    linked = λ i r e.
        let old = w.linked i r e in
        let (session, task, context) = called_identity r in
        linked_by called i r (called.runtime r) old.client refl old.allocated (task ∙ old.same_task)
          (rw (context, session) old.in_context) (rw session old.holds_client);
  }

-- What closing leaves of the broker.
record KeepsForest (b d : Broker) : Type 0 where
  contexts : d.contexts ≡ b.contexts
  next : d.next_session ≡ b.next_session
  links : (r : ℕ) → SameLinks (b.session r) (d.session r)

release_client-KeepsForest : (q : ℕ) (b : Broker) → KeepsForest b (release_client q b)
unfolding release_client
release_client-KeepsForest q b = record {
  contexts = ground arith;
  next = ground arith;
  links = λ r. ground arith;
}

KeepsForest-trans : {b d e : Broker} → KeepsForest b d → KeepsForest d e → KeepsForest b e
KeepsForest-trans p q = record {
  contexts = q.contexts ∙ p.contexts;
  next = q.next ∙ p.next;
  links = λ r. record {
    task = (q.links r).task ∙ (p.links r).task;
    context = (q.links r).context ∙ (p.links r).context;
    parent = (q.links r).parent ∙ (p.links r).parent;
    count = (q.links r).count ∙ (p.links r).count;
  };
}

close_tasks-KeepsForest : (es : Map ℕ) (b : Broker) → KeepsForest b (close_tasks es b)
unfolding close_tasks
close_tasks-KeepsForest [] b = record {
  contexts = refl;
  next = refl;
  links = λ r. record { task = refl; context = refl; parent = refl; count = refl };
}
close_tasks-KeepsForest ((t, r) ∷ es) b =
    KeepsForest-trans (release_client-KeepsForest (b.runtime r).session b)
      (close_tasks-KeepsForest es (release_client (b.runtime r).session b))

close-IsWellFormed : (b : Broker) → IsWellFormed b → IsWellFormed (close b)
unfolding close lookup
close-IsWellFormed b w =
    let kept = close_tasks-KeepsForest b.tasks b in
    record {
      forest = λ c.
          rw (kept.contexts, kept.next)
            (IsForest-congr b.next_session b.next_session b.session (close_tasks b.tasks b).session
              c (tasks_in b c) (omega arith) (w.forest c) (λ t r e. kept.links r));
      linked = λ t r e. cc;
    }

pub Step-IsWellFormed : {b d : Broker} → Step b d → IsWellFormed b → IsWellFormed d
Step-IsWellFormed {b} (registers t c s now earlier later o a parent opens fresh) w =
    let (client, made) = open_session-IsOpened earlier t c o a parent s later opens in
    register-IsWellFormed b t c s now client w
      (record {
        named = fresh.named;
        new = fresh.new;
        unclaimed = fresh.unclaimed;
        same_task = made.same_task;
        same_context = made.same_context;
        childless = made.childless;
        not_own_parent = fresh.not_own_parent;
      })
      made.holds
Step-IsWellFormed {b} (finishes t preserve) w = finish_task_with_policy-IsWellFormed b t preserve w
Step-IsWellFormed {b} (calls r call) w = calls-IsWellFormed b r call w
Step-IsWellFormed {b} (talks running sent) w = record {
  forest = w.forest;
  linked = λ i r e.
      let old = w.linked i r e in
      linked_by (record b { running = running; sent = sent }) i r (b.runtime r) old.client refl
        old.allocated old.same_task old.in_context old.holds_client;
}
Step-IsWellFormed {b} closes w = close-IsWellFormed b w

new_broker_empty :
    (cfg : Config) (b : Broker) → new_broker cfg ≡ ok b → (b.contexts ≡ []) × (b.tasks ≡ [])
unfolding new_broker
new_broker_empty cfg b h = ground arith

new_broker-IsWellFormed : (cfg : Config) (b : Broker) → new_broker cfg ≡ ok b → IsWellFormed b
unfolding lookup
new_broker-IsWellFormed cfg b h =
    let (contexts, tasks) = new_broker_empty cfg b h in
    record {
      forest =
          λ c. rw contexts (record { entry = λ t r e. cc; counted = λ t r e. cc; ordered = tt });
      linked = λ t r e. cc (ap (lookup t) tasks);
    }

-- Whatever the requests do and however they interleave, a broker that starts empty stays well
-- formed: in each context `child_count` is the number of sessions forked from a session, every
-- parent is older than its children, and each active task has its session in its context, with a
-- client to talk to. The sessions that are registered are those that `startSession` and `forkSession`
-- return; the id of a new task is asked to be one that is not empty, that its context does not know, neither
-- as a task nor as the parent of one, and that is not the parent of the new session.
pub Reach-IsWellFormed :
    (cfg : Config) (b d : Broker) → new_broker cfg ≡ ok b → Reach b d → IsWellFormed d
Reach-IsWellFormed cfg b d start here = new_broker-IsWellFormed cfg b start
Reach-IsWellFormed cfg b d start (next {c} r step) =
    Step-IsWellFormed step (Reach-IsWellFormed cfg b c start r)
