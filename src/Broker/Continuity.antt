-- ===== src/Broker/Continuity.antt =====
-- A context that has tasks is always continued: no new task of it starts an unrelated thread.
use mathlib.Core.List.{Perm, filter_map}
use codex_a2a.Base.{
  ℕ, String, ◌≡◌, ◌≢◌, refl, ◌∙◌, ◌⊎◌, inl, inr, ap, subst, eqb, Bool-cases, Option, none, some,
  List, [], ◌∷◌, arith, ==_refl, ok,
}
use codex_a2a.Base.Maps.{Map, lookup}
use codex_a2a.Config.{Config}
use codex_a2a.Broker.Sessions.{Broker, new_broker, resolve_base_session, resolve_tasks}
use codex_a2a.Broker.Branching.{
  leaves, resolve_base_session-iff_leaf, resolve_base_session-iff_IsReference,
}
use codex_a2a.Broker.Forest.Links.{IsForest, IsOrdered, lookup_tail}
use codex_a2a.Broker.Invariant.{tasks_in}
use codex_a2a.Broker.Invariant.Reach.{Reach, Reach-IsWellFormed}

-- The newest session of a context has no children.
leaves-ne-nil :
    (b : Broker) (c t : String) (r : ℕ) (es : Map ℕ)
    → IsForest b.next_session b.session c ((t, r) ∷ es)
    → leaves b ((t, r) ∷ es) ≢ []
unfolding lookup filter_map
leaves-ne-nil b c t r es f none_left =
    let count = f.counted t r (ground (arith, ==_refl t)) ∙ f.ordered.1 in ground arith

no_leaf_of_none :
    (order : Map ℕ → Map ℕ) (b : Broker) (c : String) (es : Map ℕ)
    → tasks_in b c ≡ es
    → IsForest b.next_session b.session c es
    → Perm (order es) es
    → resolve_base_session order b c [] ≡ ok none
    → es ≡ []
no_leaf_of_none order b c [] tasks f visits h = refl
no_leaf_of_none order b c ((t, r) ∷ es) tasks f visits h = absurd (
    leaves-ne-nil b c t r es f
      ((resolve_base_session-iff_leaf order b c (t, r) es none tasks visits).0 h).1)

-- A leaf stands in the map.
leaves-lookup :
    (b : Broker) (es : Map ℕ) (r : ℕ) (rs : List ℕ)
    → IsOrdered b.session es
    → leaves b es ≡ r ∷ rs
    → (t : String) × (lookup t es ≡ some r)
unfolding filter_map
leaves-lookup b [] r rs ordered h = absurd (ground (arith, h))
leaves-lookup b ((t, q) ∷ es) r rs ordered h = elim (Bool-cases (eqb (b.session q).child_count 0)) [
  | inl leaf ↦ (t, unfold lookup in ground (arith, leaf, h, ==_refl t))
  | inr forked ↦
      (let (u, there) = leaves-lookup b es r rs ordered.2 (ground (arith, forked, h)) in
        (u, lookup_tail u t q r es ordered.0 there))
]

-- What a new task continues: nothing, in a context without tasks and without a reference; or a session of
-- the context, with its own task, which is the one reference if there is any.
abbrev pub IsBase : Broker → String → List String → Option ℕ → Type 0
IsBase b c references none = (tasks_in b c ≡ []) × (references ≡ [])
IsBase b c references (some r) =
    (t : String) × (lookup t (tasks_in b c) ≡ some r)
    × ((b.session r).context_id ≡ c)
    × ((b.session r).task_id ≡ t)
    × ((references ≡ []) ⊎ (references ≡ t ∷ []))

module _ (b : Broker) (c : String) (f : IsForest b.next_session b.session c (tasks_in b c)) where
  -- A session of the context.
  found_IsBase :
      (references : List String) (t : String) (r : ℕ)
      → lookup t (tasks_in b c) ≡ some r
      → (references ≡ []) ⊎ (references ≡ t ∷ [])
      → IsBase b c references (some r)
  found_IsBase references t r there only =
      (t, there, (f.entry t r there).same_context, (f.entry t r there).same_task, only)

  leaf_IsBase :
      (order : Map ℕ → Map ℕ) (es : Map ℕ) (r : ℕ)
      → tasks_in b c ≡ es
      → Perm (order es) es
      → resolve_base_session order b c [] ≡ ok (some r)
      → IsBase b c [] (some r)
  unfolding resolve_base_session resolve_tasks
  leaf_IsBase order [] r tasks visits h = cc (rw tasks at h)
  leaf_IsBase order (e ∷ es) r tasks visits h =
      let chosen = (resolve_base_session-iff_leaf order b c e es (some r) tasks visits).0 h in
      let (t, there) =
        leaves-lookup b (e ∷ es) r [] (subst (IsOrdered b.session) tasks f.ordered) chosen.1 in
      found_IsBase [] t r (ap (lookup t) tasks ∙ there) (inl refl)

-- In every broker that the program can reach, where a new task is not refused, it starts a thread of its
-- own only where its context has no task and the request names no reference, and otherwise it is forked
-- from a session of that context: that of the one reference, if the request names one.
pub resolve_base_session-IsBase :
    (cfg : Config) (start b : Broker) (order : Map ℕ → Map ℕ) (c : String)
    (references : List String) (found : Option ℕ)
    → new_broker cfg ≡ ok start
    → Reach start b
    → Perm (order (tasks_in b c)) (tasks_in b c)
    → resolve_base_session order b c references ≡ ok found
    → IsBase b c references found
resolve_base_session-IsBase cfg start b order c [] none fresh reached visits h = (
  no_leaf_of_none order b c (tasks_in b c) refl
      ((Reach-IsWellFormed cfg start b fresh reached).forest c) visits h,
  refl,
)
resolve_base_session-IsBase cfg start b order c [] (some r) fresh reached visits h =
    leaf_IsBase b c ((Reach-IsWellFormed cfg start b fresh reached).forest c) order (tasks_in b c) r
      refl visits h
resolve_base_session-IsBase cfg start b order c (t ∷ ts) none fresh reached visits h =
    let (r, found, single, there, free) =
      (resolve_base_session-iff_IsReference order b c t ts none).0 h in
    cc found
resolve_base_session-IsBase cfg start b order c (t ∷ ts) (some q) fresh reached visits h =
    let (r, found, single, there, free) =
      (resolve_base_session-iff_IsReference order b c t ts (some q)).0 h in
    let same : q ≡ r = ground (arith, found) in
    rw same (
      found_IsBase b c ((Reach-IsWellFormed cfg start b fresh reached).forest c) (t ∷ ts) t r there
        (inr (ap (◌∷◌ t) single)))
