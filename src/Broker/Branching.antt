-- ===== src/Broker/Branching.antt =====
-- `resolveBaseSession`: which session a new task of a context continues.
use mathlib.Core.List.{filter_map, Perm, perm-replicate}
use native.Mathlib.Nat.{ℕ_set}
use mathlib.Core.List.Perm
use codex_a2a.Base.{
  ℕ, String, ◌≡◌, refl, ◌↔◌, false, Option, none, some, List, [], ◌∷◌, ok, eqb, arith,
  if◌then◌else◌,
}
use codex_a2a.Base.Maps.{Map, lookup}
use codex_a2a.Broker.Sessions.{
  Broker, task_blocks, find_leaf, referenced, resolve_tasks, resolve_base_session, context_tasks,
}

abbrev pub prepend : Option ℕ → List ℕ → List ℕ
prepend none rs = rs
prepend (some r) rs = r ∷ rs

-- At most one element has one order.
short-perm : (found : Option ℕ) {l : List ℕ} → Perm l (prepend found []) → l ≡ prepend found []
short-perm none p = Perm.eq-nil p
short-perm (some r) p = (perm-replicate ℕ_set 1 r).0 p

module _ (b : Broker) where
  -- The session of an entry, if no other session was forked from it.
  abbrev leaf_of : String × ℕ → Option ℕ
  leaf_of (t, r) = if eqb (b.session r).child_count 0 then some r else none

  -- The same, if its task is running or waits for an answer.
  abbrev active_leaf_of : String × ℕ → Option ℕ
  active_leaf_of (t, r) =
      if eqb (b.session r).child_count 0
      then (if task_blocks b (b.session r).task_id then some r else none)
      else none

  abbrev pub leaves : Map ℕ → List ℕ
  leaves es = filter_map leaf_of es

  abbrev pub active_leaves : Map ℕ → List ℕ
  active_leaves es = filter_map active_leaf_of es

  find_leaf-leaves :
      (c : String) (es : Map ℕ) (leaf found : Option ℕ)
      → find_leaf b c es leaf ≡ ok found
      → (active_leaves es ≡ []) × (prepend leaf (leaves es) ≡ prepend found [])
  unfolding find_leaf filter_map
  find_leaf-leaves c [] leaf found h = ground arith
  find_leaf-leaves c ((t, r) ∷ es) leaf found h =
      ground (arith, find_leaf-leaves c es leaf found, find_leaf-leaves c es (some r) found)

  leaves-find_leaf :
      (c : String) (es : Map ℕ) (leaf found : Option ℕ)
      → active_leaves es ≡ []
      → prepend leaf (leaves es) ≡ prepend found []
      → find_leaf b c es leaf ≡ ok found
  unfolding find_leaf filter_map
  leaves-find_leaf c [] leaf found p q = ground arith
  leaves-find_leaf c ((t, r) ∷ es) leaf found p q =
      ground (arith, leaves-find_leaf c es leaf found, leaves-find_leaf c es (some r) found)

  leaves-perm : {es fs : Map ℕ} → Perm es fs → Perm (leaves es) (leaves fs)
  leaves-perm p = Perm.filter_map leaf_of p

  active_leaves-perm : {es fs : Map ℕ} → Perm es fs → active_leaves fs ≡ [] → active_leaves es ≡ []
  active_leaves-perm {es} {fs} p none_active =
      Perm.eq-nil (rw none_active at (Perm.filter_map active_leaf_of p))

-- A new task with no reference, in a context that has tasks, continues the session `r` exactly when
-- `r` is the only session that no other was forked from and its task neither runs nor waits for an
-- answer; no session is chosen exactly when every session has been forked from. In every other case
-- the request is refused. The order in which the map is visited makes no difference.
pub resolve_base_session-iff_leaf :
    (order : Map ℕ → Map ℕ) (b : Broker) (c : String) (e : String × ℕ) (es : Map ℕ)
    (found : Option ℕ)
    → context_tasks (lookup c b.contexts) ≡ e ∷ es
    → Perm (order (e ∷ es)) (e ∷ es)
    → (resolve_base_session order b c [] ≡ ok found)
      ↔ ((active_leaves b (e ∷ es) ≡ []) × (leaves b (e ∷ es) ≡ prepend found []))
unfolding resolve_base_session resolve_tasks
resolve_base_session-iff_leaf order b c e es found tasks visits = rw tasks (
  λ h.
      let (p, q) = find_leaf-leaves b c (order (e ∷ es)) none found h in
      (
        active_leaves-perm b (Perm.symm visits) p,
        short-perm found (rw q at (leaves-perm b (Perm.symm visits))),
      ),
  λ h.
      leaves-find_leaf b c (order (e ∷ es)) none found (active_leaves-perm b visits h.0)
        (short-perm found (rw h.1 at (leaves-perm b visits))),
)

-- What an accepted reference has to satisfy.
abbrev pub IsReference : Broker → Map ℕ → String → List String → Option ℕ → Type 0
IsReference b es t ts found =
    (r : ℕ) × (found ≡ some r) × (ts ≡ []) × (lookup t es ≡ some r) × (task_blocks b t ≡ false)

referenced-IsReference :
    (b : Broker) (c t : String) (es : Map ℕ) (o found : Option ℕ)
    → lookup t es ≡ o
    → referenced b c t o ≡ ok found
    → IsReference b es t [] found
unfolding referenced
referenced-IsReference b c t es none found e h = cc
referenced-IsReference b c t es (some r) found e h = (r, ground arith, refl, e, ground arith)

resolve_tasks-IsReference :
    (order : Map ℕ → Map ℕ) (b : Broker) (c t : String) (es : Map ℕ) (ts : List String)
    (found : Option ℕ)
    → resolve_tasks order b c es (t ∷ ts) ≡ ok found
    → IsReference b es t ts found
unfolding resolve_tasks
resolve_tasks-IsReference order b c t [] ts found h = cc
resolve_tasks-IsReference order b c t (e ∷ es) [] found h =
    referenced-IsReference b c t (e ∷ es) (lookup t (e ∷ es)) found refl h
resolve_tasks-IsReference order b c t (e ∷ es) (u ∷ ts) found h = cc

IsReference-resolve_tasks :
    (order : Map ℕ → Map ℕ) (b : Broker) (c t : String) (es : Map ℕ) (ts : List String)
    (found : Option ℕ)
    → IsReference b es t ts found
    → resolve_tasks order b c es (t ∷ ts) ≡ ok found
unfolding resolve_tasks lookup referenced
IsReference-resolve_tasks order b c t [] ts found (r, f, single, there, free) = cc
IsReference-resolve_tasks order b c t (e ∷ es) ts found (r, f, single, there, free) =
    rw (single, f) (rw (there, free))

-- A request with references is accepted exactly when it gives one reference, which names a session
-- of the same context whose task neither runs nor waits for an answer; that session is continued.
pub resolve_base_session-iff_IsReference :
    (order : Map ℕ → Map ℕ) (b : Broker) (c t : String) (ts : List String) (found : Option ℕ)
    → (resolve_base_session order b c (t ∷ ts) ≡ ok found)
      ↔ IsReference b (context_tasks (lookup c b.contexts)) t ts found
unfolding resolve_base_session
resolve_base_session-iff_IsReference order b c t ts found = (
  resolve_tasks-IsReference order b c t (context_tasks (lookup c b.contexts)) ts found,
  IsReference-resolve_tasks order b c t (context_tasks (lookup c b.contexts)) ts found,
)
