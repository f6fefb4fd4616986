-- ===== src/Broker/Forest/Links.antt =====
-- The invariant of one context, and the lemmas on counting children.
use codex_a2a.Base.{
  ℕ, ◌+◌, ◌≤◌, ◌<◌, String, ◌≡◌, ◌≢◌, refl, sym, ◌∙◌, none, some, [], ◌∷◌, ◌==◌, ==_iff, ==_refl,
  arith, if◌then◌else◌,
}
use codex_a2a.Base.Maps.{Map, lookup}
use codex_a2a.Broker.Sessions.{TaskSession}

-- 1 for a child of `t`, and 0 otherwise.
abbrev pub child_of : String → TaskSession → ℕ
child_of t s = if s.parent_task_id == t then 1 else 0

module _ (h : ℕ → TaskSession) where
  -- How many sessions of the context were forked from `t`.
  unfoldable pub children : String → Map ℕ → ℕ
  children t [] = 0
  children t ((i, r) ∷ es) = child_of t (h r) + children t es

  -- Newer sessions stand before older ones, so none has a child at or behind its place; and each
  -- task has one entry.
  abbrev pub IsOrdered : Map ℕ → Type 0
  IsOrdered [] = Unit {0}
  IsOrdered ((t, r) ∷ es) = (lookup t es ≡ none) × (children t ((t, r) ∷ es) ≡ 0) × IsOrdered es

-- What an entry says of the session that it leads to.
pub record IsEntry (next : ℕ) (c t : String) (r : ℕ) (s : TaskSession) : Type 0 where
  pub named : t ≢ ""
  pub allocated : r < next
  pub same_task : s.task_id ≡ t
  pub same_context : s.context_id ≡ c

pub record IsForest (next : ℕ) (h : ℕ → TaskSession) (c : String) (es : Map ℕ) : Type 0 where
  pub entry : (t : String) (r : ℕ) → lookup t es ≡ some r → IsEntry next c t r (h r)
  pub counted : (t : String) (r : ℕ) → lookup t es ≡ some r → (h r).child_count ≡ children h t es
  pub ordered : IsOrdered h es

-- Two versions of a session that agree on what the forest reads.
pub record SameLinks (s s' : TaskSession) : Type 0 where
  pub task : s'.task_id ≡ s.task_id
  pub context : s'.context_id ≡ s.context_id
  pub parent : s'.parent_task_id ≡ s.parent_task_id
  pub count : s'.child_count ≡ s.child_count

-- All links but the count, and the same client.
pub record SameParent (s s' : TaskSession) : Type 0 where
  pub task : s'.task_id ≡ s.task_id
  pub context : s'.context_id ≡ s.context_id
  pub parent : s'.parent_task_id ≡ s.parent_task_id
  pub client : s'.client ≡ s.client

pub lookup_tail :
    (t i : String) (q r : ℕ) (es : Map ℕ)
    → lookup i es ≡ none
    → lookup t es ≡ some r
    → lookup t ((i, q) ∷ es) ≡ some r
unfolding lookup
lookup_tail t i q r es absent there = ground (arith, ==_iff i t)

module _ (h h' : ℕ → TaskSession) where
  pub children-congr :
      (t : String) (es : Map ℕ)
      → IsOrdered h es
      → ((i : String) (r : ℕ) → lookup i es ≡ some r → (h' r).parent_task_id ≡ (h r).parent_task_id)
      → children h' t es ≡ children h t es
  unfolding children
  children-congr t [] o same = refl
  children-congr t ((i, q) ∷ es) o same =
      let head : (h' q).parent_task_id ≡ (h q).parent_task_id =
        same i q (unfold lookup in rw (==_refl i)) in
      let rest = children-congr t es o.2 (λ j r e. same j r (lookup_tail j i q r es o.0 e)) in
      rw (head, rest)

  pub IsOrdered-congr :
      (es : Map ℕ)
      → IsOrdered h es
      → ((i : String) (r : ℕ) → lookup i es ≡ some r → (h' r).parent_task_id ≡ (h r).parent_task_id)
      → IsOrdered h' es
  IsOrdered-congr [] o same = tt
  IsOrdered-congr ((i, q) ∷ es) o same = (
    o.0,
    children-congr i ((i, q) ∷ es) o same ∙ o.1,
    IsOrdered-congr es o.2 (λ j r e. same j r (lookup_tail j i q r es o.0 e)),
  )

-- The forest does not see a change of the heap that keeps its sessions' links.
pub IsForest-congr :
    (next next' : ℕ) (h h' : ℕ → TaskSession) (c : String) (es : Map ℕ)
    → next ≤ next'
    → IsForest next h c es
    → ((t : String) (r : ℕ) → lookup t es ≡ some r → SameLinks (h r) (h' r))
    → IsForest next' h' c es
IsForest-congr next next' h h' c es le f same =
    let parents = λ (t : String) (r : ℕ) (e : lookup t es ≡ some r). (same t r e).parent in
    record {
      entry = λ t r e.
          let old = f.entry t r e in
          record {
            named = old.named;
            allocated = omega (arith, old.allocated);
            same_task = (same t r e).task ∙ old.same_task;
            same_context = (same t r e).context ∙ old.same_context;
          };
      counted = λ t r e.
          (same t r e).count ∙ f.counted t r e ∙ sym (children-congr h h' t es f.ordered parents);
      ordered = IsOrdered-congr h h' es f.ordered parents;
    }
