-- ===== src/Broker/Forest/Insert.antt =====
-- A new session enters a context, and its parent counts it.
use codex_a2a.Base.{
  ℕ, suc, ◌+◌, ◌≤◌, String, ◌≡◌, ◌≢◌, sym, ◌∙◌, none, some, ◌∷◌, ◌==◌, ==_iff, ==_ne, arith,
  if◌then◌else◌, Option-cases, inl, inr,
}
use codex_a2a.Base.Maps.{Map, lookup, insert, remove_absent, lookup-insert_cases}
use codex_a2a.Broker.Sessions.{TaskSession, update}
use codex_a2a.Broker.Tasks.{bump_parent}
use codex_a2a.Broker.Forest.Links.{
  child_of, children, IsOrdered, IsEntry, IsForest, SameParent, children-congr, IsOrdered-congr,
  IsForest-congr,
}

pub bump_parent-SameParent :
    (p : String) (es : Map ℕ) (h : ℕ → TaskSession) (r : ℕ)
    → SameParent (h r) (bump_parent p es h r)
unfolding bump_parent
bump_parent-SameParent p es h r = ground arith

module _ {next : ℕ} {h : ℕ → TaskSession} {c : String} {es : Map ℕ} (f : IsForest next h c es) where
  bump_parent-count :
      (p i : String) (r : ℕ)
      → lookup i es ≡ some r
      → (bump_parent p es h r).child_count
        ≡ (if p == i then suc (h r).child_count else (h r).child_count)
  unfolding bump_parent
  bump_parent-count p i r e = elim (Option-cases (lookup p es)) [
    | inl absent ↦
        rw (absent, bump_parent) (ground (arith, ==_iff p i, ==_iff p "", (f.entry i r e).named))
    | inr (q, there) ↦
        rw (there, bump_parent)
          (ground (arith, ==_iff p i, ==_iff p "", f.entry i r e, f.entry p q there))
  ]

  bump_parent_fresh :
      (g : ℕ → TaskSession) (p : String) (r : ℕ) → next ≤ r → bump_parent p es g r ≡ g r
  unfolding bump_parent
  bump_parent_fresh g p r above = elim (Option-cases (lookup p es)) [
    | inl absent ↦ rw (absent, bump_parent) (ground arith)
    | inr (q, there) ↦ rw (there, bump_parent) (ground (arith, (f.entry p q there).allocated))
  ]

-- The heap with the new session.
alloc-IsForest :
    {next : ℕ} {h : ℕ → TaskSession} {c : String} {es : Map ℕ} (s : TaskSession)
    → IsForest next h c es
    → IsForest (suc next) (update h next s) c es
alloc-IsForest {next} {h} {c} {es} s f =
    IsForest-congr next (suc next) h (update h next s) c es (omega arith) f
      λ t r e. ground (arith, (f.entry t r e).allocated)

children-insert :
    (h : ℕ → TaskSession) (j t : String) (r : ℕ) (es : Map ℕ)
    → lookup t es ≡ none
    → children h j (insert t r es) ≡ child_of j (h r) + children h j es
unfolding children insert
children-insert h j t r es absent = rw (remove_absent t es absent)

-- What a session has to be to enter a context: fresh, named by no session as its parent, and
-- without children.
pub record IsFresh (h : ℕ → TaskSession) (c t : String) (es : Map ℕ) (s : TaskSession)
    : Type 0 where
  pub named : t ≢ ""
  pub new : lookup t es ≡ none
  pub unclaimed : children h t es ≡ 0
  pub same_task : s.task_id ≡ t
  pub same_context : s.context_id ≡ c
  pub childless : s.child_count ≡ 0
  pub not_own_parent : s.parent_task_id ≢ t

module _ {next : ℕ} {h : ℕ → TaskSession} {c : String} {es : Map ℕ} (t : String) (s : TaskSession)
    (f : IsForest next h c es) (n : IsFresh h c t es s) where
  allocated : ℕ → TaskSession
  allocated = update h next s

  linked : ℕ → TaskSession
  unfolding allocated
  linked = bump_parent s.parent_task_id es allocated

  children-allocated : (j : String) → children allocated j es ≡ children h j es
  unfolding allocated
  children-allocated j =
      children-congr h allocated j es f.ordered λ i r e. ground (arith, (f.entry i r e).allocated)

  children-linked : (j : String) → children linked j es ≡ children h j es
  unfolding linked
  children-linked j =
      children-congr allocated linked j es (alloc-IsForest s f).ordered
        (λ i r e. (bump_parent-SameParent s.parent_task_id es allocated r).parent)
      ∙ children-allocated j

  pub bump_parent-new : bump_parent s.parent_task_id es (update h next s) next ≡ s
  bump_parent-new =
      bump_parent_fresh f (update h next s) s.parent_task_id next (omega arith) ∙ ground arith

  linked-new : linked next ≡ s
  unfolding linked allocated
  linked-new = bump_parent-new

  linked_children :
      (j : String) → children linked j (insert t next es) ≡ child_of j s + children h j es
  linked_children j = children-insert linked j t next es n.new ∙ rw (linked-new, children-linked j)

  linked-count :
      (j : String) (r : ℕ)
      → lookup j es ≡ some r
      → (linked r).child_count ≡ child_of j s + (h r).child_count
  unfolding linked allocated
  linked-count j r e =
      bump_parent-count (alloc-IsForest s f) s.parent_task_id j r e
      ∙ ground (arith, (f.entry j r e).allocated)

  linked-IsEntry : (j : String) (r : ℕ) → lookup j es ≡ some r → IsEntry (suc next) c j r (linked r)
  unfolding linked
  linked-IsEntry j r e =
      let old = (alloc-IsForest s f).entry j r e in
      let same = bump_parent-SameParent s.parent_task_id es allocated r in
      record {
        named = old.named;
        allocated = old.allocated;
        same_task = same.task ∙ old.same_task;
        same_context = same.context ∙ old.same_context;
      }

  linked-children :
      (j : String) (r : ℕ)
      → lookup j (insert t next es) ≡ some r
      → (linked r).child_count ≡ children linked j (insert t next es)
  linked-children j r e = elim (lookup-insert_cases t j next r es e) [
    | inl (same, place) ↦ rw (
      same,
      place,
      linked-new,
      n.childless,
      linked_children t,
      n.unclaimed,
      ==_ne s.parent_task_id t n.not_own_parent,
    )
    | inr (other, old) ↦ rw (linked-count j r old, linked_children j, f.counted j r old)
  ]

  inserted-IsEntry :
      (j : String) (r : ℕ)
      → lookup j (insert t next es) ≡ some r
      → IsEntry (suc next) c j r (linked r)
  inserted-IsEntry j r e = elim (lookup-insert_cases t j next r es e) [
    | inl (same, place) ↦
        rw (same, place, linked-new)
          (record {
            named = n.named;
            allocated = omega arith;
            same_task = n.same_task;
            same_context = n.same_context;
          })
    | inr (other, old) ↦ linked-IsEntry j r old
  ]

  linked_unclaimed : children linked t (insert t next es) ≡ 0
  linked_unclaimed = linked_children t ∙ rw (n.unclaimed, ==_ne s.parent_task_id t n.not_own_parent)

  linked_unclaimed_front : children linked t ((t, next) ∷ es) ≡ 0
  unfolding children
  linked_unclaimed_front = sym (children-insert linked t t next es n.new) ∙ linked_unclaimed

  linked-IsOrdered_old : IsOrdered linked es
  unfolding linked
  linked-IsOrdered_old =
      IsOrdered-congr allocated linked es (alloc-IsForest s f).ordered
        λ i r e. (bump_parent-SameParent s.parent_task_id es allocated r).parent

  linked-IsOrdered : IsOrdered linked (insert t next es)
  unfolding insert
  linked-IsOrdered =
      rw (remove_absent t es n.new) (n.new, linked_unclaimed_front, linked-IsOrdered_old)

  -- The forest with the new session.
  pub insert-IsForest :
      IsForest (suc next) (bump_parent s.parent_task_id es (update h next s)) c (insert t next es)
  unfolding linked allocated
  insert-IsForest = record {
    entry = inserted-IsEntry;
    counted = linked-children;
    ordered = linked-IsOrdered;
  }
