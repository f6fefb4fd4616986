-- ===== src/Broker/Forest/Remove.antt =====
-- A session leaves its context, and its parent no longer counts it.
use codex_a2a.Base.{
  ℕ, ◌+◌, ◌-◌, ◌≤◌, String, ◌≡◌, ◌∙◌, some, [], ◌∷◌, ◌==◌, ==_iff, arith, if◌then◌else◌, Bool-cases,
  Option-cases, inl, inr,
}
use codex_a2a.Base.Maps.{Map, lookup, remove, remove_absent, lookup-remove, lookup-remove_cases}
use codex_a2a.Broker.Sessions.{TaskSession}
use codex_a2a.Broker.Tasks.{drop_parent}
use codex_a2a.Broker.Forest.Links.{
  child_of, children, IsOrdered, IsEntry, IsForest, SameParent, children-congr, IsOrdered-congr,
}

module _ (h : ℕ → TaskSession) where
  children-remove_le : (j t : String) (es : Map ℕ) → children h j (remove t es) ≤ children h j es
  unfolding children remove
  children-remove_le j t [] = omega arith
  children-remove_le j t ((i, q) ∷ es) = ground (arith, children-remove_le j t es)

  pub children-remove :
      (j t : String) (r : ℕ) (es : Map ℕ)
      → IsOrdered h es
      → lookup t es ≡ some r
      → children h j es ≡ child_of j (h r) + children h j (remove t es)
  unfolding children remove lookup
  children-remove j t r [] o e = cc
  children-remove j t r ((i, q) ∷ es) o e = elim (Bool-cases (i == t)) [
    | inl same ↦ rw (same, remove_absent t es (rw ((==_iff i t).0 same) at o.0)) (ground arith)
    | inr other ↦ rw other (ground (arith, children-remove j t r es))
  ]

  remove-IsOrdered : (t : String) (es : Map ℕ) → IsOrdered h es → IsOrdered h (remove t es)
  unfolding children remove
  remove-IsOrdered t [] o = tt
  remove-IsOrdered t ((i, q) ∷ es) o =
      ground (arith, remove-IsOrdered t es, lookup-remove t i es, children-remove_le i t es)

pub drop_parent-SameParent :
    (p : String) (es : Map ℕ) (h : ℕ → TaskSession) (r : ℕ)
    → SameParent (h r) (drop_parent p es h r)
unfolding drop_parent
drop_parent-SameParent p es h r = ground arith

module _ {next : ℕ} {h : ℕ → TaskSession} {c : String} {es : Map ℕ} (f : IsForest next h c es) where
  -- A parent in the context counts at least this child.
  counted_child :
      (t i : String) (r q : ℕ)
      → lookup t es ≡ some r
      → lookup i es ≡ some q
      → child_of i (h r) ≤ (h q).child_count
  counted_child t i r q there parent =
      omega (arith, f.counted i q parent, children-remove h i t r es f.ordered there)

  drop_parent-count :
      (p i : String) (q : ℕ)
      → lookup i es ≡ some q
      → (drop_parent p es h q).child_count
        ≡ (if p == i then (h q).child_count - 1 else (h q).child_count)
  unfolding drop_parent
  drop_parent-count p i q e = elim (Option-cases (lookup p es)) [
    | inl absent ↦
        rw (absent, drop_parent) (ground (arith, ==_iff p i, ==_iff p "", (f.entry i q e).named))
    | inr (x, there) ↦
        rw (there, drop_parent)
          (ground (arith, ==_iff p i, ==_iff p "", f.entry i q e, f.entry p x there))
  ]

  module _ (t : String) (r : ℕ) (there : lookup t es ≡ some r) where
    unlinked : ℕ → TaskSession
    unlinked = drop_parent (h r).parent_task_id es h

    children-unlinked :
        (j : String) → children unlinked j (remove t es) ≡ children h j (remove t es)
    unfolding unlinked
    children-unlinked j =
        children-congr h unlinked j (remove t es) (remove-IsOrdered h t es f.ordered)
          λ i q e. (drop_parent-SameParent (h r).parent_task_id es h q).parent

    unlinked-children :
        (j : String) (q : ℕ)
        → lookup j (remove t es) ≡ some q
        → (unlinked q).child_count ≡ children unlinked j (remove t es)
    unfolding unlinked
    unlinked-children j q e =
        let old = (lookup-remove_cases t j q es e).1 in
        rw (drop_parent-count (h r).parent_task_id j q old, children-unlinked j)
          (ground (arith, f.counted j q old, children-remove h j t r es f.ordered there))

    unlinked-IsEntry :
        (j : String) (q : ℕ) → lookup j (remove t es) ≡ some q → IsEntry next c j q (unlinked q)
    unfolding unlinked
    unlinked-IsEntry j q e =
        let old = f.entry j q (lookup-remove_cases t j q es e).1 in
        let same = drop_parent-SameParent (h r).parent_task_id es h q in
        record {
          named = old.named;
          allocated = old.allocated;
          same_task = same.task ∙ old.same_task;
          same_context = same.context ∙ old.same_context;
        }

    -- The forest without the session.
    pub remove-IsForest : IsForest next (drop_parent (h r).parent_task_id es h) c (remove t es)
    unfolding unlinked
    remove-IsForest = record {
      entry = unlinked-IsEntry;
      counted = unlinked-children;
      ordered =
          IsOrdered-congr h unlinked (remove t es) (remove-IsOrdered h t es f.ordered)
            λ i q e. (drop_parent-SameParent (h r).parent_task_id es h q).parent;
    }
