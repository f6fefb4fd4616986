-- ===== src/TaskStore/Ownership.antt =====
-- internal/service/taskstore.go: a user neither sees nor changes the tasks of another one.
use codex_a2a.Base.{
  ℕ, String, ◌≡◌, ◌≢◌, refl, inl, inr, Option-cases, Bool-cases, false, some, Result, ok, err,
  panic, not, ◌&&◌, eqb, ◌==◌, ==_iff, ==_ne, if-both, arith,
}
use codex_a2a.Base.Maps.{lookup, insert, lookup-insert}
use codex_a2a.TaskStore.Store.{
  Task, StoredTask, StoreError, task_not_found, Store, TaskJson, clone_task, create, create_copy,
  version_missing, update, update_copy, with_copy, get,
}

-- What one user makes of a store by creating and updating tasks, in any order.
pub data WrittenBy (json : TaskJson) (user : String) (s : Store) : Store → Type 0 where
  none_yet : WrittenBy json user s s
  then_creates :
      {s' : Store} (now : ℕ) (task : Task)
      → WrittenBy json user s s'
      → WrittenBy json user s (create json user now task s').1
  then_updates :
      {s' : Store} (now : ℕ) (task : Task) (previous : ℕ)
      → WrittenBy json user s s'
      → WrittenBy json user s (update json user now task previous s').1

module _ (json : TaskJson) (user id : String) (stored : StoredTask)
    (other : stored.user ≢ user) where
  apart : (stored.user == user) ≡ false
  apart = ==_ne stored.user user other

  abbrev KeptAfter : Result StoreError ℕ × Store → Type 0
  KeptAfter (result, s) = lookup id s ≡ some stored

  -- An entry under another id does not matter.
  inserted_kept :
      (t : String) (new : StoredTask) (s : Store)
      → (t == id) ≡ false
      → lookup id s ≡ some stored
      → lookup id (insert t new s) ≡ some stored
  inserted_kept t new s differ found = rw (lookup-insert t id new s, differ) found

  copy_created :
      (now : ℕ) (t : String) (copy : Task) (s : Store)
      → lookup id s ≡ some stored
      → lookup id (create_copy user now t s (lookup t s) copy).1 ≡ some stored
  copy_created now t copy s found = elim (Bool-cases (t == id)) [
    | inl q ↦ (let same : t ≡ id = (==_iff t id).0 q in rw (same, found, apart) found)
    | inr q ↦ elim (Option-cases (lookup t s)) [
      | inl p ↦ rw p (inserted_kept t _ s q found)
      | inr (old, p) ↦ rw p (ground (arith, found))
    ]
  ]

  copy_updated :
      (now previous : ℕ) (t : String) (copy : Task) (s : Store)
      → lookup id s ≡ some stored
      → lookup id (update_copy user now previous t s (lookup t s) copy).1 ≡ some stored
  copy_updated now previous t copy s found = elim (Bool-cases (t == id)) [
    | inl q ↦ (let same : t ≡ id = (==_iff t id).0 q in rw (same, found, apart) found)
    | inr q ↦ elim (Option-cases (lookup t s)) [
      | inl p ↦ rw p found
      | inr (old, p) ↦ rw p (
          if-both KeptAfter (not (old.user == user)) found (
            if-both KeptAfter (not (eqb previous version_missing) && not (eqb old.version previous))
              found (inserted_kept t _ s q found)))
    ]
  ]

  copied_kept :
      (s : Store) (f : Task → Result StoreError ℕ × Store) (x : Result StoreError Task)
      → lookup id s ≡ some stored
      → ((copy : Task) → lookup id (f copy).1 ≡ some stored)
      → lookup id (with_copy s f x).1 ≡ some stored
  copied_kept s f (ok copy) found kept = kept copy
  copied_kept s f (err e) found kept = found
  copied_kept s f panic found kept = found

  written_kept :
      (s s' : Store)
      → WrittenBy json user s s'
      → lookup id s ≡ some stored
      → lookup id s' ≡ some stored
  unfolding create update
  written_kept s s' none_yet found = found
  written_kept s s' (then_creates {s' = old} now task w) found =
      let kept = written_kept s old w found in
      copied_kept old _ (clone_task json task) kept λ copy. copy_created now task.id copy old kept
  written_kept s s' (then_updates {s' = old} now task previous w) found =
      let kept = written_kept s old w found in
      copied_kept old _ (clone_task json task) kept
        λ copy. copy_updated now previous task.id copy old kept

  -- Whatever tasks a user creates and updates, in any order, the stored task of another user stays as
  -- it is, and the user can never read it: `Get` answers that there is no such task.
  pub other-user :
      (s s' : Store)
      → lookup id s ≡ some stored
      → WrittenBy json user s s'
      → (lookup id s' ≡ some stored) × (get json user id s' ≡ err task_not_found)
  unfolding get
  other-user s s' found w = let kept = written_kept s s' w found in (kept, rw (kept, apart) refl)
