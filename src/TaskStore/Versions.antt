-- ===== src/TaskStore/Versions.antt =====
-- Optimistic concurrency: an update that was based on an older version is refused.
use codex_a2a.Base.{
  ℕ, suc, String, ◌≡◌, ◌≢◌, refl, ◌⊎◌, some, ok, err, ◌==◌, ==_iff, ==_refl, arith, Option-cases,
  Result-cases, Bool-cases, inl, inr, ap, ◌∙◌,
}
use codex_a2a.Base.Maps.{lookup, insert, lookup-insert_self}
use codex_a2a.TaskStore.Store.{
  Task, StoredTask, concurrent_modification, Store, TaskJson, clone_task, update, update_copy, get,
}

module _ (json : TaskJson) where
  -- What a successful update has found and left.
  pub record Updated (user : String) (now : ℕ) (task : Task) (previous v : ℕ) (s s' : Store)
      : Type 0 where
    pub before : StoredTask
    pub found : lookup task.id s ≡ some before
    pub owned : before.user ≡ user
    pub next : v ≡ suc before.version
    pub based : (previous ≡ 0) ⊎ (previous ≡ before.version)
    pub copy : Task
    pub cloned : clone_task json task ≡ ok copy
    pub after :
        s' ≡ insert task.id (record { task = copy; user = user; version = v; last_updated = now }) s

  module _ {user : String} {now : ℕ} {task : Task} {previous v : ℕ} {s s' : Store}
      (u : Updated user now task previous v s s') where
    abbrev entry : StoredTask
    entry = record { task = u.copy; user = user; version = v; last_updated = now }

    stored : lookup task.id s' ≡ some entry
    stored = rw u.after (lookup-insert_self task.id entry s)

  update_copy-Updated :
      (user : String) (now : ℕ) (task copy : Task) (previous v : ℕ) (s s' : Store)
      (stored : StoredTask)
      → clone_task json task ≡ ok copy
      → lookup task.id s ≡ some stored
      → update_copy user now previous task.id s (some stored) copy ≡ (ok v, s')
      → Updated user now task previous v s s'
  update_copy-Updated user now task copy previous v s s' stored cloned found e = record {
    before = stored;
    found = found;
    owned = ground (arith, e, ==_iff stored.user user);
    next = ground (arith, e);
    based = ground (arith, e);
    copy = copy;
    cloned = cloned;
    after = ground (arith, e);
  }

  update-Updated :
      (user : String) (now : ℕ) (task : Task) (previous v : ℕ) (s s' : Store)
      → update json user now task previous s ≡ (ok v, s')
      → Updated user now task previous v s s'
  unfolding update
  update-Updated user now task previous v s s' e = elim (Result-cases (clone_task json task)) [
    | inl (copy, cloned) ↦ elim (Option-cases (lookup task.id s)) [
      | inl absent ↦ ground (arith, rw (cloned, absent) at e)
      | inr (stored, found) ↦
          update_copy-Updated user now task copy previous v s s' stored cloned found
            (rw (cloned, found) at e)
    ]
    | inr (inl (x, q)) ↦ ground (arith, rw q at e)
    | inr (inr q) ↦ ground (arith, rw q at e)
  ]

  read-found :
      (user id : String) (t : Task) (v : ℕ) (s : Store) (stored : StoredTask)
      → lookup id s ≡ some stored
      → get json user id s ≡ ok (t, v)
      → stored.version ≡ v
  unfolding get
  read-found user id t v s stored found e = elim (Bool-cases (stored.user == user)) [
    | inl own ↦ elim (Result-cases (clone_task json stored.task)) [
      | inl (copy, cloned) ↦ ground (arith, rw (found, own, cloned) at e)
      | inr (inl (x, q)) ↦ ground (arith, rw (found, own, q) at e)
      | inr (inr q) ↦ ground (arith, rw (found, own, q) at e)
    ]
    | inr other ↦ ground (arith, rw (found, other) at e)
  ]

  stale :
      (user : String) (now v w : ℕ) (id : String) (s : Store) (stored : StoredTask) (copy : Task)
      → stored.user ≡ user
      → stored.version ≡ suc w
      → v ≡ w
      → v ≢ 0
      → update_copy user now v id s (some stored) copy ≡ (err concurrent_modification, s)
  stale user now v w id s stored copy own version same positive =
      rw (own, ==_refl user) (ground (arith, version, same, positive))

  -- Of two updates by one user that are based on the same version of a task, the second one is
  -- refused as a concurrent modification, and leaves the store as the first one has left it.
  pub update-twice :
      (user : String) (now later : ℕ) (t first second copy : Task) (v w : ℕ) (s s' : Store)
      → v ≢ 0
      → get json user first.id s ≡ ok (t, v)
      → update json user now first v s ≡ (ok w, s')
      → second.id ≡ first.id
      → clone_task json second ≡ ok copy
      → update json user later second v s' ≡ (err concurrent_modification, s')
  unfolding update
  update-twice user now later t first second copy v w s s' positive read done same cloned =
      let u = update-Updated user now first v w s s' done in
      rw (cloned, same, stored u)
        (stale user later v u.before.version first.id s' (entry u) copy refl u.next
          (ground (arith, positive, u.based)) positive)

  one_copy : (task a b : Task) → clone_task json task ≡ ok a → clone_task json task ≡ ok b → a ≡ b
  one_copy task a b x y = ground (arith, x, y)

  -- What was stored is read back, with the version that was answered, as a copy of the copy.
  pub update-get :
      (user : String) (now : ℕ) (task copy again : Task) (previous v : ℕ) (s s' : Store)
      → update json user now task previous s ≡ (ok v, s')
      → clone_task json task ≡ ok copy
      → clone_task json copy ≡ ok again
      → get json user task.id s' ≡ ok (again, v)
  unfolding get
  update-get user now task copy again previous v s s' done cloned twice =
      let u = update-Updated user now task previous v s s' done in
      let again_ok = ap (clone_task json) (one_copy task u.copy copy u.cloned cloned) ∙ twice in
      rw (stored u, ==_refl user, again_ok) refl
