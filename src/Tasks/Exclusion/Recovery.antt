-- ===== src/Tasks/Exclusion/Recovery.antt =====
-- Recovery of expired locks, and the tables together (`recoverExpiredLocksTx`).
use nx_panel.Tasks.{Task, Run, Db, update_where}
use nx_panel.Tasks.Repo.{
  has_expired_lock, is_expired_run, is_free, abandon_run, release_expired, recover_expired_locks,
}
use nx_panel.Tasks.Locks.{has, Holds, IsHeld, IsConsistent, map-update_where, All-update_where}
use nx_panel.Base.{
  ℕ, ◌≡◌, refl, inl, inr, true, false, ◌&&◌, List, [], ◌∷◌, map, arith, ◌==◌, nat_eq, text_eq,
  text_beq_iff, Bool-cases, any, All, Text,
}

-- A run that stays running names no task whose lock has expired, so its task keeps the lock.
held-recover :
    (now : ℕ) (task_id : Text) (r : Run) (ts : List Task)
    → any (λ t. has_expired_lock now task_id t && (t.last_run_id == r.id)) ts ≡ false
    → All (Holds r) ts
    → All (Holds r) (update_where (has_expired_lock now task_id) (release_expired now) ts)
held-recover now task_id r [] e h = tt
held-recover now task_id r (t ∷ ts) e h =
    let rest = held-recover now task_id r ts (ground arith) h.1 in
    elim (Bool-cases (has_expired_lock now task_id t)) [
      | inl expired ↦
          let other : (t.last_run_id == r.id) ≡ false = ground arith in
          rw expired (
            unfold release_expired in
                (λ same. absurd (cc (other, (text_beq_iff t.last_run_id r.id).1 (h.0 same).0))),
            rest,
          )
      | inr live ↦ rw live (h.0, rest)
    ]

ids-recover :
    (db : Db) (now : ℕ) (task_id : Text)
    → map (λ t. t.id) (recover_expired_locks db now task_id).tasks ≡ map (λ t. t.id) db.tasks
unfolding recover_expired_locks release_expired
ids-recover db now task_id =
    map-update_where (λ t. t.id) (has_expired_lock now task_id) (release_expired now) db.tasks
      (λ t. refl)

run_ids-recover :
    (db : Db) (now : ℕ) (task_id : Text)
    → map (λ r. r.id) (recover_expired_locks db now task_id).runs ≡ map (λ r. r.id) db.runs
unfolding recover_expired_locks abandon_run
run_ids-recover db now task_id =
    map-update_where (λ r. r.id) (is_expired_run now task_id db.tasks) (abandon_run now) db.runs
      (λ r. refl)

foreign-recover :
    (db : Db) (now : ℕ) (task_id : Text)
    → All (λ r. has r.task_id (map (λ t. t.id) db.tasks) ≡ true) db.runs
    → All
        (λ r. has r.task_id (map (λ t. t.id) db.tasks) ≡ true)
        (recover_expired_locks db now task_id).runs
unfolding recover_expired_locks abandon_run
foreign-recover db now task_id h =
    All-update_where _ _ (is_expired_run now task_id db.tasks) (abandon_run now) db.runs
      (λ r e _. e) (λ r e _. e) h

IsHeld-recover :
    (db : Db) (now : ℕ) (task_id : Text)
    → All (IsHeld db.tasks) db.runs
    → All
        (IsHeld (recover_expired_locks db now task_id).tasks)
        (recover_expired_locks db now task_id).runs
unfolding recover_expired_locks
IsHeld-recover db now task_id h =
    All-update_where (IsHeld db.tasks) _ (is_expired_run now task_id db.tasks) (abandon_run now)
      db.runs (λ r _ _. unfold abandon_run in λ still. absurd (cc still))
      (λ r held stays. λ active.
        held-recover now task_id r db.tasks (unfold is_expired_run in (rw active at stays))
          (held active))
      h

pub recover_expired_locks-IsConsistent :
    (db : Db) (now : ℕ) (task_id : Text)
    → IsConsistent db
    → IsConsistent (recover_expired_locks db now task_id)
recover_expired_locks-IsConsistent db now task_id c = record {
  task_ids = rw ids-recover c.task_ids;
  run_ids = rw run_ids-recover c.run_ids;
  foreign = rw ids-recover (foreign-recover db now task_id c.foreign);
  held = IsHeld-recover db now task_id c.held;
}

-- After the recovery for a task, its lock is free only if nobody holds it.
abbrev pub IsFreeOnlyUnlocked : ℕ → Text → Task → Type 0
IsFreeOnlyUnlocked now task_id t =
    (t.id == task_id) ≡ true → is_free now t ≡ true → t.locked_by ≡ []

free-recover-each :
    (now : ℕ) (task_id : Text) (t : Task)
    → has_expired_lock now task_id t ≡ false
    → IsFreeOnlyUnlocked now task_id t
unfolding has_expired_lock is_free
free-recover-each now task_id t live same free =
    ground (arith, text_beq_iff t.locked_by [], text_beq_iff t.id task_id)

All-trivial : (ts : List Task) → All (λ _. Unit {0}) ts
All-trivial [] = tt
All-trivial (t ∷ ts) = (tt, All-trivial ts)

pub free-recover :
    (db : Db) (now : ℕ) (task_id : Text)
    → All (IsFreeOnlyUnlocked now task_id) (recover_expired_locks db now task_id).tasks
unfolding recover_expired_locks
free-recover db now task_id =
    All-update_where (λ _. Unit {0}) _ (has_expired_lock now task_id) (release_expired now) db.tasks
      (λ t _ _. unfold release_expired in λ _ _. refl)
      (λ t _ live. free-recover-each now task_id t live) (All-trivial db.tasks)
