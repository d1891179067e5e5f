-- ===== src/Tasks/Exclusion/Edits.antt =====
-- Ends of runs and edits of tasks, and the tables together (internal/scheduledtask/repo.go).
use nx_panel.Tasks.{
  TaskStatus, disabled, RunStatus, Task, Run, Db, is_running, update_where, count_where,
  millis_between,
}
use nx_panel.Tasks.Repo.{
  owns_lock, release_matching_lock, is_own_run, finalize_run, owns_version, settle_task, finish_run,
  update_next_run, update, set_enabled, delete, create, prune_runs,
}
use nx_panel.Tasks.Locks.{
  has, Holds, IsHeld, IsConsistent, map-update_where, All-update_where, All-imp, All-keep,
  Unique-keep, fresh_key,
}
use nx_panel.Base.{
  ℕ, ◌≡◌, refl, sym, ap, ◌∙◌, ◌≢◌, inl, inr, Bool, true, false, not, ◌||◌, Option, none, some, List,
  [], ◌∷◌, map, arith, ◌==◌, nat_eq, text_eq, text_beq_iff, if◌then◌else◌, Bool-cases, keep, any,
  All, Text,
}

-- An edit that keeps a task's identifier, last run and lock.
module _ (p : Task → Bool) (f : Task → Task) (same_id : (t : Task) → (f t).id ≡ t.id)
    (same_run : (t : Task) → (f t).last_run_id ≡ t.last_run_id)
    (same_lock : (t : Task) → (f t).locked_by ≡ t.locked_by) where
  edit-Holds : (r : Run) (t : Task) → Holds r t → Holds r (f t)
  edit-Holds r t h same =
      (same_run t ∙ (h (sym (same_id t) ∙ same)).0, rw same_lock (h (sym (same_id t) ∙ same)).1)

  edit-IsConsistent :
      (db : Db) → IsConsistent db → IsConsistent (record db { tasks = update_where p f db.tasks })
  edit-IsConsistent db c =
      let ids = map-update_where (λ t. t.id) p f db.tasks same_id in
      record {
        task_ids = rw ids c.task_ids;
        run_ids = c.run_ids;
        foreign = All-imp _ _ db.runs (λ r there. rw ids there) c.foreign;
        held =
            All-imp (IsHeld db.tasks) _ db.runs
              (λ r held active.
                All-update_where (Holds r) (Holds r) p f db.tasks (λ t h _. edit-Holds r t h)
                  (λ t h _. h) (held active))
              c.held;
      }

pub update_next_run-IsConsistent :
    (db : Db) (task_id : Text) (expected : ℕ) (next : Option ℕ) (status : TaskStatus)
    (err_text : Text)
    → IsConsistent db
    → IsConsistent (update_next_run db task_id expected next status err_text).0
unfolding update_next_run
update_next_run-IsConsistent db task_id expected next status err_text c =
    edit-IsConsistent _ _ (λ t. refl) (λ t. refl) (λ t. refl) db c

pub update-IsConsistent :
    (db : Db) (task : Task) (expected : ℕ)
    → IsConsistent db
    → IsConsistent (update db task expected).0
unfolding update
update-IsConsistent db task expected c =
    edit-IsConsistent _ _ (λ t. refl) (λ t. refl) (λ t. refl) db c

pub set_enabled-IsConsistent :
    (db : Db) (task_id : Text) (enabled : Bool) (next : Option ℕ)
    → IsConsistent db
    → IsConsistent (set_enabled db task_id enabled next)
unfolding set_enabled
set_enabled-IsConsistent db task_id enabled next c =
    edit-IsConsistent _ _ (λ t. refl) (λ t. refl) (λ t. refl) db c

-- The lock of a run that is not running any more may be given back.
abbrev IsOver : Run → Run → Type 0
IsOver run r = r.status ≡ RunStatus.running → r.id ≢ run.id

module _ (run : Run) (p : Task → Bool) (f : Task → Task)
    (own : (t : Task) → p t ≡ true → t.last_run_id ≡ run.id)
    (same_id : (t : Task) → (f t).id ≡ t.id) where
  unlock-Holds :
      (r : Run) (t : Task)
      → IsOver run r
      → r.status ≡ RunStatus.running
      → Holds r t
      → p t ≡ true
      → Holds r (f t)
  unlock-Holds r t over active h mine same =
      absurd (over active (sym (h (sym (same_id t) ∙ same)).0 ∙ own t mine))

  unlock-IsConsistent :
      (db : Db)
      → All (IsOver run) db.runs
      → IsConsistent db
      → IsConsistent (record db { tasks = update_where p f db.tasks })
  unlock-IsConsistent db over c =
      let ids = map-update_where (λ t. t.id) p f db.tasks same_id in
      record {
        task_ids = rw ids c.task_ids;
        run_ids = c.run_ids;
        foreign = All-imp _ _ db.runs (λ r there. rw ids there) c.foreign;
        held = held-all db.runs over c.held;
      }
    where
      held-all :
          (l : List Run)
          → All (IsOver run) l
          → All (IsHeld db.tasks) l
          → All (IsHeld (update_where p f db.tasks)) l
      held-all [] o h = tt
      held-all (r ∷ l) o h = (
        (λ active.
            All-update_where (Holds r) (Holds r) p f db.tasks
              (λ t k mine. unlock-Holds r t o.0 active k mine) (λ t k _. k) (h.0 active)),
        held-all l o.1 h.1,
      )

-- `run` is the claim's record of the run: a row of that identifier has its version and runner.
abbrev pub IsClaimOf : Run → Run → Type 0
IsClaimOf run r =
    r.id ≡ run.id → (r.task_version ≡ run.task_version) × (r.runner_id ≡ run.runner_id)

module _ (db : Db) (run : Run) (status : RunStatus) (err_text : Text) (millis finished_at : ℕ)
    (ended : status ≢ RunStatus.running) where
  abbrev finalized : List Run
  finalized =
      update_where (is_own_run run) (finalize_run status err_text millis finished_at) db.runs

  finalized-IsConsistent : IsConsistent db → IsConsistent (record db { runs = finalized })
  unfolding finalize_run
  finalized-IsConsistent c = record {
    task_ids = c.task_ids;
    run_ids =
        rw
          (map-update_where (λ r. r.id) (is_own_run run)
            (finalize_run status err_text millis finished_at) db.runs (λ r. refl))
          c.run_ids;
    foreign =
        All-update_where _ _ (is_own_run run) (finalize_run status err_text millis finished_at)
          db.runs (λ r h _. h) (λ r h _. h) c.foreign;
    held =
        All-update_where (IsHeld db.tasks) _ (is_own_run run)
          (finalize_run status err_text millis finished_at) db.runs
          (λ r h _ active. absurd (ended active)) (λ r h _. h) c.held;
  }

  finalized-IsOver : All (IsClaimOf run) db.runs → All (IsOver run) finalized
  unfolding finalize_run is_own_run
  finalized-IsOver claim =
      All-update_where (IsClaimOf run) (IsOver run) (is_own_run run)
        (finalize_run status err_text millis finished_at) db.runs
        (λ r h _ active. absurd (ended active))
        (λ r h other active same.
          ground (arith, h same, text_beq_iff r.id run.id, text_beq_iff r.runner_id run.runner_id))
        claim

release-IsConsistent :
    (db : Db) (task_id : Text) (run : Run)
    → All (IsOver run) db.runs
    → IsConsistent db
    → IsConsistent (record db { tasks = release_matching_lock db.tasks task_id run })
unfolding release_matching_lock
release-IsConsistent db task_id run over c =
    unlock-IsConsistent run (owns_lock task_id run) _
      (λ t mine. unfold owns_lock in ground (arith, text_beq_iff t.last_run_id run.id)) (λ t. refl)
      db over c

settle-IsConsistent :
    (db : Db) (task : Task) (run : Run) (status : RunStatus) (err_text : Text) (next : Option ℕ)
    (finished_at millis : ℕ)
    → All (IsOver run) db.runs
    → IsConsistent db
    → IsConsistent (record db {
      tasks =
          update_where
            (owns_version task.id run)
            (settle_task task status err_text next finished_at millis)
            db.tasks;
    })
settle-IsConsistent db task run status err_text next finished_at millis over c =
    unlock-IsConsistent run (owns_version task.id run)
      (settle_task task status err_text next finished_at millis)
      (λ t mine. unfold owns_version in ground (arith, text_beq_iff t.last_run_id run.id))
      (λ t. unfold settle_task in refl) db over c

-- Finishing keeps the tables consistent on every branch, for a claim that still holds as for a
-- stale one.
pub finish_run-IsConsistent :
    (db : Db) (task : Task) (run : Run) (status : RunStatus) (err_text : Text) (next : Option ℕ)
    (finished_at : ℕ)
    → status ≢ RunStatus.running
    → All (IsClaimOf run) db.runs
    → IsConsistent db
    → IsConsistent (finish_run db task run status err_text next finished_at).0
unfolding finish_run
finish_run-IsConsistent db task run status err_text next finished_at ended claim c =
    let millis = millis_between run.started_at finished_at in
    let good = finalized-IsConsistent db run status err_text millis finished_at ended c in
    let over = finalized-IsOver db run status err_text millis finished_at ended claim in
    let settled =
      settle-IsConsistent _ task run status err_text next finished_at millis over good in
    elim (Bool-cases (count_where (is_own_run run) db.runs == 1)) [
      | inr none' ↦ rw none' (release-IsConsistent _ task.id run over good)
      | inl one ↦ elim (Bool-cases (count_where (owns_version task.id run) db.tasks == 0)) [
        | inl stale ↦ rw (one, stale) (release-IsConsistent _ task.id run over settled)
        | inr fresh ↦ rw (one, fresh) settled
      ]
    ]

has-keep :
    (k gone : Text) (ts : List Task)
    → k ≢ gone
    → has k (map (λ t. t.id) ts) ≡ true
    → has k (map (λ t. t.id) (keep (λ t. not (t.id == gone)) ts)) ≡ true
has-keep k gone [] ne h = h
has-keep k gone (t ∷ ts) ne h = elim (Bool-cases (t.id == gone)) [
  | inl deleted ↦
      let other : (t.id == k) ≡ false =
        ground (arith, text_beq_iff t.id gone, text_beq_iff t.id k) in
      rw deleted (has-keep k gone ts ne (rw other at h))
  | inr kept ↦ elim (Bool-cases (t.id == k)) [
    | inl same ↦ rw (kept, same)
    | inr other ↦ rw (kept, other) (has-keep k gone ts ne (rw other at h))
  ]
]

-- Deleting a task takes its runs along, so no run is left without its task.
pub delete-IsConsistent :
    (db : Db) (task_id : Text) → IsConsistent db → IsConsistent (delete db task_id)
unfolding delete
delete-IsConsistent db task_id c = record {
  task_ids = Unique-keep (λ t. t.id) (λ t. not (t.id == task_id)) db.tasks c.task_ids;
  run_ids = Unique-keep (λ r. r.id) (λ r. not (r.task_id == task_id)) db.runs c.run_ids;
  foreign =
      All-keep _ _ (λ r. not (r.task_id == task_id)) db.runs
        (λ r there other.
          has-keep r.task_id task_id db.tasks (λ e. ground (arith, text_beq_iff r.task_id task_id))
            there)
        c.foreign;
  held =
      All-keep (IsHeld db.tasks) _ (λ r. not (r.task_id == task_id)) db.runs
        (λ r held _ active.
          All-keep (Holds r) (Holds r) (λ t. not (t.id == task_id)) db.tasks (λ t h _. h)
            (held active))
        c.held;
}

foreign_ne : (k j : Text) (ks : List Text) → All (λ i. i ≢ k) ks → has j ks ≡ true → k ≢ j
foreign_ne k j [] h e = absurd (cc e)
foreign_ne k j (i ∷ ks) h e = elim (Bool-cases (i == j)) [
  | inl same ↦ λ eq. h.0 ((text_beq_iff i j).0 same ∙ sym eq)
  | inr other ↦ foreign_ne k j ks h.1 (rw other at e)
]

pub create-IsConsistent :
    (db db' : Db) (task : Task) → IsConsistent db → create db task ≡ some db' → IsConsistent db'
unfolding create
create-IsConsistent db db' task c e = elim (Bool-cases (any (λ t. t.id == task.id) db.tasks)) [
  | inl taken ↦ absurd (cc (rw taken at e))
  | inr fresh ↦
      let unused = fresh_key (λ (t : Task). t.id) task.id db.tasks fresh in
      rw (← ap chosen (rw fresh at e)) (record {
        task_ids = (unused, c.task_ids);
        run_ids = c.run_ids;
        foreign = All-imp _ _ db.runs (λ r there. ground (arith, there)) c.foreign;
        held = held-all unused db.runs c.foreign c.held;
      })
]
  where
    chosen : Option Db → Db
    chosen none = db
    chosen (some d) = d

    fresh_task : Task
    fresh_task = record task {
      status = if task.enabled then task.status else disabled;
      version = if task.version == 0 then 1 else task.version;
    }

    held-all :
        All (λ j. j ≢ task.id) (map (λ t. t.id) db.tasks)
        → (l : List Run) → All (λ r. has r.task_id (map (λ t. t.id) db.tasks) ≡ true) l
        → All (IsHeld db.tasks) l
        → All (IsHeld (fresh_task ∷ db.tasks)) l
    held-all unused [] there h = tt
    held-all unused (r ∷ l) there h = (
      (λ active.
          ((λ same. absurd (foreign_ne task.id r.task_id _ unused there.0 same)), h.0 active)),
      held-all unused l there.1 h.1,
    )

pub prune_runs-IsConsistent :
    (db : Db) (is_old : Run → Bool) → IsConsistent db → IsConsistent (prune_runs db is_old)
unfolding prune_runs
prune_runs-IsConsistent db is_old c =
    let p : Run → Bool = λ r. is_running r.status || not (is_old r) in
    record {
      task_ids = c.task_ids;
      run_ids = Unique-keep (λ r. r.id) p db.runs c.run_ids;
      foreign = All-keep _ _ p db.runs (λ r h _. h) c.foreign;
      held = All-keep (IsHeld db.tasks) _ p db.runs (λ r h _. h) c.held;
    }
