-- ===== src/Tasks/Repo.antt =====
-- The statements of internal/scheduledtask/repo.go that create, claim, finish and recover runs, as
-- functions on the two tables. Each function is one transaction that succeeds; an error of the
-- database rolls back and leaves the tables as they were.
use nx_panel.Tasks.{
  TaskStatus, idle, disabled, error, RunStatus, success, abandoned, Trigger, schedule, Task, Run,
  Db, is_running, update_where, count_where, first_where, millis_between,
}
use nx_panel.Tasks.Stamp.{second, stamp_leb}
use nx_panel.Base.{
  ℕ, ◌+◌, ◌*◌, ◌/◌, Bool, true, false, not, ◌&&◌, ◌||◌, Option, none, some, List, [], ◌∷◌, ltb,
  ◌==◌, nat_eq, text_eq, if◌then◌else◌, keep, any, Text, codes,
}

abbrev pub lock_expired_message : Text
lock_expired_message = codes "任务锁已过期，标记为异常退出"

-- julianday(a) < julianday(b): SQLite reads three digits of the fraction of a second.
abbrev pub julianday_ltb : ℕ → ℕ → Bool
julianday_ltb a b = ltb (a / 1_000_000) (b / 1_000_000)

-- locked_by != '' AND julianday(locked_until) < julianday(now) AND (task_id = '' OR id = task_id)
unfoldable pub has_expired_lock : ℕ → Text → Task → Bool
has_expired_lock now task_id t =
    not (t.locked_by == [])
    && (elim t.locked_until [ none ↦ false | some until ↦ julianday_ltb until now ]
        && (task_id == [] || t.id == task_id))

-- id IN (SELECT last_run_id FROM scheduled_tasks WHERE ...)
unfoldable pub is_expired_run : ℕ → Text → List Task → Run → Bool
is_expired_run now task_id tasks r =
    is_running r.status
    && any (λ t. has_expired_lock now task_id t && (t.last_run_id == r.id)) tasks

unfoldable pub abandon_run : ℕ → Run → Run
abandon_run now r = record r {
  status = abandoned;
  finished_at = some now;
  duration_ms = millis_between r.started_at now;
  error_message = lock_expired_message;
}

unfoldable pub release_expired : ℕ → Task → Task
release_expired now t = record t {
  status = if t.enabled then error else disabled;
  last_finished_at = some now;
  last_status = some abandoned;
  last_error = lock_expired_message;
  locked_by = [];
  locked_until = none;
  version = t.version + 1;
}

unfoldable pub recover_expired_locks : Db → ℕ → Text → Db
recover_expired_locks db now task_id = record db {
  runs = update_where (is_expired_run now task_id db.tasks) (abandon_run now) db.runs;
  tasks = update_where (has_expired_lock now task_id) (release_expired now) db.tasks;
}

-- `MarkExpiredRunningAbandoned`, with the number of tasks changed
unfoldable pub mark_expired_running_abandoned : Db → ℕ → Db × ℕ
mark_expired_running_abandoned db now =
    (recover_expired_locks db now [], count_where (has_expired_lock now []) db.tasks)

-- The part of the claim's WHERE clause that a scheduled run adds.
unfoldable pub is_due : Trigger → ℕ → ℕ → Task → Bool
is_due schedule expected_version now t =
    elim t.next_run_at [ none ↦ false | some next ↦ stamp_leb next now ]
    && (expected_version == 0 || t.version == expected_version)
is_due _ expected_version now t = true

unfoldable pub is_free : ℕ → Task → Bool
is_free now t =
    t.locked_by == [] || elim t.locked_until [ none ↦ false | some until ↦ julianday_ltb until now ]

unfoldable pub is_claimable : Text → Trigger → ℕ → ℕ → Task → Bool
is_claimable task_id trigger expected_version now t =
    (t.id == task_id) && (t.enabled && (is_free now t && is_due trigger expected_version now t))

-- The expiry is counted from the second in which the claim falls.
unfoldable pub lock_until : ℕ → Task → ℕ
lock_until now t = (now / second + t.timeout_seconds + 30) * second

unfoldable pub claim_task : Text → Text → ℕ → Task → Task
claim_task runner_id run_id now t = record t {
  status = TaskStatus.running;
  locked_by = runner_id;
  locked_until = some (lock_until now t);
  last_run_at = some now;
  last_run_id = run_id;
  version = t.version + 1;
}

unfoldable pub new_run : Text → Trigger → Text → ℕ → Task → Run
new_run run_id trigger runner_id now t = record {
  id = run_id;
  task_id = t.id;
  task_type = t.kind;
  task_name = t.name;
  trigger = trigger;
  status = RunStatus.running;
  attempt = 1;
  task_version = t.version;
  runner_id = runner_id;
  started_at = now;
  finished_at = none;
  duration_ms = 0;
  error_message = [];
}

-- What `BeginRunVersion` returns: the task alone, or the task and the run that it claimed.
pub data Claim : Type 0 where
  refused : Option Task → Claim
  claimed : Task → Run → Claim

-- `run_id` is the identifier that app.NewID makes. An identifier that is taken breaks the primary
-- key of the runs, and the transaction is rolled back: that is the `none`.
unfoldable pub begin_run_version : Db → Text → Trigger → Text → ℕ → ℕ → Text → Option (Db × Claim)
begin_run_version db task_id trigger runner_id expected_version now run_id =
    let recovered = recover_expired_locks db now task_id in
    let wanted = is_claimable task_id trigger expected_version now in
    elim (first_where wanted recovered.tasks) [
      | none ↦ some (recovered, refused (first_where (λ t. t.id == task_id) recovered.tasks))
      | some found ↦
          let task = claim_task runner_id run_id now found in
          let run = new_run run_id trigger runner_id now task in
          if any (λ r. r.id == run_id) recovered.runs
          then none
          else some (
            record {
              tasks = update_where wanted (claim_task runner_id run_id now) recovered.tasks;
              runs = run ∷ recovered.runs;
            },
            claimed task run,
          )
    ]

pub record FinishOutcome : Type 0 where
  pub run_finalized : Bool
  pub schedule_updated : Bool
  pub stale : Bool

unfoldable pub owns_lock : Text → Run → Task → Bool
owns_lock task_id run t =
    (t.id == task_id) && ((t.last_run_id == run.id) && (t.locked_by == run.runner_id))

unfoldable pub release_matching_lock : List Task → Text → Run → List Task
release_matching_lock tasks task_id run =
    update_where (owns_lock task_id run) (λ t. record t { locked_by = []; locked_until = none })
      tasks

unfoldable pub is_own_run : Run → Run → Bool
is_own_run run r =
    (r.id == run.id)
    && (is_running r.status
        && ((r.task_version == run.task_version) && (r.runner_id == run.runner_id)))

unfoldable pub finalize_run : RunStatus → Text → ℕ → ℕ → Run → Run
finalize_run status err_text millis finished_at r = record r {
  status = status;
  finished_at = some finished_at;
  duration_ms = millis;
  error_message = err_text;
}

unfoldable pub next_status : Task → RunStatus → TaskStatus
next_status task success = if task.enabled then idle else disabled
next_status task _ = if task.enabled then error else disabled

unfoldable pub owns_version : Text → Run → Task → Bool
owns_version task_id run t =
    (t.id == task_id)
    && ((t.version == run.task_version)
        && ((t.last_run_id == run.id) && (t.locked_by == run.runner_id)))

unfoldable pub settle_task : Task → RunStatus → Text → Option ℕ → ℕ → ℕ → Task → Task
settle_task task status err_text next finished_at millis t = record t {
  status = next_status task status;
  next_run_at = next;
  last_finished_at = some finished_at;
  last_status = some status;
  last_error = err_text;
  last_duration_ms = millis;
  locked_by = [];
  locked_until = none;
  version = t.version + 1;
}

-- `task` and `run` are the values that the claim returned. `next` is none for a zero time.
unfoldable pub finish_run : Db → Task → Run → RunStatus → Text → Option ℕ → ℕ → Db × FinishOutcome
finish_run db task run status err_text next finished_at =
    let millis = millis_between run.started_at finished_at in
    let runs =
      update_where (is_own_run run) (finalize_run status err_text millis finished_at) db.runs in
    let settled =
      update_where (owns_version task.id run)
        (settle_task task status err_text next finished_at millis) db.tasks in
    if not (count_where (is_own_run run) db.runs == 1)
    then (
      record { tasks = release_matching_lock db.tasks task.id run; runs = runs },
      record { run_finalized = false; schedule_updated = false; stale = true },
    )
    else if count_where (owns_version task.id run) db.tasks == 0
    then (
      record { tasks = release_matching_lock settled task.id run; runs = runs },
      record { run_finalized = true; schedule_updated = false; stale = true },
    )
    else (
      record { tasks = settled; runs = runs },
      record {
        run_finalized = true;
        schedule_updated = count_where (owns_version task.id run) db.tasks == 1;
        stale = false;
      },
    )

-- `UpdateNextRun`: whether the expected version was still there. `next` is none for a zero time.
unfoldable pub update_next_run : Db → Text → ℕ → Option ℕ → TaskStatus → Text → Db × Bool
update_next_run db task_id expected_version next status err_text =
    let wanted = λ (t : Task). (t.id == task_id) && (t.version == expected_version) in
    (
      record db {
        tasks =
            update_where wanted
              (λ t. record t {
                next_run_at = next;
                status = status;
                last_error = err_text;
                version = t.version + 1;
              })
              db.tasks;
      },
      count_where wanted db.tasks == 1,
    )

-- `Update`: the edited columns, or a conflict (false).
unfoldable pub update : Db → Task → ℕ → Db × Bool
update db task expected_version =
    let wanted = λ (t : Task). (t.id == task.id) && (t.version == expected_version) in
    (
      record db {
        tasks =
            update_where wanted
              (λ t. record t {
                name = task.name;
                enabled = task.enabled;
                status = task.status;
                missed_policy = task.missed_policy;
                timeout_seconds = task.timeout_seconds;
                next_run_at = task.next_run_at;
                version = t.version + 1;
              })
              db.tasks;
      },
      count_where wanted db.tasks == 1,
    )

unfoldable pub set_enabled : Db → Text → Bool → Option ℕ → Db
set_enabled db task_id enabled next = record db {
  tasks =
      update_where (λ t. t.id == task_id)
        (λ t. record t {
          enabled = enabled;
          status = if enabled then idle else disabled;
          next_run_at = if enabled then next else none;
          last_error = [];
          version = t.version + 1;
        })
        db.tasks;
}

-- The runs go with their task: `ON DELETE CASCADE`.
unfoldable pub delete : Db → Text → Db
delete db task_id = record {
  tasks = keep (λ t. not (t.id == task_id)) db.tasks;
  runs = keep (λ r. not (r.task_id == task_id)) db.runs;
}

-- A task as `buildTask` makes it, with the status and version that `Create` sets; none if the
-- identifier is taken.
unfoldable pub create : Db → Task → Option Db
create db task =
    let fresh = record task {
      status = if task.enabled then task.status else disabled;
      version = if task.version == 0 then 1 else task.version;
    } in
    if any (λ t. t.id == task.id) db.tasks
    then none
    else some (record db { tasks = fresh ∷ db.tasks })

-- `PruneRuns` deletes finished runs only; which ones is left open.
unfoldable pub prune_runs : Db → (Run → Bool) → Db
prune_runs db is_old = record db {
  runs = keep (λ r. is_running r.status || not (is_old r)) db.runs;
}
