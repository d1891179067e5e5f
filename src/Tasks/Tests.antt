-- ===== src/Tasks/Tests.antt =====
-- The lock protocol on concrete tables.
use nx_panel.Tasks.{
  idle, success, failed, schedule, manual, MissedPolicy, Task, Run, Db, count_where,
}
use nx_panel.Tasks.Stamp.{stamp_leb}
use nx_panel.Tasks.Repo.{
  has_expired_lock, is_expired_run, release_expired, abandon_run, recover_expired_locks, is_due,
  is_free, is_claimable, claim_task, new_run, refused, begin_run_version, finish_run, create,
  is_own_run, owns_version, owns_lock, release_matching_lock, settle_task, finalize_run, lock_until,
}
use nx_panel.Tasks.Locks.{IsConsistent}
use nx_panel.Tasks.Due.{IsRefused, begin_run_version_same_second, begin_run_version_locked}
use nx_panel.Tasks.Finish.{EndsFinally, finish_run-tasks_stale, finish_run-begin_run_version}
use nx_panel.Tasks.Exclusion.{
  System, start, claim, add, here, after, Reach, runs_now, Reach-single_run, Reach-IsConsistent,
}
use nx_panel.Base.{
  ℕ, ◌≤◌, ◌<◌, ◌≡◌, refl, true, none, some, [], ◌∷◌, arith, nat_eq, text_eq, text_beq, Text, codes,
}

abbrev backup : Task
backup = record {
  id = codes "schtask_1";
  kind = codes "site_backup";
  name = codes "backup";
  enabled = true;
  status = idle;
  missed_policy = MissedPolicy.skip;
  timeout_seconds = 600;
  next_run_at = some 5_000_000_000;
  last_run_at = none;
  last_finished_at = none;
  last_status = none;
  last_error = [];
  last_duration_ms = 0;
  last_run_id = [];
  locked_by = [];
  locked_until = none;
  version = 1;
}

abbrev tables : Db
tables = record { tasks = backup ∷ []; runs = [] }

abbrev runner : Text
runner = codes "api"

abbrev later : ℕ
later = 7_200_000_000

opened : Unit {0}
unfolding begin_run_version finish_run create recover_expired_locks has_expired_lock is_expired_run
    is_claimable is_free is_due claim_task new_run text_beq stamp_leb is_own_run owns_version
    owns_lock release_matching_lock settle_task finalize_run lock_until release_expired abandon_run
opened = tt

abbrev locked : Task
locked = record backup {
  locked_by = runner;
  locked_until = some 637_000_000_000;
  last_run_id = codes "r1";
  version = 2;
}

abbrev first_run : Run
first_run = new_run (codes "r1") schedule runner later locked

claim_tests :
    (begin_run_version tables backup.id schedule runner 1 5_000_400_000 (codes "r1")
      ≡ some (tables, refused (some backup)))
    × (begin_run_version tables (codes "gone") manual runner 0 later (codes "r1")
        ≡ some (tables, refused none))
    × (lock_until later backup ≡ 637_000_000_000)
unfolding opened
claim_tests = (refl, refl, refl)

begin_run_version_same_second_example :
    (5_000_000_000 < 5_000_400_000)
    × IsRefused (begin_run_version tables backup.id schedule runner 1 5_000_400_000 (codes "r1"))
begin_run_version_same_second_example =
    begin_run_version_same_second tables backup.id runner 1 5_000_400_000 5_000_000_000 (codes "r1")
      ((λ _. refl), tt) refl refl (omega arith)

begin_run_version_locked_example : IsRefused (
    begin_run_version
      (record { tasks = locked ∷ []; runs = [] })
      backup.id
      manual
      (codes "other")
      0
      later
      (codes "r2"))
begin_run_version_locked_example =
    begin_run_version_locked (record { tasks = locked ∷ []; runs = [] }) backup.id manual
      (codes "other") 0 later 637_000_000_000 (codes "r2") ((λ _. ((λ e. cc e), refl)), tt)
      (omega arith)

finish_run-tasks_stale_example :
    (finish_run
      (record { tasks = record locked { last_run_id = codes "r9" } ∷ []; runs = [] })
      locked
      first_run
      failed
      []
      none
      9_000_000_000).0.tasks
    ≡ record locked { last_run_id = codes "r9" } ∷ []
unfolding new_run
finish_run-tasks_stale_example =
    finish_run-tasks_stale
      (record { tasks = record locked { last_run_id = codes "r9" } ∷ []; runs = [] }) locked
      first_run failed [] none 9_000_000_000 ((λ _ e. cc e), tt)

tables-IsConsistent : IsConsistent tables
tables-IsConsistent = record { task_ids = (tt, tt); run_ids = tt; foreign = tt; held = tt }

finish_run-begin_run_version_example :
    EndsFinally
      (begin_run_version tables backup.id manual runner 0 later (codes "r1"))
      success
      []
      none
      9_000_000_000
finish_run-begin_run_version_example =
    finish_run-begin_run_version tables backup.id manual runner 0 later (codes "r1") success [] none
      9_000_000_000 tables-IsConsistent

-- A reachable state with a running run: the task is added and claimed.
abbrev after_add : System
after_add = record { db = tables; given = [] }

claimed_state : System
unfolding opened
claimed_state = record {
  db = record {
    tasks = claim_task runner (codes "r1") later backup ∷ [];
    runs =
        new_run (codes "r1") manual runner later (claim_task runner (codes "r1") later backup) ∷ [];
  };
  given =
      (
        claim_task runner (codes "r1") later backup,
        new_run (codes "r1") manual runner later (claim_task runner (codes "r1") later backup),
      )
      ∷ [];
}

claimed_state-Reach : Reach start claimed_state
unfolding claimed_state
claimed_state-Reach =
    after (after here (add backup refl))
      (claim backup.id manual runner 0 later (codes "r1") (λ e. cc e) tt refl)

Reach-single_run_example : count_where (runs_now (codes "schtask_1")) claimed_state.db.runs ≤ 1
Reach-single_run_example = Reach-single_run claimed_state (codes "schtask_1") claimed_state-Reach

Reach-IsConsistent_example : IsConsistent claimed_state.db
Reach-IsConsistent_example = Reach-IsConsistent claimed_state claimed_state-Reach
