-- ===== src/Engine/Loop.antt =====
-- Loading and dispatching of tasks (internal/scheduledtask/engine.go, `NextRunAt` of schedule.go).
-- While a round of the loop runs, the clock stands, and the database is changed by it alone and
-- answers each call for a task alike: `fails` tells which calls fail. From round to round all three
-- change as a `Moment` says. Schedules are a parameter: their calendars, time zones and
-- cron expressions are those of Go and of robfig/cron.
use nx_panel.Tasks.{Task, idle, error, Db, MissedPolicy, run_once, skip, first_where}
use nx_panel.Tasks.Repo.{update_next_run}
use nx_panel.Engine.{
  HeapOps, HeapItem, Engine, remove, upsert, reload_task, peek_due, task_running_or_locked,
}
use nx_panel.Base.{
  ℕ, zero, suc, Bool, true, false, not, ◌||◌, Option, none, some, List, [], ◌∷◌, ◌++◌, ltb, ◌==◌,
  nat_eq, text_eq, if◌then◌else◌, length, Text,
}
use nx_panel.Base.Result.{Result, ok, err}

pub data Call : Type 0 where
  get_call write_call : Call

unfoldable pub is_run_once : MissedPolicy → Bool
is_run_once run_once = true
is_run_once skip = false

-- A time that may be zero, as the database has it.
abbrev pub optional : ℕ → Option ℕ
optional n = if n == 0 then none else some n

-- What one round of the loop of `dispatchDue` does: it goes on, or returns whether the queue is
-- full.
pub data Round : Type 0 where
  again : Engine → Db → Round
  done : Engine → Db → Bool → Round

abbrev pub proceed : Engine × Db → Round
proceed (e, db) = again e db

abbrev pub is_at : Option ℕ → ℕ → Bool
is_at none next = false
is_at (some at) next = at == next

abbrev pub row : Db → Text → Option Task
row db id = first_where (λ (t : Task). t.id == id) db.tasks

module _ (heap : HeapOps) (compile : Task → Result Text (ℕ → ℕ)) (fails : Call → Text → Bool) where
  unfoldable pub next_run_at : Task → ℕ → Result Text ℕ
  next_run_at task now = elim (compile task) [
    | err problem ↦ err problem
    | ok next ↦ elim task.next_run_at [
      | none ↦ ok (next now)
      | some at ↦ if ltb now at || is_run_once task.missed_policy then ok at else ok (next now)
    ]
  ]

  -- Repo.Get: `err` if the call fails, `ok none` if there is no such task.
  unfoldable pub get : Db → Text → Result (Unit {0}) (Option Task)
  get db id = if fails get_call id then err tt else ok (row db id)

  -- A refreshed task with its next run.
  unfoldable pub load_row : Engine → Text → ℕ → Task → Option ℕ → Engine
  load_row e id now refreshed none = e
  load_row e id now refreshed (some at) =
      if not refreshed.enabled
      then e
      else if task_running_or_locked refreshed now
      then remove heap e id
      else upsert heap e id at refreshed.version

  -- The part of `loadTask` behind a successful update, with what `Get` answers.
  unfoldable pub load_refreshed : Engine → Text → ℕ → Result (Unit {0}) (Option Task) → Engine
  unfolding load_row
  load_refreshed e id now (err problem) = e
  load_refreshed e id now (ok none) = e
  load_refreshed e id now (ok (some refreshed)) = load_row e id now refreshed refreshed.next_run_at

  unfoldable pub load_next : Engine → Db → Task → ℕ → ℕ → Engine × Db
  unfolding load_refreshed get
  load_next e db task next now =
      let (db', updated) = update_next_run db task.id task.version (optional next) idle [] in
      if is_at task.next_run_at next
      then (upsert heap e task.id next task.version, db)
      else if fails write_call task.id
      then (e, db)
      else if not updated
      then (reload_task (remove heap e task.id) task.id, db')
      else (load_refreshed e task.id now (get db' task.id), db')

  -- `loadTask` with what `NextRunAt` returns
  unfoldable pub load_at : Engine → Db → Task → ℕ → Result Text ℕ → Engine × Db
  unfolding load_next
  load_at e db task now (err problem) = (
    remove heap e task.id,
    if fails write_call task.id
        then db
        else (update_next_run db task.id task.version none error problem).0,
  )
  load_at e db task now (ok next) = load_next e db task next now

  unfoldable pub load_task : Engine → Db → Task → ℕ → Engine × Db
  unfolding load_at next_run_at
  load_task e db task now =
      if task_running_or_locked task now
      then (remove heap e task.id, db)
      else load_at e db task now (next_run_at task now)

  -- `reloadTask`
  unfoldable pub reload_one : Engine → Db → Text → ℕ → Engine × Db
  unfolding load_task get
  reload_one e db id now = elim (get db id) [
    | err problem ↦ (e, db)
    | ok none ↦ (remove heap e id, db)
    | ok (some task) ↦ if task.enabled then load_task e db task now else (remove heap e id, db)
  ]

  unfoldable pub reload_all : Engine → Db → List Text → ℕ → Engine × Db
  unfolding reload_one
  reload_all e db [] now = (e, db)
  reload_all e db (id ∷ ids) now =
      let (e', db') = reload_one e db id now in reload_all e' db' ids now

  -- If the engine is stopped and its queue has room, Go's select takes either case; here it stops.
  unfoldable pub send_dispatch : Engine → Db → Task → Round
  send_dispatch e db task =
      if e.stopped
      then done e db false
      else if ltb (length e.dispatch) e.queue_size
      then again
          (remove heap
            (record e {
              dispatch = e.dispatch ++ (record { task_id = task.id; version = task.version } ∷ []);
            })
            task.id)
          db
      else done e db true

  -- A task that `Get` returns, with its next run.
  unfoldable pub dispatch_row : Engine → Db → HeapItem → ℕ → Task → Option ℕ → Round
  unfolding load_task send_dispatch
  dispatch_row e db item now task none = again (remove heap e item.task_id) db
  dispatch_row e db item now task (some at) =
      if not task.enabled || task_running_or_locked task now
      then again (remove heap e item.task_id) db
      else if not (task.version == item.version) || not (at == item.next_run_at) || ltb now at
      then proceed (load_task (remove heap e item.task_id) db task now)
      else send_dispatch e db task

  unfoldable pub dispatch_item :
      Engine → Db → HeapItem → ℕ → Result (Unit {0}) (Option Task) → Round
  unfolding dispatch_row
  dispatch_item e db item now (err problem) =
      again (reload_task (remove heap e item.task_id) item.task_id) db
  dispatch_item e db item now (ok none) = again (remove heap e item.task_id) db
  dispatch_item e db item now (ok (some task)) = dispatch_row e db item now task task.next_run_at

  unfoldable pub dispatch_peeked : Engine → Db → ℕ → Option HeapItem → Round
  unfolding dispatch_item get
  dispatch_peeked e db now none = done e db false
  dispatch_peeked e db now (some item) = dispatch_item e db item now (get db item.task_id)

  unfoldable pub dispatch_round : Engine → Db → ℕ → Round
  unfolding dispatch_peeked
  dispatch_round e db now = dispatch_peeked e db now (peek_due e now)

-- What a round of the loop meets: the clock, which calls of the database fail, and what the rest of the
-- panel has written since the round before.
pub record Moment : Type 0 where
  pub now : ℕ
  pub fails : Call → Text → Bool
  pub others : Db → Db

-- The loop of `dispatchDue`, on fuel; `none` means that the fuel ran out.
module _ (heap : HeapOps) (compile : Task → Result Text (ℕ → ℕ)) where
  unfoldable pub dispatch_due : ℕ → (ℕ → Moment) → Engine → Db → Option ((Engine × Db) × Bool)
  unfolding dispatch_round
  dispatch_due zero world e db = none
  dispatch_due (suc fuel) world e db =
      elim (dispatch_round heap compile (world 0).fails e ((world 0).others db) (world 0).now) [
        | done e' db' full ↦ some ((e', db'), full)
        | again e' db' ↦ dispatch_due fuel (λ i. world (suc i)) e' db'
      ]
