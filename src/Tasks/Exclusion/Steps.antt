-- ===== src/Tasks/Exclusion/Steps.antt =====
-- The panel as a transition system: API requests, the engine and any number of runners, each
-- statement a step, in any order (internal/scheduledtask/repo.go).
use nx_panel.Tasks.{TaskStatus, RunStatus, Trigger, Task, Run, Db}
use nx_panel.Tasks.Repo.{
  recover_expired_locks, refused, claimed, begin_run_version, finish_run, update_next_run, update,
  set_enabled, delete, create, prune_runs,
}
use nx_panel.Base.{
  ℕ, ◌≡◌, ◌≢◌, Bool, Option, some, List, [], ◌∷◌, nat_eq, text_eq, get_elem?, All, Text,
}

-- The tables, and every claim that was given to a runner.
pub record System : Type 0 where
  pub db : Db
  pub given : List (Task × Run)

abbrev pub start : System
start = record { db = record { tasks = []; runs = [] }; given = [] }

-- A claim is given under an identifier that no earlier claim had, which is what app.NewID is for.
pub data Step : System → System → Type 0 where
  claim :
      {s : System} {db' : Db} (task_id : Text) (trigger : Trigger) (runner_id : Text)
      (expected now : ℕ) (run_id : Text) {task : Task} {run : Run}
      → runner_id ≢ []
      → All (λ g. g.1.id ≢ run_id) s.given
      → begin_run_version s.db task_id trigger runner_id expected now run_id
        ≡ some (db', claimed task run)
      → Step s (record { db = db'; given = (task, run) ∷ s.given })
  refuse :
      {s : System} {db' : Db} (task_id : Text) (trigger : Trigger) (runner_id : Text)
      (expected now : ℕ) (run_id : Text) {found : Option Task}
      → runner_id ≢ []
      → begin_run_version s.db task_id trigger runner_id expected now run_id
        ≡ some (db', refused found)
      → Step s (record s { db = db' })
  finish :
      {s : System} (i : ℕ) (task : Task) (run : Run) (status : RunStatus) (err_text : Text)
      (next : Option ℕ) (finished_at : ℕ)
      → get_elem? s.given i ≡ some (task, run)
      → status ≢ RunStatus.running
      → Step s (record s { db = (finish_run s.db task run status err_text next finished_at).0 })
  recover : {s : System} (now : ℕ) → Step s (record s { db = recover_expired_locks s.db now [] })
  reschedule :
      {s : System} (task_id : Text) (expected : ℕ) (next : Option ℕ) (status : TaskStatus)
      (err_text : Text)
      → Step s (record s { db = (update_next_run s.db task_id expected next status err_text).0 })
  edit :
      {s : System} (task : Task) (expected : ℕ)
      → Step s (record s { db = (update s.db task expected).0 })
  enable :
      {s : System} (task_id : Text) (enabled : Bool) (next : Option ℕ)
      → Step s (record s { db = set_enabled s.db task_id enabled next })
  remove : {s : System} (task_id : Text) → Step s (record s { db = delete s.db task_id })
  add :
      {s : System} {db' : Db} (task : Task)
      → create s.db task ≡ some db'
      → Step s (record s { db = db' })
  prune : {s : System} (is_old : Run → Bool) → Step s (record s { db = prune_runs s.db is_old })

pub data Reach (s : System) : System → Type 0 where
  here : Reach s s
  after : {t u : System} → Reach s t → Step t u → Reach s u
