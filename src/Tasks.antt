-- ===== src/Tasks.antt =====
-- The tables of scheduled tasks and of their runs (internal/scheduledtask/types.go and the columns
-- of internal/db/migrations/0001_init.sql that repo.go's lock protocol reads or writes). A time is
-- the number of nanoseconds since Go's zero time.
pub mod Stamp
pub mod Repo
pub mod Locks
pub mod Exclusion
pub mod Finish
pub mod Due
mod Tests
use nx_panel.Base.{
  ℕ, zero, suc, ◌+◌, ◌-◌, ◌*◌, ◌/◌, ◌%◌, ◌^◌, ◌≤◌, ◌<◌, min, max, String, ◌≡◌, refl, sym, ap, ◌∙◌,
  ◌≢◌, ◌↔◌, ◌⊎◌, inl, inr, Bool, true, false, not, ◌&&◌, ◌||◌, Option, none, some, List, [], ◌∷◌,
  ◌++◌, map, reverse, append-nil, append_assoc, arith, ltb, leb, nat_beq, nat_beq_iff, Eq, ◌==◌,
  nat_eq, text_eq, text_beq, text_beq_iff, if◌then◌else◌, ltb→lt, lt→ltb, leb→le, le→leb, tests,
  Bool-cases, Option-cases, length, get_elem?, take, drop, keep, any, all, All, All-append,
  All-drop, length-append, length-take, length-drop, length-keep, drop-append, take-append, Text,
  codes, is_upper, is_lower, is_digit, is_space, lower, to_lower, trim_left, trim_space,
}

pub data TaskStatus : Type 0 where
  idle running disabled error : TaskStatus

pub data RunStatus : Type 0 where
  running success failed timeout cancelled skipped abandoned : RunStatus

pub data Trigger : Type 0 where
  schedule manual retry migration system : Trigger

pub data MissedPolicy : Type 0 where
  run_once skip : MissedPolicy

pub record Task : Type 0 where
  pub id : Text
  pub kind : Text
  pub name : Text
  pub enabled : Bool
  pub status : TaskStatus
  pub missed_policy : MissedPolicy
  pub timeout_seconds : ℕ
  pub next_run_at : Option ℕ
  pub last_run_at : Option ℕ
  pub last_finished_at : Option ℕ
  pub last_status : Option RunStatus
  pub last_error : Text
  pub last_duration_ms : ℕ
  pub last_run_id : Text
  pub locked_by : Text
  pub locked_until : Option ℕ
  pub version : ℕ

pub record Run : Type 0 where
  pub id : Text
  pub task_id : Text
  pub task_type : Text
  pub task_name : Text
  pub trigger : Trigger
  pub status : RunStatus
  pub attempt : ℕ
  pub task_version : ℕ
  pub runner_id : Text
  pub started_at : ℕ
  pub finished_at : Option ℕ
  pub duration_ms : ℕ
  pub error_message : Text

pub record Db : Type 0 where
  pub tasks : List Task
  pub runs : List Run

abbrev pub is_running : RunStatus → Bool
is_running running = true
is_running _ = false

-- `UPDATE ... SET f WHERE p`
abbrev pub update_where {ℓ} : {A : Type ℓ} → (A → Bool) → (A → A) → List A → List A
update_where p f [] = []
update_where p f (x ∷ xs) = (if p x then f x else x) ∷ update_where p f xs

-- The rows that a WHERE clause selects, counted.
abbrev pub count_where {ℓ} : {A : Type ℓ} → (A → Bool) → List A → ℕ
count_where p [] = 0
count_where p (x ∷ xs) = if p x then suc (count_where p xs) else count_where p xs

-- The first row that a WHERE clause selects.
abbrev pub first_where {ℓ} : {A : Type ℓ} → (A → Bool) → List A → Option A
first_where p [] = none
first_where p (x ∷ xs) = if p x then some x else first_where p xs

-- now.Sub(start).Milliseconds(), and 0 if that is negative
abbrev pub millis_between : ℕ → ℕ → ℕ
millis_between start now = (now - start) / 1_000_000
