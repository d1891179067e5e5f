-- ===== src/Tasks/Exclusion/Systems.antt =====
-- What the claims that were given say of the runs, and that at most one run of a task is running
-- (internal/scheduledtask/repo.go).
use nx_panel.Tasks.{
  RunStatus, Trigger, Task, Run, Db, is_running, update_where, count_where, first_where,
  millis_between,
}
use nx_panel.Tasks.Repo.{
  recover_expired_locks, is_claimable, is_expired_run, abandon_run, new_run, Claim, refused,
  claimed, begin_run_version, is_own_run, finalize_run, finish_run, update_next_run, update,
  set_enabled, delete, create, prune_runs,
}
use nx_panel.Tasks.Locks.{
  Unique, has, Holds, IsHeld, IsConsistent, All-update_where, All-imp, All-keep,
}
use nx_panel.Tasks.Exclusion.Recovery.{recover_expired_locks-IsConsistent}
use nx_panel.Tasks.Exclusion.Claiming.{begin_run_version-IsConsistent}
use nx_panel.Tasks.Exclusion.Edits.{
  IsClaimOf, finish_run-IsConsistent, update_next_run-IsConsistent, update-IsConsistent,
  set_enabled-IsConsistent, delete-IsConsistent, create-IsConsistent, prune_runs-IsConsistent,
}
use mathlib.Core.Path.{subst}
use nx_panel.Base.{
  ℕ, zero, suc, ◌≤◌, ◌≡◌, refl, sym, ap, ◌∙◌, ◌≢◌, inl, inr, Bool, true, false, ◌&&◌, Option, none,
  some, List, [], ◌∷◌, map, arith, ◌==◌, nat_eq, text_eq, text_beq_iff, if◌then◌else◌, Bool-cases,
  Option-cases, get_elem?, keep, any, All, Text,
}
use nx_panel.Tasks.Exclusion.Steps.{
  System, start, Step, Reach, claim, refuse, finish, recover, reschedule, edit, enable, remove, add,
  prune, here, after,
}

abbrev Knows : List (Task × Run) → List Run → Type 0
Knows given runs = All (λ g. All (IsClaimOf g.1) runs) given

pub record IsSound (s : System) : Type 0 where
  pub consistent : IsConsistent s.db
  pub known : Knows s.given s.db.runs

-- An update that keeps a run's identifier, version and runner keeps what the claims say of it.
Knows-update_where :
    (given : List (Task × Run)) (p : Run → Bool) (f : Run → Run) (runs : List Run)
    → ((r : Run) → (f r).id ≡ r.id)
    → ((r : Run) → (f r).task_version ≡ r.task_version)
    → ((r : Run) → (f r).runner_id ≡ r.runner_id)
    → Knows given runs
    → Knows given (update_where p f runs)
Knows-update_where given p f runs ids versions runners = All-imp _ _ given (λ g.
    All-update_where (IsClaimOf g.1) (IsClaimOf g.1) p f runs
      (λ r h _ same.
        (versions r ∙ (h (sym (ids r) ∙ same)).0, runners r ∙ (h (sym (ids r) ∙ same)).1))
      (λ r h _. h))

Knows-keep :
    (given : List (Task × Run)) (p : Run → Bool) (runs : List Run)
    → Knows given runs
    → Knows given (keep p runs)
Knows-keep given p runs =
    All-imp _ _ given (λ g. All-keep (IsClaimOf g.1) (IsClaimOf g.1) p runs (λ r h _. h))

Knows-recover :
    (given : List (Task × Run)) (db : Db) (now : ℕ) (task_id : Text)
    → Knows given db.runs
    → Knows given (recover_expired_locks db now task_id).runs
unfolding recover_expired_locks abandon_run
Knows-recover given db now task_id =
    Knows-update_where given (is_expired_run now task_id db.tasks) (abandon_run now) db.runs
      (λ r. refl) (λ r. refl) (λ r. refl)

runs-finish :
    (db : Db) (task : Task) (run : Run) (status : RunStatus) (err_text : Text) (next : Option ℕ)
    (finished_at : ℕ)
    → (finish_run db task run status err_text next finished_at).0.runs
      ≡ update_where
          (is_own_run run)
          (finalize_run status err_text (millis_between run.started_at finished_at) finished_at)
          db.runs
unfolding finish_run
runs-finish db task run status err_text at finished_at = ground arith

-- What an answer of `begin_run_version` says of the runs.
abbrev HasAnswer : Db → Text → Db → Claim → Type 0
HasAnswer recovered run_id db' (refused _) = db'.runs ≡ recovered.runs
HasAnswer recovered run_id db' (claimed task run) =
    (db'.runs ≡ run ∷ recovered.runs) × (run.id ≡ run_id) × All (λ r. r.id ≢ run_id) recovered.runs

abbrev HasAnswer? : Db → Text → Option (Db × Claim) → Type 0
HasAnswer? recovered run_id none = Unit
HasAnswer? recovered run_id (some (db', answer)) = HasAnswer recovered run_id db' answer

fresh_runs :
    (run_id : Text) (runs : List Run)
    → any (λ r. r.id == run_id) runs ≡ false
    → All (λ r. r.id ≢ run_id) runs
fresh_runs run_id [] e = tt
fresh_runs run_id (r ∷ runs) e =
    ((λ same. ground (arith, text_beq_iff r.id run_id)), fresh_runs run_id runs (ground arith))

begin_run_version-answer :
    (db : Db) (task_id : Text) (trigger : Trigger) (runner_id : Text) (expected now : ℕ)
    (run_id : Text)
    → HasAnswer?
        (recover_expired_locks db now task_id)
        run_id
        (begin_run_version db task_id trigger runner_id expected now run_id)
unfolding begin_run_version new_run
begin_run_version-answer db task_id trigger runner_id expected now run_id =
    let recovered = recover_expired_locks db now task_id in
    elim (Option-cases (first_where (is_claimable task_id trigger expected now) recovered.tasks)) [
      | inl absent ↦ rw (absent, begin_run_version) refl
      | inr (found, picked) ↦ elim (Bool-cases (any (λ r. r.id == run_id) recovered.runs)) [
        | inl taken ↦ rw (picked, begin_run_version, taken) tt
        | inr fresh ↦
            rw (picked, begin_run_version, fresh)
              (refl, refl, fresh_runs run_id recovered.runs fresh)
      ]
    ]

runs-create : (db db' : Db) (task : Task) → create db task ≡ some db' → db'.runs ≡ db.runs
unfolding create
runs-create db db' task e = ground arith

All-get_elem? :
    (P : Task × Run → Type 0) (given : List (Task × Run)) (i : ℕ) (g : Task × Run)
    → All P given
    → get_elem? given i ≡ some g
    → P g
All-get_elem? P [] i g h e = absurd (cc e)
All-get_elem? P (x ∷ l) zero g h e =
    let same : x ≡ g = ap (λ (o : Option (Task × Run)). elim o [ none ↦ x | some y ↦ y ]) e in
    rw same at h.0
All-get_elem? P (x ∷ l) (suc i) g h e = All-get_elem? P l i g h.1 e

Knows-claim :
    (given : List (Task × Run)) (run : Run) (runs : List Run)
    → All (λ g. g.1.id ≢ run.id) given
    → Knows given runs
    → Knows given (run ∷ runs)
Knows-claim [] run runs fresh h = tt
Knows-claim (g ∷ given) run runs fresh h =
    (((λ same. absurd (fresh.0 (sym same))), h.0), Knows-claim given run runs fresh.1 h.1)

IsClaimOf-new :
    (run : Run) (runs : List Run) → All (λ r. r.id ≢ run.id) runs → All (IsClaimOf run) (run ∷ runs)
IsClaimOf-new run runs fresh = (
  (λ _. (refl, refl)),
  All-imp _ (IsClaimOf run) runs (λ r other same. absurd (other same)) fresh,
)

Knows-begin :
    (db db' : Db) (given : List (Task × Run)) (task_id : Text) (now : ℕ) (run_id : Text)
    (task : Task) (run : Run)
    → All (λ g. g.1.id ≢ run_id) given
    → Knows given db.runs
    → HasAnswer (recover_expired_locks db now task_id) run_id db' (claimed task run)
    → Knows ((task, run) ∷ given) db'.runs
Knows-begin db db' given task_id now run_id task run fresh h (runs, id, unused) =
    subst (Knows ((task, run) ∷ given)) (sym runs) (
      IsClaimOf-new run _ (rw id unused),
      Knows-claim given run _ (rw id fresh) (Knows-recover given db now task_id h),
    )

Step-IsSound : {s t : System} → Step s t → IsSound s → IsSound t
Step-IsSound
      (claim {s} {db'} task_id trigger runner_id expected now run_id {task} {run} named fresh e) h =
    record {
      consistent =
          begin_run_version-IsConsistent s.db db' task_id trigger runner_id expected now run_id _
            named h.consistent e;
      known = Knows-begin s.db db' s.given task_id now run_id task run fresh h.known (
          subst (HasAnswer? (recover_expired_locks s.db now task_id) run_id) e
            (begin_run_version-answer s.db task_id trigger runner_id expected now run_id));
    }
Step-IsSound (refuse {s} {db'} task_id trigger runner_id expected now run_id {found} named e) h =
    record {
      consistent =
          begin_run_version-IsConsistent s.db db' task_id trigger runner_id expected now run_id _
            named h.consistent e;
      known =
          let same : db'.runs ≡ (recover_expired_locks s.db now task_id).runs =
            subst (HasAnswer? (recover_expired_locks s.db now task_id) run_id) e
              (begin_run_version-answer s.db task_id trigger runner_id expected now run_id) in
          rw same (Knows-recover s.given s.db now task_id h.known);
    }
Step-IsSound (finish {s} i task run status err_text at finished_at held ended) h = record {
  consistent =
      finish_run-IsConsistent s.db task run status err_text at finished_at ended
        (All-get_elem? (λ g. All (IsClaimOf g.1) s.db.runs) s.given i (task, run) h.known held)
        h.consistent;
  known = rw runs-finish (
      Knows-update_where s.given (is_own_run run)
        (finalize_run status err_text (millis_between run.started_at finished_at) finished_at)
        s.db.runs (λ r. unfold finalize_run in refl) (λ r. unfold finalize_run in refl)
        (λ r. unfold finalize_run in refl) h.known);
}
Step-IsSound (recover {s} now) h = record {
  consistent = recover_expired_locks-IsConsistent s.db now [] h.consistent;
  known = Knows-recover s.given s.db now [] h.known;
}
Step-IsSound (reschedule {s} task_id expected at status err_text) h = record {
  consistent = update_next_run-IsConsistent s.db task_id expected at status err_text h.consistent;
  known = unfold update_next_run in h.known;
}
Step-IsSound (edit {s} task expected) h = record {
  consistent = update-IsConsistent s.db task expected h.consistent;
  known = unfold update in h.known;
}
Step-IsSound (enable {s} task_id enabled at) h = record {
  consistent = set_enabled-IsConsistent s.db task_id enabled at h.consistent;
  known = unfold set_enabled in h.known;
}
Step-IsSound (remove {s} task_id) h = record {
  consistent = delete-IsConsistent s.db task_id h.consistent;
  known = unfold delete in Knows-keep s.given _ s.db.runs h.known;
}
Step-IsSound (add {s} {db'} task e) h = record {
  consistent = create-IsConsistent s.db db' task h.consistent e;
  known = rw (runs-create s.db db' task e) h.known;
}
Step-IsSound (prune {s} is_old) h = record {
  consistent = prune_runs-IsConsistent s.db is_old h.consistent;
  known = unfold prune_runs in Knows-keep s.given _ s.db.runs h.known;
}

Reach-IsSound : {s : System} → Reach start s → IsSound s
Reach-IsSound here = record {
  consistent = record { task_ids = tt; run_ids = tt; foreign = tt; held = tt };
  known = tt;
}
Reach-IsSound (after r step) = Step-IsSound step (Reach-IsSound r)

-- The last run of the first task with an identifier.
last_run_of : Text → List Task → Text
last_run_of k [] = []
last_run_of k (t ∷ ts) = if t.id == k then t.last_run_id else last_run_of k ts

last_run_of_held :
    (r : Run) (ts : List Task)
    → All (Holds r) ts
    → has r.task_id (map (λ t. t.id) ts) ≡ true
    → last_run_of r.task_id ts ≡ r.id
unfolding last_run_of
last_run_of_held r [] h e = absurd (cc e)
last_run_of_held r (t ∷ ts) h e = elim (Bool-cases (t.id == r.task_id)) [
  | inl same ↦ rw same (h.0 ((text_beq_iff t.id r.task_id).0 same)).0
  | inr other ↦ rw other (last_run_of_held r ts h.1 (rw other at e))
]

abbrev pub runs_now : Text → Run → Bool
runs_now task_id r = is_running r.status && (r.task_id == task_id)

count-one :
    (p : Run → Bool) (k : Text) (l : List Run)
    → All (λ r. p r ≡ true → r.id ≡ k) l
    → Unique (map (λ r. r.id) l)
    → count_where p l ≤ 1
count-one p k [] h u = omega arith
count-one p k (r ∷ l) h u = elim (Bool-cases (p r)) [
  | inl chosen ↦ rw chosen (omega (arith, count-none l h.1 (rw (h.0 chosen) at u.0)))
  | inr other ↦ rw other (count-one p k l h.1 u.1)
]
  where
    count-none :
        (m : List Run)
        → All (λ x. p x ≡ true → x.id ≡ k) m
        → All (λ j. j ≢ k) (map (λ x. x.id) m)
        → count_where p m ≡ 0
    count-none [] a b = refl
    count-none (x ∷ m) a b = elim (Bool-cases (p x)) [
      | inl chosen ↦ absurd (b.0 (a.0 chosen))
      | inr other ↦ rw other (count-none m a.1 b.1)
    ]

named_by_task :
    (db : Db) (task_id : Text) (l : List Run)
    → All (λ r. has r.task_id (map (λ t. t.id) db.tasks) ≡ true) l
    → All (IsHeld db.tasks) l
    → All (λ r. runs_now task_id r ≡ true → r.id ≡ last_run_of task_id db.tasks) l
named_by_task db task_id [] f h = tt
named_by_task db task_id (r ∷ l) f h = (each, named_by_task db task_id l f.1 h.1)
  where
    each : runs_now task_id r ≡ true → r.id ≡ last_run_of task_id db.tasks
    each e =
        let active : r.status ≡ RunStatus.running = ground arith in
        let same : r.task_id ≡ task_id = (text_beq_iff r.task_id task_id).0 (ground arith) in
        sym (rw same at (last_run_of_held r db.tasks (h.0 active) f.0))

single-run :
    (db : Db) (task_id : Text) → IsConsistent db → count_where (runs_now task_id) db.runs ≤ 1
single-run db task_id c =
    count-one (runs_now task_id) (last_run_of task_id db.tasks) db.runs
      (named_by_task db task_id db.runs c.foreign c.held) c.run_ids

-- Whatever steps the panel takes from empty tables, in whatever order, and however often a runner
-- reports an end, at most one run of a task has the status `running`.
pub Reach-single_run :
    (s : System) (task_id : Text) → Reach start s → count_where (runs_now task_id) s.db.runs ≤ 1
Reach-single_run s task_id r = single-run s.db task_id (Reach-IsSound r).consistent

-- In every reachable state the identifiers of the tasks are different, and those of the runs, every
-- run belongs to a task, and the task of a running run is locked and names that run as its last.
pub Reach-IsConsistent : (s : System) → Reach start s → IsConsistent s.db
Reach-IsConsistent s r = (Reach-IsSound r).consistent
