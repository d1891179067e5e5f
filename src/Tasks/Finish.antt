-- ===== src/Tasks/Finish.antt =====
-- What the end of a run writes (`FinishRun`).
use nx_panel.Tasks.{
  TaskStatus, idle, disabled, error, success, failed, timeout, cancelled, skipped, abandoned,
  RunStatus, Trigger, Task, Run, Db, update_where, count_where, first_where, millis_between,
}
use nx_panel.Tasks.Repo.{
  recover_expired_locks, is_claimable, claim_task, new_run, Claim, refused, claimed,
  begin_run_version, FinishOutcome, owns_lock, release_matching_lock, is_own_run, owns_version,
  settle_task, finish_run, finalize_run, next_status,
}
use nx_panel.Tasks.Locks.{Unique, IsConsistent}
use nx_panel.Tasks.Exclusion.{recover_expired_locks-IsConsistent}
use nx_panel.Base.{
  ℕ, suc, ◌≡◌, refl, ap, ◌∙◌, ◌≢◌, inl, inr, Bool, true, false, Option, none, some, List, [], ◌∷◌,
  map, arith, ◌+◌, ◌-◌, ◌/◌, not, ◌==◌, nat_eq, text_eq, text_beq_iff, Bool-cases, Option-cases,
  any, keep, sym, All, Text,
}

update_where-none :
    {A : Type 0} (p : A → Bool) (f : A → A) (l : List A)
    → All (λ x. p x ≡ false) l
    → update_where p f l ≡ l
update_where-none p f [] h = refl
update_where-none p f (x ∷ l) h = rw h.0 (ap (λ r. x ∷ r) (update_where-none p f l h.1))

count_where-none :
    {A : Type 0} (p : A → Bool) (l : List A) → All (λ x. p x ≡ false) l → count_where p l ≡ 0
count_where-none p [] h = refl
count_where-none p (x ∷ l) h = rw h.0 (count_where-none p l h.1)

not_owned :
    (task_id : Text) (run : Run) (ts : List Task)
    → All (λ t. t.id ≡ task_id → t.last_run_id ≢ run.id) ts
    → All (λ t. owns_lock task_id run t ≡ false) ts
      × All (λ t. owns_version task_id run t ≡ false) ts
unfolding owns_lock owns_version
not_owned task_id run [] h = (tt, tt)
not_owned task_id run (t ∷ ts) h =
    let (locks, versions) = not_owned task_id run ts h.1 in
    elim (Bool-cases (t.id == task_id)) [
      | inl own ↦
          let other : (t.last_run_id == run.id) ≡ false =
            ground
              (arith, h.0 ((text_beq_iff t.id task_id).0 own), text_beq_iff t.last_run_id run.id) in
          ((rw (own, other), locks), (rw (own, other) (ground arith), versions))
      | inr other ↦ ((rw other, locks), (rw other, versions))
    ]

-- The end of a run whose task has moved on to another run writes nothing into the tasks.
pub finish_run-tasks_stale :
    (db : Db) (task : Task) (run : Run) (status : RunStatus) (err_text : Text) (next : Option ℕ)
    (finished_at : ℕ)
    → All (λ t. t.id ≡ task.id → t.last_run_id ≢ run.id) db.tasks
    → (finish_run db task run status err_text next finished_at).0.tasks ≡ db.tasks
unfolding finish_run release_matching_lock
finish_run-tasks_stale db task run status err_text at finished_at h =
    let (locks, versions) = not_owned task.id run db.tasks h in
    let settled =
      update_where-none (owns_version task.id run)
        (settle_task task status err_text at finished_at
          (millis_between run.started_at finished_at))
        db.tasks versions in
    let released =
      update_where-none (owns_lock task.id run)
        (λ t. record t { locked_by = []; locked_until = none }) db.tasks locks in
    let none' = count_where-none (owns_version task.id run) db.tasks versions in
    elim (Bool-cases (count_where (is_own_run run) db.runs == 1)) [
      | inr gone ↦ rw (gone, released)
      | inl one ↦ rw (one, none', settled, released)
    ]

ids_ne :
    (k : Text) (p : Task → Bool) (l : List Task)
    → ((x : Task) → p x ≡ true → x.id ≡ k)
    → All (λ j. j ≢ k) (map (λ t. t.id) l)
    → All (λ x. p x ≡ false) l
ids_ne k p [] only h = tt
ids_ne k p (x ∷ l) only h =
    (elim (Bool-cases (p x)) [ inl e ↦ absurd (h.0 (only x e)) | inr e ↦ e ], ids_ne k p l only h.1)

first_where-id :
    (k : Text) (p : Task → Bool) (l : List Task) (found : Task)
    → ((x : Task) → p x ≡ true → x.id ≡ k)
    → first_where p l ≡ some found
    → (p found ≡ true) × (All (λ j. j ≢ k) (map (λ t. t.id) l) → ⊥)
first_where-id k p [] found only e = absurd (cc e)
first_where-id k p (x ∷ l) found only e = elim (Bool-cases (p x)) [
  | inl wanted ↦
      let same : x ≡ found =
        ap (λ (o : Option Task). elim o [ none ↦ x | some y ↦ y ]) (rw wanted at e) in
      (rw same at wanted, λ h. h.0 (only x wanted))
  | inr other ↦
      let (chosen, there) = first_where-id k p l found only (rw other at e) in
      (chosen, λ h. there h.1)
]

-- Exactly one row carries what the claim wrote.
count-claimed :
    (k : Text) (wanted p : Task → Bool) (f : Task → Task) (l : List Task) (found : Task)
    → ((x : Task) → wanted x ≡ true → x.id ≡ k)
    → ((x : Task) → p x ≡ true → x.id ≡ k)
    → ((x : Task) → (f x).id ≡ x.id)
    → p (f found) ≡ true
    → Unique (map (λ t. t.id) l)
    → first_where wanted l ≡ some found
    → count_where p (update_where wanted f l) ≡ 1
count-claimed k wanted p f [] found only_w only_p ids mine u e = absurd (cc e)
count-claimed k wanted p f (x ∷ l) found only_w only_p ids mine u e = elim (Bool-cases (wanted x)) [
  | inl chosen ↦
      let same : x ≡ found =
        ap (λ (o : Option Task). elim o [ none ↦ x | some y ↦ y ]) (rw chosen at e) in
      let others : All (λ j. j ≢ k) (map (λ t. t.id) l) = rw (only_w x chosen) at u.0 in
      let kept : update_where wanted f l ≡ l =
        update_where-none wanted f l (ids_ne k wanted l only_w others) in
      let here : p (f x) ≡ true = rw same mine in
      rw (chosen, here, kept) (ap suc (count_where-none p l (ids_ne k p l only_p others)))
  | inr other ↦
      let rest : first_where wanted l ≡ some found = rw other at e in
      let skip : p x ≡ false = elim (Bool-cases (p x)) [
        | inl mine' ↦
            absurd ((first_where-id k wanted l found only_w rest).1 (rw (only_p x mine') at u.0))
        | inr e' ↦ e'
      ] in
      rw (other, skip) (count-claimed k wanted p f l found only_w only_p ids mine u.1 rest)
]

-- The row of an identifier, after a change of that row alone, and the other rows.
module _ {A : Type 0} (id_of : A → Text) (k : Text) (p : A → Bool) (f : A → A)
    (only : (x : A) → p x ≡ true → id_of x ≡ k) (ids : (x : A) → id_of (f x) ≡ id_of x) where
  first_where-update_where :
      (l : List A) (x : A)
      → p x ≡ true
      → first_where (λ y. id_of y == k) l ≡ some x
      → first_where (λ y. id_of y == k) (update_where p f l) ≡ some (f x)
  first_where-update_where [] x mine e = absurd (cc e)
  first_where-update_where (y ∷ l) x mine e = elim (Bool-cases (id_of y == k)) [
    | inl own ↦
        let same : y ≡ x = ap (λ (o : Option A). elim o [ none ↦ y | some z ↦ z ]) (rw own at e) in
        let chosen : p y ≡ true = ap p same ∙ mine in
        let own' : (id_of (f y) == k) ≡ true = ap (λ i. i == k) (ids y) ∙ own in
        rw (chosen, own') (ap (λ z. some (f z)) same)
    | inr other ↦
        let skip : p y ≡ false = elim (Bool-cases (p y)) [
          | inl mine' ↦ absurd (cc (sym other ∙ (text_beq_iff (id_of y) k).1 (only y mine')))
          | inr e' ↦ e'
        ] in
        rw (skip, other) (first_where-update_where l x mine (rw other at e))
  ]

  keep-update_where :
      (l : List A)
      → keep (λ y. not (id_of y == k)) (update_where p f l) ≡ keep (λ y. not (id_of y == k)) l
  keep-update_where [] = refl
  keep-update_where (y ∷ l) = elim (Bool-cases (p y)) [
    | inl mine ↦
        let own : (id_of y == k) ≡ true = (text_beq_iff (id_of y) k).1 (only y mine) in
        let own' : (id_of (f y) == k) ≡ true = ap (λ i. i == k) (ids y) ∙ own in
        rw (mine, own, own') (keep-update_where l)
    | inr skip ↦ rw skip (elim (Bool-cases (id_of y == k)) [
      | inl own ↦ rw own (keep-update_where l)
      | inr other ↦ rw other (ap (λ r. y ∷ r) (keep-update_where l))
    ])
  ]

first_where-key :
    (k : Text) (p : Task → Bool) (l : List Task) (found : Task)
    → ((x : Task) → p x ≡ true → x.id ≡ k)
    → Unique (map (λ t. t.id) l)
    → first_where p l ≡ some found
    → first_where (λ t. t.id == k) l ≡ some found
first_where-key k p [] found only u e = absurd (cc e)
first_where-key k p (x ∷ l) found only u e = elim (Bool-cases (p x)) [
  | inl wanted ↦
      let own : (x.id == k) ≡ true = (text_beq_iff x.id k).1 (only x wanted) in
      rw own (rw wanted at e)
  | inr skip ↦
      let rest : first_where p l ≡ some found = rw skip at e in
      elim (Bool-cases (x.id == k)) [
        | inl own ↦
            absurd
              ((first_where-id k p l found only rest).1 (rw ((text_beq_iff x.id k).0 own) at u.0))
        | inr other ↦ rw other (first_where-key k p l found only u.1 rest)
      ]
]

abbrev pub is_final : FinishOutcome
is_final = record { run_finalized = true; schedule_updated = true; stale = false }

-- What is known of a claimed task and of a claimed run when the run has ended.
abbrev pub status_after : Bool → RunStatus → TaskStatus
status_after false status = disabled
status_after true success = idle
status_after true _ = error

next_status_lem :
    (task : Task) (status : RunStatus) → next_status task status ≡ status_after task.enabled status
unfolding next_status
next_status_lem task success = ground arith
next_status_lem task RunStatus.running = ground arith
next_status_lem task failed = ground arith
next_status_lem task timeout = ground arith
next_status_lem task cancelled = ground arith
next_status_lem task skipped = ground arith
next_status_lem task abandoned = ground arith

abbrev pub ended_task : Task → Run → RunStatus → Text → Option ℕ → ℕ → Task
ended_task task run status err_text next finished_at = record task {
  status = status_after task.enabled status;
  next_run_at = next;
  last_finished_at = some finished_at;
  last_status = some status;
  last_error = err_text;
  last_duration_ms = (finished_at - run.started_at) / 1_000_000;
  locked_by = [];
  locked_until = none;
  version = run.task_version + 1;
}

abbrev pub ended_run : Run → RunStatus → Text → ℕ → Run
ended_run run status err_text finished_at = record run {
  status = status;
  finished_at = some finished_at;
  duration_ms = (finished_at - run.started_at) / 1_000_000;
  error_message = err_text;
}

-- The outcome of the end of a run and the rows of both tables: those of the task and of the run, and
-- the others, which stay.
pub record IsEnded (db : Db) (task : Task) (run : Run) (status : RunStatus) (err_text : Text)
    (next : Option ℕ) (finished_at : ℕ) : Type 0 where
  pub outcome : (finish_run db task run status err_text next finished_at).1 ≡ is_final
  pub own_task :
      first_where
        (λ t. t.id == task.id)
        (finish_run db task run status err_text next finished_at).0.tasks
      ≡ some (ended_task task run status err_text next finished_at)
  pub own_run :
      first_where
        (λ r. r.id == run.id)
        (finish_run db task run status err_text next finished_at).0.runs
      ≡ some (ended_run run status err_text finished_at)
  pub other_tasks :
      keep
        (λ t. not (t.id == task.id))
        (finish_run db task run status err_text next finished_at).0.tasks
      ≡ keep (λ t. not (t.id == task.id)) db.tasks
  pub other_runs :
      keep
        (λ r. not (r.id == run.id))
        (finish_run db task run status err_text next finished_at).0.runs
      ≡ keep (λ r. not (r.id == run.id)) db.runs

module _ (db : Db) (task_id : Text) (trigger : Trigger) (runner_id : Text) (expected now : ℕ)
    (run_id : Text) (c : IsConsistent db) (found : Task)
    (picked : first_where (is_claimable task_id trigger expected now) db.tasks ≡ some found)
    (fresh : All (λ r. r.id ≢ run_id) db.runs) where
  abbrev claimed_task : Task
  claimed_task = claim_task runner_id run_id now found

  abbrev claimed_run : Run
  claimed_run = new_run run_id trigger runner_id now claimed_task

  abbrev claimed_db : Db
  claimed_db = record {
    tasks =
        update_where (is_claimable task_id trigger expected now) (claim_task runner_id run_id now)
          db.tasks;
    runs = claimed_run ∷ db.runs;
  }

  others_not_own :
      (l : List Run) → All (λ r. r.id ≢ run_id) l → All (λ r. is_own_run claimed_run r ≡ false) l
  unfolding is_own_run new_run
  others_not_own [] h = tt
  others_not_own (r ∷ l) h = (ground (arith, h.0, text_beq_iff r.id run_id), others_not_own l h.1)

  own_run_self : is_own_run claimed_run claimed_run ≡ true
  unfolding is_own_run new_run
  own_run_self = ground (arith, text_beq_iff run_id run_id, text_beq_iff runner_id runner_id)

  one_run : count_where (is_own_run claimed_run) claimed_db.runs ≡ 1
  one_run =
      rw own_run_self
        (ap suc (count_where-none (is_own_run claimed_run) db.runs (others_not_own db.runs fresh)))

  own_w : (x : Task) → is_claimable task_id trigger expected now x ≡ true → x.id ≡ task_id
  unfolding is_claimable
  own_w x e = (text_beq_iff x.id task_id).0 (ground arith)

  found_id : found.id ≡ task_id
  found_id =
      own_w found
        (first_where-id task_id (is_claimable task_id trigger expected now) db.tasks found own_w
          picked).0

  owned : owns_version found.id claimed_run claimed_task ≡ true
  unfolding owns_version claim_task new_run
  owned = ground (
    arith,
    text_beq_iff found.id found.id,
    text_beq_iff run_id run_id,
    text_beq_iff runner_id runner_id,
  )

  one_task : count_where (owns_version claimed_task.id claimed_run) claimed_db.tasks ≡ 1
  unfolding claim_task new_run
  one_task =
      count-claimed task_id (is_claimable task_id trigger expected now)
        (owns_version found.id claimed_run) (claim_task runner_id run_id now) db.tasks found own_w
        (λ x e. unfold owns_version in (text_beq_iff x.id found.id).0 (ground arith) ∙ found_id)
        (λ x. refl) owned c.task_ids picked

  abbrev ended : RunStatus → Text → Option ℕ → ℕ → Db
  ended status err_text next finished_at = record {
    tasks =
        update_where (owns_version claimed_task.id claimed_run)
          (settle_task claimed_task status err_text next finished_at
            (millis_between now finished_at))
          claimed_db.tasks;
    runs =
        update_where (is_own_run claimed_run)
          (finalize_run status err_text (millis_between now finished_at) finished_at)
          claimed_db.runs;
  }

  final :
      (status : RunStatus) (err_text : Text) (next : Option ℕ) (finished_at : ℕ)
      → finish_run claimed_db claimed_task claimed_run status err_text next finished_at
        ≡ (ended status err_text next finished_at, is_final)
  unfolding finish_run new_run
  final status err_text next finished_at = rw (one_run, one_task)

  task_row : first_where (λ t. t.id == found.id) claimed_db.tasks ≡ some claimed_task
  unfolding claim_task
  task_row =
      ap (λ k. first_where (λ t. t.id == k) claimed_db.tasks) found_id
      ∙ first_where-update_where (λ (t : Task). t.id) task_id
          (is_claimable task_id trigger expected now) (claim_task runner_id run_id now) own_w
          (λ x. refl) db.tasks found
          (first_where-id task_id (is_claimable task_id trigger expected now) db.tasks found own_w
            picked).0
          (first_where-key task_id (is_claimable task_id trigger expected now) db.tasks found own_w
            c.task_ids picked)

  rows_after :
      (status : RunStatus) (err_text : Text) (next : Option ℕ) (finished_at : ℕ)
      → IsEnded claimed_db claimed_task claimed_run status err_text next finished_at
  unfolding claim_task new_run settle_task finalize_run
  rows_after status err_text next finished_at =
      let e = final status err_text next finished_at in
      let settle =
        settle_task claimed_task status err_text next finished_at
          (millis_between now finished_at) in
      let finalize = finalize_run status err_text (millis_between now finished_at) finished_at in
      let only_task : (x : Task) → owns_version found.id claimed_run x ≡ true → x.id ≡ found.id =
        λ x h. unfold owns_version in (text_beq_iff x.id found.id).0 (ground arith) in
      let only_run : (x : Run) → is_own_run claimed_run x ≡ true → x.id ≡ run_id =
        λ x h. unfold is_own_run in (text_beq_iff x.id run_id).0 (ground arith) in
      record {
        outcome = ap (λ (r : Db × FinishOutcome). r.1) e;
        own_task =
            ap (λ (r : Db × FinishOutcome). first_where (λ t. t.id == found.id) r.0.tasks) e
            ∙ first_where-update_where (λ (t : Task). t.id) found.id
                (owns_version found.id claimed_run) settle only_task (λ x. refl) claimed_db.tasks
                claimed_task owned task_row
            ∙ ap
                (λ st.
                  some
                    (record (ended_task claimed_task claimed_run status err_text next finished_at) {
                      status = st;
                    }))
                (next_status_lem claimed_task status);
        own_run =
            ap (λ (r : Db × FinishOutcome). first_where (λ t. t.id == run_id) r.0.runs) e
            ∙ first_where-update_where (λ (t : Run). t.id) run_id (is_own_run claimed_run) finalize
                only_run (λ x. refl) claimed_db.runs claimed_run own_run_self
                (rw ((text_beq_iff run_id run_id).1 refl));
        other_tasks =
            ap (λ (r : Db × FinishOutcome). keep (λ t. not (t.id == found.id)) r.0.tasks) e
            ∙ keep-update_where (λ (t : Task). t.id) found.id (owns_version found.id claimed_run)
                settle only_task (λ x. refl) claimed_db.tasks;
        other_runs =
            ap (λ (r : Db × FinishOutcome). keep (λ t. not (t.id == run_id)) r.0.runs) e
            ∙ keep-update_where (λ (t : Run). t.id) run_id (is_own_run claimed_run) finalize
                only_run (λ x. refl) claimed_db.runs;
      }

unused_id :
    (run_id : Text) (l : List Run)
    → any (λ r. r.id == run_id) l ≡ false
    → All (λ r. r.id ≢ run_id) l
unused_id run_id [] e = tt
unused_id run_id (r ∷ l) e =
    ((λ same. ground (arith, text_beq_iff r.id run_id)), unused_id run_id l (ground arith))

-- What the end of the run says, on the answer of a claim.
abbrev pub EndsFinally : Option (Db × Claim) → RunStatus → Text → Option ℕ → ℕ → Type 0
EndsFinally none status err_text at finished_at = Unit
EndsFinally (some (db, refused found)) status err_text at finished_at = Unit
EndsFinally (some (db, claimed task run)) status err_text at finished_at =
    IsEnded db task run status err_text at finished_at

-- A run that ends right after its claim is final and not stale. Its row has the end's status, time,
-- duration and error; its task's row has these too, the next time, a status that tells success from
-- failure, no lock and the next version; every other row stays. The tables are consistent at first.
pub finish_run-begin_run_version :
    (db : Db) (task_id : Text) (trigger : Trigger) (runner_id : Text) (expected now : ℕ)
    (run_id : Text) (status : RunStatus) (err_text : Text) (next : Option ℕ) (finished_at : ℕ)
    → IsConsistent db
    → EndsFinally
        (begin_run_version db task_id trigger runner_id expected now run_id)
        status
        err_text
        next
        finished_at
unfolding begin_run_version
finish_run-begin_run_version db task_id trigger runner_id expected now run_id status err_text at
      finished_at c =
    let recovered = recover_expired_locks db now task_id in
    let good = recover_expired_locks-IsConsistent db now task_id c in
    elim (Option-cases (first_where (is_claimable task_id trigger expected now) recovered.tasks)) [
      | inl absent ↦ rw (absent, begin_run_version) tt
      | inr (found, picked) ↦ elim (Bool-cases (any (λ r. r.id == run_id) recovered.runs)) [
        | inl taken ↦ rw (picked, begin_run_version, taken) tt
        | inr fresh ↦
            rw (picked, begin_run_version, fresh)
              (rows_after recovered task_id trigger runner_id expected now run_id good found picked
                (unused_id run_id recovered.runs fresh) status err_text at finished_at)
      ]
    ]
