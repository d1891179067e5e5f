-- ===== src/Tasks/Exclusion/Claiming.antt =====
-- Claims and the tables together (`BeginRunVersion` of internal/scheduledtask/repo.go).
use nx_panel.Tasks.{Trigger, Task, Run, Db, update_where, first_where}
use nx_panel.Tasks.Repo.{
  recover_expired_locks, is_claimable, claim_task, new_run, Claim, begin_run_version,
}
use nx_panel.Tasks.Locks.{
  Unique, has, Holds, IsHeld, IsConsistent, map-update_where, All-update_where, All-imp, fresh_key,
}
use nx_panel.Tasks.Exclusion.Recovery.{
  recover_expired_locks-IsConsistent, free-recover, IsFreeOnlyUnlocked,
}
use nx_panel.Base.{
  ℕ, ◌≡◌, refl, sym, ap, ◌∙◌, ◌≢◌, inl, inr, Bool, true, false, Option, none, some, List, [], ◌∷◌,
  map, arith, ◌==◌, nat_eq, text_eq, text_beq_iff, Bool-cases, Option-cases, any, All, Text,
}

All-both :
    {A : Type 0} (P Q : A → Type 0) (xs : List A) → All P xs → All Q xs → All (λ x. P x × Q x) xs
All-both P Q [] h k = tt
All-both P Q (x ∷ xs) h k = ((h.0, k.0), All-both P Q xs h.1 k.1)

has-first_where :
    (p : Task → Bool) (ts : List Task) (t : Task)
    → first_where p ts ≡ some t
    → has t.id (map (λ t. t.id) ts) ≡ true
has-first_where p [] t e = absurd (cc e)
has-first_where p (x ∷ ts) t e = elim (Bool-cases (p x)) [
  | inl wanted ↦
      let same : some x ≡ some t = rw wanted at e in
      let ids : x.id ≡ t.id = ap (λ (o : Option Task). elim o [ none ↦ [] | some y ↦ y.id ]) same in
      ground (arith, text_beq_iff x.id t.id)
  | inr other ↦ ground (arith, has-first_where p ts t (rw other at e))
]

ne-of-has : (k j : Text) (ks : List Text) → All (λ i. i ≢ k) ks → has j ks ≡ true → j ≢ k
ne-of-has k j [] h e = absurd (cc e)
ne-of-has k j (i ∷ ks) h e = elim (Bool-cases (i == j)) [
  | inl same ↦ λ eq. h.0 ((text_beq_iff i j).0 same ∙ eq)
  | inr other ↦ ne-of-has k j ks h.1 (rw other at e)
]

-- With unique identifiers, a row that the clause does not select is not the selected task's.
only_claimed :
    (p : Task → Bool) (ts : List Task) (found : Task)
    → Unique (map (λ t. t.id) ts)
    → first_where p ts ≡ some found
    → All (λ t. p t ≡ false → t.id ≢ found.id) ts
only_claimed p [] found u e = tt
only_claimed p (x ∷ ts) found u e = elim (Bool-cases (p x)) [
  | inl wanted ↦
      let same : some x ≡ some found = rw wanted at e in
      let ids : x.id ≡ found.id =
        ap (λ (o : Option Task). elim o [ none ↦ [] | some y ↦ y.id ]) same in
      ((λ not_wanted. absurd (cc (wanted, not_wanted))), later ts (rw ids at u.0))
  | inr other ↦
      let rest : first_where p ts ≡ some found = rw other at e in
      (
        (λ _ eq.
            ne-of-has x.id found.id (map (λ t. t.id) ts) u.0 (has-first_where p ts found rest)
              (sym eq)),
        only_claimed p ts found u.1 rest,
      )
]
  where
    later :
        (l : List Task)
        → All (λ j. j ≢ found.id) (map (λ t. t.id) l)
        → All (λ t. p t ≡ false → t.id ≢ found.id) l
    later [] h = tt
    later (y ∷ l) h = ((λ _. h.0), later l h.1)

module _ (db : Db) (task_id : Text) (trigger : Trigger) (runner_id : Text) (expected now : ℕ)
    (run_id : Text) (named : runner_id ≢ []) (c : IsConsistent db) (found : Task)
    (picked : first_where (is_claimable task_id trigger expected now) db.tasks ≡ some found)
    (unlocked : All (IsFreeOnlyUnlocked now task_id) db.tasks) where
  wanted : Task → Bool
  wanted = is_claimable task_id trigger expected now

  claim : Task → Task
  claim = claim_task runner_id run_id now

  ids-claim : map (λ t. t.id) (update_where wanted claim db.tasks) ≡ map (λ t. t.id) db.tasks
  unfolding claim claim_task
  ids-claim = map-update_where (λ t. t.id) wanted claim db.tasks (λ t. refl)

  run : Run
  run = new_run run_id trigger runner_id now (claim found)

  IsHeld-new : IsHeld (update_where wanted claim db.tasks) run
  unfolding wanted run new_run claim claim_task
  IsHeld-new = λ _.
      All-update_where (λ t. wanted t ≡ false → t.id ≢ found.id) (Holds run) wanted claim db.tasks
        (λ t _ _ _. (refl, named)) (λ t other skipped same. absurd (other skipped same))
        (only_claimed wanted db.tasks found c.task_ids picked)

  -- A task that is claimed had no lock, so no run of it was running.
  IsHeld-old : (r : Run) → IsHeld db.tasks r → IsHeld (update_where wanted claim db.tasks) r
  unfolding wanted claim claim_task is_claimable
  IsHeld-old r held = λ active.
      All-update_where (λ t. Holds r t × IsFreeOnlyUnlocked now task_id t) (Holds r) wanted claim
        db.tasks (λ t h chosen same. absurd ((h.0 same).1 (h.1 (ground arith) (ground arith))))
        (λ t h _. h.0)
        (All-both (Holds r) (IsFreeOnlyUnlocked now task_id) db.tasks (held active) unlocked)

  claim-IsConsistent :
      any (λ r. r.id == run_id) db.runs ≡ false
      → IsConsistent (record { tasks = update_where wanted claim db.tasks; runs = run ∷ db.runs })
  unfolding run new_run claim claim_task wanted
  claim-IsConsistent fresh = record {
    task_ids = rw ids-claim c.task_ids;
    run_ids = (fresh_key (λ r. r.id) run_id db.runs fresh, c.run_ids);
    foreign = (
      rw ids-claim (has-first_where wanted db.tasks found picked),
      All-imp _ _ db.runs (λ r there. rw ids-claim there) c.foreign,
    );
    held = (IsHeld-new, All-imp (IsHeld db.tasks) _ db.runs IsHeld-old c.held);
  }

-- Claiming keeps the tables consistent, whether the claim is refused or given.
pub begin_run_version-IsConsistent :
    (db db' : Db) (task_id : Text) (trigger : Trigger) (runner_id : Text) (expected now : ℕ)
    (run_id : Text) (answer : Claim)
    → runner_id ≢ []
    → IsConsistent db
    → begin_run_version db task_id trigger runner_id expected now run_id ≡ some (db', answer)
    → IsConsistent db'
unfolding begin_run_version
begin_run_version-IsConsistent db db' task_id trigger runner_id expected now run_id answer named c
      e =
    let recovered = recover_expired_locks db now task_id in
    let good = recover_expired_locks-IsConsistent db now task_id c in
    elim (Option-cases (first_where (is_claimable task_id trigger expected now) recovered.tasks)) [
      | inl absent ↦
          let same : recovered ≡ db' = ap chosen (rw (absent, begin_run_version) at e) in
          rw (← same) good
      | inr (found, picked) ↦ elim (Bool-cases (any (λ r. r.id == run_id) recovered.runs)) [
        | inl taken ↦ absurd (cc (rw (picked, begin_run_version, taken) at e))
        | inr fresh ↦ rw (← ap chosen (rw (picked, begin_run_version, fresh) at e)) (
            unfold wanted run claim in
            claim-IsConsistent recovered task_id trigger runner_id expected now run_id named good
              found picked (free-recover db now task_id) fresh)
      ]
    ]
  where
    chosen : Option (Db × Claim) → Db
    chosen none = db
    chosen (some (d, _)) = d
