-- ===== src/Tasks/Due.antt =====
-- When a claim is given and when it is refused (`BeginRunVersion`).
use nx_panel.Tasks.{Trigger, schedule, Task, Db, first_where}
use nx_panel.Tasks.Stamp.{second, stamp_leb_whole}
use nx_panel.Tasks.Repo.{
  has_expired_lock, release_expired, recover_expired_locks, is_free, is_due, is_claimable,
  julianday_ltb, Claim, refused, claimed, begin_run_version,
}
use nx_panel.Tasks.Locks.{All-update_where}
use nx_panel.Base.{
  ℕ, ◌/◌, ◌%◌, ◌≤◌, ◌<◌, ◌≡◌, refl, ◌≢◌, inl, inr, Bool, false, Option, none, some, List, [], ◌∷◌,
  arith, ◌==◌, nat_eq, text_eq, text_beq_iff, Bool-cases, All, Text,
}

-- A clause that selects no row.
first_where-none :
    {A : Type 0} (p : A → Bool) (l : List A) → All (λ x. p x ≡ false) l → first_where p l ≡ none
first_where-none p [] h = refl
first_where-none p (x ∷ l) h = rw h.0 (first_where-none p l h.1)

abbrev pub IsRefused : Option (Db × Claim) → Type 0
IsRefused none = ⊥
IsRefused (some (db, refused found)) = Unit
IsRefused (some (db, claimed task run)) = ⊥

IsRefused-if :
    (db : Db) (task_id : Text) (trigger : Trigger) (runner_id : Text) (expected now : ℕ)
    (run_id : Text)
    → All
        (λ t. is_claimable task_id trigger expected now t ≡ false)
        (recover_expired_locks db now task_id).tasks
    → IsRefused (begin_run_version db task_id trigger runner_id expected now run_id)
unfolding begin_run_version
IsRefused-if db task_id trigger runner_id expected now run_id h =
    let absent =
      first_where-none (is_claimable task_id trigger expected now)
        (recover_expired_locks db now task_id).tasks h in
    rw (absent, begin_run_version) tt

-- A schedule that falls on a whole second is due before `now`, and yet the claim is refused, for
-- every `now` later in that second: the SQL compares the texts, and `Z` stands above `.`.
pub begin_run_version_same_second :
    (db : Db) (task_id runner_id : Text) (expected now next : ℕ) (run_id : Text)
    → All (λ t. t.id ≡ task_id → t.next_run_at ≡ some next) db.tasks
    → next % second ≡ 0
    → next / second ≡ now / second
    → 0 < now % second
    → (next < now) × IsRefused (begin_run_version db task_id schedule runner_id expected now run_id)
unfolding recover_expired_locks
begin_run_version_same_second db task_id runner_id expected now at run_id h whole same lt =
    let (late, before) = stamp_leb_whole at now whole same lt in
    let refuse : (t : Task)
        → (t.id ≡ task_id → t.next_run_at ≡ some at)
        → is_claimable task_id schedule expected now t ≡ false =
      λ t k.
        unfold is_claimable is_due in
        elim (Bool-cases (t.id == task_id)) [
          | inl own ↦ rw (own, k ((text_beq_iff t.id task_id).0 own), late) (ground arith)
          | inr other ↦ rw other
        ] in
    (
      before,
      IsRefused-if db task_id schedule runner_id expected now run_id (
          All-update_where (λ t. t.id ≡ task_id → t.next_run_at ≡ some at) _
            (has_expired_lock now task_id) (release_expired now) db.tasks
            (λ t k _. refuse (release_expired now t) (unfold release_expired in k))
            (λ t k _. refuse t k) h),
    )

until_before : (until now : ℕ) → now ≤ until → now / 1_000_000 ≤ until / 1_000_000
until_before until now le = omega (arith, le)

-- While a lock has not expired, every claim of its task is refused, by whatever trigger and runner.
pub begin_run_version_locked :
    (db : Db) (task_id : Text) (trigger : Trigger) (runner_id : Text) (expected now until : ℕ)
    (run_id : Text)
    → All (λ t. t.id ≡ task_id → (t.locked_by ≢ []) × (t.locked_until ≡ some until)) db.tasks
    → now ≤ until
    → IsRefused (begin_run_version db task_id trigger runner_id expected now run_id)
unfolding recover_expired_locks
begin_run_version_locked db task_id trigger runner_id expected now until run_id h le =
    let early : julianday_ltb until now ≡ false = ground (arith, until_before until now le) in
    IsRefused-if db task_id trigger runner_id expected now run_id (
      All-update_where (λ t. t.id ≡ task_id → (t.locked_by ≢ []) × (t.locked_until ≡ some until)) _
        (has_expired_lock now task_id) (release_expired now) db.tasks
        (λ t k expired. elim (Bool-cases (t.id == task_id)) [
          | inl own ↦
              let (named, lasts) = k ((text_beq_iff t.id task_id).0 own) in
              let live : has_expired_lock now task_id t ≡ false =
                unfold has_expired_lock in rw (lasts, early) (ground arith) in
              absurd (cc (live, expired))
          | inr other ↦ unfold is_claimable release_expired in rw other
        ])
        (λ t k _. elim (Bool-cases (t.id == task_id)) [
          | inl own ↦
              let (named, lasts) = k ((text_beq_iff t.id task_id).0 own) in
              unfold is_claimable is_free in
              rw (own, lasts, early) (ground (arith, text_beq_iff t.locked_by []))
          | inr other ↦ unfold is_claimable in rw other
        ])
        h)
