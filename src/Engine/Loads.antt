-- ===== src/Engine/Loads.antt =====
-- That loading a task leaves one round more to do for it (internal/scheduledtask/engine.go).
use nx_panel.Tasks.{Task, TaskStatus, Db, idle, error}
use nx_panel.Tasks.Repo.{update_next_run}
use nx_panel.Engine.{
  HeapOps, Engine, sum_by, upsert, reload_task, notify_wake, task_running_or_locked,
}
use nx_panel.Engine.Abstract.{put_next, upsert-Holds}
use nx_panel.Engine.Counts.{Schedule, Holds}
use nx_panel.Engine.Loop.{
  Call, get_call, write_call, row, is_at, optional, next_run_at, get, load_row, load_refreshed,
  load_next, load_at, load_task,
}
use nx_panel.Engine.Weights.{
  matches, weight, sum_by-weight, row-update_next_run, absent_All, absent-remove, upsert_sum,
}
use nx_panel.Base.{
  ℕ, ◌+◌, ◌≤◌, ◌≡◌, refl, ap, ◌∙◌, ◌≢◌, inl, inr, Bool, true, not, ◌||◌, Option, none, some, [],
  arith, nat_beq_iff, ◌==◌, nat_eq, text_eq, Bool-cases, Text,
}
use nx_panel.Base.Result.{Result, ok, err}
use nx_panel.Base.Store.{find}

abbrev pub load_of : Db → Engine → ℕ
load_of db e = sum_by (weight db) e.items

-- An engine with a schedule, and a bound on what is left to do.
pub record Within (heap : HeapOps) (bound : ℕ) (r : Engine × Db) : Type 0 where
  pub schedule : Schedule
  pub holds : Holds heap r.0 schedule
  pub left : load_of r.1 r.0 ≤ bound

pub reload_task-items : (e : Engine) (id : Text) → (reload_task e id).items ≡ e.items
unfolding reload_task notify_wake
reload_task-items e id = ground arith

pub reload_task-Holds :
    (heap : HeapOps) (e : Engine) (m : Schedule) (id : Text)
    → Holds heap e m
    → Holds heap (reload_task e id) m
unfolding reload_task notify_wake
reload_task-Holds heap e m id h = elim (Bool-cases (id == [] || e.stopped)) [
  | inl off ↦ rw off h
  | inr on ↦ rw on (record { ordered = h.ordered; indexed = h.indexed; items = h.items })
]

reloaded :
    (heap : HeapOps) (bound : ℕ) (e : Engine) (db : Db) (id : Text)
    → Within heap bound (e, db)
    → Within heap bound (reload_task e id, db)
reloaded heap bound e db id h = record {
  schedule = h.schedule;
  holds = reload_task-Holds heap e h.schedule id h.holds;
  left = omega (arith, h.left, ap (sum_by (weight db)) (reload_task-items e id));
}

weight_fresh :
    (db : Db) (id : Text) (task : Task) (next : ℕ)
    → row db id ≡ some task
    → is_at task.next_run_at next ≡ true
    → weight db (record { task_id = id; next_run_at = next; version = task.version }) ≡ 1
unfolding weight matches
weight_fresh db id task next there at =
    rw there (ground (arith, nat_beq_iff task.version task.version))

module _ (heap : HeapOps) (compile : Task → Result Text (ℕ → ℕ)) (fails : Call → Text → Bool)
    (e : Engine) (m : Schedule) (db : Db) (id : Text) (h : Holds heap e m)
    (absent : find id m ≡ none) where
  -- The engine as it is, beside a database that has another row for the task alone.
  kept :
      (db' : Db)
      → ((j : Text) → id ≢ j → row db' j ≡ row db j)
      → Within heap (load_of db e + 1) (e, db')
  kept db' same = record {
    schedule = m;
    holds = h;
    left = omega (arith, sum_by-weight db db' id e.items same (absent_All heap e m id h absent));
  }

  -- A task that is put in as the database has it weighs 1.
  put_in :
      (db' : Db) (task : Task) (next : ℕ)
      → ((j : Text) → id ≢ j → row db' j ≡ row db j)
      → row db' id ≡ some task
      → is_at task.next_run_at next ≡ true
      → Within heap (load_of db e + 1) (upsert heap e id next task.version, db')
  put_in db' task next same there at = record {
    schedule = put_next id next task.version m;
    holds = upsert-Holds heap e m id next task.version h;
    left = omega (
      arith,
      upsert_sum heap e m id h (weight db') next task.version absent,
      sum_by-weight db db' id e.items same (absent_All heap e m id h absent),
      weight_fresh db' id task next there at,
    );
  }

  loaded_row :
      (db' : Db) (now : ℕ)
      → ((j : Text) → id ≢ j → row db' j ≡ row db j)
      → (task : Task) → row db' id ≡ some task
      → (next : Option ℕ) → task.next_run_at ≡ next
      → Within heap (load_of db e + 1) (load_row heap compile fails e id now task next, db')
  unfolding load_row
  loaded_row db' now same task there none is = kept db' same
  loaded_row db' now same task there (some at) is = elim (Bool-cases (not task.enabled)) [
    | inl off ↦ rw off (kept db' same)
    | inr on ↦ elim (Bool-cases (task_running_or_locked task now)) [
      | inl busy ↦ rw (on, busy, absent-remove heap e m id h absent) (kept db' same)
      | inr free ↦
          rw (on, free)
            (put_in db' task at same there (ap (λ o. is_at o at) is ∙ (nat_beq_iff at at).1 refl))
    ]
  ]

  refreshed :
      (db' : Db) (now : ℕ)
      → ((j : Text) → id ≢ j → row db' j ≡ row db j)
      → (found : Option Task) → row db' id ≡ found
      → Within heap (load_of db e + 1) (load_refreshed heap compile fails e id now (ok found), db')
  unfolding load_refreshed
  refreshed db' now same none there = kept db' same
  refreshed db' now same (some task) there =
      loaded_row db' now same task there task.next_run_at refl

  load_refreshed-Within :
      (db' : Db) (now : ℕ)
      → ((j : Text) → id ≢ j → row db' j ≡ row db j)
      → Within heap
          (load_of db e + 1)
          (load_refreshed heap compile fails e id now (get heap compile fails db' id), db')
  unfolding get
  load_refreshed-Within db' now same = elim (Bool-cases (fails get_call id)) [
    | inl failed ↦ rw failed (unfold load_refreshed in kept db' same)
    | inr fine ↦ rw fine (refreshed db' now same (row db' id) refl)
  ]

module _ (heap : HeapOps) (compile : Task → Result Text (ℕ → ℕ)) (fails : Call → Text → Bool)
    (e : Engine) (m : Schedule) (db : Db) (task : Task) (now : ℕ) (h : Holds heap e m)
    (absent : find task.id m ≡ none) (there : row db task.id ≡ some task) where
  after_update :
      (next : Option ℕ) (status : TaskStatus) (text : Text) (j : Text)
      → task.id ≢ j
      → row (update_next_run db task.id task.version next status text).0 j ≡ row db j
  after_update next status text j ne =
      row-update_next_run db task.id j task.version next status text ne

  as_it_is : Within heap (load_of db e + 1) (e, db)
  as_it_is = kept heap compile fails e m db task.id h absent db (λ j ne. refl)

  load_next-Within :
      (next : ℕ) → Within heap (load_of db e + 1) (load_next heap compile fails e db task next now)
  unfolding load_next
  load_next-Within next =
      let db' = (update_next_run db task.id task.version (optional next) idle []).0 in
      let same = after_update (optional next) idle [] in
      elim (Bool-cases (is_at task.next_run_at next)) [
        | inl at ↦
            rw at (
              put_in heap compile fails e m db task.id h absent db task next (λ j ne. refl) there
                at)
        | inr moved ↦ elim (Bool-cases (fails write_call task.id)) [
          | inl failed ↦ rw (moved, failed) as_it_is
          | inr fine ↦
              elim (Bool-cases
                (not (update_next_run db task.id task.version (optional next) idle []).1)) [
                  | inl stale ↦
                      rw (moved, fine, stale)
                        (reloaded heap (load_of db e + 1) _ db' task.id (
                          rw (absent-remove heap e m task.id h absent)
                            (kept heap compile fails e m db task.id h absent db' same)))
                  | inr written ↦
                      rw (moved, fine, written)
                        (load_refreshed-Within heap compile fails e m db task.id h absent db' now
                          same)
                ]
        ]
      ]

  load_at-Within :
      (r : Result Text ℕ)
      → Within heap (load_of db e + 1) (load_at heap compile fails e db task now r)
  unfolding load_at
  load_at-Within (ok next) = load_next-Within next
  load_at-Within (err problem) =
      rw (absent-remove heap e m task.id h absent) (elim (Bool-cases (fails write_call task.id)) [
        | inl failed ↦ rw failed as_it_is
        | inr fine ↦ rw fine (
            kept heap compile fails e m db task.id h absent
              (update_next_run db task.id task.version none error problem).0
              (after_update none error problem))
      ])

  pub load_task-Within : Within heap (load_of db e + 1) (load_task heap compile fails e db task now)
  unfolding load_task
  load_task-Within = elim (Bool-cases (task_running_or_locked task now)) [
    | inl busy ↦ rw (busy, absent-remove heap e m task.id h absent) as_it_is
    | inr free ↦ rw free (load_at-Within (next_run_at heap compile fails task now))
  ]
