-- ===== src/Engine/Weights.antt =====
-- What is left to do for the items of the queue (internal/scheduledtask/engine.go): an item weighs 1
-- if the database has its task at its time and version, and 2 if it has not.
use nx_panel.Tasks.{Task, TaskStatus, Db, first_where, update_where}
use nx_panel.Tasks.Repo.{update_next_run}
use nx_panel.Engine.{
  HeapOps, HeapItem, Engine, sum_by, remove, upsert, notify_wake, contains, index_of,
}
use nx_panel.Engine.Loop.{row, is_at}
use nx_panel.Engine.Abstract.{item_of}
use nx_panel.Engine.Counts.{
  Schedule, Holds, is_item, one, scheduled, is_some, counted_scheduled, is_item_self,
}
use nx_panel.Base.{
  ℕ, ◌+◌, ◌*◌, ◌≤◌, ◌≡◌, refl, ap, ◌∙◌, ◌≢◌, inl, inr, Bool, true, false, ◌&&◌, Option, none, some,
  List, [], ◌∷◌, arith, ◌==◌, nat_eq, text_eq, text_beq_iff, if◌then◌else◌, Bool-cases, length,
  get_elem?, All, Text,
}
use nx_panel.Base.Store.{find}

unfoldable pub matches : Option Task → HeapItem → Bool
matches none x = false
matches (some t) x = (t.version == x.version) && is_at t.next_run_at x.next_run_at

unfoldable pub weight : Db → HeapItem → ℕ
weight db x = if matches (row db x.task_id) x then 1 else 2

pub weight_bounds : (db : Db) (x : HeapItem) → (1 ≤ weight db x) × (weight db x ≤ 2)
unfolding weight
weight_bounds db x = (ground arith, ground arith)

pub sum_by-weight-le : (db : Db) (xs : List HeapItem) → sum_by (weight db) xs ≤ 2 * length xs
unfolding sum_by
sum_by-weight-le db [] = omega arith
sum_by-weight-le db (x ∷ xs) = omega (arith, weight_bounds db x, sum_by-weight-le db xs)

first_where-update_where :
    (wanted : Task → Bool) (f : Task → Task) (j : Text) (tasks : List Task)
    → ((t : Task) → wanted t ≡ true → (t.id == j) ≡ false)
    → ((t : Task) → (f t).id ≡ t.id)
    → first_where (λ (t : Task). t.id == j) (update_where wanted f tasks)
      ≡ first_where (λ (t : Task). t.id == j) tasks
first_where-update_where wanted f j [] other same = refl
first_where-update_where wanted f j (t ∷ tasks) other same =
    let rest = first_where-update_where wanted f j tasks other same in
    elim (Bool-cases (wanted t)) [
      | inl yes_wanted ↦ rw yes_wanted (rw (same t, other t yes_wanted) rest)
      | inr unwanted ↦ rw (unwanted, rest) refl
    ]

-- An update of a task's next run leaves the rows of the others.
pub row-update_next_run :
    (db : Db) (id j : Text) (version : ℕ) (next : Option ℕ) (status : TaskStatus) (text : Text)
    → id ≢ j
    → row (update_next_run db id version next status text).0 j ≡ row db j
unfolding update_next_run
row-update_next_run db id j version next status text ne =
    first_where-update_where _ _ j db.tasks
      (λ t h. ground (arith, text_beq_iff t.id j, text_beq_iff t.id id)) (λ t. refl)

-- Items of other tasks weigh the same in a database that has their tasks alike.
pub sum_by-weight :
    (db db' : Db) (id : Text) (xs : List HeapItem)
    → ((j : Text) → id ≢ j → row db' j ≡ row db j)
    → All (λ y. id ≢ y.task_id) xs
    → sum_by (weight db') xs ≡ sum_by (weight db) xs
unfolding sum_by
sum_by-weight db db' id [] same h = refl
sum_by-weight db db' id (x ∷ xs) same h =
    let first : weight db' x ≡ weight db x =
      unfold weight in ap (λ r. if matches r x then 1 else 2) (same x.task_id h.0) in
    omega (arith, first, sum_by-weight db db' id xs same h.1)

All-scheduled :
    (m : Schedule) (xs : List HeapItem)
    → ((x : HeapItem) → sum_by (λ y. one (is_item x y)) xs ≤ one (scheduled m x))
    → All (λ y. scheduled m y ≡ true) xs
unfolding sum_by
All-scheduled m [] h = tt
All-scheduled m (y ∷ xs) h = (
  counted_scheduled m y (omega (arith, h y, ap one (is_item_self y))),
  All-scheduled m xs (λ x. omega (arith, h x)),
)

All-ne :
    (m : Schedule) (id : Text) (xs : List HeapItem)
    → find id m ≡ none
    → All (λ y. scheduled m y ≡ true) xs
    → All (λ y. id ≢ y.task_id) xs
unfolding scheduled
All-ne m id [] absent h = tt
All-ne m id (y ∷ xs) absent h =
    ((λ e. ground (arith, ap (λ (k : Text). find k m) e, h.0)), All-ne m id xs absent h.1)

module _ (heap : HeapOps) (e : Engine) (m : Schedule) (id : Text) (h : Holds heap e m) where
  -- No item of a task that is not in the schedule.
  pub absent_All : find id m ≡ none → All (λ y. id ≢ y.task_id) e.items
  absent_All absent =
      All-ne m id e.items absent (All-scheduled m e.items (λ x. omega (arith, h.items x)))

  pub absent-contains : find id m ≡ none → contains e.by_id id ≡ false
  absent-contains absent = h.indexed id ∙ ap is_some absent

  pub absent-remove : find id m ≡ none → remove heap e id ≡ e
  unfolding remove
  absent-remove absent = rw (absent-contains absent) refl

  -- `remove` takes one item of the task out.
  pub remove_sum :
      (f : HeapItem → ℕ)
      → contains e.by_id id ≡ true
      → (y : HeapItem) × ((get_elem? e.items (index_of e.items id) ≡ some y)
          × (f y + sum_by f (remove heap e id).items ≡ sum_by f e.items))
  unfolding remove
  remove_sum f old =
      let (y, (at, _)) = item_of heap e m id h old in
      (y, (at, rw old (heap.remove_items e.items (index_of e.items id) y f at)))

  -- `upsert` of a task that is not in the queue adds one item at most.
  pub upsert_sum :
      (f : HeapItem → ℕ) (next version : ℕ)
      → find id m ≡ none
      → sum_by f (upsert heap e id next version).items
        ≤ f (record { task_id = id; next_run_at = next; version = version }) + sum_by f e.items
  unfolding upsert notify_wake
  upsert_sum f next version absent =
      let x : HeapItem = record { task_id = id; next_run_at = next; version = version } in
      elim (Bool-cases (next == 0)) [
        | inl zero_is ↦ rw (zero_is, absent-remove absent) (omega arith)
        | inr some_time ↦
            rw (some_time, absent-contains absent) (omega (arith, heap.push_items e.items x f))
      ]
