-- ===== src/Engine.antt =====
-- The engine of scheduled tasks (internal/scheduledtask/engine.go) over the tables of Tasks: the
-- queue of due times with its index, the tasks to reload, and the bounded queue of dispatches. A
-- time is in nanoseconds, 0 is Go's zero time. An operation is what one goroutine does; `items` is
-- the array of the heap, and container/heap enters by its contract.
pub mod Loop
pub mod Abstract
pub mod Counts
pub mod Weights
pub mod Loads
pub mod Termination
pub mod SortedHeap
pub mod Heap
pub mod Indexed
pub mod Represented
pub mod FirstLeast
mod Tests
use nx_panel.Tasks.{Task, TaskStatus, Db}
use nx_panel.Base.{
  ℕ, zero, suc, ◌+◌, ◌-◌, ◌*◌, ◌/◌, ◌%◌, ◌^◌, ◌≤◌, ◌<◌, min, max, String, ◌≡◌, refl, sym, ap, ◌∙◌,
  ◌≢◌, ◌↔◌, ◌⊎◌, inl, inr, Bool, true, false, not, ◌&&◌, ◌||◌, Option, none, some, List, [], ◌∷◌,
  ◌++◌, map, reverse, append-nil, append_assoc, arith, ltb, leb, nat_beq, nat_beq_iff, Eq, ◌==◌,
  nat_eq, text_eq, text_beq, text_beq_iff, if◌then◌else◌, ltb→lt, lt→ltb, leb→le, le→leb, tests,
  Bool-cases, Option-cases, length, get_elem?, take, drop, keep, any, all, All, All-append,
  All-drop, length-append, length-take, length-drop, length-keep, drop-append, take-append, Text,
  codes, is_upper, is_lower, is_digit, is_space, lower, to_lower, trim_left, trim_space,
}

-- heapItem without `index`, which Engine/Indexed models.
pub record HeapItem : Type 0 where
  pub task_id : Text
  pub next_run_at : ℕ
  pub version : ℕ

-- The sum of a weight over the items of a heap. Two arrays hold the same items, each as often, if
-- every weight has one sum over both.
unfoldable pub sum_by : (HeapItem → ℕ) → List HeapItem → ℕ
sum_by f [] = 0
sum_by f (x ∷ xs) = f x + sum_by f xs

abbrev pub set : List HeapItem → ℕ → HeapItem → List HeapItem
set [] i x = []
set (y ∷ xs) zero x = x ∷ xs
set (y ∷ xs) (suc i) x = y ∷ set xs i x

abbrev IsLeast : HeapItem → List HeapItem → Type 0
IsLeast x xs = All (λ y. x.next_run_at ≤ y.next_run_at) xs

-- What container/heap does to the array, with `Less` by the time: which arrays are heaps is its own
-- affair, but the first item of a heap is a least one, and each call leaves a heap with the items expected.
pub record HeapOps : Type 1 where
  pub IsHeap : List HeapItem → Type 0
  pub push : List HeapItem → HeapItem → List HeapItem
  pub fix : List HeapItem → ℕ → List HeapItem
  pub remove : List HeapItem → ℕ → List HeapItem
  pub empty_IsHeap : IsHeap []
  pub least : (x : HeapItem) (xs : List HeapItem) → IsHeap (x ∷ xs) → IsLeast x xs
  pub push_IsHeap : (xs : List HeapItem) (x : HeapItem) → IsHeap xs → IsHeap (push xs x)
  pub push_items :
      (xs : List HeapItem) (x : HeapItem) (f : HeapItem → ℕ)
      → sum_by f (push xs x) ≡ f x + sum_by f xs
  pub fix_IsHeap :
      (xs : List HeapItem) (i : ℕ) (x : HeapItem) → IsHeap xs → IsHeap (fix (set xs i x) i)
  pub fix_items :
      (xs : List HeapItem) (i : ℕ) (f : HeapItem → ℕ) → sum_by f (fix xs i) ≡ sum_by f xs
  pub remove_IsHeap : (xs : List HeapItem) (i : ℕ) → IsHeap xs → IsHeap (remove xs i)
  pub remove_items :
      (xs : List HeapItem) (i : ℕ) (x : HeapItem) (f : HeapItem → ℕ)
      → get_elem? xs i ≡ some x
      → f x + sum_by f (remove xs i) ≡ sum_by f xs

pub record ScheduledDispatch : Type 0 where
  pub task_id : Text
  pub version : ℕ

-- `by_id` holds the keys of byID: its values point to the items of those tasks. `dispatch` is what
-- the channel holds, `queue_size` its capacity; `wake` tells whether its channel is full.
pub record Engine : Type 0 where
  pub items : List HeapItem
  pub by_id : List Text
  pub dirty : List Text
  pub wake : Bool
  pub dispatch : List ScheduledDispatch
  pub queue_size : ℕ
  pub stopped : Bool

abbrev pub default_dispatch_queue_size : ℕ
default_dispatch_queue_size = 128

-- `NewEngineWithConfig`, with the size of the queue.
unfoldable pub new_engine : ℕ → Engine
new_engine dispatch_queue_size = record {
  items = [];
  by_id = [];
  dirty = [];
  wake = false;
  dispatch = [];
  queue_size =
      if dispatch_queue_size == 0 then default_dispatch_queue_size else dispatch_queue_size;
  stopped = false;
}

abbrev pub contains : List Text → Text → Bool
contains ids id = any (λ j. j == id) ids

-- The place of the task's item, which is what its `index` holds.
unfoldable pub index_of : List HeapItem → Text → ℕ
index_of [] id = 0
index_of (x ∷ xs) id = let rest = index_of xs id in if x.task_id == id then 0 else suc rest

unfoldable pub notify_wake : Engine → Engine
notify_wake e = record e { wake = true }

unfoldable pub reload_task : Engine → Text → Engine
reload_task e id =
    if id == [] || e.stopped
    then e
    else notify_wake (record e { dirty = if contains e.dirty id then e.dirty else id ∷ e.dirty })

module _ (heap : HeapOps) where
  -- `remove` and `removeLocked`
  unfoldable pub remove : Engine → Text → Engine
  remove e id =
      if contains e.by_id id
      then record e {
        items = heap.remove e.items (index_of e.items id);
        by_id = keep (λ j. not (j == id)) e.by_id;
      }
      else e

  unfoldable pub upsert : Engine → Text → ℕ → ℕ → Engine
  unfolding remove
  upsert e id next version =
      let item : HeapItem = record { task_id = id; next_run_at = next; version = version } in
      let i = index_of e.items id in
      if next == 0
      then remove e id
      else notify_wake (
          if contains e.by_id id
          then record e { items = heap.fix (set e.items i item) i }
          else record e { items = heap.push e.items item; by_id = id ∷ e.by_id })

abbrev pub first_item : List HeapItem → Option HeapItem
first_item [] = none
first_item (x ∷ xs) = some x

unfoldable pub peek_next : Engine → Option ℕ
peek_next e = elim (first_item e.items) [ none ↦ none | some x ↦ some x.next_run_at ]

unfoldable pub peek_due : Engine → ℕ → Option HeapItem
peek_due e now = elim (first_item e.items) [
  | none ↦ none
  | some x ↦ if ltb now x.next_run_at then none else some x
]

unfoldable pub is_running_status : TaskStatus → Bool
is_running_status TaskStatus.running = true
is_running_status _ = false

unfoldable pub task_running_or_locked : Task → ℕ → Bool
task_running_or_locked task now =
    is_running_status task.status
    || elim task.locked_until [ none ↦ false | some until ↦ ltb now until ]
