-- ===== src/Engine/Tests.antt =====
-- The engine at concrete inputs, over a sorted list.
use nx_panel.Tasks.{Task, Db, idle, skip}
use nx_panel.Engine.{
  HeapItem, Engine, new_engine, index_of, notify_wake, reload_task, remove, upsert, peek_due,
  is_running_status, task_running_or_locked,
}
use nx_panel.Engine.Abstract.{
  QueueCall, upsert_call, remove_call, schedule_after, engine_after, engine_after-new_engine,
  peek_due-Holds,
}
use nx_panel.Engine.Counts.{Holds, scheduled}
use nx_panel.Engine.Heap.{
  less, swap_at, set_index, swap, push, last_item, but_last, pop, swap_all_at, swap_all, heap_push,
  heap_fix, heap_remove,
}
use nx_panel.Engine.Indexed.{
  write_item, remove_at_index, remove_indexed, fix_at_index, push_new, upsert_indexed,
}
use nx_panel.Engine.Represented.{new_indexed, indexed_after, Represents, indexed_after-new_indexed}
use nx_panel.Engine.FirstLeast.{least_item, least_place, to_front, to_end, first_least}
use nx_panel.Engine.Loop.{
  Call, next_run_at, get, load_row, load_refreshed, load_next, load_at, load_task, send_dispatch,
  dispatch_row, dispatch_item, dispatch_peeked, dispatch_round, dispatch_due, Moment, is_run_once,
}
use nx_panel.Tasks.Repo.{update_next_run}
use nx_panel.Engine.SortedHeap.{insert_item, remove_at, fix_item, fix_at, sorted_heap}
use nx_panel.Base.{
  ℕ, zero, suc, ◌+◌, ◌≤◌, ◌≡◌, refl, Bool, true, false, none, some, List, [], ◌∷◌, arith, nat_eq,
  text_eq, text_beq, Text, codes,
}
use nx_panel.Base.Result.{Result, ok}
use nx_panel.Base.Store.{find, put}
use nx_panel.Base.Store

opened : Unit {0}
unfolding new_engine index_of notify_wake reload_task remove upsert peek_due is_running_status
    task_running_or_locked schedule_after engine_after scheduled next_run_at get load_row
    load_refreshed load_next load_at load_task send_dispatch dispatch_row dispatch_item
    dispatch_peeked dispatch_round dispatch_due is_run_once update_next_run insert_item remove_at
    fix_item fix_at find put Store.remove text_beq
opened = tt

indexed_opened : Unit {0}
unfolding less swap_at set_index swap push last_item but_last pop swap_all_at swap_all heap_push
    heap_fix heap_remove write_item remove_at_index remove_indexed fix_at_index push_new
    upsert_indexed new_indexed indexed_after least_item least_place to_front to_end first_least
indexed_opened = tt

abbrev calls : List QueueCall
calls =
    upsert_call (codes "a") 30 1
    ∷ upsert_call (codes "b") 20 1
    ∷ upsert_call (codes "c") 10 1
    ∷ upsert_call (codes "b") 5 2
    ∷ remove_call (codes "c")
    ∷ []

abbrev queue : Engine
queue = engine_after sorted_heap (new_engine 0) calls

abbrev first : HeapItem
first = record { task_id = codes "b"; next_run_at = 5; version = 2 }

queue_tests :
    (queue.items ≡ first ∷ record { task_id = codes "a"; next_run_at = 30; version = 1 } ∷ [])
    × (queue.by_id ≡ codes "b" ∷ codes "a" ∷ [])
    × (queue.queue_size ≡ 128)
    × (peek_due queue 4 ≡ none)
    × (peek_due queue 5 ≡ some first)
    × (schedule_after [] calls ≡ (codes "a", (30, 1)) ∷ (codes "b", (5, 2)) ∷ [])
unfolding opened
queue_tests = (refl, refl, refl, refl, refl, refl)

queue-Holds : Holds sorted_heap queue (schedule_after [] calls)
queue-Holds = engine_after-new_engine sorted_heap 0 calls

-- The same calls on the queue with its indexes.
indexed_tests :
    (indexed_after first_least (new_indexed 0) calls).engine.items
    ≡ record { task_id = codes "b"; next_run_at = 5; version = 2 }
      ∷ record { task_id = codes "a"; next_run_at = 30; version = 1 }
      ∷ []
unfolding opened indexed_opened
indexed_tests = refl

index_tests :
    (find (codes "a") (indexed_after first_least (new_indexed 0) calls).indexes ≡ some 1)
    × (find (codes "b") (indexed_after first_least (new_indexed 0) calls).indexes ≡ some 0)
    × (find (codes "c") (indexed_after first_least (new_indexed 0) calls).indexes ≡ none)
unfolding opened indexed_opened
index_tests = (refl, refl, refl)

indexed_after-new_indexed_example :
    Represents first_least
      (indexed_after first_least (new_indexed 0) calls)
      (schedule_after [] calls)
indexed_after-new_indexed_example = indexed_after-new_indexed first_least 0 calls

peek_due-Holds_example :
    (x : HeapItem) × ((peek_due queue 50 ≡ some x)
      × ((scheduled (schedule_after [] calls) x ≡ true) × (x.next_run_at ≤ 30)))
unfolding opened
peek_due-Holds_example =
    peek_due-Holds sorted_heap queue (schedule_after [] calls) 50 (codes "a") 30 1 queue-Holds refl
      (omega arith)

abbrev task_a : Task
task_a = record {
  id = codes "a";
  kind = codes "log";
  name = codes "a";
  enabled = true;
  status = idle;
  missed_policy = skip;
  timeout_seconds = 60;
  next_run_at = some 30;
  last_run_at = none;
  last_finished_at = none;
  last_status = none;
  last_error = [];
  last_duration_ms = 0;
  last_run_id = [];
  locked_by = [];
  locked_until = none;
  version = 1;
}

abbrev db : Db
db = record {
  tasks = task_a ∷ record task_a { id = codes "b"; next_run_at = some 40; version = 3 } ∷ [];
  runs = [];
}

abbrev every_ten : Task → Result Text (ℕ → ℕ)
every_ten task = ok (λ now. now + 10)

abbrev never : Call → Text → Bool
never call id = false

abbrev still : Moment
still = record { now = 35; fails = never; others = λ d. d }

-- Before the first round task b gets a new version; later the database is quiet.
abbrev one_write : ℕ → Moment
one_write zero = record still {
  others = λ d. (update_next_run d (codes "b") 3 (some 30) idle []).0;
}
one_write (suc i) = still

-- The entry of task b is stale: it is loaded again, and task a is dispatched.
dispatch_tests :
    dispatch_due sorted_heap every_ten 5 (λ i. still) queue db
    ≡ some (
      (
        record queue {
          items = record { task_id = codes "b"; next_run_at = 40; version = 3 } ∷ [];
          by_id = codes "b" ∷ [];
          wake = true;
          dispatch = record { task_id = codes "a"; version = 1 } ∷ [];
        },
        db,
      ),
      false,
    )
unfolding opened
dispatch_tests = refl
