-- ===== src/Engine/Represented.antt =====
-- That the engine's queue with its indexes is a map from tasks to due times and versions
-- (internal/scheduledtask/engine.go).
use mathlib.Core.Path.{subst}
use nx_panel.Engine.{HeapItem, new_engine, set, contains, notify_wake, index_of, remove, upsert}
use nx_panel.Engine.Heap.{
  push, last_item, but_last, swap_all_at, swap_all, GoHeap, heap_push, heap_fix, heap_remove,
  fix_items, remove_item, go_heap, get-set, fix_items-some, remove_item-some,
}
use nx_panel.Engine.Indexed.{
  IndexedEngine, heap_of, write_item, remove_at_index, remove_indexed, fix_at_index, push_new,
  upsert_indexed, IsIndexed, swap_all-IsIndexed, swap_all-items, push-IsIndexed, pop-IsIndexed,
  pop-items, write_item-set, write_item-IsIndexed,
}
use nx_panel.Engine.Counts.{Schedule, Holds, scheduled, get-counted, counted_scheduled, is_some}
use nx_panel.Engine.Abstract.{
  put_next, item_of, remove-Holds, upsert-Holds, QueueCall, upsert_call, remove_call,
  schedule_after, new_engine-Holds,
}
use nx_panel.Base.{
  ℕ, ◌≡◌, refl, sym, ap, ◌∙◌, ◌≢◌, inl, inr, true, false, not, none, some, List, [], ◌∷◌, ◌++◌,
  arith, nat_beq_iff, ◌==◌, nat_eq, text_eq, text_beq_iff, Bool-cases, get_elem?, keep, Text,
}
use nx_panel.Base.Store.{find, put}
use nx_panel.Base.Store

unfoldable pub new_indexed : ℕ → IndexedEngine
new_indexed size = record { engine = new_engine size; indexes = [] }

unfoldable pub indexed_after : GoHeap → IndexedEngine → List QueueCall → IndexedEngine
indexed_after go q [] = q
indexed_after go q (upsert_call id next version ∷ calls) =
    indexed_after go (upsert_indexed go q id next version) calls
indexed_after go q (remove_call id ∷ calls) = indexed_after go (remove_indexed go q id) calls

-- The array is a heap of exactly the schedule's entries, each once, `byID` has exactly its tasks, and
-- the index of every item is its place in the array.
pub record Represents (go : GoHeap) (q : IndexedEngine) (m : Schedule) : Type 0 where
  pub holds : Holds (go_heap go) q.engine m
  pub placed : IsIndexed (heap_of q)

scheduled-find : (m : Schedule) (z : HeapItem) → scheduled m z ≡ true → find z.task_id m ≢ none
unfolding scheduled
scheduled-find m z h gone = ground arith

module _ (go : GoHeap) (q : IndexedEngine) (m : Schedule) (r : Represents go q m) (id : Text) where
  -- What is stored for a task of the queue.
  stored_index :
      contains q.engine.by_id id ≡ true → find id q.indexes ≡ some (index_of q.engine.items id)
  unfolding IsIndexed
  stored_index old =
      let (y, (at, (same, _))) = item_of (go_heap go) q.engine m id r.holds old in
      ap (λ k. find k q.indexes) (sym same) ∙ r.placed (index_of q.engine.items id) y at

  removed_engine :
      contains q.engine.by_id id ≡ true
      → (remove_at_index go q id (some (index_of q.engine.items id))).engine ≡ record q.engine {
        items = remove_item go q.engine.items (index_of q.engine.items id);
        by_id = keep (λ j. not (j == id)) q.engine.by_id;
      }
  unfolding remove_at_index heap_remove
  removed_engine old =
      let i = index_of q.engine.items id in
      let (y, (at, _)) = item_of (go_heap go) q.engine m id r.holds old in
      let swaps = go.remove_swaps q.engine.items i in
      let moved = swap_all-items swaps (heap_of q) in
      ap (λ l. record q.engine { items = l; by_id = keep (λ j. not (j == id)) q.engine.by_id })
        (pop-items (swap_all swaps (heap_of q)) y
            (ap last_item moved ∙ go.removed q.engine.items i y at)
          ∙ ap but_last moved
          ∙ sym (remove_item-some go q.engine.items i y at))

  kept_removed :
      contains q.engine.by_id id ≡ true
      → Holds
          (go_heap go)
          (record q.engine {
            items = remove_item go q.engine.items (index_of q.engine.items id);
            by_id = keep (λ j. not (j == id)) q.engine.by_id;
          })
          (Store.remove id m)
  unfolding remove
  kept_removed old = rw old at (remove-Holds (go_heap go) q.engine m id r.holds)

  kept_absent : contains q.engine.by_id id ≡ false → Holds (go_heap go) q.engine (Store.remove id m)
  unfolding remove
  kept_absent absent = rw absent at (remove-Holds (go_heap go) q.engine m id r.holds)

  remove_indexed-Represents : Represents go (remove_indexed go q id) (Store.remove id m)
  unfolding remove_indexed
  remove_indexed-Represents = elim (Bool-cases (contains q.engine.by_id id)) [
    | inl old ↦
        let i = index_of q.engine.items id in
        rw (old, stored_index old)
          (record {
            holds =
                subst (λ e. Holds (go_heap go) e (Store.remove id m)) (sym (removed_engine old))
                  (kept_removed old);
            placed =
                unfold remove_at_index heap_remove in
                pop-IsIndexed (swap_all (go.remove_swaps q.engine.items i) (heap_of q))
                  (swap_all-IsIndexed (go.remove_swaps q.engine.items i) (heap_of q) r.placed);
          })
    | inr absent ↦ rw absent (record { holds = kept_absent absent; placed = r.placed })
  ]

  fixed_engine :
      (x : HeapItem)
      → x.task_id ≡ id
      → contains q.engine.by_id id ≡ true
      → (fix_at_index go q x (some (index_of q.engine.items id))).engine ≡ record q.engine {
        items =
            fix_items go
              (set q.engine.items (index_of q.engine.items id) x)
              (index_of q.engine.items id);
      }
  unfolding fix_at_index heap_fix
  fixed_engine x own old =
      let i = index_of q.engine.items id in
      let (y, (at, _)) = item_of (go_heap go) q.engine m id r.holds old in
      let written : write_item q.engine.items x ≡ set q.engine.items i x =
        write_item-set q.engine.items x
        ∙ ap (λ k. set q.engine.items (index_of q.engine.items k) x) own in
      let now : get_elem? (set q.engine.items i x) i ≡ some x =
        get-set q.engine.items i i x y at ∙ ground (arith, nat_beq_iff i i) in
      ap (λ l. record q.engine { items = l })
        (swap_all-items (go.fix_swaps (write_item q.engine.items x) i)
            (record { items = write_item q.engine.items x; indexes = q.indexes })
          ∙ ap (λ l. swap_all_at (go.fix_swaps l i) l) written
          ∙ sym (fix_items-some go (set q.engine.items i x) i x now))

  fresh_item :
      contains q.engine.by_id id ≡ false
      → (k : ℕ) (z : HeapItem) → get_elem? q.engine.items k ≡ some z
      → (id == z.task_id) ≡ false
  fresh_item absent k z at = elim (Bool-cases (id == z.task_id)) [
    | inr other ↦ other
    | inl same ↦
        let in_m =
          counted_scheduled m z
            (ground (arith, get-counted q.engine.items k z at, r.holds.items z)) in
        let gone : is_some (find id m) ≡ false = sym (r.holds.indexed id) ∙ absent in
        absurd (
          scheduled-find m z in_m
            (ap (λ j. find j m) (sym ((text_beq_iff id z.task_id).0 same)) ∙ ground arith))
  ]

  pushed_engine :
      (x : HeapItem)
      → (push_new go q x).engine ≡ record q.engine {
        items = (go_heap go).push q.engine.items x;
        by_id = x.task_id ∷ q.engine.by_id;
      }
  unfolding push_new heap_push push
  pushed_engine x =
      ap (λ l. record q.engine { items = l; by_id = x.task_id ∷ q.engine.by_id })
        (swap_all-items (go.push_swaps (q.engine.items ++ (x ∷ []))) (push x (heap_of q)))

  kept_fixed :
      (next version : ℕ)
      → (next == 0) ≡ false
      → contains q.engine.by_id id ≡ true
      → Holds
          (go_heap go)
          (notify_wake (record q.engine {
            items =
                fix_items go
                  (set q.engine.items
                    (index_of q.engine.items id)
                    (record { task_id = id; next_run_at = next; version = version }))
                  (index_of q.engine.items id);
          }))
          (put id (next, version) m)
  unfolding upsert
  kept_fixed next version some_time old =
      rw (some_time, old) at (upsert-Holds (go_heap go) q.engine m id next version r.holds)

  kept_pushed :
      (next version : ℕ)
      → (next == 0) ≡ false
      → contains q.engine.by_id id ≡ false
      → Holds
          (go_heap go)
          (notify_wake (record q.engine {
            items =
                (go_heap go).push q.engine.items
                  (record { task_id = id; next_run_at = next; version = version });
            by_id = id ∷ q.engine.by_id;
          }))
          (put id (next, version) m)
  unfolding upsert
  kept_pushed next version some_time absent =
      rw (some_time, absent) at (upsert-Holds (go_heap go) q.engine m id next version r.holds)

  upsert_indexed-Represents :
      (next version : ℕ)
      → Represents go (upsert_indexed go q id next version) (put_next id next version m)
  unfolding upsert_indexed
  upsert_indexed-Represents next version =
      let x : HeapItem = record { task_id = id; next_run_at = next; version = version } in
      let i = index_of q.engine.items id in
      elim (Bool-cases (next == 0)) [
        | inl zero_is ↦ rw zero_is remove_indexed-Represents
        | inr some_time ↦ elim (Bool-cases (contains q.engine.by_id id)) [
          | inl old ↦
              rw (some_time, old, stored_index old)
                (record {
                  holds =
                      subst (λ e. Holds (go_heap go) (notify_wake e) (put id (next, version) m))
                        (sym (fixed_engine x refl old)) (kept_fixed next version some_time old);
                  placed =
                      unfold fix_at_index heap_fix notify_wake in
                      swap_all-IsIndexed (go.fix_swaps (write_item q.engine.items x) i)
                        (record { items = write_item q.engine.items x; indexes = q.indexes })
                        (write_item-IsIndexed (heap_of q) x r.placed);
                })
          | inr absent ↦
              rw (some_time, absent)
                (record {
                  holds =
                      subst (λ e. Holds (go_heap go) (notify_wake e) (put id (next, version) m))
                        (sym (pushed_engine x)) (kept_pushed next version some_time absent);
                  placed =
                      unfold push_new heap_push notify_wake in
                      swap_all-IsIndexed (go.push_swaps (push x (heap_of q)).items)
                        (push x (heap_of q))
                        (push-IsIndexed x (heap_of q) (fresh_item absent) r.placed);
                })
        ]
      ]

indexed_after-Represents :
    (go : GoHeap) (calls : List QueueCall) (q : IndexedEngine) (m : Schedule)
    → Represents go q m
    → Represents go (indexed_after go q calls) (schedule_after m calls)
unfolding indexed_after schedule_after
indexed_after-Represents go [] q m r = r
indexed_after-Represents go (upsert_call id next version ∷ calls) q m r =
    indexed_after-Represents go calls (upsert_indexed go q id next version)
      (put_next id next version m) (upsert_indexed-Represents go q m r id next version)
indexed_after-Represents go (remove_call id ∷ calls) q m r =
    indexed_after-Represents go calls (remove_indexed go q id) (Store.remove id m)
      (remove_indexed-Represents go q m r id)

-- Whatever is put in and taken out, the queue represents the map from tasks to due times and versions
-- that the same calls make: its array is a heap of the map's entries, each once, and the index that
-- each item stores is its place. container/heap works through `Less`, `Swap`, `Push` and `Pop` alone.
pub indexed_after-new_indexed :
    (go : GoHeap) (size : ℕ) (calls : List QueueCall)
    → Represents go (indexed_after go (new_indexed size) calls) (schedule_after [] calls)
unfolding new_indexed
indexed_after-new_indexed go size calls =
    indexed_after-Represents go calls (record { engine = new_engine size; indexes = [] }) []
      (record {
        holds = new_engine-Holds (go_heap go) size;
        placed = unfold IsIndexed new_engine in λ k z h. absurd (cc h);
      })
