-- ===== src/Engine/Abstract.antt =====
-- The queue of the engine as a map from tasks to their due times and versions
-- (internal/scheduledtask/engine.go).
use nx_panel.Engine.{
  HeapOps, HeapItem, Engine, sum_by, set, remove, upsert, notify_wake, peek_due, first_item,
  contains, index_of, new_engine,
}
use nx_panel.Base.{
  ℕ, ◌+◌, ◌≤◌, ◌<◌, ◌≡◌, refl, sym, ap, ◌∙◌, inl, inr, true, false, some, List, [], ◌∷◌, arith, ltb,
  nat_beq_iff, ◌==◌, nat_eq, text_eq, text_beq_iff, if◌then◌else◌, Bool-cases, Option-cases,
  get_elem?, All, Text,
}
use nx_panel.Base.Store.{Store, find, put, find-put, find-remove}
use nx_panel.Base.Store
use nx_panel.Engine.Counts.{
  Schedule, is_item, one, scheduled, is_some, Holds, get-counted, index_of-get, contains-keep,
  sum_by-set, is_some-none, remove_count, fix_count, push_count, counted_scheduled,
}

-- The schedule after `upsert`: a zero time takes the task out.
abbrev pub put_next : Text → ℕ → ℕ → Schedule → Schedule
put_next id next version m = if next == 0 then Store.remove id m else put id (next, version) m

module _ (heap : HeapOps) where
  -- The item that the index gives for a task of the schedule.
  pub item_of :
      (e : Engine) (m : Schedule) (id : Text)
      → Holds heap e m
      → contains e.by_id id ≡ true
      → (y : HeapItem) × ((get_elem? e.items (index_of e.items id) ≡ some y)
          × ((y.task_id ≡ id) × (scheduled m y ≡ true)))
  unfolding scheduled
  item_of e m id h old = elim (Option-cases (find id m)) [
    | inl none_is ↦ absurd (ground (arith, h.indexed id))
    | inr ((next, version), some_is) ↦
        let x : HeapItem = record { task_id = id; next_run_at = next; version = version } in
        let in_m : scheduled m x ≡ true =
          unfold scheduled in ground (arith, nat_beq_iff next next, nat_beq_iff version version) in
        let (y, (at, same)) = index_of-get e.items x (omega (arith, h.items x, ap one in_m)) in
        (
          y,
          (
            at,
            (
              same,
              counted_scheduled m y
                  (omega (arith, get-counted e.items (index_of e.items id) y at, h.items y)),
            ),
          ),
        )
  ]

  pub remove-Holds :
      (e : Engine) (m : Schedule) (id : Text)
      → Holds heap e m
      → Holds heap (remove heap e id) (Store.remove id m)
  unfolding remove
  remove-Holds e m id h = elim (Bool-cases (contains e.by_id id)) [
    | inl old ↦
        let (y, (at, (same, in_m))) = item_of e m id h old in
        rw old (record {
          ordered = heap.remove_IsHeap e.items (index_of e.items id) h.ordered;
          indexed =
              λ j. contains-keep e.by_id id j ∙ ground (arith, find-remove id j m, h.indexed j);
          items = λ z. remove_count m id y z _ in_m same (
              heap.remove_items e.items (index_of e.items id) y (λ x. one (is_item z x)) at
              ∙ h.items z);
        })
    | inr absent ↦
        let gone : Store.remove id m ≡ m =
          Store.remove_absent id m (is_some-none (find id m) (sym (h.indexed id) ∙ absent)) in
        rw absent (record {
          ordered = h.ordered;
          indexed = λ j. h.indexed j ∙ ap (λ n. is_some (find j n)) (sym gone);
          items = λ z. h.items z ∙ ap (λ n. one (scheduled n z)) (sym gone);
        })
  ]

  pub upsert-Holds :
      (e : Engine) (m : Schedule) (id : Text) (next version : ℕ)
      → Holds heap e m
      → Holds heap (upsert heap e id next version) (put_next id next version m)
  unfolding upsert notify_wake
  upsert-Holds e m id next version h =
      let x : HeapItem = record { task_id = id; next_run_at = next; version = version } in
      let i = index_of e.items id in
      elim (Bool-cases (next == 0)) [
        | inl zero_is ↦ rw zero_is (remove-Holds e m id h)
        | inr some_time ↦ elim (Bool-cases (contains e.by_id id)) [
          | inl old ↦
              let (y, (at, (same, in_m))) = item_of e m id h old in
              rw (some_time, old)
                (record {
                  ordered = heap.fix_IsHeap e.items i x h.ordered;
                  indexed = λ j. ground (
                    arith,
                    find-put id j (next, version) m,
                    h.indexed j,
                    h.indexed id,
                    text_beq_iff id j,
                  );
                  items = λ z.
                      heap.fix_items (set e.items i x) i (λ w. one (is_item z w))
                      ∙ fix_count m x y z _ in_m same (
                          sum_by-set e.items i x y (λ w. one (is_item z w)) at
                          ∙ ap (λ n. one (is_item z x) + n) (h.items z));
                })
          | inr absent ↦
              let none_is = is_some-none (find id m) (sym (h.indexed id) ∙ absent) in
              rw (some_time, absent)
                (record {
                  ordered = heap.push_IsHeap e.items x h.ordered;
                  indexed = λ j. ground (arith, find-put id j (next, version) m, h.indexed j);
                  items = λ z. push_count m x z _ none_is (
                      heap.push_items e.items x (λ w. one (is_item z w))
                      ∙ ap (λ n. one (is_item z x) + n) (h.items z));
                })
        ]
      ]

nothing_counted : (z : HeapItem) → sum_by (λ y. one (is_item z y)) [] ≡ 0
unfolding sum_by
nothing_counted z = refl

pub first_item-get :
    (xs : List HeapItem) (y : HeapItem) → first_item xs ≡ some y → get_elem? xs 0 ≡ some y
first_item-get [] y h = absurd (cc h)
first_item-get (x ∷ xs) y h = h

found-scheduled :
    (m : Schedule) (j : Text) (n v : ℕ)
    → find j m ≡ some (n, v)
    → scheduled m (record { task_id = j; next_run_at = n; version = v }) ≡ true
unfolding scheduled
found-scheduled m j n v h = ground (arith, nat_beq_iff n n, nat_beq_iff v v)

-- A bound on the times of all items is one on the time of each that is counted.
least-counted :
    (a : ℕ) (z : HeapItem) (xs : List HeapItem)
    → All (λ y. a ≤ y.next_run_at) xs
    → 0 < sum_by (λ y. one (is_item z y)) xs
    → a ≤ z.next_run_at
unfolding sum_by
least-counted a z [] h c = absurd (omega arith)
least-counted a z (y ∷ xs) h c = elim (Bool-cases (is_item z y)) [
  | inl same ↦ ground (arith, nat_beq_iff z.next_run_at y.next_run_at)
  | inr other ↦ least-counted a z xs h.1 (ground arith)
]

-- Calls of the engine's queue, and what they are on the schedule.
pub data QueueCall : Type 0 where
  upsert_call : Text → ℕ → ℕ → QueueCall
  remove_call : Text → QueueCall

unfoldable pub schedule_after : Schedule → List QueueCall → Schedule
schedule_after m [] = m
schedule_after m (upsert_call id next version ∷ calls) =
    schedule_after (put_next id next version m) calls
schedule_after m (remove_call id ∷ calls) = schedule_after (Store.remove id m) calls

module _ (heap : HeapOps) where
  unfoldable pub engine_after : Engine → List QueueCall → Engine
  engine_after e [] = e
  engine_after e (upsert_call id next version ∷ calls) =
      engine_after (upsert heap e id next version) calls
  engine_after e (remove_call id ∷ calls) = engine_after (remove heap e id) calls

  pub new_engine-Holds : (size : ℕ) → Holds heap (new_engine size) []
  unfolding new_engine sum_by scheduled
  new_engine-Holds size = record {
    ordered = heap.empty_IsHeap;
    indexed = λ id. unfold find in refl;
    items = λ x. unfold find in refl;
  }

  engine_after-Holds :
      (calls : List QueueCall) (e : Engine) (m : Schedule)
      → Holds heap e m
      → Holds heap (engine_after e calls) (schedule_after m calls)
  unfolding engine_after schedule_after
  engine_after-Holds [] e m h = h
  engine_after-Holds (upsert_call id next version ∷ calls) e m h =
      engine_after-Holds calls (upsert heap e id next version) (put_next id next version m)
        (upsert-Holds heap e m id next version h)
  engine_after-Holds (remove_call id ∷ calls) e m h =
      engine_after-Holds calls (remove heap e id) (Store.remove id m) (remove-Holds heap e m id h)

  -- Whatever is put in and taken out, the engine's queue holds the map from tasks to due times and
  -- versions that the same calls make: its array is a heap of the map's entries, each once.
  pub engine_after-new_engine :
      (size : ℕ) (calls : List QueueCall)
      → Holds heap (engine_after (new_engine size) calls) (schedule_after [] calls)
  engine_after-new_engine size calls =
      engine_after-Holds calls (new_engine size) [] (new_engine-Holds size)

  head-least :
      (xs : List HeapItem) (m : Schedule) (j : Text) (n v : ℕ)
      → heap.IsHeap xs
      → ((x : HeapItem) → sum_by (λ y. one (is_item x y)) xs ≡ one (scheduled m x))
      → find j m ≡ some (n, v)
      → (x : HeapItem) × ((first_item xs ≡ some x) × ((scheduled m x ≡ true) × (x.next_run_at ≤ n)))
  head-least [] m j n v ordered items found =
      let z : HeapItem = record { task_id = j; next_run_at = n; version = v } in
      absurd (omega (arith, ap one (found-scheduled m j n v found), items z, nothing_counted z))
  head-least (x ∷ xs) m j n v ordered items found =
      let z : HeapItem = record { task_id = j; next_run_at = n; version = v } in
      (
        x,
        (
          refl,
          (
            counted_scheduled m x (omega (arith, get-counted (x ∷ xs) 0 x refl, items x)),
            least-counted x.next_run_at z (x ∷ xs) (omega arith, heap.least x xs ordered)
                (omega (arith, ap one (found-scheduled m j n v found), items z)),
          ),
        ),
      )

  -- If a task of the schedule is due, `peekDue` finds an entry of the schedule that is due, and no
  -- later than that task.
  pub peek_due-Holds :
      (e : Engine) (m : Schedule) (now : ℕ) (j : Text) (n v : ℕ)
      → Holds heap e m
      → find j m ≡ some (n, v)
      → n ≤ now
      → (x : HeapItem) × ((peek_due e now ≡ some x)
          × ((scheduled m x ≡ true) × (x.next_run_at ≤ n)))
  unfolding peek_due
  peek_due-Holds e m now j n v h found due =
      let (x, (first, (in_m, least))) = head-least e.items m j n v h.ordered h.items found in
      (x, (ground arith, (in_m, least)))

  -- What `peekDue` finds is an entry of the schedule that is due.
  pub peek_due-scheduled :
      (e : Engine) (m : Schedule) (now : ℕ) (x : HeapItem)
      → Holds heap e m
      → peek_due e now ≡ some x
      → (scheduled m x ≡ true) × (x.next_run_at ≤ now)
  unfolding peek_due
  peek_due-scheduled e m now x h found = elim (Option-cases (first_item e.items)) [
    | inl none_is ↦ absurd (ground arith)
    | inr (y, some_is) ↦
        let at : get_elem? e.items 0 ≡ some y = first_item-get e.items y some_is in
        let in_m = counted_scheduled m y (omega (arith, get-counted e.items 0 y at, h.items y)) in
        let due : ltb now y.next_run_at ≡ false = ground arith in
        let same : y ≡ x = ground arith in rw (sym same) (in_m, ground arith)
  ]
