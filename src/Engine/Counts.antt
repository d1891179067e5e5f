-- ===== src/Engine/Counts.antt =====
-- What it is that an engine holds a schedule, and the items of its array that are left, changed or
-- added when its queue changes (internal/scheduledtask/engine.go).
use nx_panel.Engine.{HeapOps, HeapItem, Engine, sum_by, set, contains, index_of}
use nx_panel.Base.{
  ℕ, zero, suc, ◌+◌, ◌<◌, ◌≡◌, refl, ap, inl, inr, Bool, true, false, not, ◌&&◌, Option, none, some,
  List, [], ◌∷◌, arith, nat_beq_iff, ◌==◌, nat_eq, text_eq, text_beq_iff, if◌then◌else◌, Bool-cases,
  get_elem?, keep, Text,
}
use nx_panel.Base.Store.{Store, find, put, find-put, find-remove}
use nx_panel.Base.Store

abbrev pub Schedule : Type 0
Schedule = Store Text (ℕ × ℕ)

abbrev pub is_item : HeapItem → HeapItem → Bool
is_item x y =
    (x.task_id == y.task_id) && ((x.next_run_at == y.next_run_at) && (x.version == y.version))

abbrev pub one : Bool → ℕ
one b = if b then 1 else 0

-- Whether the schedule has an item's task at its time and version.
unfoldable pub scheduled : Schedule → HeapItem → Bool
scheduled m x = elim (find x.task_id m) [
  | none ↦ false
  | some (next, version) ↦ (next == x.next_run_at) && (version == x.version)
]

abbrev pub is_some : {A : Type 0} → Option A → Bool
is_some none = false
is_some (some a) = true

-- An engine holds a schedule: its array is a heap of exactly the schedule's items, each once, and
-- its index has exactly the schedule's tasks.
pub record Holds (heap : HeapOps) (e : Engine) (m : Schedule) : Type 0 where
  pub ordered : heap.IsHeap e.items
  pub indexed : (id : Text) → contains e.by_id id ≡ is_some (find id m)
  pub items : (x : HeapItem) → sum_by (λ y. one (is_item x y)) e.items ≡ one (scheduled m x)

is_item-eq : (x y : HeapItem) → is_item x y ≡ true → x ≡ y
is_item-eq x y h =
    let id = (text_beq_iff x.task_id y.task_id).0 (ground arith) in
    let next = (nat_beq_iff x.next_run_at y.next_run_at).0 (ground arith) in
    let version = (nat_beq_iff x.version y.version).0 (ground arith) in
    λ i. record { task_id = id i; next_run_at = next i; version = version i }

pub is_item_self : (x : HeapItem) → is_item x x ≡ true
is_item_self x = ground (
  arith,
  text_beq_iff x.task_id x.task_id,
  nat_beq_iff x.next_run_at x.next_run_at,
  nat_beq_iff x.version x.version,
)

-- An item of the array, by its place, is in the schedule.
pub get-counted :
    (xs : List HeapItem) (i : ℕ) (x : HeapItem)
    → get_elem? xs i ≡ some x
    → 0 < sum_by (λ y. one (is_item x y)) xs
unfolding sum_by
get-counted [] i x h = absurd (cc h)
get-counted (y ∷ xs) zero x h = ground (arith, is_item_self x)
get-counted (y ∷ xs) (suc i) x h = omega (arith, get-counted xs i x h)

-- The place of a task's first item.
pub index_of-get :
    (xs : List HeapItem) (x : HeapItem)
    → 0 < sum_by (λ y. one (is_item x y)) xs
    → (y : HeapItem) × ((get_elem? xs (index_of xs x.task_id) ≡ some y) × (y.task_id ≡ x.task_id))
unfolding sum_by index_of
index_of-get [] x h = absurd (omega arith)
index_of-get (y ∷ xs) x h = elim (Bool-cases (y.task_id == x.task_id)) [
  | inl same ↦ rw same (y, (refl, (text_beq_iff y.task_id x.task_id).0 same))
  | inr other ↦
      let (z, (at, id)) =
        index_of-get xs x
          (ground (arith, text_beq_iff y.task_id x.task_id, text_beq_iff x.task_id y.task_id)) in
      rw other (z, (at, id))
]

scheduled-remove :
    (m : Schedule) (id : Text) (z : HeapItem)
    → scheduled (Store.remove id m) z ≡ (if id == z.task_id then false else scheduled m z)
unfolding scheduled
scheduled-remove m id z = ground (arith, find-remove id z.task_id m)

scheduled-put :
    (m : Schedule) (id : Text) (next version : ℕ) (z : HeapItem)
    → scheduled (put id (next, version) m) z ≡ (
        if id == z.task_id
        then (next == z.next_run_at) && (version == z.version)
        else scheduled m z)
unfolding scheduled
scheduled-put m id next version z = ground (arith, find-put id z.task_id (next, version) m)

-- A task has one item in a schedule.
scheduled-is_item :
    (m : Schedule) (y z : HeapItem)
    → scheduled m y ≡ true
    → scheduled m z ≡ true
    → y.task_id ≡ z.task_id
    → is_item z y ≡ true
unfolding scheduled
scheduled-is_item m y z hy hz same = ground (arith, text_beq_iff z.task_id y.task_id)

pub contains-keep :
    (ids : List Text) (id j : Text)
    → contains (keep (λ k. not (k == id)) ids) j ≡ (if id == j then false else contains ids j)
contains-keep [] id j = ground arith
contains-keep (k ∷ ids) id j =
    ground (arith, contains-keep ids id j, text_beq_iff k id, text_beq_iff k j, text_beq_iff id j)

pub sum_by-set :
    (xs : List HeapItem) (i : ℕ) (x y : HeapItem) (f : HeapItem → ℕ)
    → get_elem? xs i ≡ some y
    → f y + sum_by f (set xs i x) ≡ f x + sum_by f xs
unfolding sum_by
sum_by-set [] i x y f h = absurd (cc h)
sum_by-set (z ∷ xs) zero x y f h =
    let same : f z ≡ f y = ap (λ o. elim o [ none ↦ 0 | some v ↦ f v ]) h in omega (arith, same)
sum_by-set (z ∷ xs) (suc i) x y f h = omega (arith, sum_by-set xs i x y f h)

pub is_some-none : {A : Type 0} (o : Option A) → is_some o ≡ false → o ≡ none
is_some-none none h = refl
is_some-none (some a) h = absurd (cc h)

-- What is left of the items when a task's item is taken out.
pub remove_count :
    (m : Schedule) (id : Text) (y z : HeapItem) (left : ℕ)
    → scheduled m y ≡ true
    → y.task_id ≡ id
    → one (is_item z y) + left ≡ one (scheduled m z)
    → left ≡ one (scheduled (Store.remove id m) z)
remove_count m id y z left in_m same h = ground (
  arith,
  scheduled-remove m id z,
  scheduled-is_item m y z,
  text_beq_iff id z.task_id,
  text_beq_iff z.task_id y.task_id,
)

-- What the items are when a task's item is changed.
pub fix_count :
    (m : Schedule) (x y z : HeapItem) (count : ℕ)
    → scheduled m y ≡ true
    → y.task_id ≡ x.task_id
    → one (is_item z y) + count ≡ one (is_item z x) + one (scheduled m z)
    → count ≡ one (scheduled (put x.task_id (x.next_run_at, x.version) m) z)
fix_count m x y z count in_m same h = ground (
  arith,
  scheduled-put m x.task_id x.next_run_at x.version z,
  scheduled-is_item m y z,
  text_beq_iff x.task_id z.task_id,
  text_beq_iff z.task_id x.task_id,
  text_beq_iff z.task_id y.task_id,
  nat_beq_iff z.next_run_at x.next_run_at,
  nat_beq_iff x.next_run_at z.next_run_at,
  nat_beq_iff z.version x.version,
  nat_beq_iff x.version z.version,
)

-- What the items are when a task's item is added.
pub push_count :
    (m : Schedule) (x z : HeapItem) (count : ℕ)
    → find x.task_id m ≡ none
    → count ≡ one (is_item z x) + one (scheduled m z)
    → count ≡ one (scheduled (put x.task_id (x.next_run_at, x.version) m) z)
unfolding scheduled
push_count m x z count absent h = ground (
  arith,
  find-put x.task_id z.task_id (x.next_run_at, x.version) m,
  text_beq_iff x.task_id z.task_id,
  text_beq_iff z.task_id x.task_id,
  nat_beq_iff z.next_run_at x.next_run_at,
  nat_beq_iff x.next_run_at z.next_run_at,
  nat_beq_iff z.version x.version,
  nat_beq_iff x.version z.version,
)

pub counted_scheduled :
    (m : Schedule) (y : HeapItem) → 0 < one (scheduled m y) → scheduled m y ≡ true
counted_scheduled m y h = ground arith
