-- ===== src/Engine/SortedHeap.antt =====
-- A sorted list as a heap: it keeps the contract of container/heap.
use nx_panel.Engine.{HeapItem, HeapOps, sum_by, set}
use nx_panel.Base.{
  ℕ, zero, suc, ◌+◌, ◌≤◌, ◌≡◌, refl, ap, ◌∙◌, inl, inr, Option, none, some, List, [], ◌∷◌, arith,
  leb, nat_eq, text_eq, if◌then◌else◌, leb→le, Bool-cases, get_elem?, All,
}

abbrev Sorted : List HeapItem → Type 0
Sorted [] = Unit
Sorted (x ∷ xs) = All (λ y. x.next_run_at ≤ y.next_run_at) xs × Sorted xs

unfoldable pub insert_item : List HeapItem → HeapItem → List HeapItem
insert_item [] x = x ∷ []
insert_item (y ∷ ys) x =
    let rest = insert_item ys x in if leb x.next_run_at y.next_run_at then x ∷ y ∷ ys else y ∷ rest

unfoldable pub remove_at : List HeapItem → ℕ → List HeapItem
remove_at [] i = []
remove_at (y ∷ ys) zero = ys
remove_at (y ∷ ys) (suc i) = y ∷ remove_at ys i

unfoldable pub fix_item : List HeapItem → ℕ → Option HeapItem → List HeapItem
fix_item xs i none = xs
fix_item xs i (some x) = insert_item (remove_at xs i) x

unfoldable pub fix_at : List HeapItem → ℕ → List HeapItem
unfolding fix_item insert_item remove_at
fix_at xs i = fix_item xs i (get_elem? xs i)

module _ (P : HeapItem → Type 0) where
  All-insert_item : (xs : List HeapItem) (x : HeapItem) → P x → All P xs → All P (insert_item xs x)
  unfolding insert_item
  All-insert_item [] x p h = (p, tt)
  All-insert_item (y ∷ ys) x p h = elim (Bool-cases (leb x.next_run_at y.next_run_at)) [
    | inl before ↦ rw before (p, h)
    | inr behind ↦ rw behind (h.0, All-insert_item ys x p h.1)
  ]

  All-remove_at : (xs : List HeapItem) (i : ℕ) → All P xs → All P (remove_at xs i)
  unfolding remove_at
  All-remove_at [] i h = h
  All-remove_at (y ∷ ys) zero h = h.1
  All-remove_at (y ∷ ys) (suc i) h = (h.0, All-remove_at ys i h.1)

All-below :
    (a b : ℕ) (xs : List HeapItem)
    → a ≤ b
    → All (λ y. b ≤ y.next_run_at) xs
    → All (λ y. a ≤ y.next_run_at) xs
All-below a b [] le h = tt
All-below a b (y ∷ ys) le h = (omega (arith, h.0), All-below a b ys le h.1)

pub insert_item-Sorted : (xs : List HeapItem) (x : HeapItem) → Sorted xs → Sorted (insert_item xs x)
unfolding insert_item
insert_item-Sorted [] x h = (tt, tt)
insert_item-Sorted (y ∷ ys) x h = elim (Bool-cases (leb x.next_run_at y.next_run_at)) [
  | inl before ↦
      let le = leb→le x.next_run_at y.next_run_at before in
      rw before ((le, All-below x.next_run_at y.next_run_at ys le h.0), h)
  | inr behind ↦ rw behind (
    All-insert_item (λ z. y.next_run_at ≤ z.next_run_at) ys x (ground arith) h.0,
    insert_item-Sorted ys x h.1,
  )
]

pub remove_at-Sorted : (xs : List HeapItem) (i : ℕ) → Sorted xs → Sorted (remove_at xs i)
unfolding remove_at
remove_at-Sorted [] i h = h
remove_at-Sorted (y ∷ ys) zero h = h.1
remove_at-Sorted (y ∷ ys) (suc i) h =
    (All-remove_at (λ z. y.next_run_at ≤ z.next_run_at) ys i h.0, remove_at-Sorted ys i h.1)

pub sum_by-insert_item :
    (xs : List HeapItem) (x : HeapItem) (f : HeapItem → ℕ)
    → sum_by f (insert_item xs x) ≡ f x + sum_by f xs
unfolding sum_by insert_item
sum_by-insert_item [] x f = refl
sum_by-insert_item (y ∷ ys) x f = elim (Bool-cases (leb x.next_run_at y.next_run_at)) [
  | inl before ↦ rw before refl
  | inr behind ↦ rw behind (omega (arith, sum_by-insert_item ys x f))
]

pub sum_by-remove_at :
    (xs : List HeapItem) (i : ℕ) (x : HeapItem) (f : HeapItem → ℕ)
    → get_elem? xs i ≡ some x
    → f x + sum_by f (remove_at xs i) ≡ sum_by f xs
unfolding sum_by remove_at
sum_by-remove_at [] i x f h = absurd (cc h)
sum_by-remove_at (y ∷ ys) zero x f h =
    let same : f y ≡ f x = ap (λ o. elim o [ none ↦ 0 | some v ↦ f v ]) h in omega (arith, same)
sum_by-remove_at (y ∷ ys) (suc i) x f h = omega (arith, sum_by-remove_at ys i x f h)

fix_item-sum :
    (xs : List HeapItem) (i : ℕ) (o : Option HeapItem) (f : HeapItem → ℕ)
    → get_elem? xs i ≡ o
    → sum_by f (fix_item xs i o) ≡ sum_by f xs
unfolding fix_item
fix_item-sum xs i none f h = refl
fix_item-sum xs i (some x) f h =
    sum_by-insert_item (remove_at xs i) x f ∙ sum_by-remove_at xs i x f h

pub sum_by-fix_at :
    (xs : List HeapItem) (i : ℕ) (f : HeapItem → ℕ) → sum_by f (fix_at xs i) ≡ sum_by f xs
unfolding fix_at
sum_by-fix_at xs i f = fix_item-sum xs i (get_elem? xs i) f refl

remove_at-set :
    (xs : List HeapItem) (i : ℕ) (x : HeapItem) → remove_at (set xs i x) i ≡ remove_at xs i
unfolding remove_at
remove_at-set [] i x = refl
remove_at-set (y ∷ ys) zero x = refl
remove_at-set (y ∷ ys) (suc i) x = ap (λ r. y ∷ r) (remove_at-set ys i x)

set_outside :
    (xs : List HeapItem) (i : ℕ) (x : HeapItem) → get_elem? (set xs i x) i ≡ none → set xs i x ≡ xs
set_outside [] i x h = refl
set_outside (y ∷ ys) zero x h = absurd (cc h)
set_outside (y ∷ ys) (suc i) x h = ap (λ r. y ∷ r) (set_outside ys i x h)

fix_item-Sorted :
    (xs : List HeapItem) (i : ℕ) (x : HeapItem) (o : Option HeapItem)
    → get_elem? (set xs i x) i ≡ o
    → Sorted xs
    → Sorted (fix_item (set xs i x) i o)
unfolding fix_item
fix_item-Sorted xs i x none at h = rw (set_outside xs i x at) h
fix_item-Sorted xs i x (some y) at h =
    rw (remove_at-set xs i x) (insert_item-Sorted (remove_at xs i) y (remove_at-Sorted xs i h))

pub fix_at-Sorted :
    (xs : List HeapItem) (i : ℕ) (x : HeapItem) → Sorted xs → Sorted (fix_at (set xs i x) i)
unfolding fix_at
fix_at-Sorted xs i x h = fix_item-Sorted xs i x (get_elem? (set xs i x) i) refl h

abbrev pub sorted_heap : HeapOps
sorted_heap = record {
  IsHeap = Sorted;
  push = insert_item;
  fix = fix_at;
  remove = remove_at;
  empty_IsHeap = tt;
  least = λ x xs h. h.0;
  push_IsHeap = insert_item-Sorted;
  push_items = sum_by-insert_item;
  fix_IsHeap = fix_at-Sorted;
  fix_items = sum_by-fix_at;
  remove_IsHeap = remove_at-Sorted;
  remove_items = sum_by-remove_at;
}
