-- ===== src/Engine/Heap.antt =====
-- The heap's own methods (`taskHeap` of internal/scheduledtask/engine.go), which container/heap calls,
-- with the `index` that they keep in each item. An item is the only one of its task, so that the
-- indexes stand in a map by tasks; an index of -1 is a missing entry.
use nx_panel.Engine.{HeapOps, HeapItem, sum_by, set}
use mathlib.Core.Path.{subst}
use nx_panel.Base.{
  ℕ, zero, suc, ◌+◌, ◌≤◌, ◌≡◌, refl, sym, ap, ◌∙◌, ◌⊎◌, inl, inr, Bool, false, Option, none, some,
  List, [], ◌∷◌, ◌++◌, arith, ltb, nat_beq_iff, ◌==◌, nat_eq, text_eq, if◌then◌else◌, Bool-cases,
  Option-cases, length, get_elem?, All, Text,
}
use nx_panel.Base.Store.{Store, find, put, find-put, find-remove}
use nx_panel.Base.Store

pub record TaskHeap : Type 0 where
  pub items : List HeapItem
  pub indexes : Store Text ℕ

-- `Less`, of two items
unfoldable pub less : HeapItem → HeapItem → Bool
less x y = ltb x.next_run_at y.next_run_at

-- h[i], h[j] = h[j], h[i]
unfoldable pub swap_at : ℕ → ℕ → List HeapItem → List HeapItem
swap_at i j xs = elim (get_elem? xs i) [
  | none ↦ xs
  | some x ↦ elim (get_elem? xs j) [ none ↦ xs | some y ↦ set (set xs i y) j x ]
]

-- h[i].index = i
unfoldable pub set_index : ℕ → TaskHeap → TaskHeap
set_index i h = elim (get_elem? h.items i) [
  | none ↦ h
  | some x ↦ record h { indexes = put x.task_id i h.indexes }
]

unfoldable pub swap : ℕ → ℕ → TaskHeap → TaskHeap
unfolding swap_at set_index
swap i j h = set_index j (set_index i (record h { items = swap_at i j h.items }))

unfoldable pub push : HeapItem → TaskHeap → TaskHeap
push x h = record {
  items = h.items ++ (x ∷ []);
  indexes = put x.task_id (length h.items) h.indexes;
}

unfoldable pub last_item : List HeapItem → Option HeapItem
last_item [] = none
last_item (x ∷ []) = some x
last_item (x ∷ y ∷ xs) = last_item (y ∷ xs)

unfoldable pub but_last : List HeapItem → List HeapItem
but_last [] = []
but_last (x ∷ []) = []
but_last (x ∷ y ∷ xs) = x ∷ but_last (y ∷ xs)

unfoldable pub pop : TaskHeap → TaskHeap
unfolding last_item but_last
pop h = elim (last_item h.items) [
  | none ↦ h
  | some x ↦ record { items = but_last h.items; indexes = Store.remove x.task_id h.indexes }
]

unfoldable pub swap_all_at : List (ℕ × ℕ) → List HeapItem → List HeapItem
unfolding swap_at
swap_all_at [] xs = xs
swap_all_at ((i, j) ∷ swaps) xs = swap_all_at swaps (swap_at i j xs)

unfoldable pub swap_all : List (ℕ × ℕ) → TaskHeap → TaskHeap
unfolding swap
swap_all [] h = h
swap_all ((i, j) ∷ swaps) h = swap_all swaps (swap i j h)

-- container/heap, which sees the items by `Less` and moves them by `Swap`: the calls of `Swap` that
-- Push makes after the method `Push`, that Fix makes, and that Remove makes before the method `Pop`.
-- Its contract: the first item of a heap is a least one, each call leaves a heap, and Remove brings the
-- item of its index to the end.
pub record GoHeap : Type 1 where
  pub IsHeap : List HeapItem → Type 0
  pub push_swaps : List HeapItem → List (ℕ × ℕ)
  pub fix_swaps : List HeapItem → ℕ → List (ℕ × ℕ)
  pub remove_swaps : List HeapItem → ℕ → List (ℕ × ℕ)
  pub empty_IsHeap : IsHeap []
  pub least : (x : HeapItem) (xs : List HeapItem) → IsHeap (x ∷ xs) → All (λ y. less y x ≡ false) xs
  pub push_IsHeap :
      (xs : List HeapItem) (x : HeapItem)
      → IsHeap xs
      → IsHeap (swap_all_at (push_swaps (xs ++ (x ∷ []))) (xs ++ (x ∷ [])))
  pub fix_IsHeap :
      (xs : List HeapItem) (i : ℕ) (x y : HeapItem)
      → get_elem? xs i ≡ some y
      → IsHeap xs
      → IsHeap (swap_all_at (fix_swaps (set xs i x) i) (set xs i x))
  pub remove_IsHeap :
      (xs : List HeapItem) (i : ℕ) (x : HeapItem)
      → get_elem? xs i ≡ some x
      → IsHeap xs
      → IsHeap (but_last (swap_all_at (remove_swaps xs i) xs))
  pub removed :
      (xs : List HeapItem) (i : ℕ) (x : HeapItem)
      → get_elem? xs i ≡ some x
      → last_item (swap_all_at (remove_swaps xs i) xs) ≡ some x

module _ (go : GoHeap) where
  -- heap.Push, heap.Fix and heap.Remove
  unfoldable pub heap_push : HeapItem → TaskHeap → TaskHeap
  unfolding push swap_all
  heap_push x h = swap_all (go.push_swaps (push x h).items) (push x h)

  unfoldable pub heap_fix : ℕ → TaskHeap → TaskHeap
  unfolding swap_all
  heap_fix i h = swap_all (go.fix_swaps h.items i) h

  unfoldable pub heap_remove : ℕ → TaskHeap → TaskHeap
  unfolding swap_all pop
  heap_remove i h = pop (swap_all (go.remove_swaps h.items i) h)

-- What the calls do to the array alone.
unfoldable pub fix_items : GoHeap → List HeapItem → ℕ → List HeapItem
fix_items go xs i = elim (get_elem? xs i) [
  | none ↦ xs
  | some x ↦ swap_all_at (go.fix_swaps xs i) xs
]

unfoldable pub remove_item : GoHeap → List HeapItem → ℕ → List HeapItem
remove_item go xs i = elim (get_elem? xs i) [
  | none ↦ xs
  | some x ↦ but_last (swap_all_at (go.remove_swaps xs i) xs)
]

pub get-set :
    (xs : List HeapItem) (i k : ℕ) (x y : HeapItem)
    → get_elem? xs i ≡ some y
    → get_elem? (set xs i x) k ≡ (if k == i then some x else get_elem? xs k)
get-set [] i k x y h = absurd (cc h)
get-set (z ∷ xs) zero zero x y h = refl
get-set (z ∷ xs) zero (suc k) x y h = ground arith
get-set (z ∷ xs) (suc i) zero x y h = ground arith
get-set (z ∷ xs) (suc i) (suc k) x y h =
    get-set xs i k x y h ∙ ground (arith, nat_beq_iff k i, nat_beq_iff (suc k) (suc i))

pub swap_at-set :
    (xs : List HeapItem) (i j : ℕ) (x y : HeapItem)
    → get_elem? xs i ≡ some x
    → get_elem? xs j ≡ some y
    → swap_at i j xs ≡ set (set xs i y) j x
unfolding swap_at
swap_at-set xs i j x y hi hj = ground arith

pub swap_at-outside :
    (xs : List HeapItem) (i j : ℕ)
    → (get_elem? xs i ≡ none)
      ⊎ ((x : HeapItem) × ((get_elem? xs i ≡ some x) × (get_elem? xs j ≡ none)))
    → swap_at i j xs ≡ xs
unfolding swap_at
swap_at-outside xs i j (inl h) = ground arith
swap_at-outside xs i j (inr (x, (h, k))) = ground arith

pub get-swap_at :
    (xs : List HeapItem) (i j k : ℕ) (x y : HeapItem)
    → get_elem? xs i ≡ some x
    → get_elem? xs j ≡ some y
    → get_elem? (swap_at i j xs) k
      ≡ (if k == j then some x else if k == i then some y else get_elem? xs k)
get-swap_at xs i j k x y hi hj =
    let there : (w : HeapItem) × (get_elem? (set xs i y) j ≡ some w) = elim (Bool-cases (j == i)) [
      | inl same ↦ (y, get-set xs i j y x hi ∙ rw same refl)
      | inr other ↦ (y, get-set xs i j y x hi ∙ rw other hj)
    ] in
    ap (λ l. get_elem? l k) (swap_at-set xs i j x y hi hj)
    ∙ (get-set (set xs i y) j k x there.0 there.1
        ∙ ap (λ r. if k == j then some x else r) (get-set xs i k y x hi))

sum_by-set :
    (f : HeapItem → ℕ) (xs : List HeapItem) (i : ℕ) (x y : HeapItem)
    → get_elem? xs i ≡ some x
    → f x + sum_by f (set xs i y) ≡ f y + sum_by f xs
unfolding sum_by
sum_by-set f [] i x y h = absurd (cc h)
sum_by-set f (z ∷ xs) zero x y h =
    let same : f z ≡ f x = ap (λ o. elim o [ none ↦ 0 | some v ↦ f v ]) h in omega (arith, same)
sum_by-set f (z ∷ xs) (suc i) x y h = omega (arith, sum_by-set f xs i x y h)

pub sum_by-swap_at :
    (f : HeapItem → ℕ) (i j : ℕ) (xs : List HeapItem) → sum_by f (swap_at i j xs) ≡ sum_by f xs
sum_by-swap_at f i j xs = elim (Option-cases (get_elem? xs i)) [
  | inl absent ↦ ap (sum_by f) (swap_at-outside xs i j (inl absent))
  | inr (x, hi) ↦ elim (Option-cases (get_elem? xs j)) [
    | inl absent ↦ ap (sum_by f) (swap_at-outside xs i j (inr (x, (hi, absent))))
    | inr (y, hj) ↦
        let there : get_elem? (set xs i y) j ≡ some y =
          get-set xs i j y x hi
          ∙ elim (Bool-cases (j == i)) [ inl same ↦ rw same refl | inr other ↦ rw other hj ] in
        ap (sum_by f) (swap_at-set xs i j x y hi hj)
        ∙ omega (arith, sum_by-set f xs i x y hi, sum_by-set f (set xs i y) j y x there)
  ]
]

pub sum_by-swap_all_at :
    (f : HeapItem → ℕ) (swaps : List (ℕ × ℕ)) (xs : List HeapItem)
    → sum_by f (swap_all_at swaps xs) ≡ sum_by f xs
unfolding swap_all_at
sum_by-swap_all_at f [] xs = refl
sum_by-swap_all_at f ((i, j) ∷ swaps) xs =
    sum_by-swap_all_at f swaps (swap_at i j xs) ∙ sum_by-swap_at f i j xs

pub sum_by-snoc :
    (f : HeapItem → ℕ) (xs : List HeapItem) (x : HeapItem)
    → sum_by f (xs ++ (x ∷ [])) ≡ f x + sum_by f xs
unfolding sum_by
sum_by-snoc f [] x = refl
sum_by-snoc f (y ∷ xs) x = omega (arith, sum_by-snoc f xs x)

sum_by-but_last :
    (f : HeapItem → ℕ) (xs : List HeapItem) (x : HeapItem)
    → last_item xs ≡ some x
    → f x + sum_by f (but_last xs) ≡ sum_by f xs
unfolding sum_by last_item but_last
sum_by-but_last f [] x h = absurd (cc h)
sum_by-but_last f (y ∷ []) x h =
    let same : f y ≡ f x = ap (λ o. elim o [ none ↦ 0 | some v ↦ f v ]) h in omega (arith, same)
sum_by-but_last f (y ∷ z ∷ xs) x h = omega (arith, sum_by-but_last f (z ∷ xs) x h)

pub fix_items-some :
    (go : GoHeap) (xs : List HeapItem) (i : ℕ) (x : HeapItem)
    → get_elem? xs i ≡ some x
    → fix_items go xs i ≡ swap_all_at (go.fix_swaps xs i) xs
unfolding fix_items
fix_items-some go xs i x h = ground arith

fix_items-none :
    (go : GoHeap) (xs : List HeapItem) (i : ℕ) → get_elem? xs i ≡ none → fix_items go xs i ≡ xs
unfolding fix_items
fix_items-none go xs i h = ground arith

pub remove_item-some :
    (go : GoHeap) (xs : List HeapItem) (i : ℕ) (x : HeapItem)
    → get_elem? xs i ≡ some x
    → remove_item go xs i ≡ but_last (swap_all_at (go.remove_swaps xs i) xs)
unfolding remove_item
remove_item-some go xs i x h = ground arith

remove_item-none :
    (go : GoHeap) (xs : List HeapItem) (i : ℕ) → get_elem? xs i ≡ none → remove_item go xs i ≡ xs
unfolding remove_item
remove_item-none go xs i h = ground arith

set_outside : (xs : List HeapItem) (i : ℕ) (x : HeapItem) → get_elem? xs i ≡ none → set xs i x ≡ xs
set_outside [] i x h = refl
set_outside (y ∷ ys) zero x h = absurd (cc h)
set_outside (y ∷ ys) (suc i) x h = ap (λ r. y ∷ r) (set_outside ys i x h)

pub least_of :
    (x : HeapItem) (xs : List HeapItem)
    → All (λ y. less y x ≡ false) xs
    → All (λ y. x.next_run_at ≤ y.next_run_at) xs
unfolding less
least_of x [] h = tt
least_of x (y ∷ xs) h = (ground (arith, h.0), least_of x xs h.1)

module _ (go : GoHeap) where
  pub fix_items-IsHeap :
      (xs : List HeapItem) (i : ℕ) (x : HeapItem)
      → go.IsHeap xs
      → go.IsHeap (fix_items go (set xs i x) i)
  fix_items-IsHeap xs i x h = elim (Option-cases (get_elem? xs i)) [
    | inl absent ↦
        let same = set_outside xs i x absent in
        subst go.IsHeap (sym (ap (λ l. fix_items go l i) same ∙ fix_items-none go xs i absent)) h
    | inr (y, there) ↦
        let now = get-set xs i i x y there ∙ ground (arith, nat_beq_iff i i) in
        subst go.IsHeap (sym (fix_items-some go (set xs i x) i x now))
          (go.fix_IsHeap xs i x y there h)
  ]

  pub sum_by-fix_items :
      (xs : List HeapItem) (i : ℕ) (f : HeapItem → ℕ) → sum_by f (fix_items go xs i) ≡ sum_by f xs
  sum_by-fix_items xs i f = elim (Option-cases (get_elem? xs i)) [
    | inl absent ↦ ap (sum_by f) (fix_items-none go xs i absent)
    | inr (y, there) ↦
        ap (sum_by f) (fix_items-some go xs i y there) ∙ sum_by-swap_all_at f (go.fix_swaps xs i) xs
  ]

  pub remove_item-IsHeap :
      (xs : List HeapItem) (i : ℕ) → go.IsHeap xs → go.IsHeap (remove_item go xs i)
  remove_item-IsHeap xs i h = elim (Option-cases (get_elem? xs i)) [
    | inl absent ↦ subst go.IsHeap (sym (remove_item-none go xs i absent)) h
    | inr (y, there) ↦
        subst go.IsHeap (sym (remove_item-some go xs i y there)) (go.remove_IsHeap xs i y there h)
  ]

  pub sum_by-remove_item :
      (xs : List HeapItem) (i : ℕ) (x : HeapItem) (f : HeapItem → ℕ)
      → get_elem? xs i ≡ some x
      → f x + sum_by f (remove_item go xs i) ≡ sum_by f xs
  sum_by-remove_item xs i x f there =
      ap (λ l. f x + sum_by f l) (remove_item-some go xs i x there)
      ∙ sum_by-but_last f (swap_all_at (go.remove_swaps xs i) xs) x (go.removed xs i x there)
      ∙ sum_by-swap_all_at f (go.remove_swaps xs i) xs

  -- So the calls do to the array what a heap promises.
  abbrev pub go_heap : HeapOps
  go_heap = record {
    IsHeap = go.IsHeap;
    push = λ xs x. swap_all_at (go.push_swaps (xs ++ (x ∷ []))) (xs ++ (x ∷ []));
    fix = fix_items go;
    remove = remove_item go;
    empty_IsHeap = go.empty_IsHeap;
    least = λ x xs h. least_of x xs (go.least x xs h);
    push_IsHeap = go.push_IsHeap;
    push_items = λ xs x f.
        sum_by-swap_all_at f (go.push_swaps (xs ++ (x ∷ []))) (xs ++ (x ∷ [])) ∙ sum_by-snoc f xs x;
    fix_IsHeap = fix_items-IsHeap;
    fix_items = sum_by-fix_items;
    remove_IsHeap = remove_item-IsHeap;
    remove_items = sum_by-remove_item;
  }
