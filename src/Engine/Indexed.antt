-- ===== src/Engine/Indexed.antt =====
-- The queue of the engine with the `index` of its items (`upsert`, `removeLocked` and `taskHeap` of
-- internal/scheduledtask/engine.go): the calls of container/heap take the index that `Swap`, `Push`
-- and `Pop` have stored.
use nx_panel.Engine.{HeapItem, Engine, set, contains, notify_wake, index_of}
use nx_panel.Engine.Heap.{
  TaskHeap, swap_at, set_index, swap, push, last_item, but_last, pop, swap_all_at, swap_all, GoHeap,
  heap_push, heap_fix, heap_remove, get-swap_at, swap_at-set, swap_at-outside,
}
use mathlib.Core.Path.{subst}
use nx_panel.Base.{
  ℕ, zero, suc, ◌-◌, ◌<◌, ◌≡◌, ◌⊎◌, refl, sym, ap, ◌∙◌, inl, inr, true, false, not, Option, none,
  some, List, [], ◌∷◌, ◌++◌, arith, nat_beq_iff, ◌==◌, nat_eq, text_eq, text_beq_iff, if◌then◌else◌,
  Bool-cases, Option-cases, length, get_elem?, keep, Text,
}
use nx_panel.Base.Store.{Store, find, put, find-put, find-remove}
use nx_panel.Base.Store

pub record IndexedEngine : Type 0 where
  pub engine : Engine
  pub indexes : Store Text ℕ

abbrev pub heap_of : IndexedEngine → TaskHeap
heap_of q = record { items = q.engine.items; indexes = q.indexes }

-- The task's item is written, wherever it stands.
unfoldable pub write_item : List HeapItem → HeapItem → List HeapItem
write_item [] x = []
write_item (y ∷ ys) x =
    let rest = write_item ys x in if y.task_id == x.task_id then x ∷ ys else y ∷ rest

module _ (go : GoHeap) where
  -- `removeLocked` of an item with its index
  unfoldable pub remove_at_index : IndexedEngine → Text → Option ℕ → IndexedEngine
  unfolding heap_remove
  remove_at_index q id none = q
  remove_at_index q id (some i) =
      let h = heap_remove go i (heap_of q) in
      record {
        engine = record q.engine {
          items = h.items;
          by_id = keep (λ j. not (j == id)) q.engine.by_id;
        };
        indexes = h.indexes;
      }

  -- An index of -1 is out of range; that it does not happen is a theorem.
  unfoldable pub remove_indexed : IndexedEngine → Text → IndexedEngine
  unfolding remove_at_index
  remove_indexed q id =
      if contains q.engine.by_id id then remove_at_index q id (find id q.indexes) else q

  unfoldable pub fix_at_index : IndexedEngine → HeapItem → Option ℕ → IndexedEngine
  unfolding heap_fix write_item
  fix_at_index q x none = q
  fix_at_index q x (some i) =
      let h = heap_fix go i (record { items = write_item q.engine.items x; indexes = q.indexes }) in
      record { engine = record q.engine { items = h.items }; indexes = h.indexes }

  unfoldable pub push_new : IndexedEngine → HeapItem → IndexedEngine
  unfolding heap_push
  push_new q x =
      let h = heap_push go x (heap_of q) in
      record {
        engine = record q.engine { items = h.items; by_id = x.task_id ∷ q.engine.by_id };
        indexes = h.indexes;
      }

  abbrev pub awake : IndexedEngine → IndexedEngine
  awake q = record q { engine = notify_wake q.engine }

  unfoldable pub upsert_indexed : IndexedEngine → Text → ℕ → ℕ → IndexedEngine
  unfolding remove_indexed fix_at_index push_new notify_wake
  upsert_indexed q id next version =
      let x : HeapItem = record { task_id = id; next_run_at = next; version = version } in
      if next == 0
      then remove_indexed q id
      else awake (
          if contains q.engine.by_id id then fix_at_index q x (find id q.indexes) else push_new q x)

-- Every item's index is its place.
unfoldable pub IsIndexed : TaskHeap → Type 0
IsIndexed h =
    (k : ℕ) (z : HeapItem) → get_elem? h.items k ≡ some z → find z.task_id h.indexes ≡ some k

same_place : {a b : ℕ} → ◌≡◌ {A = Option ℕ} (some a) (some b) → a ≡ b
same_place h = cc h

same_item : {a b : HeapItem} → ◌≡◌ {A = Option HeapItem} (some a) (some b) → a ≡ b
same_item h = cc h

set_index-some :
    (i : ℕ) (h : TaskHeap) (x : HeapItem)
    → get_elem? h.items i ≡ some x
    → set_index i h ≡ record h { indexes = put x.task_id i h.indexes }
unfolding set_index
set_index-some i h x there = ground arith

set_index-none : (i : ℕ) (h : TaskHeap) → get_elem? h.items i ≡ none → set_index i h ≡ h
unfolding set_index
set_index-none i h there = ground arith

pub set_index-items : (i : ℕ) (h : TaskHeap) → (set_index i h).items ≡ h.items
set_index-items i h = elim (Option-cases (get_elem? h.items i)) [
  | inl absent ↦ ap (λ (t : TaskHeap). t.items) (set_index-none i h absent)
  | inr (x, there) ↦ ap (λ (t : TaskHeap). t.items) (set_index-some i h x there)
]

-- Two items of one task stand at one place.
places :
    (h : TaskHeap) (k i : ℕ) (z x : HeapItem)
    → IsIndexed h
    → get_elem? h.items k ≡ some z
    → get_elem? h.items i ≡ some x
    → x.task_id ≡ z.task_id
    → i ≡ k
unfolding IsIndexed
places h k i z x w hk hi same =
    same_place (sym (w i x hi) ∙ ap (λ id. find id h.indexes) same ∙ w k z hk)

put-IsIndexed :
    (h : TaskHeap) (i : ℕ) (x : HeapItem)
    → get_elem? h.items i ≡ some x
    → IsIndexed h
    → IsIndexed (record h { indexes = put x.task_id i h.indexes })
unfolding IsIndexed
put-IsIndexed h i x hi w k z hk =
    find-put x.task_id z.task_id i h.indexes ∙ elim (Bool-cases (x.task_id == z.task_id)) [
      | inl same ↦
          rw same (ap some (places h k i z x w hk hi ((text_beq_iff x.task_id z.task_id).0 same)))
      | inr other ↦ rw other (w k z hk)
    ]

set_index-IsIndexed : (i : ℕ) (h : TaskHeap) → IsIndexed h → IsIndexed (set_index i h)
set_index-IsIndexed i h w = elim (Option-cases (get_elem? h.items i)) [
  | inl absent ↦ subst IsIndexed (sym (set_index-none i h absent)) w
  | inr (x, there) ↦
      subst IsIndexed (sym (set_index-some i h x there)) (put-IsIndexed h i x there w)
]

set_same : (xs : List HeapItem) (i : ℕ) (x : HeapItem) → get_elem? xs i ≡ some x → set xs i x ≡ xs
set_same [] i x h = refl
set_same (y ∷ ys) zero x h = ap (λ z. z ∷ ys) (sym (same_item h))
set_same (y ∷ ys) (suc i) x h = ap (λ r. y ∷ r) (set_same ys i x h)

-- Where nothing moves, `Swap` writes the indexes that are there.
still-IsIndexed :
    (i j : ℕ) (h : TaskHeap) → swap_at i j h.items ≡ h.items → IsIndexed h → IsIndexed (swap i j h)
unfolding swap
still-IsIndexed i j h still w =
    set_index-IsIndexed j (set_index i (record h { items = swap_at i j h.items })) (
      set_index-IsIndexed i (record h { items = swap_at i j h.items })
        (subst (λ xs. IsIndexed (record h { items = xs })) (sym still) w))

unlike :
    (h : TaskHeap) (k i : ℕ) (z x : HeapItem)
    → IsIndexed h
    → get_elem? h.items k ≡ some z
    → get_elem? h.items i ≡ some x
    → (k == i) ≡ false
    → (x.task_id == z.task_id) ≡ false
unlike h k i z x w hk hi ne = elim (Bool-cases (x.task_id == z.task_id)) [
  | inl same ↦
      let one_place = places h k i z x w hk hi ((text_beq_iff x.task_id z.task_id).0 same) in
      absurd (cc (sym ne ∙ (nat_beq_iff k i).1 (sym one_place)))
  | inr other ↦ other
]

moved-IsIndexed :
    (i j : ℕ) (h : TaskHeap) (x y : HeapItem)
    → (j == i) ≡ false
    → get_elem? h.items i ≡ some x
    → get_elem? h.items j ≡ some y
    → IsIndexed h
    → IsIndexed (record {
      items = swap_at i j h.items;
      indexes = put x.task_id j (put y.task_id i h.indexes);
    })
unfolding IsIndexed
moved-IsIndexed i j h x y ne hi hj w k z hk =
    let at = sym (get-swap_at h.items i j k x y hi hj) ∙ hk in
    find-put x.task_id z.task_id j (put y.task_id i h.indexes)
    ∙ ap (λ r. if x.task_id == z.task_id then some j else r)
        (find-put y.task_id z.task_id i h.indexes)
    ∙ elim (Bool-cases (k == j)) [
      | inl kj ↦
          let is : x ≡ z = same_item (rw kj at at) in
          let own = (text_beq_iff x.task_id z.task_id).1 (ap (λ (v : HeapItem). v.task_id) is) in
          rw own (ap some (sym ((nat_beq_iff k j).0 kj)))
      | inr kj ↦ elim (Bool-cases (k == i)) [
        | inl ki ↦
            let is : y ≡ z = same_item (rw (kj, ki) at at) in
            let own = (text_beq_iff y.task_id z.task_id).1 (ap (λ (v : HeapItem). v.task_id) is) in
            let other : (x.task_id == z.task_id) ≡ false =
              ap (λ (v : HeapItem). x.task_id == v.task_id) (sym is)
              ∙ unlike h j i y x w hj hi ne in
            rw (other, own) (ap some (sym ((nat_beq_iff k i).0 ki)))
        | inr ki ↦
            let there : get_elem? h.items k ≡ some z = rw (kj, ki) at at in
            rw (unlike h k i z x w there hi ki, unlike h k j z y w there hj kj) (w k z there)
      ]
    ]

swap-moved :
    (i j : ℕ) (h : TaskHeap) (x y : HeapItem)
    → (j == i) ≡ false
    → get_elem? h.items i ≡ some x
    → get_elem? h.items j ≡ some y
    → swap i j h ≡ record {
      items = swap_at i j h.items;
      indexes = put x.task_id j (put y.task_id i h.indexes);
    }
unfolding swap
swap-moved i j h x y ne hi hj =
    let ij : (i == j) ≡ false = ground (arith, nat_beq_iff i j, nat_beq_iff j i) in
    let own_i : (i == i) ≡ true = (nat_beq_iff i i).1 refl in
    let own_j : (j == j) ≡ true = (nat_beq_iff j j).1 refl in
    let moved : TaskHeap = record h { items = swap_at i j h.items } in
    let first =
      set_index-some i moved y (get-swap_at h.items i j i x y hi hj ∙ rw (ij, own_i) refl) in
    let second =
      set_index-some j (record moved { indexes = put y.task_id i h.indexes }) x
        (get-swap_at h.items i j j x y hi hj ∙ rw own_j refl) in
    ap (set_index j) first ∙ second

swap-IsIndexed : (i j : ℕ) (h : TaskHeap) → IsIndexed h → IsIndexed (swap i j h)
swap-IsIndexed i j h w = elim (Option-cases (get_elem? h.items i)) [
  | inl absent ↦ still-IsIndexed i j h (swap_at-outside h.items i j (inl absent)) w
  | inr (x, hi) ↦ elim (Option-cases (get_elem? h.items j)) [
    | inl absent ↦ still-IsIndexed i j h (swap_at-outside h.items i j (inr (x, (hi, absent)))) w
    | inr (y, hj) ↦ elim (Bool-cases (j == i)) [
      | inl one ↦
          let ji = (nat_beq_iff j i).0 one in
          let yx : y ≡ x = same_item (sym hj ∙ ap (get_elem? h.items) ji ∙ hi) in
          still-IsIndexed i j h
            (swap_at-set h.items i j x y hi hj
              ∙ ap (λ v. set (set h.items i v) j x) yx
              ∙ ap (λ l. set l j x) (set_same h.items i x hi)
              ∙ set_same h.items j x (ap (get_elem? h.items) ji ∙ hi))
            w
      | inr two ↦
          subst IsIndexed (sym (swap-moved i j h x y two hi hj))
            (moved-IsIndexed i j h x y two hi hj w)
    ]
  ]
]

swap-items : (i j : ℕ) (h : TaskHeap) → (swap i j h).items ≡ swap_at i j h.items
unfolding swap
swap-items i j h =
    let moved : TaskHeap = record h { items = swap_at i j h.items } in
    set_index-items j (set_index i moved) ∙ set_index-items i moved

pub swap_all-IsIndexed :
    (swaps : List (ℕ × ℕ)) (h : TaskHeap) → IsIndexed h → IsIndexed (swap_all swaps h)
unfolding swap_all
swap_all-IsIndexed [] h w = w
swap_all-IsIndexed ((i, j) ∷ swaps) h w =
    swap_all-IsIndexed swaps (swap i j h) (swap-IsIndexed i j h w)

pub swap_all-items :
    (swaps : List (ℕ × ℕ)) (h : TaskHeap) → (swap_all swaps h).items ≡ swap_all_at swaps h.items
unfolding swap_all swap_all_at
swap_all-items [] h = refl
swap_all-items ((i, j) ∷ swaps) h =
    swap_all-items swaps (swap i j h) ∙ ap (swap_all_at swaps) (swap-items i j h)

get-snoc :
    (xs : List HeapItem) (x : HeapItem) (k : ℕ) (z : HeapItem)
    → get_elem? (xs ++ (x ∷ [])) k ≡ some z
    → ((k ≡ length xs) × (x ≡ z)) ⊎ (get_elem? xs k ≡ some z)
get-snoc [] x zero z h = inl (refl, same_item h)
get-snoc [] x (suc k) z h = absurd (cc h)
get-snoc (y ∷ xs) x zero z h = inr h
get-snoc (y ∷ xs) x (suc k) z h = elim (get-snoc xs x k z h) [
  | inl (at, is) ↦ inl (ap suc at, is)
  | inr there ↦ inr there
]

pub push-IsIndexed :
    (x : HeapItem) (h : TaskHeap)
    → ((k : ℕ) (z : HeapItem) → get_elem? h.items k ≡ some z → (x.task_id == z.task_id) ≡ false)
    → IsIndexed h
    → IsIndexed (push x h)
unfolding push IsIndexed
push-IsIndexed x h fresh w k z hk =
    find-put x.task_id z.task_id (length h.items) h.indexes ∙ elim (get-snoc h.items x k z hk) [
      | inl (at, is) ↦
          let own = (text_beq_iff x.task_id z.task_id).1 (ap (λ (v : HeapItem). v.task_id) is) in
          rw own (ap some (sym at))
      | inr there ↦ rw (fresh k z there) (w k z there)
    ]

get-last_item :
    (xs : List HeapItem) (x : HeapItem) (n : ℕ)
    → last_item xs ≡ some x
    → length xs ≡ suc n
    → get_elem? xs n ≡ some x
unfolding last_item
get-last_item [] x n h e = absurd (cc h)
get-last_item (y ∷ []) x zero h e = h
get-last_item (y ∷ []) x (suc n) h e = absurd (omega (arith, e))
get-last_item (y ∷ z ∷ xs) x zero h e = absurd (omega (arith, e))
get-last_item (y ∷ z ∷ xs) x (suc n) h e = get-last_item (z ∷ xs) x n h (omega (arith, e))

get-but_last :
    (xs : List HeapItem) (k : ℕ) (z : HeapItem)
    → get_elem? (but_last xs) k ≡ some z
    → (get_elem? xs k ≡ some z) × (suc k < length xs)
unfolding but_last
get-but_last [] k z h = absurd (cc h)
get-but_last (y ∷ []) k z h = absurd (cc h)
get-but_last (y ∷ v ∷ xs) zero z h = (h, omega arith)
get-but_last (y ∷ v ∷ xs) (suc k) z h =
    let (there, lt) = get-but_last (v ∷ xs) k z h in (there, omega (arith, lt))

pop-some :
    (h : TaskHeap) (x : HeapItem)
    → last_item h.items ≡ some x
    → pop h ≡ record { items = but_last h.items; indexes = Store.remove x.task_id h.indexes }
unfolding pop
pop-some h x there = ground arith

pop-none : (h : TaskHeap) → last_item h.items ≡ none → pop h ≡ h
unfolding pop
pop-none h there = ground arith

popped-IsIndexed :
    (h : TaskHeap) (x : HeapItem)
    → last_item h.items ≡ some x
    → IsIndexed h
    → IsIndexed (record { items = but_last h.items; indexes = Store.remove x.task_id h.indexes })
unfolding IsIndexed
popped-IsIndexed h x there w k z hk =
    let (at, lt) = get-but_last h.items k z hk in
    let other =
      unlike h k (length h.items - 1) z x w at
        (get-last_item h.items x (length h.items - 1) there (omega (arith, lt)))
        (ground (arith, lt, nat_beq_iff k (length h.items - 1))) in
    find-remove x.task_id z.task_id h.indexes ∙ rw other (w k z at)

pub pop-IsIndexed : (h : TaskHeap) → IsIndexed h → IsIndexed (pop h)
pop-IsIndexed h w = elim (Option-cases (last_item h.items)) [
  | inl absent ↦ subst IsIndexed (sym (pop-none h absent)) w
  | inr (x, there) ↦ subst IsIndexed (sym (pop-some h x there)) (popped-IsIndexed h x there w)
]

pub pop-items :
    (h : TaskHeap) (x : HeapItem) → last_item h.items ≡ some x → (pop h).items ≡ but_last h.items
pop-items h x there = ap (λ (t : TaskHeap). t.items) (pop-some h x there)

-- Writing a task's item is writing at its place.
pub write_item-set :
    (xs : List HeapItem) (x : HeapItem) → write_item xs x ≡ set xs (index_of xs x.task_id) x
unfolding write_item index_of
write_item-set [] x = refl
write_item-set (y ∷ ys) x = elim (Bool-cases (y.task_id == x.task_id)) [
  | inl own ↦ rw own refl
  | inr other ↦ rw other (ap (λ r. y ∷ r) (write_item-set ys x))
]

get-write_item :
    (xs : List HeapItem) (x : HeapItem) (k : ℕ) (z : HeapItem)
    → get_elem? (write_item xs x) k ≡ some z
    → (y : HeapItem) × ((get_elem? xs k ≡ some y) × (y.task_id ≡ z.task_id))
unfolding write_item
get-write_item [] x k z h = absurd (cc h)
get-write_item (y ∷ ys) x zero z h = elim (Bool-cases (y.task_id == x.task_id)) [
  | inl own ↦
      let is : x ≡ z = same_item (rw own at h) in
      (y, (refl, (text_beq_iff y.task_id x.task_id).0 own ∙ ap (λ (v : HeapItem). v.task_id) is))
  | inr other ↦
      let is : y ≡ z = same_item (rw other at h) in (y, (refl, ap (λ (v : HeapItem). v.task_id) is))
]
get-write_item (y ∷ ys) x (suc k) z h = elim (Bool-cases (y.task_id == x.task_id)) [
  | inl own ↦ (z, (rw own at h, refl))
  | inr other ↦ get-write_item ys x k z (rw other at h)
]

pub write_item-IsIndexed :
    (h : TaskHeap) (x : HeapItem)
    → IsIndexed h
    → IsIndexed (record h { items = write_item h.items x })
unfolding IsIndexed
write_item-IsIndexed h x w k z hk =
    let (y, (there, same)) = get-write_item h.items x k z hk in
    ap (λ id. find id h.indexes) (sym same) ∙ w k y there
