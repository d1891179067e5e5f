-- ===== src/Engine/FirstLeast.antt =====
-- An array whose first item is a least one, as a heap: after each change the least item is brought to
-- the front by one swap. It keeps the contract of container/heap.
use mathlib.Core.Path.{subst}
use nx_panel.Engine.{HeapItem, set}
use nx_panel.Engine.Heap.{
  less, swap_at, swap_all_at, last_item, but_last, GoHeap, get-swap_at, swap_at-set,
}
use nx_panel.Base.{
  ℕ, zero, suc, ◌-◌, ◌<◌, ◌≡◌, refl, sym, ap, ◌∙◌, inl, inr, true, false, some, List, [], ◌∷◌, ◌++◌,
  arith, nat_beq_iff, nat_eq, if◌then◌else◌, Bool-cases, length, get_elem?, All,
}

abbrev pub FirstLeast : List HeapItem → Type 0
FirstLeast [] = Unit
FirstLeast (x ∷ xs) = All (λ y. less y x ≡ false) xs

unfoldable pub least_item : HeapItem → List HeapItem → HeapItem
least_item x [] = x
least_item x (y ∷ ys) = let z = least_item y ys in if less z x then z else x

unfoldable pub least_place : HeapItem → List HeapItem → ℕ
unfolding least_item
least_place x [] = 0
least_place x (y ∷ ys) = let i = least_place y ys in if less (least_item y ys) x then suc i else 0

unfoldable pub to_front : List HeapItem → List (ℕ × ℕ)
unfolding least_place
to_front [] = []
to_front (x ∷ xs) = (0, least_place x xs) ∷ []

get-least_place :
    (x : HeapItem) (xs : List HeapItem)
    → get_elem? (x ∷ xs) (least_place x xs) ≡ some (least_item x xs)
unfolding least_place least_item
get-least_place x [] = refl
get-least_place x (y ∷ ys) = elim (Bool-cases (less (least_item y ys) x)) [
  | inl before ↦ rw before (get-least_place y ys)
  | inr behind ↦ rw behind refl
]

All-less :
    (a b : HeapItem) (xs : List HeapItem)
    → less b a ≡ false
    → All (λ y. less y b ≡ false) xs
    → All (λ y. less y a ≡ false) xs
unfolding less
All-less a b [] le h = tt
All-less a b (y ∷ ys) le h = (ground (arith, h.0), All-less a b ys le h.1)

less_asym : (a b : HeapItem) → less a b ≡ true → less b a ≡ false
unfolding less
less_asym a b h = ground arith

less_irrefl : (a : HeapItem) → less a a ≡ false
unfolding less
less_irrefl a = ground arith

least_item-cons :
    (x y : HeapItem) (ys : List HeapItem)
    → least_item x (y ∷ ys) ≡ (if less (least_item y ys) x then least_item y ys else x)
unfolding least_item
least_item-cons x y ys = refl

least_item-All :
    (x : HeapItem) (xs : List HeapItem) → All (λ y. less y (least_item x xs) ≡ false) (x ∷ xs)
least_item-All x [] = unfold least_item in (less_irrefl x, tt)
least_item-All x (y ∷ ys) = elim (Bool-cases (less (least_item y ys) x)) [
  | inl before ↦
      subst (λ z. All (λ v. less v z ≡ false) (x ∷ y ∷ ys))
        (sym (least_item-cons x y ys ∙ rw before refl))
        (less_asym (least_item y ys) x before, least_item-All y ys)
  | inr behind ↦
      subst (λ z. All (λ v. less v z ≡ false) (x ∷ y ∷ ys))
        (sym (least_item-cons x y ys ∙ rw behind refl))
        (less_irrefl x, All-less x (least_item y ys) (y ∷ ys) behind (least_item-All y ys))
]

All-set :
    (P : HeapItem → Type 0) (xs : List HeapItem) (i : ℕ) (x : HeapItem)
    → P x
    → All P xs
    → All P (set xs i x)
All-set P [] i x p h = tt
All-set P (y ∷ ys) zero x p h = (p, h.1)
All-set P (y ∷ ys) (suc i) x p h = (h.0, All-set P ys i x p h.1)

set_front-FirstLeast :
    (x : HeapItem) (xs : List HeapItem) (i : ℕ) (z : HeapItem)
    → get_elem? (x ∷ xs) i ≡ some z
    → All (λ y. less y z ≡ false) (x ∷ xs)
    → FirstLeast (set (z ∷ xs) i x)
set_front-FirstLeast x xs zero z at h =
    let same : x ≡ z = cc at in subst (λ v. All (λ y. less y v ≡ false) xs) (sym same) h.1
set_front-FirstLeast x xs (suc i) z at h = All-set (λ y. less y z ≡ false) xs i x h.0 h.1

pub front-FirstLeast : (xs : List HeapItem) → FirstLeast (swap_all_at (to_front xs) xs)
unfolding swap_all_at to_front
front-FirstLeast [] = tt
front-FirstLeast (x ∷ xs) =
    subst FirstLeast
      (sym
        (swap_at-set (x ∷ xs) 0 (least_place x xs) x (least_item x xs) refl (get-least_place x xs)))
      (set_front-FirstLeast x xs (least_place x xs) (least_item x xs) (get-least_place x xs)
        (least_item-All x xs))

get-front :
    (xs : List HeapItem) (x : HeapItem) (i : ℕ) (z : HeapItem)
    → get_elem? xs i ≡ some z
    → get_elem? (xs ++ (x ∷ [])) i ≡ some z
get-front [] x i z h = absurd (cc h)
get-front (y ∷ ys) x zero z h = h
get-front (y ∷ ys) x (suc i) z h = get-front ys x i z h

set-front :
    (xs : List HeapItem) (x v : HeapItem) (i : ℕ) (z : HeapItem)
    → get_elem? xs i ≡ some z
    → set (xs ++ (x ∷ [])) i v ≡ set xs i v ++ (x ∷ [])
set-front [] x v i z h = absurd (cc h)
set-front (y ∷ ys) x v zero z h = refl
set-front (y ∷ ys) x v (suc i) z h = ap (λ r. y ∷ r) (set-front ys x v i z h)

-- A swap to the front of all items but the last leaves the last.
to_front-append :
    (xs : List HeapItem) (x : HeapItem)
    → swap_all_at (to_front xs) (xs ++ (x ∷ [])) ≡ swap_all_at (to_front xs) xs ++ (x ∷ [])
unfolding swap_all_at to_front
to_front-append [] x = refl
to_front-append (y ∷ ys) x =
    let i = least_place y ys in
    let z = least_item y ys in
    let at = get-least_place y ys in
    swap_at-set ((y ∷ ys) ++ (x ∷ [])) 0 i y z refl (get-front (y ∷ ys) x i z at)
    ∙ moved i z at
    ∙ ap (λ l. l ++ (x ∷ [])) (sym (swap_at-set (y ∷ ys) 0 i y z refl at))
  where
    moved :
        (i : ℕ) (z : HeapItem)
        → get_elem? (y ∷ ys) i ≡ some z
        → set (z ∷ (ys ++ (x ∷ []))) i y ≡ set (z ∷ ys) i y ++ (x ∷ [])
    moved zero z at = refl
    moved (suc i) z at = ap (λ r. z ∷ r) (set-front ys x y i z at)

pub but_last-append : (xs : List HeapItem) (x : HeapItem) → but_last (xs ++ (x ∷ [])) ≡ xs
unfolding but_last
but_last-append [] x = refl
but_last-append (y ∷ []) x = refl
but_last-append (y ∷ z ∷ xs) x = ap (λ r. y ∷ r) (but_last-append (z ∷ xs) x)

pub last_item-append : (xs : List HeapItem) (x : HeapItem) → last_item (xs ++ (x ∷ [])) ≡ some x
unfolding last_item
last_item-append [] x = refl
last_item-append (y ∷ []) x = refl
last_item-append (y ∷ z ∷ xs) x = last_item-append (z ∷ xs) x

but_last-whole :
    (xs : List HeapItem) (n : ℕ) (x : HeapItem)
    → length xs ≡ suc n
    → get_elem? xs n ≡ some x
    → xs ≡ but_last xs ++ (x ∷ [])
unfolding but_last
but_last-whole [] n x e h = absurd (omega (arith, e))
but_last-whole (y ∷ []) zero x e h = let same : y ≡ x = cc h in ap (λ z. z ∷ []) same
but_last-whole (y ∷ []) (suc n) x e h = absurd (omega (arith, e))
but_last-whole (y ∷ z ∷ xs) zero x e h = absurd (omega (arith, e))
but_last-whole (y ∷ z ∷ xs) (suc n) x e h =
    ap (λ r. y ∷ r) (but_last-whole (z ∷ xs) n x (omega (arith, e)) h)

length-set : (xs : List HeapItem) (i : ℕ) (x : HeapItem) → length (set xs i x) ≡ length xs
length-set [] i x = refl
length-set (y ∷ ys) zero x = refl
length-set (y ∷ ys) (suc i) x = ap suc (length-set ys i x)

get-below : (xs : List HeapItem) (i : ℕ) (x : HeapItem) → get_elem? xs i ≡ some x → i < length xs
get-below [] i x h = absurd (cc h)
get-below (y ∷ ys) zero x h = omega arith
get-below (y ∷ ys) (suc i) x h = omega (arith, get-below ys i x h)

get-some : (xs : List HeapItem) (i : ℕ) → i < length xs → (x : HeapItem) × (get_elem? xs i ≡ some x)
get-some [] i lt = absurd (omega (arith, lt))
get-some (y ∷ ys) zero lt = (y, refl)
get-some (y ∷ ys) (suc i) lt = get-some ys i (omega (arith, lt))

unfoldable pub to_end : List HeapItem → ℕ → List (ℕ × ℕ)
unfolding to_front but_last swap_at
to_end xs i = (i, length xs - 1) ∷ to_front (but_last (swap_at i (length xs - 1) xs))

module _ (xs : List HeapItem) (i : ℕ) (x : HeapItem) (at : get_elem? xs i ≡ some x) where
  abbrev pub swapped : List HeapItem
  swapped = swap_at i (length xs - 1) xs

  swapped_whole : swapped ≡ but_last swapped ++ (x ∷ [])
  swapped_whole =
      let n = length xs - 1 in
      let below = get-below xs i x at in
      let (y, there) = get-some xs n (omega (arith, below)) in
      let long : length swapped ≡ suc n =
        ap length (swap_at-set xs i n x y at there)
        ∙ length-set (set xs i y) n x
        ∙ length-set xs i y
        ∙ omega (arith, below) in
      but_last-whole swapped n x long
        (get-swap_at xs i n n x y at there ∙ rw ((nat_beq_iff n n).1 refl) refl)

  pub moved_whole :
      swap_all_at (to_end xs i) xs
      ≡ swap_all_at (to_front (but_last swapped)) (but_last swapped) ++ (x ∷ [])
  unfolding swap_all_at to_end
  moved_whole =
      ap (swap_all_at (to_front (but_last swapped))) swapped_whole
      ∙ to_front-append (but_last swapped) x

unfoldable pub first_least : GoHeap
unfolding to_front to_end
first_least = record {
  IsHeap = FirstLeast;
  push_swaps = to_front;
  fix_swaps = λ xs i. to_front xs;
  remove_swaps = to_end;
  empty_IsHeap = tt;
  least = λ x xs h. h;
  push_IsHeap = λ xs x h. front-FirstLeast (xs ++ (x ∷ []));
  fix_IsHeap = λ xs i x y at h. front-FirstLeast (set xs i x);
  remove_IsHeap = λ xs i x at h.
      subst FirstLeast
        (sym (
          ap but_last (moved_whole xs i x at)
          ∙ but_last-append
              (swap_all_at (to_front (but_last (swapped xs i x at))) (but_last (swapped xs i x at)))
              x))
        (front-FirstLeast (but_last (swapped xs i x at)));
  removed = λ xs i x at.
      ap last_item (moved_whole xs i x at)
      ∙ last_item-append
          (swap_all_at (to_front (but_last (swapped xs i x at))) (but_last (swapped xs i x at))) x;
}
