-- ===== src/Base/Store.antt =====
-- A Go map as a list of entries. The order of the list stands for the order of a `range` loop,
-- which Go leaves open, so statements hold for every order.
use nx_panel.Base.Tests.{Eq, ◌==◌, if◌then◌else◌}
use nx_panel.Base.Lists.{length, keep, All}
use Prim.Native.Nat.{suc, ◌≤◌}
use mathlib.Core.Path.{◌≡◌, refl}
use mathlib.Core.Bool.{Bool}
use mathlib.Core.Logic.{◌≢◌}
use mathlib.Core.Option.{Option, none, some}
use mathlib.Core.List.{List, [], ◌∷◌}
use native.Mathlib.Omega.{arith}

abbrev pub Store {ℓ} : Type ℓ → Type ℓ → Type ℓ
Store K V = List (K × V)

module _ {ℓ} {K V : Type ℓ} ⦃e : Eq K⦄ where
  -- m[k]
  unfoldable pub find : K → Store K V → Option V
  find k [] = none
  find k ((j, v) ∷ m) = if j == k then some v else find k m

  -- m[k] = v
  unfoldable pub put : K → V → Store K V → Store K V
  put k v [] = (k, v) ∷ []
  put k v ((j, w) ∷ m) = if j == k then (k, v) ∷ m else (j, w) ∷ put k v m

  -- delete(m, k)
  unfoldable pub remove : K → Store K V → Store K V
  remove k [] = []
  remove k ((j, w) ∷ m) = let rest = remove k m in if j == k then rest else (j, w) ∷ rest

  -- No key stands twice, as in any Go map.
  abbrev pub IsMap : Store K V → Type ℓ
  IsMap [] = Unit
  IsMap ((k, v) ∷ m) = (find k m ≡ none) × IsMap m

  pub find-put :
      (k j : K) (v : V) (m : Store K V) → find j (put k v m) ≡ (if k == j then some v else find j m)
  unfolding find put
  find-put k j v [] = refl
  find-put k j v ((i, w) ∷ m) =
      ground (arith, e.beq_iff k j, e.beq_iff i k, e.beq_iff i j, find-put k j v m)

  pub find-remove :
      (k j : K) (m : Store K V) → find j (remove k m) ≡ (if k == j then none else find j m)
  unfolding find remove
  find-remove k j [] = ground arith
  find-remove k j ((i, w) ∷ m) =
      ground (arith, e.beq_iff k j, e.beq_iff i k, e.beq_iff i j, find-remove k j m)

  pub find-put_self : (k : K) (v : V) (m : Store K V) → find k (put k v m) ≡ some v
  find-put_self k v m = rw find-put (ground (arith, e.beq_iff k k))

  pub find-put_ne : (k j : K) (v : V) (m : Store K V) → k ≢ j → find j (put k v m) ≡ find j m
  find-put_ne k j v m ne = rw find-put (ground (arith, e.beq_iff k j))

  pub find-remove_self : (k : K) (m : Store K V) → find k (remove k m) ≡ none
  find-remove_self k m = rw find-remove (ground (arith, e.beq_iff k k))

  pub length-put_new :
      (k : K) (v : V) (m : Store K V) → find k m ≡ none → length (put k v m) ≡ suc (length m)
  unfolding find put
  length-put_new k v [] h = refl
  length-put_new k v ((i, w) ∷ m) h = ground (arith, length-put_new k v m)

  pub length-put_old :
      (k : K) (v : V) (m : Store K V) → find k m ≢ none → length (put k v m) ≡ length m
  unfolding find put
  length-put_old k v [] h = absurd (h refl)
  length-put_old k v ((i, w) ∷ m) h = ground (arith, length-put_old k v m)

  pub remove_absent : (k : K) (m : Store K V) → find k m ≡ none → remove k m ≡ m
  unfolding find remove
  remove_absent k [] h = refl
  remove_absent k ((i, w) ∷ m) h = ground (arith, remove_absent k m)

  pub length-remove-le : (k : K) (m : Store K V) → length (remove k m) ≤ length m
  unfolding remove
  length-remove-le k [] = omega arith
  length-remove-le k ((i, w) ∷ m) = ground (arith, length-remove-le k m)

  pub length-remove :
      (k : K) (m : Store K V) → IsMap m → find k m ≢ none → suc (length (remove k m)) ≡ length m
  unfolding find remove
  length-remove k [] d h = absurd (h refl)
  length-remove k ((i, w) ∷ m) d h =
      ground (arith, e.beq_iff i k, remove_absent k m, length-remove k m d.1)

module _ {ℓ} {K V : Type ℓ} ⦃e : Eq K⦄ where
  pub put-IsMap : (k : K) (v : V) (m : Store K V) → IsMap m → IsMap (put k v m)
  unfolding put find
  put-IsMap k v [] d = (refl, tt)
  put-IsMap k v ((i, w) ∷ m) d =
      ground (arith, e.beq_iff i k, e.beq_iff k i, put-IsMap k v m d.1, find-put k i v m)

  pub remove-IsMap : (k : K) (m : Store K V) → IsMap m → IsMap (remove k m)
  unfolding remove
  remove-IsMap k [] d = tt
  remove-IsMap k ((i, w) ∷ m) d = ground (arith, remove-IsMap k m d.1, find-remove k i m)

  -- A `range` loop that deletes the entries that fail the test.
  pub find-keep_absent :
      (p : K × V → Bool) (k : K) (m : Store K V) → find k m ≡ none → find k (keep p m) ≡ none
  unfolding find
  find-keep_absent p k [] h = refl
  find-keep_absent p k ((i, w) ∷ m) h = ground (arith, find-keep_absent p k m)

  pub keep-IsMap : (p : K × V → Bool) (m : Store K V) → IsMap m → IsMap (keep p m)
  keep-IsMap p [] d = tt
  keep-IsMap p ((i, w) ∷ m) d = ground (arith, keep-IsMap p m d.1, find-keep_absent p i m)

  -- An entry is found after the loop exactly if it was found before and passes the test.
  pub find-keep :
      (p : K × V → Bool) (k : K) (m : Store K V)
      → IsMap m
      → find k (keep p m)
        ≡ elim (find k m) [ none ↦ none | some v ↦ if p (k, v) then some v else none ]
  unfolding find
  find-keep p k [] d = refl
  find-keep p k ((i, w) ∷ m) d =
      ground (arith, e.beq_iff i k, find-keep p k m d.1, find-keep_absent p k m)

-- What holds of every entry goes on to hold.
module _ {ℓ} {K V : Type ℓ} ⦃e : Eq K⦄ (P : K × V → Type ℓ) where
  pub remove-All : (k : K) (m : Store K V) → All P m → All P (remove k m)
  unfolding remove
  remove-All k [] h = h
  remove-All k ((i, w) ∷ m) h = ground (arith, remove-All k m h.1)

  pub put-All : (k : K) (v : V) (m : Store K V) → P (k, v) → All P m → All P (put k v m)
  unfolding put
  put-All k v [] p h = (p, h)
  put-All k v ((i, w) ∷ m) p h = ground (arith, put-All k v m p h.1)

  pub keep-All : (p : K × V → Bool) (m : Store K V) → All P m → All P (keep p m)
  keep-All p [] h = h
  keep-All p (x ∷ m) h = ground (arith, keep-All p m h.1)

  pub All-find : (k : K) (v : V) (m : Store K V) → All P m → find k m ≡ some v → P (k, v)
  unfolding find
  All-find k v ((i, w) ∷ m) h f = ground (arith, e.beq_iff i k, All-find k v m h.1)
  All-find k v [] h f = cc
