-- ===== src/Login/Eviction.antt =====
-- What `evictOldestLocked` removes, and the loop of `enforceCardinalityLocked`.
use nx_panel.Base.{
  ℕ, zero, suc, ◌≤◌, ◌<◌, ◌-◌, ◌+◌, min, ◌≡◌, ◌≢◌, ◌⊎◌, inl, inr, refl, some, none, [], ◌∷◌, arith,
  ltb, ◌==◌, text_eq, text_beq, text_beq_iff, tests, ◌∙◌, if◌then◌else◌, length, All, Text,
  Bool-cases,
}
use nx_panel.Base.Store.{find, remove, IsMap, length-remove, remove-IsMap, remove-All, All-find}
use nx_panel.Login.{
  FailRecord, Records, oldest_from, evict_oldest_locked, enforce_from, enforce_cardinality_locked,
  Limits,
}

-- The panel never stores a record under an empty key.
abbrev pub HasNamedKeys : Records → Type 0
HasNamedKeys m = All (λ e. e.0 ≢ []) m

abbrev pub IsOldest : Text → FailRecord → Records → Type 0
IsOldest key rec m = (find key m ≡ some rec) × All (λ e. rec.window_start ≤ e.1.window_start) m

abbrev IsKept : Text → ℕ → Records → Type 0
IsKept key o m = (oldest_from key o m ≡ key) × All (λ e. o ≤ e.1.window_start) m

abbrev IsReplaced : Text → ℕ → Records → Type 0
IsReplaced key o m =
    (rec : FailRecord) × (rec.window_start < o) × IsOldest (oldest_from key o m) rec m

All-start-le :
    (a b : ℕ) (m : Records)
    → a ≤ b
    → All (λ e. b ≤ e.1.window_start) m
    → All (λ e. a ≤ e.1.window_start) m
All-start-le a b [] h k = tt
All-start-le a b (e ∷ m) h k = (omega arith, All-start-le a b m h k.1)

find_later :
    (k j : Text) (rec r : FailRecord) (m : Records)
    → find k m ≡ none
    → find j m ≡ some r
    → find j ((k, rec) ∷ m) ≡ some r
unfolding find
find_later k j rec r m h e = ground (arith, text_beq_iff k j)

find_here : (k : Text) (rec : FailRecord) (m : Records) → find k ((k, rec) ∷ m) ≡ some rec
unfolding find
find_here k rec m = ground (arith, text_beq_iff k k)

oldest_from-cons :
    (key k : Text) (o : ℕ) (rec : FailRecord) (rest : Records)
    → key ≢ []
    → oldest_from key o ((k, rec) ∷ rest) ≡ (
        if ltb rec.window_start o
        then oldest_from k rec.window_start rest
        else oldest_from key o rest)
unfolding oldest_from
oldest_from-cons key k o rec rest ne = ground (arith, text_beq_iff key [])

IsOldest-here :
    (j k : Text) (rec : FailRecord) (rest : Records)
    → IsKept k rec.window_start rest
    → j ≡ oldest_from k rec.window_start rest
    → IsOldest j rec ((k, rec) ∷ rest)
IsOldest-here j k rec rest (same, above) e =
    (rw (e, same) (find_here k rec rest), (omega arith, above))

IsOldest-later :
    (j k : Text) (rec r : FailRecord) (rest : Records)
    → find k rest ≡ none
    → r.window_start ≤ rec.window_start
    → IsOldest j r rest
    → IsOldest j r ((k, rec) ∷ rest)
IsOldest-later j k rec r rest d le (found, above) = (find_later k j rec r rest d found, (le, above))

oldest_from_lem :
    (key : Text) (o : ℕ) (m : Records)
    → IsMap m
    → HasNamedKeys m
    → key ≢ []
    → IsKept key o m ⊎ IsReplaced key o m
oldest_from_lem key o [] d n ne = inl (unfold oldest_from in refl, tt)
oldest_from_lem key o ((k, rec) ∷ rest) d n ne =
    let step = oldest_from-cons key k o rec rest ne in
    elim (Bool-cases (ltb rec.window_start o)) [
      | inl older ↦
          let next : oldest_from key o ((k, rec) ∷ rest) ≡ oldest_from k rec.window_start rest =
            rw older at step in
          inr (elim (oldest_from_lem k rec.window_start rest d.1 n.1 n.0) [
            | inl kept ↦ (rec, omega (tests), IsOldest-here _ k rec rest kept next)
            | inr (r, lt, oldest) ↦
                (r, omega tests, IsOldest-later _ k rec r rest d.0 (omega arith) (rw next oldest))
          ])
      | inr newer ↦
          let next : oldest_from key o ((k, rec) ∷ rest) ≡ oldest_from key o rest =
            rw newer at step in
          elim (oldest_from_lem key o rest d.1 n.1 ne) [
            | inl (same, above) ↦ inl (next ∙ same, (ground arith, above))
            | inr (r, lt, oldest) ↦
                inr (r, lt, IsOldest-later _ k rec r rest d.0 (ground arith) (rw next oldest))
          ]
    ]

-- On a map with a record, the key that the loop ends with has a record, and none began earlier.
evicted_key-IsOldest :
    (e : Text × FailRecord) (m : Records)
    → IsMap (e ∷ m)
    → HasNamedKeys (e ∷ m)
    → (rec : FailRecord) × IsOldest (oldest_from [] 0 (e ∷ m)) rec (e ∷ m)
evicted_key-IsOldest (k, rec) m d n =
    let next : oldest_from [] 0 ((k, rec) ∷ m) ≡ oldest_from k rec.window_start m =
      unfold oldest_from text_beq in refl in
    elim (oldest_from_lem k rec.window_start m d.1 n.1 n.0) [
      | inl kept ↦ (rec, IsOldest-here _ k rec m kept next)
      | inr (r, lt, oldest) ↦ (r, IsOldest-later _ k rec r m d.0 (omega arith) (rw next oldest))
    ]

-- The shape of both stores: each key stands once, and none is empty.
pub record IsNamedMap (m : Records) : Type 0 where
  pub is_map : IsMap m
  pub named : HasNamedKeys m

remove-IsNamedMap : (k : Text) (m : Records) → IsNamedMap m → IsNamedMap (remove k m)
remove-IsNamedMap k m h = record {
  is_map = remove-IsMap k m h.is_map;
  named = remove-All (λ e. e.0 ≢ []) k m h.named;
}

find_named :
    (k : Text) (rec : FailRecord) (m : Records) → HasNamedKeys m → find k m ≡ some rec → k ≢ []
find_named k rec m h f = All-find (λ e. e.0 ≢ []) k rec m h f

-- Evicting from a store with a record removes exactly one record, and none began earlier.
pub evict_oldest_locked-IsOldest :
    (m : Records)
    → IsNamedMap m
    → 0 < length m
    → (key : Text) × (rec : FailRecord) × IsOldest key rec m
      × (evict_oldest_locked m ≡ remove key m)
      × (suc (length (evict_oldest_locked m)) ≡ length m)
unfolding evict_oldest_locked
evict_oldest_locked-IsOldest [] h lt = absurd (omega arith)
evict_oldest_locked-IsOldest (e ∷ m) h lt =
    let key = oldest_from [] 0 (e ∷ m) in
    let (rec, oldest) = evicted_key-IsOldest e m h.is_map h.named in
    let other : key ≢ [] = find_named key rec (e ∷ m) h.named oldest.0 in
    let same : evict_oldest_locked (e ∷ m) ≡ remove key (e ∷ m) =
      ground (arith, text_beq_iff key []) in
    (
      key,
      rec,
      oldest,
      same,
      rw same (length-remove key (e ∷ m) h.is_map (λ gone. cc (oldest.0, gone))),
    )

pub evict_oldest_locked-IsNamedMap :
    (m : Records) → IsNamedMap m → IsNamedMap (evict_oldest_locked m)
unfolding evict_oldest_locked
evict_oldest_locked-IsNamedMap m h =
    let key = oldest_from [] 0 m in
    elim (Bool-cases (key == [])) [
      | inl same ↦ rw same h
      | inr other ↦ rw other (remove-IsNamedMap key m h)
    ]

pub length-evict_oldest_locked :
    (m : Records) → IsNamedMap m → length (evict_oldest_locked m) ≡ length m - 1
length-evict_oldest_locked [] h = unfold evict_oldest_locked oldest_from text_beq in refl
length-evict_oldest_locked (e ∷ m) h =
    omega (arith, (evict_oldest_locked-IsOldest (e ∷ m) h (omega arith)).4)

enforce_from-IsNamedMap :
    (fuel most : ℕ) (m : Records) → IsNamedMap m → IsNamedMap (enforce_from fuel most m)
unfolding enforce_from
enforce_from-IsNamedMap zero most m h = h
enforce_from-IsNamedMap (suc fuel) most m h = elim (Bool-cases (ltb most (length m))) [
  | inl over ↦ rw over (
      enforce_from-IsNamedMap fuel most (evict_oldest_locked m)
        (evict_oldest_locked-IsNamedMap m h))
  | inr fits ↦ rw fits h
]

-- The fuel is enough: the loop ends by its own test.
length-enforce_from :
    (fuel most : ℕ) (m : Records)
    → IsNamedMap m
    → length m ≤ fuel + most
    → length (enforce_from fuel most m) ≡ min most (length m)
unfolding enforce_from
length-enforce_from zero most m h le = omega arith
length-enforce_from (suc fuel) most m h le =
    let shorter = length-evict_oldest_locked m h in
    elim (Bool-cases (ltb most (length m))) [
      | inl over ↦
          let ih =
            length-enforce_from fuel most (evict_oldest_locked m)
              (evict_oldest_locked-IsNamedMap m h) (omega tests) in
          rw over (omega tests)
      | inr fits ↦ rw fits (ground arith)
    ]

pub enforce_cardinality_locked-IsNamedMap :
    (c : Limits) (m : Records) → IsNamedMap m → IsNamedMap (enforce_cardinality_locked c m)
unfolding enforce_cardinality_locked
enforce_cardinality_locked-IsNamedMap c m h = enforce_from-IsNamedMap (length m) c.max_entries m h

-- Enforcing the limit leaves as many records as the limit allows, and all if they fit.
pub length-enforce_cardinality_locked :
    (c : Limits) (m : Records)
    → IsNamedMap m
    → length (enforce_cardinality_locked c m) ≡ min c.max_entries (length m)
unfolding enforce_cardinality_locked
length-enforce_cardinality_locked c m h =
    length-enforce_from (length m) c.max_entries m h (omega arith)
