-- ===== src/Tasks/Locks.antt =====
-- The tables as the schema and the locks keep them: primary keys, the foreign key of a run, and the
-- link from a running run to the task whose lock it holds.
use nx_panel.Tasks.{RunStatus, Task, Run, Db, update_where, first_where}
use nx_panel.Base.{
  ◌≡◌, refl, ◌≢◌, inl, inr, Bool, true, false, some, List, [], ◌∷◌, map, arith, ◌==◌, nat_eq,
  text_eq, text_beq_iff, Bool-cases, keep, any, All, Text,
}

abbrev pub Unique : List Text → Type 0
Unique [] = Unit
Unique (k ∷ ks) = All (λ j. j ≢ k) ks × Unique ks

abbrev pub has : Text → List Text → Bool
has k ks = any (λ j. j == k) ks

-- A task that a running run belongs to names the run as its last, and is locked.
abbrev pub Holds : Run → Task → Type 0
Holds r t = t.id ≡ r.task_id → (t.last_run_id ≡ r.id) × (t.locked_by ≢ [])

abbrev pub IsHeld : List Task → Run → Type 0
IsHeld tasks r = r.status ≡ RunStatus.running → All (Holds r) tasks

pub record IsConsistent (db : Db) : Type 0 where
  pub task_ids : Unique (map (λ t. t.id) db.tasks)
  pub run_ids : Unique (map (λ r. r.id) db.runs)
  pub foreign : All (λ r. has r.task_id (map (λ t. t.id) db.tasks) ≡ true) db.runs
  pub held : All (IsHeld db.tasks) db.runs

module _ {A : Type 0} where
  pub map-update_where :
      (key : A → Text) (p : A → Bool) (f : A → A) (xs : List A)
      → ((x : A) → key (f x) ≡ key x)
      → map key (update_where p f xs) ≡ map key xs
  map-update_where key p f [] same = refl
  map-update_where key p f (x ∷ xs) same = ground (arith, same x, map-update_where key p f xs same)

  pub All-update_where :
      (P Q : A → Type 0) (p : A → Bool) (f : A → A) (xs : List A)
      → ((x : A) → P x → p x ≡ true → Q (f x))
      → ((x : A) → P x → p x ≡ false → Q x)
      → All P xs
      → All Q (update_where p f xs)
  All-update_where P Q p f [] changed same h = tt
  All-update_where P Q p f (x ∷ xs) changed same h = elim (Bool-cases (p x)) [
    | inl e ↦ rw e (changed x h.0 e, All-update_where P Q p f xs changed same h.1)
    | inr e ↦ rw e (same x h.0 e, All-update_where P Q p f xs changed same h.1)
  ]

  pub All-keep :
      (P Q : A → Type 0) (p : A → Bool) (xs : List A)
      → ((x : A) → P x → p x ≡ true → Q x)
      → All P xs
      → All Q (keep p xs)
  All-keep P Q p [] kept h = tt
  All-keep P Q p (x ∷ xs) kept h = elim (Bool-cases (p x)) [
    | inl e ↦ rw e (kept x h.0 e, All-keep P Q p xs kept h.1)
    | inr e ↦ rw e (All-keep P Q p xs kept h.1)
  ]

  pub All-imp : (P Q : A → Type 0) (xs : List A) → ((x : A) → P x → Q x) → All P xs → All Q xs
  All-imp P Q [] f h = tt
  All-imp P Q (x ∷ xs) f h = (f x h.0, All-imp P Q xs f h.1)

  All-map-keep :
      (P : Text → Type 0) (key : A → Text) (p : A → Bool) (xs : List A)
      → All P (map key xs)
      → All P (map key (keep p xs))
  All-map-keep P key p [] h = tt
  All-map-keep P key p (x ∷ xs) h = elim (Bool-cases (p x)) [
    | inl e ↦ rw e (h.0, All-map-keep P key p xs h.1)
    | inr e ↦ rw e (All-map-keep P key p xs h.1)
  ]

  pub Unique-keep :
      (key : A → Text) (p : A → Bool) (xs : List A)
      → Unique (map key xs)
      → Unique (map key (keep p xs))
  Unique-keep key p [] h = tt
  Unique-keep key p (x ∷ xs) h = elim (Bool-cases (p x)) [
    | inl e ↦ rw e (All-map-keep (λ j. j ≢ key x) key p xs h.0, Unique-keep key p xs h.1)
    | inr e ↦ rw e (Unique-keep key p xs h.1)
  ]

  -- A key that no row has is fresh.
  pub fresh_key :
      (key : A → Text) (k : Text) (xs : List A)
      → any (λ x. key x == k) xs ≡ false
      → All (λ j. j ≢ k) (map key xs)
  fresh_key key k [] h = tt
  fresh_key key k (x ∷ xs) h =
      ((λ e. ground (arith, text_beq_iff (key x) k)), fresh_key key k xs (ground arith))

  pub first_where_lem :
      (p : A → Bool) (xs : List A) (x : A)
      → first_where p xs ≡ some x
      → (P : A → Type 0) → All P xs
      → (p x ≡ true) × P x
  first_where_lem p (y ∷ xs) x e P h = elim (Bool-cases (p y)) [
    | inl yes' ↦
        let same : some y ≡ some x = rw yes' at e in
        let at_x : y ≡ x = cc in (rw at_x at yes', rw at_x at h.0)
    | inr no' ↦ first_where_lem p xs x (rw no' at e) P h.1
  ]
  first_where_lem p [] x e P h = absurd (cc)
