-- ===== src/Stream/Visits.antt =====
-- The loops over a stream's subscribers (internal/sse/hub.go).
use nx_panel.Base.{
  ℕ, ◌≡◌, refl, ap, ◌∙◌, ◌≢◌, inl, inr, Bool, true, false, not, List, [], ◌∷◌, arith, nat_beq,
  nat_beq_iff, ◌==◌, nat_eq, text_eq, if◌then◌else◌, Bool-cases, keep,
}
use nx_panel.Base.Result.{Result, ok}
use nx_panel.Stream.{Channel, Panic, contains, set, visit}

abbrev pub IsDistinct : List ℕ → Type 0
IsDistinct [] = Unit
IsDistinct (i ∷ is) = (contains i is ≡ false) × IsDistinct is

-- The loop sees each channel once.
pub record IsVisited (step : Channel → Result Panic Channel) (h : Channel → Channel) (is : List ℕ)
    (f : ℕ → Channel) : Type 0 where
  pub after : ℕ → Channel
  pub runs : visit step is f ≡ ok after
  pub each : (j : ℕ) → after j ≡ (if contains j is then h (f j) else f j)

bool_clash : (b : Bool) → b ≡ true → ¬ (b ≡ false)
bool_clash b t f = cc (t, f)

absent_ne :
    (i j : ℕ) (is : List ℕ) → contains i is ≡ false → contains j is ≡ true → nat_beq i j ≡ false
absent_ne i j is gone there = elim (Bool-cases (nat_beq i j)) [
  | inl same ↦
      let e : i ≡ j = (nat_beq_iff i j).0 same in
      absurd (bool_clash (contains j is) there (rw e at gone))
  | inr other ↦ other
]

visited_each :
    (i j : ℕ) (is : List ℕ) (c : Channel) (h : Channel → Channel) (f g : ℕ → Channel)
    → contains i is ≡ false
    → g j ≡ (if contains j is then h (set i c f j) else set i c f j)
    → c ≡ h (f i)
    → g j ≡ (if contains j (i ∷ is) then h (f j) else f j)
visited_each i j is c h f g gone e made = elim (Bool-cases (nat_beq i j)) [
  | inl same ↦
      let here : i ≡ j = (nat_beq_iff i j).0 same in
      let absent : contains j is ≡ false = rw here at gone in
      e ∙ rw (same, absent) (made ∙ ap (λ k. h (f k)) here)
  | inr other ↦ rw other (rw other at e)
]

pub visit-IsVisited :
    (step : Channel → Result Panic Channel) (h : Channel → Channel) (is : List ℕ) (f : ℕ → Channel)
    → IsDistinct is
    → ((i : ℕ) → contains i is ≡ true → step (f i) ≡ ok (h (f i)))
    → IsVisited step h is f
unfolding visit
visit-IsVisited step h [] f d good = record { after = f; runs = refl; each = λ j. refl }
visit-IsVisited step h (i ∷ is) f d good =
    let here : step (f i) ≡ ok (h (f i)) = good i (ground (arith, nat_beq_iff i i)) in
    let rest =
      visit-IsVisited step h is (set i (h (f i)) f) d.1
        (λ j m. rw (absent_ne i j is d.0 m) (good j (ground arith))) in
    record {
      after = rest.after;
      runs = rw here rest.runs;
      each = λ j. visited_each i j is (h (f i)) h f rest.after d.0 (rest.each j) refl;
    }

pub contains-keep :
    (i j : ℕ) (is : List ℕ)
    → contains i (keep (λ k. not (k == j)) is) ≡ true
    → (contains i is ≡ true) × (i ≢ j)
contains-keep i j [] m = cc
contains-keep i j (k ∷ is) m =
    ground (arith, nat_beq_iff k j, nat_beq_iff k i, contains-keep i j is)

contains-keep-false :
    (i : ℕ) (p : ℕ → Bool) (is : List ℕ) → contains i is ≡ false → contains i (keep p is) ≡ false
contains-keep-false i p [] m = refl
contains-keep-false i p (k ∷ is) m = ground (arith, contains-keep-false i p is)

pub keep-IsDistinct : (p : ℕ → Bool) (is : List ℕ) → IsDistinct is → IsDistinct (keep p is)
keep-IsDistinct p [] d = tt
keep-IsDistinct p (k ∷ is) d =
    ground (arith, keep-IsDistinct p is d.1, contains-keep-false k p is d.0)

pub set_ne : (i j : ℕ) (c : Channel) (f : ℕ → Channel) → i ≢ j → set i c f j ≡ f j
set_ne i j c f ne = ground (arith, nat_beq_iff i j)
