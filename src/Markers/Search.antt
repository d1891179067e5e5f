-- ===== src/Markers/Search.antt =====
-- Searching a text that a newline divides, for a token that has none (package bytes).
use nx_panel.Base.{
  ℕ, zero, suc, ◌+◌, ◌-◌, ◌≤◌, ◌≡◌, refl, ◌≢◌, inl, inr, true, [], ◌∷◌, ◌++◌, arith, nat_beq_iff,
  nat_eq, text_eq, Bool-cases, length, drop, All, Text,
}
use nx_panel.Markers.{has_prefix, count_from, count, newline}

abbrev pub IsLine : Text → Type 0
IsLine t = All (λ c. c ≢ newline) t

pub has_prefix-le : (t s : Text) → has_prefix t s ≡ true → length t ≤ length s
unfolding has_prefix
has_prefix-le [] s h = omega arith
has_prefix-le (c ∷ t) [] h = cc
has_prefix-le (c ∷ t) (d ∷ s) h = ground (arith, has_prefix-le t s)

pub has_prefix_self : (t s : Text) → has_prefix t (t ++ s) ≡ true
unfolding has_prefix
has_prefix_self [] s = refl
has_prefix_self (c ∷ t) s = ground (arith, has_prefix_self t s)

pub has_prefix-split : (t s : Text) → has_prefix t s ≡ true → s ≡ t ++ drop (length t) s
unfolding has_prefix
has_prefix-split [] s h = refl
has_prefix-split (c ∷ t) [] h = cc
has_prefix-split (c ∷ t) (d ∷ s) h = ground (arith, nat_beq_iff c d, has_prefix-split t s)

pub has_prefix-newline :
    (t a b : Text) → IsLine t → has_prefix t (a ++ (newline ∷ b)) ≡ has_prefix t a
unfolding has_prefix
has_prefix-newline [] a b l = refl
has_prefix-newline (c ∷ t) [] b l = ground (arith, nat_beq_iff c newline)
has_prefix-newline (c ∷ t) (d ∷ a) b l = ground (arith, has_prefix-newline t a b l.1)

count_from-newline :
    (t : Text) (k : ℕ) (a b : Text)
    → IsLine t
    → t ≢ []
    → k ≤ length a
    → count_from t k (a ++ (newline ∷ b)) ≡ count_from t k a + count_from t 0 b
unfolding count_from has_prefix
count_from-newline (c ∷ t) zero [] b l ne le = ground (arith, nat_beq_iff c newline)
count_from-newline [] k a b l ne le = absurd (ne refl)
count_from-newline t (suc k) [] b l ne le = absurd (omega arith)
count_from-newline t (suc k) (d ∷ a) b l ne le = count_from-newline t k a b l ne (omega arith)
count_from-newline t zero (d ∷ a) b l ne le =
    let same = has_prefix-newline t (d ∷ a) b l in
    elim (Bool-cases (has_prefix t (d ∷ a))) [
      | inl here ↦
          let fits = has_prefix-le t (d ∷ a) here in
          rw (same, here)
            (omega (arith, count_from-newline t (length t - 1) a b l ne (omega arith)))
      | inr later ↦ rw (same, later) (count_from-newline t 0 a b l ne (omega arith))
    ]

-- A newline divides the count of a token that has none.
pub count-newline :
    (t a b : Text) → IsLine t → t ≢ [] → count (a ++ (newline ∷ b)) t ≡ count a t + count b t
unfolding count
count-newline t a b l ne = count_from-newline t 0 a b l ne (omega arith)
