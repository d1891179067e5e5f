-- ===== src/Upstream/Trim.antt =====
-- strings.TrimSpace: what it leaves is a part of the text, and has no more space to take.
use nx_panel.Base.{
  ℕ, ◌≤◌, ◌≡◌, refl, sym, ap, ◌∙◌, inl, inr, Bool, true, [], ◌∷◌, ◌++◌, reverse, arith, nat_eq,
  text_eq, Bool-cases, length, all, Text, is_space, trim_left, trim_space,
}
use mathlib.Core.List.{reverse-append, reverse-reverse}

pub trim_left_part : (s : Text) → (p : Text) × ((s ≡ p ++ trim_left s) × (all is_space p ≡ true))
unfolding trim_left
trim_left_part [] = ([], (refl, refl))
trim_left_part (c ∷ s) = elim (Bool-cases (is_space c)) [
  | inl space ↦
      let (p, (whole, spaces)) = trim_left_part s in
      (c ∷ p, (rw space (ap (λ r. c ∷ r) whole), ground arith))
  | inr other ↦ ([], (rw other refl, refl))
]

pub trim_left-space : (p s : Text) → all is_space p ≡ true → trim_left (p ++ s) ≡ trim_left s
unfolding trim_left
trim_left-space [] s h = refl
trim_left-space (c ∷ p) s h = ground (arith, trim_left-space p s)

pub trim_space-space : (p s : Text) → all is_space p ≡ true → trim_space (p ++ s) ≡ trim_space s
unfolding trim_space
trim_space-space p s h = ap (λ r. reverse (trim_left (reverse r))) (trim_left-space p s h)

trim_left-trim_left : (s : Text) → trim_left (trim_left s) ≡ trim_left s
trim_left-trim_left s =
    let (p, (whole, spaces)) = trim_left_part s in
    sym (trim_left-space p (trim_left s) spaces) ∙ ap trim_left (sym whole)

pub all-append :
    (p : ℕ → Bool) (s t : Text) → all p s ≡ true → all p t ≡ true → all p (s ++ t) ≡ true
all-append p [] t a b = b
all-append p (c ∷ s) t a b = ground (arith, all-append p s t)

pub all-reverse : (p : ℕ → Bool) (s : Text) → all p s ≡ true → all p (reverse s) ≡ true
all-reverse p [] h = refl
all-reverse p (c ∷ s) h =
    ap (all p) (reverse-append (c ∷ []) s)
    ∙ all-append p (reverse s) (c ∷ []) (all-reverse p s (ground arith)) (ground arith)

-- The text behind the outer space on the left, up to the outer space on the right.
pub trim_left-tail :
    (s : Text) → (tail : Text) × ((trim_left s ≡ trim_space s ++ tail) × (all is_space tail ≡ true))
unfolding trim_space
trim_left-tail s =
    let u = trim_left s in
    let (p, (whole, spaces)) = trim_left_part (reverse u) in
    (
      reverse p,
      (
        sym (reverse-reverse u) ∙ ap reverse whole ∙ reverse-append p (trim_left (reverse u)),
        all-reverse is_space p spaces,
      ),
    )

pub length-trim_left : (s : Text) → length (trim_left s) ≤ length s
unfolding trim_left
length-trim_left [] = omega arith
length-trim_left (c ∷ s) = ground (arith, length-trim_left s)

trim_left-prefix : (t tail : Text) → trim_left (t ++ tail) ≡ t ++ tail → trim_left t ≡ t
unfolding trim_left
trim_left-prefix [] tail h = refl
trim_left-prefix (c ∷ t) tail h = elim (Bool-cases (is_space c)) [
  | inl space ↦
      let h' = rw space at h in absurd (omega (arith, length-trim_left (t ++ tail), ap length h'))
  | inr other ↦ rw other refl
]

pub trim_left-trim_space : (s : Text) → trim_left (trim_space s) ≡ trim_space s
trim_left-trim_space s =
    let (tail, (whole, spaces)) = trim_left-tail s in
    trim_left-prefix (trim_space s) tail (ap trim_left (sym whole) ∙ trim_left-trim_left s ∙ whole)

pub trim_space-trim_space : (s : Text) → trim_space (trim_space s) ≡ trim_space s
trim_space-trim_space s =
    unfold trim_space in
    ap (λ t. reverse (trim_left (reverse t))) (trim_left-trim_space s)
    ∙ ap (λ t. reverse (trim_left t)) (reverse-reverse (trim_left (reverse (trim_left s))))
    ∙ ap reverse (trim_left-trim_left (reverse (trim_left s)))
