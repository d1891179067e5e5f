-- ===== src/Markers/Index.antt =====
-- Where a token is found first, and what that says of the texts around it (package bytes).
use nx_panel.Base.{
  ℕ, zero, suc, ◌+◌, ◌-◌, ◌<◌, ◌≡◌, refl, sym, ap, ◌∙◌, ◌≢◌, inl, inr, true, false, none, some, [],
  ◌∷◌, ◌++◌, arith, nat_beq_iff, ◌==◌, nat_eq, text_eq, text_beq, text_beq_iff, Bool-cases,
  Option-cases, length, drop, drop-append, Text,
}
use nx_panel.Markers.{has_prefix, index, index_byte, count_from, count, newline}
use nx_panel.Markers.Search.{IsLine, has_prefix_self, has_prefix-split, has_prefix-newline}

has_prefix-append : (t a b : Text) → has_prefix t a ≡ true → has_prefix t (a ++ b) ≡ true
unfolding has_prefix
has_prefix-append [] a b h = refl
has_prefix-append (c ∷ t) [] b h = cc
has_prefix-append (c ∷ t) (d ∷ a) b h = ground (arith, has_prefix-append t a b)

pub count_from-drop : (t : Text) (k : ℕ) (s : Text) → count_from t k s ≡ count (drop k s) t
unfolding count_from count
count_from-drop t zero s = refl
count_from-drop t (suc k) [] = refl
count_from-drop t (suc k) (c ∷ s) = unfold count in count_from-drop t k s

-- A first match at the head, and none at the head.
pub count-here : (c : ℕ) (t s : Text) → count ((c ∷ t) ++ s) (c ∷ t) ≡ suc (count s (c ∷ t))
unfolding count count_from
count-here c t s =
    let skip : count_from (c ∷ t) (suc (length t) - 1) (t ++ s) ≡ count_from (c ∷ t) 0 s =
      let le : suc (length t) - 1 ≡ length t = omega arith in
      rw (le, count_from-drop (c ∷ t) (length t) (t ++ s), drop-append t s)
        (unfold count in refl) in
    rw (has_prefix_self (c ∷ t) s, skip) refl

pub count-later :
    (t : Text) (c : ℕ) (s : Text) → has_prefix t (c ∷ s) ≡ false → count (c ∷ s) t ≡ count s t
unfolding count count_from
count-later t c s h = rw h refl

count-match : (t : Text) (c : ℕ) (s : Text) → has_prefix t (c ∷ s) ≡ true → count (c ∷ s) t ≢ 0
unfolding count count_from
count-match t c s h z = ground arith

pub index-here : (t s : Text) → index t (t ++ s) ≡ some 0
unfolding index
index-here [] [] = unfold text_beq in refl
index-here [] (c ∷ s) = unfold has_prefix in refl
index-here (c ∷ t) s = rw (has_prefix_self (c ∷ t) s) refl

pub index-count : (t s : Text) → t ≢ [] → count s t ≡ 0 → index t s ≡ none
unfolding index
index-count t [] ne h = ground (arith, text_beq_iff t [])
index-count t (c ∷ s) ne h = elim (Bool-cases (has_prefix t (c ∷ s))) [
  | inl here ↦ absurd (count-match t c s here h)
  | inr later ↦ rw (later, index-count t s ne (sym (count-later t c s later) ∙ h)) refl
]

pub count-index : (t s : Text) → t ≢ [] → index t s ≡ none → count s t ≡ 0
unfolding index
count-index t [] ne h = unfold count count_from in refl
count-index t (c ∷ s) ne h = elim (Bool-cases (has_prefix t (c ∷ s))) [
  | inl here ↦ absurd (ground arith)
  | inr later ↦ rw (count-later t c s later) (count-index t s ne (ground arith))
]

-- A text cut at the first match of a token.
pub record IsFirst (t s : Text) (i : ℕ) : Type 0 where
  pub gap : Text
  pub tail : Text
  pub whole : s ≡ gap ++ (t ++ tail)
  pub at : length gap ≡ i
  pub matches : count s t ≡ suc (count tail t)

index_cons-IsFirst :
    (t : Text) (c : ℕ) (s : Text) (i : ℕ)
    → has_prefix t (c ∷ s) ≡ false
    → IsFirst t s i
    → IsFirst t (c ∷ s) (suc i)
index_cons-IsFirst t c s i later first = record {
  gap = c ∷ first.gap;
  tail = first.tail;
  whole = cc first.whole;
  at = omega (arith, first.at);
  matches = rw (count-later t c s later) first.matches;
}

pub index-IsFirst : (t s : Text) (i : ℕ) → t ≢ [] → index t s ≡ some i → IsFirst t s i
unfolding index
index-IsFirst t [] i ne h = absurd (ground (arith, text_beq_iff t []))
index-IsFirst [] s i ne h = absurd (ne refl)
index-IsFirst (a ∷ t) (c ∷ s) i ne h = elim (Bool-cases (has_prefix (a ∷ t) (c ∷ s))) [
  | inl here ↦
      let zero_at : 0 ≡ i = ground arith in
      let whole = has_prefix-split (a ∷ t) (c ∷ s) here in
      record {
        gap = [];
        tail = drop (length t) s;
        whole = whole;
        at = zero_at;
        matches = rw whole (count-here a t (drop (length t) s));
      }
  | inr later ↦ elim (Option-cases (index (a ∷ t) s)) [
    | inl gone ↦ absurd (ground arith)
    | inr (j, found) ↦
        let after : suc j ≡ i = ground arith in
        rw (← after) (index_cons-IsFirst (a ∷ t) c s j later (index-IsFirst (a ∷ t) s j ne found))
  ]
]

pub index-newline_left :
    (t a b : Text) (i : ℕ)
    → IsLine t
    → t ≢ []
    → index t a ≡ some i
    → index t (a ++ (newline ∷ b)) ≡ some i
unfolding index
index-newline_left t [] b i l ne h = absurd (ground (arith, text_beq_iff t []))
index-newline_left t (c ∷ a) b i l ne h =
    ground (arith, has_prefix-newline t (c ∷ a) b l, index-newline_left t a b (i - 1) l ne)

not_empty : (t : Text) → t ≢ [] → has_prefix t [] ≡ false
unfolding has_prefix
not_empty [] ne = absurd (ne refl)
not_empty (c ∷ t) ne = refl

count_cons-zero :
    (t : Text) (c : ℕ) (s : Text)
    → t ≢ []
    → count (c ∷ s) t ≡ 0
    → (has_prefix t (c ∷ s) ≡ false) × (count s t ≡ 0)
count_cons-zero t c s ne z = elim (Bool-cases (has_prefix t (c ∷ s))) [
  | inl here ↦ absurd (count-match t c s here z)
  | inr later ↦ (later, sym (count-later t c s later) ∙ z)
]

pub index-newline_right :
    (t a b : Text) (i : ℕ)
    → IsLine t
    → t ≢ []
    → count a t ≡ 0
    → index t b ≡ some i
    → index t (a ++ (newline ∷ b)) ≡ some (suc (length a) + i)
unfolding index
index-newline_right t [] b i l ne z h =
    rw (has_prefix-newline t [] b l, not_empty t ne, h) (ground arith)
index-newline_right t (c ∷ a) b i l ne z h =
    let (later, none_left) = count_cons-zero t c a ne z in
    rw (has_prefix-newline t (c ∷ a) b l, later, index-newline_right t a b i l ne none_left h)
      (ap (λ n. some n) (omega arith))

-- The converse of `index-newline_left`, for a match that begins before the newline.
pub index-line :
    (t a b : Text) (i : ℕ)
    → IsLine t
    → i < length a
    → index t (a ++ (newline ∷ b)) ≡ some i
    → index t a ≡ some i
unfolding index
index-line t [] b i l lt h = absurd (omega arith)
index-line t (c ∷ a) b i l lt h =
    ground (arith, has_prefix-newline t (c ∷ a) b l, index-line t a b (i - 1) l)

pub count-first :
    (t p r : Text)
    → t ≢ []
    → index t (p ++ (t ++ r)) ≡ some (length p)
    → count (p ++ (t ++ r)) t ≡ suc (count r t)
unfolding index
count-first [] p r ne h = absurd (ne refl)
count-first (a ∷ t) [] r ne h = count-here a t r
count-first (a ∷ t) (c ∷ p) r ne h =
    elim (Bool-cases (has_prefix (a ∷ t) (c ∷ (p ++ ((a ∷ t) ++ r))))) [
      | inl here ↦ absurd (ground arith)
      | inr later ↦
          count-later (a ∷ t) c (p ++ ((a ∷ t) ++ r)) later
          ∙ count-first (a ∷ t) p r ne (ground arith)
    ]

-- A suffix that begins before the first match has it, too.
pub index-suffix :
    (t g s : Text) (i : ℕ) → index t (g ++ s) ≡ some (length g + i) → index t s ≡ some i
unfolding index
index-suffix t [] s i h = ground arith
index-suffix t (c ∷ g) s i h = index-suffix t g s i (ground arith)

pub count-prefix : (t a b : Text) → t ≢ [] → count (a ++ b) t ≡ 0 → count a t ≡ 0
count-prefix t [] b ne h = unfold count count_from in refl
count-prefix t (c ∷ a) b ne h =
    let (later, none_left) = count_cons-zero t c (a ++ b) ne h in
    let not_here : has_prefix t (c ∷ a) ≡ false = ground (arith, has_prefix-append t (c ∷ a) b) in
    rw (count-later t c a not_here) (count-prefix t a b ne none_left)

pub count-suffix : (t a b : Text) → t ≢ [] → count (a ++ b) t ≡ 0 → count b t ≡ 0
count-suffix t [] b ne h = h
count-suffix t (c ∷ a) b ne h = count-suffix t a b ne (count_cons-zero t c (a ++ b) ne h).1

-- A line that a newline ends.
pub record IsCut (s : Text) (i : ℕ) : Type 0 where
  pub line : Text
  pub rest : Text
  pub is_line : IsLine line
  pub whole : s ≡ line ++ (newline ∷ rest)
  pub at : length line ≡ i

pub index_byte-IsCut : (s : Text) (i : ℕ) → index_byte newline s ≡ some i → IsCut s i
unfolding index_byte
index_byte-IsCut [] i h = absurd (ground arith)
index_byte-IsCut (c ∷ s) i h = elim (Bool-cases (newline == c)) [
  | inl here ↦
      let same : newline ≡ c = ground (arith, nat_beq_iff newline c) in
      record { line = []; rest = s; is_line = tt; whole = rw same refl; at = ground arith }
  | inr later ↦ elim (Option-cases (index_byte newline s)) [
    | inl gone ↦ absurd (ground arith)
    | inr (j, found) ↦
        let cut = index_byte-IsCut s j found in
        record {
          line = c ∷ cut.line;
          rest = cut.rest;
          is_line = (λ e. ground (arith, nat_beq_iff newline c), cut.is_line);
          whole = cc cut.whole;
          at = ground (arith, cut.at);
        }
  ]
]

pub index_byte-newline :
    (a b : Text) → IsLine a → index_byte newline (a ++ (newline ∷ b)) ≡ some (length a)
unfolding index_byte
index_byte-newline [] b l = refl
index_byte-newline (c ∷ a) b l = ground (arith, nat_beq_iff newline c, index_byte-newline a b l.1)
