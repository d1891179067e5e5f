-- ===== src/Markers/Lines.antt =====
-- The loop of `markerBodyEnd`, which goes back to the head of a line.
use nx_panel.Base.{
  ℕ, zero, suc, ◌+◌, ◌-◌, ◌≤◌, ◌<◌, ◌≡◌, refl, sym, ap, ◌∙◌, inl, inr, true, false, not, ◌&&◌, [],
  ◌∷◌, ◌++◌, arith, ltb, nat_beq_iff, ◌==◌, nat_eq, text_eq, text_beq, text_beq_iff, lt→ltb,
  Bool-cases, length, take, drop, drop-append, take-append, Text, trim_left, trim_space,
}
use nx_panel.Markers.{newline, is_newline_at, line_start_from, marker_body_end}
use nx_panel.Markers.Search.{IsLine}

pub take_plus : (n : ℕ) (a b : Text) → take (length a + n) (a ++ b) ≡ a ++ take n b
take_plus n [] b = ap (λ k. take k b) (omega arith)
take_plus n (c ∷ a) b =
    let step : suc (length a) + n ≡ suc (length a + n) = omega arith in
    rw step (ap (λ r. c ∷ r) (take_plus n a b))

pub drop_plus : (n : ℕ) (a b : Text) → drop (length a + n) (a ++ b) ≡ drop n b
drop_plus n [] b = ap (λ k. drop k b) (omega arith)
drop_plus n (c ∷ a) b =
    let step : suc (length a) + n ≡ suc (length a + n) = omega arith in rw step (drop_plus n a b)

pub take-drop : (n : ℕ) (s : Text) → take n s ++ drop n s ≡ s
take-drop zero s = refl
take-drop (suc n) [] = refl
take-drop (suc n) (c ∷ s) = ap (λ r. c ∷ r) (take-drop n s)

is_newline_at-drop : (s : Text) (m i : ℕ) → is_newline_at (drop m s) i ≡ is_newline_at s (m + i)
unfolding is_newline_at
is_newline_at-drop s zero i = ap (λ k. is_newline_at s k) (omega arith)
is_newline_at-drop [] (suc m) i = refl
is_newline_at-drop (c ∷ s) (suc m) i =
    let step : suc m + i ≡ suc (m + i) = omega arith in rw step (is_newline_at-drop s m i)

-- One more byte of a line that is not a newline.
take-suc-IsLine :
    (s : Text) (k : ℕ) → is_newline_at s k ≡ false → IsLine (take k s) → IsLine (take (suc k) s)
unfolding is_newline_at
take-suc-IsLine [] k h l = tt
take-suc-IsLine (c ∷ s) zero h l = ((λ e. ground (arith, nat_beq_iff c newline)), tt)
take-suc-IsLine (c ∷ s) (suc k) h l = (l.0, take-suc-IsLine s k h l.1)

pub record IsBack (content : Text) (lo n at : ℕ) : Type 0 where
  pub above : lo ≤ at
  pub below : at ≤ n
  pub is_line : IsLine (take (n - at) (drop at content))

-- `line_start_from` goes back over one line, and not past `lo`.
pub line_start_from-IsBack :
    (content : Text) (lo n : ℕ) → lo ≤ n → IsBack content lo n (line_start_from content lo n)
unfolding line_start_from
line_start_from-IsBack content lo zero le = record {
  above = omega arith;
  below = omega arith;
  is_line = tt;
}
line_start_from-IsBack content lo (suc i) le =
    elim (Bool-cases (ltb lo (suc i) && not (is_newline_at content i))) [
      | inl on ↦
          let ih = line_start_from-IsBack content lo i (ground arith) in
          let at = line_start_from content lo i in
          let step : suc i - at ≡ suc (i - at) = omega (arith, ih.below) in
          let here : is_newline_at (drop at content) (i - at) ≡ false =
            let whole : at + (i - at) ≡ i = omega (arith, ih.below) in
            is_newline_at-drop content at (i - at)
            ∙ ap (λ k. is_newline_at content k) whole
            ∙ ground arith in
          rw on (record {
            above = ih.above;
            below = omega (arith, ih.below);
            is_line = rw step (take-suc-IsLine (drop at content) (i - at) here ih.is_line);
          })
      | inr stop ↦
          let none_left : suc i - suc i ≡ 0 = omega arith in
          rw stop (record { above = le; below = omega arith; is_line = rw none_left tt })
    ]

is_newline_at-line :
    (s r : Text) (k : ℕ) → IsLine s → k < length s → is_newline_at (s ++ r) k ≡ false
unfolding is_newline_at
is_newline_at-line [] r k l lt = absurd (omega arith)
is_newline_at-line (c ∷ s) r zero l lt = ground (arith, nat_beq_iff c newline, l.0)
is_newline_at-line (c ∷ s) r (suc k) l lt = is_newline_at-line s r k l.1 (omega arith)

pub is_newline_at-plus :
    (a b : Text) (k : ℕ) → is_newline_at (a ++ b) (length a + k) ≡ is_newline_at b k
is_newline_at-plus a b k =
    sym (is_newline_at-drop (a ++ b) (length a) k) ∙ ap (λ r. is_newline_at r k) (drop-append a b)

is_newline_at-more :
    (a b : Text) (k : ℕ) → is_newline_at a k ≡ true → is_newline_at (a ++ b) k ≡ true
unfolding is_newline_at
is_newline_at-more [] b k h = cc
is_newline_at-more (c ∷ a) b zero h = h
is_newline_at-more (c ∷ a) b (suc k) h = is_newline_at-more a b k h

line_start_from-stop :
    (content : Text) (lo n : ℕ)
    → is_newline_at content (n - 1) ≡ true
    → line_start_from content lo n ≡ n
unfolding line_start_from
line_start_from-stop content lo zero h = refl
line_start_from-stop content lo (suc i) h =
    let same : suc i - 1 ≡ i = omega arith in
    let here : is_newline_at content i ≡ true = rw (← same) h in rw here (ground arith)

line_start_from-go :
    (content : Text) (lo n : ℕ)
    → lo ≤ n
    → is_newline_at content n ≡ false
    → line_start_from content lo (suc n) ≡ line_start_from content lo n
unfolding line_start_from
line_start_from-go content lo n le h =
    let more = lt→ltb lo (suc n) (omega arith) in rw (h, more) refl

-- Going back over a line ends where it begins, after a newline.
pub line_start_from-line :
    (a line r : Text) (lo k : ℕ)
    → IsLine line
    → lo ≤ length a
    → is_newline_at a (length a - 1) ≡ true
    → k ≤ length line
    → line_start_from (a ++ (line ++ r)) lo (length a + k) ≡ length a
line_start_from-line a line r lo zero l le ends fits =
    let same : length a + 0 ≡ length a = omega arith in
    rw same (
      line_start_from-stop (a ++ (line ++ r)) lo (length a)
        (is_newline_at-more a (line ++ r) (length a - 1) ends))
line_start_from-line a line r lo (suc k) l le ends fits =
    let same : length a + suc k ≡ suc (length a + k) = omega arith in
    let on = is_newline_at-plus a (line ++ r) k ∙ is_newline_at-line line r k l (omega arith) in
    rw same (
      line_start_from-go (a ++ (line ++ r)) lo (length a + k) (omega arith) on
      ∙ line_start_from-line a line r lo k l le ends (omega arith))

-- A blank line before the token goes with the token.
pub marker_body_end-blank :
    (a pad r : Text) (lo : ℕ)
    → IsLine pad
    → trim_space pad ≡ []
    → lo ≤ length a
    → is_newline_at a (length a - 1) ≡ true
    → marker_body_end (a ++ (pad ++ r)) lo (length a + length pad) ≡ length a
unfolding marker_body_end
marker_body_end-blank a pad r lo l blank le ends =
    let back : line_start_from (a ++ (pad ++ r)) lo (length a + length pad) ≡ length a =
      line_start_from-line a pad r lo (length pad) l le ends (omega arith) in
    let long : length a + length pad - length a ≡ length pad = omega arith in
    let cut : take (length pad) (drop (length a) (a ++ (pad ++ r))) ≡ pad =
      rw (drop-append a (pad ++ r)) (take-append pad r) in
    rw (back, long, cut, blank) (unfold text_beq in ground arith)

-- Where a body ends: at most one blank line before the token.
pub record IsBodyEnd (content : Text) (lo n at : ℕ) : Type 0 where
  pub above : lo ≤ at
  pub below : at ≤ n
  pub is_line : IsLine (take (n - at) (drop at content))
  pub blank : trim_space (take (n - at) (drop at content)) ≡ []

pub marker_body_end-IsBodyEnd :
    (content : Text) (lo n : ℕ) → lo ≤ n → IsBodyEnd content lo n (marker_body_end content lo n)
unfolding marker_body_end
marker_body_end-IsBodyEnd content lo n le =
    let back = line_start_from-IsBack content lo n le in
    let at = line_start_from content lo n in
    let none_left : n - n ≡ 0 = omega arith in
    elim (Bool-cases (ltb at n && trim_space (take (n - at) (drop at content)) == [])) [
      | inl blank ↦ rw blank (record {
        above = back.above;
        below = back.below;
        is_line = back.is_line;
        blank = ground (arith, text_beq_iff (trim_space (take (n - at) (drop at content))) []);
      })
      | inr other ↦ rw other (record {
        above = le;
        below = omega arith;
        is_line = rw none_left tt;
        blank = rw none_left (unfold trim_space trim_left in refl);
      })
    ]
