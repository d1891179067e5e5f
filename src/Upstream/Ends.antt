-- ===== src/Upstream/Ends.antt =====
-- Where texts begin and end with bytes that strings.TrimSpace leaves, and the keys of hashes
-- (`validateDirectiveFragment` of internal/upstream/validate.go).
use mathlib.Core.List.{reverse-append, reverse-reverse}
use nx_panel.Upstream.Statements.{
  parse_from, parse_statements, semi, scan, validate_directive_fragment, long_value, semicolon,
  unterminated, no_semicolon,
}
use nx_panel.Upstream.Scan.{quiet, quiet-go, Scan-cases, parse_from-go, parse_from-fail, scan-cut}
use nx_panel.Upstream.Trim.{
  trim_left_part, trim_left-tail, trim_left-trim_space, all-reverse, length-trim_left, all-append,
}
use nx_panel.Base.{
  ℕ, ◌≡◌, refl, sym, ap, ◌∙◌, ◌≢◌, inl, inr, Bool, true, false, not, ◌||◌, some, List, [], ◌∷◌,
  ◌++◌, reverse, arith, ltb, nat_beq_iff, ◌==◌, nat_eq, text_eq, text_beq_iff, Bool-cases, length,
  any, all, Text, is_space, trim_left, trim_space,
}
use nx_panel.Base.Result.{ok, refuse_if-eq-ok, >>=-eq-ok}

-- No space at the end.
abbrev pub IsEnd : Text → Type 0
IsEnd s = trim_left (reverse s) ≡ reverse s

pub trim_space-IsEnd : (s : Text) → trim_left s ≡ s → IsEnd s → trim_space s ≡ s
unfolding trim_space
trim_space-IsEnd s first last =
    ap (λ t. reverse (trim_left (reverse t))) first ∙ ap reverse last ∙ reverse-reverse s

pub IsEnd-trim_space : (s : Text) → trim_space s ≡ s → IsEnd s
IsEnd-trim_space s h =
    let first : trim_left s ≡ s = ap trim_left (sym h) ∙ trim_left-trim_space s ∙ h in
    unfold trim_space in
    sym (reverse-reverse (trim_left (reverse s)))
    ∙ ap reverse (ap (λ t. reverse (trim_left (reverse t))) (sym first) ∙ h)

trim_left-append : (x y : Text) → trim_left x ≡ x → x ≢ [] → trim_left (x ++ y) ≡ x ++ y
unfolding trim_left
trim_left-append [] y h ne = absurd (ne refl)
trim_left-append (c ∷ x) y h ne = elim (Bool-cases (is_space c)) [
  | inl space ↦ let h' = rw space at h in absurd (omega (arith, length-trim_left x, ap length h'))
  | inr other ↦ rw other refl
]

reverse-ne : (s : Text) → s ≢ [] → reverse s ≢ []
reverse-ne s ne e = ne (sym (reverse-reverse s) ∙ ap reverse e)

pub IsEnd-append : (p s : Text) → IsEnd s → s ≢ [] → IsEnd (p ++ s)
IsEnd-append p s h ne =
    ap trim_left (reverse-append p s)
    ∙ trim_left-append (reverse s) (reverse p) h (reverse-ne s ne)
    ∙ sym (reverse-append p s)

abbrev pub is_solid : ℕ → Bool
is_solid c = not (is_space c)

trim_left-solid : (s : Text) → all is_solid s ≡ true → trim_left s ≡ s
unfolding trim_left
trim_left-solid [] h = refl
trim_left-solid (c ∷ s) h = ground arith

pub IsEnd-solid : (s : Text) → all is_solid s ≡ true → IsEnd s
IsEnd-solid s h = trim_left-solid (reverse s) (all-reverse is_solid s h)

-- A text that is trimmed to nothing is space.
blank_space : (s : Text) → trim_space s ≡ [] → all is_space s ≡ true
blank_space s h =
    let (p, (whole, spaces)) = trim_left_part s in
    let (tail, (rest, tail_spaces)) = trim_left-tail s in
    let rest' : trim_left s ≡ tail = rest ∙ ap (λ t. t ++ tail) h in
    ap (all is_space) (whole ∙ ap (λ t. p ++ t) rest')
    ∙ all-append is_space p tail spaces tail_spaces

all-append-false : (p : ℕ → Bool) (s : Text) (c : ℕ) → p c ≡ false → all p (s ++ (c ∷ [])) ≡ false
all-append-false p [] c h = ground arith
all-append-false p (d ∷ s) c h = ground (arith, all-append-false p s c h)

unfinished :
    (piece : Text) (q : ℕ) (e : Bool) (statements : List Text)
    → all is_space piece ≡ false
    → parse_from [] piece q e ≡ ok statements
    → ⊥
unfolding parse_from
unfinished piece q e statements filled h =
    let (_, h1) = refuse_if-eq-ok (not (q == 0) || e) unterminated _ h in
    let (blank, _) = refuse_if-eq-ok (not (trim_space piece == [])) no_semicolon _ h1 in
    let spaces = blank_space piece (ground (arith, text_beq_iff (trim_space piece) [])) in
    cc (sym filled ∙ spaces)

semi_ends :
    (piece : Text) (q : ℕ) (e : Bool) (statements : List Text)
    → parse_from (semi ∷ []) piece q e ≡ ok statements
    → (q ≡ 0) × (e ≡ false)
semi_ends piece q e statements h = elim (Scan-cases (scan semi q e)) [
  | inl (problem, at) ↦ absurd (cc (sym (parse_from-fail semi [] piece q e problem at) ∙ h))
  | inr (inl (v, at)) ↦
      let h0 : parse_from [] (piece ++ (semi ∷ [])) v.0 v.1 ≡ ok statements =
        sym (parse_from-go semi [] piece q e v at) ∙ h in
      let no_space : all is_space (piece ++ (semi ∷ [])) ≡ false =
        all-append-false is_space piece semi refl in
      absurd (unfinished (piece ++ (semi ∷ [])) v.0 v.1 statements no_space h0)
  | inr (inr at) ↦ (scan-cut semi q e at).1
]

-- A value without semicolon is one statement with the semicolon behind it only if its quotes and
-- escapes are closed.
closed_value :
    (value piece : Text) (q : ℕ) (e : Bool) (statements : List Text)
    → any (λ c. c == semi) value ≡ false
    → parse_from (value ++ (semi ∷ [])) piece q e ≡ ok statements
    → quiet value q e ≡ some (0, false)
closed_value [] piece q e statements fresh h =
    let (no_quote, no_escape) = semi_ends piece q e statements h in unfold quiet in ground arith
closed_value (c ∷ value) piece q e statements fresh h = elim (Scan-cases (scan c q e)) [
  | inl (problem, at) ↦
      absurd (cc (sym (parse_from-fail c (value ++ (semi ∷ [])) piece q e problem at) ∙ h))
  | inr (inl (v, at)) ↦
      quiet-go c value q e v at
      ∙ closed_value value (piece ++ (c ∷ [])) v.0 v.1 statements (ground arith)
          (sym (parse_from-go c (value ++ (semi ∷ [])) piece q e v at) ∙ h)
  | inr (inr at) ↦
      let is_semi = (scan-cut c q e at).0 in absurd (ground (arith, nat_beq_iff c semi))
]

-- A hash key that is accepted is closed: no semicolon, brace or comment ends it or what follows.
pub validate_directive_fragment-closed :
    (value : Text)
    → validate_directive_fragment value ≡ ok tt
    → quiet value 0 false ≡ some (0, false)
unfolding validate_directive_fragment parse_statements
validate_directive_fragment-closed value h =
    let (_, h1) = refuse_if-eq-ok (ltb 256 (length value)) long_value _ h in
    let (fresh, h2) = refuse_if-eq-ok (any (λ c. c == semi) value) semicolon _ h1 in
    let (statements, (_, parsed)) = >>=-eq-ok (parse_from (value ++ (semi ∷ [])) [] 0 false) _ h2 in
    closed_value value [] 0 false statements fresh parsed
