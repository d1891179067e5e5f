-- ===== src/Upstream/Scan.antt =====
-- The scanner's state through a text (internal/upstream/validate.go): texts that hold no NUL, and
-- neither semicolon, brace nor comment outside quotes.
use nx_panel.Upstream.Statements.{
  Scan, fail, go, cut, scan, Read, add, skip, part, read, parse_from, tokenize_from, flush, semi,
  unterminated, empty_statement,
}
use nx_panel.Base.{
  ℕ, ◌≡◌, refl, sym, ap, ◌∙◌, ◌⊎◌, inl, inr, Bool, true, false, not, ◌||◌, Option, none, some, List,
  [], ◌∷◌, ◌++◌, append-nil, append_assoc, arith, ◌==◌, nat_eq, text_eq, Text, is_space, trim_space,
}
use nx_panel.Base.Result.{ok, err, ◌>>=◌, ◌>>◌, refuse_if, refuse_if-eq-ok, >>=-eq-ok}

-- The state behind a text with no end of a statement and no error, if it is one.
unfoldable pub quiet : Text → ℕ → Bool → Option (ℕ × Bool)
quiet [] quote escaped = some (quote, escaped)
quiet (c ∷ s) quote escaped = elim (scan c quote escaped) [
  | go quote' escaped' ↦ quiet s quote' escaped'
  | fail problem ↦ none
  | cut ↦ none
]

pub quiet-nil : (w : ℕ × Bool) → quiet [] w.0 w.1 ≡ some w
unfolding quiet
quiet-nil w = refl

pub Scan-cases :
    (r : Scan) → ((p : _) × (r ≡ fail p)) ⊎ (((v : ℕ × Bool) × (r ≡ go v.0 v.1)) ⊎ (r ≡ cut))
Scan-cases (fail p) = inl (p, refl)
Scan-cases (go q e) = inr (inl ((q, e), refl))
Scan-cases cut = inr (inr refl)

pub quiet-cons :
    (c : ℕ) (s : Text) (q : ℕ) (e : Bool) (w : ℕ × Bool)
    → quiet (c ∷ s) q e ≡ some w
    → (v : ℕ × Bool) × ((scan c q e ≡ go v.0 v.1) × (quiet s v.0 v.1 ≡ some w))
unfolding quiet
quiet-cons c s q e w h = elim (Scan-cases (scan c q e)) [
  | inl (p, at) ↦ absurd (ground arith)
  | inr (inl (v, at)) ↦ (v, (at, ground arith))
  | inr (inr at) ↦ absurd (ground arith)
]

pub quiet-go :
    (c : ℕ) (s : Text) (q : ℕ) (e : Bool) (v : ℕ × Bool)
    → scan c q e ≡ go v.0 v.1
    → quiet (c ∷ s) q e ≡ quiet s v.0 v.1
unfolding quiet
quiet-go c s q e v at = ground arith

pub parse_from-go :
    (c : ℕ) (s piece : Text) (q : ℕ) (e : Bool) (v : ℕ × Bool)
    → scan c q e ≡ go v.0 v.1
    → parse_from (c ∷ s) piece q e ≡ parse_from s (piece ++ (c ∷ [])) v.0 v.1
unfolding parse_from
parse_from-go c s piece q e v at = ground arith

pub parse_from-cut :
    (c : ℕ) (s piece : Text) (q : ℕ) (e : Bool)
    → scan c q e ≡ cut
    → parse_from (c ∷ s) piece q e ≡ (
        refuse_if (trim_space piece == []) empty_statement
        >> (parse_from s [] 0 false >>= λ more. ok (trim_space piece ∷ more)))
unfolding parse_from
parse_from-cut c s piece q e at = ground arith

pub parse_from-fail :
    (c : ℕ) (s piece : Text) (q : ℕ) (e : Bool) (problem : _)
    → scan c q e ≡ fail problem
    → parse_from (c ∷ s) piece q e ≡ err problem
unfolding parse_from
parse_from-fail c s piece q e problem at = ground arith

pub quiet-append :
    (s t : Text) (q : ℕ) (e : Bool) (w : ℕ × Bool)
    → quiet s q e ≡ some w
    → quiet (s ++ t) q e ≡ quiet t w.0 w.1
quiet-append [] t q e w h = unfold quiet in ground arith
quiet-append (c ∷ s) t q e w h =
    let (v, (at, later)) = quiet-cons c s q e w h in
    quiet-go c (s ++ t) q e v at ∙ quiet-append s t v.0 v.1 w later

-- A text is quiet up to each of its places.
pub quiet-prefix :
    (s t : Text) (q : ℕ) (e : Bool) (z : ℕ × Bool)
    → quiet (s ++ t) q e ≡ some z
    → (w : ℕ × Bool) × ((quiet s q e ≡ some w) × (quiet t w.0 w.1 ≡ some z))
quiet-prefix [] t q e z h = ((q, e), (unfold quiet in refl, h))
quiet-prefix (c ∷ s) t q e z h =
    let (v, (at, later)) = quiet-cons c (s ++ t) q e z h in
    let (w, (first, second)) = quiet-prefix s t v.0 v.1 z later in
    (w, (quiet-go c s q e v at ∙ first, second))

-- The parser goes through a quiet text and adds it to the piece.
pub parse_from-quiet :
    (s rest piece : Text) (q : ℕ) (e : Bool) (w : ℕ × Bool)
    → quiet s q e ≡ some w
    → parse_from (s ++ rest) piece q e ≡ parse_from rest (piece ++ s) w.0 w.1
parse_from-quiet [] rest piece q e w h = unfold quiet in ground (arith, append-nil piece)
parse_from-quiet (c ∷ s) rest piece q e w h =
    let (v, (at, later)) = quiet-cons c s q e w h in
    parse_from-go c (s ++ rest) piece q e v at
    ∙ parse_from-quiet s rest (piece ++ (c ∷ [])) v.0 v.1 w later
    ∙ ap (λ p. parse_from rest p w.0 w.1) (append_assoc piece (c ∷ []) s)

pub scan-cut : (c q : ℕ) (e : Bool) → scan c q e ≡ cut → (c ≡ semi) × ((q ≡ 0) × (e ≡ false))
unfolding scan
scan-cut c q e h = ground arith

pub scan-space : (c : ℕ) → is_space c ≡ true → scan c 0 false ≡ go 0 false
unfolding scan
scan-space c h = ground arith

-- The tokenizer goes to the state of the parser.
pub Reads : (c q : ℕ) (e : Bool) (v : ℕ × Bool) → Read → Type 0
Reads c q e v (add q' e') = (q' ≡ v.0) × (e' ≡ v.1)
Reads c q e v (skip q' e') = (q' ≡ v.0) × (e' ≡ v.1)
Reads c q e v part = (q ≡ v.0) × (e ≡ v.1)

pub read-scan :
    (c q : ℕ) (e : Bool) (v : ℕ × Bool) → scan c q e ≡ go v.0 v.1 → Reads c q e v (read c q e)
unfolding scan read Reads
read-scan c q e v h = ground arith

pub Read-cases :
    (r : Read)
    → ((v : ℕ × Bool) × (r ≡ add v.0 v.1)) ⊎ (((v : ℕ × Bool) × (r ≡ skip v.0 v.1)) ⊎ (r ≡ part))
Read-cases (add q e) = inl ((q, e), refl)
Read-cases (skip q e) = inr (inl ((q, e), refl))
Read-cases part = inr (inr refl)

tokenize_from-part :
    (c : ℕ) (s token : Text) (q : ℕ) (e : Bool)
    → read c q e ≡ part
    → tokenize_from (c ∷ s) token q e ≡ (tokenize_from s [] q e >>= λ more. ok (flush token more))
unfolding tokenize_from
tokenize_from-part c s token q e is = ground arith

tokenize_from-step :
    (c : ℕ) (s token : Text) (q : ℕ) (e : Bool) (v : ℕ × Bool) {tokens : List Text}
    → scan c q e ≡ go v.0 v.1
    → tokenize_from (c ∷ s) token q e ≡ ok tokens
    → (token' : Text) × ((more : List Text) × (tokenize_from s token' v.0 v.1 ≡ ok more))
unfolding tokenize_from Reads
tokenize_from-step c s token q e v {tokens = tokens} at h =
    let same = read-scan c q e v at in
    elim (Read-cases (read c q e)) [
      | inl (r, is) ↦ (token ++ (c ∷ []), (tokens, ground arith))
      | inr (inl (r, is)) ↦ (token, (tokens, ground arith))
      | inr (inr is) ↦
          let (more, (_, first)) =
            >>=-eq-ok (tokenize_from s [] q e) _ (sym (tokenize_from-part c s token q e is) ∙ h) in
          ([], (more, ground arith))
    ]

-- A quiet text that has tokens ends outside quotes and escapes.
pub tokenize_from-closed :
    (s token : Text) (q : ℕ) (e : Bool) (w : ℕ × Bool) {tokens : List Text}
    → quiet s q e ≡ some w
    → tokenize_from s token q e ≡ ok tokens
    → w ≡ (0, false)
tokenize_from-closed [] token q e w h t =
    unfold quiet tokenize_from in
    let (closed, _) = refuse_if-eq-ok (not (q == 0) || e) unterminated _ t in ground arith
tokenize_from-closed (c ∷ s) token q e w h t =
    let (v, (at, later)) = quiet-cons c s q e w h in
    let (token', (more, t')) = tokenize_from-step c s token q e v at t in
    tokenize_from-closed s token' v.0 v.1 w later t'
