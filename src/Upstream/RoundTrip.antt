-- ===== src/Upstream/RoundTrip.antt =====
-- Statements that are parsed, written and parsed again (internal/upstream/validate.go).
use nx_panel.Upstream.Statements.{
  scan, parse_from, parse_statements, tokenize_statement, semi, check_directive, write_statement,
  write_statements, normalize_advanced_directives, max_advanced_bytes, max_advanced_statements,
  unterminated, no_semicolon, empty_statement, long_directives, many_statements,
}
use nx_panel.Upstream.Scan.{
  quiet, quiet-nil, quiet-go, parse_from-go, parse_from-cut, parse_from-fail, quiet-append,
  quiet-prefix, parse_from-quiet, scan-space, Scan-cases, tokenize_from-closed,
}
use mathlib.Core.Path.{subst}
use nx_panel.Upstream.Trim.{trim_left_part, trim_left-tail, trim_space-trim_space, trim_space-space}
use nx_panel.Base.{
  ℕ, suc, ◌+◌, ◌≤◌, ◌≡◌, refl, sym, ap, ◌∙◌, ◌≢◌, ◌↔◌, inl, inr, Bool, true, false, not, ◌||◌, some,
  List, [], ◌∷◌, ◌++◌, append-nil, arith, ltb, ◌==◌, nat_eq, text_eq, text_beq, text_beq_iff,
  length, all, All, length-append, Text, is_space, trim_left, trim_space,
}
use nx_panel.Base.Result.{ok, ◌>>=◌, ◌>>◌, refuse_if, refuse_if-eq-ok, >>=-eq-ok, ok-injective}

-- A statement that stands on its own: no outer space, no NUL, and outside quotes and escapes, which
-- are closed, neither semicolon, brace nor comment.
pub record IsStatement (s : Text) : Type 0 where
  pub trimmed : trim_space s ≡ s
  pub some_byte : s ≢ []
  pub closed : quiet s 0 false ≡ some (0, false)

-- What the parser returns, which may end within a quote or an escape.
record IsPiece (s : Text) : Type 0 where
  trimmed : trim_space s ≡ s
  some_byte : s ≢ []
  state : ℕ × Bool
  calm : quiet s 0 false ≡ some state

quiet-space : (p s : Text) → all is_space p ≡ true → quiet (p ++ s) 0 false ≡ quiet s 0 false
unfolding quiet
quiet-space [] s h = refl
quiet-space (c ∷ p) s h = ground (arith, scan-space c, quiet-space p s)

-- What is left of a quiet text without outer space is quiet.
quiet-trim_space :
    (s : Text) (w : ℕ × Bool)
    → quiet s 0 false ≡ some w
    → (v : ℕ × Bool) × (quiet (trim_space s) 0 false ≡ some v)
quiet-trim_space s w h =
    let (p, (whole, spaces)) = trim_left_part s in
    let (tail, (rest, _)) = trim_left-tail s in
    let calm : quiet (trim_space s ++ tail) 0 false ≡ some w =
      ap (λ t. quiet t 0 false) (sym rest)
      ∙ sym (quiet-space p _ spaces)
      ∙ ap (λ t. quiet t 0 false) (sym whole)
      ∙ h in
    let (v, (first, _)) = quiet-prefix (trim_space s) tail 0 false w calm in (v, first)

trim_space-IsPiece :
    (piece : Text) (w : ℕ × Bool)
    → quiet piece 0 false ≡ some w
    → (trim_space piece == []) ≡ false
    → IsPiece (trim_space piece)
trim_space-IsPiece piece w calm filled =
    let (v, inside) = quiet-trim_space piece w calm in
    record {
      trimmed = trim_space-trim_space piece;
      some_byte = λ empty. ground (arith, text_beq_iff (trim_space piece) []);
      state = v;
      calm = inside;
    }

-- Each statement that the parser returns is a quiet text without outer space.
parse_from-IsPiece :
    (rest piece : Text) (q : ℕ) (e : Bool) (statements : List Text)
    → quiet piece 0 false ≡ some (q, e)
    → parse_from rest piece q e ≡ ok statements
    → All IsPiece statements
parse_from-IsPiece [] piece q e statements calm h =
    unfold parse_from in
    let (_, h1) = refuse_if-eq-ok (not (q == 0) || e) unterminated _ h in
    let (_, h2) = refuse_if-eq-ok (not (trim_space piece == [])) no_semicolon _ h1 in
    subst (All IsPiece) (ok-injective h2) tt
parse_from-IsPiece (c ∷ rest) piece q e statements calm h = elim (Scan-cases (scan c q e)) [
  | inl (problem, at) ↦ absurd (cc (sym (parse_from-fail c rest piece q e problem at) ∙ h))
  | inr (inl (v, at)) ↦
      parse_from-IsPiece rest (piece ++ (c ∷ [])) v.0 v.1 statements
        (quiet-append piece (c ∷ []) 0 false (q, e) calm ∙ quiet-go c [] q e v at ∙ quiet-nil v)
        (sym (parse_from-go c rest piece q e v at) ∙ h)
  | inr (inr at) ↦
      let (filled, h1) =
        refuse_if-eq-ok (trim_space piece == []) empty_statement _
          (sym (parse_from-cut c rest piece q e at) ∙ h) in
      let (more, (whole, later)) = >>=-eq-ok (parse_from rest [] 0 false) _ h1 in
      subst (All IsPiece) (ok-injective whole) (
        trim_space-IsPiece piece (q, e) calm filled,
        parse_from-IsPiece rest [] 0 false more (quiet-nil (0, false)) later,
      )
]

-- strings.Builder's content after statements that are in the form that is written.
unfoldable pub written : List Text → Text
written [] = []
written (s ∷ statements) = s ++ (semi ∷ 10 ∷ written statements)

-- A statement is read back up to its semicolon, with space before it or not.
pub parse_from-semi :
    (s rest p : Text)
    → IsStatement s
    → all is_space p ≡ true
    → parse_from (s ++ (semi ∷ rest)) p 0 false
      ≡ (parse_from rest [] 0 false >>= λ more. ok (s ∷ more))
parse_from-semi s rest p h spaces =
    let trim : trim_space (p ++ s) ≡ s = trim_space-space p s spaces ∙ h.trimmed in
    let filled : (trim_space (p ++ s) == []) ≡ false =
      ground (arith, text_beq_iff (trim_space (p ++ s)) [], h.some_byte) in
    parse_from-quiet s (semi ∷ rest) p 0 false (0, false) h.closed
    ∙ parse_from-cut semi rest (p ++ s) 0 false (unfold scan in refl)
    ∙ ap
        (λ b.
          refuse_if b empty_statement
          >> (parse_from rest [] 0 false >>= λ more. ok (trim_space (p ++ s) ∷ more)))
        filled
    ∙ ap (λ t. parse_from rest [] 0 false >>= λ more. ok (t ∷ more)) trim

pub blank-trim : (p : Text) → all is_space p ≡ true → trim_space p ≡ []
blank-trim p spaces =
    ap trim_space (sym (append-nil p))
    ∙ trim_space-space p [] spaces
    ∙ unfold trim_space trim_left in refl

parse_from-written :
    (statements : List Text) (p : Text)
    → All IsStatement statements
    → all is_space p ≡ true
    → parse_from (written statements) p 0 false ≡ ok statements
unfolding written
parse_from-written [] p h spaces = unfold parse_from text_beq in rw (blank-trim p spaces) refl
parse_from-written (s ∷ statements) p h spaces =
    let newline : Text = 10 ∷ [] in
    parse_from-semi s (10 ∷ written statements) p h.0 spaces
    ∙ ap (λ r. r >>= λ more. ok (s ∷ more))
        (parse_from-go 10 (written statements) [] 0 false (0, false) (unfold scan in refl)
          ∙ parse_from-written statements newline h.1 refl)

-- A statement with tokens, the first of which is neither `include` nor a managed directive.
pub record IsAllowed (s : Text) : Type 0 where
  pub tokens : List Text
  pub has_tokens : tokenize_statement s ≡ ok tokens
  pub free : check_directive tokens ≡ ok tt

IsPiece-IsStatement : (s : Text) → IsPiece s → IsAllowed s → IsStatement s
unfolding tokenize_statement
IsPiece-IsStatement s h allowed =
    let closed = tokenize_from-closed s [] 0 false h.state h.calm allowed.has_tokens in
    record { trimmed = h.trimmed; some_byte = h.some_byte; closed = h.calm ∙ ap some closed }

-- What is written of pieces that pass is what stands for their statements.
record IsWritten (statements : List Text) (out : Text) : Type 0 where
  sound : All IsStatement statements
  allowed : All IsAllowed statements
  text : out ≡ written statements

write_statements-IsWritten :
    (statements : List Text) (out : Text)
    → All IsPiece statements
    → write_statements statements ≡ ok out
    → IsWritten statements out
unfolding write_statements written write_statement
write_statements-IsWritten [] out pieces h = record {
  sound = tt;
  allowed = tt;
  text = sym (ok-injective h);
}
write_statements-IsWritten (s ∷ statements) out pieces h =
    let (tokens, (h1, has_tokens)) = >>=-eq-ok (tokenize_statement s) _ h in
    let (u, (h2, free)) = >>=-eq-ok (check_directive tokens) _ h1 in
    let (later, (whole, h3)) = >>=-eq-ok (write_statements statements) _ h2 in
    let rest = write_statements-IsWritten statements later pieces.1 h3 in
    let allowed : IsAllowed s = record { tokens = tokens; has_tokens = has_tokens; free = free } in
    record {
      sound = (IsPiece-IsStatement s pieces.0 allowed, rest.sound);
      allowed = (allowed, rest.allowed);
      text =
          sym (ok-injective whole)
          ∙ ap (λ t. t ++ (semi ∷ 10 ∷ later)) pieces.0.trimmed
          ∙ ap (λ t. s ++ (semi ∷ 10 ∷ t)) rest.text;
    }

-- What an accepted text of advanced directives means.
pub record IsNormal (input out : Text) : Type 0 where
  pub statements : List Text
  pub given : parse_statements input ≡ ok statements
  pub short : length input ≤ max_advanced_bytes
  pub few : length statements ≤ max_advanced_statements
  pub each : All IsStatement statements
  pub allowed : All IsAllowed statements
  pub text : out ≡ written statements
  pub again : parse_statements out ≡ ok statements
  pub writes : write_statements statements ≡ ok out

-- Advanced directives that are accepted are at most 64 statements, none of which is an include or a
-- managed directive, each closed and without semicolon, brace or comment outside quotes; they are
-- written each with a semicolon and a newline, and the parser reads the same statements from that.
pub normalize_advanced_directives-IsNormal :
    (input out : Text) → normalize_advanced_directives input ≡ ok out → IsNormal input out
unfolding normalize_advanced_directives parse_statements
normalize_advanced_directives-IsNormal input out h =
    let (short, h1) = refuse_if-eq-ok (ltb max_advanced_bytes (length input)) long_directives _ h in
    let (statements, (h2, given)) = >>=-eq-ok (parse_statements input) _ h1 in
    let (few, h3) =
      refuse_if-eq-ok (ltb max_advanced_statements (length statements)) many_statements _ h2 in
    let pieces = parse_from-IsPiece input [] 0 false statements (quiet-nil (0, false)) given in
    let done = write_statements-IsWritten statements out pieces h3 in
    record {
      statements = statements;
      given = given;
      short = ground arith;
      few = ground arith;
      each = done.sound;
      allowed = done.allowed;
      text = done.text;
      again =
          ap (λ t. parse_from t [] 0 false) done.text
          ∙ parse_from-written statements [] done.sound refl;
      writes = h3;
    }

-- Normalising a second time changes nothing, if the first result is not above the limit of the
-- input, 16 KiB.
pub normalize_advanced_directives_again :
    (input out : Text)
    → normalize_advanced_directives input ≡ ok out
    → length out ≤ max_advanced_bytes
    → normalize_advanced_directives out ≡ ok out
normalize_advanced_directives_again input out h fits =
    let n = normalize_advanced_directives-IsNormal input out h in
    let short : ltb max_advanced_bytes (length out) ≡ false = ground arith in
    let few : ltb max_advanced_statements (length n.statements) ≡ false = ground (arith, n.few) in
    unfold normalize_advanced_directives in rw (short, n.again, few) n.writes

length-trim_space : (s : Text) → length (trim_space s) ≤ length s
length-trim_space s =
    let (p, (whole, _)) = trim_left_part s in
    let (tail, (rest, _)) = trim_left-tail s in
    omega (
      arith,
      ap length whole,
      ap length rest,
      length-append p (trim_left s),
      length-append (trim_space s) tail,
    )

-- A statement is written in a byte more than it took.
length-parse_from :
    (rest piece : Text) (q : ℕ) (e : Bool) (statements : List Text)
    → parse_from rest piece q e ≡ ok statements
    → length (written statements) ≤ length piece + length rest + length statements
unfolding written
length-parse_from [] piece q e statements h =
    unfold parse_from in
    let (_, h1) = refuse_if-eq-ok (not (q == 0) || e) unterminated _ h in
    let (_, h2) = refuse_if-eq-ok (not (trim_space piece == [])) no_semicolon _ h1 in
    subst (λ ss. length (written ss) ≤ length piece + 0 + length ss) (ok-injective h2) (omega arith)
length-parse_from (c ∷ rest) piece q e statements h = elim (Scan-cases (scan c q e)) [
  | inl (problem, at) ↦ absurd (cc (sym (parse_from-fail c rest piece q e problem at) ∙ h))
  | inr (inl (v, at)) ↦ omega (
    arith,
    length-append piece (c ∷ []),
    length-parse_from rest (piece ++ (c ∷ [])) v.0 v.1 statements
        (sym (parse_from-go c rest piece q e v at) ∙ h),
  )
  | inr (inr at) ↦
      let (filled, h1) =
        refuse_if-eq-ok (trim_space piece == []) empty_statement _
          (sym (parse_from-cut c rest piece q e at) ∙ h) in
      let (more, (whole, later)) = >>=-eq-ok (parse_from rest [] 0 false) _ h1 in
      subst (λ ss. length (written ss) ≤ length piece + suc (length rest) + length ss)
        (ok-injective whole)
        (omega (
          arith,
          length-append (trim_space piece) (semi ∷ 10 ∷ written more),
          length-trim_space piece,
          length-parse_from rest [] 0 false more later,
        ))
]

within_limit :
    (text out : Text)
    → normalize_advanced_directives text ≡ ok out
    → length text ≤ max_advanced_bytes
unfolding normalize_advanced_directives
within_limit text out h =
    let (fits, _) = refuse_if-eq-ok (ltb max_advanced_bytes (length text)) _ _ h in ground arith

-- What is written has at most 64 bytes more than the text that is given, and normalising it a second
-- time gives it back exactly if it is within the limit of a request, 16 KiB.
pub normalize_advanced_directives_lem :
    (input out : Text)
    → normalize_advanced_directives input ≡ ok out
    → (length out ≤ length input + max_advanced_statements)
      × ((normalize_advanced_directives out ≡ ok out) ↔ (length out ≤ max_advanced_bytes))
unfolding parse_statements
normalize_advanced_directives_lem input out h =
    let n = normalize_advanced_directives-IsNormal input out h in
    let bound = length-parse_from input [] 0 false n.statements n.given in
    (
      omega (arith, bound, n.few, ap length n.text),
      (within_limit out out, normalize_advanced_directives_again input out h),
    )
