-- ===== src/Domains/Accepted.antt =====
-- The names that `ValidateDomain` accepts (internal/security/domain.go).
use nx_panel.Base.{
  ℕ, ◌≤◌, ◌<◌, ◌≡◌, refl, sym, ap, ◌∙◌, ◌≢◌, ◌↔◌, inl, inr, Bool, true, false, not, ◌&&◌, ◌||◌,
  List, [], ◌∷◌, ◌++◌, append-nil, arith, ltb, nat_beq_iff, ◌==◌, nat_eq, text_eq, text_beq,
  text_beq_iff, if◌then◌else◌, Bool-cases, length, drop, all, All, Text, to_lower,
}
use nx_panel.Base.Result.{ok, refuse_if-eq-ok, >>=-eq-ok}
use nx_panel.Domains.{
  empty_domain, long_domain, bad_wildcard, outer_dot, few_labels, empty_label, long_label,
  outer_hyphen, bad_byte, dot, hyphen, starts_with, ends_with, first_of, split_at, is_label_byte,
  validate_label, validate_labels, is_wildcard, without_wildcard, validate_domain,
}

pub record IsLabel (label : Text) : Type 0 where
  pub some_byte : 0 < length label
  pub short : length label ≤ 63
  pub no_hyphen_first : starts_with hyphen label ≡ false
  pub no_hyphen_last : ends_with hyphen label ≡ false
  pub bytes : all is_label_byte label ≡ true

-- strings.Join with a dot
pub join : List Text → Text
join [] = []
join (l ∷ []) = l
join (l ∷ m ∷ ls) = l ++ dot ∷ join (m ∷ ls)

abbrev pub wildcard : Bool → Text → Text
wildcard wild s = if wild then b'*' ∷ dot ∷ s else s

-- Two labels or more, with dots between them, or all that behind `*.`, of at most 253 bytes.
pub record IsDomain (d : Text) : Type 0 where
  pub wild : Bool
  pub labels : List Text
  pub whole : d ≡ wildcard wild (join labels)
  pub several : 2 ≤ length labels
  pub each : All IsLabel labels
  pub short : length d ≤ 253

first_of-join : (c : ℕ) (ls : List Text) → join (first_of c ls) ≡ c ∷ join ls
unfolding join
first_of-join c [] = refl
first_of-join c (l ∷ []) = refl
first_of-join c (l ∷ m ∷ ls) = refl

first_of-some : (c : ℕ) (ls : List Text) → 0 < length (first_of c ls)
first_of-some c [] = omega arith
first_of-some c (l ∷ ls) = omega arith

join-empty : (ls : List Text) → 0 < length ls → join ([] ∷ ls) ≡ dot ∷ join ls
unfolding join
join-empty [] h = absurd (omega arith)
join-empty (l ∷ ls) h = refl

split_at-some : (b : ℕ) (s : Text) → 0 < length (split_at b s)
unfolding split_at
split_at-some b [] = omega arith
split_at-some b (c ∷ s) = elim (Bool-cases (c == b)) [
  | inl same ↦ rw same (omega arith)
  | inr other ↦ rw other (first_of-some c (split_at b s))
]

join-split_at : (s : Text) → join (split_at dot s) ≡ s
unfolding split_at
join-split_at [] = unfold join in refl
join-split_at (c ∷ s) = elim (Bool-cases (c == dot)) [
  | inl same ↦
      let here : c ≡ dot = (nat_beq_iff c dot).0 same in
      rw same (
        join-empty (split_at dot s) (split_at-some dot s)
        ∙ ap (λ r. dot ∷ r) (join-split_at s)
        ∙ ap (λ b. b ∷ s) (sym here))
  | inr other ↦ rw other (first_of-join c (split_at dot s) ∙ ap (λ r. c ∷ r) (join-split_at s))
]

validate_label-ok : (l : Text) → validate_label l ≡ ok tt → IsLabel l
unfolding validate_label
validate_label-ok l h =
    let (a, h1) = refuse_if-eq-ok (length l == 0) empty_label _ h in
    let (b, h2) = refuse_if-eq-ok (ltb 63 (length l)) long_label _ h1 in
    let (c, h3) = refuse_if-eq-ok (starts_with hyphen l || ends_with hyphen l) outer_hyphen _ h2 in
    let (d, h4) = refuse_if-eq-ok (not (all is_label_byte l)) bad_byte _ h3 in
    record {
      some_byte = ground arith;
      short = ground arith;
      no_hyphen_first = ground arith;
      no_hyphen_last = ground arith;
      bytes = ground arith;
    }

ok-validate_label : (l : Text) → IsLabel l → validate_label l ≡ ok tt
unfolding validate_label
ok-validate_label l h =
    let a : (length l == 0) ≡ false = ground (arith, h.some_byte) in
    let b : ltb 63 (length l) ≡ false = ground (arith, h.short) in
    rw (a, b, h.no_hyphen_first, h.no_hyphen_last, h.bytes) refl

validate_labels-ok : (ls : List Text) → validate_labels ls ≡ ok tt → All IsLabel ls
unfolding validate_labels
validate_labels-ok [] h = tt
validate_labels-ok (l ∷ ls) h =
    let (u, (rest, first)) = >>=-eq-ok (validate_label l) _ h in
    (validate_label-ok l first, validate_labels-ok ls rest)

ok-validate_labels : (ls : List Text) → All IsLabel ls → validate_labels ls ≡ ok tt
unfolding validate_labels
ok-validate_labels [] h = refl
ok-validate_labels (l ∷ ls) h = rw (ok-validate_label l h.0) (ok-validate_labels ls h.1)

is_wildcard-split : (s : Text) → is_wildcard s ≡ true → s ≡ b'*' ∷ dot ∷ drop 2 s
unfolding is_wildcard
is_wildcard-split [] h = cc
is_wildcard-split (c ∷ []) h = cc
is_wildcard-split (c ∷ d ∷ s) h = ground (arith, nat_beq_iff c b'*', nat_beq_iff d dot)

wildcard_lem : (s : Text) → s ≡ wildcard (is_wildcard s) (without_wildcard s)
unfolding without_wildcard
wildcard_lem s = elim (Bool-cases (is_wildcard s)) [
  | inl wild ↦ rw wild (is_wildcard-split s wild)
  | inr plain ↦ rw plain refl
]

-- A name that is accepted is, in lower case, a domain name.
validate_domain-IsDomain :
    (given : Text) → validate_domain given ≡ ok tt → IsDomain (to_lower given)
unfolding validate_domain
validate_domain-IsDomain given h =
    let domain = to_lower given in
    let d = without_wildcard domain in
    let (some_byte, h1) = refuse_if-eq-ok (given == []) empty_domain _ h in
    let (short, h2) = refuse_if-eq-ok (ltb 253 (length domain)) long_domain _ h1 in
    let (wild_ok, h3) = refuse_if-eq-ok (is_wildcard domain && d == []) bad_wildcard _ h2 in
    let (no_dot, h4) = refuse_if-eq-ok (starts_with dot d || ends_with dot d) outer_dot _ h3 in
    let (several, h5) = refuse_if-eq-ok (ltb (length (split_at dot d)) 2) few_labels _ h4 in
    record {
      wild = is_wildcard domain;
      labels = split_at dot d;
      whole = rw (join-split_at d) (wildcard_lem domain);
      several = ground arith;
      each = validate_labels-ok (split_at dot d) h5;
      short = ground arith;
    }

label_byte-ne : (c : ℕ) → is_label_byte c ≡ true → (c ≢ dot) × (c ≢ b'*')
unfolding is_label_byte
label_byte-ne c h =
    ((λ e. ground (arith, nat_beq_iff c hyphen)), (λ e. ground (arith, nat_beq_iff c hyphen)))

-- A text of label bytes has no dot, in it, before it or behind it.
split_at-label : (l : Text) → all is_label_byte l ≡ true → split_at dot l ≡ l ∷ []
unfolding split_at
split_at-label [] h = refl
split_at-label (c ∷ l) h =
    let ne = (label_byte-ne c (ground arith)).0 in
    rw (split_at-label l (ground arith)) (ground (arith, nat_beq_iff c dot))

split_at-append :
    (l s : Text) → all is_label_byte l ≡ true → split_at dot (l ++ dot ∷ s) ≡ l ∷ split_at dot s
unfolding split_at
split_at-append [] s h = refl
split_at-append (c ∷ l) s h =
    let ne = (label_byte-ne c (ground arith)).0 in
    rw (split_at-append l s (ground arith)) (ground (arith, nat_beq_iff c dot))

split_at-join : (ls : List Text) → 0 < length ls → All IsLabel ls → split_at dot (join ls) ≡ ls
unfolding join
split_at-join [] lt h = absurd (omega arith)
split_at-join (l ∷ []) lt h = split_at-label l h.0.bytes
split_at-join (l ∷ m ∷ ls) lt h =
    split_at-append l (join (m ∷ ls)) h.0.bytes
    ∙ ap (λ r. l ∷ r) (split_at-join (m ∷ ls) (omega arith) h.1)

ends_with-append : (b c : ℕ) (a s : Text) → ends_with b (a ++ (c ∷ s)) ≡ ends_with b (c ∷ s)
unfolding ends_with
ends_with-append b c [] s = refl
ends_with-append b c (d ∷ []) s = refl
ends_with-append b c (d ∷ e ∷ a) s = ends_with-append b c (e ∷ a) s

ends_with-label : (l : Text) → all is_label_byte l ≡ true → ends_with dot l ≡ false
unfolding ends_with
ends_with-label [] h = refl
ends_with-label (c ∷ []) h =
    let ne = (label_byte-ne c (ground arith)).0 in ground (arith, nat_beq_iff c dot)
ends_with-label (c ∷ d ∷ l) h = ends_with-label (d ∷ l) (ground arith)

-- A name that is made of labels begins and ends with a label's byte.
record IsProper (s : Text) : Type 0 where
  no_dot_first : starts_with dot s ≡ false
  no_dot_last : ends_with dot s ≡ false
  no_star : is_wildcard s ≡ false
  some_byte : s ≢ []

is_wildcard_ne : (c : ℕ) (s : Text) → c ≢ b'*' → is_wildcard (c ∷ s) ≡ false
unfolding is_wildcard
is_wildcard_ne c [] ne = refl
is_wildcard_ne c (d ∷ s) ne = ground (arith, nat_beq_iff c b'*')

label-IsProper :
    (l rest : Text) → IsLabel l → ends_with dot (l ++ rest) ≡ false → IsProper (l ++ rest)
unfolding starts_with
label-IsProper [] rest h e = absurd (omega (arith, h.some_byte))
label-IsProper (c ∷ l) rest h e =
    let bytes : all is_label_byte (c ∷ l) ≡ true = h.bytes in
    let (ne, star) = label_byte-ne c (ground arith) in
    record {
      no_dot_first = ground (arith, nat_beq_iff c dot);
      no_dot_last = e;
      no_star = is_wildcard_ne c (l ++ rest) star;
      some_byte = λ z. cc z;
    }

ends_with-later : (s : Text) → s ≢ [] → ends_with dot (dot ∷ s) ≡ ends_with dot s
unfolding ends_with
ends_with-later [] ne = absurd (ne refl)
ends_with-later (c ∷ s) ne = refl

join-IsProper : (ls : List Text) → 0 < length ls → All IsLabel ls → IsProper (join ls)
unfolding join
join-IsProper [] lt h = absurd (omega arith)
join-IsProper (l ∷ []) lt h =
    let proper =
      label-IsProper l [] h.0
        (ap (λ s. ends_with dot s) (append-nil l) ∙ ends_with-label l h.0.bytes) in
    rw (append-nil l) at proper
join-IsProper (l ∷ m ∷ ls) lt h =
    let later = join-IsProper (m ∷ ls) (omega arith) h.1 in
    label-IsProper l (dot ∷ join (m ∷ ls)) h.0 (
      ends_with-append dot dot l (join (m ∷ ls))
      ∙ ends_with-later (join (m ∷ ls)) later.some_byte
      ∙ later.no_dot_last)

without_wildcard-wildcard :
    (wild : Bool) (s : Text) → is_wildcard s ≡ false → without_wildcard (wildcard wild s) ≡ s
unfolding without_wildcard
without_wildcard-wildcard true s h = unfold is_wildcard in refl
without_wildcard-wildcard false s h = rw h refl

ne-beq : (s : Text) → s ≢ [] → text_beq s [] ≡ false
ne-beq s ne = ground (arith, text_beq_iff s [])

and_false : (b : Bool) → (b && false) ≡ false
and_false true = refl
and_false false = refl

-- A name that is not empty is accepted if it is, in lower case, a domain name.
IsDomain-validate_domain :
    (given : Text) → given ≢ [] → IsDomain (to_lower given) → validate_domain given ≡ ok tt
unfolding validate_domain
IsDomain-validate_domain given ne h =
    let proper = join-IsProper h.labels (omega (arith, h.several)) h.each in
    let d : without_wildcard (to_lower given) ≡ join h.labels =
      ap without_wildcard h.whole
      ∙ without_wildcard-wildcard h.wild (join h.labels) proper.no_star in
    let fits : ltb 253 (length (to_lower given)) ≡ false = ground (arith, h.short) in
    let enough : ltb (length h.labels) 2 ≡ false = ground (arith, h.several) in
    let parts = split_at-join h.labels (omega (arith, h.several)) h.each in
    rw
      (
        ne-beq given ne,
        fits,
        d,
        ne-beq (join h.labels) proper.some_byte,
        and_false (is_wildcard (to_lower given)),
        proper.no_dot_first,
        proper.no_dot_last,
        parts,
        enough,
      )
      (ok-validate_labels h.labels h.each)

no_bytes : (wild : Bool) (s : Text) → [] ≡ wildcard wild s → s ≡ []
no_bytes true s e = absurd (cc e)
no_bytes false s e = sym e

IsDomain-ne : (given : Text) → IsDomain (to_lower given) → given ≢ []
unfolding to_lower
IsDomain-ne [] h e =
    let proper = join-IsProper h.labels (omega (arith, h.several)) h.each in
    proper.some_byte (no_bytes h.wild (join h.labels) h.whole)
IsDomain-ne (c ∷ s) h e = cc e

-- A name is accepted exactly if it is, in lower case, two labels or more with dots between them, or
-- all that behind `*.`, of at most 253 bytes: a label is 1 to 63 letters, digits and hyphens, with
-- no hyphen at either end.
pub validate_domain_iff :
    (given : Text) → (validate_domain given ≡ ok tt) ↔ IsDomain (to_lower given)
validate_domain_iff given =
    (validate_domain-IsDomain given, λ h. IsDomain-validate_domain given (IsDomain-ne given h) h)
