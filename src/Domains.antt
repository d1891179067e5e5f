-- ===== src/Domains.antt =====
-- Domain names and lists of them (internal/security/domain.go), and the checks of single-line text
-- and of file contents (internal/security/text.go). Text is a list of bytes; case and space are
-- those of ASCII.
pub mod Accepted
pub mod Listed
mod Tests
use nx_panel.Base.{
  ℕ, zero, suc, ◌+◌, ◌-◌, ◌*◌, ◌/◌, ◌%◌, ◌^◌, ◌≤◌, ◌<◌, min, max, String, ◌≡◌, refl, sym, ap, ◌∙◌,
  ◌≢◌, ◌↔◌, ◌⊎◌, inl, inr, Bool, true, false, not, ◌&&◌, ◌||◌, Option, none, some, List, [], ◌∷◌,
  ◌++◌, map, reverse, append-nil, append_assoc, arith, ltb, leb, nat_beq, nat_beq_iff, Eq, ◌==◌,
  nat_eq, text_eq, text_beq, text_beq_iff, if◌then◌else◌, ltb→lt, lt→ltb, leb→le, le→leb, tests,
  Bool-cases, Option-cases, length, get_elem?, take, drop, keep, any, all, All, All-append,
  All-drop, length-append, length-take, length-drop, length-keep, drop-append, take-append, Text,
  codes, is_upper, is_lower, is_digit, is_space, lower, to_lower, trim_left, trim_space,
}
use nx_panel.Base.Result.{Result, ok, err, ◌>>=◌, ◌>>◌, refuse_if}
use nx_panel.Base.Store.{Store, find, put}

pub data DomainError : Type 0 where
  empty_domain long_domain bad_wildcard outer_dot few_labels empty_list : DomainError
  empty_label long_label outer_hyphen bad_byte : DomainError

abbrev pub dot : ℕ
dot = b'.'

abbrev pub hyphen : ℕ
hyphen = b'-'

-- strings.HasPrefix of one byte
unfoldable pub starts_with : ℕ → Text → Bool
starts_with b [] = false
starts_with b (c ∷ s) = c == b

-- strings.HasSuffix of one byte
unfoldable pub ends_with : ℕ → Text → Bool
ends_with b [] = false
ends_with b (c ∷ []) = c == b
ends_with b (c ∷ d ∷ s) = ends_with b (d ∷ s)

abbrev pub first_of : ℕ → List Text → List Text
first_of c [] = (c ∷ []) ∷ []
first_of c (part ∷ parts) = (c ∷ part) ∷ parts

-- strings.Split at one byte
unfoldable pub split_at : ℕ → Text → List Text
split_at b [] = [] ∷ []
split_at b (c ∷ s) = let rest = split_at b s in if c == b then [] ∷ rest else first_of c rest

unfoldable pub is_label_byte : ℕ → Bool
is_label_byte c = is_lower c || is_digit c || c == hyphen

pub validate_label : Text → Result DomainError (Unit {0})
validate_label label = do
  refuse_if (length label == 0) empty_label
  refuse_if (ltb 63 (length label)) long_label
  refuse_if (starts_with hyphen label || ends_with hyphen label) outer_hyphen
  refuse_if (not (all is_label_byte label)) bad_byte
  ok tt

pub validate_labels : List Text → Result DomainError (Unit {0})
validate_labels [] = ok tt
validate_labels (label ∷ labels) = validate_label label >> validate_labels labels

pub is_wildcard : Text → Bool
is_wildcard [] = false
is_wildcard (c ∷ []) = false
is_wildcard (c ∷ d ∷ s) = (c == b'*') && (d == dot)

pub without_wildcard : Text → Text
without_wildcard d = if is_wildcard d then drop 2 d else d

pub validate_domain : Text → Result DomainError (Unit {0})
validate_domain given = do
  refuse_if (given == []) empty_domain
  let domain = to_lower given
  refuse_if (ltb 253 (length domain)) long_domain
  let d = without_wildcard domain
  refuse_if (is_wildcard domain && d == []) bad_wildcard
  refuse_if (starts_with dot d || ends_with dot d) outer_dot
  refuse_if (ltb (length (split_at dot d)) 2) few_labels
  validate_labels (split_at dot d)

pub normalize_domain : Text → Text
normalize_domain d = trim_space (to_lower d)

-- The loop of `ValidateDomainList`, with what it has seen.
pub validate_from : List Text → List Text → Result DomainError (List Text)
validate_from seen [] = ok []
validate_from seen (given ∷ domains) =
    let d = normalize_domain given in
    do
      validate_domain d
      rest ← validate_from (d ∷ seen) domains
      ok (if any (λ s. s == d) seen then rest else d ∷ rest)

pub validate_domain_list : List Text → Result DomainError (List Text)
validate_domain_list [] = err empty_list
validate_domain_list (d ∷ domains) = validate_from [] (d ∷ domains)

pub data TextError : Type 0 where
  too_long null_byte line_break : TextError

pub validate_content : Text → ℕ → Result TextError (Unit {0})
validate_content content max_len = do
  refuse_if (ltb max_len (length content)) too_long
  refuse_if (any (λ c. c == 0) content) null_byte
  ok tt

pub validate_text : Text → ℕ → Result TextError (Unit {0})
validate_text text max_len = do
  refuse_if (ltb max_len (length text)) too_long
  refuse_if (any (λ c. c == 0) text) null_byte
  refuse_if (any (λ c. c == 10 || c == 13) text) line_break
  ok tt
