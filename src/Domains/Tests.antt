-- ===== src/Domains/Tests.antt =====
-- Domain names at concrete inputs.
use nx_panel.Base.{
  ◌≡◌, refl, ◌↔◌, List, [], ◌∷◌, map, nat_eq, text_eq, text_beq, All, Text, codes, lower, to_lower,
  trim_left, trim_space,
}
use nx_panel.Base.Result.{ok, err}
use nx_panel.Domains.{
  starts_with, ends_with, split_at, is_label_byte, validate_label, validate_labels, is_wildcard,
  without_wildcard, validate_domain, normalize_domain, validate_from, validate_domain_list,
  validate_text, validate_content, empty_list, few_labels, outer_hyphen, line_break, null_byte,
  too_long,
}
use nx_panel.Domains.Accepted.{IsDomain, validate_domain_iff}
use nx_panel.Domains.Listed.{IsDistinct, contains, validate_domain_list_lem}

opened : Unit {0}
unfolding starts_with ends_with split_at is_label_byte validate_label validate_labels is_wildcard
    without_wildcard validate_domain normalize_domain validate_from validate_domain_list
    validate_text validate_content to_lower lower text_beq trim_space trim_left
opened = tt

domain_tests :
    (validate_domain (codes "*.Example.com") ≡ ok tt)
    × (validate_domain (codes "localhost") ≡ err few_labels)
    × (validate_domain (codes "a.-b.c") ≡ err outer_hyphen)
    × (validate_domain_list [] ≡ err empty_list)
unfolding opened
domain_tests = (refl, refl, refl, refl)

text_tests :
    (validate_text (codes "a\nb") 3 ≡ err line_break)
    × (validate_content (codes "a\nb") 3 ≡ ok tt)
    × (validate_content (codes "a\nb") 2 ≡ err too_long)
    × (validate_content (0 ∷ []) 2 ≡ err null_byte)
unfolding opened
text_tests = (refl, refl, refl, refl)

abbrev given_names : List Text
given_names = codes " A.com" ∷ codes "b.org" ∷ codes "a.COM" ∷ []

abbrev names : List Text
names = codes "a.com" ∷ codes "b.org" ∷ []

validate_domain_iff_example :
    (validate_domain (codes "*.Example.com") ≡ ok tt) ↔ IsDomain (to_lower (codes "*.Example.com"))
validate_domain_iff_example = validate_domain_iff (codes "*.Example.com")

validate_domain_list_lem_example :
    IsDistinct names
    × All (λ d. validate_domain d ≡ ok tt) names
    × ((d : Text) → contains d names ≡ contains d (map normalize_domain given_names))
unfolding opened
validate_domain_list_lem_example = validate_domain_list_lem given_names refl
