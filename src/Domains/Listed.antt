-- ===== src/Domains/Listed.antt =====
-- The list that `ValidateDomainList` returns.
use nx_panel.Base.{
  ◌≡◌, refl, sym, ap, ◌∙◌, inl, inr, Bool, true, false, not, ◌&&◌, List, [], ◌∷◌, map, arith, ◌==◌,
  nat_eq, text_eq, text_beq, text_beq_iff, if◌then◌else◌, Bool-cases, any, All, Text,
}
use nx_panel.Base.Result.{Result, ok, >>=-eq-ok}
use nx_panel.Domains.{
  DomainError, validate_domain, normalize_domain, validate_from, validate_domain_list,
}

abbrev pub contains : Text → List Text → Bool
contains d ds = any (λ s. s == d) ds

abbrev pub IsDistinct : List Text → Type 0
IsDistinct [] = Unit
IsDistinct (d ∷ ds) = (contains d ds ≡ false) × IsDistinct ds

ok_eq : {a b : List Text} → ◌≡◌ {A = Result DomainError (List Text)} (ok a) (ok b) → b ≡ a
ok_eq h = cc h

IsRest : List Text → List Text → List Text → Type 0
IsRest seen names rest = (e : Text) → contains e rest ≡ contains e names && not (contains e seen)

abbrev IsListed : List Text → List Text → List Text → Type 0
IsListed seen domains result =
    IsDistinct result
    × All (λ d. validate_domain d ≡ ok tt) result
    × IsRest seen (map normalize_domain domains) result

IsRest-old :
    (d : Text) (seen names rest : List Text)
    → contains d seen ≡ true
    → IsRest (d ∷ seen) names rest
    → IsRest seen (d ∷ names) rest
unfolding IsRest
IsRest-old d seen names rest old ih e = elim (Bool-cases (text_beq d e)) [
  | inl same ↦
      let there : contains e seen ≡ true =
        ap (λ x. contains x seen) (sym ((text_beq_iff d e).0 same)) ∙ old in
      ih e ∙ rw (same, there) (ground arith)
  | inr other ↦ ih e ∙ rw other refl
]

IsRest-new :
    (d : Text) (seen names rest : List Text)
    → contains d seen ≡ false
    → IsRest (d ∷ seen) names rest
    → IsRest seen (d ∷ names) (d ∷ rest)
unfolding IsRest
IsRest-new d seen names rest new ih e = elim (Bool-cases (text_beq d e)) [
  | inl same ↦
      let gone : contains e seen ≡ false =
        ap (λ x. contains x seen) (sym ((text_beq_iff d e).0 same)) ∙ new in
      rw (same, gone) refl
  | inr other ↦ rw other (ih e ∙ rw other refl)
]

not_again :
    (d : Text) (seen names rest : List Text)
    → IsRest (d ∷ seen) names rest
    → contains d rest ≡ false
unfolding IsRest
not_again d seen names rest ih = ih d ∙ rw ((text_beq_iff d d).1 refl) (ground arith)

validate_from-IsListed :
    (seen domains : List Text) {result : List Text}
    → validate_from seen domains ≡ ok result
    → IsListed seen domains result
unfolding validate_from IsRest
validate_from-IsListed seen [] h = rw (ok_eq h) (tt, tt, λ d. refl)
validate_from-IsListed seen (given ∷ domains) {result} h =
    let d = normalize_domain given in
    let (u, (h1, valid)) = >>=-eq-ok (validate_domain d) _ h in
    let (rest, (h2, others)) = >>=-eq-ok (validate_from (d ∷ seen) domains) _ h1 in
    let ih = validate_from-IsListed (d ∷ seen) domains others in
    let same = ok_eq h2 in
    let names = map normalize_domain domains in
    elim (Bool-cases (contains d seen)) [
      | inl old ↦
          let is : result ≡ rest = same ∙ ap (λ b. if b then rest else d ∷ rest) old in
          rw is (ih.0, ih.1, IsRest-old d seen names rest old ih.2)
      | inr new ↦
          let is : result ≡ d ∷ rest = same ∙ ap (λ b. if b then rest else d ∷ rest) new in
          rw is (
            (not_again d seen names rest ih.2, ih.0),
            (valid, ih.1),
            IsRest-new d seen names rest new ih.2,
          )
    ]

not-false : (b : Bool) → (b && not false) ≡ b
not-false true = refl
not-false false = refl

-- The list that is returned has each name once, every one of them is accepted, and they are exactly
-- the given names in lower case and without outer space.
pub validate_domain_list_lem :
    (domains : List Text) {result : List Text}
    → validate_domain_list domains ≡ ok result
    → IsDistinct result
      × All (λ d. validate_domain d ≡ ok tt) result
      × ((d : Text) → contains d result ≡ contains d (map normalize_domain domains))
unfolding validate_domain_list IsRest
validate_domain_list_lem [] h = cc
validate_domain_list_lem (given ∷ domains) h =
    let (distinct, valid, same) = validate_from-IsListed [] (given ∷ domains) h in
    (distinct, valid, λ d. same d ∙ not-false (contains d (map normalize_domain (given ∷ domains))))
