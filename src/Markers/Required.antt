-- ===== src/Markers/Required.antt =====
-- What `ValidateRequiredMarkers` reports.
use nx_panel.Base.{
  ◌≡◌, refl, sym, ap, ◌∙◌, inl, inr, Bool, true, false, not, ◌&&◌, List, [], ◌∷◌, ◌++◌, append-nil,
  append_assoc, arith, ◌==◌, nat_eq, text_eq, Bool-cases, ltb, keep, all, Text,
}
use nx_panel.Markers.{
  count, marker_start, marker_end, MarkerStatus, is_missing, is_duplicated, note_marker,
  note_markers, validate_required_markers,
}

abbrev pub is_single : Text → Text → Bool
is_single content name =
    count content (marker_start name) == 1 && count content (marker_end name) == 1

-- Whether each token of a marker occurs, however often.
abbrev pub is_present : Text → Text → Bool
is_present content name =
    ltb 0 (count content (marker_start name)) && ltb 0 (count content (marker_end name))

-- The markers of the list that are missing, and those that are there, but not exactly once.
abbrev pub missing_of : Text → List Text → List Text
missing_of content names = keep (λ name. not (is_present content name)) names

abbrev pub duplicated_of : Text → List Text → List Text
duplicated_of content names =
    keep (λ name. is_present content name && not (is_single content name)) names

abbrev IsReport : Text → List Text → MarkerStatus → MarkerStatus → Type 0
IsReport content names before after =
    (after.valid ≡ before.valid && all (λ name. is_single content name) names)
    × (after.missing ≡ before.missing ++ missing_of content names)
    × (after.duplicated ≡ before.duplicated ++ duplicated_of content names)

and_cons : (a b c : Bool) → ((a && (b && true)) && c) ≡ (a && (b && c))
and_cons true true c = refl
and_cons true false c = refl
and_cons false b c = refl

keep-cons :
    (p : Text → Bool) (x : Text) (xs : List Text) → (keep p (x ∷ []) ++ keep p xs) ≡ keep p (x ∷ xs)
keep-cons p x xs = ground arith

and_true : (a : Bool) → (a && true) ≡ a
and_true true = refl
and_true false = refl

note_marker_lem :
    (content name : Text) (s : MarkerStatus)
    → IsReport content (name ∷ []) s (note_marker content name s)
unfolding note_marker
note_marker_lem content name s = elim (Bool-cases (is_missing content name)) [
  | inl gone ↦
      let single : is_single content name ≡ false = ground arith in
      let absent : is_present content name ≡ false = ground arith in
      rw (note_marker, gone, absent, single)
        (ground (arith, append-nil s.duplicated), refl, sym (append-nil s.duplicated))
  | inr there ↦ elim (Bool-cases (is_duplicated content name)) [
    | inl twice ↦
        let single : is_single content name ≡ false = ground arith in
        let here : is_present content name ≡ true = ground arith in
        rw (note_marker, there, twice, here, single)
          (ground arith, sym (append-nil s.missing), refl)
    | inr once ↦
        let single : is_single content name ≡ true = ground arith in
        let here : is_present content name ≡ true = ground arith in
        rw (note_marker, there, once, here, single)
          (ground arith, sym (append-nil s.missing), sym (append-nil s.duplicated))
  ]
]

note_markers_lem :
    (content : Text) (names : List Text) (s : MarkerStatus)
    → IsReport content names s (note_markers content names s)
unfolding note_markers
note_markers_lem content [] s =
    (sym (and_true s.valid), sym (append-nil s.missing), sym (append-nil s.duplicated))
note_markers_lem content (name ∷ names) s =
    let first = note_marker_lem content name s in
    let rest = note_markers_lem content names (note_marker content name s) in
    (
      rest.0
          ∙ ap (λ b. b && all (λ n. is_single content n) names) first.0
          ∙ and_cons s.valid (is_single content name) (all (λ n. is_single content n) names),
      rest.1
          ∙ ap (λ m. m ++ missing_of content names) first.1
          ∙ append_assoc s.missing (missing_of content (name ∷ [])) (missing_of content names)
          ∙ ap (λ m. s.missing ++ m) (keep-cons (λ n. not (is_present content n)) name names),
      rest.2
          ∙ ap (λ m. m ++ duplicated_of content names) first.2
          ∙ append_assoc s.duplicated (duplicated_of content (name ∷ []))
              (duplicated_of content names)
          ∙ ap (λ m. s.duplicated ++ m)
              (keep-cons (λ n. is_present content n && not (is_single content n)) name names),
    )

-- The report is valid exactly if both tokens of every required name occur exactly once. It lists the
-- names of which a token does not occur as missing, and the names of which both occur, but not both
-- once, as duplicated, both in order.
pub validate_required_markers_lem :
    (content : Text) (required : List Text)
    → ((validate_required_markers content required).valid
        ≡ all (λ name. is_single content name) required)
      × ((validate_required_markers content required).missing ≡ missing_of content required)
      × ((validate_required_markers content required).duplicated ≡ duplicated_of content required)
unfolding validate_required_markers
validate_required_markers_lem content required =
    note_markers_lem content required (record { valid = true; missing = []; duplicated = [] })
