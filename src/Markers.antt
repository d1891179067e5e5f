-- ===== src/Markers.antt =====
-- Marked blocks of a configuration text (internal/nginx/marker.go), with the functions of package
-- bytes that it calls. A text is a list of bytes, and an index is one into that list.
pub mod Search
pub mod Index
pub mod Names
pub mod Lines
pub mod Frame
pub mod Locate
pub mod Blocks
pub mod Lens
pub mod Inject
pub mod Required
mod Tests
use nx_panel.Base.{
  ℕ, zero, suc, ◌+◌, ◌-◌, ◌*◌, ◌/◌, ◌%◌, ◌^◌, ◌≤◌, ◌<◌, min, max, String, ◌≡◌, refl, sym, ap, ◌∙◌,
  ◌≢◌, ◌↔◌, ◌⊎◌, inl, inr, Bool, true, false, not, ◌&&◌, ◌||◌, Option, none, some, List, [], ◌∷◌,
  ◌++◌, map, reverse, append-nil, append_assoc, arith, ltb, leb, nat_beq, nat_beq_iff, Eq, ◌==◌,
  nat_eq, text_eq, text_beq, text_beq_iff, if◌then◌else◌, ltb→lt, lt→ltb, leb→le, le→leb, tests,
  Bool-cases, Option-cases, length, get_elem?, take, drop, keep, any, all, All, All-append,
  All-drop, length-append, length-take, length-drop, length-keep, drop-append, take-append, Text,
  codes, is_upper, is_lower, is_digit, is_space, lower, to_lower, trim_left, trim_space,
}
use nx_panel.Base.Result.{Result, ok, err, ◌>>=◌, ◌>>◌, refuse_if}

-- bytes.HasPrefix
pub has_prefix : Text → Text → Bool
has_prefix [] s = true
has_prefix (c ∷ t) [] = false
has_prefix (c ∷ t) (d ∷ s) = c == d && has_prefix t s

-- bytes.Index, with none for -1
pub index : Text → Text → Option ℕ
index t [] = if t == [] then some 0 else none
index t (c ∷ s) =
    let rest = index t s in
    if has_prefix t (c ∷ s) then some 0 else elim rest [ none ↦ none | some i ↦ some (suc i) ]

-- bytes.IndexByte, with none for -1
pub index_byte : ℕ → Text → Option ℕ
index_byte b [] = none
index_byte b (c ∷ s) =
    let rest = index_byte b s in
    if b == c then some 0 else elim rest [ none ↦ none | some i ↦ some (suc i) ]

-- The loop of bytes.Count, with the bytes that are still to skip after a match.
pub count_from : Text → ℕ → Text → ℕ
count_from t k [] = 0
count_from t (suc k) (c ∷ s) = count_from t k s
count_from t zero (c ∷ s) =
    let skipped = count_from t (length t - 1) s in
    let rest = count_from t 0 s in if has_prefix t (c ∷ s) then suc skipped else rest

-- bytes.Count of a token that is not empty
pub count : Text → Text → ℕ
count s t = count_from t 0 s

abbrev pub newline : ℕ
newline = 10

pub is_name_byte : ℕ → Bool
is_name_byte c = is_upper c || is_digit c || c == b'-'

-- markerNameRE
pub is_marker_name : Text → Bool
is_marker_name name = not (name == []) && all is_name_byte name

pub marker_start : Text → Text
marker_start name = codes "#NXPANEL-" ++ (name ++ codes "-START")

pub marker_end : Text → Text
marker_end name = codes "#NXPANEL-" ++ (name ++ codes "-END")

pub data MarkerError : Type 0 where
  invalid_name missing duplicated unclosed count_invalid not_optional : MarkerError

pub last : Text → Option ℕ
last [] = none
last (c ∷ []) = some c
last (c ∷ d ∷ s) = last (d ∷ s)

pub ensure_trailing_newline : Text → Text
ensure_trailing_newline b = elim (last b) [
  | none ↦ newline ∷ []
  | some c ↦ if c == newline then b else b ++ (newline ∷ [])
]

-- content[i] == '\n'
pub is_newline_at : Text → ℕ → Bool
is_newline_at [] i = false
is_newline_at (c ∷ s) zero = c == newline
is_newline_at (c ∷ s) (suc i) = is_newline_at s i

-- The loop of `markerBodyEnd`, from `lineStart` down.
pub line_start_from : Text → ℕ → ℕ → ℕ
line_start_from content body_start zero = 0
line_start_from content body_start (suc i) =
    let rest = line_start_from content body_start i in
    if ltb body_start (suc i) && not (is_newline_at content i) then rest else suc i

pub marker_body_end : Text → ℕ → ℕ → ℕ
marker_body_end content body_start end_idx =
    let line_start = line_start_from content body_start end_idx in
    let blank = take (end_idx - line_start) (drop line_start content) in
    if ltb line_start end_idx && trim_space blank == [] then line_start else end_idx

-- Where the body of a block lies, as both functions compute it once the counts are right.
pub block_span : MarkerError → Text → Text → ℕ → Result MarkerError (ℕ × ℕ)
block_span no_end content end_token start_idx = elim (index_byte newline (drop start_idx content)) [
  | none ↦ err unclosed
  | some start_line_end ↦
      let body_start = start_idx + start_line_end + 1 in
      elim (index end_token (drop body_start content)) [
        | none ↦ err no_end
        | some end_rel ↦ ok (body_start, marker_body_end content body_start (body_start + end_rel))
      ]
]

pub replace_marker_block : Text → Text → Text → Result MarkerError Text
replace_marker_block content name new_body =
    let starts = count content (marker_start name) in
    let ends = count content (marker_end name) in
    do
      refuse_if (not (is_marker_name name)) invalid_name
      refuse_if (starts == 0 || ends == 0) missing
      refuse_if (ltb 1 starts || ltb 1 ends) duplicated
      elim (index (marker_start name) content) [
        | none ↦ err missing
        | some start_idx ↦ do
          (body_start, body_end) ← block_span missing content (marker_end name) start_idx
          ok (
              take body_start content
              ++ (ensure_trailing_newline new_body ++ drop body_end content))
      ]

-- A start that is counted is found, so the case none never happens.
pub extract_marker_block : Text → Text → Result MarkerError Text
extract_marker_block content name =
    let starts = count content (marker_start name) in
    let ends = count content (marker_end name) in
    do
      refuse_if (not (is_marker_name name)) invalid_name
      refuse_if (not (starts == 1) || not (ends == 1)) count_invalid
      elim (index (marker_start name) content) [
        | none ↦ err unclosed
        | some start_idx ↦ do
          (body_start, body_end) ← block_span missing content (marker_end name) start_idx
          ok (take (body_end - body_start) (drop body_start content))
      ]

-- `fmt.Sprintf` of the block that `InjectMarkerAfter` inserts
pub new_block : Text → Text → Text
new_block name body =
    (newline ∷ codes "    ")
    ++ (marker_start name
        ++ (newline
            ∷ (ensure_trailing_newline body
                ++ (codes "    " ++ (marker_end name ++ (newline ∷ []))))))

-- A missing newline gives lineEnd = -1, so that insertAt is endIdx.
pub insert_at : Text → ℕ → ℕ
insert_at content end_idx = elim (index_byte newline (drop end_idx content)) [
  | none ↦ end_idx
  | some line_end ↦ end_idx + line_end + 1
]

pub inject_marker_after : Text → Text → Text → Text → Result MarkerError Text
inject_marker_after content after_name new_name new_body = do
  refuse_if (not (is_marker_name after_name) || not (is_marker_name new_name)) invalid_name
  if ltb 0 (count content (marker_start new_name))
      then ok content
      else elim (index (marker_end after_name) content) [
        | none ↦ err missing
        | some end_idx ↦
            let at = insert_at content end_idx in
            ok (take at content ++ (new_block new_name new_body ++ drop at content))
      ]

pub existing_optional_anchor : Text → Text → Text → Text
existing_optional_anchor content optional fallback =
    if count content (marker_start optional) == 1 && count content (marker_end optional) == 1
    then optional
    else fallback

-- The `switch` of `optionalMarkerAnchor`, its cases in order.
pub optional_marker_anchor : Text → Text → Result MarkerError Text
optional_marker_anchor content name =
    if name == codes "SSL"
    then ok (codes "LISTEN")
    else if name == codes "FORCE-HTTPS"
    then ok (codes "SSL")
    else if name == codes "HOTLINK"
    then ok (codes "REWRITE")
    else if name == codes "ACCESS-LIMIT"
    then ok (existing_optional_anchor content (codes "HOTLINK") (codes "REWRITE"))
    else if name == codes "ACME-CHALLENGE"
    then ok (codes "DOCUMENT")
    else if name == codes "MAIN-LOCATION"
    then ok (existing_optional_anchor content (codes "ACME-CHALLENGE") (codes "DOCUMENT"))
    else if name == codes "EXTRA-LOCATIONS"
    then ok (codes "MAIN-LOCATION")
    else err not_optional

pub ensure_marker_block : Text → Text → Text → Result MarkerError Text
ensure_marker_block content name body =
    let starts = count content (marker_start name) in
    let ends = count content (marker_end name) in
    do
      refuse_if (not (is_marker_name name)) invalid_name
      refuse_if (ltb 1 starts || ltb 1 ends) duplicated
      if starts == 1 && ends == 1 then replace_marker_block content name body else do
        refuse_if (not (starts == ends)) missing
        anchor ← optional_marker_anchor content name
        inject_marker_after content anchor name body

abbrev pub BlockPatch : Type 0
BlockPatch = Text × Text

pub apply_marker_patches : Text → List BlockPatch → Result MarkerError Text
apply_marker_patches content [] = ok content
apply_marker_patches content ((name, body) ∷ patches) = do
  next ← replace_marker_block content name body
  apply_marker_patches next patches

pub apply_optional_marker_patches : Text → List BlockPatch → Result MarkerError Text
apply_optional_marker_patches content [] = ok content
apply_optional_marker_patches content ((name, body) ∷ patches) = do
  next ← ensure_marker_block content name body
  apply_optional_marker_patches next patches

pub record MarkerStatus : Type 0 where
  pub valid : Bool
  pub missing : List Text
  pub duplicated : List Text

abbrev is_missing : Text → Text → Bool
is_missing content name =
    count content (marker_start name) == 0 || count content (marker_end name) == 0

abbrev is_duplicated : Text → Text → Bool
is_duplicated content name =
    ltb 1 (count content (marker_start name)) || ltb 1 (count content (marker_end name))

-- The body of the loop of `ValidateRequiredMarkers`.
pub note_marker : Text → Text → MarkerStatus → MarkerStatus
note_marker content name status =
    if is_missing content name
    then record status { valid = false; missing = status.missing ++ (name ∷ []) }
    else if is_duplicated content name
    then record status { valid = false; duplicated = status.duplicated ++ (name ∷ []) }
    else status

pub note_markers : Text → List Text → MarkerStatus → MarkerStatus
note_markers content [] status = status
note_markers content (name ∷ required) status =
    note_markers content required (note_marker content name status)

pub validate_required_markers : Text → List Text → MarkerStatus
validate_required_markers content required =
    note_markers content required (record { valid = true; missing = []; duplicated = [] })
