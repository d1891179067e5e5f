-- ===== src/Markers/Lens.antt =====
-- Reading and replacing one block in turn (internal/nginx/marker.go).
use nx_panel.Base.{
  ℕ, suc, ◌-◌, ◌≡◌, refl, sym, ap, ◌∙◌, true, not, ◌||◌, Option, none, some, [], ◌∷◌, ◌++◌,
  append_assoc, arith, ltb, ◌==◌, nat_eq, text_eq, length, take, drop, take-append, Text,
}
use nx_panel.Base.Result.{Result, ok, err, >>=-eq-ok, refuse_if-eq-ok}
use nx_panel.Markers.{
  index, count, newline, ensure_trailing_newline, block_span, MarkerError, missing, count_invalid,
  invalid_name, duplicated, is_marker_name, marker_start, marker_end, replace_marker_block,
  extract_marker_block,
}
use nx_panel.Markers.Frame.{Frame, fill, rest_of, IsClean, take_start, drop_start, drop_body}
use nx_panel.Markers.Locate.{IsLocated, block_span-IsLocated}
use nx_panel.Markers.Blocks.{
  replace-fill, extract-fill, ensure_trailing_newline-IsClosed, ensure_trailing_newline-IsClean,
  ensure_trailing_newline-lines,
}

-- A block that is found once, and where it is.
record IsFound (content name : Text) (start_idx : ℕ) (span : ℕ × ℕ) : Type 0 where
  named : is_marker_name name ≡ true
  starts : count content (marker_start name) ≡ 1
  ends : count content (marker_end name) ≡ 1
  at : index (marker_start name) content ≡ some start_idx
  spans : block_span missing content (marker_end name) start_idx ≡ ok span

pub some-eq-ok :
    (e : MarkerError) {B : Type 0} (o : Option ℕ) (next : ℕ → Result MarkerError B) {b : B}
    → ◌≡◌ {A = Result MarkerError B} (elim o [ none ↦ err e | some i ↦ next i ]) (ok b)
    → (i : ℕ) × (o ≡ some i) × (next i ≡ ok b)
some-eq-ok e none next h = cc
some-eq-ok e (some i) next h = (i, refl, h)

replaced-IsFound :
    (content name body : Text) {out : Text}
    → replace_marker_block content name body ≡ ok out
    → (i : ℕ) × (span : ℕ × ℕ) × IsFound content name i span
unfolding replace_marker_block
replaced-IsFound content name body {out} h =
    let starts = count content (marker_start name) in
    let ends = count content (marker_end name) in
    let (named, h1) = refuse_if-eq-ok (not (is_marker_name name)) invalid_name _ h in
    let (some_of, h2) = refuse_if-eq-ok (starts == 0 || ends == 0) missing _ h1 in
    let (once, h3) = refuse_if-eq-ok (ltb 1 starts || ltb 1 ends) duplicated _ h2 in
    let (i, at, h4) = some-eq-ok _ (index (marker_start name) content) _ h3 in
    let (span, (h5, spans)) = >>=-eq-ok (block_span missing content (marker_end name) i) _ h4 in
    (
      i,
      span,
      record {
        named = ground arith;
        starts = ground arith;
        ends = ground arith;
        at = at;
        spans = spans;
      },
    )

pub ok_eq : {a b : Text} → ◌≡◌ {A = Result MarkerError Text} (ok a) (ok b) → b ≡ a
ok_eq h = cc h

extracted-IsFound :
    (content name : Text) {b : Text}
    → extract_marker_block content name ≡ ok b
    → (i : ℕ) × (span : ℕ × ℕ) × IsFound content name i span
      × (b ≡ take (span.1 - span.0) (drop span.0 content))
unfolding extract_marker_block
extracted-IsFound content name {b} h =
    let starts = count content (marker_start name) in
    let ends = count content (marker_end name) in
    let (named, h1) = refuse_if-eq-ok (not (is_marker_name name)) invalid_name _ h in
    let (once, h2) = refuse_if-eq-ok (not (starts == 1) || not (ends == 1)) count_invalid _ h1 in
    let (i, at, h3) = some-eq-ok _ (index (marker_start name) content) _ h2 in
    let (span, (h4, spans)) = >>=-eq-ok (block_span missing content (marker_end name) i) _ h3 in
    (
      i,
      span,
      record {
        named = ground arith;
        starts = ground arith;
        ends = ground arith;
        at = at;
        spans = spans;
      },
      ok_eq h4,
    )

-- What is found is a frame around a body, and every replacement fills that frame.
IsReplaced : Text → Text → Frame → Type 0
IsReplaced content name f =
    (new : Text)
    → replace_marker_block content name new ≡ ok (fill name f (ensure_trailing_newline new))

found-IsReplaced :
    (content name : Text) (i : ℕ) (span : ℕ × ℕ)
    → IsFound content name i span
    → (l : IsLocated name content span) × IsReplaced content name l.frame
unfolding IsReplaced replace_marker_block
found-IsReplaced content name i (from, to) found =
    let l =
      block_span-IsLocated missing name content i found.named found.at found.starts found.ends
        found.spans in
    let f = l.frame in
    let before : take from content ≡ f.head ++ (newline ∷ []) =
      ap (λ s. take from s) l.whole
      ∙ ap (λ n. take n (fill name f l.old)) l.starts
      ∙ take_start name f l.is_frame (l.old ++ rest_of name f) in
    let after : drop to content ≡ rest_of name f =
      ap (λ s. drop to s) l.whole
      ∙ ap (λ n. drop n (fill name f l.old)) l.ends
      ∙ drop_body name f l.is_frame l.old in
    (
      l,
      λ new.
          rw
            (
              found.named,
              found.starts,
              found.ends,
              found.at,
              found.spans,
              before,
              after,
              append_assoc f.head (newline ∷ []) (ensure_trailing_newline new ++ rest_of name f),
            )
            refl,
    )

-- After a block is replaced by a text without the block's own tokens, reading the block gives that
-- text, with a newline at its end if it had none.
pub extract_marker_block-replace_marker_block :
    (content name body : Text) {out : Text}
    → replace_marker_block content name body ≡ ok out
    → IsClean name body
    → extract_marker_block out name ≡ ok (ensure_trailing_newline body)
unfolding IsReplaced
extract_marker_block-replace_marker_block content name body h clean =
    let (i, span, found) = replaced-IsFound content name body h in
    let (l, replaced) = found-IsReplaced content name i span found in
    rw (ok_eq (sym (replaced body) ∙ h)) (
      extract-fill name l.frame l.is_frame (ensure_trailing_newline body)
        (ensure_trailing_newline-IsClosed body)
        (ensure_trailing_newline-IsClean name body found.named clean))

-- Of two replacements of a block, the first by a text without the block's own tokens, only the
-- second counts: the result is that of the second alone, which succeeds.
pub replace_marker_block-replace_marker_block :
    (content name body next : Text) {out : Text}
    → replace_marker_block content name body ≡ ok out
    → IsClean name body
    → (last : Text) × (replace_marker_block content name next ≡ ok last)
      × (replace_marker_block out name next ≡ ok last)
unfolding IsReplaced
replace_marker_block-replace_marker_block content name body next h clean =
    let (i, span, found) = replaced-IsFound content name body h in
    let (l, replaced) = found-IsReplaced content name i span found in
    (
      fill name l.frame (ensure_trailing_newline next),
      replaced next,
      rw (ok_eq (sym (replaced body) ∙ h)) (
          replace-fill name l.frame l.is_frame (ensure_trailing_newline body) next
            (ensure_trailing_newline-IsClosed body)
            (ensure_trailing_newline-IsClean name body found.named clean)),
    )

-- A block that is read as lines can be replaced by what was read, and the text stays as it is.
pub replace_marker_block-extract_marker_block :
    (content name body : Text)
    → extract_marker_block content name ≡ ok (body ++ (newline ∷ []))
    → replace_marker_block content name (body ++ (newline ∷ [])) ≡ ok content
unfolding IsReplaced
replace_marker_block-extract_marker_block content name body h =
    let (i, span, found, read) = extracted-IsFound content name h in
    let (l, replaced) = found-IsReplaced content name i span found in
    let long : span.1 - span.0 ≡ length l.old = omega (arith, l.starts, l.ends) in
    let same : (body ++ (newline ∷ [])) ≡ l.old =
      read
      ∙ ap (λ n. take n (drop span.0 content)) long
      ∙ ap (λ n. take (length l.old) (drop n content)) l.starts
      ∙ ap (λ s. take (length l.old) (drop (suc (length l.frame.head)) s)) l.whole
      ∙ ap (λ s. take (length l.old) s)
          (drop_start name l.frame l.is_frame (l.old ++ rest_of name l.frame))
      ∙ take-append l.old (rest_of name l.frame) in
    replaced (body ++ (newline ∷ []))
    ∙ ap (λ s. ok (fill name l.frame s)) (ensure_trailing_newline-lines body ∙ same)
    ∙ ap (λ s. ok s) (sym l.whole)
