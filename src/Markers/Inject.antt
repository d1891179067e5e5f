-- ===== src/Markers/Inject.antt =====
-- Adding a block by `EnsureMarkerBlock` and reading it (internal/nginx/marker.go).
use nx_panel.Base.{
  ℕ, suc, ◌+◌, ◌≡◌, refl, sym, ap, ◌∙◌, inl, inr, true, not, ◌&&◌, ◌||◌, some, [], ◌∷◌, ◌++◌,
  append-nil, append_assoc, arith, ltb, ◌==◌, nat_eq, text_eq, Bool-cases, length, take, drop,
  length-append, Text, codes, trim_left, trim_space,
}
use nx_panel.Base.Result.{ok, >>=-eq-ok, refuse_if-eq-ok}
use nx_panel.Markers.{
  index, count_from, count, newline, ensure_trailing_newline, missing, duplicated, invalid_name,
  is_marker_name, marker_start, marker_end, new_block, insert_at, inject_marker_after,
  ensure_marker_block, optional_marker_anchor, extract_marker_block,
}
use nx_panel.Markers.Search.{count-newline}
use nx_panel.Markers.Index.{index-newline_right, count-first, count-prefix, count-suffix}
use nx_panel.Markers.Names.{
  IsToken, IsPlain, marker_start-IsToken, marker_end-IsToken, token-IsLine, token-ne, avoid, hash,
  index-plain, count-other, marker_end-marker_start, marker_start-marker_end,
}
use nx_panel.Markers.Lines.{take-drop, drop_plus}
use nx_panel.Markers.Frame.{Frame, fill, IsFrame, IsClean}
use nx_panel.Markers.Blocks.{
  extract-fill, ensure_trailing_newline-IsClosed, ensure_trailing_newline-IsClean,
}
use nx_panel.Markers.Lens.{extract_marker_block-replace_marker_block, some-eq-ok, ok_eq}

abbrev indent : Text
indent = codes "    "

indent-IsPlain : IsPlain indent
indent-IsPlain = avoid hash indent refl

new_frame : Text → Text → Text → Frame
new_frame name before after = record {
  head = before ++ (newline ∷ (indent ++ marker_start name));
  start_at = suc (length before) + 4;
  pad = indent;
  tail = newline ∷ after;
}

none_here : (t : Text) → count [] t ≡ 0
unfolding count count_from
none_here t = refl

count-token : (t : Text) → IsToken t → count (indent ++ t) t ≡ 1
count-token t k =
    let once = count-first t indent [] (token-ne t k) (index-plain t indent [] k indent-IsPlain) in
    sym (ap (λ s. count (indent ++ s) t) (append-nil t)) ∙ once ∙ ap (λ n. suc n) (none_here t)

new_frame-IsFrame :
    (name before after : Text)
    → is_marker_name name ≡ true
    → IsClean name before
    → IsClean name after
    → IsFrame name (new_frame name before after)
unfolding new_frame
new_frame-IsFrame name before after named cb ca =
    let start = marker_start name in
    let end = marker_end name in
    let ks = marker_start-IsToken name named in
    let ke = marker_end-IsToken name named in
    let first : index start (indent ++ start) ≡ some 4 =
      sym (ap (λ s. index start (indent ++ s)) (append-nil start))
      ∙ index-plain start indent [] ks indent-IsPlain in
    let split : (t : Text)
        → IsToken t
        → (s : Text) → count (before ++ (newline ∷ s)) t ≡ count before t + count s t =
      λ t k s. count-newline t before s (token-IsLine t k) (token-ne t k) in
    let split_after : (t : Text)
        → IsToken t
        → (s : Text) → count (s ++ (newline ∷ after)) t ≡ count s t + count after t =
      λ t k s. count-newline t s after (token-IsLine t k) (token-ne t k) in
    let long : length (before ++ (newline ∷ (indent ++ start)))
        ≡ length before + (5 + length start) =
      length-append before (newline ∷ (indent ++ start)) ∙ omega arith in
    let five : suc (length before) + 4 ≡ length before + 5 = omega arith in
    let one = count-token start ks in
    let other = count-other start end indent ks ke indent-IsPlain (marker_start-marker_end name) in
    let another =
      count-other end start indent ke ks indent-IsPlain (marker_end-marker_start name) in
    record {
      named = named;
      starts =
          index-newline_right start before (indent ++ start) 4 (token-IsLine _ ks) (token-ne _ ks)
            cb.starts first;
      fits = omega (arith, long);
      start_line = rw (five, drop_plus 5 before (newline ∷ (indent ++ start))) (token-IsLine _ ks);
      one_start = split start ks (indent ++ start) ∙ omega (arith, cb.starts, one);
      no_start = split_after start ks (indent ++ end) ∙ omega (arith, ca.starts, other);
      no_end = split end ke (indent ++ start) ∙ omega (arith, cb.ends, another);
      tail_end = split_after end ke [] ∙ omega (arith, ca.ends, none_here end);
      ends = index-plain end indent (newline ∷ after) ke indent-IsPlain;
      pad_line = avoid newline indent refl;
      blank = unfold trim_space trim_left in refl;
    }

new_block-fill :
    (name body before after : Text)
    → (before ++ (new_block name body ++ after))
      ≡ fill name (new_frame name before after) (ensure_trailing_newline body)
unfolding new_block new_frame
new_block-fill name body before after =
    let body' = ensure_trailing_newline body in
    let start = marker_start name in
    let end = marker_end name in
    rw
      (
        append_assoc before (newline ∷ (indent ++ start))
            (newline ∷ (body' ++ (indent ++ (end ++ (newline ∷ after))))),
        append_assoc start (newline ∷ (body' ++ (indent ++ (end ++ (newline ∷ []))))) after,
        append_assoc body' (indent ++ (end ++ (newline ∷ []))) after,
        append_assoc end (newline ∷ []) after,
      )
      refl

IsClean-split :
    (name content : Text) (n : ℕ)
    → is_marker_name name ≡ true
    → IsClean name content
    → IsClean name (take n content) × IsClean name (drop n content)
IsClean-split name content n named clean =
    let ns = token-ne _ (marker_start-IsToken name named) in
    let ne = token-ne _ (marker_end-IsToken name named) in
    let whole = take-drop n content in
    let starts : count (take n content ++ drop n content) (marker_start name) ≡ 0 =
      ap (λ s. count s (marker_start name)) whole ∙ clean.starts in
    let ends : count (take n content ++ drop n content) (marker_end name) ≡ 0 =
      ap (λ s. count s (marker_end name)) whole ∙ clean.ends in
    (
      record {
        starts = count-prefix _ (take n content) (drop n content) ns starts;
        ends = count-prefix _ (take n content) (drop n content) ne ends;
      },
      record {
        starts = count-suffix _ (take n content) (drop n content) ns starts;
        ends = count-suffix _ (take n content) (drop n content) ne ends;
      },
    )

extract-inserted :
    (content name body : Text) (n : ℕ)
    → is_marker_name name ≡ true
    → IsClean name content
    → IsClean name body
    → extract_marker_block (take n content ++ (new_block name body ++ drop n content)) name
      ≡ ok (ensure_trailing_newline body)
extract-inserted content name body n named clean clean_body =
    let both = IsClean-split name content n named clean in
    let f = new_frame name (take n content) (drop n content) in
    rw (new_block-fill name body (take n content) (drop n content)) (
      extract-fill name f
        (new_frame-IsFrame name (take n content) (drop n content) named both.0 both.1)
        (ensure_trailing_newline body) (ensure_trailing_newline-IsClosed body)
        (ensure_trailing_newline-IsClean name body named clean_body))

injected :
    (content after_name name body : Text) {out : Text}
    → inject_marker_after content after_name name body ≡ ok out
    → IsClean name content
    → (n : ℕ) × (out ≡ take n content ++ (new_block name body ++ drop n content))
unfolding inject_marker_after
injected content after_name name body h clean =
    let bad = not (is_marker_name after_name) || not (is_marker_name name) in
    let (named, h1) = refuse_if-eq-ok bad invalid_name _ h in
    let (i, at, h2) =
      some-eq-ok _ (index (marker_end after_name) content) _ (rw clean.starts at h1) in
    (insert_at content i, ok_eq h2)

-- After a block is ensured with a text without the block's own tokens, whether the block was there
-- or is new, reading it gives that text, with a newline at its end if it had none.
pub extract_marker_block-ensure_marker_block :
    (content name body : Text) {out : Text}
    → ensure_marker_block content name body ≡ ok out
    → IsClean name body
    → extract_marker_block out name ≡ ok (ensure_trailing_newline body)
unfolding ensure_marker_block
extract_marker_block-ensure_marker_block content name body h clean =
    let starts = count content (marker_start name) in
    let ends = count content (marker_end name) in
    let (named, h1) = refuse_if-eq-ok (not (is_marker_name name)) invalid_name _ h in
    let (once, h2) = refuse_if-eq-ok (ltb 1 starts || ltb 1 ends) duplicated _ h1 in
    elim (Bool-cases (starts == 1 && ends == 1)) [
      | inl there ↦
          extract_marker_block-replace_marker_block content name body (rw there at h2) clean
      | inr new ↦
          let (alike, h3) = refuse_if-eq-ok (not (starts == ends)) missing _ (rw new at h2) in
          let (anchor, (h4, found)) = >>=-eq-ok (optional_marker_anchor content name) _ h3 in
          let absent : IsClean name content = record {
            starts = ground arith;
            ends = ground arith;
          } in
          let (n, same) = injected content anchor name body h4 absent in
          rw same (extract-inserted content name body n (ground arith) absent clean)
    ]
