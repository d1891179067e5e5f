-- ===== src/Markers/Blocks.antt =====
-- Reading and replacing the block of a frame (internal/nginx/marker.go).
use nx_panel.Base.{
  suc, ◌+◌, ◌-◌, ◌≡◌, refl, ap, ◌⊎◌, inl, inr, true, none, some, [], ◌∷◌, ◌++◌, append_assoc, arith,
  nat_beq_iff, ◌==◌, nat_eq, text_eq, Bool-cases, Option-cases, length, take-append, Text,
}
use nx_panel.Base.Result.{ok}
use nx_panel.Markers.{
  count_from, count, newline, last, ensure_trailing_newline, missing, is_marker_name, marker_start,
  marker_end, replace_marker_block, extract_marker_block,
}
use nx_panel.Markers.Search.{count-newline}
use nx_panel.Markers.Names.{
  marker_start-IsToken, marker_end-IsToken, IsToken, token-IsLine, token-ne,
}
use nx_panel.Markers.Frame.{
  IsClosed, lines, Frame, fill, rest_of, IsFrame, IsClean, index-fill, count-fill_start,
  count-fill_end, block_span-fill, take_start, drop_start, drop_body,
}

last-newline : (s : Text) → last s ≡ some newline → (b : Text) × (s ≡ b ++ (newline ∷ []))
unfolding last
last-newline [] h = absurd (ground arith)
last-newline (c ∷ []) h = ([], ground arith)
last-newline (c ∷ d ∷ s) h = let (b, e) = last-newline (d ∷ s) h in (c ∷ b, ap (λ r. c ∷ r) e)

last-none : (s : Text) → last s ≡ none → s ≡ []
unfolding last
last-none [] h = refl
last-none (c ∷ []) h = absurd (ground arith)
last-none (c ∷ d ∷ s) h = absurd (cc (last-none (d ∷ s) h))

-- The text that is written for a body ends with a newline, and holds the tokens that the body does.
abbrev IsEnded : Text → Type 0
IsEnded body =
    (s : Text) × (ensure_trailing_newline body ≡ s ++ (newline ∷ []))
    × ((body ≡ s) ⊎ (body ≡ s ++ (newline ∷ [])))

ensure_trailing_newline_lem : (body : Text) → IsEnded body
unfolding ensure_trailing_newline
ensure_trailing_newline_lem body = elim (Option-cases (last body)) [
  | inl gone ↦ ([], rw (gone, ensure_trailing_newline) refl, inl (last-none body gone))
  | inr (c, e) ↦ elim (Bool-cases (c == newline)) [
    | inl same ↦
        let found : last body ≡ some newline = ground (arith, nat_beq_iff c newline) in
        let (b, whole) = last-newline body found in
        (b, rw (e, ensure_trailing_newline, same) whole, inr whole)
    | inr other ↦ (body, rw (e, ensure_trailing_newline, other) refl, inl refl)
  ]
]

pub ensure_trailing_newline-IsClosed : (body : Text) → IsClosed (ensure_trailing_newline body)
ensure_trailing_newline-IsClosed body =
    let (s, e, either) = ensure_trailing_newline_lem body in rw e (lines s)

last-lines : (s : Text) → last (s ++ (newline ∷ [])) ≡ some newline
unfolding last
last-lines [] = refl
last-lines (c ∷ []) = refl
last-lines (c ∷ d ∷ s) = last-lines (d ∷ s)

pub ensure_trailing_newline-lines :
    (s : Text) → ensure_trailing_newline (s ++ (newline ∷ [])) ≡ s ++ (newline ∷ [])
unfolding ensure_trailing_newline
ensure_trailing_newline-lines s = rw (last-lines s, ensure_trailing_newline) refl

count-ensure_trailing_newline :
    (t body : Text) → IsToken t → count body t ≡ 0 → count (ensure_trailing_newline body) t ≡ 0
count-ensure_trailing_newline t body k z =
    let (s, e, either) = ensure_trailing_newline_lem body in
    let alone = count-newline t s [] (token-IsLine t k) (token-ne t k) in
    let sum : 0 + 0 ≡ 0 = omega arith in
    let empty : count [] t ≡ 0 = unfold count count_from in refl in
    elim either [ inl same ↦ rw (e, alone, empty) (cc (z, same, sum)) | inr same ↦ cc (e, same, z) ]

pub ensure_trailing_newline-IsClean :
    (name body : Text)
    → is_marker_name name ≡ true
    → IsClean name body
    → IsClean name (ensure_trailing_newline body)
ensure_trailing_newline-IsClean name body named clean = record {
  starts =
      count-ensure_trailing_newline (marker_start name) body (marker_start-IsToken name named)
        clean.starts;
  ends =
      count-ensure_trailing_newline (marker_end name) body (marker_end-IsToken name named)
        clean.ends;
}

-- A body that is written with a newline at its end.
module _ (name : Text) (f : Frame) (h : IsFrame name f) where
  pub replace-fill :
      (old new : Text)
      → IsClosed old
      → IsClean name old
      → replace_marker_block (fill name f old) name new
        ≡ ok (fill name f (ensure_trailing_newline new))
  unfolding replace_marker_block
  replace-fill old new c clean =
      rw
        (
          count-fill_start name f h old c clean,
          count-fill_end name f h old c clean,
          h.named,
          index-fill name f h (old ++ rest_of name f),
          block_span-fill name f h missing old c clean,
        )
        (rw
          (
            take_start name f h (old ++ rest_of name f),
            drop_body name f h old,
            append_assoc f.head (newline ∷ []) (ensure_trailing_newline new ++ rest_of name f),
          )
          refl)

  pub extract-fill :
      (body : Text)
      → IsClosed body
      → IsClean name body
      → extract_marker_block (fill name f body) name ≡ ok body
  unfolding extract_marker_block
  extract-fill body c clean =
      rw
        (
          count-fill_start name f h body c clean,
          count-fill_end name f h body c clean,
          h.named,
          index-fill name f h (body ++ rest_of name f),
          block_span-fill name f h missing body c clean,
        )
        (let long : suc (length f.head) + length body - suc (length f.head) ≡ length body =
            omega arith in
          rw (long, drop_start name f h (body ++ rest_of name f), take-append body (rest_of name f))
            refl)
