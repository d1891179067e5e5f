-- ===== src/Markers/Frame.antt =====
-- A text around one block, and where `block_span` finds the block's body.
use nx_panel.Base.{
  ℕ, zero, suc, ◌+◌, ◌-◌, ◌≤◌, ◌≡◌, refl, sym, ap, ◌∙◌, true, some, [], ◌∷◌, ◌++◌, append_assoc,
  arith, nat_eq, text_eq, length, take, drop, length-append, length-drop, drop-append, Text,
  trim_space,
}
use nx_panel.Base.Result.{ok}
use nx_panel.Markers.{
  index, index_byte, count_from, count, newline, is_newline_at, marker_body_end, block_span,
  MarkerError, is_marker_name, marker_start, marker_end,
}
use nx_panel.Markers.Search.{IsLine, count-newline}
use nx_panel.Markers.Index.{
  index_byte-newline, index-newline_left, index-newline_right, count-first, count-prefix,
}
use nx_panel.Markers.Names.{
  IsToken, marker_start-IsToken, marker_end-IsToken, token-IsLine, token-ne,
}
use nx_panel.Markers.Lines.{marker_body_end-blank, drop_plus, take_plus, is_newline_at-plus}

-- A body that a newline ends, or no body.
pub data IsClosed : Text → Type 0 where
  nothing : IsClosed []
  lines : (s : Text) → IsClosed (s ++ (newline ∷ []))

-- What stands around the body of a block: `head` up to the newline of the start line, `pad` before
-- the end token on its line, `tail` after that token.
pub record Frame : Type 0 where
  pub head : Text
  pub start_at : ℕ
  pub pad : Text
  pub tail : Text

abbrev pub rest_of : Text → Frame → Text
rest_of name f = f.pad ++ (marker_end name ++ f.tail)

abbrev pub fill : Text → Frame → Text → Text
fill name f body = f.head ++ (newline ∷ (body ++ rest_of name f))

pub record IsFrame (name : Text) (f : Frame) : Type 0 where
  pub named : is_marker_name name ≡ true
  pub starts : index (marker_start name) f.head ≡ some f.start_at
  pub fits : f.start_at ≤ length f.head
  pub start_line : IsLine (drop f.start_at f.head)
  pub one_start : count f.head (marker_start name) ≡ 1
  pub no_start : count (rest_of name f) (marker_start name) ≡ 0
  pub no_end : count f.head (marker_end name) ≡ 0
  pub tail_end : count f.tail (marker_end name) ≡ 0
  pub ends : index (marker_end name) (rest_of name f) ≡ some (length f.pad)
  pub pad_line : IsLine f.pad
  pub blank : trim_space f.pad ≡ []

-- A body that holds neither token of the name.
pub record IsClean (name body : Text) : Type 0 where
  pub starts : count body (marker_start name) ≡ 0
  pub ends : count body (marker_end name) ≡ 0

count-closed : (t b r : Text) → IsToken t → IsClosed b → count (b ++ r) t ≡ count b t + count r t
count-closed t _ r k nothing = unfold count count_from in omega arith
count-closed t _ r k (lines s) =
    let split = count-newline t s r (token-IsLine t k) (token-ne t k) in
    let alone = count-newline t s [] (token-IsLine t k) (token-ne t k) in
    let none_here : count [] t ≡ 0 = unfold count count_from in refl in
    rw (append_assoc s (newline ∷ []) r, split, alone, none_here) (omega arith)

index-closed :
    (t b r : Text) (i : ℕ)
    → IsToken t
    → IsClosed b
    → count b t ≡ 0
    → index t r ≡ some i
    → index t (b ++ r) ≡ some (length b + i)
index-closed t _ r i k nothing z h = rw h (ap (λ n. some n) (omega arith))
index-closed t _ r i k (lines s) z h =
    let clean = count-prefix t s (newline ∷ []) (token-ne t k) z in
    let found = index-newline_right t s r i (token-IsLine t k) (token-ne t k) clean h in
    rw (append_assoc s (newline ∷ []) r, found, length-append s (newline ∷ []))
      (ap (λ n. some n) (omega arith))

drop_le : (n : ℕ) (a b : Text) → n ≤ length a → drop n (a ++ b) ≡ drop n a ++ b
drop_le zero a b le = refl
drop_le (suc n) [] b le = absurd (omega arith)
drop_le (suc n) (c ∷ a) b le = drop_le n a b (omega arith)

module _ (name : Text) (f : Frame) (h : IsFrame name f) where
  start_line-index_byte :
      (r : Text)
      → index_byte newline (drop f.start_at (f.head ++ (newline ∷ r)))
        ≡ some (length f.head - f.start_at)
  start_line-index_byte r =
      rw
        (
          drop_le f.start_at f.head (newline ∷ r) h.fits,
          index_byte-newline (drop f.start_at f.head) r h.start_line,
          length-drop f.start_at f.head,
        )
        refl

  pub index-fill :
      (r : Text) → index (marker_start name) (f.head ++ (newline ∷ r)) ≡ some f.start_at
  index-fill r =
      let k = marker_start-IsToken name h.named in
      index-newline_left (marker_start name) f.head r f.start_at (token-IsLine _ k) (token-ne _ k)
        h.starts

  count-fill :
      (t body : Text)
      → IsToken t
      → IsClosed body
      → count (fill name f body) t ≡ count f.head t + (count body t + count (rest_of name f) t)
  count-fill t body k c =
      count-newline t f.head (body ++ rest_of name f) (token-IsLine t k) (token-ne t k)
      ∙ ap (λ n. count f.head t + n) (count-closed t body (rest_of name f) k c)

  pub count-fill_start :
      (body : Text)
      → IsClosed body
      → IsClean name body
      → count (fill name f body) (marker_start name) ≡ 1
  count-fill_start body c clean =
      count-fill (marker_start name) body (marker_start-IsToken name h.named) c
      ∙ omega (arith, h.one_start, h.no_start, clean.starts)

  pub count-fill_end :
      (body : Text)
      → IsClosed body
      → IsClean name body
      → count (fill name f body) (marker_end name) ≡ 1
  count-fill_end body c clean =
      let k = marker_end-IsToken name h.named in
      let once = count-first (marker_end name) f.pad f.tail (token-ne _ k) h.ends in
      count-fill (marker_end name) body k c ∙ omega (arith, once, h.tail_end, h.no_end, clean.ends)

  start_of-ends :
      (body : Text)
      → IsClosed body
      → is_newline_at (f.head ++ (newline ∷ body)) (length f.head + length body) ≡ true
  unfolding is_newline_at
  start_of-ends body nothing = is_newline_at-plus f.head (newline ∷ []) 0
  start_of-ends body (lines s) =
      let long : length (s ++ (newline ∷ [])) ≡ suc (length s) =
        length-append s (newline ∷ []) ∙ omega arith in
      let zero_more : length s + 0 ≡ length s = omega arith in
      rw (long, is_newline_at-plus f.head (newline ∷ (s ++ (newline ∷ []))) (suc (length s)))
        (ap (λ k. is_newline_at (s ++ (newline ∷ [])) k) (sym zero_more)
          ∙ is_newline_at-plus s (newline ∷ []) 0)

  marker_body_end-fill :
      (body : Text)
      → IsClosed body
      → marker_body_end
          (fill name f body)
          (suc (length f.head))
          (suc (length f.head) + (length body + length f.pad))
        ≡ suc (length f.head) + length body
  marker_body_end-fill body c =
      let a = f.head ++ (newline ∷ body) in
      let whole : fill name f body ≡ a ++ rest_of name f =
        sym (append_assoc f.head (newline ∷ body) (rest_of name f)) in
      let long : length a ≡ suc (length f.head + length body) =
        length-append f.head (newline ∷ body) ∙ omega arith in
      let one_less : length a - 1 ≡ length f.head + length body = omega (arith, long) in
      let ends : is_newline_at a (length a - 1) ≡ true = rw one_less (start_of-ends body c) in
      let sum : suc (length f.head) + (length body + length f.pad) ≡ length a + length f.pad =
        omega (arith, long) in
      rw (whole, sum)
        (marker_body_end-blank a f.pad (marker_end name ++ f.tail) (suc (length f.head)) h.pad_line
            h.blank (omega (arith, long)) ends
          ∙ omega (arith, long))

  pub drop_start : (r : Text) → drop (suc (length f.head)) (f.head ++ (newline ∷ r)) ≡ r
  drop_start r =
      let one_more : suc (length f.head) ≡ length f.head + 1 = omega arith in
      rw one_more (drop_plus 1 f.head (newline ∷ r))

  pub block_span-fill :
      (e : MarkerError) (body : Text)
      → IsClosed body
      → IsClean name body
      → block_span e (fill name f body) (marker_end name) f.start_at
        ≡ ok (suc (length f.head), suc (length f.head) + length body)
  unfolding block_span
  block_span-fill e body c clean =
      let first =
        index-closed (marker_end name) body (rest_of name f) (length f.pad)
          (marker_end-IsToken name h.named) c clean.ends h.ends in
      let after : f.start_at + (length f.head - f.start_at) + 1 ≡ suc (length f.head) =
        omega (arith, h.fits) in
      let here = marker_body_end-fill body c in
      rw
        (
          start_line-index_byte (body ++ rest_of name f),
          block_span,
          after,
          drop_start (body ++ rest_of name f),
          first,
          after,
          here,
        )
        refl

  pub drop_body :
      (body : Text) → drop (suc (length f.head) + length body) (fill name f body) ≡ rest_of name f
  drop_body body =
      let sum : suc (length f.head) + length body ≡ length f.head + suc (length body) =
        omega arith in
      rw (sum, drop_plus (suc (length body)) f.head (newline ∷ (body ++ rest_of name f)))
        (drop-append body (rest_of name f))

  pub take_start :
      (r : Text) → take (suc (length f.head)) (f.head ++ (newline ∷ r)) ≡ f.head ++ (newline ∷ [])
  take_start r =
      let one_more : suc (length f.head) ≡ length f.head + 1 = omega arith in
      rw (one_more, take_plus 1 f.head (newline ∷ r)) refl
