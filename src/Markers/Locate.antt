-- ===== src/Markers/Locate.antt =====
-- The frame around a block that is found in a text (internal/nginx/marker.go).
use nx_panel.Base.{
  ℕ, zero, suc, ◌+◌, ◌-◌, ◌≤◌, ◌<◌, ◌≡◌, refl, sym, ap, ◌∙◌, ◌≢◌, inl, inr, true, some, [], ◌∷◌,
  ◌++◌, append_assoc, arith, nat_eq, text_eq, Option-cases, length, take, drop, length-append,
  length-take, length-drop, drop-append, take-append, Text, trim_space,
}
use nx_panel.Base.Result.{Result, ok, err}
use nx_panel.Markers.{
  index, index_byte, count, newline, marker_body_end, block_span, MarkerError, is_marker_name,
  marker_start, marker_end,
}
use nx_panel.Markers.Search.{IsLine, count-newline}
use nx_panel.Markers.Index.{
  index-IsFirst, index_byte-IsCut, index-line, index-suffix, index-count, count-suffix,
}
use nx_panel.Markers.Names.{
  IsToken, marker_start-IsToken, marker_end-IsToken, token-IsLine, token-ne, hash,
}
use nx_panel.Markers.Lines.{marker_body_end-IsBodyEnd, take-drop, drop_plus}
use nx_panel.Markers.Frame.{Frame, fill, IsFrame}

pub record IsLocated (name content : Text) (span : ℕ × ℕ) : Type 0 where
  pub frame : Frame
  pub old : Text
  pub is_frame : IsFrame name frame
  pub whole : content ≡ fill name frame old
  pub starts : span.0 ≡ suc (length frame.head)
  pub ends : span.1 ≡ suc (length frame.head) + length old

-- The start line: a head whose last line begins with the start token.
record IsOpened (name content : Text) (i j : ℕ) : Type 0 where
  head : Text
  rest : Text
  whole : content ≡ head ++ (newline ∷ rest)
  long : length head ≡ i + j
  line : IsLine (drop i head)
  starts : index (marker_start name) head ≡ some i

head_eq : (b c : ℕ) (s r : Text) → (b ∷ s) ≡ c ∷ r → b ≡ c
head_eq b c s r e = cc e

drop_at : (n : ℕ) (a b : Text) → length a ≡ n → drop n (a ++ b) ≡ b
drop_at n a b e = rw (← e) (drop-append a b)

drop_le : (n : ℕ) (a b : Text) → n ≤ length a → drop n (a ++ b) ≡ drop n a ++ b
drop_le zero a b le = refl
drop_le (suc n) [] b le = absurd (omega arith)
drop_le (suc n) (c ∷ a) b le = drop_le n a b (omega arith)

token-head :
    (t a line rest : Text) → IsToken t → (t ++ a) ≡ line ++ (newline ∷ rest) → 0 < length line
token-head t a [] rest k e =
    let same : (hash ∷ k.body) ++ a ≡ newline ∷ rest = rw k.whole at e in
    absurd (ground (arith, head_eq hash newline (k.body ++ a) rest same))
token-head t a (c ∷ line) rest k e = omega arith

opened :
    (name content : Text) (i j : ℕ)
    → is_marker_name name ≡ true
    → index (marker_start name) content ≡ some i
    → index_byte newline (drop i content) ≡ some j
    → IsOpened name content i j
opened name content i j named found line_end =
    let k = marker_start-IsToken name named in
    let first = index-IsFirst (marker_start name) content i (token-ne _ k) found in
    let cut = index_byte-IsCut (drop i content) j line_end in
    let after : drop i content ≡ marker_start name ++ first.tail =
      ap (λ s. drop i s) first.whole
      ∙ drop_at i first.gap (marker_start name ++ first.tail) first.at in
    let same : (marker_start name ++ first.tail) ≡ cut.line ++ (newline ∷ cut.rest) =
      sym after ∙ cut.whole in
    let whole : content ≡ (first.gap ++ cut.line) ++ (newline ∷ cut.rest) =
      first.whole
      ∙ ap (λ s. first.gap ++ s) same
      ∙ sym (append_assoc first.gap cut.line (newline ∷ cut.rest)) in
    let long : length (first.gap ++ cut.line) ≡ i + j =
      length-append first.gap cut.line ∙ omega (arith, first.at, cut.at) in
    let some_line = token-head (marker_start name) first.tail cut.line cut.rest k same in
    record {
      head = first.gap ++ cut.line;
      rest = cut.rest;
      whole = whole;
      long = long;
      line = rw (drop_at i first.gap cut.line first.at) cut.is_line;
      starts =
          index-line (marker_start name) (first.gap ++ cut.line) cut.rest i (token-IsLine _ k)
            (omega (arith, long, cut.at, some_line))
            (sym (ap (λ s. index (marker_start name) s) whole) ∙ found);
    }

-- The body: what stands between the start line and the end token, less a blank line.
record IsClosedBy (name rest : Text) (m : ℕ) : Type 0 where
  old : Text
  pad : Text
  tail : Text
  whole : rest ≡ old ++ (pad ++ (marker_end name ++ tail))
  long : length old ≡ m
  line : IsLine pad
  blank : trim_space pad ≡ []
  tail_end : count tail (marker_end name) ≡ 0
  ends : index (marker_end name) (pad ++ (marker_end name ++ tail)) ≡ some (length pad)

closed_by :
    (name rest : Text) (r m : ℕ)
    → is_marker_name name ≡ true
    → index (marker_end name) rest ≡ some r
    → count rest (marker_end name) ≡ 1
    → m ≤ r
    → IsLine (take (r - m) (drop m rest))
    → trim_space (take (r - m) (drop m rest)) ≡ []
    → IsClosedBy name rest m
closed_by name rest r m named found once le line blank =
    let k = marker_end-IsToken name named in
    let first = index-IsFirst (marker_end name) rest r (token-ne _ k) found in
    let after = marker_end name ++ first.tail in
    let pad = drop m first.gap in
    let short : length pad ≡ r - m = length-drop m first.gap ∙ omega (arith, first.at) in
    let same : take (r - m) (drop m rest) ≡ pad =
      ap (λ s. take (r - m) (drop m s)) first.whole
      ∙ ap (λ s. take (r - m) s) (drop_le m first.gap after (omega (arith, first.at)))
      ∙ ap (λ n. take n (pad ++ after)) (sym short)
      ∙ take-append pad after in
    let long : length (take m first.gap) ≡ m = length-take m first.gap ∙ omega (arith, first.at) in
    let whole : rest ≡ take m first.gap ++ (pad ++ after) =
      first.whole
      ∙ ap (λ s. s ++ after) (sym (take-drop m first.gap))
      ∙ append_assoc (take m first.gap) pad after in
    let sum : length (take m first.gap) + length pad ≡ r = omega (arith, long, short) in
    let found_there : index (marker_end name) (take m first.gap ++ (pad ++ after)) ≡ some r =
      sym (ap (λ s. index (marker_end name) s) whole) ∙ found in
    record {
      old = take m first.gap;
      pad = pad;
      tail = first.tail;
      whole = whole;
      long = long;
      line = rw same at line;
      blank = sym (ap trim_space same) ∙ blank;
      tail_end = omega (arith, first.matches);
      ends =
          index-suffix (marker_end name) (take m first.gap) (pad ++ after) (length pad)
            (found_there ∙ ap (λ n. some n) (sym sum));
    }

count_found : (t s : Text) (i : ℕ) → t ≢ [] → index t s ≡ some i → count s t ≢ 0
count_found t s i ne found z = cc (index-count t s ne z, found)

-- A token that is counted once stands on the side of the newline where it is found.
only_left :
    (t a b s : Text) (i : ℕ)
    → IsToken t
    → s ≡ a ++ (newline ∷ b)
    → index t a ≡ some i
    → count s t ≡ 1
    → (count a t ≡ 1) × (count b t ≡ 0)
only_left t a b s i k e found once =
    let split : count s t ≡ count a t + count b t =
      ap (λ r. count r t) e ∙ count-newline t a b (token-IsLine t k) (token-ne t k) in
    let some_left = count_found t a i (token-ne t k) found in
    (omega (arith, some_left), omega (arith, some_left))

only_right :
    (t a b s : Text) (i : ℕ)
    → IsToken t
    → s ≡ a ++ (newline ∷ b)
    → index t b ≡ some i
    → count s t ≡ 1
    → (count a t ≡ 0) × (count b t ≡ 1)
only_right t a b s i k e found once =
    let split : count s t ≡ count a t + count b t =
      ap (λ r. count r t) e ∙ count-newline t a b (token-IsLine t k) (token-ne t k) in
    let some_right = count_found t b i (token-ne t k) found in
    (omega (arith, some_right), omega (arith, some_right))

drop_after :
    (content a b : Text) (n m : ℕ)
    → content ≡ a ++ (newline ∷ b)
    → n ≡ length a + suc m
    → drop n content ≡ drop m b
drop_after content a b n m e far =
    ap (λ s. drop n s) e
    ∙ ap (λ k. drop k (a ++ (newline ∷ b))) far
    ∙ drop_plus (suc m) a (newline ∷ b)

frame_of :
    (name content : Text) (i j m : ℕ)
    → is_marker_name name ≡ true
    → (o : IsOpened name content i j) → IsClosedBy name o.rest m
    → count o.head (marker_start name) ≡ 1
    → count o.rest (marker_start name) ≡ 0
    → count o.head (marker_end name) ≡ 0
    → IsLocated name content (i + j + 1, i + j + 1 + m)
frame_of name content i j m named o c one_start no_start no_end =
    let ne = token-ne (marker_start name) (marker_start-IsToken name named) in
    let no_start_in = sym (ap (λ s. count s (marker_start name)) c.whole) ∙ no_start in
    record {
      frame = record { head = o.head; start_at = i; pad = c.pad; tail = c.tail };
      old = c.old;
      is_frame = record {
        named = named;
        starts = o.starts;
        fits = omega (arith, o.long);
        start_line = o.line;
        one_start = one_start;
        no_start =
            count-suffix (marker_start name) c.old (c.pad ++ (marker_end name ++ c.tail)) ne
              no_start_in;
        no_end = no_end;
        tail_end = c.tail_end;
        ends = c.ends;
        pad_line = c.line;
        blank = c.blank;
      };
      whole = o.whole ∙ ap (λ s. o.head ++ (newline ∷ s)) c.whole;
      starts = omega (arith, o.long);
      ends = omega (arith, o.long, c.long);
    }

located :
    (name content : Text) (i j r : ℕ)
    → is_marker_name name ≡ true
    → index (marker_start name) content ≡ some i
    → count content (marker_start name) ≡ 1
    → count content (marker_end name) ≡ 1
    → index_byte newline (drop i content) ≡ some j
    → index (marker_end name) (drop (i + j + 1) content) ≡ some r
    → IsLocated name content (i + j + 1, marker_body_end content (i + j + 1) (i + j + 1 + r))
located name content i j r named found starts ends line_end end_found =
    let lo = i + j + 1 in
    let at = marker_body_end content lo (lo + r) in
    let ks = marker_start-IsToken name named in
    let ke = marker_end-IsToken name named in
    let o = opened name content i j named found line_end in
    let body_end = marker_body_end-IsBodyEnd content lo (lo + r) (omega arith) in
    let m = at - lo in
    let rest_is : drop lo content ≡ o.rest =
      drop_after content o.head o.rest lo 0 o.whole (omega (arith, o.long)) in
    let rest_end : index (marker_end name) o.rest ≡ some r =
      ap (λ s. index (marker_end name) s) (sym rest_is) ∙ end_found in
    let start_counts =
      only_left (marker_start name) o.head o.rest content i ks o.whole o.starts starts in
    let end_counts =
      only_right (marker_end name) o.head o.rest content r ke o.whole rest_end ends in
    let far : lo + r - at ≡ r - m = omega (arith, body_end.above, body_end.below) in
    let blank_is : take (lo + r - at) (drop at content) ≡ take (r - m) (drop m o.rest) =
      ap (λ n. take n (drop at content)) far
      ∙ ap (λ s. take (r - m) s)
          (drop_after content o.head o.rest at m o.whole (omega (arith, o.long, body_end.above))) in
    let c =
      closed_by name o.rest r m named rest_end end_counts.1 (omega (arith, body_end.below))
        (rw blank_is at body_end.is_line) (sym (ap trim_space blank_is) ∙ body_end.blank) in
    let sum : lo + m ≡ at = omega (arith, body_end.above) in
    rw (← sum) (frame_of name content i j m named o c start_counts.0 start_counts.1 end_counts.0)

err_ne : {e : MarkerError} {a : ℕ × ℕ} → ¬ (err e ≡ ok a)
err_ne h = cc h

ok_eq : {a b : ℕ × ℕ} → ◌≡◌ {A = Result MarkerError (ℕ × ℕ)} (ok a) (ok b) → b ≡ a
ok_eq h = cc h

block_span-cases :
    (e : MarkerError) (end content : Text) (i : ℕ) {span : ℕ × ℕ}
    → block_span e content end i ≡ ok span
    → (j : ℕ) × (r : ℕ) × (index_byte newline (drop i content) ≡ some j)
      × (index end (drop (i + j + 1) content) ≡ some r)
      × (span ≡ (i + j + 1, marker_body_end content (i + j + 1) (i + j + 1 + r)))
unfolding block_span
block_span-cases e end content i h = elim (Option-cases (index_byte newline (drop i content))) [
  | inl gone ↦ absurd (err_ne (rw (gone, block_span) at h))
  | inr (j, line_end) ↦ elim (Option-cases (index end (drop (i + j + 1) content))) [
    | inl gone ↦ absurd (err_ne (rw (line_end, block_span, gone) at h))
    | inr (r, found) ↦ (j, r, line_end, found, ok_eq (rw (line_end, block_span, found) at h))
  ]
]

pub block_span-IsLocated :
    (e : MarkerError) (name content : Text) (i : ℕ) {span : ℕ × ℕ}
    → is_marker_name name ≡ true
    → index (marker_start name) content ≡ some i
    → count content (marker_start name) ≡ 1
    → count content (marker_end name) ≡ 1
    → block_span e content (marker_end name) i ≡ ok span
    → IsLocated name content span
block_span-IsLocated e name content i named found starts ends h =
    let (j, r, line_end, end_found, same) = block_span-cases e (marker_end name) content i h in
    rw same (located name content i j r named found starts ends line_end end_found)
