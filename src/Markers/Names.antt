-- ===== src/Markers/Names.antt =====
-- The tokens of a marker name (internal/nginx/marker.go).
use nx_panel.Base.{
  ℕ, ◌≡◌, refl, ◌∙◌, ◌≢◌, true, false, not, some, [], ◌∷◌, ◌++◌, arith, nat_beq_iff, ◌==◌, nat_eq,
  text_eq, length, all, All, All-append, Text, codes,
}
use nx_panel.Markers.{
  index, has_prefix, count_from, count, newline, is_name_byte, is_marker_name, marker_start,
  marker_end,
}
use nx_panel.Markers.Search.{IsLine}
use nx_panel.Markers.Index.{count-later, index-here}

abbrev pub hash : ℕ
hash = b'#'

abbrev pub IsPlain : Text → Type 0
IsPlain t = All (λ c. c ≢ hash) t

abbrev IsNameByte : ℕ → Type 0
IsNameByte c = (c ≢ hash) × (c ≢ newline)

name_byte : (c : ℕ) → is_name_byte c ≡ true → IsNameByte c
unfolding is_name_byte
name_byte c h =
    ((λ e. ground (arith, nat_beq_iff c b'-')), (λ e. ground (arith, nat_beq_iff c b'-')))

name_bytes : (t : Text) → all is_name_byte t ≡ true → IsPlain t × IsLine t
name_bytes [] h = (tt, tt)
name_bytes (c ∷ t) h =
    let here = name_byte c (ground arith) in
    let rest = name_bytes t (ground arith) in ((here.0, rest.0), (here.1, rest.1))

pub avoid : (b : ℕ) (t : Text) → all (λ c. not (c == b)) t ≡ true → All (λ c. c ≢ b) t
avoid b [] h = tt
avoid b (c ∷ t) h = ((λ e. ground (arith, nat_beq_iff c b)), avoid b t (ground arith))

-- A token is a hash and a plain line.
pub record IsToken (t : Text) : Type 0 where
  pub body : Text
  pub whole : t ≡ hash ∷ body
  pub is_plain : IsPlain body
  pub is_line : IsLine body

token :
    (name end : Text)
    → is_marker_name name ≡ true
    → IsPlain end
    → IsLine end
    → IsToken (codes "#NXPANEL-" ++ (name ++ end))
unfolding is_marker_name
token name end h p l =
    let both = name_bytes name (ground arith) in
    record {
      body = codes "NXPANEL-" ++ (name ++ end);
      whole = refl;
      is_plain =
          All-append (λ c. c ≢ hash) (codes "NXPANEL-") (name ++ end)
            (avoid hash (codes "NXPANEL-") refl) (All-append (λ c. c ≢ hash) name end both.0 p);
      is_line =
          All-append (λ c. c ≢ newline) (codes "NXPANEL-") (name ++ end)
            (avoid newline (codes "NXPANEL-") refl)
            (All-append (λ c. c ≢ newline) name end both.1 l);
    }

pub marker_start-IsToken : (name : Text) → is_marker_name name ≡ true → IsToken (marker_start name)
unfolding marker_start
marker_start-IsToken name h =
    token name (codes "-START") h (avoid hash (codes "-START") refl)
      (avoid newline (codes "-START") refl)

pub marker_end-IsToken : (name : Text) → is_marker_name name ≡ true → IsToken (marker_end name)
unfolding marker_end
marker_end-IsToken name h =
    token name (codes "-END") h (avoid hash (codes "-END") refl) (avoid newline (codes "-END") refl)

pub token-IsLine : (t : Text) → IsToken t → IsLine t
token-IsLine t k = rw k.whole ((λ e. omega arith), k.is_line)

pub token-ne : (t : Text) → IsToken t → t ≢ []
token-ne t k e = cc (k.whole, e)

no_hash : (t : Text) (c : ℕ) (s : Text) → IsToken t → c ≢ hash → has_prefix t (c ∷ s) ≡ false
unfolding has_prefix
no_hash t c s k ne = rw k.whole (ground (arith, nat_beq_iff hash c))

count-plain : (t s : Text) → IsToken t → IsPlain s → count s t ≡ 0
unfolding count count_from
count-plain t [] k p = refl
count-plain t (c ∷ s) k p = count-later t c s (no_hash t c s k p.0) ∙ count-plain t s k p.1

-- A token after plain bytes is not another one, if it does not begin with it.
pub count-other :
    (t u s : Text)
    → IsToken t
    → IsToken u
    → IsPlain s
    → has_prefix t u ≡ false
    → count (s ++ u) t ≡ 0
count-other t u [] k j p h =
    let plain = count-plain t j.body k j.is_plain in
    let later : has_prefix t (hash ∷ j.body) ≡ false = rw j.whole at h in
    rw j.whole (count-later t hash j.body later ∙ plain)
count-other t u (c ∷ s) k j p h =
    count-later t c (s ++ u) (no_hash t c (s ++ u) k p.0) ∙ count-other t u s k j p.1 h

has_prefix-common : (p x y : Text) → has_prefix (p ++ x) (p ++ y) ≡ has_prefix x y
unfolding has_prefix
has_prefix-common [] x y = refl
has_prefix-common (c ∷ p) x y = ground (arith, has_prefix-common p x y)

pub marker_end-marker_start :
    (name : Text) → has_prefix (marker_end name) (marker_start name) ≡ false
unfolding marker_start marker_end
marker_end-marker_start name =
    has_prefix-common (codes "#NXPANEL-") (name ++ codes "-END") (name ++ codes "-START")
    ∙ has_prefix-common name (codes "-END") (codes "-START")
    ∙ (unfold has_prefix in refl)

pub marker_start-marker_end :
    (name : Text) → has_prefix (marker_start name) (marker_end name) ≡ false
unfolding marker_start marker_end
marker_start-marker_end name =
    has_prefix-common (codes "#NXPANEL-") (name ++ codes "-START") (name ++ codes "-END")
    ∙ has_prefix-common name (codes "-START") (codes "-END")
    ∙ (unfold has_prefix in refl)

pub index-plain : (t s r : Text) → IsToken t → IsPlain s → index t (s ++ (t ++ r)) ≡ some (length s)
unfolding index
index-plain t [] r k p = index-here t r
index-plain t (c ∷ s) r k p = rw (no_hash t c (s ++ (t ++ r)) k p.0, index-plain t s r k p.1) refl
