-- ===== src/Upstream/Plain.antt =====
-- The bytes of addresses that are accepted (`validateAddress` of internal/upstream/validate.go).
use nx_panel.Domains.{dot, hyphen, split_at, first_of}
use nx_panel.Upstream.Statements.{scan}
use nx_panel.Upstream.Scan.{quiet, quiet-go, quiet-nil}
use nx_panel.Upstream.Trim.{all-append}
use nx_panel.Upstream.Address.{
  no_address, bad_host_port, bad_port, bad_ipv4, bad_hostname, colon, is_alnum, first_is, add_left,
  cut_byte, cut_colons, bracketed, bare, split_host_port, is_number, atoi, port_in_range, is_octet,
  is_ipv4, is_hex, is_hextet, count_fields, fields_of, hextets_of, is_ipv6, is_ip,
  is_numeric_dotted_host, is_ascii, is_host_byte, is_hostname, has_two_dots, validate_host,
  validate_address,
}
use nx_panel.Base.{
  ℕ, ◌≡◌, refl, sym, ap, ◌∙◌, inl, inr, Bool, true, false, not, ◌&&◌, ◌||◌, Option, none, some,
  List, [], ◌∷◌, ◌++◌, arith, nat_beq_iff, ◌==◌, nat_eq, text_eq, text_beq, Bool-cases,
  Option-cases, all, All, Text, codes, is_digit, to_lower,
}
use nx_panel.Base.Result.{ok, ◌>>◌, refuse_if, refuse_if-eq-ok}

-- A byte that means the same to the parser of statements wherever it stands outside quotes.
abbrev pub is_plain : ℕ → Bool
is_plain c =
    is_alnum c
    || c == dot
    || c == hyphen
    || c == colon
    || c == b'['
    || c == b']'
    || c == b'+'
    || c == b' '
    || c == b'='
    || c == b'_'

pub quiet-plain : (s : Text) → all is_plain s ≡ true → quiet s 0 false ≡ some (0, false)
quiet-plain [] h = quiet-nil (0, false)
quiet-plain (c ∷ s) h =
    quiet-go c s 0 false (0, false) (unfold scan in ground arith) ∙ quiet-plain s (ground arith)

add_left-some :
    (c : ℕ) (o : Option (Text × Text)) (l r : Text)
    → add_left c o ≡ some (l, r)
    → (l' : Text) × ((l ≡ c ∷ l') × (o ≡ some (l', r)))
add_left-some c none l r h = absurd (cc h)
add_left-some c (some (l', r')) l r h = (l', (ground arith, ground arith))

cut_byte-whole : (b : ℕ) (s l r : Text) → cut_byte b s ≡ some (l, r) → s ≡ l ++ (b ∷ r)
unfolding cut_byte
cut_byte-whole b [] l r h = absurd (cc h)
cut_byte-whole b (c ∷ s) l r h = elim (Bool-cases (c == b)) [
  | inl same ↦ ground (arith, nat_beq_iff c b)
  | inr other ↦
      let h' = rw other at h in
      let (l', (is_l, later)) = add_left-some c (cut_byte b s) l r h' in
      ap (λ t. c ∷ t) (cut_byte-whole b s l' r later) ∙ ap (λ t. t ++ (b ∷ r)) (sym is_l)
]

all-first_of :
    (p : ℕ → Bool) (c : ℕ) (parts : List Text)
    → All (λ f. all p f ≡ true) (first_of c parts)
    → (p c ≡ true) × All (λ f. all p f ≡ true) parts
all-first_of p c [] h = (ground arith, tt)
all-first_of p c (f ∷ parts) h = (ground arith, (ground arith, h.1))

all-split_at :
    (p : ℕ → Bool) (b : ℕ) (s : Text)
    → p b ≡ true
    → All (λ f. all p f ≡ true) (split_at b s)
    → all p s ≡ true
unfolding split_at
all-split_at p b [] sep h = refl
all-split_at p b (c ∷ s) sep h = elim (Bool-cases (c == b)) [
  | inl same ↦ let h' = rw same at h in ground (arith, nat_beq_iff c b, all-split_at p b s sep h'.1)
  | inr other ↦
      let h' = rw other at h in
      let (first, rest) = all-first_of p c (split_at b s) h' in
      ground (arith, all-split_at p b s sep rest)
]

pub all-weaken :
    (p q : ℕ → Bool) (s : Text)
    → ((c : ℕ) → p c ≡ true → q c ≡ true)
    → all p s ≡ true
    → all q s ≡ true
all-weaken p q [] w h = refl
all-weaken p q (c ∷ s) w h = ground (arith, w c, all-weaken p q s w)

abbrev Plain : Text → Type 0
Plain s = all is_plain s ≡ true

pub digit-plain : (c : ℕ) → is_digit c ≡ true → is_plain c ≡ true
digit-plain c h = ground arith

hex-plain : (c : ℕ) → is_hex c ≡ true → is_plain c ≡ true
hex-plain c h = ground arith

host_byte-plain : (c : ℕ) → is_host_byte c ≡ true → is_plain c ≡ true
host_byte-plain c h = ground arith

is_octet-Plain : (s : Text) → is_octet s ≡ true → Plain s
unfolding is_octet
is_octet-Plain s h = all-weaken is_digit is_plain s digit-plain (ground arith)

is_hextet-Plain : (s : Text) → is_hextet s ≡ true → Plain s
unfolding is_hextet
is_hextet-Plain s h = all-weaken is_hex is_plain s hex-plain (ground arith)

octets-Plain : (fs : List Text) → all is_octet fs ≡ true → All Plain fs
octets-Plain [] h = tt
octets-Plain (f ∷ fs) h = (is_octet-Plain f (ground arith), octets-Plain fs (ground arith))

hextets-Plain : (fs : List Text) → all is_hextet fs ≡ true → All Plain fs
hextets-Plain [] h = tt
hextets-Plain (f ∷ fs) h = (is_hextet-Plain f (ground arith), hextets-Plain fs (ground arith))

is_ipv4-Plain : (s : Text) → is_ipv4 s ≡ true → Plain s
unfolding is_ipv4
is_ipv4-Plain s h = all-split_at is_plain dot s refl (octets-Plain (split_at dot s) (ground arith))

field-Plain : (f : Text) → (is_hextet f || is_ipv4 f) ≡ true → Plain f
field-Plain f h = elim (Bool-cases (is_hextet f)) [
  | inl hex ↦ is_hextet-Plain f hex
  | inr other ↦ is_ipv4-Plain f (ground arith)
]

count_fields-Plain : (fs : List Text) (n : ℕ) → count_fields fs ≡ some n → All Plain fs
unfolding count_fields
count_fields-Plain [] n h = tt
count_fields-Plain (f ∷ []) n h = (field-Plain f (ground arith), tt)
count_fields-Plain (f ∷ g ∷ fs) n h = elim (Option-cases (count_fields (g ∷ fs))) [
  | inl none_is ↦ absurd (ground arith)
  | inr (k, some_is) ↦ (field-Plain f (ground arith), count_fields-Plain (g ∷ fs) k some_is)
]

fields_of-Plain : (s : Text) (n : ℕ) → fields_of s ≡ some n → Plain s
unfolding fields_of
fields_of-Plain [] n h = refl
fields_of-Plain (c ∷ s) n h =
    all-split_at is_plain colon (c ∷ s) refl
      (count_fields-Plain (split_at colon (c ∷ s)) n (unfold text_beq in h))

hextets_of-Plain : (s : Text) (n : ℕ) → hextets_of s ≡ some n → Plain s
unfolding hextets_of text_beq
hextets_of-Plain [] n h = refl
hextets_of-Plain (c ∷ s) n h =
    all-split_at is_plain colon (c ∷ s) refl (hextets-Plain (split_at colon (c ∷ s)) (ground arith))

cut_colons-whole : (s l r : Text) → cut_colons s ≡ some (l, r) → s ≡ l ++ (colon ∷ colon ∷ r)
unfolding cut_colons
cut_colons-whole [] l r h = absurd (cc h)
cut_colons-whole (c ∷ []) l r h = absurd (cc h)
cut_colons-whole (c ∷ d ∷ s) l r h = elim (Bool-cases (c == colon && d == colon)) [
  | inl same ↦ ground (arith, nat_beq_iff c colon, nat_beq_iff d colon)
  | inr other ↦
      let h' = rw other at h in
      let (l', (is_l, later)) = add_left-some c (cut_colons (d ∷ s)) l r h' in
      ap (λ t. c ∷ t) (cut_colons-whole (d ∷ s) l' r later)
      ∙ ap (λ t. t ++ (colon ∷ colon ∷ r)) (sym is_l)
]

is_ipv6-Plain : (s : Text) → is_ipv6 s ≡ true → Plain s
unfolding is_ipv6
is_ipv6-Plain s h = elim (Option-cases (cut_colons s)) [
  | inl none_is ↦ elim (Option-cases (fields_of s)) [
    | inl no_fields ↦ absurd (ground arith)
    | inr (n, fields) ↦ fields_of-Plain s n fields
  ]
  | inr ((l, r), some_is) ↦ elim (Option-cases (hextets_of l)) [
    | inl no_left ↦ absurd (ground arith)
    | inr (n, left) ↦ elim (Option-cases (fields_of r)) [
      | inl no_right ↦ absurd (ground arith)
      | inr (k, right) ↦
          ap (all is_plain) (cut_colons-whole s l r some_is)
          ∙ all-append is_plain l (colon ∷ colon ∷ r) (hextets_of-Plain l n left)
              (ground (arith, fields_of-Plain r k right))
    ]
  ]
]

is_ip-Plain : (s : Text) → is_ip s ≡ true → Plain s
unfolding is_ip
is_ip-Plain s h = elim (Bool-cases (is_ipv4 s)) [
  | inl v4 ↦ is_ipv4-Plain s v4
  | inr other ↦ is_ipv6-Plain s (ground arith)
]

is_hostname-Plain : (s : Text) → is_hostname s ≡ true → Plain s
unfolding is_hostname
is_hostname-Plain [] h = refl
is_hostname-Plain (c ∷ s) h =
    ground (arith, all-weaken is_host_byte is_plain s host_byte-plain (ground arith))

validate_host-Plain : (address host : Text) → validate_host address host ≡ ok tt → Plain host
unfolding validate_host
validate_host-Plain address host h = elim (Bool-cases (is_ip host)) [
  | inl ip ↦ is_ip-Plain host ip
  | inr other ↦
      let (_, h1) = refuse_if-eq-ok (is_numeric_dotted_host host) bad_ipv4 _ (rw other at h) in
      let (named, _) =
        refuse_if-eq-ok (not (is_ascii host) || not (is_hostname host) || has_two_dots host)
          bad_hostname _ h1 in
      is_hostname-Plain host (ground arith)
]

is_number-Plain : (s : Text) → is_number s ≡ true → Plain s
is_number-Plain s h = all-weaken is_digit is_plain s digit-plain (ground arith)

atoi-Plain : (s : Text) → port_in_range (atoi s) ≡ true → Plain s
unfolding atoi
atoi-Plain [] h = refl
atoi-Plain (c ∷ s) h = elim (Bool-cases (c == b'-')) [
  | inl minus ↦ elim (Bool-cases (is_number s)) [
    | inl number ↦ ground (arith, nat_beq_iff c b'-', is_number-Plain s number)
    | inr other ↦ absurd (ground arith)
  ]
  | inr other ↦ elim (Bool-cases (c == b'+')) [
    | inl plus ↦ elim (Bool-cases (is_number s)) [
      | inl number ↦ ground (arith, nat_beq_iff c b'+', is_number-Plain s number)
      | inr none_is ↦ absurd (ground arith)
    ]
    | inr digit ↦ elim (Bool-cases (is_number (c ∷ s))) [
      | inl number ↦ is_number-Plain (c ∷ s) number
      | inr none_is ↦ absurd (ground arith)
    ]
  ]
]

-- The host and the port of an address, put together.
bracketed-Plain :
    (s host port : Text) → bracketed s ≡ some (host, port) → Plain host → Plain port → Plain s
unfolding bracketed
bracketed-Plain s host port h p q = elim (Option-cases (cut_byte b']' s)) [
  | inl none_is ↦ absurd (ground arith)
  | inr ((l, []), some_is) ↦ absurd (ground arith)
  | inr ((l, c ∷ r), some_is) ↦
      ap (all is_plain) (cut_byte-whole b']' s l (c ∷ r) some_is)
      ∙ all-append is_plain l (b']' ∷ c ∷ r) (ground arith) (ground (arith, nat_beq_iff c colon))
]

bare-Plain : (s host port : Text) → bare s ≡ some (host, port) → Plain host → Plain port → Plain s
unfolding bare
bare-Plain s host port h p q = elim (Option-cases (cut_byte colon s)) [
  | inl none_is ↦ absurd (ground arith)
  | inr ((l, r), some_is) ↦
      ap (all is_plain) (cut_byte-whole colon s l r some_is)
      ∙ all-append is_plain l (colon ∷ r) (ground arith) (ground arith)
]

split_host_port-Plain :
    (s host port : Text) → split_host_port s ≡ some (host, port) → Plain host → Plain port → Plain s
unfolding split_host_port
split_host_port-Plain [] host port h p q = refl
split_host_port-Plain (c ∷ s) host port h p q = elim (Bool-cases (c == b'[')) [
  | inl open_is ↦ let h' = rw open_is at h in ground (arith, bracketed-Plain s host port h' p q)
  | inr other ↦ let h' = rw other at h in bare-Plain (c ∷ s) host port h' p q
]

split_ok-Plain :
    (address host port : Text)
    → split_host_port address ≡ some (host, port)
    → (refuse_if (host == []) bad_host_port
        >> (refuse_if (not (port_in_range (atoi port))) bad_port >> validate_host address host))
      ≡ ok tt
    → Plain address
split_ok-Plain address host port some_is h =
    let (_, h1) = refuse_if-eq-ok (host == []) bad_host_port _ h in
    let (in_range, h2) = refuse_if-eq-ok (not (port_in_range (atoi port))) bad_port _ h1 in
    split_host_port-Plain address host port some_is (validate_host-Plain address host h2)
      (atoi-Plain port (ground arith))

pub validate_address-Plain : (address : Text) → validate_address address ≡ ok tt → Plain address
unfolding validate_address
validate_address-Plain address h =
    let (_, h1) =
      refuse_if-eq-ok (address == [] || first_is (to_lower address) (codes "unix:")) no_address _
        h in
    elim (Option-cases (split_host_port address)) [
      | inl none_is ↦ absurd (ground arith)
      | inr ((host, port), some_is) ↦ split_ok-Plain address host port some_is (ground arith)
    ]
