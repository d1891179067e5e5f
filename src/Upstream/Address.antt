-- ===== src/Upstream/Address.antt =====
-- Addresses of servers (`validateAddress` of internal/upstream/validate.go), with what it uses of
-- the standard library: net.SplitHostPort, net.ParseIP and strconv.Atoi. A text of ASCII bytes is
-- valid UTF-8, so that utf8.ValidString beside `isASCII` decides nothing.
use nx_panel.Domains.{dot, hyphen, starts_with, ends_with, split_at}
use nx_panel.Base.{
  ℕ, zero, suc, ◌+◌, ◌-◌, ◌*◌, ◌^◌, Bool, false, not, ◌&&◌, ◌||◌, Option, none, some, List, [], ◌∷◌,
  ltb, leb, ◌==◌, nat_eq, text_eq, if◌then◌else◌, length, take, any, all, Text, codes, is_upper,
  is_lower, is_digit, to_lower,
}
use nx_panel.Base.Int.{ℤ, pos, negsuc, ltb_ℤ}
use nx_panel.Base.Result.{Result, ok, err, ◌>>◌, refuse_if}

pub data AddressError : Type 0 where
  no_address bad_host_port bad_port no_brackets bad_ipv4 bad_hostname : AddressError

abbrev pub colon : ℕ
colon = b':'

abbrev pub is_alnum : ℕ → Bool
is_alnum c = is_upper c || is_lower c || is_digit c

abbrev pub has : ℕ → Text → Bool
has b s = any (λ c. c == b) s

abbrev pub first_is : Text → Text → Bool
first_is s p = take (length p) s == p

abbrev pub add_left : ℕ → Option (Text × Text) → Option (Text × Text)
add_left c none = none
add_left c (some (l, r)) = some (c ∷ l, r)

-- The text before and behind the first place of a byte.
unfoldable pub cut_byte : ℕ → Text → Option (Text × Text)
cut_byte b [] = none
cut_byte b (c ∷ s) = let rest = cut_byte b s in if c == b then some ([], s) else add_left c rest

-- The text before and behind the first pair of colons.
unfoldable pub cut_colons : Text → Option (Text × Text)
cut_colons [] = none
cut_colons (c ∷ []) = none
cut_colons (c ∷ d ∷ s) =
    let rest = cut_colons (d ∷ s) in
    if c == colon && d == colon then some ([], s) else add_left c rest

-- `[host]:port` behind its bracket, where the colon is the last one.
unfoldable pub bracketed : Text → Option (Text × Text)
bracketed s = elim (cut_byte b']' s) [
  | none ↦ none
  | some (host, []) ↦ none
  | some (host, c ∷ port) ↦
      if not (c == colon) || has colon port || has b'[' s || has b']' port
      then none
      else some (host, port)
]

unfoldable pub bare : Text → Option (Text × Text)
bare s = elim (cut_byte colon s) [
  | none ↦ none
  | some (host, port) ↦
      if has colon port || has b'[' s || has b']' s then none else some (host, port)
]

-- net.SplitHostPort
unfoldable pub split_host_port : Text → Option (Text × Text)
split_host_port [] = none
split_host_port (c ∷ s) = if c == b'[' then bracketed s else bare (c ∷ s)

unfoldable pub digits_value : ℕ → Text → ℕ
digits_value acc [] = acc
digits_value acc (c ∷ s) = digits_value (acc * 10 + (c - b'0')) s

-- Digits of a number, one at least.
abbrev pub is_number : Text → Bool
is_number s = ltb 0 (length s) && all is_digit s

abbrev pub max_int : ℕ
max_int = 2 ^ 63 - 1

abbrev pub to_neg : ℕ → ℤ
to_neg zero = pos 0
to_neg (suc n) = negsuc n

-- strconv.Atoi; an `int` has 64 bits.
unfoldable pub atoi : Text → Option ℤ
atoi [] = none
atoi (c ∷ s) =
    if c == b'-'
    then if is_number s && leb (digits_value 0 s) (max_int + 1)
      then some (to_neg (digits_value 0 s))
      else none
    else let digits = if c == b'+' then s else c ∷ s in
      if is_number digits && leb (digits_value 0 digits) max_int
      then some (pos (digits_value 0 digits))
      else none

unfoldable pub is_octet : Text → Bool
is_octet s =
    is_number s
    && (leb (length s) 3
        && (leb (digits_value 0 s) 255 && (length s == 1 || not (starts_with b'0' s))))

unfoldable pub is_ipv4 : Text → Bool
is_ipv4 s = let fields = split_at dot s in length fields == 4 && all is_octet fields

abbrev pub is_hex : ℕ → Bool
is_hex c = is_digit c || (leb b'a' c && leb c b'f') || (leb b'A' c && leb c b'F')

unfoldable pub is_hextet : Text → Bool
is_hextet s = ltb 0 (length s) && (leb (length s) 4 && all is_hex s)

-- The number of 16-bit fields, of which an IPv4 address at the end makes two.
unfoldable pub count_fields : List Text → Option ℕ
count_fields [] = none
count_fields (f ∷ []) = if is_hextet f then some 1 else if is_ipv4 f then some 2 else none
count_fields (f ∷ g ∷ fs) =
    let rest = count_fields (g ∷ fs) in
    if is_hextet f then elim rest [ none ↦ none | some n ↦ some (suc n) ] else none

unfoldable pub fields_of : Text → Option ℕ
fields_of s = if s == [] then some 0 else count_fields (split_at colon s)

unfoldable pub hextets_of : Text → Option ℕ
hextets_of s =
    if s == []
    then some 0
    else let fields = split_at colon s in
      if all is_hextet fields then some (length fields) else none

unfoldable pub is_ipv6 : Text → Bool
is_ipv6 s = elim (cut_colons s) [
  | none ↦ elim (fields_of s) [ none ↦ false | some n ↦ n == 8 ]
  | some (l, r) ↦ elim (hextets_of l) [
    | none ↦ false
    | some n ↦ elim (fields_of r) [ none ↦ false | some k ↦ leb (n + k) 7 ]
  ]
]

-- net.ParseIP(s) != nil
unfoldable pub is_ip : Text → Bool
is_ip s = is_ipv4 s || is_ipv6 s

unfoldable pub is_numeric_dotted_host : Text → Bool
is_numeric_dotted_host host = has dot host && all (λ c. is_digit c || c == dot) host

unfoldable pub is_ascii : Text → Bool
is_ascii value = all (λ c. leb c 127) value

abbrev pub is_host_byte : ℕ → Bool
is_host_byte c = is_alnum c || c == dot || c == hyphen

unfoldable pub last_is_alnum : Text → Bool
last_is_alnum [] = false
last_is_alnum (c ∷ []) = is_alnum c
last_is_alnum (c ∷ d ∷ s) = last_is_alnum (d ∷ s)

-- ^[A-Za-z0-9](?:[A-Za-z0-9.-]{0,251}[A-Za-z0-9])?$
unfoldable pub is_hostname : Text → Bool
is_hostname [] = false
is_hostname (c ∷ s) =
    is_alnum c && (leb (length s) 252 && (all is_host_byte s && last_is_alnum (c ∷ s)))

unfoldable pub has_two_dots : Text → Bool
has_two_dots [] = false
has_two_dots (c ∷ []) = false
has_two_dots (c ∷ d ∷ s) = (c == dot && d == dot) || has_two_dots (d ∷ s)

unfoldable pub is_bad_label : Text → Bool
is_bad_label label =
    label == [] || ltb 63 (length label) || starts_with hyphen label || ends_with hyphen label

unfoldable pub has_bracket_colon : Text → Bool
has_bracket_colon [] = false
has_bracket_colon (c ∷ []) = false
has_bracket_colon (c ∷ d ∷ s) = (c == b']' && d == colon) || has_bracket_colon (d ∷ s)

unfoldable pub validate_host : Text → Text → Result AddressError (Unit {0})
validate_host address host =
    if is_ip host
    then refuse_if
        (has colon host && (not (starts_with b'[' address) || not (has_bracket_colon address)))
        no_brackets
    else do
      refuse_if (is_numeric_dotted_host host) bad_ipv4
      refuse_if (not (is_ascii host) || not (is_hostname host) || has_two_dots host) bad_hostname
      refuse_if (any is_bad_label (split_at dot host)) bad_hostname
      ok tt

abbrev pub port_in_range : Option ℤ → Bool
port_in_range none = false
port_in_range (some port) = not (ltb_ℤ port (pos 1) || ltb_ℤ (pos 65535) port)

unfoldable pub validate_address : Text → Result AddressError (Unit {0})
validate_address address = do
  refuse_if (address == [] || first_is (to_lower address) (codes "unix:")) no_address
  elim (split_host_port address) [
    | none ↦ err bad_host_port
    | some (host, port) ↦ do
      refuse_if (host == []) bad_host_port
      refuse_if (not (port_in_range (atoi port))) bad_port
      validate_host address host
  ]
