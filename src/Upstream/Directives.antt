-- ===== src/Upstream/Directives.antt =====
-- The directives of an upstream as statements on their own (internal/upstream/render.go).
use mathlib.Core.Path.{subst}
use nx_panel.Upstream.Statements.{validate_directive_fragment}
use nx_panel.Upstream.Scan.{quiet, quiet-append}
use nx_panel.Upstream.RoundTrip.{IsStatement}
use nx_panel.Upstream.Address.{validate_address}
use nx_panel.Upstream.Plain.{is_plain, quiet-plain, validate_address-Plain}
use nx_panel.Upstream.Trim.{all-append}
use nx_panel.Upstream.Ends.{
  IsEnd, trim_space-IsEnd, IsEnd-trim_space, IsEnd-append, IsEnd-solid, is_solid,
  validate_directive_fragment-closed,
}
use nx_panel.Upstream.Render.{
  NginxUpstreamServer, NginxUpstream, digits, decimal_nat, decimal, on, positive,
}
use nx_panel.Upstream.Rendered.{algorithm_statements, server_statement, keepalive_statements, maybe}
use nx_panel.Base.{
  ℕ, zero, suc, ◌+◌, ◌/◌, ◌%◌, ◌<◌, ◌≡◌, refl, sym, ap, ◌∙◌, ◌≢◌, ◌⊎◌, inl, inr, Bool, true, false,
  List, [], ◌∷◌, ◌++◌, map, append-nil, append_assoc, arith, ltb, ◌==◌, nat_eq, text_eq,
  text_beq_iff, Bool-cases, all, All, All-append, Text, codes, is_space, trim_left, trim_space,
}
use nx_panel.Base.Int.{ℤ, pos, negsuc}
use nx_panel.Base.Result.{ok}

-- A text as a statement, from where it begins, what it holds and where it ends.
record IsSolid (s : Text) : Type 0 where
  plain : all is_plain s ≡ true
  solid : all is_solid s ≡ true
  some_byte : s ≢ []

digit_byte : (d : ℕ) → d < 10 → (is_plain (b'0' + d) ≡ true) × (is_solid (b'0' + d) ≡ true)
digit_byte d h = (ground arith, ground arith)

pub append-ne : (s t : Text) → t ≢ [] → s ++ t ≢ []
append-ne [] t h = h
append-ne (c ∷ s) t h = λ e. cc e

left-ne : (s t : Text) → s ≢ [] → s ++ t ≢ []
left-ne [] t h = absurd (h refl)
left-ne (c ∷ s) t h = λ e. cc e

pub ne-append : (s : Text) (c : ℕ) → s ++ (c ∷ []) ≢ []
ne-append [] c e = cc e
ne-append (d ∷ s) c e = cc e

digits-one : (fuel n : ℕ) → ltb n 10 ≡ true → digits (suc fuel) n ≡ (b'0' + n) ∷ []
unfolding digits
digits-one fuel n one = ground arith

digits-more :
    (fuel n : ℕ)
    → ltb n 10 ≡ false
    → digits (suc fuel) n ≡ digits fuel (n / 10) ++ ((b'0' + n % 10) ∷ [])
unfolding digits
digits-more fuel n more = ground arith

digits-bytes :
    (fuel n : ℕ) → (all is_plain (digits fuel n) ≡ true) × (all is_solid (digits fuel n) ≡ true)
digits-bytes zero n = unfold digits in (refl, refl)
digits-bytes (suc fuel) n = elim (Bool-cases (ltb n 10)) [
  | inl one ↦ rw (digits-one fuel n one) (ground (arith, digit_byte n))
  | inr more ↦
      let (plain, solid) = digits-bytes fuel (n / 10) in
      let (p, q) = digit_byte (n % 10) (omega arith) in
      rw (digits-more fuel n more) (
        all-append is_plain (digits fuel (n / 10)) ((b'0' + n % 10) ∷ []) plain (ground arith),
        all-append is_solid (digits fuel (n / 10)) ((b'0' + n % 10) ∷ []) solid (ground arith),
      )
]

digits-IsSolid : (fuel n : ℕ) → IsSolid (digits (suc fuel) n)
digits-IsSolid fuel n = record {
  plain = (digits-bytes (suc fuel) n).0;
  solid = (digits-bytes (suc fuel) n).1;
  some_byte = elim (Bool-cases (ltb n 10)) [
    | inl one ↦ rw (digits-one fuel n one) (λ e. cc e)
    | inr more ↦ rw (digits-more fuel n more) (ne-append (digits fuel (n / 10)) (b'0' + n % 10))
  ];
}

decimal-IsSolid : (n : ℤ) → IsSolid (decimal n)
unfolding decimal decimal_nat
decimal-IsSolid (pos n) = digits-IsSolid n n
decimal-IsSolid (negsuc n) =
    let d = digits-IsSolid (suc n) (suc n) in
    record { plain = d.plain; solid = d.solid; some_byte = λ e. cc e }

plain-IsStatement :
    (s : Text) → trim_left s ≡ s → IsEnd s → s ≢ [] → all is_plain s ≡ true → IsStatement s
plain-IsStatement s first last ne plain = record {
  trimmed = trim_space-IsEnd s first last;
  some_byte = ne;
  closed = quiet-plain s plain;
}

-- A word, a number and what follows them.
IsTail : Text → Type 0
IsTail t = IsEnd t × ((t ≢ []) × (all is_plain t ≡ true))

word-IsTail :
    (c : ℕ) (word middle t : Text)
    → all is_plain (c ∷ word) ≡ true
    → all is_plain middle ≡ true
    → IsTail t
    → IsTail ((c ∷ word) ++ (middle ++ t))
unfolding IsTail
word-IsTail c word middle t w m h = (
  IsEnd-append (c ∷ word) (middle ++ t) (IsEnd-append middle t h.0 h.1.0)
      (append-ne middle t h.1.0),
  (
    (λ e. cc e),
    all-append is_plain (c ∷ word) (middle ++ t) w (all-append is_plain middle t m h.1.1),
  ),
)

server-IsTail :
    (b d : Bool) → IsTail (codes "s" ++ (on b (codes " backup") ++ on d (codes " down")))
unfolding trim_left IsTail
server-IsTail false false = (refl, ((λ e. cc e), refl))
server-IsTail false true = (refl, ((λ e. cc e), refl))
server-IsTail true false = (refl, ((λ e. cc e), refl))
server-IsTail true true = (refl, ((λ e. cc e), refl))

pub server_statement-IsStatement :
    (s : NginxUpstreamServer)
    → validate_address s.address ≡ ok tt
    → IsStatement (server_statement s)
unfolding server_statement trim_left IsTail
server_statement-IsStatement s h =
    let timeout =
      word-IsTail b' ' (codes "fail_timeout=") (decimal s.fail_timeout_seconds) _ refl
        (decimal-IsSolid s.fail_timeout_seconds).plain (server-IsTail s.backup s.down) in
    let fails =
      word-IsTail b' ' (codes "max_fails=") (decimal s.max_fails) _ refl
        (decimal-IsSolid s.max_fails).plain timeout in
    let weight =
      word-IsTail b' ' (codes "weight=") (decimal s.weight) _ refl (decimal-IsSolid s.weight).plain
        fails in
    let whole =
      word-IsTail b's' (codes "erver ") s.address _ refl (validate_address-Plain s.address h)
        weight in
    plain-IsStatement (server_statement s) refl whole.0 whole.1.0 whole.1.1

pub servers-IsStatement :
    (servers : List NginxUpstreamServer)
    → All (λ s. validate_address s.address ≡ ok tt) servers
    → All IsStatement (map server_statement servers)
servers-IsStatement [] h = tt
servers-IsStatement (s ∷ servers) h =
    (server_statement-IsStatement s h.0, servers-IsStatement servers h.1)

-- `name n` and `name ns`
number-IsStatement :
    (c : ℕ) (word : Text) (n : ℤ) (tail : Text)
    → is_space c ≡ false
    → all is_plain (c ∷ word) ≡ true
    → (all is_plain tail ≡ true) × (all is_solid tail ≡ true)
    → IsStatement ((c ∷ word) ++ (decimal n ++ tail))
number-IsStatement c word n tail first w t =
    let d = decimal-IsSolid n in
    let solid = all-append is_solid (decimal n) tail d.solid t.1 in
    let ne : decimal n ++ tail ≢ [] = left-ne (decimal n) tail d.some_byte in
    plain-IsStatement ((c ∷ word) ++ (decimal n ++ tail)) (unfold trim_left in rw first refl)
      (IsEnd-append (c ∷ word) (decimal n ++ tail) (IsEnd-solid (decimal n ++ tail) solid) ne)
      (λ e. cc e)
      (all-append is_plain (c ∷ word) (decimal n ++ tail) w
        (all-append is_plain (decimal n) tail d.plain t.0))

maybe-IsStatement : (flag : Bool) (s : Text) → IsStatement s → All IsStatement (maybe flag s)
maybe-IsStatement true s h = (h, tt)
maybe-IsStatement false s h = tt

pub keepalive_statements-IsStatement :
    (u : NginxUpstream) → All IsStatement (keepalive_statements u)
unfolding keepalive_statements
keepalive_statements-IsStatement u =
    let nothing : Text = [] in
    All-append IsStatement _ _
      (maybe-IsStatement (positive u.keepalive) _ (
        subst IsStatement (ap (λ t. codes "keepalive " ++ t) (append-nil (decimal u.keepalive)))
          (number-IsStatement b'k' (codes "eepalive ") u.keepalive nothing refl refl (refl, refl))))
      (All-append IsStatement _ _
        (maybe-IsStatement (positive u.keepalive_requests) _ (
          subst IsStatement
            (ap (λ t. codes "keepalive_requests " ++ t) (append-nil (decimal u.keepalive_requests)))
            (number-IsStatement b'k' (codes "eepalive_requests ") u.keepalive_requests nothing refl
              refl (refl, refl))))
        (maybe-IsStatement (positive u.keepalive_timeout_seconds) _ (
          number-IsStatement b'k' (codes "eepalive_timeout ") u.keepalive_timeout_seconds
            (codes "s") refl refl (refl, refl))))

-- The key of a hash, where that is the algorithm.
abbrev pub HasHashKey : NginxUpstream → Type 0
HasHashKey u =
    (u.algorithm ≢ codes "hash")
    ⊎ ((trim_space u.hash_key ≡ u.hash_key)
        × ((u.hash_key ≢ []) × (validate_directive_fragment u.hash_key ≡ ok tt)))

hash_key-IsStatement :
    (key : Text) (consistent : Bool)
    → trim_space key ≡ key
    → key ≢ []
    → validate_directive_fragment key ≡ ok tt
    → IsStatement (codes "hash " ++ (key ++ on consistent (codes " consistent")))
hash_key-IsStatement key consistent trimmed ne fragment =
    let word : Text = codes " consistent" in
    let key_end = IsEnd-trim_space key trimmed in
    let closed = validate_directive_fragment-closed key fragment in
    let hash_key_closed =
      quiet-append (codes "hash ") key 0 false (0, false) (quiet-plain (codes "hash ") refl)
      ∙ closed in
    elim consistent as (λ b. IsStatement (codes "hash " ++ (key ++ on b word))) [
      | true ↦ record {
        trimmed = trim_space-IsEnd (codes "hash " ++ (key ++ word)) (unfold trim_left in refl) (
            IsEnd-append (codes "hash ") (key ++ word)
              (IsEnd-append key word (unfold trim_left in refl) (λ e. cc e)) (left-ne key word ne));
        some_byte = λ e. cc e;
        closed =
            ap (λ t. quiet t 0 false) (sym (append_assoc (codes "hash ") key word))
            ∙ quiet-append (codes "hash " ++ key) word 0 false (0, false) hash_key_closed
            ∙ quiet-plain word refl;
      }
      | false ↦ subst IsStatement (ap (λ t. codes "hash " ++ t) (sym (append-nil key))) (record {
        trimmed =
            trim_space-IsEnd (codes "hash " ++ key) (unfold trim_left in refl)
              (IsEnd-append (codes "hash ") key key_end ne);
        some_byte = λ e. cc e;
        closed = hash_key_closed;
      })
    ]

least_conn-IsStatement : IsStatement (codes "least_conn")
least_conn-IsStatement =
    unfold trim_left in plain-IsStatement (codes "least_conn") refl refl (λ e. cc e) refl

ip_hash-IsStatement : IsStatement (codes "ip_hash")
ip_hash-IsStatement =
    unfold trim_left in plain-IsStatement (codes "ip_hash") refl refl (λ e. cc e) refl

pub algorithm_statements-IsStatement :
    (u : NginxUpstream) → HasHashKey u → All IsStatement (algorithm_statements u)
unfolding algorithm_statements
algorithm_statements-IsStatement u h = elim (Bool-cases (u.algorithm == codes "least_conn")) [
  | inl least ↦ rw least (least_conn-IsStatement, tt)
  | inr other ↦ elim (Bool-cases (u.algorithm == codes "ip_hash")) [
    | inl ip ↦ rw (other, ip) (ip_hash-IsStatement, tt)
    | inr neither ↦ elim (Bool-cases (u.algorithm == codes "hash")) [
      | inl hash ↦ elim h [
        | inl no_hash ↦ absurd (no_hash ((text_beq_iff u.algorithm (codes "hash")).0 hash))
        | inr key ↦
            rw (other, neither, hash)
              (hash_key-IsStatement u.hash_key u.consistent key.0 key.1.0 key.1.1, tt)
      ]
      | inr none_is ↦ rw (other, neither, none_is) tt
    ]
  ]
]
