-- ===== src/Upstream/Statements.antt =====
-- The statements of nginx configuration in a text (internal/upstream/validate.go): the scanner of
-- `parseStatements` and `tokenizeStatement`, and what is made with them. A quote is its byte, or 0.
use nx_panel.Base.{
  ℕ, ◌*◌, Bool, true, false, not, ◌||◌, List, [], ◌∷◌, ◌++◌, ltb, ◌==◌, nat_eq, text_eq,
  if◌then◌else◌, length, any, Text, codes, to_lower, trim_space,
}
use nx_panel.Base.Result.{Result, ok, err, ◌>>=◌, ◌>>◌, refuse_if}

pub data StatementError : Type 0 where
  nul_byte comment brace empty_statement unterminated no_semicolon : StatementError
  long_value semicolon several_statements : StatementError
  long_directives many_statements no_tokens includes managed : StatementError

abbrev pub max_advanced_bytes : ℕ
max_advanced_bytes = 16 * 1024

abbrev pub max_advanced_statements : ℕ
max_advanced_statements = 64

abbrev pub is_quote : ℕ → Bool
is_quote c = c == b'\'' || c == b'"'

-- What the loop of `parseStatements` does with a byte.
pub data Scan : Type 0 where
  fail : StatementError → Scan
  go : ℕ → Bool → Scan
  cut : Scan

unfoldable pub scan : ℕ → ℕ → Bool → Scan
scan c quote escaped =
    if c == 0
    then fail nul_byte
    else if escaped
    then go quote false
    else if c == b'\\'
    then go quote true
    else if not (quote == 0)
    then go (if c == quote then 0 else quote) false
    else if is_quote c
    then go c false
    else if c == b'#'
    then fail comment
    else if c == b'{' || c == b'}'
    then fail brace
    else if c == b';'
    then cut
    else go quote false

-- The loop from a byte on: `piece` is input[start:i].
unfoldable pub parse_from : Text → Text → ℕ → Bool → Result StatementError (List Text)
parse_from [] piece quote escaped = do
  refuse_if (not (quote == 0) || escaped) unterminated
  refuse_if (not (trim_space piece == [])) no_semicolon
  ok []
parse_from (c ∷ rest) piece quote escaped = elim (scan c quote escaped) [
  | fail problem ↦ err problem
  | go quote' escaped' ↦ parse_from rest (piece ++ (c ∷ [])) quote' escaped'
  | cut ↦ do
    refuse_if (trim_space piece == []) empty_statement
    more ← parse_from rest [] 0 false
    ok (trim_space piece ∷ more)
]

unfoldable pub parse_statements : Text → Result StatementError (List Text)
parse_statements input = parse_from input [] 0 false

abbrev pub is_blank : ℕ → Bool
is_blank c = c == b' ' || c == 9 || c == 13 || c == 10

abbrev pub flush : Text → List Text → List Text
flush token tokens = if ltb 0 (length token) then token ∷ tokens else tokens

-- What the loop of `tokenizeStatement` does with a byte: it adds it, drops it, or ends the token.
pub data Read : Type 0 where
  add : ℕ → Bool → Read
  skip : ℕ → Bool → Read
  part : Read

unfoldable pub read : ℕ → ℕ → Bool → Read
read c quote escaped =
    if escaped
    then add quote false
    else if c == b'\\'
    then skip quote true
    else if not (quote == 0)
    then (if c == quote then skip 0 false else add quote false)
    else if is_quote c
    then skip c false
    else if is_blank c
    then part
    else add quote false

unfoldable pub tokenize_from : Text → Text → ℕ → Bool → Result StatementError (List Text)
tokenize_from [] token quote escaped = do
  refuse_if (not (quote == 0) || escaped) unterminated
  ok (flush token [])
tokenize_from (c ∷ rest) token quote escaped = elim (read c quote escaped) [
  | add quote' escaped' ↦ tokenize_from rest (token ++ (c ∷ [])) quote' escaped'
  | skip quote' escaped' ↦ tokenize_from rest token quote' escaped'
  | part ↦ do more ← tokenize_from rest [] quote escaped; ok (flush token more)
]

unfoldable pub tokenize_statement : Text → Result StatementError (List Text)
tokenize_statement statement = tokenize_from statement [] 0 false

abbrev pub semi : ℕ
semi = b';'

unfoldable pub is_single : List Text → Bool
is_single (s ∷ []) = true
is_single _ = false

unfoldable pub validate_directive_fragment : Text → Result StatementError (Unit {0})
validate_directive_fragment value = do
  refuse_if (ltb 256 (length value)) long_value
  refuse_if (any (λ c. c == semi) value) semicolon
  statements ← parse_statements (value ++ (semi ∷ []))
  refuse_if (not (is_single statements)) several_statements
  ok tt

abbrev pub managed_directives : List Text
managed_directives =
    codes "server"
    ∷ codes "least_conn"
    ∷ codes "ip_hash"
    ∷ codes "hash"
    ∷ codes "random"
    ∷ codes "keepalive"
    ∷ codes "keepalive_requests"
    ∷ codes "keepalive_timeout"
    ∷ []

-- The directive of a statement, if it may stand among the advanced ones.
unfoldable pub check_directive : List Text → Result StatementError (Unit {0})
check_directive [] = err no_tokens
check_directive (token ∷ tokens) = do
  refuse_if (to_lower token == codes "include") includes
  refuse_if (any (λ m. m == to_lower token) managed_directives) managed
  ok tt

unfoldable pub write_statement : Text → Text → Text
write_statement s out = trim_space s ++ (semi ∷ 10 ∷ out)

-- The loop over the statements, with what it writes.
unfoldable pub write_statements : List Text → Result StatementError Text
write_statements [] = ok []
write_statements (s ∷ statements) = do
  tokens ← tokenize_statement s
  check_directive tokens
  out ← write_statements statements
  ok (write_statement s out)

unfoldable pub normalize_advanced_directives : Text → Result StatementError Text
normalize_advanced_directives input = do
  refuse_if (ltb max_advanced_bytes (length input)) long_directives
  statements ← parse_statements input
  refuse_if (ltb max_advanced_statements (length statements)) many_statements
  write_statements statements
