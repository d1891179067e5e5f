-- ===== src/Upstream/Save.antt =====
-- The check of a request that saves an upstream (`NormalizeAndValidate` of
-- internal/upstream/validate.go). The request that it changes in place is the value it returns.
use nx_panel.Upstream.{
  ServerRequest, SaveRequest, max_servers, max_keepalive, max_keepalive_requests,
  max_keepalive_timeout_sec,
}
use nx_panel.Upstream.Statements.{
  StatementError, validate_directive_fragment, normalize_advanced_directives,
}
use nx_panel.Upstream.Address.{AddressError, is_alnum, validate_address}
use nx_panel.Base.{
  ℕ, ◌+◌, Bool, false, not, ◌&&◌, ◌||◌, List, [], ◌∷◌, ltb, leb, ◌==◌, nat_eq, text_eq,
  if◌then◌else◌, length, any, all, Text, codes, is_digit, to_lower, trim_space,
}
use nx_panel.Base.Int.{ℤ, pos, negsuc, ltb_ℤ}
use nx_panel.Base.Result.{Result, ok, err, ◌>>=◌, ◌>>◌, refuse_if}

pub data SaveError : Type 0 where
  bad_name unknown_algorithm no_hash_key not_hash : SaveError
  bad_hash_key : StatementError → SaveError
  keepalive_limit keepalive_missing servers_limit : SaveError
  bad_address : AddressError → SaveError
  duplicate_address server_limit sort_order_limit backup_and_down backup_unsupported : SaveError
  no_primary : SaveError
  bad_directives : StatementError → SaveError

-- fmt.Errorf("...: %w", err)
abbrev pub wrap_error : {E F A : Type 0} → (E → F) → Result E A → Result F A
wrap_error f (ok a) = ok a
wrap_error f (err e) = err (f e)

abbrev pub is_word_byte : ℕ → Bool
is_word_byte c = is_alnum c || c == b'_'

-- ^[A-Za-z_][A-Za-z0-9_]{0,62}$
unfoldable pub is_upstream_name : Text → Bool
is_upstream_name [] = false
is_upstream_name (c ∷ s) =
    (is_word_byte c && not (is_digit c)) && (leb (length s) 62 && all is_word_byte s)

abbrev pub is_zero : ℤ → Bool
is_zero n = not (ltb_ℤ n (pos 0)) && not (ltb_ℤ (pos 0) n)

-- n < low || n > high
abbrev pub outside : ℤ → ℤ → ℤ → Bool
outside low high n = ltb_ℤ n low || ltb_ℤ high n

-- A setting that is zero takes its default.
abbrev pub or_default : ℤ → ℤ → ℤ
or_default default n = if is_zero n then default else n

unfoldable pub fill_server : ServerRequest → ServerRequest
fill_server s = record s {
  address = trim_space s.address;
  weight = or_default (pos 1) s.weight;
  fail_timeout_seconds = or_default (pos 10) s.fail_timeout_seconds;
}

abbrev pub no_backups : Text → Bool
no_backups algorithm = algorithm == codes "ip_hash" || algorithm == codes "hash"

-- The checks of one server, in the loop's order, with the addresses seen so far.
unfoldable pub check_server : Text → List Text → ServerRequest → Result SaveError (Unit {0})
check_server algorithm seen s = do
  wrap_error bad_address (validate_address s.address)
  refuse_if (any (λ a. a == to_lower s.address) seen) duplicate_address
  refuse_if
      (outside (pos 1) (pos 256) s.weight
        || (outside (pos 0) (pos 100) s.max_fails
            || outside (pos 1) (pos 3600) s.fail_timeout_seconds))
      server_limit
  refuse_if (outside (negsuc 99999) (pos 100000) s.sort_order) sort_order_limit
  refuse_if (s.backup && s.down) backup_and_down
  refuse_if (s.backup && no_backups algorithm) backup_unsupported
  ok tt

abbrev pub is_active : ServerRequest → Bool
is_active s = not s.backup && not s.down

-- The loop over the servers: the filled servers, and whether `activePrimary` is above 0.
unfoldable pub check_servers :
    Text → List Text → List ServerRequest → Result SaveError (List ServerRequest × ℕ)
check_servers algorithm seen [] = ok ([], 0)
check_servers algorithm seen (given ∷ servers) =
    let s = fill_server given in
    do
      check_server algorithm seen s
      (more, active) ← check_servers algorithm (to_lower s.address ∷ seen) servers
      ok (s ∷ more, if is_active s then active + 1 else active)

abbrev pub algorithms : List Text
algorithms = codes "round_robin" ∷ codes "least_conn" ∷ codes "ip_hash" ∷ codes "hash" ∷ []

unfoldable pub check_hash_key : Text → Text → Bool → Result SaveError (Unit {0})
check_hash_key algorithm hash_key consistent =
    if algorithm == codes "hash"
    then (refuse_if (hash_key == []) no_hash_key
        >> wrap_error bad_hash_key (validate_directive_fragment hash_key))
    else refuse_if (not (hash_key == []) || consistent) not_hash

unfoldable pub check_keepalive : ℤ → ℤ → ℤ → Result SaveError (Unit {0})
check_keepalive keepalive requests timeout = do
  refuse_if
      (outside (pos 0) (pos max_keepalive) keepalive
        || (outside (pos 0) (pos max_keepalive_requests) requests
            || outside (pos 0) (pos max_keepalive_timeout_sec) timeout))
      keepalive_limit
  refuse_if (is_zero keepalive && (not (is_zero requests) || not (is_zero timeout)))
      keepalive_missing

-- The fields that are filled in before the servers.
unfoldable pub fill_request : SaveRequest → SaveRequest
fill_request req = record req {
  name = trim_space req.name;
  algorithm = if req.algorithm == [] then codes "round_robin" else req.algorithm;
  hash_key = trim_space req.hash_key;
}

unfoldable pub check_request : SaveRequest → Result SaveError (Unit {0})
check_request req = do
  refuse_if (not (req.name == []) && not (is_upstream_name req.name)) bad_name
  refuse_if (not (any (λ a. a == req.algorithm) algorithms)) unknown_algorithm
  check_hash_key req.algorithm req.hash_key req.consistent
  check_keepalive req.keepalive req.keepalive_requests req.keepalive_timeout_seconds
  refuse_if (length req.servers == 0 || ltb max_servers (length req.servers)) servers_limit

unfoldable pub normalize_and_validate : SaveRequest → Result SaveError SaveRequest
normalize_and_validate given =
    let req = fill_request given in
    do
      check_request req
      (servers, active) ← check_servers req.algorithm [] req.servers
      refuse_if (active == 0) no_primary
      advanced ← wrap_error bad_directives (normalize_advanced_directives req.advanced_directives)
      ok (record req { servers = servers; advanced_directives = advanced })
