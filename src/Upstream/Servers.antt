-- ===== src/Upstream/Servers.antt =====
-- What the loop over the servers of a request accepts (internal/upstream/validate.go).
use nx_panel.Upstream.{ServerRequest}
use nx_panel.Upstream.Trim.{trim_space-trim_space}
use nx_panel.Upstream.Address.{validate_address}
use nx_panel.Upstream.Save.{
  SaveError, wrap_error, bad_address, duplicate_address, server_limit, sort_order_limit,
  backup_and_down, backup_unsupported, outside, fill_server, no_backups, check_server, is_active,
  check_servers,
}
use nx_panel.Base.{
  ℕ, ◌+◌, ◌≤◌, ◌≡◌, refl, ◌≢◌, false, ◌&&◌, ◌||◌, List, [], ◌∷◌, arith, ◌==◌, nat_eq, text_eq,
  text_beq_iff, length, keep, any, All, Text, to_lower, trim_space,
}
use mathlib.Core.Path.{subst}
use nx_panel.Base.Int.{ℤ, pos, negsuc, pos_part, neg_part}
use nx_panel.Base.Result.{Result, ok, err, refuse_if-eq-ok, >>=-eq-ok, ok-injective}

-- low ≤ n ≤ high
abbrev pub Within : ℤ → ℤ → ℤ → Type 0
Within low high n =
    (pos_part low + neg_part n ≤ pos_part n + neg_part low)
    × (pos_part n + neg_part high ≤ pos_part high + neg_part n)

pub Within_lem : (low high n : ℤ) → outside low high n ≡ false → Within low high n
Within_lem low high n h = ground arith

pub record IsServer (algorithm : Text) (s : ServerRequest) : Type 0 where
  pub address : validate_address s.address ≡ ok tt
  pub trimmed : trim_space s.address ≡ s.address
  pub weight : Within (pos 1) (pos 256) s.weight
  pub max_fails : Within (pos 0) (pos 100) s.max_fails
  pub fail_timeout : Within (pos 1) (pos 3600) s.fail_timeout_seconds
  pub sort_order : Within (negsuc 99999) (pos 100000) s.sort_order
  pub not_both : (s.backup && s.down) ≡ false
  pub backup_allowed : (s.backup && no_backups algorithm) ≡ false

-- No two servers have one address, whatever its case.
abbrev pub IsDistinct : List ServerRequest → Type 0
IsDistinct [] = Unit
IsDistinct (s ∷ servers) =
    All (λ t. to_lower t.address ≢ to_lower s.address) servers × IsDistinct servers

abbrev IsNew : List Text → ServerRequest → Type 0
IsNew seen s = any (λ a. a == to_lower s.address) seen ≡ false

pub wrap_error-eq-ok :
    {E A : Type 0} (f : E → SaveError) (r : Result E A) {a : A} → wrap_error f r ≡ ok a → r ≡ ok a
wrap_error-eq-ok f (ok b) h = ground arith
wrap_error-eq-ok f (err e) h = absurd (cc h)

record IsChecked (algorithm : Text) (seen : List Text) (s : ServerRequest) : Type 0 where
  server : IsServer algorithm s
  is_new : IsNew seen s

check_server-IsChecked :
    (algorithm : Text) (seen : List Text) (s : ServerRequest)
    → trim_space s.address ≡ s.address
    → check_server algorithm seen s ≡ ok tt
    → IsChecked algorithm seen s
unfolding check_server
check_server-IsChecked algorithm seen s trimmed h =
    let (u, (h1, address)) = >>=-eq-ok (wrap_error bad_address (validate_address s.address)) _ h in
    let (is_new, h2) =
      refuse_if-eq-ok (any (λ a. a == to_lower s.address) seen) duplicate_address _ h1 in
    let (limits, h3) =
      refuse_if-eq-ok
        (outside (pos 1) (pos 256) s.weight
          || (outside (pos 0) (pos 100) s.max_fails
              || outside (pos 1) (pos 3600) s.fail_timeout_seconds))
        server_limit _ h2 in
    let (order, h4) =
      refuse_if-eq-ok (outside (negsuc 99999) (pos 100000) s.sort_order) sort_order_limit _ h3 in
    let (not_both, h5) = refuse_if-eq-ok (s.backup && s.down) backup_and_down _ h4 in
    let (allowed, _) = refuse_if-eq-ok (s.backup && no_backups algorithm) backup_unsupported _ h5 in
    record {
      server = record {
        address = wrap_error-eq-ok bad_address (validate_address s.address) address;
        trimmed = trimmed;
        weight = Within_lem (pos 1) (pos 256) s.weight (ground arith);
        max_fails = Within_lem (pos 0) (pos 100) s.max_fails (ground arith);
        fail_timeout = Within_lem (pos 1) (pos 3600) s.fail_timeout_seconds (ground arith);
        sort_order = Within_lem (negsuc 99999) (pos 100000) s.sort_order order;
        not_both = not_both;
        backup_allowed = allowed;
      };
      is_new = is_new;
    }

-- What the loop over the servers returns, where it returns.
pub record IsCheckedList (algorithm : Text) (seen : List Text) (result : List ServerRequest × ℕ)
    : Type 0 where
  pub each : All (IsServer algorithm) result.0
  pub fresh : All (IsNew seen) result.0
  pub distinct : IsDistinct result.0
  pub counted : result.1 ≡ length (keep is_active result.0)

IsNew-cons :
    (a : Text) (seen : List Text) (s : ServerRequest)
    → IsNew (a ∷ seen) s
    → (to_lower s.address ≢ a) × IsNew seen s
IsNew-cons a seen s h = (λ e. ground (arith, text_beq_iff a (to_lower s.address)), ground arith)

All-IsNew :
    (a : Text) (seen : List Text) (servers : List ServerRequest)
    → All (IsNew (a ∷ seen)) servers
    → All (λ t. to_lower t.address ≢ a) servers × All (IsNew seen) servers
All-IsNew a seen [] h = (tt, tt)
All-IsNew a seen (s ∷ servers) h =
    let (ne, old) = IsNew-cons a seen s h.0 in
    let (nes, olds) = All-IsNew a seen servers h.1 in ((ne, nes), (old, olds))

fill_server-address :
    (s : ServerRequest) → trim_space (fill_server s).address ≡ (fill_server s).address
unfolding fill_server
fill_server-address s = trim_space-trim_space s.address

pub check_servers-IsCheckedList :
    (algorithm : Text) (seen : List Text) (given : List ServerRequest)
    (result : List ServerRequest × ℕ)
    → check_servers algorithm seen given ≡ ok result
    → IsCheckedList algorithm seen result
unfolding check_servers
check_servers-IsCheckedList algorithm seen [] result h =
    subst (IsCheckedList algorithm seen) (ok-injective h)
      (record { each = tt; fresh = tt; distinct = tt; counted = refl })
check_servers-IsCheckedList algorithm seen (g ∷ given) result h =
    let s = fill_server g in
    let (u, (h1, checked)) = >>=-eq-ok (check_server algorithm seen s) _ h in
    let later = check_servers algorithm (to_lower s.address ∷ seen) given in
    let (rest, (whole, h2)) = >>=-eq-ok later _ h1 in
    let first = check_server-IsChecked algorithm seen s (fill_server-address g) checked in
    let others = check_servers-IsCheckedList algorithm (to_lower s.address ∷ seen) given rest h2 in
    let (apart, fresh) = All-IsNew (to_lower s.address) seen rest.0 others.fresh in
    subst (IsCheckedList algorithm seen) (ok-injective whole) (record {
      each = (first.server, others.each);
      fresh = (first.is_new, fresh);
      distinct = (apart, others.distinct);
      counted = ground (arith, others.counted);
    })
