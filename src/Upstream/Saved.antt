-- ===== src/Upstream/Saved.antt =====
-- The requests that `NormalizeAndValidate` accepts (internal/upstream/validate.go).
use nx_panel.Upstream.{
  ServerRequest, SaveRequest, max_servers, max_keepalive, max_keepalive_requests,
  max_keepalive_timeout_sec,
}
use nx_panel.Upstream.Statements.{validate_directive_fragment, normalize_advanced_directives}
use nx_panel.Upstream.Trim.{trim_space-trim_space}
use nx_panel.Upstream.Save.{
  wrap_error, bad_directives, bad_name, unknown_algorithm, no_primary, no_hash_key, bad_hash_key,
  keepalive_limit, is_zero, outside, fill_server, check_server, is_active, check_servers,
  algorithms, check_hash_key, check_keepalive, fill_request, check_request, normalize_and_validate,
  is_upstream_name,
}
use nx_panel.Base.{
  ℕ, ◌≤◌, ◌≡◌, ap, ◌≢◌, ◌⊎◌, inl, inr, Bool, true, false, not, ◌&&◌, ◌||◌, List, [], ◌∷◌, arith,
  ◌==◌, nat_eq, text_eq, text_beq_iff, Bool-cases, length, keep, any, All, Text, codes, to_lower,
  trim_space,
}
use mathlib.Core.Path.{subst}
use nx_panel.Base.Int.{ℤ, pos}
use nx_panel.Base.Result.{ok, refuse_if-eq-ok, >>=-eq-ok, ok-injective}
use nx_panel.Upstream.Servers.{
  Within, Within_lem, IsServer, IsDistinct, wrap_error-eq-ok, check_servers-IsCheckedList,
}

-- A key that adds no statement for the algorithm hash, none for the others.
abbrev pub HashKeyOk : Text → Text → Bool → Type 0
HashKeyOk algorithm hash_key consistent =
    ((algorithm ≡ codes "hash")
      × ((hash_key ≢ []) × (validate_directive_fragment hash_key ≡ ok tt)))
    ⊎ ((algorithm ≢ codes "hash") × ((hash_key ≡ []) × (consistent ≡ false)))

-- A request as it is saved.
pub record IsSaved (req : SaveRequest) : Type 0 where
  pub name : (req.name ≡ []) ⊎ (is_upstream_name req.name ≡ true)
  pub algorithm : any (λ a. a == req.algorithm) algorithms ≡ true
  pub hash_key : HashKeyOk req.algorithm req.hash_key req.consistent
  pub keepalive : Within (pos 0) (pos max_keepalive) req.keepalive
  pub keepalive_requests : Within (pos 0) (pos max_keepalive_requests) req.keepalive_requests
  pub keepalive_timeout :
      Within (pos 0) (pos max_keepalive_timeout_sec) req.keepalive_timeout_seconds
  pub keepalive_off :
      (is_zero req.keepalive ≡ false)
      ⊎ ((is_zero req.keepalive_requests ≡ true) × (is_zero req.keepalive_timeout_seconds ≡ true))
  pub many : (1 ≤ length req.servers) × (length req.servers ≤ max_servers)
  pub servers : All (IsServer req.algorithm) req.servers
  pub distinct : IsDistinct req.servers
  pub trimmed : trim_space req.hash_key ≡ req.hash_key
  pub input : Text
  pub directives : normalize_advanced_directives input ≡ ok req.advanced_directives
  pub primary : 1 ≤ length (keep is_active req.servers)

check_hash_key-ok :
    (algorithm hash_key : Text) (consistent : Bool)
    → check_hash_key algorithm hash_key consistent ≡ ok tt
    → HashKeyOk algorithm hash_key consistent
unfolding check_hash_key
check_hash_key-ok algorithm hash_key consistent h = elim (Bool-cases (algorithm == codes "hash")) [
  | inl hash ↦
      let (filled, h1) = refuse_if-eq-ok (hash_key == []) no_hash_key _ (rw hash at h) in
      inl (
        (text_beq_iff algorithm (codes "hash")).0 hash,
        (
          λ e. ground (arith, text_beq_iff hash_key []),
          wrap_error-eq-ok bad_hash_key (validate_directive_fragment hash_key) h1,
        ),
      )
  | inr other ↦
      let h1 = rw other at h in
      inr (
        λ e. ground (arith, text_beq_iff algorithm (codes "hash")),
        ground (arith, text_beq_iff hash_key []),
      )
]

record KeepaliveOk (keepalive requests timeout : ℤ) : Type 0 where
  first : Within (pos 0) (pos max_keepalive) keepalive
  second : Within (pos 0) (pos max_keepalive_requests) requests
  third : Within (pos 0) (pos max_keepalive_timeout_sec) timeout
  off : (is_zero keepalive ≡ false) ⊎ ((is_zero requests ≡ true) × (is_zero timeout ≡ true))

check_keepalive-ok :
    (keepalive requests timeout : ℤ)
    → check_keepalive keepalive requests timeout ≡ ok tt
    → KeepaliveOk keepalive requests timeout
unfolding check_keepalive
check_keepalive-ok keepalive requests timeout h =
    let (limits, h1) =
      refuse_if-eq-ok
        (outside (pos 0) (pos max_keepalive) keepalive
          || (outside (pos 0) (pos max_keepalive_requests) requests
              || outside (pos 0) (pos max_keepalive_timeout_sec) timeout))
        keepalive_limit _ h in
    record {
      first = Within_lem (pos 0) (pos max_keepalive) keepalive (ground arith);
      second = Within_lem (pos 0) (pos max_keepalive_requests) requests (ground arith);
      third = Within_lem (pos 0) (pos max_keepalive_timeout_sec) timeout (ground arith);
      off = elim (Bool-cases (is_zero keepalive)) [
        | inl off ↦ inr (ground arith)
        | inr on ↦ inl on
      ];
    }

-- The steps of an accepted request.
pub record Accepted (given req : SaveRequest) : Type 0 where
  pub checked : check_request (fill_request given) ≡ ok tt
  pub servers : List ServerRequest
  pub active : ℕ
  pub looped :
      check_servers (fill_request given).algorithm [] (fill_request given).servers
      ≡ ok (servers, active)
  pub some_active : (active == 0) ≡ false
  pub advanced : Text
  pub normal : normalize_advanced_directives (fill_request given).advanced_directives ≡ ok advanced
  pub whole :
      record (fill_request given) { servers = servers; advanced_directives = advanced } ≡ req

pub accepted :
    (given req : SaveRequest) → normalize_and_validate given ≡ ok req → Accepted given req
unfolding normalize_and_validate
accepted given req h =
    let f = fill_request given in
    let (u, (h1, checked)) = >>=-eq-ok (check_request f) _ h in
    let (r, (h2, looped)) = >>=-eq-ok (check_servers f.algorithm [] f.servers) _ h1 in
    let (some_active, h3) = refuse_if-eq-ok (r.1 == 0) no_primary _ h2 in
    let (advanced, (whole, normal)) =
      >>=-eq-ok (wrap_error bad_directives (normalize_advanced_directives f.advanced_directives)) _
        h3 in
    record {
      checked = checked;
      servers = r.0;
      active = r.1;
      looped = looped;
      some_active = some_active;
      advanced = advanced;
      normal =
          wrap_error-eq-ok bad_directives (normalize_advanced_directives f.advanced_directives)
            normal;
      whole = ok-injective whole;
    }

record RequestOk (req : SaveRequest) : Type 0 where
  name : (req.name ≡ []) ⊎ (is_upstream_name req.name ≡ true)
  algorithm : any (λ a. a == req.algorithm) algorithms ≡ true
  hash_key : HashKeyOk req.algorithm req.hash_key req.consistent
  keepalive : KeepaliveOk req.keepalive req.keepalive_requests req.keepalive_timeout_seconds
  many : (1 ≤ length req.servers) × (length req.servers ≤ max_servers)

check_request-ok : (req : SaveRequest) → check_request req ≡ ok tt → RequestOk req
unfolding check_request
check_request-ok req h =
    let (name, h1) =
      refuse_if-eq-ok (not (req.name == []) && not (is_upstream_name req.name)) bad_name _ h in
    let (algorithm, h2) =
      refuse_if-eq-ok (not (any (λ a. a == req.algorithm) algorithms)) unknown_algorithm _ h1 in
    let (_, (h3, hash_key)) =
      >>=-eq-ok (check_hash_key req.algorithm req.hash_key req.consistent) _ h2 in
    let (_, (h4, keepalive)) =
      >>=-eq-ok (check_keepalive req.keepalive req.keepalive_requests req.keepalive_timeout_seconds)
        _ h3 in
    record {
      name = elim (Bool-cases (req.name == [])) [
        | inl empty ↦ inl ((text_beq_iff req.name []).0 empty)
        | inr filled ↦ inr (ground arith)
      ];
      algorithm = ground arith;
      hash_key = check_hash_key-ok req.algorithm req.hash_key req.consistent hash_key;
      keepalive =
          check_keepalive-ok req.keepalive req.keepalive_requests req.keepalive_timeout_seconds
            keepalive;
      many = ground arith;
    }

pub length-check_servers :
    (algorithm : Text) (seen : List Text) (given : List ServerRequest)
    (result : List ServerRequest × ℕ)
    → check_servers algorithm seen given ≡ ok result
    → length result.0 ≡ length given
unfolding check_servers
length-check_servers algorithm seen [] result h = ground arith
length-check_servers algorithm seen (g ∷ given) result h =
    let s = fill_server g in
    let (_, (h1, _)) = >>=-eq-ok (check_server algorithm seen s) _ h in
    let (rest, (whole, h2)) =
      >>=-eq-ok (check_servers algorithm (to_lower s.address ∷ seen) given) _ h1 in
    omega (
      arith,
      length-check_servers algorithm (to_lower s.address ∷ seen) given rest h2,
      ap (λ r. length r.0) (ok-injective whole),
    )

-- A request that is accepted is saved with a valid name or none, a known algorithm, a hash key
-- exactly for `hash`, keepalive settings in their ranges, and 1 to 128 servers with distinct valid
-- addresses and settings in their ranges, of which one at least is neither backup nor down and none
-- is a backup under `hash` or `ip_hash`.
pub normalize_and_validate-IsSaved :
    (given req : SaveRequest) → normalize_and_validate given ≡ ok req → IsSaved req
normalize_and_validate-IsSaved given req h =
    let a = accepted given req h in
    let f = fill_request given in
    let r = check_request-ok f a.checked in
    let list =
      check_servers-IsCheckedList f.algorithm [] f.servers (a.servers, a.active) a.looped in
    let same = length-check_servers f.algorithm [] f.servers (a.servers, a.active) a.looped in
    subst IsSaved a.whole (record {
      name = r.name;
      algorithm = r.algorithm;
      hash_key = r.hash_key;
      keepalive = r.keepalive.first;
      keepalive_requests = r.keepalive.second;
      keepalive_timeout = r.keepalive.third;
      keepalive_off = r.keepalive.off;
      many = omega (arith, r.many, same);
      servers = list.each;
      distinct = list.distinct;
      trimmed = unfold fill_request in trim_space-trim_space given.hash_key;
      input = f.advanced_directives;
      directives = a.normal;
      primary = ground (arith, a.some_active, list.counted);
    })
