-- ===== src/Upstream/Again.antt =====
-- Requests that are saved a second time (internal/upstream/validate.go).
use nx_panel.Upstream.{ServerRequest, SaveRequest}
use nx_panel.Upstream.Statements.{normalize_advanced_directives, max_advanced_bytes}
use nx_panel.Upstream.RoundTrip.{normalize_advanced_directives_again}
use nx_panel.Upstream.Trim.{trim_space-trim_space}
use nx_panel.Upstream.Save.{
  is_zero, or_default, fill_server, check_server, is_active, check_servers, fill_request,
  check_request, normalize_and_validate,
}
use nx_panel.Upstream.Saved.{accepted, length-check_servers}
use nx_panel.Base.{
  ℕ, ◌+◌, ◌≤◌, ◌≡◌, refl, ap, ◌∙◌, false, List, [], ◌∷◌, arith, ◌==◌, nat_eq, text_eq, text_beq,
  if◌then◌else◌, length, Text, codes, to_lower,
}
use mathlib.Core.Path.{subst}
use nx_panel.Base.Int.{ℤ, pos}
use nx_panel.Base.Result.{ok, >>=-eq-ok, ok-injective}

or_default_again : (d n : ℤ) → is_zero d ≡ false → or_default d (or_default d n) ≡ or_default d n
or_default_again d n h = ground arith

fill_server-fill_server : (s : ServerRequest) → fill_server (fill_server s) ≡ fill_server s
unfolding fill_server
fill_server-fill_server s =
    let address = trim_space-trim_space s.address in
    let weight = or_default_again (pos 1) s.weight refl in
    let timeout = or_default_again (pos 10) s.fail_timeout_seconds refl in
    λ i. record s { address = address i; weight = weight i; fail_timeout_seconds = timeout i }

check_servers-cons :
    (algorithm : Text) (seen : List Text) (g s : ServerRequest) (given : List ServerRequest)
    (rest : List ServerRequest × ℕ)
    → fill_server g ≡ s
    → check_server algorithm seen s ≡ ok tt
    → check_servers algorithm (to_lower s.address ∷ seen) given ≡ ok rest
    → check_servers algorithm seen (g ∷ given)
      ≡ ok (s ∷ rest.0, if is_active s then rest.1 + 1 else rest.1)
unfolding check_servers
check_servers-cons algorithm seen g s given rest same checked later = rw (same, checked, later) refl

check_servers_again :
    (algorithm : Text) (seen : List Text) (given : List ServerRequest)
    (result : List ServerRequest × ℕ)
    → check_servers algorithm seen given ≡ ok result
    → check_servers algorithm seen result.0 ≡ ok result
unfolding check_servers
check_servers_again algorithm seen [] result h =
    subst (λ (r : List ServerRequest × ℕ). check_servers algorithm seen r.0 ≡ ok r) (ok-injective h)
      refl
check_servers_again algorithm seen (g ∷ given) result h =
    let s = fill_server g in
    let (_, (h1, checked)) = >>=-eq-ok (check_server algorithm seen s) _ h in
    let (rest, (whole, h2)) =
      >>=-eq-ok (check_servers algorithm (to_lower s.address ∷ seen) given) _ h1 in
    subst (λ (r : List ServerRequest × ℕ). check_servers algorithm seen r.0 ≡ ok r)
      (ok-injective whole)
      (check_servers-cons algorithm seen s s rest.0 rest (fill_server-fill_server g) checked
        (check_servers_again algorithm (to_lower s.address ∷ seen) given rest h2))

filled_algorithm : Text → Text
filled_algorithm a = if a == [] then codes "round_robin" else a

filled_algorithm_again : (a : Text) → filled_algorithm (filled_algorithm a) ≡ filled_algorithm a
unfolding filled_algorithm text_beq
filled_algorithm_again [] = refl
filled_algorithm_again (c ∷ a) = refl

fill_request_again :
    (given : SaveRequest) (servers : List ServerRequest) (advanced : Text)
    → fill_request
        (record (fill_request given) { servers = servers; advanced_directives = advanced })
      ≡ record (fill_request given) { servers = servers; advanced_directives = advanced }
unfolding fill_request filled_algorithm
fill_request_again given servers advanced =
    let name = trim_space-trim_space given.name in
    let hash_key = trim_space-trim_space given.hash_key in
    let algorithm = filled_algorithm_again given.algorithm in
    λ i. record given {
      name = name i;
      hash_key = hash_key i;
      algorithm = algorithm i;
      servers = servers;
      advanced_directives = advanced;
    }

check_request_again :
    (req : SaveRequest) (servers : List ServerRequest) (advanced : Text)
    → length servers ≡ length req.servers
    → check_request (record req { servers = servers; advanced_directives = advanced })
      ≡ check_request req
unfolding check_request
check_request_again req servers advanced same = rw same refl

run_of :
    (f req : SaveRequest) (r : List ServerRequest × ℕ)
    → fill_request f ≡ f
    → check_request f ≡ ok tt
    → check_servers f.algorithm [] f.servers ≡ ok r
    → (r.1 == 0) ≡ false
    → normalize_advanced_directives f.advanced_directives ≡ ok f.advanced_directives
    → record f { servers = r.0 } ≡ req
    → normalize_and_validate f ≡ ok req
unfolding normalize_and_validate
run_of f req r filled checked looped active normal whole =
    rw (filled, checked, looped, active, normal) (ap ok whole)

-- What is saved is accepted again and is saved as it is, if its advanced directives are not above
-- the limit of a request, 16 KiB.
pub normalize_and_validate_again :
    (given req : SaveRequest)
    → normalize_and_validate given ≡ ok req
    → length req.advanced_directives ≤ max_advanced_bytes
    → normalize_and_validate req ≡ ok req
normalize_and_validate_again given req h fits =
    let a = accepted given req h in
    let f = fill_request given in
    let req' = record f { servers = a.servers; advanced_directives = a.advanced } in
    let same = length-check_servers f.algorithm [] f.servers (a.servers, a.active) a.looped in
    let small : length a.advanced ≤ max_advanced_bytes =
      omega (arith, fits, ap (λ (r : SaveRequest). length r.advanced_directives) a.whole) in
    subst (λ r. normalize_and_validate r ≡ ok r) a.whole
      (run_of req' req' (a.servers, a.active) (fill_request_again given a.servers a.advanced)
        (check_request_again f a.servers a.advanced same ∙ a.checked)
        (check_servers_again f.algorithm [] f.servers (a.servers, a.active) a.looped) a.some_active
        (normalize_advanced_directives_again f.advanced_directives a.advanced a.normal small) refl)
