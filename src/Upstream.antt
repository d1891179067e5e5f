-- ===== src/Upstream.antt =====
-- Upstream definitions of nginx (internal/upstream/types.go): the request that saves one, and the
-- limits of its settings.
pub mod Statements
pub mod Trim
pub mod Scan
pub mod RoundTrip
pub mod Address
pub mod Save
pub mod Saved
pub mod Servers
pub mod Again
pub mod Plain
pub mod Render
pub mod Ends
pub mod Rendered
pub mod Directives
pub mod Injection
pub mod Model
mod Tests
use nx_panel.Base.Int.{ℤ}
use nx_panel.Base.{
  ℕ, zero, suc, ◌+◌, ◌-◌, ◌*◌, ◌/◌, ◌%◌, ◌^◌, ◌≤◌, ◌<◌, min, max, String, ◌≡◌, refl, sym, ap, ◌∙◌,
  ◌≢◌, ◌↔◌, ◌⊎◌, inl, inr, Bool, true, false, not, ◌&&◌, ◌||◌, Option, none, some, List, [], ◌∷◌,
  ◌++◌, map, reverse, append-nil, append_assoc, arith, ltb, leb, nat_beq, nat_beq_iff, Eq, ◌==◌,
  nat_eq, text_eq, text_beq, text_beq_iff, if◌then◌else◌, ltb→lt, lt→ltb, leb→le, le→leb, tests,
  Bool-cases, Option-cases, length, get_elem?, take, drop, keep, any, all, All, All-append,
  All-drop, length-append, length-take, length-drop, length-keep, drop-append, take-append, Text,
  codes, is_upper, is_lower, is_digit, is_space, lower, to_lower, trim_left, trim_space,
}

abbrev pub max_servers : ℕ
max_servers = 128

abbrev pub max_keepalive : ℕ
max_keepalive = 10000

abbrev pub max_keepalive_requests : ℕ
max_keepalive_requests = 1000000

abbrev pub max_keepalive_timeout_sec : ℕ
max_keepalive_timeout_sec = 3600

pub record ServerRequest : Type 0 where
  pub address : Text
  pub weight : ℤ
  pub max_fails : ℤ
  pub fail_timeout_seconds : ℤ
  pub backup : Bool
  pub down : Bool
  pub sort_order : ℤ

pub record SaveRequest : Type 0 where
  pub name : Text
  pub algorithm : Text
  pub hash_key : Text
  pub consistent : Bool
  pub keepalive : ℤ
  pub keepalive_requests : ℤ
  pub keepalive_timeout_seconds : ℤ
  pub advanced_directives : Text
  pub servers : List ServerRequest
