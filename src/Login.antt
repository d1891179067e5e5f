-- ===== src/Login.antt =====
-- Login failure budgets by address, by account and for the whole panel
-- (internal/api/middleware/login_protection.go). Each method is what runs under the mutex. A time
-- is the number of nanoseconds since Go's zero time, which is 0 here; `now.Sub(start) >= window`
-- is `start + window <= now`, since a window is positive once the configuration is normalised.
pub mod Eviction
pub mod Budget
pub mod Bounds
pub mod Lockout
mod Tests
use nx_panel.Base.{
  ℕ, zero, suc, ◌+◌, ◌*◌, ◌^◌, ◌≤◌, ◌<◌, ◌≡◌, refl, Bool, true, false, not, ◌&&◌, ◌||◌, Option,
  none, some, List, [], ◌∷◌, ltb, leb, ◌==◌, nat_eq, text_eq, if◌then◌else◌, length, keep, Text,
  to_lower, trim_space,
}
use nx_panel.Base.Int.{ℤ, positive_or}
use nx_panel.Base.Store.{Store, find, put, remove}

-- `failRecord` of ratelimit.go
-- `count` is an int of 64 bits, which no number of failures reaches in practice: it does not wrap here.
pub record FailRecord : Type 0 where
  pub count : ℕ
  pub window_start : ℕ

pub record Config : Type 0 where
  pub ip_max_failures : ℤ
  pub account_max_failures : ℤ
  pub global_max_failures : ℤ
  pub window : ℤ
  pub max_entries : ℤ

-- A configuration after `normalizeLoginProtectionConfig`, whose fields are positive.
pub record Limits : Type 0 where
  pub ip_max_failures : ℕ
  pub account_max_failures : ℕ
  pub global_max_failures : ℕ
  pub window : ℕ
  pub max_entries : ℕ

-- 15 * time.Minute
abbrev default_window : ℕ
default_window = 15 * 60 * 1_000_000_000

abbrev default_max_login_budget_entries : ℕ
default_max_login_budget_entries = 10_000

pub normalize_config : Config → Limits
normalize_config c = record {
  ip_max_failures = positive_or 5 c.ip_max_failures;
  account_max_failures = positive_or 10 c.account_max_failures;
  global_max_failures = positive_or 100 c.global_max_failures;
  window = positive_or default_window c.window;
  max_entries = positive_or default_max_login_budget_entries c.max_entries;
}

abbrev pub Records : Type 0
Records = Store Text FailRecord

pub record LoginProtection : Type 0 where
  pub config : Limits
  pub by_ip : Records
  pub by_account : Records
  pub global : FailRecord

abbrev pub no_failures : FailRecord
no_failures = record { count = 0; window_start = 0 }

pub new : Config → LoginProtection
new c = record { config = normalize_config c; by_ip = []; by_account = []; global = no_failures }

pub normalize_account : Text → Text
normalize_account account = to_lower (trim_space account)

abbrev pub is_expired : Limits → FailRecord → ℕ → Bool
is_expired c rec now = leb (rec.window_start + c.window) now

pub count_locked : Limits → Option FailRecord → ℕ → ℕ
count_locked c none now = 0
count_locked c (some rec) now =
    if rec.window_start == 0 || is_expired c rec now then 0 else rec.count

pub allowed_locked : Limits → Option FailRecord → ℕ → ℕ → Bool
allowed_locked c rec limit now = ltb (count_locked c rec now) limit

pub increment_locked : Limits → FailRecord → ℕ → FailRecord
increment_locked c rec now =
    if rec.window_start == 0 || is_expired c rec now
    then record { count = 1; window_start = now }
    else record rec { count = rec.count + 1 }

pub purge_map_locked : Limits → Records → ℕ → Records
purge_map_locked c store now = keep (λ e. not (is_expired c e.1 now)) store

-- The loop of `evictOldestLocked`, over `oldestKey` and `oldest`.
oldest_from : Text → ℕ → Records → Text
oldest_from key oldest [] = key
oldest_from key oldest ((k, rec) ∷ rest) =
    let older = key == [] || ltb rec.window_start oldest in
    oldest_from (if older then k else key) (if older then rec.window_start else oldest) rest

pub evict_oldest_locked : Records → Records
evict_oldest_locked store =
    let key = oldest_from [] 0 store in if key == [] then store else remove key store

-- The loop of `enforceCardinalityLocked`, on fuel.
enforce_from : ℕ → ℕ → Records → Records
enforce_from zero max_entries store = store
enforce_from (suc fuel) max_entries store =
    let next = enforce_from fuel max_entries (evict_oldest_locked store) in
    if ltb max_entries (length store) then next else store

pub enforce_cardinality_locked : Limits → Records → Records
enforce_cardinality_locked c store = enforce_from (length store) c.max_entries store

-- The part of `recordLocked` for a key that has no record yet.
admit_locked : Limits → Records → Text → ℕ → Records
admit_locked c store key now =
    let purged = if leb c.max_entries (length store) then purge_map_locked c store now else store in
    let room = if leb c.max_entries (length purged) then evict_oldest_locked purged else purged in
    put key (record { count = 1; window_start = now }) room

pub record_locked : Limits → Records → Text → ℕ → Records
record_locked c store key now = if key == [] then store else elim (find key store) [
  | some rec ↦ put key (increment_locked c rec now) store
  | none ↦ admit_locked c store key now
]

purge_global : Limits → FailRecord → ℕ → FailRecord
purge_global c rec now =
    if not (rec.window_start == 0) && is_expired c rec now then no_failures else rec

-- `purgeExpiredLocked`, which the cleanup goroutine also runs each minute
pub purge_expired_locked : LoginProtection → ℕ → LoginProtection
purge_expired_locked p now = record p {
  by_ip = purge_map_locked p.config p.by_ip now;
  by_account = purge_map_locked p.config p.by_account now;
  global = purge_global p.config p.global now;
}

pub reload_config : LoginProtection → Config → ℕ → LoginProtection
reload_config p c now =
    let q = purge_expired_locked (record p { config = normalize_config c }) now in
    record q {
      by_ip = enforce_cardinality_locked q.config q.by_ip;
      by_account = enforce_cardinality_locked q.config q.by_account;
    }

pub check : LoginProtection → Text → Text → ℕ → Bool
check p ip account now =
    let account = normalize_account account in
    allowed_locked p.config (find ip p.by_ip) p.config.ip_max_failures now
    && (account == []
        || allowed_locked p.config (find account p.by_account) p.config.account_max_failures now)
    && allowed_locked p.config (some p.global) p.config.global_max_failures now

pub record_failure : LoginProtection → Text → Text → ℕ → LoginProtection
record_failure p ip account now =
    let account = normalize_account account in
    record p {
      by_ip = record_locked p.config p.by_ip ip now;
      by_account =
          if account == [] then p.by_account else record_locked p.config p.by_account account now;
      global = increment_locked p.config p.global now;
    }

pub record_success : LoginProtection → Text → Text → LoginProtection
record_success p ip account =
    let account = normalize_account account in
    record p {
      by_ip = remove ip p.by_ip;
      by_account = if account == [] then p.by_account else remove account p.by_account;
    }

pub failure_count : LoginProtection → Text → Text → ℕ → ℕ
failure_count p ip account now =
    let account = normalize_account account in
    let ip_count = count_locked p.config (find ip p.by_ip) now in
    let account_count = count_locked p.config (find account p.by_account) now in
    if ltb ip_count account_count then account_count else ip_count
