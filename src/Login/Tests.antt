-- ===== src/Login/Tests.antt =====
-- The login budgets at concrete inputs.
use nx_panel.Base.{
  suc, ◌+◌, ◌≡◌, refl, true, false, some, List, [], ◌∷◌, arith, ltb, nat_eq, text_eq, text_beq,
  length, Text, codes, to_lower, trim_space,
}
use nx_panel.Base.Int.{pos, negsuc}
use nx_panel.Base.Store.{find, put}
use nx_panel.Login.{
  FailRecord, Config, LoginProtection, Records, new, count_locked, allowed_locked, record_locked,
  evict_oldest_locked, check, record_failure, record_success, purge_expired_locked, failure_count,
  normalize_account, normalize_config, increment_locked, admit_locked, reload_config,
}
use nx_panel.Login.Eviction.{IsOldest, IsNamedMap, evict_oldest_locked-IsOldest}
use nx_panel.Login.Bounds.{
  IsBounded, failure, cleanup, calls, calls-new-IsBounded, new-IsBounded, record_failure-IsBounded,
}
use nx_panel.Login.Budget.{count-record_locked, purge_expired_locked-unseen}
use nx_panel.Login.Lockout.{
  Attempt, failures, allowed_locked-failures, check-failures, check-record_success,
}
use nx_panel.Base.Store.{remove}

opened : Unit {0}
unfolding check record_failure record_success allowed_locked count_locked record_locked admit_locked
    increment_locked evict_oldest_locked new normalize_config normalize_account find put text_beq
    to_lower trim_space failure_count purge_expired_locked reload_config
opened = tt

abbrev small : Config
small = record {
  ip_max_failures = pos 2;
  account_max_failures = negsuc 0;
  global_max_failures = pos 0;
  window = pos 100;
  max_entries = pos 3;
}

abbrev home : Text
home = codes "10.0.0.1"

abbrev away : Text
away = codes "10.0.0.2"

abbrev root : Text
root = codes " Root "

abbrev once : LoginProtection
once = record_failure (new small) home root 5

check_tests :
    (check (new small) home root 5 ≡ true)
    × (check once home root 6 ≡ true)
    × (check (record_failure once home root 6) home [] 7 ≡ false)
    × (check (record_failure once home root 6) home [] 105 ≡ true)
    × (failure_count once away (codes "ROOT") 6 ≡ 1)
unfolding opened
check_tests = (refl, refl, refl, refl, refl)

abbrev two_records : Records
two_records =
    (home, record { count = 3; window_start = 9 })
    ∷ (away, record { count = 1; window_start = 4 })
    ∷ []

two_records-IsNamedMap : IsNamedMap two_records
unfolding find text_beq
two_records-IsNamedMap = record {
  is_map = (refl, (refl, tt));
  named = (λ e. cc e, (λ e. cc e, tt));
}

evict_oldest_locked-IsOldest_example :
    (key : Text) × (rec : FailRecord) × IsOldest key rec two_records
    × (evict_oldest_locked two_records ≡ remove key two_records)
    × (suc (length (evict_oldest_locked two_records)) ≡ length two_records)
evict_oldest_locked-IsOldest_example =
    evict_oldest_locked-IsOldest two_records two_records-IsNamedMap (omega arith)

calls-new-IsBounded_example :
    IsBounded (calls (new small) (failure home root 5 ∷ failure away [] 6 ∷ cleanup 200 ∷ []))
calls-new-IsBounded_example =
    calls-new-IsBounded small (failure home root 5 ∷ failure away [] 6 ∷ cleanup 200 ∷ [])

count-record_locked_example :
    count_locked
      (normalize_config small)
      (find home (record_locked (normalize_config small) two_records home 50))
      50
    ≡ count_locked (normalize_config small) (find home two_records) 50 + 1
unfolding normalize_config
count-record_locked_example =
    count-record_locked (normalize_config small) two_records home 50 (omega arith) (omega arith)
      (λ e. cc e)

purge_expired_locked-unseen_example :
    (check (purge_expired_locked once 200) home root 250 ≡ check once home root 250)
    × (failure_count (purge_expired_locked once 200) home root 250
        ≡ failure_count once home root 250)
purge_expired_locked-unseen_example =
    purge_expired_locked-unseen once home root 200 250
      (record_failure-IsBounded (new small) home root 5 (new-IsBounded small)) (omega arith)

abbrev later : List Attempt
later =
    record { ip = away; account = []; now = 7 } ∷ record { ip = home; account = root; now = 8 } ∷ []

allowed_locked-failures_example :
    allowed_locked
      (new small).config
      (find home (failures (record_failure (new small) home root 5) later).by_ip)
      2
      50
    ≡ ltb 2 2
unfolding opened
allowed_locked-failures_example =
    allowed_locked-failures (new small) home root 5 50 2 later (omega arith) (λ e. cc e) refl
      (omega arith) (omega arith)

check-failures_example :
    check (failures (record_failure (new small) home root 5) later) home [] 50 ≡ false
unfolding opened
check-failures_example =
    check-failures (new small) home root [] 5 50 later (omega arith) (λ e. cc e) refl (omega arith)
      (omega arith) (omega arith) (omega arith)

check-record_success_example :
    check (record_success once home root) home root 6
    ≡ allowed_locked once.config (some once.global) once.config.global_max_failures 6
unfolding opened
check-record_success_example = check-record_success once home root 6 (omega arith) (omega arith)
