-- ===== src/Login/Budget.antt =====
-- Counts after failures and after cleanup (internal/api/middleware/login_protection.go).
use nx_panel.Base.{
  ℕ, ◌+◌, ◌≤◌, ◌<◌, ◌≡◌, ◌≢◌, inl, inr, false, some, [], arith, leb, ◌==◌, nat_eq, text_eq,
  text_beq_iff, Bool-cases, Option-cases, length, Text,
}
use nx_panel.Base.Store.{find, find-put_self, find-put_ne, IsMap, find-keep}
use nx_panel.Login.{
  FailRecord, Records, Limits, LoginProtection, count_locked, allowed_locked, increment_locked,
  purge_map_locked, purge_global, admit_locked, record_locked, purge_expired_locked, check,
  failure_count, normalize_account,
}
use nx_panel.Login.Bounds.{IsBounded, length-put-le}

count-increment_locked :
    (c : Limits) (rec : FailRecord) (now : ℕ)
    → 0 < now
    → 0 < c.window
    → count_locked c (some (increment_locked c rec now)) now ≡ count_locked c (some rec) now + 1
unfolding count_locked increment_locked
count-increment_locked c rec now t w = ground arith

-- A failure counts once, whether the key's record is new, running, expired, or admitted after a
-- purge and an eviction.
pub count-record_locked :
    (c : Limits) (m : Records) (key : Text) (now : ℕ)
    → 0 < now
    → 0 < c.window
    → key ≢ []
    → count_locked c (find key (record_locked c m key now)) now
      ≡ count_locked c (find key m) now + 1
unfolding record_locked admit_locked count_locked
count-record_locked c m key now t w ne =
    let named : (key == []) ≡ false = ground (arith, text_beq_iff key []) in
    elim (Option-cases (find key m)) [
      | inl absent ↦ rw (named, absent, find-put_self) (ground arith)
      | inr (rec, found) ↦ rw (named, found, find-put_self) (count-increment_locked c rec now t w)
    ]

-- A failure of one key leaves every other record alone while the store has room.
pub find-record_locked_ne :
    (c : Limits) (m : Records) (key j : Text) (now : ℕ)
    → length m < c.max_entries
    → key ≢ j
    → find j (record_locked c m key now) ≡ find j m
unfolding record_locked admit_locked
find-record_locked_ne c m key j now room ne =
    let fits : leb c.max_entries (length m) ≡ false = ground arith in
    elim (Bool-cases (key == [])) [
      | inl unnamed ↦ rw unnamed
      | inr named ↦ elim (Option-cases (find key m)) [
        | inl absent ↦ rw (named, absent, fits, fits) (find-put_ne key j _ m ne)
        | inr (rec, found) ↦ rw (named, found) (find-put_ne key j _ m ne)
      ]
    ]

pub length-record_locked :
    (c : Limits) (m : Records) (key : Text) (now : ℕ)
    → length m < c.max_entries
    → length (record_locked c m key now) ≤ length m + 1
unfolding record_locked admit_locked
length-record_locked c m key now room =
    let fits : leb c.max_entries (length m) ≡ false = ground arith in
    elim (Bool-cases (key == [])) [
      | inl unnamed ↦ rw unnamed (omega arith)
      | inr named ↦ elim (Option-cases (find key m)) [
        | inl absent ↦
            rw (named, absent, fits, fits)
              (omega (arith, length-put-le key (record { count = 1; window_start = now }) m))
        | inr (rec, found) ↦
            rw (named, found) (omega (arith, length-put-le key (increment_locked c rec now) m))
      ]
    ]

-- A purge at `now` changes no count from `now` on.
count-purge :
    (c : Limits) (m : Records) (key : Text) (now t : ℕ)
    → IsMap m
    → now ≤ t
    → count_locked c (find key (purge_map_locked c m now)) t ≡ count_locked c (find key m) t
unfolding purge_map_locked count_locked
count-purge c m key now t d le = rw (find-keep _ key m d) (ground arith)

count-purge_global :
    (c : Limits) (rec : FailRecord) (now t : ℕ)
    → now ≤ t
    → count_locked c (some (purge_global c rec now)) t ≡ count_locked c (some rec) t
unfolding purge_global count_locked
count-purge_global c rec now t le = ground arith

-- A check or a failure count that comes next after a cleanup, at its time or later, is as without the
-- cleanup.
pub purge_expired_locked-unseen :
    (p : LoginProtection) (ip account : Text) (now t : ℕ)
    → IsBounded p
    → now ≤ t
    → (check (purge_expired_locked p now) ip account t ≡ check p ip account t)
      × (failure_count (purge_expired_locked p now) ip account t ≡ failure_count p ip account t)
unfolding check failure_count allowed_locked purge_expired_locked
purge_expired_locked-unseen p ip account now t h le = (
  simp (
    count-purge p.config p.by_ip ip now t h.ips.shape.is_map le,
    count-purge p.config p.by_account (normalize_account account) now t h.accounts.shape.is_map le,
    count-purge_global p.config p.global now t le,
  ),
  simp (
    count-purge p.config p.by_ip ip now t h.ips.shape.is_map le,
    count-purge p.config p.by_account (normalize_account account) now t h.accounts.shape.is_map le,
  ),
)
