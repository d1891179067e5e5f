-- ===== src/Login/Lockout.antt =====
-- From the failures to the lockout of an address.
use nx_panel.Base.{
  ℕ, suc, ◌+◌, ◌≤◌, ◌<◌, ◌≡◌, refl, ap, ◌∙◌, ◌≢◌, inl, inr, Bool, false, not, ◌||◌, Option, none,
  some, List, [], ◌∷◌, arith, ltb, leb, ◌==◌, nat_eq, text_eq, text_beq_iff, if◌then◌else◌,
  Bool-cases, Option-cases, length, All, Text,
}
use nx_panel.Base.Store.{find, find-remove_self, find-put_self}
use nx_panel.Login.{
  FailRecord, Records, Limits, LoginProtection, count_locked, allowed_locked, increment_locked,
  admit_locked, record_locked, check, record_failure, record_success, normalize_account,
}
use nx_panel.Login.Budget.{find-record_locked_ne, length-record_locked}

-- One failed login: the address, the account and the time.
pub record Attempt : Type 0 where
  pub ip : Text
  pub account : Text
  pub now : ℕ

abbrev pub failures : LoginProtection → List Attempt → LoginProtection
failures p [] = p
failures p (x ∷ xs) = failures (record_failure p x.ip x.account x.now) xs

-- How many of the attempts come from an address.
abbrev pub attempts_of : Text → List Attempt → ℕ
attempts_of ip [] = 0
attempts_of ip (x ∷ xs) = if x.ip == ip then suc (attempts_of ip xs) else attempts_of ip xs

abbrev pub since : ℕ → ℕ → FailRecord
since n start = record { count = n; window_start = start }

increment-running :
    (c : Limits) (n start now : ℕ)
    → 0 < start
    → now < start + c.window
    → increment_locked c (since n start) now ≡ since (n + 1) start
unfolding increment_locked
increment-running c n start now pos lt = ground arith

-- A running window counts its own key, and keeps the record while other keys fail.
record_locked-running :
    (c : Limits) (m : Records) (ip key : Text) (n start now : ℕ)
    → 0 < start
    → now < start + c.window
    → length m < c.max_entries
    → ip ≢ []
    → find ip m ≡ some (since n start)
    → find ip (record_locked c m key now) ≡ some (since (if key == ip then n + 1 else n) start)
record_locked-running c m ip key n start now pos lt room ne found = elim (Bool-cases (key == ip)) [
  | inl own ↦
      let same : key ≡ ip = (text_beq_iff key ip).0 own in
      let named : (ip == []) ≡ false = ground (arith, text_beq_iff ip []) in
      rw (own, same)
        (unfold record_locked in
          rw (named, found, find-put_self) (ap some (increment-running c n start now pos lt)))
  | inr other ↦ rw other (
      find-record_locked_ne c m key ip now room (λ same. cc (other, (text_beq_iff key ip).1 same))
      ∙ found)
]

failures-running :
    (p : LoginProtection) (ip : Text) (n start : ℕ) (xs : List Attempt)
    → 0 < start
    → All (λ x. x.now < start + p.config.window) xs
    → length p.by_ip + length xs ≤ p.config.max_entries
    → ip ≢ []
    → find ip p.by_ip ≡ some (since n start)
    → find ip (failures p xs).by_ip ≡ some (since (n + attempts_of ip xs) start)
failures-running p ip n start [] pos lt room ne found =
    rw found (ap (λ k. some (since k start)) (omega arith))
failures-running p ip n start (x ∷ xs) pos lt room ne found =
    let q = record_failure p x.ip x.account x.now in
    let next : find ip q.by_ip ≡ some (since (if x.ip == ip then n + 1 else n) start) =
      unfold record_failure in
      record_locked-running p.config p.by_ip ip x.ip n start x.now pos lt.0 (omega arith) ne
        found in
    let grows : length q.by_ip ≤ length p.by_ip + 1 =
      unfold record_failure in length-record_locked p.config p.by_ip x.ip x.now (omega arith) in
    let same : q.config ≡ p.config = unfold record_failure in refl in
    failures-running q ip (if x.ip == ip then n + 1 else n) start xs pos
      (unfold record_failure in lt.1) (rw same (omega arith)) ne next
    ∙ ap (λ k. some (since k start)) (ground arith)

config-failures : (p : LoginProtection) (xs : List Attempt) → (failures p xs).config ≡ p.config
config-failures p [] = refl
config-failures p (x ∷ xs) =
    config-failures (record_failure p x.ip x.account x.now) xs ∙ (unfold record_failure in refl)

-- Whether a window runs: the record exists and has neither the zero time nor expired.
abbrev pub is_running : Limits → Option FailRecord → ℕ → Bool
is_running c none now = false
is_running c (some rec) now = not (rec.window_start == 0 || leb (rec.window_start + c.window) now)

first-failure :
    (c : Limits) (m : Records) (ip : Text) (now : ℕ)
    → ip ≢ []
    → is_running c (find ip m) now ≡ false
    → find ip (record_locked c m ip now) ≡ some (since 1 now)
unfolding record_locked admit_locked increment_locked
first-failure c m ip now ne fresh =
    let named : (ip == []) ≡ false = ground (arith, text_beq_iff ip []) in
    elim (Option-cases (find ip m)) [
      | inl absent ↦ rw (named, absent) (find-put_self ip _ _)
      | inr (rec, found) ↦
          let over : is_running c (some rec) now ≡ false = rw found at fresh in
          rw (named, found, find-put_self) (ground arith)
    ]

-- A failure at `start` of an address with no running window, then failures `xs` of any addresses
-- within the window: the address is allowed exactly while its failures, counted together, stay
-- below the limit, and again when the window is over. Nothing but these failures happens meanwhile,
-- and the store has room for a record of each of them, so that none is evicted.
pub allowed_locked-failures :
    (p : LoginProtection) (ip account : Text) (start now limit : ℕ) (xs : List Attempt)
    → 0 < start
    → ip ≢ []
    → is_running p.config (find ip p.by_ip) start ≡ false
    → All (λ x. x.now < start + p.config.window) xs
    → length p.by_ip + length xs < p.config.max_entries
    → allowed_locked p.config
        (find ip (failures (record_failure p ip account start) xs).by_ip)
        limit
        now
      ≡ ltb (if leb (start + p.config.window) now then 0 else attempts_of ip xs + 1) limit
unfolding allowed_locked count_locked
allowed_locked-failures p ip account start now limit xs pos ne fresh within room =
    let q = record_failure p ip account start in
    let found : find ip (failures q xs).by_ip ≡ some (since (1 + attempts_of ip xs) start) =
      failures-running q ip 1 start xs pos (unfold record_failure in within)
        (unfold record_failure in
          omega (arith, length-record_locked p.config p.by_ip ip start (omega arith)))
        ne (unfold record_failure in first-failure p.config p.by_ip ip start ne fresh) in
    rw found (ground arith)

-- So the address is locked out: if nothing but failures happens and the store has room for a record
-- of each of them, no check of it passes within the window, for any account, once its failures reach
-- the limit.
pub check-failures :
    (p : LoginProtection) (ip account other : Text) (start now : ℕ) (xs : List Attempt)
    → 0 < start
    → ip ≢ []
    → is_running p.config (find ip p.by_ip) start ≡ false
    → All (λ x. x.now < start + p.config.window) xs
    → length p.by_ip + length xs < p.config.max_entries
    → p.config.ip_max_failures ≤ attempts_of ip xs + 1
    → now < start + p.config.window
    → check (failures (record_failure p ip account start) xs) ip other now ≡ false
unfolding check
check-failures p ip account other start now xs pos ne fresh within room reached soon =
    let first : (record_failure p ip account start).config ≡ p.config =
      unfold record_failure in refl in
    let same : (failures (record_failure p ip account start) xs).config ≡ p.config =
      config-failures (record_failure p ip account start) xs ∙ first in
    let shut : allowed_locked p.config
          (find ip (failures (record_failure p ip account start) xs).by_ip) p.config.ip_max_failures
          now
        ≡ false =
      allowed_locked-failures p ip account start now p.config.ip_max_failures xs pos ne fresh within
        room
      ∙ ground arith in
    rw (same, shut)

-- A success clears the address and the account: what then decides is the global budget alone.
pub check-record_success :
    (p : LoginProtection) (ip account : Text) (now : ℕ)
    → 0 < p.config.ip_max_failures
    → 0 < p.config.account_max_failures
    → check (record_success p ip account) ip account now
      ≡ allowed_locked p.config (some p.global) p.config.global_max_failures now
unfolding check record_success allowed_locked
check-record_success p ip account now lt lt' =
    let key = normalize_account account in
    let none_left : count_locked p.config none now ≡ 0 = unfold count_locked in refl in
    elim (Bool-cases (key == [])) [
      | inl unnamed ↦ rw (unnamed, find-remove_self, none_left) (ground arith)
      | inr named ↦
          rw (named, find-remove_self ip p.by_ip, find-remove_self key p.by_account, none_left)
            (ground arith)
    ]
