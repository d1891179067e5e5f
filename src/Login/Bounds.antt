-- ===== src/Login/Bounds.antt =====
-- The sizes of the two stores (internal/api/middleware/login_protection.go).
use nx_panel.Base.{
  ℕ, zero, suc, ◌≤◌, ◌<◌, ◌≡◌, refl, ◌≢◌, inl, inr, Bool, true, false, not, List, [], ◌∷◌, arith,
  leb, ◌==◌, nat_eq, text_eq, text_beq_iff, if◌then◌else◌, Bool-cases, Option-cases, length,
  length-keep, Text,
}
use nx_panel.Base.Int.{ℤ, positive_or, pos, negsuc}
use nx_panel.Base.Store.{
  find, put, remove, put-IsMap, put-All, keep-IsMap, keep-All, length-put_new, length-put_old,
  length-remove-le, remove-IsMap, remove-All,
}
use nx_panel.Login.{
  FailRecord, Records, Config, Limits, LoginProtection, new, normalize_config, is_expired,
  purge_map_locked, evict_oldest_locked, enforce_cardinality_locked, increment_locked, admit_locked,
  record_locked, purge_expired_locked, reload_config, record_failure, record_success,
  normalize_account,
}
use nx_panel.Login.Eviction.{
  IsNamedMap, evict_oldest_locked-IsNamedMap, length-evict_oldest_locked,
  enforce_cardinality_locked-IsNamedMap, length-enforce_cardinality_locked,
}

-- A store fits a limit.
pub record Fits (most : ℕ) (m : Records) : Type 0 where
  pub shape : IsNamedMap m
  pub size : length m ≤ most

put-IsNamedMap :
    (k : Text) (rec : FailRecord) (m : Records) → k ≢ [] → IsNamedMap m → IsNamedMap (put k rec m)
put-IsNamedMap k rec m ne h = record {
  is_map = put-IsMap k rec m h.is_map;
  named = put-All (λ e. e.0 ≢ []) k rec m ne h.named;
}

purge-IsNamedMap :
    (c : Limits) (m : Records) (now : ℕ) → IsNamedMap m → IsNamedMap (purge_map_locked c m now)
unfolding purge_map_locked
purge-IsNamedMap c m now h = record {
  is_map = keep-IsMap (λ e. not (is_expired c e.1 now)) m h.is_map;
  named = keep-All (λ e. e.0 ≢ []) (λ e. not (is_expired c e.1 now)) m h.named;
}

length-purge : (c : Limits) (m : Records) (now : ℕ) → length (purge_map_locked c m now) ≤ length m
unfolding purge_map_locked
length-purge c m now = length-keep (λ e. not (is_expired c e.1 now)) m

purge-Fits :
    (c : Limits) (most : ℕ) (m : Records) (now : ℕ)
    → Fits most m
    → Fits most (purge_map_locked c m now)
purge-Fits c most m now h = record {
  shape = purge-IsNamedMap c m now h.shape;
  size = omega (arith, length-purge c m now, h.size);
}

room-Fits :
    (most : ℕ) (m : Records)
    → 0 < most
    → Fits most m
    → (b : Bool) → b ≡ leb most (length m)
    → IsNamedMap (if b then evict_oldest_locked m else m)
      × (length (if b then evict_oldest_locked m else m) < most)
room-Fits most m lt h true e = (
  evict_oldest_locked-IsNamedMap m h.shape,
  omega (arith, length-evict_oldest_locked m h.shape, h.size),
)
room-Fits most m lt h false e = (h.shape, ground arith)

pub length-put-le :
    (k : Text) (rec : FailRecord) (m : Records) → length (put k rec m) ≤ suc (length m)
length-put-le k rec m = elim (Option-cases (find k m)) [
  | inl absent ↦ omega (arith, length-put_new k rec m absent)
  | inr (r, found) ↦ omega (arith, length-put_old k rec m (λ gone. cc (found, gone)))
]

admit-Fits :
    (c : Limits) (m : Records) (key : Text) (now : ℕ)
    → 0 < c.max_entries
    → key ≢ []
    → Fits c.max_entries m
    → Fits c.max_entries (admit_locked c m key now)
unfolding admit_locked
admit-Fits c m key now lt ne h =
    let purged = if leb c.max_entries (length m) then purge_map_locked c m now else m in
    let fits : Fits c.max_entries purged = elim (Bool-cases (leb c.max_entries (length m))) [
      | inl full ↦ rw full (purge-Fits c c.max_entries m now h)
      | inr room ↦ rw room h
    ] in
    let (shape, size) =
      room-Fits c.max_entries purged lt fits (leb c.max_entries (length purged)) refl in
    record {
      shape = put-IsNamedMap key _ _ ne shape;
      size = omega (
        arith,
        length-put-le key (record { count = 1; window_start = now })
            (if leb c.max_entries (length purged) then evict_oldest_locked purged else purged),
      );
    }

pub record_locked-Fits :
    (c : Limits) (m : Records) (key : Text) (now : ℕ)
    → 0 < c.max_entries
    → Fits c.max_entries m
    → Fits c.max_entries (record_locked c m key now)
unfolding record_locked
record_locked-Fits c m key now lt h = elim (Bool-cases (key == [])) [
  | inl unnamed ↦ rw unnamed h
  | inr named ↦
      let ne : key ≢ [] = ground (arith, text_beq_iff key []) in
      elim (Option-cases (find key m)) [
        | inl absent ↦ rw (named, absent) (admit-Fits c m key now lt ne h)
        | inr (rec, found) ↦
            rw (named, found)
              (record {
                shape = put-IsNamedMap key (increment_locked c rec now) m ne h.shape;
                size = omega (
                  arith,
                  length-put_old key (increment_locked c rec now) m (λ gone. cc (found, gone)),
                  h.size,
                );
              })
      ]
]

remove-Fits : (most : ℕ) (k : Text) (m : Records) → Fits most m → Fits most (remove k m)
remove-Fits most k m h = record {
  shape = record {
    is_map = remove-IsMap k m h.shape.is_map;
    named = remove-All (λ e. e.0 ≢ []) k m h.shape.named;
  };
  size = omega (arith, length-remove-le k m, h.size);
}

enforce-Fits :
    (c : Limits) (m : Records) → IsNamedMap m → Fits c.max_entries (enforce_cardinality_locked c m)
enforce-Fits c m h = record {
  shape = enforce_cardinality_locked-IsNamedMap c m h;
  size = omega (arith, length-enforce_cardinality_locked c m h);
}

pub record IsBounded (p : LoginProtection) : Type 0 where
  pub positive : 0 < p.config.max_entries
  pub ips : Fits p.config.max_entries p.by_ip
  pub accounts : Fits p.config.max_entries p.by_account

positive_or-pos : (d : ℕ) (x : ℤ) → 0 < d → 0 < positive_or d x
positive_or-pos d (pos zero) h = h
positive_or-pos d (pos (suc n)) h = omega arith
positive_or-pos d (negsuc n) h = h

empty-Fits : (most : ℕ) → Fits most []
empty-Fits most = record { shape = record { is_map = tt; named = tt }; size = omega arith }

pub new-IsBounded : (c : Config) → IsBounded (new c)
unfolding new normalize_config
new-IsBounded c = record {
  positive = positive_or-pos 10_000 c.max_entries (omega arith);
  ips = empty-Fits _;
  accounts = empty-Fits _;
}

pub record_failure-IsBounded :
    (p : LoginProtection) (ip account : Text) (now : ℕ)
    → IsBounded p
    → IsBounded (record_failure p ip account now)
unfolding record_failure
record_failure-IsBounded p ip account now h = record {
  positive = h.positive;
  ips = record_locked-Fits p.config p.by_ip ip now h.positive h.ips;
  accounts = elim (Bool-cases (normalize_account account == [])) [
    | inl unnamed ↦ rw unnamed h.accounts
    | inr named ↦ rw named (
        record_locked-Fits p.config p.by_account (normalize_account account) now h.positive
          h.accounts)
  ];
}

pub record_success-IsBounded :
    (p : LoginProtection) (ip account : Text)
    → IsBounded p
    → IsBounded (record_success p ip account)
unfolding record_success
record_success-IsBounded p ip account h = record {
  positive = h.positive;
  ips = remove-Fits p.config.max_entries ip p.by_ip h.ips;
  accounts = elim (Bool-cases (normalize_account account == [])) [
    | inl unnamed ↦ rw unnamed h.accounts
    | inr named ↦
        rw named
          (remove-Fits p.config.max_entries (normalize_account account) p.by_account h.accounts)
  ];
}

pub purge_expired_locked-IsBounded :
    (p : LoginProtection) (now : ℕ) → IsBounded p → IsBounded (purge_expired_locked p now)
unfolding purge_expired_locked
purge_expired_locked-IsBounded p now h = record {
  positive = h.positive;
  ips = purge-Fits p.config p.config.max_entries p.by_ip now h.ips;
  accounts = purge-Fits p.config p.config.max_entries p.by_account now h.accounts;
}

pub reload_config-IsBounded :
    (p : LoginProtection) (c : Config) (now : ℕ) → IsBounded p → IsBounded (reload_config p c now)
unfolding reload_config purge_expired_locked normalize_config
reload_config-IsBounded p c now h =
    let limits = normalize_config c in
    record {
      positive = positive_or-pos 10_000 c.max_entries (omega arith);
      ips = enforce-Fits limits _ (purge-IsNamedMap limits p.by_ip now h.ips.shape);
      accounts = enforce-Fits limits _ (purge-IsNamedMap limits p.by_account now h.accounts.shape);
    }

-- The calls that change the state, with the time at which each runs.
pub data Call : Type 0 where
  failure : (ip account : Text) (now : ℕ) → Call
  success : (ip account : Text) → Call
  reload : Config → (now : ℕ) → Call
  cleanup : (now : ℕ) → Call

pub call : LoginProtection → Call → LoginProtection
call p (failure ip account now) = record_failure p ip account now
call p (success ip account) = record_success p ip account
call p (reload c now) = reload_config p c now
call p (cleanup now) = purge_expired_locked p now

pub calls : LoginProtection → List Call → LoginProtection
calls p [] = p
calls p (x ∷ rest) = calls (call p x) rest

call-IsBounded : (p : LoginProtection) (x : Call) → IsBounded p → IsBounded (call p x)
unfolding call
call-IsBounded p (failure ip account now) h = record_failure-IsBounded p ip account now h
call-IsBounded p (success ip account) h = record_success-IsBounded p ip account h
call-IsBounded p (reload c now) h = reload_config-IsBounded p c now h
call-IsBounded p (cleanup now) h = purge_expired_locked-IsBounded p now h

calls-IsBounded : (p : LoginProtection) (xs : List Call) → IsBounded p → IsBounded (calls p xs)
unfolding calls
calls-IsBounded p [] h = h
calls-IsBounded p (x ∷ xs) h = calls-IsBounded (call p x) xs (call-IsBounded p x h)

-- From a new protection, after any calls, the limit is positive, each store holds at most that
-- many records, each key stands in its store once, and no key is empty.
pub calls-new-IsBounded : (c : Config) (xs : List Call) → IsBounded (calls (new c) xs)
calls-new-IsBounded c xs = calls-IsBounded (new c) xs (new-IsBounded c)
