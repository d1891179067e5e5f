-- ===== src/Archive/Spent.antt =====
-- What archive work spends of its budget (internal/agent/archive_budget.go).
use nx_panel.Base.{
  ℕ, zero, suc, ◌+◌, ◌-◌, ◌*◌, ◌/◌, ◌≤◌, ◌<◌, ◌≡◌, refl, ap, ◌↔◌, inl, inr, Bool, true, false, not,
  ◌||◌, List, [], ◌∷◌, arith, ltb, nat_beq_iff, ◌==◌, nat_eq, text_eq, if◌then◌else◌, Bool-cases,
  All,
}
use native.Mathlib.Nat.{div-lt_iff_lt-mul}
use nx_panel.Base.Int.{ℤ, pos, negsuc, pos_part}
use nx_panel.Archive.{
  ArchiveLimits, ArchiveBudget, clamp_int64, add_produced, add_extracted, budget_write, written,
  check_ratio, max_int64, Turn, ReadEnd, more, eof, read_error, CopyEnd, copied, stopped,
  CopyResult, resume, copy_budgeted, account_output, copy_archive_output,
}

-- A writer that keeps the contract of io.Writer takes at most what it is given.
abbrev pub IsWriter : (ℕ → ℕ × Bool) → Type 0
IsWriter dst = (k : ℕ) → (dst k).0 ≤ k

-- The archive never grows above its limit, the writer behind gets no more than fits, the counter is
-- what was written, and a write that ends well has written all of it.
pub budget_write_lem :
    (dst : ℕ → ℕ × Bool) (len : ℕ) (b : ArchiveBudget)
    → IsWriter dst
    → b.produced ≤ b.limits.max_archive_bytes
    → ((budget_write dst len b).0.produced ≤ b.limits.max_archive_bytes)
      × ((budget_write dst len b).0.produced ≡ b.produced + (budget_write dst len b).1)
      × ((budget_write dst len b).1 ≤ len)
      × ((budget_write dst len b).2 ≡ written → (budget_write dst len b).1 ≡ len)
unfolding budget_write add_produced
budget_write_lem dst len b h le =
    let fits = h (b.limits.max_archive_bytes - b.produced) in let all_of_it = h len in ground arith

-- What holds at each turn: what was written is what was counted.
record IsWithin (start entry_size : ℕ) (limits : ArchiveLimits) (seen : ℕ) (b : ArchiveBudget)
    : Type 0 where
  same : b.limits ≡ limits
  entry : seen ≤ entry_size
  bytes : seen ≤ limits.max_entry_bytes
  counted : b.extracted ≡ start + seen
  spent : start + seen ≤ limits.max_extracted

record IsSpent (start entry_size : ℕ) (limits : ArchiveLimits) (r : CopyResult (ℕ × ArchiveBudget))
    : Type 0 where
  entry : r.1 ≤ entry_size
  bytes : r.1 ≤ limits.max_entry_bytes
  spent : start + r.1 ≤ limits.max_extracted
  counted : r.2 ≡ copied → r.0.1.extracted ≡ start + r.1

stop-IsSpent :
    (start entry_size : ℕ) (limits : ArchiveLimits) (seen : ℕ) (b : ArchiveBudget)
    (a : ℕ × ArchiveBudget) (total : ℕ) (e : CopyEnd)
    → IsWithin start entry_size limits seen b
    → total ≤ seen
    → (e ≡ copied → a.1.extracted ≡ start + total)
    → IsSpent start entry_size limits (a, total, e)
stop-IsSpent start entry_size limits seen b a total e h le c = record {
  entry = omega (arith, h.entry);
  bytes = omega (arith, h.bytes);
  spent = omega (arith, h.spent);
  counted = c;
}

resume-IsSpent :
    (start entry_size : ℕ) (limits : ArchiveLimits) (seen : ℕ) (b : ArchiveBudget) (end : ReadEnd)
    (next : CopyResult (ℕ × ArchiveBudget))
    → IsWithin start entry_size limits seen b
    → IsSpent start entry_size limits next
    → IsSpent start entry_size limits (resume end next (seen, b) seen)
unfolding resume
resume-IsSpent start entry_size limits seen b more next h n = n
resume-IsSpent start entry_size limits seen b eof next h n =
    stop-IsSpent start entry_size limits seen b (seen, b) seen copied h (omega arith)
      (λ e. h.counted)
resume-IsSpent start entry_size limits seen b read_error next h n =
    stop-IsSpent start entry_size limits seen b (seen, b) seen _ h (omega arith) (λ e. h.counted)

abbrev grown : ℕ → ArchiveBudget → ArchiveBudget
grown n b = record b { extracted = b.extracted + n }

-- A chunk that the account lets through is within all limits.
account_output-fits :
    (entry_size n seen : ℕ) (b : ArchiveBudget)
    → (account_output entry_size n (seen, b)).1 ≡ true
    → ((account_output entry_size n (seen, b)).0 ≡ (seen + n, grown n b))
      × (seen + n ≤ entry_size)
      × (seen + n ≤ b.limits.max_entry_bytes)
      × (b.extracted + n ≤ b.limits.max_extracted)
unfolding account_output add_extracted
account_output-fits entry_size n seen b fits =
    elim (Bool-cases (ltb entry_size (seen + n) || ltb b.limits.max_entry_bytes (seen + n))) [
      | inl over ↦ absurd (ground arith)
      | inr under ↦ (rw under refl, ground arith, ground arith, ground arith)
    ]

if-IsSpent :
    (start entry_size : ℕ) (limits : ArchiveLimits) (c : Bool)
    (x y : CopyResult (ℕ × ArchiveBudget))
    → (c ≡ true → IsSpent start entry_size limits x)
    → (c ≡ false → IsSpent start entry_size limits y)
    → IsSpent start entry_size limits (if c then x else y)
if-IsSpent start entry_size limits true x y hx hy = hx refl
if-IsSpent start entry_size limits false x y hx hy = hy refl

grown-IsWithin :
    (start entry_size : ℕ) (limits : ArchiveLimits) (n seen : ℕ) (b : ArchiveBudget)
    → IsWithin start entry_size limits seen b
    → (account_output entry_size n (seen, b)).1 ≡ true
    → IsWithin start entry_size limits (seen + n) (grown n b)
grown-IsWithin start entry_size limits n seen b h fits =
    let (same, entry, bytes, spent) = account_output-fits entry_size n seen b fits in
    record {
      same = h.same;
      entry = entry;
      bytes = rw h.same at bytes;
      counted = omega (arith, h.counted);
      spent = omega (arith, h.counted, (rw h.same at spent));
    }

copy_budgeted-IsSpent :
    (start entry_size : ℕ) (limits : ArchiveLimits) (turns : List Turn) (seen : ℕ)
    (b : ArchiveBudget)
    → All (λ t. t.wrote ≤ t.read) turns
    → IsWithin start entry_size limits seen b
    → IsSpent start entry_size limits
        (copy_budgeted (account_output entry_size) turns (seen, b) seen)
unfolding copy_budgeted
copy_budgeted-IsSpent start entry_size limits [] seen b w h =
    stop-IsSpent start entry_size limits seen b (seen, b) seen _ h (omega arith) (λ e. h.counted)
copy_budgeted-IsSpent start entry_size limits (t ∷ ts) seen b w h =
    let account = account_output entry_size in
    let r = account t.read (seen, b) in
    let idle = copy_budgeted account ts (seen, b) seen in
    let next = copy_budgeted account ts r.0 (seen + t.wrote) in
    let total = seen + t.wrote in
    let if_spent = if-IsSpent start entry_size limits in
    let stops = stop-IsSpent start entry_size limits in
    let idle_spent = copy_budgeted-IsSpent start entry_size limits ts seen b w.1 h in
    if_spent t.cancelled _ _
      (λ c. stops seen b (seen, b) seen stopped h (omega arith) (λ e. h.counted))
      (λ c.
        if_spent (t.read == 0) _ _
          (λ z. resume-IsSpent start entry_size limits seen b t.read_end idle h idle_spent)
          (λ z.
            if_spent (not r.1) _ _ (λ spent. stops seen b r.0 seen _ h (omega arith) (λ e. cc e))
              (λ fits.
                let sound = grown-IsWithin start entry_size limits t.read seen b h (ground arith) in
                let same = (account_output-fits entry_size t.read seen b (ground arith)).0 in
                let ih =
                  copy_budgeted-IsSpent start entry_size limits ts (seen + t.read) (grown t.read b)
                    w.1 sound in
                if_spent t.write_fails _ _
                  (λ f.
                    stops (seen + t.read) (grown t.read b) r.0 total _ sound (omega (arith, w.0))
                      (λ e. cc e))
                  (λ f.
                    if_spent (not (t.wrote == t.read)) _ _
                      (λ d.
                        stops (seen + t.read) (grown t.read b) r.0 total _ sound
                          (omega (arith, w.0)) (λ e. cc e))
                      (λ d.
                        let equal : t.wrote ≡ t.read = ground (arith, nat_beq_iff t.wrote t.read) in
                        rw (same, equal)
                          (resume-IsSpent start entry_size limits (seen + t.read) (grown t.read b)
                            t.read_end
                            (copy_budgeted account ts (seen + t.read, grown t.read b)
                              (seen + t.read))
                            sound ih))))))

-- Extracting an entry, whatever its reader and a writer that keeps its contract do, writes at most
-- the entry's size, the limit of an entry, and what is left of the budget; at a good end the budget
-- has counted exactly what was written.
pub copy_archive_output_lem :
    (turns : List Turn) (b : ArchiveBudget) (entry_size : ℕ)
    → All (λ t. t.wrote ≤ t.read) turns
    → b.extracted ≤ b.limits.max_extracted
    → ((copy_archive_output turns b entry_size).1 ≤ entry_size)
      × ((copy_archive_output turns b entry_size).1 ≤ b.limits.max_entry_bytes)
      × (b.extracted + (copy_archive_output turns b entry_size).1 ≤ b.limits.max_extracted)
      × ((copy_archive_output turns b entry_size).2 ≡ copied
          → (copy_archive_output turns b entry_size).0.1.extracted
            ≡ b.extracted + (copy_archive_output turns b entry_size).1)
unfolding copy_archive_output
copy_archive_output_lem turns b entry_size w le =
    let start : IsWithin b.extracted entry_size b.limits 0 b = record {
      same = refl;
      entry = omega arith;
      bytes = omega arith;
      counted = omega arith;
      spent = omega arith;
    } in
    let r = copy_budgeted-IsSpent b.extracted entry_size b.limits turns 0 b w start in
    (r.entry, r.bytes, r.spent, r.counted)

-- A setting that is clamped lies between its bounds, and is kept if it lay there.
pub clamp_int64_lem :
    (value : ℤ) (fallback least most : ℕ)
    → least ≤ most
    → (least ≤ clamp_int64 value fallback least most)
      × (clamp_int64 value fallback least most ≤ most)
      × ((n : ℕ)
          → value ≡ pos n
          → 0 < n
          → least ≤ n
          → n ≤ most
          → clamp_int64 value fallback least most ≡ n)
unfolding clamp_int64
clamp_int64_lem (negsuc k) fallback least most le =
    (ground arith, ground arith, λ n e lt above below. absurd (cc e))
clamp_int64_lem (pos zero) fallback least most le = (
  ground arith,
  ground arith,
  λ n e lt above below. let z : 0 ≡ n = ap pos_part e in absurd (omega arith),
)
clamp_int64_lem (pos (suc k)) fallback least most le = (
  ground arith,
  ground arith,
  λ n e lt above below. let same : suc k ≡ n = ap pos_part e in ground arith,
)

-- The test of the ratio is exact for sizes that fit in int64, although it avoids the product that
-- might not: it passes exactly if nothing is extracted, or if what is extracted is at most the ratio
-- times what was read, and something was.
pub check_ratio_lem :
    (n m ratio : ℕ)
    → n ≤ max_int64
    → 0 < ratio
    → 0 < n
    → (check_ratio (pos n) (pos m) ratio ≡ true) ↔ ((0 < m) × (n ≤ m * ratio))
unfolding check_ratio
check_ratio_lem n m ratio le r some_byte =
    let exact : (max_int64 / ratio < m) ↔ (max_int64 < m * ratio) = div-lt_iff_lt-mul r in
    ground (arith, exact.0, exact.1)
