-- ===== src/Archive.antt =====
-- Budgets of archive work (internal/agent/archive_budget.go): clamped settings, counters, the writer
-- that stops at the budget, and the copy loops. Counters are int64 in the source; they stay far
-- below its bound, since an addition is at most a buffer of 32 KiB above a limit of 16 GiB. What
-- `checkEntry` counts (entries and depth of names) is left out.
pub mod Spent
mod Tests
use nx_panel.Base.{
  ℕ, zero, suc, ◌+◌, ◌-◌, ◌*◌, ◌/◌, ◌%◌, ◌^◌, ◌≤◌, ◌<◌, min, max, String, ◌≡◌, refl, sym, ap, ◌∙◌,
  ◌≢◌, ◌↔◌, ◌⊎◌, inl, inr, Bool, true, false, not, ◌&&◌, ◌||◌, Option, none, some, List, [], ◌∷◌,
  ◌++◌, map, reverse, append-nil, append_assoc, arith, ltb, leb, nat_beq, nat_beq_iff, Eq, ◌==◌,
  nat_eq, text_eq, text_beq, text_beq_iff, if◌then◌else◌, ltb→lt, lt→ltb, leb→le, le→leb, tests,
  Bool-cases, Option-cases, length, get_elem?, take, drop, keep, any, all, All, All-append,
  All-drop, length-append, length-take, length-drop, length-keep, drop-append, take-append, Text,
  codes, is_upper, is_lower, is_digit, is_space, lower, to_lower, trim_left, trim_space,
}
use nx_panel.Base.Int.{ℤ, pos, negsuc, positive_or}

pub record ArchiveLimits : Type 0 where
  pub max_input_bytes : ℕ
  pub max_archive_bytes : ℕ
  pub max_extracted : ℕ
  pub max_entry_bytes : ℕ
  pub max_ratio : ℕ

pub record ArchiveBudget : Type 0 where
  pub limits : ArchiveLimits
  pub input : ℕ
  pub produced : ℕ
  pub extracted : ℕ

-- The bounds of a setting are positive.
pub clamp_int64 : ℤ → ℕ → ℕ → ℕ → ℕ
clamp_int64 value fallback least most =
    let v = positive_or fallback value in
    if ltb v least then least else if ltb most v then most else v

-- The counters go up even where the answer is an error, which is false here.
pub add_input : ℕ → ArchiveBudget → ArchiveBudget × Bool
add_input n b = (record b { input = b.input + n }, leb (b.input + n) b.limits.max_input_bytes)

pub add_produced : ℕ → ArchiveBudget → ArchiveBudget × Bool
add_produced n b =
    (record b { produced = b.produced + n }, leb (b.produced + n) b.limits.max_archive_bytes)

pub add_extracted : ℕ → ArchiveBudget → ArchiveBudget × Bool
add_extracted n b =
    (record b { extracted = b.extracted + n }, leb (b.extracted + n) b.limits.max_extracted)

abbrev pub max_int64 : ℕ
max_int64 = 9_223_372_036_854_775_807

-- `checkRatio`, true for nil
pub check_ratio : ℤ → ℤ → ℕ → Bool
check_ratio (negsuc n) compressed ratio = true
check_ratio (pos n) (negsuc m) ratio = n == 0
check_ratio (pos n) (pos m) ratio =
    n == 0 || not (m == 0 || (leb m (max_int64 / ratio) && ltb (m * ratio) n))

pub data WriteEnd : Type 0 where
  written over_budget short_write failed : WriteEnd

-- `budgetWriter.Write` of `len` bytes; `dst` is the writer behind it, with the number of bytes that
-- it takes and whether it fails.
pub budget_write : (ℕ → ℕ × Bool) → ℕ → ArchiveBudget → ArchiveBudget × ℕ × WriteEnd
budget_write dst len b =
    let remaining = b.limits.max_archive_bytes - b.produced in
    if remaining == 0
    then (b, 0, over_budget)
    else let part = if ltb remaining len then remaining else len in
      let (n, fails) = dst part in
      let (after, fits) = add_produced n b in
      (
        after,
        n,
        if not fits
            then over_budget
            else if fails
            then failed
            else if ltb n part
            then short_write
            else if ltb part len
            then over_budget
            else written,
      )

-- What the context, the reader and the writer do in one turn of `copyBudgeted`.
pub data ReadEnd : Type 0 where
  more eof read_error : ReadEnd

pub record Turn : Type 0 where
  pub cancelled : Bool
  pub read : ℕ
  pub read_end : ReadEnd
  pub wrote : ℕ
  pub write_fails : Bool

pub data CopyEnd : Type 0 where
  copied stopped budget_spent write_failed wrote_less read_failed unfinished : CopyEnd

abbrev pub CopyResult : Type 0 → Type 0
CopyResult S = S × ℕ × CopyEnd

-- What follows on a turn without an error but the reader's.
pub resume : {S : Type 0} → ReadEnd → CopyResult S → S → ℕ → CopyResult S
resume more next s total = next
resume eof next s total = (s, total, copied)
resume read_error next s total = (s, total, read_failed)

-- `copyBudgeted` on the turns that its surroundings take, from `total` on.
pub copy_budgeted : {S : Type 0} → (ℕ → S → S × Bool) → List Turn → S → ℕ → CopyResult S
copy_budgeted account [] s total = (s, total, unfinished)
copy_budgeted account (t ∷ ts) s total =
    let (after, fits) = account t.read s in
    let idle = copy_budgeted account ts s total in
    let next = copy_budgeted account ts after (total + t.wrote) in
    if t.cancelled
    then (s, total, stopped)
    else if t.read == 0
    then resume t.read_end idle s total
    else if not fits
    then (after, total, budget_spent)
    else if t.write_fails
    then (after, total + t.wrote, write_failed)
    else if not (t.wrote == t.read)
    then (after, total + t.wrote, wrote_less)
    else resume t.read_end next after (total + t.wrote)

-- The account of `copyArchiveOutput`: the bytes of the entry so far, and the budget.
pub account_output : ℕ → ℕ → ℕ × ArchiveBudget → (ℕ × ArchiveBudget) × Bool
account_output entry_size n (seen, b) =
    let (after, fits) = add_extracted n b in
    if ltb entry_size (seen + n) || ltb b.limits.max_entry_bytes (seen + n)
    then ((seen + n, b), false)
    else ((seen + n, after), fits)

pub copy_archive_output : List Turn → ArchiveBudget → ℕ → CopyResult (ℕ × ArchiveBudget)
copy_archive_output turns b entry_size = copy_budgeted (account_output entry_size) turns (0, b) 0
