-- ===== src/Archive/Tests.antt =====
-- Budgets at concrete inputs.
use nx_panel.Base.{
  ℕ, ◌+◌, ◌*◌, ◌≤◌, ◌<◌, ◌≡◌, refl, ◌↔◌, Bool, true, false, List, [], ◌∷◌, arith, nat_eq, text_eq,
}
use nx_panel.Base.Int.{pos}
use nx_panel.Archive.{
  ArchiveLimits, ArchiveBudget, clamp_int64, add_input, add_produced, add_extracted, budget_write,
  written, check_ratio, Turn, more, eof, copied, resume, copy_budgeted, account_output,
  copy_archive_output,
}
use nx_panel.Archive.Spent.{
  budget_write_lem, copy_archive_output_lem, clamp_int64_lem, check_ratio_lem,
}

opened : Unit {0}
unfolding clamp_int64 add_input add_produced add_extracted budget_write check_ratio resume
    copy_budgeted account_output copy_archive_output
opened = tt

abbrev limits : ArchiveLimits
limits = record {
  max_input_bytes = 50;
  max_archive_bytes = 10;
  max_extracted = 30;
  max_entry_bytes = 20;
  max_ratio = 100;
}

abbrev fresh : ArchiveBudget
fresh = record { limits = limits; input = 0; produced = 7; extracted = 5 }

abbrev chunk : ℕ → Turn
chunk n = record { cancelled = false; read = n; read_end = more; wrote = n; write_fails = false }

abbrev turns : List Turn
turns =
    chunk 4
    ∷ chunk 6
    ∷ record { cancelled = false; read = 0; read_end = eof; wrote = 0; write_fails = false }
    ∷ []

archive_tests :
    ((copy_archive_output turns fresh 10).1 ≡ 10)
    × ((copy_archive_output turns fresh 9).1 ≡ 4)
    × ((budget_write (λ k. (k, false)) 5 fresh).1 ≡ 3)
    × ((add_input 51 fresh).1 ≡ false)
unfolding opened
archive_tests = (refl, refl, refl, refl)

abbrev all_of : ℕ → ℕ × Bool
all_of k = (k, false)

budget_write_lem_example :
    ((budget_write all_of 5 fresh).0.produced ≤ 10)
    × ((budget_write all_of 5 fresh).0.produced ≡ 7 + (budget_write all_of 5 fresh).1)
    × ((budget_write all_of 5 fresh).1 ≤ 5)
    × ((budget_write all_of 5 fresh).2 ≡ written → (budget_write all_of 5 fresh).1 ≡ 5)
budget_write_lem_example = budget_write_lem all_of 5 fresh (λ k. omega arith) (omega arith)

copy_archive_output_lem_example :
    ((copy_archive_output turns fresh 10).1 ≤ 10)
    × ((copy_archive_output turns fresh 10).1 ≤ 20)
    × (5 + (copy_archive_output turns fresh 10).1 ≤ 30)
    × ((copy_archive_output turns fresh 10).2 ≡ copied
        → (copy_archive_output turns fresh 10).0.1.extracted
          ≡ 5 + (copy_archive_output turns fresh 10).1)
copy_archive_output_lem_example =
    copy_archive_output_lem turns fresh 10 (omega arith, (omega arith, (omega arith, tt)))
      (omega arith)

clamp_int64_lem_example :
    (1 ≤ clamp_int64 (pos 7) 5 1 10)
    × (clamp_int64 (pos 7) 5 1 10 ≤ 10)
    × ((n : ℕ) → pos 7 ≡ pos n → 0 < n → 1 ≤ n → n ≤ 10 → clamp_int64 (pos 7) 5 1 10 ≡ n)
clamp_int64_lem_example = clamp_int64_lem (pos 7) 5 1 10 (omega arith)

check_ratio_lem_example : (check_ratio (pos 900) (pos 9) 100 ≡ true) ↔ ((0 < 9) × (900 ≤ 9 * 100))
check_ratio_lem_example = check_ratio_lem 900 9 100 (omega arith) (omega arith) (omega arith)
