-- ===== src/Files/Undone.antt =====
-- Transactions and requests that fail (internal/agent/transaction.go, handlers.go).
use nx_panel.Files.{
  Disk, FileChange, BackupRecord, backup_all, apply_all, Failures, Reply, applied, unconfirmed,
}
use nx_panel.Base.{Bool, true, false, List, [], nat_eq, text_eq, Text}

module _ (name : Text → Text) (web_user : Text) (failures : Failures) (d : Disk)
    (changes : List FileChange) where
  abbrev saved_all : (Disk × List BackupRecord) × Bool
  saved_all = backup_all name failures.in_backup d changes []

  abbrev changed_all : Disk × Bool
  changed_all = apply_all web_user failures.in_change saved_all.0.0 changes

-- Replies after which the changes stay.
abbrev pub is_kept : Reply → Bool
is_kept unconfirmed = true
is_kept applied = true
is_kept _ = false
