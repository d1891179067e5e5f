-- ===== src/Files/Tests.antt =====
-- Transactions at concrete inputs.
use nx_panel.Files.{
  Disk, Reply, chown, parents_from, add_dirs, change_dirs, change_owners, file, link, Fs,
  ChangeType, write, remove, symlink, mkdir, truncate, FileChange, follow, stat, is_skipped,
  backup_at, backup, backup_all, truncate_at, make_link, change_files, apply_one, apply_all,
  restore, rollback, Failures, apply, Nginx, no_pid, TransactionRequest, apply_failed, test_failed,
  applied, after_reload, after_apply, run_transaction,
}
use nx_panel.Files.Rollback.{is_truncate}
use nx_panel.Base.{
  true, ◌≡◌, refl, Bool, false, some, List, [], ◌∷◌, ltb, nat_beq, text_eq, text_beq, Text, codes,
}
use nx_panel.Base.Store.{find, put}
use nx_panel.Base.Store

opened : Unit {0}
unfolding parents_from add_dirs follow stat is_skipped backup_at backup backup_all truncate_at
    make_link change_files change_dirs change_owners apply_one apply_all restore rollback apply
    after_reload after_apply run_transaction is_truncate find put Store.remove text_beq
opened = tt

-- A backup stands in `b/`.
abbrev backup_name : Text → Text
backup_name p = b'b' ∷ b'/' ∷ p

abbrev in_backups : Text → Bool
in_backups [] = false
in_backups (c ∷ p) = nat_beq c b'b'

abbrev change : ChangeType → Text → Text → FileChange
change kind path content = record {
  kind = kind;
  path = path;
  target = content;
  content = content;
  perm = 0;
}

-- The last change fails.
abbrev failures : Failures
failures = record {
  in_backup = λ i. false;
  in_change = λ i last. ltb 2 i;
  in_rollback = λ i. false;
}

abbrev disk : Fs → Disk
disk files = record { files = files; dirs = []; owners = (codes "/x", codes "www") ∷ [] }

abbrev files : Fs
files = (codes "/x", file (codes "one") 384) ∷ (codes "/y", file (codes "two") 420) ∷ []

abbrev changes : List FileChange
changes =
    change write (codes "/x") (codes "new")
    ∷ change remove (codes "/y") []
    ∷ change symlink (codes "/z") (codes "/x")
    ∷ change write (codes "/x") (codes "last")
    ∷ []

-- The test of nginx fails, or its reload finds no process and the start works.
abbrev nginx : Bool → Nginx
nginx passed = record {
  test = λ fs. passed;
  reload = λ fs. no_pid;
  start = λ fs. true;
  is_ready = λ fs. true;
}

abbrev request : List FileChange → TransactionRequest
request wanted = record { test_nginx = true; reload_nginx = true; changes = wanted }

abbrev restored : Fs
restored =
    (codes "/x", file (codes "one") 384)
    ∷ (codes "b//x", file (codes "one") 384)
    ∷ (codes "b//y", file (codes "two") 384)
    ∷ (codes "/y", file (codes "two") 420)
    ∷ []

abbrev two_changes : List FileChange
two_changes = change write (codes "/x") (codes "new") ∷ change remove (codes "/y") [] ∷ []

abbrev run : Bool → List FileChange → Disk × Reply
run passed changes =
    run_transaction backup_name (codes "www") failures (nginx passed) (disk files) (request changes)

run_transaction_tests :
    ((run true changes).0.files ≡ restored)
    × ((run true changes).1 ≡ apply_failed)
    × ((run false two_changes).0.files ≡ restored)
    × ((run false two_changes).1 ≡ test_failed)
    × ((run true two_changes).0.files
        ≡ (codes "/x", file (codes "new") 384)
          ∷ (codes "b//x", file (codes "one") 384)
          ∷ (codes "b//y", file (codes "two") 384)
          ∷ [])
    × ((run true two_changes).1 ≡ applied)
unfolding opened
run_transaction_tests = (refl, refl, refl, refl, refl, refl)

abbrev site_changes : List FileChange
site_changes =
    change mkdir (codes "/d/e") []
    ∷ change chown (codes "/y") []
    ∷ change write (codes "/x") (codes "new")
    ∷ []

-- After a failed test the directories that were made are still there, the owner that was set stays
-- set, and the file that was given back has lost its owner.
left_over_tests :
    ((run false site_changes).0.dirs ≡ codes "b" ∷ codes "b/" ∷ codes "/d" ∷ codes "/d/e" ∷ [])
    × ((run false site_changes).0.owners ≡ (codes "/y", codes "www") ∷ [])
unfolding opened
left_over_tests = (refl, refl)

abbrev mkdirs : FileChange
mkdirs = change mkdir (codes "/d") []

abbrev linked : Fs
linked = (codes "/x", link (codes "/y")) ∷ (codes "/y", file (codes "two") 420) ∷ []

-- A link is undone to a copy of the file behind it, and a truncation through a link is not undone.
linked_tests :
    (find
        (codes "/x")
        (apply backup_name [] failures (disk linked) (
          change write (codes "/x") []
          ∷ mkdirs
          ∷ mkdirs
          ∷ change write (codes "/x") []
          ∷ [])).0.0.files
      ≡ some (file (codes "two") 420))
    × (find
          (codes "/y")
          (apply backup_name [] failures (disk linked) (
            change truncate (codes "/x") []
            ∷ mkdirs
            ∷ mkdirs
            ∷ change write (codes "/x") []
            ∷ [])).0.0.files
        ≡ some (file [] 420))
unfolding opened
linked_tests = (refl, refl)
