-- ===== src/Files/Rollback.antt =====
-- What a transaction that fails leaves behind (internal/agent/transaction.go).
use nx_panel.Files.{
  Disk, with_restored, Node, file, link, Fs, ChangeType, check, write, remove, symlink, mkdir,
  truncate, chown, other, FileChange, BackupRecord, missing, found, follow, stat, backup_perm,
  is_skipped, write_perm, make_link, change_files, apply_one, apply_all, restored_perm, restore,
  rollback,
}
use nx_panel.Base.{
  ℕ, suc, ◌+◌, ◌<◌, ◌≡◌, refl, sym, ap, ◌∙◌, ◌⊎◌, inl, inr, Bool, true, false, not, ◌&&◌, ◌||◌,
  Option, none, some, List, [], ◌∷◌, arith, ◌==◌, nat_eq, text_eq, text_beq_iff, if◌then◌else◌,
  Bool-cases, any, All, Text,
}
use nx_panel.Base.Store.{find, put, find-put, find-remove}
use nx_panel.Base.Store

unfoldable pub is_truncate : ChangeType → Bool
is_truncate truncate = true
is_truncate _ = false

-- A path that is free, or a file with some permission.
abbrev pub IsFileOrFree : Option Node → Type 0
IsFileOrFree none = Unit
IsFileOrFree (some (file content perm)) = 0 < perm
IsFileOrFree (some (link target)) = ⊥

-- A change that a rollback can undo: its path lies outside the backup directory and is no link, and
-- it does not truncate.
pub record IsPlain (in_dir : Text → Bool) (fs : Fs) (ch : FileChange) : Type 0 where
  pub outside : in_dir ch.path ≡ false
  pub plain : IsFileOrFree (find ch.path fs)
  pub kept : is_truncate ch.kind ≡ false

abbrev pub saves : List BackupRecord → Text → Bool
saves backups q = any (λ b. b.file_path == q) backups

abbrev pub changed_by : List FileChange → Text → Bool
changed_by changes q = any (λ ch. not (is_skipped ch.kind) && ch.path == q) changes

make_link-other :
    (fs : Fs) (ch : FileChange) (q : Text) (there : Option Node)
    → (ch.path == q) ≡ false
    → find q (make_link fs ch there).0 ≡ find q fs
unfolding make_link
make_link-other fs ch q none ne = ground (arith, find-put ch.path q (link ch.target) fs)
make_link-other fs ch q (some node) ne = refl

-- A change leaves the other paths.
change_files-other :
    (kind : ChangeType) (fails : Bool → Bool) (fs : Fs) (ch : FileChange) (q : Text)
    → is_truncate kind ≡ false
    → (not (is_skipped kind) && ch.path == q) ≡ false
    → find q (change_files kind fails fs ch).0 ≡ find q fs
unfolding change_files is_skipped is_truncate
change_files-other check fails fs ch q kept ne = refl
change_files-other write fails fs ch q kept ne = elim (Bool-cases (fails false || fails true)) [
  | inl failed ↦ rw failed refl
  | inr done ↦ rw done (
      ground
        (arith, find-put ch.path q (file ch.content (write_perm ch.perm (stat fs ch.path))) fs))
]
change_files-other remove fails fs ch q kept ne = elim (Bool-cases (fails true)) [
  | inl failed ↦ rw failed refl
  | inr done ↦ rw done (ground (arith, find-remove ch.path q fs))
]
change_files-other symlink fails fs ch q kept ne =
    let fs' = if fails false then fs else Store.remove ch.path fs in
    let cleared : find q fs' ≡ find q fs = ground (arith, find-remove ch.path q fs) in
    elim (Bool-cases (fails true)) [
      | inl failed ↦ rw failed cleared
      | inr done ↦ rw done (make_link-other fs' ch q (find ch.path fs') ne ∙ cleared)
    ]
change_files-other mkdir fails fs ch q kept ne = refl
change_files-other truncate fails fs ch q kept ne = absurd (cc kept)
change_files-other chown fails fs ch q kept ne = refl
change_files-other other fails fs ch q kept ne = refl

pub apply_all-other :
    (web_user : Text) (fails : ℕ → Bool → Bool) (d : Disk) (changes : List FileChange) (q : Text)
    → All (λ ch. is_truncate ch.kind ≡ false) changes
    → changed_by changes q ≡ false
    → find q (apply_all web_user fails d changes).0.files ≡ find q d.files
unfolding apply_all apply_one
apply_all-other web_user fails d [] q kept ne = refl
apply_all-other web_user fails d (ch ∷ changes) q kept ne =
    let first = change_files-other ch.kind (fails 0) d.files ch q kept.0 (ground arith) in
    let rest =
      apply_all-other web_user (λ i. fails (i + 1)) (apply_one web_user (fails 0) d ch).0 changes q
        kept.1 (ground arith) in
    elim (Bool-cases (change_files ch.kind (fails 0) d.files ch).1) [
      | inl done ↦ rw done (rest ∙ first)
      | inr failed ↦ rw failed first
    ]

-- A backup that holds what its path was, beside the file system as it is.
abbrev pub IsGood : (Text → Text) → (Text → Bool) → Fs → Fs → BackupRecord → Type 0
IsGood name in_dir old fs b =
    (in_dir b.file_path ≡ false)
    × ((b.backup_path ≡ name b.file_path)
        × (((b.existed ≡ false) × (find b.file_path old ≡ none))
            ⊎ ((b.existed ≡ true)
                × ((content : Text) × ((find b.file_path old ≡ some (file content b.perm))
                      × ((find (name b.file_path) fs ≡ some (file content backup_perm))
                          × (0 < b.perm)))))))

-- A backup stays good where only another path outside the directory changes.
IsGood-put :
    (name : Text → Text) (in_dir : Text → Bool) (old fs fs' : Fs) (b : BackupRecord)
    → find (name b.file_path) fs' ≡ find (name b.file_path) fs
    → IsGood name in_dir old fs b
    → IsGood name in_dir old fs' b
IsGood-put name in_dir old fs fs' b same (out, (at, inl gone)) = (out, (at, inl gone))
IsGood-put name in_dir old fs fs' b same
      (out, (at, inr (there, (content, (was, (kept, some_perm)))))) =
    (out, (at, inr (there, (content, (was, (same ∙ kept, some_perm))))))

pub All-IsGood :
    (name : Text → Text) (in_dir : Text → Bool) (old fs fs' : Fs) (backups : List BackupRecord)
    → ((p : Text) → in_dir p ≡ false → find (name p) fs' ≡ find (name p) fs)
    → All (IsGood name in_dir old fs) backups
    → All (IsGood name in_dir old fs') backups
All-IsGood name in_dir old fs fs' [] same h = tt
All-IsGood name in_dir old fs fs' (b ∷ backups) same h = (
  IsGood-put name in_dir old fs fs' b (same b.file_path h.0.0) h.0,
  All-IsGood name in_dir old fs fs' backups same h.1,
)

-- A good backup gives its path what it was, and leaves the others.
record Restored (old fs : Fs) (b : BackupRecord) : Type 0 where
  after : Fs
  restored : restore false fs b ≡ some after
  paths : (q : Text) → find q after ≡ (if b.file_path == q then find q old else find q fs)

if_old :
    (p q : Text) (old : Fs) (x y : Option Node)
    → find p old ≡ x
    → (if p == q then x else y) ≡ (if p == q then find q old else y)
if_old p q old x y was = elim (Bool-cases (p == q)) [
  | inl same ↦ rw same (sym was ∙ ap (λ k. find k old) ((text_beq_iff p q).0 same))
  | inr distinct ↦ rw distinct refl
]

follow-none :
    (links : ℕ) (fs : Fs) (path : Text) → find path fs ≡ none → follow (suc links) fs path ≡ missing
unfolding follow
follow-none links fs path h = ground arith

follow-file :
    (links : ℕ) (fs : Fs) (path content : Text) (perm : ℕ)
    → find path fs ≡ some (file content perm)
    → follow (suc links) fs path ≡ found path content perm
unfolding follow
follow-file links fs path content perm h = ground arith

pub stat-none : (fs : Fs) (path : Text) → find path fs ≡ none → stat fs path ≡ missing
unfolding stat
stat-none fs path h = follow-none 40 fs path h

pub stat-file :
    (fs : Fs) (path content : Text) (perm : ℕ)
    → find path fs ≡ some (file content perm)
    → stat fs path ≡ found path content perm
unfolding stat
stat-file fs path content perm h = follow-file 40 fs path content perm h

restore_file :
    (fs : Fs) (b : BackupRecord) (content : Text)
    → b.existed ≡ true
    → find b.backup_path fs ≡ some (file content backup_perm)
    → 0 < b.perm
    → restore false fs b ≡ some (put b.file_path (file content b.perm) fs)
unfolding restore
restore_file fs b content there kept some_perm =
    let perm : restored_perm b.perm ≡ b.perm = ground arith in
    rw (there, stat-file fs b.backup_path content backup_perm kept)
      (ap (λ m. some (put b.file_path (file content m) fs)) perm)

restore_lem :
    (name : Text → Text) (in_dir : Text → Bool) (old fs : Fs) (b : BackupRecord)
    → IsGood name in_dir old fs b
    → Restored old fs b
unfolding restore
restore_lem name in_dir old fs b (out, (at, inl (gone, was))) = record {
  after = Store.remove b.file_path fs;
  restored = rw gone refl;
  paths = λ q. find-remove b.file_path q fs ∙ if_old b.file_path q old none (find q fs) was;
}
restore_lem name in_dir old fs b (out, (at, inr (there, (content, (was, (kept, some_perm)))))) =
    record {
      after = put b.file_path (file content b.perm) fs;
      restored = restore_file fs b content there (ap (λ k. find k fs) at ∙ kept) some_perm;
      paths = λ q.
          find-put b.file_path q (file content b.perm) fs
          ∙ if_old b.file_path q old (some (file content b.perm)) (find q fs) was;
    }

rollback-cons :
    (d : Disk) (after : Fs) (b : BackupRecord) (backups : List BackupRecord)
    → restore false d.files b ≡ some after
    → rollback (λ i. false) d (b ∷ backups)
      ≡ rollback (λ i. false) (with_restored false d after b) backups
unfolding rollback
rollback-cons d after b backups h = ground arith

module _ (name : Text → Text) (in_dir : Text → Bool)
    (names : (p : Text) → in_dir (name p) ≡ true) where
  pub name_ne : (p q : Text) → in_dir p ≡ false → (p == name q) ≡ false
  name_ne p q out = ground (arith, text_beq_iff p (name q), ap in_dir, names q)

  pub rollback_lem :
      (old : Fs) (d : Disk) (backups : List BackupRecord)
      → All (IsGood name in_dir old d.files) backups
      → (q : Text)
      → find q (rollback (λ i. false) d backups).0.files
        ≡ (if saves backups q then find q old else find q d.files)
  rollback_lem old d [] h q = unfold rollback in refl
  rollback_lem old d (b ∷ backups) h q =
      let r = restore_lem name in_dir old d.files b h.0 in
      let kept =
        All-IsGood name in_dir old d.files r.after backups
          (λ p out. r.paths (name p) ∙ rw (name_ne b.file_path p h.0.0) refl) h.1 in
      let rest = rollback_lem old (with_restored false d r.after b) backups kept q in
      ap (λ (s : Disk × Bool). find q s.0.files) (rollback-cons d r.after b backups r.restored)
      ∙ rest
      ∙ ground (arith, r.paths q)
