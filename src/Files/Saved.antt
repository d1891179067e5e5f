-- ===== src/Files/Saved.antt =====
-- The backups that a transaction makes (internal/agent/transaction.go).
use mathlib.Core.Path.{subst}
use nx_panel.Files.{
  Disk, with_backup, Stat, missing, loop, found, Node, file, link, Fs, FileChange, BackupRecord,
  stat, backup_perm, is_skipped, backup_at, backup, backup_all,
}
use nx_panel.Files.Rollback.{IsPlain, IsFileOrFree, saves, changed_by, IsGood, stat-none, stat-file}
use nx_panel.Base.{
  ℕ, ◌+◌, ◌≡◌, refl, sym, ap, ◌∙◌, inl, inr, Bool, true, false, Option, none, some, List, [], ◌∷◌,
  arith, ◌==◌, nat_eq, text_eq, text_beq_iff, Bool-cases, Option-cases, All, Text,
}
use nx_panel.Base.Store.{find, find-put, find-put_self}

good_kept :
    (name : Text → Text) (in_dir : Text → Bool) (old fs : Fs) (b : BackupRecord) (content : Text)
    (perm : ℕ)
    → IsGood name in_dir old fs b
    → find b.file_path old ≡ some (file content perm)
    → find (name b.file_path) fs ≡ some (file content backup_perm)
good_kept name in_dir old fs b content perm (out, (at, inl gone)) h = absurd (cc (sym gone.1 ∙ h))
good_kept name in_dir old fs b content perm
      (out, (at, inr (there, (kept_content, (was, (kept, some_perm)))))) h =
    let same : kept_content ≡ content = cc (sym was ∙ h) in
    kept ∙ ap (λ c. some (file c backup_perm)) same

some-injective : {A : Type 0} {a b : A} → ◌≡◌ {A = Option A} (some a) (some b) → a ≡ b
some-injective h = cc h

module _ (name : Text → Text) (in_dir : Text → Bool) (names : (p : Text) → in_dir (name p) ≡ true)
    (apart : (p q : Text) → name p ≡ name q → p ≡ q) where
  record Saved (old fs : Fs) (path : Text) (r : Fs × BackupRecord) : Type 0 where
    is : r.1.file_path ≡ path
    good : IsGood name in_dir old r.0 r.1
    others : (q : Text) → (name path == q) ≡ false → find q r.0 ≡ find q fs

  save_node :
      (old fs : Fs) (path : Text) (r : Fs × BackupRecord) (node : Option Node)
      → in_dir path ≡ false
      → IsFileOrFree node
      → find path old ≡ node
      → find path fs ≡ node
      → backup_at name fs path (stat fs path) ≡ some r
      → Saved old fs path r
  unfolding backup_at
  save_node old fs path r none out plain was now h =
      let h' = rw (stat-none fs path now) at h in
      subst (Saved old fs path) (some-injective h')
        (record { is = refl; good = (out, (refl, inl (refl, was))); others = λ q ne. refl })
  save_node old fs path r (some (link target)) out plain was now h = elim plain [ ]
  save_node old fs path r (some (file content perm)) out plain was now h =
      let h' = rw (stat-file fs path content perm now) at h in
      subst (Saved old fs path) (some-injective h') (record {
        is = refl;
        good = (
          out,
          (
            refl,
            inr (
              refl,
              (content, (was, (find-put_self (name path) (file content backup_perm) fs, plain))),
            ),
          ),
        );
        others = λ q ne. rw (find-put (name path) q (file content backup_perm) fs, ne) refl;
      })

  backup-Saved :
      (failing : Bool) (old fs : Fs) (path : Text) (r : Fs × BackupRecord)
      → in_dir path ≡ false
      → IsFileOrFree (find path old)
      → find path fs ≡ find path old
      → backup name failing fs path ≡ some r
      → Saved old fs path r
  unfolding backup
  backup-Saved true old fs path r out plain same h = absurd (cc h)
  backup-Saved false old fs path r out plain same h =
      save_node old fs path r (find path old) out plain refl same h

  -- An earlier backup stays good.
  earlier :
      (old fs : Fs) (path : Text) (r : Fs × BackupRecord) (b : BackupRecord)
      → Saved old fs path r
      → IsGood name in_dir old fs b
      → IsGood name in_dir old r.0 b
  earlier old fs path r b s (out, (at, inl gone)) = (out, (at, inl gone))
  earlier old fs path r b s (out, (at, inr (there, (content, (was, (kept, some_perm)))))) = (
    out,
    (
      at,
      inr (
        there,
        (
          content,
          (
            was,
            (
              elim (Bool-cases (name path == name b.file_path)) [
                | inl same ↦
                    let e =
                      s.is
                      ∙ apart path b.file_path
                          ((text_beq_iff (name path) (name b.file_path)).0 same) in
                    ap (λ k. find (name k) r.0) (sym e)
                    ∙ good_kept name in_dir old r.0 r.1 content b.perm s.good
                        (ap (λ k. find k old) e ∙ was)
                | inr distinct ↦ s.others (name b.file_path) distinct ∙ kept
              ],
              some_perm,
            ),
          ),
        ),
      ),
    ),
  )

  dir_ne : (q p : Text) → in_dir q ≡ false → (name p == q) ≡ false
  dir_ne q p out = ground (arith, text_beq_iff (name p) q, ap in_dir, names p)

  -- What the backups of all changes leave, and of which paths.
  pub record Backed (old : Fs) (r : (Disk × List BackupRecord) × Bool) (backups : List BackupRecord)
      (changes : List FileChange) : Type 0 where
    pub good : All (IsGood name in_dir old r.0.0.files) r.0.1
    pub beside : (q : Text) → in_dir q ≡ false → find q r.0.0.files ≡ find q old
    pub keeps : (q : Text) → saves backups q ≡ true → saves r.0.1 q ≡ true
    pub every : (q : Text) → r.1 ≡ true → changed_by changes q ≡ true → saves r.0.1 q ≡ true

  module _ (fails : ℕ → Bool) (d : Disk) (ch : FileChange) (changes : List FileChange)
      (backups : List BackupRecord) where
    backup_all-skip :
        is_skipped ch.kind ≡ true
        → backup_all name fails d (ch ∷ changes) backups
          ≡ backup_all name (λ i. fails (i + 1)) d changes backups
    unfolding backup_all
    backup_all-skip h = ground arith

    backup_all-stop :
        is_skipped ch.kind ≡ false
        → backup name (fails 0) d.files ch.path ≡ none
        → backup_all name fails d (ch ∷ changes) backups ≡ ((d, backups), false)
    unfolding backup_all
    backup_all-stop h k = ground arith

    backup_all-cons :
        (r : Fs × BackupRecord)
        → is_skipped ch.kind ≡ false
        → backup name (fails 0) d.files ch.path ≡ some r
        → backup_all name fails d (ch ∷ changes) backups
          ≡ backup_all name (λ i. fails (i + 1)) (with_backup d r.0 r.1) changes (r.1 ∷ backups)
    unfolding backup_all
    backup_all-cons r h k = ground arith

  -- A path that did not exist leaves the files as they are.
  backup_at-files :
      (fs : Fs) (path : Text) (at : Stat) (r : Fs × BackupRecord)
      → backup_at name fs path at ≡ some r
      → r.1.existed ≡ false
      → r.0 ≡ fs
  unfolding backup_at
  backup_at-files fs path missing r h gone =
      sym (ap (λ (t : Fs × BackupRecord). t.0) (some-injective h))
  backup_at-files fs path loop r h gone = absurd (cc h)
  backup_at-files fs path (found at content perm) r h gone =
      absurd (cc (ap (λ (t : Fs × BackupRecord). t.1.existed) (some-injective h) ∙ gone))

  with_backup-files :
      (failing : Bool) (d : Disk) (path : Text) (r : Fs × BackupRecord)
      → backup name failing d.files path ≡ some r
      → r.0 ≡ (with_backup d r.0 r.1).files
  unfolding backup
  with_backup-files true d path r h = absurd (cc h)
  with_backup-files false d path r h = elim (Bool-cases r.1.existed) [
    | inl there ↦ rw there refl
    | inr gone ↦ rw gone (backup_at-files d.files path (stat d.files path) r h gone)
  ]

  All-earlier :
      (old fs : Fs) (path : Text) (r : Fs × BackupRecord) (backups : List BackupRecord)
      → Saved old fs path r
      → All (IsGood name in_dir old fs) backups
      → All (IsGood name in_dir old r.0) backups
  All-earlier old fs path r [] s h = tt
  All-earlier old fs path r (b ∷ backups) s h =
      (earlier old fs path r b s h.0, All-earlier old fs path r backups s h.1)

  pub backup_all-Backed :
      (fails : ℕ → Bool) (old : Fs) (d : Disk) (changes : List FileChange)
      (backups : List BackupRecord)
      → All (IsPlain in_dir old) changes
      → All (IsGood name in_dir old d.files) backups
      → ((q : Text) → in_dir q ≡ false → find q d.files ≡ find q old)
      → Backed old (backup_all name fails d changes backups) backups changes
  backup_all-Backed fails old d [] backups plain good beside =
      unfold backup_all in
      record { good = good; beside = beside; keeps = λ q h. h; every = λ q ok h. absurd (cc h) }
  backup_all-Backed fails old d (ch ∷ changes) backups plain good beside =
      let next = λ (i : ℕ). fails (i + 1) in
      elim (Bool-cases (is_skipped ch.kind)) [
        | inl skipped ↦
            let rest = backup_all-Backed next old d changes backups plain.1 good beside in
            subst (λ r. Backed old r backups (ch ∷ changes))
              (sym (backup_all-skip fails d ch changes backups skipped))
              (record {
                good = rest.good;
                beside = rest.beside;
                keeps = rest.keeps;
                every = λ q ok h. rest.every q ok (ground arith);
              })
        | inr kept ↦ elim (Option-cases (backup name (fails 0) d.files ch.path)) [
          | inl stop ↦
              subst (λ r. Backed old r backups (ch ∷ changes))
                (sym (backup_all-stop fails d ch changes backups kept stop))
                (record {
                  good = good;
                  beside = beside;
                  keeps = λ q h. h;
                  every = λ q ok h. absurd (cc ok);
                })
          | inr (r, made) ↦
              let s =
                backup-Saved (fails 0) old d.files ch.path r plain.0.outside plain.0.plain
                  (beside ch.path plain.0.outside) made in
              let whole : r.0 ≡ (with_backup d r.0 r.1).files =
                with_backup-files (fails 0) d ch.path r made in
              let rest =
                backup_all-Backed next old (with_backup d r.0 r.1) changes (r.1 ∷ backups) plain.1
                  (subst (λ f. All (IsGood name in_dir old f) (r.1 ∷ backups)) whole
                    (s.good, All-earlier old d.files ch.path r backups s good))
                  (λ q out.
                    ap (find q) (sym whole) ∙ s.others q (dir_ne q ch.path out) ∙ beside q out) in
              subst (λ t. Backed old t backups (ch ∷ changes))
                (sym (backup_all-cons fails d ch changes backups r kept made))
                (record {
                  good = rest.good;
                  beside = rest.beside;
                  keeps = λ q h. rest.keeps q (ground arith);
                  every = λ q ok h. elim (Bool-cases (ch.path == q)) [
                    | inl same ↦
                        let here = ap (λ p. p == q) s.is ∙ same in rest.keeps q (ground arith)
                    | inr distinct ↦ rest.every q ok (ground arith)
                  ];
                })
        ]
      ]
