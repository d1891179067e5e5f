-- ===== src/Files.antt =====
-- File transactions of the agent (internal/agent/transaction.go) behind their checks: backup,
-- changes and rollback, and the handler that runs them (internal/agent/handlers.go). A disk has a map
-- from clean paths to files and links, its directories, and the owners of the paths that do not belong
-- to the agent. A write of `writeFileAtomic` replaces what stands at its path, a link included, by a
-- file of the agent, or leaves it. Which calls of the system fail is a parameter, `fails i` those for
-- the change of number i; a call that fails changes nothing.
pub mod Rollback
pub mod Saved
pub mod Undone
mod Tests
use nx_panel.Base.{
  ℕ, zero, suc, ◌+◌, ◌-◌, ◌*◌, ◌/◌, ◌%◌, ◌^◌, ◌≤◌, ◌<◌, min, max, String, ◌≡◌, refl, sym, ap, ◌∙◌,
  ◌≢◌, ◌↔◌, ◌⊎◌, inl, inr, Bool, true, false, not, ◌&&◌, ◌||◌, Option, none, some, List, [], ◌∷◌,
  ◌++◌, map, reverse, append-nil, append_assoc, arith, ltb, leb, nat_beq, nat_beq_iff, Eq, ◌==◌,
  nat_eq, text_eq, text_beq, text_beq_iff, if◌then◌else◌, ltb→lt, lt→ltb, leb→le, le→leb, tests,
  Bool-cases, Option-cases, length, get_elem?, take, drop, keep, any, all, All, All-append,
  All-drop, length-append, length-take, length-drop, length-keep, drop-append, take-append, Text,
  codes, is_upper, is_lower, is_digit, is_space, lower, to_lower, trim_left, trim_space,
}
use nx_panel.Base.Result.{Result, ok, err}
use nx_panel.Base.Store.{Store, find, put}
use nx_panel.Base.Store

pub data Node : Type 0 where
  file : Text → ℕ → Node
  link : Text → Node

abbrev pub Fs : Type 0
Fs = Store Text Node

pub record Disk : Type 0 where
  pub files : Fs
  pub dirs : List Text
  pub owners : Store Text Text

abbrev slash : ℕ
slash = b'/'

-- The directories above a path, outermost first: what stands before each slash but the root.
unfoldable pub parents_from : Text → Text → List Text
parents_from front [] = []
parents_from front (c ∷ path) =
    let rest = parents_from (front ++ (c ∷ [])) path in
    if (c == slash) && not (front == []) then front ∷ rest else rest

unfoldable pub add_dirs : List Text → List Text → List Text
add_dirs [] dirs = dirs
add_dirs (dir ∷ more) dirs =
    add_dirs more (if any (λ d. d == dir) dirs then dirs else dirs ++ (dir ∷ []))

-- os.MkdirAll of a path's directory
abbrev pub make_parents : Text → List Text → List Text
make_parents path dirs = add_dirs (parents_from [] path) dirs

-- os.MkdirAll, without the permissions of directories
abbrev pub make_dir : Text → List Text → List Text
make_dir path dirs = add_dirs (parents_from [] path ++ (path ∷ [])) dirs

pub data ChangeType : Type 0 where
  check write remove symlink mkdir truncate chown other : ChangeType

-- `perm` is 0 where no permission is asked for.
pub record FileChange : Type 0 where
  pub kind : ChangeType
  pub path : Text
  pub target : Text
  pub content : Text
  pub perm : ℕ

pub record BackupRecord : Type 0 where
  pub file_path : Text
  pub backup_path : Text
  pub existed : Bool
  pub perm : ℕ

-- What os.Stat finds behind links: nothing, too many links, or a file at a path.
pub data Stat : Type 0 where
  missing loop : Stat
  found : Text → Text → ℕ → Stat

-- The links of a path, up to a bound; targets are absolute.
unfoldable pub follow : ℕ → Fs → Text → Stat
follow zero fs path = loop
follow (suc links) fs path = elim (find path fs) [
  | none ↦ missing
  | some (file content perm) ↦ found path content perm
  | some (link target) ↦ follow links fs target
]

-- os.Stat; Linux follows 40 links.
unfoldable pub stat : Fs → Text → Stat
stat fs path = follow 41 fs path

-- Modes 0600, 0644 and 0755.
abbrev pub backup_perm : ℕ
backup_perm = 384

abbrev pub default_perm : ℕ
default_perm = 420

unfoldable pub is_skipped : ChangeType → Bool
is_skipped mkdir = true
is_skipped chown = true
is_skipped check = true
is_skipped _ = false

abbrev pub with_backup : Disk → Fs → BackupRecord → Disk
with_backup d fs b =
    if b.existed
    then record d {
      files = fs;
      dirs = make_parents b.backup_path d.dirs;
      owners = Store.remove b.backup_path d.owners;
    }
    else d

-- `name` gives the backup's path of a path: the backup directory with `backupFileName`.
module _ (name : Text → Text) where
  -- `backup` with what os.Stat finds
  unfoldable pub backup_at : Fs → Text → Stat → Option (Fs × BackupRecord)
  backup_at fs path missing =
      some (fs, record { file_path = path; backup_path = name path; existed = false; perm = 0 })
  backup_at fs path loop = none
  backup_at fs path (found at content perm) = some (
    put (name path) (file content backup_perm) fs,
    record { file_path = path; backup_path = name path; existed = true; perm = perm },
  )

  -- `none` is an error.
  unfoldable pub backup : Bool → Fs → Text → Option (Fs × BackupRecord)
  unfolding backup_at
  backup failing fs path = if failing then none else backup_at fs path (stat fs path)

  -- The loop over the changes: the backups, the last one first, and whether all were made. A copy
  -- makes its directory and belongs to the agent.
  unfoldable pub backup_all :
      (ℕ → Bool) → Disk → List FileChange → List BackupRecord → (Disk × List BackupRecord) × Bool
  unfolding backup is_skipped
  backup_all fails d [] backups = ((d, backups), true)
  backup_all fails d (ch ∷ changes) backups = elim (is_skipped ch.kind) [
    | true ↦ backup_all (λ i. fails (i + 1)) d changes backups
    | false ↦ elim (backup (fails 0) d.files ch.path) [
      | none ↦ ((d, backups), false)
      | some (fs, b) ↦ backup_all (λ i. fails (i + 1)) (with_backup d fs b) changes (b ∷ backups)
    ]
  ]

abbrev pub write_perm : ℕ → Stat → ℕ
write_perm zero (found at content perm) = perm
write_perm zero missing = default_perm
write_perm zero loop = default_perm
write_perm (suc perm) at = suc perm

unfoldable pub truncate_at : Fs → Stat → Fs × Bool
truncate_at fs (found at content perm) = (put at (file [] perm) fs, true)
truncate_at fs missing = (fs, false)
truncate_at fs loop = (fs, false)

-- os.Symlink, with what stands at the path
unfoldable pub make_link : Fs → FileChange → Option Node → Fs × Bool
make_link fs ch none = (put ch.path (link ch.target) fs, true)
make_link fs ch (some there) = (fs, false)

-- What `applyOne` does to files and links, and whether it succeeds. `fails true` is the last call of
-- the system that the change makes, `fails false` the one before: MkdirAll before a write, the removal
-- before a symbolic link is made.
unfoldable pub change_files : ChangeType → (Bool → Bool) → Fs → FileChange → Fs × Bool
unfolding truncate_at make_link
change_files check fails fs ch = (fs, true)
change_files write fails fs ch =
    if fails false || fails true
    then (fs, false)
    else (put ch.path (file ch.content (write_perm ch.perm (stat fs ch.path))) fs, true)
change_files remove fails fs ch =
    if fails true then (fs, false) else (Store.remove ch.path fs, true)
change_files symlink fails fs ch =
    let fs' = if fails false then fs else Store.remove ch.path fs in
    if fails true then (fs', false) else make_link fs' ch (find ch.path fs')
change_files mkdir fails fs ch = (fs, not (fails true))
change_files truncate fails fs ch =
    if fails true then (fs, false) else truncate_at fs (stat fs ch.path)
change_files chown fails fs ch = (fs, not (fails true))
change_files other fails fs ch = (fs, false)

-- The directories that `applyOne` makes.
unfoldable pub change_dirs : ChangeType → (Bool → Bool) → List Text → FileChange → List Text
change_dirs write fails dirs ch = if fails false then dirs else make_parents ch.path dirs
change_dirs mkdir fails dirs ch = if fails true then dirs else make_dir ch.path dirs
change_dirs _ fails dirs ch = dirs

-- The path behind a path's links.
abbrev pub real_path : Text → Stat → Text
real_path path (found at content perm) = at
real_path path missing = path
real_path path loop = path

-- What `applyOne` does to the owners: what is made anew belongs to the agent, and os.Chown gives what
-- stands behind the path's links to the user of the web, unless that is empty.
unfoldable pub change_owners :
    Text → ChangeType → (Bool → Bool) → Disk → FileChange → Store Text Text
change_owners web_user write fails d ch =
    if fails false || fails true then d.owners else Store.remove ch.path d.owners
change_owners web_user remove fails d ch =
    if fails true then d.owners else Store.remove ch.path d.owners
change_owners web_user symlink fails d ch =
    if fails false then d.owners else Store.remove ch.path d.owners
change_owners web_user chown fails d ch =
    if web_user == [] || fails true
    then d.owners
    else put (real_path ch.path (stat d.files ch.path)) web_user d.owners
change_owners web_user _ fails d ch = d.owners

unfoldable pub apply_one : Text → (Bool → Bool) → Disk → FileChange → Disk × Bool
unfolding change_files change_dirs change_owners
apply_one web_user fails d ch =
    let (fs, done) = change_files ch.kind fails d.files ch in
    (
      record {
        files = fs;
        dirs = change_dirs ch.kind fails d.dirs ch;
        owners = change_owners web_user ch.kind fails d ch;
      },
      done,
    )

unfoldable pub apply_all : Text → (ℕ → Bool → Bool) → Disk → List FileChange → Disk × Bool
unfolding apply_one
apply_all web_user fails d [] = (d, true)
apply_all web_user fails d (ch ∷ changes) =
    let (d', done) = apply_one web_user (fails 0) d ch in
    let rest = apply_all web_user (λ i. fails (i + 1)) d' changes in
    if done then rest else (d', false)

abbrev pub restored_perm : ℕ → ℕ
restored_perm perm = if perm == 0 then default_perm else perm

-- One backup, restored; `fails` is its last call of the system.
unfoldable pub restore : Bool → Fs → BackupRecord → Option Fs
restore failing fs b =
    if not b.existed
    then some (if failing then fs else Store.remove b.file_path fs)
    else if failing
    then none
    else elim (stat fs b.backup_path) [
      | found at content perm ↦ some (put b.file_path (file content (restored_perm b.perm)) fs)
      | missing ↦ none
      | loop ↦ none
    ]

-- A file that is given back belongs to the agent; directories stay.
abbrev pub with_restored : Bool → Disk → Fs → BackupRecord → Disk
with_restored failing d fs b = record d {
  files = fs;
  owners = if failing then d.owners else Store.remove b.file_path d.owners;
}

-- `Rollback` over the backups, the last one first: whether it ends without an error.
unfoldable pub rollback : (ℕ → Bool) → Disk → List BackupRecord → Disk × Bool
rollback fails d [] = (d, true)
rollback fails d (b ∷ backups) = elim (restore (fails 0) d.files b) [
  | none ↦ (d, false)
  | some fs ↦ rollback (λ i. fails (i + 1)) (with_restored (fails 0) d fs b) backups
]

-- The calls of the system that fail: in the backups, the changes and the rollback.
pub record Failures : Type 0 where
  pub in_backup : ℕ → Bool
  pub in_change : ℕ → Bool → Bool
  pub in_rollback : ℕ → Bool

-- `Apply` behind its checks, with the backups: whether it succeeds.
unfoldable pub apply :
    (Text → Text) → Text → Failures → Disk → List FileChange → (Disk × List BackupRecord) × Bool
unfolding backup_all apply_all rollback
apply name web_user failures d changes =
    let ((backed, backups), saved) = backup_all name failures.in_backup d changes [] in
    let (changed, done) = apply_all web_user failures.in_change backed changes in
    if not saved
    then ((backed, backups), false)
    else if done
    then ((changed, backups), true)
    else (((rollback failures.in_rollback changed backups).0, backups), false)

pub data ReloadEnd : Type 0 where
  reloaded no_pid failed : ReloadEnd

-- What nginx answers on the configuration as it is; `is_ready` is true where the request waits for no
-- new workers.
pub record Nginx : Type 0 where
  pub test : Disk → Bool
  pub reload : Disk → ReloadEnd
  pub start : Disk → Bool
  pub is_ready : Disk → Bool

pub record TransactionRequest : Type 0 where
  pub test_nginx : Bool
  pub reload_nginx : Bool
  pub changes : List FileChange

pub data Reply : Type 0 where
  apply_failed test_failed start_failed reload_failed unconfirmed applied : Reply

abbrev pub confirm : Bool → Reply
confirm ready = if ready then applied else unconfirmed

-- What follows on a reload, with the disk as changed and as rolled back.
unfoldable pub after_reload : Nginx → ReloadEnd → Disk → Disk → Disk × Reply
after_reload nginx reloaded changed undone = (changed, confirm (nginx.is_ready changed))
after_reload nginx no_pid changed undone =
    if nginx.start changed
    then (changed, confirm (nginx.is_ready changed))
    else (undone, start_failed)
after_reload nginx failed changed undone = (undone, reload_failed)

unfoldable pub after_apply : Nginx → TransactionRequest → Disk → Disk → Disk × Reply
unfolding after_reload
after_apply nginx request changed undone =
    if request.test_nginx && not (nginx.test changed)
    then (undone, test_failed)
    else if request.reload_nginx
    then after_reload nginx (nginx.reload changed) changed undone
    else (changed, applied)

-- The handler of a transaction, from `Apply` on.
unfoldable pub run_transaction :
    (Text → Text) → Text → Failures → Nginx → Disk → TransactionRequest → Disk × Reply
unfolding apply after_apply
run_transaction name web_user failures nginx d request =
    let ((changed, backups), done) = apply name web_user failures d request.changes in
    if done
    then after_apply nginx request changed (rollback failures.in_rollback changed backups).0
    else (changed, apply_failed)
