-- ===== src/Fs/Runs/Files.antt =====
-- How each call on files runs in a world whose calls succeed and whose other processes do not interfere.
use i_tan_reclaim_space.Base.{ℕ, ◌≡◌, ◌≢◌, refl, ap, Bool, true, false, [], ◌∷◌, none, some, arith}
use i_tan_reclaim_space.Base.Results.{ok, err}
use i_tan_reclaim_space.Fs.Path.{Name, FilePath}
use i_tan_reclaim_space.Fs.Table.{Table, find, erase, bind}
use i_tan_reclaim_space.Fs.State.{
  Fs, already_exists, has_dir, has_parent, replace, link_op, rename_op, chmod_op, remove_op,
  copy_op, create, set_inode, metadata_of,
}
use i_tan_reclaim_space.Fs.World.{World, calm, query, syscall, take_turn}
use i_tan_reclaim_space.Fs.Calls.{
  hard_link, rename, remove_file, copy, set_permissions, exists, metadata, is_ok,
}

abbrev pub with_table : Table → World → World
with_table t w = record (calm w) { fs = record w.fs { table = t } }

pub hard_link-calm :
    (src dst : FilePath) (i : ℕ) (w : World)
    → find src w.fs.table ≡ some i
    → find dst w.fs.table ≡ none
    → has_dir dst w.fs.dirs ≡ false
    → has_parent dst w.fs ≡ true
    → hard_link src dst (calm w) ≡ (ok tt, with_table (bind dst i w.fs.table) w)
unfolding hard_link syscall take_turn link_op
hard_link-calm src dst i w hs hd hdir hp = ground arith

pub rename-calm :
    (src dst : FilePath) (i j : ℕ) (w : World)
    → find src w.fs.table ≡ some i
    → find dst w.fs.table ≡ some j
    → i ≢ j
    → has_dir dst w.fs.dirs ≡ false
    → has_parent dst w.fs ≡ true
    → rename src dst (calm w) ≡ (ok tt, with_table (bind dst i (erase src w.fs.table)) w)
unfolding rename syscall take_turn rename_op replace
rename-calm src dst i j w hs hd ne hdir hp = ground arith

-- The world after a change of mode.
abbrev pub with_mode : ℕ → ℕ → World → World
with_mode i m w = record (calm w) {
  fs = record w.fs { inode = set_inode i (record (w.fs.inode i) { mode = m }) w.fs.inode };
}

pub set_permissions-calm :
    (p : FilePath) (m i : ℕ) (w : World)
    → find p w.fs.table ≡ some i
    → set_permissions p m (calm w) ≡ (ok tt, with_mode i m w)
unfolding set_permissions syscall take_turn chmod_op
set_permissions-calm p m i w h = ground arith

pub has_parent-table :
    (p : FilePath) (t : Table) (fs : Fs) → has_parent p (record fs { table = t }) ≡ has_parent p fs
unfolding has_parent
has_parent-table [] t fs = refl
has_parent-table (n ∷ p) t fs = refl

pub has_parent-dirs :
    (p : FilePath) (fs v : Fs) → fs.dirs ≡ v.dirs → has_parent p fs ≡ has_parent p v
unfolding has_parent
has_parent-dirs [] fs v e = refl
has_parent-dirs (n ∷ p) fs v e = ap (has_dir p) e

pub remove_file-calm :
    (p : FilePath) (i : ℕ) (w : World)
    → find p w.fs.table ≡ some i
    → remove_file p (calm w) ≡ (ok tt, with_table (erase p w.fs.table) w)
unfolding remove_file syscall take_turn remove_op
remove_file-calm p i w h = ground arith

-- rename(2) leaves two names of one inode as they are.
pub rename_same :
    (src dst : FilePath) (i : ℕ) (w : World)
    → find src w.fs.table ≡ some i
    → find dst w.fs.table ≡ some i
    → has_dir dst w.fs.dirs ≡ false
    → has_parent dst w.fs ≡ true
    → rename src dst (calm w) ≡ (ok tt, calm w)
unfolding rename syscall take_turn rename_op replace
rename_same src dst i w hs hd hdir hp = ground arith

pub hard_link_taken :
    (src dst : FilePath) (i j : ℕ) (w : World)
    → find src w.fs.table ≡ some i
    → find dst w.fs.table ≡ some j
    → hard_link src dst (calm w) ≡ (err already_exists, calm w)
unfolding hard_link syscall take_turn link_op
hard_link_taken src dst i j w hs hd = ground arith

-- Whether a path leads to a file or a directory.
abbrev pub there : FilePath → Fs → Bool
there p fs = is_ok (metadata_of p fs)

pub exists-calm :
    {E : Type 0} (p : FilePath) (w : World)
    → exists {E = E} p (calm w) ≡ (ok (there p w.fs), calm w)
unfolding exists metadata query syscall take_turn
exists-calm p w = refl

-- What is not there is neither a file nor a directory.
pub there_absent :
    (p : FilePath) (fs : Fs)
    → find p fs.table ≡ none
    → has_dir p fs.dirs ≡ false
    → there p fs ≡ false
unfolding metadata_of
there_absent p fs f d = ground arith

pub absent_there :
    (p : FilePath) (fs : Fs)
    → there p fs ≡ false
    → (find p fs.table ≡ none) × (has_dir p fs.dirs ≡ false)
unfolding metadata_of
absent_there p fs h = ground arith

pub there_found : (p : FilePath) (i : ℕ) (fs : Fs) → find p fs.table ≡ some i → there p fs ≡ true
unfolding metadata_of
there_found p i fs f = ground arith

pub dir_there : (p : FilePath) (fs : Fs) → has_dir p fs.dirs ≡ true → there p fs ≡ true
unfolding metadata_of
dir_there p fs d = ground arith

pub rename_fresh :
    (src dst : FilePath) (i : ℕ) (w : World)
    → find src w.fs.table ≡ some i
    → find dst w.fs.table ≡ none
    → has_dir dst w.fs.dirs ≡ false
    → has_parent dst w.fs ≡ true
    → rename src dst (calm w) ≡ (ok tt, with_table (bind dst i (erase src w.fs.table)) w)
unfolding rename syscall take_turn rename_op replace
rename_fresh src dst i w hs hd hdir hp = ground arith

-- The world with a new copy of an inode.
abbrev pub copied : FilePath → ℕ → World → World
copied dst i w = record (calm w) { fs = create dst i w.now w.fs }

pub copy_fresh :
    (src dst : FilePath) (i : ℕ) (w : World)
    → find src w.fs.table ≡ some i
    → find dst w.fs.table ≡ none
    → has_dir dst w.fs.dirs ≡ false
    → has_parent dst w.fs ≡ true
    → copy src dst (calm w) ≡ (ok tt, copied dst i w)
unfolding copy syscall take_turn copy_op
copy_fresh src dst i w hs hd hdir hp = ground arith

pub has_parent-cons :
    (n : Name) (p : FilePath) (fs : Fs) → has_parent (n ∷ p) fs ≡ has_dir p fs.dirs
unfolding has_parent
has_parent-cons n p fs = refl
