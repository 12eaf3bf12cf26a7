-- ===== src/Fs/State.antt =====
-- A POSIX file system with hard links, and what the calls of `std::fs` do to it. A directory is a
-- path in `dirs`; renaming a directory and symbolic links are left out.
use i_tan_reclaim_space.Base.{
  ℕ, suc, Bytes, length, Bool, true, false, if◌then◌else◌, List, [], ◌∷◌, ◌++◌, Option, none, some,
  ite, ℕ_discrete, take,
}
use i_tan_reclaim_space.Base.Results.{Result, ok, err}
use i_tan_reclaim_space.Fs.Path.{Name, FilePath, path_dec}
use i_tan_reclaim_space.Fs.Table.{Table, find, erase, bind, names, children}

-- `std::io::Error`, by its kind or its number.
pub data IoError : Type 0 where
  not_found already_exists permission_denied text_busy not_a_directory is_a_directory : IoError
  os_error : ℕ → IoError

pub record Inode : Type 0 where
  pub content : Bytes
  pub mode : ℕ
  pub mtime : ℕ

pub record Fs : Type 0 where
  pub table : Table
  pub inode : ℕ → Inode
  pub next_ino : ℕ
  pub dirs : List FilePath

-- `std::fs::Metadata`
pub record Metadata : Type 0 where
  pub is_dir : Bool
  pub len : ℕ
  pub mode : ℕ
  pub nlink : ℕ
  pub ino : ℕ
  pub mtime : Option ℕ

abbrev pub set_inode : ℕ → Inode → (ℕ → Inode) → ℕ → Inode
set_inode i x f j = ite (ℕ_discrete j i) x (f j)

unfoldable pub has_dir : FilePath → List FilePath → Bool
has_dir p [] = false
has_dir p (d ∷ ds) = ite (path_dec p d) true (has_dir p ds)

-- Whether a file may be created at the path: its directory is there.
unfoldable pub has_parent : FilePath → Fs → Bool
unfolding has_dir
has_parent [] fs = false
has_parent (n ∷ p) fs = has_dir p fs.dirs

unfoldable pub subdirs : FilePath → List FilePath → List Name
subdirs d [] = []
subdirs d ([] ∷ ds) = subdirs d ds
subdirs d ((n ∷ q) ∷ ds) = ite (path_dec q d) (n ∷ subdirs d ds) (subdirs d ds)

abbrev pub file_metadata : ℕ → Fs → Metadata
file_metadata i fs = record {
  is_dir = false;
  len = length (fs.inode i).content;
  mode = (fs.inode i).mode;
  nlink = names i fs.table;
  ino = i;
  mtime = some (fs.inode i).mtime;
}

-- A directory is linked from its parent and from itself.
abbrev pub dir_metadata : Metadata
dir_metadata = record { is_dir = true; len = 4096; mode = 0o755; nlink = 2; ino = 0; mtime = none }

-- `fs::metadata`
unfoldable pub metadata_of : FilePath → Fs → Result IoError Metadata
unfolding has_dir
metadata_of p fs = elim (find p fs.table) [
  | some i ↦ ok (file_metadata i fs)
  | none ↦ if has_dir p fs.dirs then ok dir_metadata else err not_found
]

-- `fs::hard_link`
unfoldable pub link_op : FilePath → FilePath → Fs → Result IoError (Unit {0}) × Fs
unfolding has_dir has_parent
link_op src dst fs = elim (find src fs.table) [
  | none ↦ (err not_found, fs)
  | some i ↦ elim (find dst fs.table) [
    | some j ↦ (err already_exists, fs)
    | none ↦
        if has_dir dst fs.dirs
        then (err already_exists, fs)
        else if has_parent dst fs
        then (ok tt, record fs { table = bind dst i fs.table })
        else (err not_found, fs)
  ]
]

-- The table after a rename of `src`, which names the inode `i`.
unfoldable pub replace : FilePath → FilePath → ℕ → Option ℕ → Table → Table
replace src dst i none t = bind dst i (erase src t)
replace src dst i (some j) t = ite (ℕ_discrete i j) t (bind dst i (erase src t))

-- `fs::rename`, which is rename(2): two names of one inode are left as they are.
unfoldable pub rename_op : FilePath → FilePath → Fs → Result IoError (Unit {0}) × Fs
unfolding has_dir has_parent replace
rename_op src dst fs = elim (find src fs.table) [
  | none ↦ (err not_found, fs)
  | some i ↦
      if has_dir dst fs.dirs
      then (err is_a_directory, fs)
      else if has_parent dst fs
      then (ok tt, record fs { table = replace src dst i (find dst fs.table) fs.table })
      else (err not_found, fs)
]

-- `fs::remove_file`
unfoldable pub remove_op : FilePath → Fs → Result IoError (Unit {0}) × Fs
remove_op p fs = elim (find p fs.table) [
  | none ↦ (err not_found, fs)
  | some i ↦ (ok tt, record fs { table = erase p fs.table })
]

-- `fs::set_permissions`
unfoldable pub chmod_op : FilePath → ℕ → Fs → Result IoError (Unit {0}) × Fs
chmod_op p m fs = elim (find p fs.table) [
  | none ↦ (err not_found, fs)
  | some i ↦ (ok tt, record fs { inode = set_inode i (record (fs.inode i) { mode = m }) fs.inode })
]

-- What `fs::copy` leaves in an existing destination: it is truncated before it is read, so a
-- copy of a file onto itself empties it.
unfoldable pub overwrite : ℕ → ℕ → ℕ → Fs → Fs
overwrite i j now fs = record fs {
  inode =
      set_inode j
        (record {
          content = ite (ℕ_discrete i j) [] (fs.inode i).content;
          mode = (fs.inode i).mode;
          mtime = now;
        })
        fs.inode;
}

-- A new file with the content and the permissions of the inode.
unfoldable pub create : FilePath → ℕ → ℕ → Fs → Fs
create dst i now fs = record fs {
  table = bind dst fs.next_ino fs.table;
  inode = set_inode fs.next_ino (record (fs.inode i) { mtime = now }) fs.inode;
  next_ino = suc fs.next_ino;
}

-- `fs::copy`
unfoldable pub copy_op : FilePath → FilePath → ℕ → Fs → Result IoError (Unit {0}) × Fs
unfolding has_dir has_parent overwrite create
copy_op src dst now fs = elim (find src fs.table) [
  | none ↦ (err not_found, fs)
  | some i ↦ elim (find dst fs.table) [
    | some j ↦ (ok tt, overwrite i j now fs)
    | none ↦
        if has_dir dst fs.dirs
        then (err is_a_directory, fs)
        else if has_parent dst fs
        then (ok tt, create dst i now fs)
        else (err not_found, fs)
  ]
]

-- A file that was cut to so many bytes.
unfoldable pub truncate : FilePath → ℕ → Fs → Fs
truncate p k fs = elim (find p fs.table) [
  | none ↦ fs
  | some j ↦ record fs {
    inode = set_inode j (record (fs.inode j) { content = take k (fs.inode j).content }) fs.inode;
  }
]

abbrev pub cut_short : FilePath → ℕ → Result IoError (Unit {0}) × Fs → Fs
cut_short dst k (ok _, fs) = truncate dst k fs
cut_short dst k (err e, fs) = fs

-- What `fs::copy` leaves when it fails after so many bytes: it has made the destination already.
unfoldable pub partial_copy_op : FilePath → FilePath → ℕ → ℕ → Fs → Fs
unfolding copy_op truncate
partial_copy_op src dst k now fs = cut_short dst k (copy_op src dst now fs)

-- The path and those above it, the innermost first.
abbrev pub ancestors_in : FilePath → List FilePath
ancestors_in [] = [] ∷ []
ancestors_in (n ∷ p) = (n ∷ p) ∷ ancestors_in p

unfoldable pub has_file : List FilePath → Table → Bool
has_file [] t = false
has_file (p ∷ ps) t = elim (find p t) [ some i ↦ true | none ↦ has_file ps t ]

-- The directories with those that are missing.
unfoldable pub make_dirs : List FilePath → List FilePath → List FilePath
unfolding has_dir
make_dirs [] ds = ds
make_dirs (p ∷ ps) ds = let made = make_dirs ps ds in if has_dir p made then made else p ∷ made

-- `fs::create_dir_all`
unfoldable pub mkdir_op : FilePath → Fs → Result IoError (Unit {0}) × Fs
unfolding has_file make_dirs
mkdir_op p fs =
    if has_file (ancestors_in p) fs.table
    then (err not_a_directory, fs)
    else (ok tt, record fs { dirs = make_dirs (ancestors_in p) fs.dirs })

-- `fs::read_dir`
unfoldable pub read_dir_of : FilePath → Fs → Result IoError (List Name)
unfolding has_dir children subdirs
read_dir_of d fs =
    if has_dir d fs.dirs then ok (children d fs.table ++ subdirs d fs.dirs) else err not_found

-- The bytes of an open file.
unfoldable pub read_of : FilePath → Fs → Result IoError Bytes
read_of p fs = elim (find p fs.table) [ none ↦ err not_found | some i ↦ ok (fs.inode i).content ]
