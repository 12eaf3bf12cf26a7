-- ===== src/Fs/Handles.antt =====
-- The part of `std::fs::File` that the program calls. An open file is the number of its inode.
use i_tan_reclaim_space.Base.{
  ℕ, suc, Bytes, [], ◌++◌, none, some, if◌then◌else◌, length, take, drop, replicate, ◌-◌,
}
use i_tan_reclaim_space.Base.Results.{Result, ok, err}
use i_tan_reclaim_space.Fs.Path.{FilePath}
use i_tan_reclaim_space.Fs.Table.{find, bind}
use i_tan_reclaim_space.Fs.State.{
  Fs, IoError, not_found, is_a_directory, has_dir, has_parent, set_inode,
}
use i_tan_reclaim_space.Fs.World.{M, query, syscall}

abbrev pub open_of : FilePath → Fs → Result IoError ℕ
open_of path fs = elim (find path fs.table) [ none ↦ err not_found | some i ↦ ok i ]

-- `File::open`
unfoldable pub file_open : FilePath → M IoError ℕ
unfolding query
file_open path = query (open_of path)

-- The file with the content in place of its own.
abbrev pub with_content : ℕ → Bytes → ℕ → Fs → Fs
with_content i content now fs = record fs {
  inode = set_inode i (record (fs.inode i) { content = content; mtime = now }) fs.inode;
}

-- A new empty file.
abbrev pub with_new : FilePath → ℕ → Fs → Fs
with_new path now fs = record fs {
  table = bind path fs.next_ino fs.table;
  inode = set_inode fs.next_ino (record { content = []; mode = 0o644; mtime = now }) fs.inode;
  next_ino = suc fs.next_ino;
}

-- `File::create`, and opening with `write`, `create` and `truncate`.
unfoldable pub create_op : FilePath → ℕ → Fs → Result IoError ℕ × Fs
unfolding has_dir has_parent
create_op path now fs = elim (find path fs.table) [
  | some i ↦ (ok i, with_content i [] now fs)
  | none ↦
      if has_dir path fs.dirs
      then (err is_a_directory, fs)
      else if has_parent path fs
      then (ok fs.next_ino, with_new path now fs)
      else (err not_found, fs)
]

unfoldable pub file_create : FilePath → M IoError ℕ
unfolding syscall create_op
file_create path = syscall (create_op path)

-- `Write::write_all` at the start of the file. What a failed one has written is up to the surroundings.
unfoldable pub write_all : ℕ → Bytes → M IoError (Unit {0})
unfolding syscall
write_all file bytes = syscall λ now fs.
    (ok tt, with_content file (bytes ++ drop (length bytes) (fs.inode file).content) now fs)

-- `Write::flush`
unfoldable pub flush : ℕ → M IoError (Unit {0})
unfolding query
flush file = query (λ fs. ok tt)

-- `File::set_len`
unfoldable pub set_len : ℕ → ℕ → M IoError (Unit {0})
unfolding syscall
set_len file size = syscall λ now fs.
    let content = (fs.inode file).content in
    (ok tt, with_content file (take size content ++ replicate (size - length content) 0) now fs)
