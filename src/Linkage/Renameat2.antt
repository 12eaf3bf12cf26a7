-- ===== src/Linkage/Renameat2.antt =====
-- crates/itan-core/src/linkage.rs: renaming without replacing in the build with `linux-cow`. The system call is a
-- parameter.
use i_tan_reclaim_space.Base.{ℕ, ◌==◌, if◌then◌else◌}
use i_tan_reclaim_space.Fs.Calls.{c_string}
use i_tan_reclaim_space.Fs.Path.{FilePath}
use i_tan_reclaim_space.Fs.State.{IoError, already_exists, os_error}
use i_tan_reclaim_space.Fs.World.{M, map_err}
use i_tan_reclaim_space.Linkage.{RenameError, exists_already, failed}

-- `EEXIST` or `ENOTEMPTY`, which is 39 on Linux, against any other error.
abbrev classify_raw : IoError → RenameError
classify_raw already_exists = exists_already
classify_raw (os_error code) = if code == 39 then exists_already else failed (os_error code)
classify_raw e = failed e

-- `AT_FDCWD`, which is -100, as the 32 bits of a `c_int`.
abbrev at_fdcwd : ℕ
at_fdcwd = 4_294_967_196

abbrev rename_noreplace : ℕ
rename_noreplace = 1

module _ (renameat2 : ℕ → FilePath → ℕ → FilePath → ℕ → M IoError (Unit {0})) where
  unfoldable pub renameat2_noreplace : FilePath → FilePath → M RenameError (Unit {0})
  unfolding c_string
  renameat2_noreplace src dst =
      map_err classify_raw
        (c_string src (c_string dst (renameat2 at_fdcwd src at_fdcwd dst rename_noreplace)))
