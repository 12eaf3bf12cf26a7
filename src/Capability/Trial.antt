-- ===== src/Capability/Trial.antt =====
-- crates/itan-core/src/capability.rs: which strategy each build finds for a volume, and the trial clones that it makes to
-- find it. The calls of the operating systems that are not part of the standard library are a parameter.
pub mod Choice
pub mod Cleanup
use Prim.Native.Nat.{bit_and}
use i_tan_reclaim_space.Base.{
  ℕ, Bytes, Bool, true, false, ◌||◌, not, List, [], ◌∷◌, ◌++◌, Option, none, some, ◌==◌, any, codes,
  replicate,
}
use i_tan_reclaim_space.Base.Results.{Result, ok, err, unwrap_or}
use i_tan_reclaim_space.Fs.Path.{Name, text, opaque, FilePath}
use i_tan_reclaim_space.Fs.State.{IoError, os_error}
use i_tan_reclaim_space.Fs.World.{M, pure, throw, ◌>>=◌, ◌>>◌, attempt, new_uuid}
use i_tan_reclaim_space.Fs.Calls.{c_string, remove_file}
use i_tan_reclaim_space.Fs.Handles.{file_create, file_open, write_all, flush, set_len}
use i_tan_reclaim_space.Capability.{LinkStrategy}

-- The targets that the code tells apart.
pub data TargetOs : Type 0 where
  linux windows macos other : TargetOs

-- The target and the features of the crate.
pub record Build : Type 0 where
  pub target_os : TargetOs
  pub windows_ntfs : Bool
  pub linux_cow : Bool

-- statfs(2) with the type of the file system, the ioctl `FICLONE` into an open file from another, clonefile(2), and of
-- Win32 the flags of `GetVolumeInformationW`, `CreateFileW` with `OPEN_EXISTING` and with `OPEN_ALWAYS`,
-- `FSCTL_DUPLICATE_EXTENTS_TO_FILE` into a handle from another, and `CloseHandle`.
pub record System : Type 0 where
  pub statfs : FilePath → M IoError ℕ
  pub ficlone : ℕ → ℕ → M IoError (Unit {0})
  pub clonefile : FilePath → FilePath → M IoError (Unit {0})
  pub volume_flags : FilePath → M IoError ℕ
  pub open_existing : FilePath → M IoError ℕ
  pub open_always : FilePath → M IoError ℕ
  pub duplicate_extents : ℕ → ℕ → M IoError (Unit {0})
  pub close_handle : ℕ → M IoError (Unit {0})

abbrev pub probe_name : Bytes → Bytes → Name
probe_name kind uuid = text (codes "probe_" ++ (kind ++ (codes "_" ++ (uuid ++ codes ".tmp"))))

abbrev pub src_path : FilePath → Bytes → FilePath
src_path tmp_dir uuid = probe_name (codes "src") uuid ∷ tmp_dir

abbrev pub dst_path : FilePath → Bytes → FilePath
dst_path tmp_dir uuid = probe_name (codes "dst") uuid ∷ tmp_dir

-- Whether a call succeeded.
abbrev pub succeeded : {A : Type 0} → Result IoError A → Bool
succeeded (ok a) = true
succeeded (err e) = false

-- The source file of a trial.
unfoldable pub write_sentinel : FilePath → ℕ → M IoError (Unit {0})
write_sentinel path byte = do f ← file_create path; write_all f (replicate 4_096 byte); flush f

-- Both trial files are removed, whatever happened.
unfoldable pub cleaned_up : {E : Type 0} → FilePath → FilePath → Result IoError Bool → M E Bool
cleaned_up src dst result = do
  _ ← attempt (remove_file src)
  _ ← attempt (remove_file dst)
  pure (unwrap_or result false)

-- `FILE_SUPPORTS_BLOCK_REFCOUNTING`
abbrev refcounting : ℕ → Bool
refcounting fs_flags = not (bit_and fs_flags 0x0800_0000 == 0)

-- The strategy after a trial.
abbrev pub if_cloned : LinkStrategy → LinkStrategy → Bool → LinkStrategy
if_cloned cow fallback true = cow
if_cloned cow fallback false = fallback

unfoldable pub is_cow_linux_fstype : ℕ → Bool
is_cow_linux_fstype f_type = f_type == 0x9123_683E || f_type == 0x5846_5342 || f_type == 0x2FC1_2FC1

module _ (sys : System) where
  unfoldable pub clone_linux : FilePath → FilePath → M IoError Bool
  unfolding write_sentinel
  clone_linux src dst = do
    write_sentinel src 0xCD
    src_f ← file_open src
    dst_f ← file_create dst
    set_len dst_f 4_096
    ret ← attempt (sys.ficlone dst_f src_f)
    pure (succeeded ret)

  unfoldable pub cow_dry_run_linux : {E : Type 0} → FilePath → M E Bool
  unfolding clone_linux cleaned_up
  cow_dry_run_linux tmp_dir = do
    src_uuid ← new_uuid
    dst_uuid ← new_uuid
    result ← attempt (clone_linux (src_path tmp_dir src_uuid) (dst_path tmp_dir dst_uuid))
    cleaned_up (src_path tmp_dir src_uuid) (dst_path tmp_dir dst_uuid) result

  unfoldable pub clone_macos : FilePath → FilePath → M IoError Bool
  unfolding write_sentinel c_string
  clone_macos src dst = do
    write_sentinel src 0xEF
    c_string src (c_string dst do ret ← attempt (sys.clonefile src dst); pure (succeeded ret))

  unfoldable pub cow_dry_run_macos : {E : Type 0} → FilePath → M E Bool
  unfolding clone_macos cleaned_up
  cow_dry_run_macos tmp_dir = do
    src_uuid ← new_uuid
    dst_uuid ← new_uuid
    result ← attempt (clone_macos (src_path tmp_dir src_uuid) (dst_path tmp_dir dst_uuid))
    cleaned_up (src_path tmp_dir src_uuid) (dst_path tmp_dir dst_uuid) result

  -- The clone between two handles, of which either may not have been opened.
  unfoldable pub duplicate_between : {E : Type 0} → Result IoError ℕ → Result IoError ℕ → M E Bool
  duplicate_between (ok src_handle) (ok dst_handle) = do
    io_ok ← attempt (sys.duplicate_extents dst_handle src_handle)
    pure (succeeded io_ok)
  duplicate_between _ _ = pure false

  unfoldable pub close_opened : {E : Type 0} → Result IoError ℕ → M E (Unit {0})
  close_opened (ok handle) = do _ ← attempt (sys.close_handle handle); pure tt
  close_opened (err e) = pure tt

  unfoldable pub clone_windows : {E : Type 0} → FilePath → FilePath → M E Bool
  unfolding duplicate_between close_opened
  clone_windows src dst = do
    src_handle ← attempt (sys.open_existing src)
    dst_handle ← attempt (sys.open_always dst)
    success ← duplicate_between src_handle dst_handle
    close_opened src_handle
    close_opened dst_handle
    pure success

  unfoldable pub cow_dry_run_windows : {E : Type 0} → FilePath → M E Bool
  unfolding write_sentinel clone_windows cleaned_up
  cow_dry_run_windows tmp_dir = do
    src_uuid ← new_uuid
    dst_uuid ← new_uuid
    let src = src_path tmp_dir src_uuid
    let dst = dst_path tmp_dir dst_uuid
    write_ok ← attempt (write_sentinel src 0xAB)
    elim write_ok [
      | err e ↦ do _ ← attempt (remove_file src); pure false
      | ok _ ↦ do result ← clone_windows src dst; cleaned_up src dst (ok result)
    ]

  unfoldable pub detect_strategy_windows_ntfs :
      {E : Type 0} → FilePath → FilePath → M E LinkStrategy
  unfolding cow_dry_run_windows
  detect_strategy_windows_ntfs root tmp_dir = do
    info ← attempt (sys.volume_flags root)
    elim info [
      | err e ↦ pure LinkStrategy.ntfs_hardlink
      | ok fs_flags ↦ elim (refcounting fs_flags) [
        | true ↦ do
          cloned ← cow_dry_run_windows tmp_dir
          pure (if_cloned LinkStrategy.refs_block_clone LinkStrategy.ntfs_hardlink cloned)
        | false ↦ pure LinkStrategy.ntfs_hardlink
      ]
    ]

  unfoldable pub linux_statfs_type : {E : Type 0} → FilePath → M E (Result IoError ℕ)
  unfolding c_string
  linux_statfs_type path = attempt (c_string path (sys.statfs path))

  -- With the feature `linux-cow`.
  unfoldable pub detect_strategy_linux_cow : {E : Type 0} → FilePath → FilePath → M E LinkStrategy
  unfolding is_cow_linux_fstype linux_statfs_type cow_dry_run_linux
  detect_strategy_linux_cow root tmp_dir = do
    fs_type ← linux_statfs_type root
    elim fs_type [
      | err e ↦ pure LinkStrategy.posix_hardlink
      | ok t ↦ elim (is_cow_linux_fstype t) [
        | true ↦ do
          cloned ← cow_dry_run_linux tmp_dir
          pure (if_cloned LinkStrategy.btrfs_reflink LinkStrategy.posix_hardlink cloned)
        | false ↦ pure LinkStrategy.posix_hardlink
      ]
    ]

  unfoldable pub detect_strategy_macos : {E : Type 0} → FilePath → M E LinkStrategy
  unfolding cow_dry_run_macos
  detect_strategy_macos tmp_dir = do
    cloned ← cow_dry_run_macos tmp_dir
    pure (if_cloned LinkStrategy.apfs_clonefile LinkStrategy.posix_hardlink cloned)

  unfoldable pub detect_strategy_windows :
      {E : Type 0} → Bool → FilePath → FilePath → M E LinkStrategy
  unfolding detect_strategy_windows_ntfs
  detect_strategy_windows true root tmp_dir = detect_strategy_windows_ntfs root tmp_dir
  detect_strategy_windows false root tmp_dir = pure LinkStrategy.ntfs_hardlink

  unfoldable pub detect_strategy_linux :
      {E : Type 0} → Bool → FilePath → FilePath → M E LinkStrategy
  unfolding detect_strategy_linux_cow
  detect_strategy_linux true root tmp_dir = detect_strategy_linux_cow root tmp_dir
  detect_strategy_linux false root tmp_dir = pure LinkStrategy.posix_hardlink

  unfoldable pub strategy_for :
      {E : Type 0} → TargetOs → Build → FilePath → FilePath → M E LinkStrategy
  unfolding detect_strategy_windows detect_strategy_linux detect_strategy_macos
  strategy_for linux build root tmp_dir = detect_strategy_linux build.linux_cow root tmp_dir
  strategy_for windows build root tmp_dir = detect_strategy_windows build.windows_ntfs root tmp_dir
  strategy_for macos build root tmp_dir = detect_strategy_macos tmp_dir
  strategy_for other build root tmp_dir = pure LinkStrategy.posix_hardlink

  -- `detect_strategy` of any build.
  unfoldable pub detect_strategy_of : {E : Type 0} → Build → FilePath → FilePath → M E LinkStrategy
  unfolding strategy_for
  detect_strategy_of build root tmp_dir = strategy_for build.target_os build root tmp_dir
