-- ===== src/Permissions.antt =====
-- crates/itan-core/src/permissions.rs: the read-only invariant of the master slots.
pub mod Keeps
pub mod Modes
use Prim.Native.Nat.{bit_and, bit_or}
use i_tan_reclaim_space.Base.{ℕ, Bool, true, false, not, ◌==◌, if◌then◌else◌}
use i_tan_reclaim_space.Fs.Path.{FilePath}
use i_tan_reclaim_space.Fs.State.{IoError}
use i_tan_reclaim_space.Fs.World.{unix, windows, other, M, pure, ◌>>=◌, map_err, platform}
use i_tan_reclaim_space.Fs.Calls.{metadata, set_permissions}

pub data PermError : Type 0 where
  set_read_only clear_read_only query : FilePath → IoError → PermError

-- `Permissions::readonly`: no write bit is set.
abbrev pub readonly : ℕ → Bool
readonly mode = bit_and mode 0o222 == 0

-- `Permissions::set_readonly`
abbrev pub set_readonly : Bool → ℕ → ℕ
set_readonly true mode = bit_and mode 0o555
set_readonly false mode = bit_or mode 0o222

unfoldable pub enforce_posix_mode : FilePath → Bool → M PermError (Unit {0})
enforce_posix_mode path is_executable =
    map_err (set_read_only path) (set_permissions path (if is_executable then 0o555 else 0o444))

unfoldable pub enforce_read_only_windows : FilePath → M PermError (Unit {0})
enforce_read_only_windows path = do
  meta ← map_err (query path) (metadata path)
  map_err (set_read_only path) (set_permissions path (set_readonly true meta.mode))

unfoldable pub enforce_read_only : FilePath → Bool → M PermError (Unit {0})
unfolding enforce_posix_mode enforce_read_only_windows
enforce_read_only path is_executable = do
  os ← platform
  elim os [
    | unix ↦ enforce_posix_mode path is_executable
    | windows ↦ enforce_read_only_windows path
    | other ↦ pure tt
  ]

unfoldable pub strip_read_only_posix : FilePath → M PermError (Unit {0})
strip_read_only_posix path = map_err (clear_read_only path) (set_permissions path 0o644)

unfoldable pub strip_read_only_windows : FilePath → M PermError (Unit {0})
strip_read_only_windows path = do
  meta ← map_err (query path) (metadata path)
  map_err (clear_read_only path) (set_permissions path (set_readonly false meta.mode))

unfoldable pub strip_read_only : FilePath → M PermError (Unit {0})
unfolding strip_read_only_posix strip_read_only_windows
strip_read_only path = do
  os ← platform
  elim os [
    | unix ↦ strip_read_only_posix path
    | windows ↦ strip_read_only_windows path
    | other ↦ pure tt
  ]

unfoldable pub is_executable : FilePath → M PermError Bool
is_executable path = do
  os ← platform
  elim os [
    | unix ↦ do
      meta ← map_err (query path) (metadata path)
      pure (not (bit_and meta.mode 0o111 == 0))
    | windows ↦ pure false
    | other ↦ pure false
  ]
