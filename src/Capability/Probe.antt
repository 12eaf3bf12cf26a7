-- ===== src/Capability/Probe.antt =====
-- crates/itan-core/src/capability.rs: probing a volume, in the default build for Linux and Windows and
-- on systems with neither; the trial clones of the other builds are left out.
use i_tan_reclaim_space.Base.{true, false, ◌∷◌, codes}
use i_tan_reclaim_space.Fs.Path.{text, FilePath}
use i_tan_reclaim_space.Fs.State.{IoError}
use i_tan_reclaim_space.Fs.World.{
  Platform, unix, windows, other, M, pure, throw, ◌>>=◌, ◌>>◌, map_err, platform,
}
use i_tan_reclaim_space.Fs.Calls.{metadata, create_dir_all}
use i_tan_reclaim_space.Capability.{LinkStrategy, max_links_per_slot, VolumeCapability}

pub data ProbeError : Type 0 where
  stat_failed tmp_dir_creation : FilePath → IoError → ProbeError
  not_a_directory : FilePath → ProbeError

-- Without `linux-cow` and `windows-ntfs` the file system is not asked.
abbrev strategy_of : Platform → LinkStrategy
strategy_of unix = LinkStrategy.posix_hardlink
strategy_of windows = LinkStrategy.ntfs_hardlink
strategy_of other = LinkStrategy.posix_hardlink

unfoldable pub detect_strategy : {E : Type 0} → FilePath → FilePath → M E LinkStrategy
detect_strategy root tmp_dir = do os ← platform; pure (strategy_of os)

unfoldable pub probe_volume : FilePath → M ProbeError VolumeCapability
unfolding detect_strategy max_links_per_slot
probe_volume root = do
  meta ← map_err (stat_failed root) (metadata root)
  elim meta.is_dir [
    | false ↦ throw (not_a_directory root)
    | true ↦ do
      let tmp_dir = text (codes "tmp") ∷ text (codes ".itan_store") ∷ root
      map_err (tmp_dir_creation tmp_dir) (create_dir_all tmp_dir)
      strategy ← detect_strategy root tmp_dir
      pure (record {
        volume_root = root;
        strategy = strategy;
        max_links = max_links_per_slot strategy;
      })
  ]
