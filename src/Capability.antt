-- ===== src/Capability.antt =====
-- crates/itan-core/src/capability.rs: the deduplication strategy of a volume.
pub mod Probe
pub mod Trial
use i_tan_reclaim_space.Base.{ℕ, Bool, true, false, ◌-◌, ◌^◌}
use i_tan_reclaim_space.Fs.Path.{FilePath}

pub data LinkStrategy : Type 0 where
  ntfs_hardlink refs_block_clone btrfs_reflink apfs_clonefile posix_hardlink : LinkStrategy

abbrev pub u32_max : ℕ
u32_max = 2 ^ 32 - 1

unfoldable pub max_links_per_slot : LinkStrategy → ℕ
max_links_per_slot LinkStrategy.ntfs_hardlink = 1_000
max_links_per_slot LinkStrategy.posix_hardlink = 64_000
max_links_per_slot LinkStrategy.refs_block_clone = u32_max
max_links_per_slot LinkStrategy.btrfs_reflink = u32_max
max_links_per_slot LinkStrategy.apfs_clonefile = u32_max

unfoldable pub is_hardlink : LinkStrategy → Bool
is_hardlink LinkStrategy.ntfs_hardlink = true
is_hardlink LinkStrategy.posix_hardlink = true
is_hardlink LinkStrategy.refs_block_clone = false
is_hardlink LinkStrategy.btrfs_reflink = false
is_hardlink LinkStrategy.apfs_clonefile = false

pub record VolumeCapability : Type 0 where
  pub volume_root : FilePath
  pub strategy : LinkStrategy
  pub max_links : ℕ
