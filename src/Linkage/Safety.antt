-- ===== src/Linkage/Safety.antt =====
-- `AtomicLinkagePipeline::apply` never loses the content of the file that it works on.
use i_tan_reclaim_space.Base.{ℕ, ◌≡◌, ◌≢◌, ◌⊎◌, Bytes, ◌∷◌}
use i_tan_reclaim_space.Fs.Path.{Name, FilePath}
use i_tan_reclaim_space.Fs.World.{World}
use i_tan_reclaim_space.Capability.{VolumeCapability}
use i_tan_reclaim_space.RetryJob.{RetryJob}
use i_tan_reclaim_space.Store.Hex.{hex_encode}
use i_tan_reclaim_space.Store.Slots.{spill_name}
use i_tan_reclaim_space.Store.Safety.{store}
use i_tan_reclaim_space.Linkage.{sibling_tmp_link, stage_name}
use i_tan_reclaim_space.Linkage.Fits.{Owned, Fits}

-- The names that hold the content of a digest: its slots, the file itself, and the link that is to
-- replace it.
pub data Trusted (root : FilePath) (capability : VolumeCapability) (d : Bytes) (target p : FilePath)
    : Type 0 where
  owned : Owned root d p → Trusted root capability d target p
  link : p ≡ sibling_tmp_link target → Trusted root capability d target p
  own : p ≡ target → Trusted root capability d target p

-- The staging files that a process with these random names may make for the digest.
abbrev pub Ours : Bytes → (ℕ → Bytes) → Name → Type 0
Ours d uuid n =
    (k : ℕ) × ((n ≡ stage_name (hex_encode d) (uuid k)) ⊎ (n ≡ spill_name (hex_encode d) (uuid k)))

-- The file is never absent.
abbrev pub Present : FilePath → FilePath → Type 0
Present target p = p ≡ target

module _ (root : FilePath) (capability : VolumeCapability) (d : Bytes) (hash : Bytes → Bytes)
    (target : FilePath)
    (outside : (n : Name) → target ≢ n ∷ (store root capability d).tmp_dir) where
  abbrev T : FilePath → Type 0
  T = Trusted root capability d target

  abbrev tmp : FilePath
  tmp = (store root capability d).tmp_dir
