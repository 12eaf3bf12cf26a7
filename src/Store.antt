-- ===== src/Store.antt =====
-- crates/itan-core/src/store.rs: the content-addressable store of a volume.
pub mod Content
pub mod Hex
pub mod Lookup
pub mod Room
pub mod Safety
pub mod Slots
pub mod Spill
use i_tan_reclaim_space.Base.{ℕ, Bytes, List, [], ◌∷◌, codes}
use i_tan_reclaim_space.Fs.Path.{FilePath, text}
use i_tan_reclaim_space.Fs.State.{IoError}
use i_tan_reclaim_space.Fs.World.{M, pure, ◌>>=◌, ◌>>◌, map_err}
use i_tan_reclaim_space.Fs.Calls.{create_dir_all}
use i_tan_reclaim_space.Capability.{VolumeCapability}

-- `overflow` is the panic of `slot_idx += 1` at the end of the range of a `u32`.
pub data StoreError : Type 0 where
  root_creation : FilePath → IoError → StoreError
  invalid_digest : StoreError
  io : FilePath → IoError → StoreError
  link_count_query : FilePath → IoError → StoreError
  spill_copy : FilePath → FilePath → IoError → StoreError
  overflow : StoreError

pub record SlotRef : Type 0 where
  pub prefix : Bytes
  pub digest_hex : Bytes
  pub slot_idx : ℕ
  pub path : FilePath

pub record CasStore : Type 0 where
  pub objects_dir : FilePath
  pub tmp_dir : FilePath
  pub quarantine_dir : FilePath
  pub max_links_per_slot : ℕ

-- The handle that `open` returns.
abbrev pub cas_store : FilePath → VolumeCapability → CasStore
cas_store volume_root capability =
    let store_root = text (codes ".itan_store") ∷ volume_root in
    record {
      objects_dir = text (codes "objects") ∷ store_root;
      tmp_dir = text (codes "tmp") ∷ store_root;
      quarantine_dir = text (codes "quarantine") ∷ store_root;
      max_links_per_slot = capability.max_links;
    }

unfoldable pub create_root : FilePath → M StoreError (Unit {0})
create_root dir = map_err (root_creation dir) (create_dir_all dir)

unfoldable pub open_store : FilePath → VolumeCapability → M StoreError CasStore
unfolding create_root
open_store volume_root capability = do
  let store = cas_store volume_root capability
  create_root store.objects_dir
  create_root store.tmp_dir
  create_root store.quarantine_dir
  pure store
