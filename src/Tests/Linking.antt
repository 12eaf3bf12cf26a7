-- ===== src/Tests/Linking.antt =====
-- Linking a duplicate to its master slot.
use i_tan_reclaim_space.Base.{
  ◌≡◌, refl, Bytes, [], ◌∷◌, none, some, true, false, codes, arith, take, ℕ_discrete,
}
use i_tan_reclaim_space.Fs.Calls.{copy}
use i_tan_reclaim_space.Fs.Path.{text, FilePath, path_dec}
use i_tan_reclaim_space.Fs.Table.{find, bind}
use i_tan_reclaim_space.Fs.State.{already_exists, text_busy, Fs, has_dir, has_parent, metadata_of}
use i_tan_reclaim_space.Linkage.{swap_in, sibling_tmp_link, linked, queued, io}
use i_tan_reclaim_space.Linkage.Faults.{quiet, failing, facing, waiting_job, swap_in_rename_failed}
use i_tan_reclaim_space.Linkage.Relink.{left_over, swap_in_twice}
use i_tan_reclaim_space.Fs.World.{World, Turn, calm}
use i_tan_reclaim_space.Text.{decimal_03}
use i_tan_reclaim_space.Base.Results.{ok, err}
use i_tan_reclaim_space.Fs.Runs.Files.{with_table, with_mode}
use i_tan_reclaim_space.Linkage.Outcome.{sealed_mode, swap_in-linked}
use i_tan_reclaim_space.Store.{SlotRef}
use i_tan_reclaim_space.Store.Hex.{hex_encode, slot_filename}
use i_tan_reclaim_space.Store.Lookup.{lookup_lem}
use i_tan_reclaim_space.Store.Slots.{slot_ref, slot_path, shard_of, lookup}
use i_tan_reclaim_space.Tests.Values.{
  a_store, target, digest, digest-IsDigest, volume, world, a_channel, a_channel-IsChannel,
}

abbrev shard : FilePath
shard = shard_of a_store (hex_encode digest)

abbrev master : SlotRef
master = slot_ref (hex_encode digest) 0 (slot_path shard (hex_encode digest) 0)

-- A file and its master, with the content that is their digest.
abbrev linking : Fs
linking =
    volume digest ((target, 1) ∷ (master.path, 0) ∷ [])
      (shard ∷ (text (codes "work") ∷ []) ∷ [] ∷ [])

abbrev identity : Bytes → Bytes
identity c = c

-- Another process does nothing, and the first call fails; a copy would have written 3 bytes.
abbrev interrupted : Turn
interrupted = record { fault = some text_busy; written = some 3; other = λ fs. fs; elapsed = 1 }

abbrev interrupted_world : World
interrupted_world = facing (interrupted ∷ []) (world 5 linking [])

-- A copy that breaks off leaves the bytes that it has written, and reports the error.
copy_interrupted :
    let r = copy target (text (codes "x.stage") ∷ text (codes "work") ∷ []) interrupted_world in
    (r.0 ≡ err text_busy) × ((r.1.fs.inode linking.next_ino).content ≡ take 3 digest)
unfolding copy find path_dec ℕ_discrete slot_path hex_encode bind
copy_interrupted = (refl, refl)

abbrev duplicated : World
duplicated = world 5 linking []

ready_to_link :
    (find master.path linking.table ≡ some 0)
    × (find target linking.table ≡ some 1)
    × (find (sibling_tmp_link target) linking.table ≡ none)
    × (has_dir (sibling_tmp_link target) linking.dirs ≡ false)
    × (has_parent (sibling_tmp_link target) linking ≡ true)
    × (has_dir target linking.dirs ≡ false)
    × (has_parent target linking ≡ true)
unfolding find has_dir has_parent sibling_tmp_link slot_path slot_filename decimal_03 hex_encode
    path_dec ℕ_discrete
ready_to_link = (refl, refl, refl, refl, refl, refl, refl)

swap_in-linked_example : swap_in a_channel target master 32 (calm duplicated) ≡ (
  ok (linked target master 32),
  with_mode 0 (sealed_mode 0o644) (with_table (bind target 0 linking.table) duplicated),
)
swap_in-linked_example =
    swap_in-linked a_channel target master 32 0 1 duplicated refl ready_to_link.0 ready_to_link.1
      (λ e. ground arith) ready_to_link.2 ready_to_link.3 ready_to_link.4 ready_to_link.5
      ready_to_link.6

lookup_lem_example : lookup a_store digest (calm duplicated) ≡ (ok (some master), calm duplicated)
unfolding metadata_of find has_dir slot_path slot_filename decimal_03 hex_encode path_dec ℕ_discrete
lookup_lem_example = lookup_lem a_store digest duplicated digest-IsDigest

abbrev swapping : World
swapping = facing (quiet ∷ failing text_busy ∷ []) duplicated

swap_in_rename_failed_example : swap_in a_channel target master 32 swapping ≡ (
  ok queued,
  record (calm duplicated) { queue = waiting_job target master.path duplicated ∷ [] },
)
swap_in_rename_failed_example =
    swap_in_rename_failed a_channel a_channel-IsChannel target master 32 0 duplicated
      ready_to_link.0 ready_to_link.2 ready_to_link.3 ready_to_link.4 text_busy (omega arith)

-- The target is a name of its master already.
abbrev linked_fs : Fs
linked_fs =
    volume digest ((target, 0) ∷ (master.path, 0) ∷ [])
      (shard ∷ (text (codes "work") ∷ []) ∷ [] ∷ [])

abbrev relinked : World
relinked = world 5 linked_fs []

ready_to_relink :
    (find master.path linked_fs.table ≡ some 0)
    × (find target linked_fs.table ≡ some 0)
    × (find (sibling_tmp_link target) linked_fs.table ≡ none)
unfolding find sibling_tmp_link slot_path slot_filename decimal_03 hex_encode path_dec ℕ_discrete
ready_to_relink = (refl, refl, refl)

swap_in_twice_example :
    (swap_in a_channel target master 32 (calm relinked)
      ≡ (ok (linked target master 32), left_over target 0 relinked))
    × (swap_in a_channel target master 32 (left_over target 0 relinked)
        ≡ (err (io (sibling_tmp_link target) already_exists), left_over target 0 relinked))
unfolding has_parent sibling_tmp_link
swap_in_twice_example =
    swap_in_twice a_channel target master 32 0 relinked refl ready_to_relink.0 ready_to_relink.1
      ready_to_relink.2 ready_to_link.3 ready_to_link.4 ready_to_link.5 ready_to_link.6
