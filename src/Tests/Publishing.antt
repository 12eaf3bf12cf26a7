-- ===== src/Tests/Publishing.antt =====
-- Publishing a workspace file as a new master, and the collector's next evaluation of it.
use i_tan_reclaim_space.Base.{◌≡◌, refl, [], ◌∷◌, none, some, true, false, arith, ℕ_discrete, codes}
use i_tan_reclaim_space.Base.Results.{ok}
use i_tan_reclaim_space.Fs.Path.{text, path_dec}
use i_tan_reclaim_space.Fs.Table.{find, erase, bind}
use i_tan_reclaim_space.Fs.State.{has_dir, has_file, ancestors_in, metadata_of}
use i_tan_reclaim_space.Fs.World.{World, calm}
use i_tan_reclaim_space.Fs.Runs.Files.{there, with_table}
use i_tan_reclaim_space.Gc.{quarantined, evaluate_objects_slot, quarantine_name}
use i_tan_reclaim_space.Gc.Fresh.{kept, publish_new_master-collected}
use i_tan_reclaim_space.Linkage.{publish_new_master}
use i_tan_reclaim_space.Linkage.Refinement.{bytes_dec, IsRooted, publish_new_master-insert}
use i_tan_reclaim_space.Store.Hex.Laws.{IsDigest}
use i_tan_reclaim_space.Fs.Path.{Name, FilePath}
use i_tan_reclaim_space.Base.{ℕ, zero, suc, ◌<◌, Bytes, ite, replicate, All}
use i_tan_reclaim_space.Linkage.Outcome.{sealed_mode}
use i_tan_reclaim_space.Linkage.Publish.{
  shard, first, master, stage, CanPublish, published, publish_new_master-lookup,
}
use i_tan_reclaim_space.Store.Hex.{hex_encode, slot_filename}
use i_tan_reclaim_space.Store.Slots.{slot_path, lookup}
use i_tan_reclaim_space.Text.{decimal_03}
use i_tan_reclaim_space.Tests.Values.{
  root, capability, a_store, target, digest, digest-IsDigest, volume, world,
}

abbrev unpublished : World
unpublished =
    world 5
      (volume digest ((target, 0) ∷ []) (
        a_store.tmp_dir
        ∷ a_store.quarantine_dir
        ∷ (text (codes "work") ∷ [])
        ∷ (text (codes ".itan_store") ∷ [])
        ∷ []
        ∷ []))
      []

room_left :
    (find target unpublished.fs.table ≡ some 0)
    × (there (first root capability digest target 0 unpublished) unpublished.fs ≡ false)
    × (find (stage root capability digest target 0 unpublished) unpublished.fs.table ≡ none)
    × (has_dir (stage root capability digest target 0 unpublished) unpublished.fs.dirs ≡ false)
    × (has_dir a_store.tmp_dir unpublished.fs.dirs ≡ true)
    × (has_file
          (ancestors_in (shard root capability digest target 0 unpublished))
          unpublished.fs.table
        ≡ false)
    × (has_dir a_store.quarantine_dir unpublished.fs.dirs ≡ true)
    × (has_dir (kept root capability digest target 0 unpublished) unpublished.fs.dirs ≡ false)
    × (find (kept root capability digest target 0 unpublished) unpublished.fs.table ≡ none)
unfolding find has_dir has_file metadata_of slot_path slot_filename decimal_03 hex_encode path_dec
    ℕ_discrete quarantine_name
room_left = (refl, refl, refl, refl, refl, refl, refl, refl, refl)

unpublished-CanPublish : CanPublish root capability digest target 0 unpublished
unpublished-CanPublish = record {
  os = refl;
  digest = digest-IsDigest;
  source_there = room_left.0;
  absent = room_left.1;
  no_stage = room_left.2;
  no_stage_dir = room_left.3;
  tmp_there = room_left.4;
  no_file_above = room_left.5;
}

abbrev after : World
after = published root capability digest target 0 unpublished

publish_new_master-lookup_example :
    (publish_new_master a_store target digest (calm unpublished)
      ≡ (ok (master root capability digest target 0 unpublished), after))
    × (lookup a_store digest after
        ≡ (ok (some (master root capability digest target 0 unpublished)), after))
    × (find (first root capability digest target 0 unpublished) after.fs.table ≡ some 10)
    × ((after.fs.inode 10).content ≡ digest)
    × ((after.fs.inode 10).mode ≡ sealed_mode 0o644)
publish_new_master-lookup_example =
    publish_new_master-lookup root capability digest target 0 unpublished unpublished-CanPublish

publish_new_master-collected_example :
    evaluate_objects_slot
      (first root capability digest target 0 unpublished)
      a_store.quarantine_dir
      (publish_new_master a_store target digest (calm unpublished)).1
    ≡ (
      ok (quarantined (kept root capability digest target 0 unpublished)),
      with_table
          (bind
            (kept root capability digest target 0 unpublished)
            10
            (erase (first root capability digest target 0 unpublished) after.fs.table))
          after,
    )
publish_new_master-collected_example =
    publish_new_master-collected root capability digest target 0 unpublished unpublished-CanPublish
      (omega arith, tt) room_left.6 room_left.7 room_left.8

abbrev another : Bytes
another = replicate 32 8

All-another : (n : ℕ) → All (λ b. b < 256) (replicate n 8)
All-another zero = tt
All-another (suc n) = (omega arith, All-another n)

another-IsDigest : IsDigest another
another-IsDigest = record { size = refl; bytes = All-another 32 }

unpublished-IsRooted : IsRooted unpublished.fs
unfolding metadata_of find has_dir path_dec ℕ_discrete
unpublished-IsRooted = record { directory = directory }
  where
    directory :
        (n : Name) (p : FilePath)
        → there (n ∷ p) unpublished.fs ≡ true
        → there p unpublished.fs ≡ true
    directory n p h = ground arith

publish_new_master-insert_example :
    (lookup a_store another (publish_new_master a_store target digest (calm unpublished)).1).0
    ≡ ite
        (bytes_dec another digest)
        (ok (some (master root capability digest target 0 unpublished)))
        (lookup a_store another (calm unpublished)).0
publish_new_master-insert_example =
    publish_new_master-insert root capability digest target 0 unpublished unpublished-CanPublish
      unpublished-IsRooted another another-IsDigest
