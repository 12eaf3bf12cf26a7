-- ===== src/Linkage/Publish.antt =====
-- What publishing a new master leaves behind, in a run in which no call fails and no other process interferes.
use i_tan_reclaim_space.Base.{
  ℕ, suc, ◌≡◌, refl, ap, ◌∙◌, Bytes, true, false, ◌∷◌, none, some, arith,
}
use i_tan_reclaim_space.Base.Results.{ok}
use i_tan_reclaim_space.Fs.Path.{FilePath}
use i_tan_reclaim_space.Fs.Table.{find, bind, find-bind_same, find-bind_other, erase-bind}
use i_tan_reclaim_space.Fs.State.{has_dir, has_file, make_dirs, ancestors_in, create}
use i_tan_reclaim_space.Fs.World.{World, calm, unix, new_uuid}
use i_tan_reclaim_space.Fs.Runs.{>>=-ok, map_err-ok, attempt-eq}
use i_tan_reclaim_space.Fs.Runs.Dirs.{
  with_dirs, create_dir_all-calm, has_dir_made, has_dir_deeper, has_file_beside,
}
use i_tan_reclaim_space.Fs.Runs.Files.{
  with_table, with_mode, there, exists-calm, there_absent, absent_there, there_found, dir_there,
  rename_fresh, copied, copy_fresh, has_parent-cons,
}
use i_tan_reclaim_space.Capability.{VolumeCapability}
use i_tan_reclaim_space.Linkage.{publish_new_master, atomic_rename_noreplace, stage_name}
use i_tan_reclaim_space.Linkage.Outcome.{sealed_mode, seal-calm}
use i_tan_reclaim_space.Store.{CasStore, SlotRef}
use i_tan_reclaim_space.Store.Hex.Laws.{IsDigest}
use i_tan_reclaim_space.Store.Lookup.{lookup_lem, acquire_slot_first}
use i_tan_reclaim_space.Store.Safety.{store, hex, slot_at, slot_at-NotStaged}
use i_tan_reclaim_space.Store.Slots.{shard_of, slot_path, slot_ref, lookup}

module _ (root : FilePath) (capability : VolumeCapability) (d : Bytes) (source : FilePath) (i : ℕ)
    (w : World) where
  abbrev pub s : CasStore
  s = store root capability d

  abbrev pub shard : FilePath
  shard = shard_of s (hex root capability d)

  abbrev pub first : FilePath
  first = slot_at root capability d 0

  abbrev pub master : SlotRef
  master = slot_ref (hex root capability d) 0 first

  abbrev pub stage : FilePath
  stage = stage_name (hex root capability d) (w.uuid w.next_uuid) ∷ s.tmp_dir

  -- The volume can take a master: the source is there, and the staging file and the directories can be made.
  pub record CanPublish : Type 0 where
    pub os : w.os ≡ unix
    pub digest : IsDigest d
    pub source_there : find source w.fs.table ≡ some i
    pub absent : there first w.fs ≡ false
    pub no_stage : find stage w.fs.table ≡ none
    pub no_stage_dir : has_dir stage w.fs.dirs ≡ false
    pub tmp_there : has_dir s.tmp_dir w.fs.dirs ≡ true
    pub no_file_above : has_file (ancestors_in shard) w.fs.table ≡ false

  abbrev pub named : World
  named = record w { next_uuid = suc w.next_uuid }

  abbrev pub staged : World
  staged = copied stage i named

  abbrev pub ready : World
  ready = with_dirs (make_dirs (ancestors_in shard) w.fs.dirs) staged

  -- The world after the publishing: a sealed copy of the source is the first slot.
  abbrev pub published : World
  published =
      with_mode w.fs.next_ino (sealed_mode (w.fs.inode i).mode)
        (with_table (bind first w.fs.next_ino w.fs.table) ready)

  module _ (c : CanPublish) where
    gone : (find first w.fs.table ≡ none) × (has_dir first w.fs.dirs ≡ false)
    gone = absent_there first w.fs c.absent

    first_free : find first ready.fs.table ≡ none
    unfolding create bind
    first_free =
        find-bind_other stage first w.fs.next_ino w.fs.table
          (slot_at-NotStaged root capability d 0 _)
        ∙ gone.0

    no_first_dir : has_dir first ready.fs.dirs ≡ false
    unfolding slot_path
    no_first_dir = has_dir_deeper shard first w.fs.dirs (omega arith) ∙ gone.1

    no_file_above_staged : has_file (ancestors_in shard) staged.fs.table ≡ false
    unfolding create bind
    no_file_above_staged =
        has_file_beside _ s.objects_dir stage w.fs.next_ino w.fs.table (omega arith)
          (λ e. ground arith)
        ∙ c.no_file_above

    renamed :
        atomic_rename_noreplace stage first ready
        ≡ (ok tt, with_table (bind first w.fs.next_ino w.fs.table) ready)
    unfolding atomic_rename_noreplace create slot_path bind
    renamed =
        >>=-ok _ _ ready false ready (
          exists-calm first ready
          ∙ ap (λ b. (ok b, ready)) (there_absent first ready.fs first_free no_first_dir))
        ∙ map_err-ok _ _ ready tt _ (
            rename_fresh stage first w.fs.next_ino ready
              (find-bind_same stage w.fs.next_ino w.fs.table) first_free no_first_dir
              (has_parent-cons _ shard ready.fs ∙ has_dir_made shard w.fs.dirs)
            ∙ ap (λ t. (ok tt, with_table (bind first w.fs.next_ino t) ready))
                (erase-bind stage w.fs.next_ino w.fs.table c.no_stage))

    publish_new_master-calm : publish_new_master s source d (calm w) ≡ (ok master, published)
    unfolding publish_new_master new_uuid create slot_path bind
    publish_new_master-calm =
        >>=-ok _ _ (calm w) master (calm w)
          (map_err-ok _ _ (calm w) _ (calm w) (acquire_slot_first s d w c.digest c.absent))
        ∙ >>=-ok _ _ (calm w) false (calm w)
            (exists-calm first w ∙ ap (λ b. (ok b, calm w)) c.absent)
        ∙ >>=-ok _ _ (calm w) (w.uuid w.next_uuid) (calm named) refl
        ∙ >>=-ok _ _ (calm named) tt staged (
            map_err-ok _ _ (calm named) tt staged (
              copy_fresh source stage i named c.source_there c.no_stage c.no_stage_dir
                (has_parent-cons _ s.tmp_dir w.fs ∙ c.tmp_there)))
        ∙ >>=-ok _ _ staged tt ready
            (map_err-ok _ _ staged tt ready (create_dir_all-calm shard staged no_file_above_staged))
        ∙ >>=-ok _ _ ready _ linked (attempt-eq _ ready (ok tt) linked renamed)
        ∙ >>=-ok _ _ linked tt published (
            seal-calm first w.fs.next_ino linked c.os
              (find-bind_same first w.fs.next_ino w.fs.table)
            ∙ ap (λ m. (ok tt, with_mode w.fs.next_ino (sealed_mode m) linked)) same_mode)
      where
        linked : World
        linked = with_table (bind first w.fs.next_ino w.fs.table) ready

        same_mode : (ready.fs.inode w.fs.next_ino).mode ≡ (w.fs.inode i).mode
        same_mode = ground arith

    -- Publishing a new digest makes its first slot a copy of the source, sealed read-only, and a lookup of the digest
    -- finds that slot from then on. The digest has 32 bytes and no first slot; the source is there, and the staging
    -- file and the directory of the slot can be made; on a Unix system, in a run in which no call fails and no other
    -- process interferes.
    pub publish_new_master-lookup :
        (publish_new_master s source d (calm w) ≡ (ok master, published))
        × (lookup s d published ≡ (ok (some master), published))
        × (find first published.fs.table ≡ some w.fs.next_ino)
        × ((published.fs.inode w.fs.next_ino).content ≡ (w.fs.inode i).content)
        × ((published.fs.inode w.fs.next_ino).mode ≡ sealed_mode (w.fs.inode i).mode)
    unfolding create
    publish_new_master-lookup = (
      publish_new_master-calm,
      lookup_lem s d published c.digest
          ∙ rw
              (
                dir_there shard published.fs (has_dir_made shard w.fs.dirs),
                there_found first w.fs.next_ino published.fs
                    (find-bind_same first w.fs.next_ino w.fs.table),
              )
              refl,
      find-bind_same first w.fs.next_ino w.fs.table,
      ground arith,
      ground arith,
    )
