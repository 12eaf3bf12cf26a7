-- ===== src/Gc/Fresh.antt =====
-- What the collector does with a master that was just published, in a run in which no call fails and no other process
-- interferes.
use i_tan_reclaim_space.Base.{
  ℕ, ◌≡◌, ◌≢◌, refl, ap, ◌∙◌, Bytes, true, false, ◌∷◌, none, arith, length, ltb,
}
use i_tan_reclaim_space.Base.Results.{ok}
use i_tan_reclaim_space.Fs.Path.{text, FilePath}
use i_tan_reclaim_space.Fs.Table.{find, erase, bind, names, find-bind_other, names-bind}
use i_tan_reclaim_space.Fs.State.{has_dir, ancestors_in}
use i_tan_reclaim_space.Fs.World.{World, calm}
use i_tan_reclaim_space.Fs.Runs.Dirs.{has_dir_beside, has_dir_kept}
use i_tan_reclaim_space.Fs.Runs.Files.{with_table, absent_there}
use i_tan_reclaim_space.Capability.{VolumeCapability}
use i_tan_reclaim_space.Gc.{quarantined, evaluate_objects_slot, quarantine_name}
use i_tan_reclaim_space.Gc.Lifecycle.{evaluate_objects_slot_lem}
use i_tan_reclaim_space.Linkage.Publish.{
  s, shard, first, CanPublish, published, publish_new_master-lookup,
}
use i_tan_reclaim_space.Linkage.{publish_new_master}
use i_tan_reclaim_space.Store.Content.{Bounded}
use i_tan_reclaim_space.Store.Hex.{slot_filename}
use i_tan_reclaim_space.Store.Spill.{names-Bounded}
use i_tan_reclaim_space.Store.Safety.{hex}
use i_tan_reclaim_space.Store.Slots.{slot_path}

module _ (root : FilePath) (capability : VolumeCapability) (d : Bytes) (source : FilePath) (i : ℕ)
    (w : World) where
  -- Where the collector puts the master.
  abbrev pub kept : FilePath
  kept =
      text (quarantine_name w.now (slot_filename (hex root capability d) 0))
      ∷ (s root capability d source i w).quarantine_dir

  one_name :
      Bounded w.fs.next_ino w.fs.table
      → find (first root capability d source i w) w.fs.table ≡ none
      → ltb 1 (names w.fs.next_ino (published root capability d source i w).fs.table) ≡ false
  one_name b f = ground (
    arith,
    names-Bounded w.fs.next_ino w.fs.table b,
    names-bind (first root capability d source i w) w.fs.next_ino w.fs.next_ino w.fs.table f,
  )

  -- A master that was just published is moved to the quarantine by the next evaluation of its slot, since the file that
  -- it was made from is not linked to it. The master can be published, no inode of the volume has the next number, and
  -- the quarantine directory is there with the new name free; in runs in which no call fails and no other process
  -- interferes.
  pub publish_new_master-collected :
      CanPublish root capability d source i w
      → Bounded w.fs.next_ino w.fs.table
      → has_dir (s root capability d source i w).quarantine_dir w.fs.dirs ≡ true
      → has_dir kept w.fs.dirs ≡ false
      → find kept w.fs.table ≡ none
      → evaluate_objects_slot
          (first root capability d source i w)
          (s root capability d source i w).quarantine_dir
          (publish_new_master (s root capability d source i w) source d (calm w)).1
        ≡ (
          ok (quarantined kept),
          with_table
              (bind kept w.fs.next_ino (
                erase
                  (first root capability d source i w)
                  (published root capability d source i w).fs.table))
              (published root capability d source i w),
        )
  unfolding slot_path
  publish_new_master-collected c b hq hk fk =
      let quarantine_dir = (s root capability d source i w).quarantine_dir in
      ap (λ r. evaluate_objects_slot (first root capability d source i w) quarantine_dir r.1)
        (publish_new_master-lookup root capability d source i w c).0
      ∙ evaluate_objects_slot_lem (slot_filename (hex root capability d) 0)
          (shard root capability d source i w) quarantine_dir w.fs.next_ino
          (published root capability d source i w) c.os
          (publish_new_master-lookup root capability d source i w c).2
          (has_dir_kept quarantine_dir (ancestors_in (shard root capability d source i w)) w.fs.dirs
            hq)
          (has_dir_beside _ (s root capability d source i w).objects_dir kept w.fs.dirs
              (omega arith) (λ e. ground arith)
            ∙ hk)
          (find-bind_other (first root capability d source i w) kept w.fs.next_ino w.fs.table
              elsewhere
            ∙ fk)
      ∙ rw (one_name b (absent_there (first root capability d source i w) w.fs c.absent).0) refl
    where
      elsewhere : kept ≢ first root capability d source i w
      elsewhere e =
          (let l : length kept ≡ length (first root capability d source i w) = ap length e in
            omega (arith, l))
