-- ===== src/Linkage/Duplicate.antt =====
-- What `link_to_master` does with a duplicate whose master has room, in a run in which no call fails and
-- no other process interferes.
use i_tan_reclaim_space.Base.{
  ℕ, ◌<◌, ◌≡◌, ◌≢◌, refl, ap, ◌∙◌, Bytes, Bool, true, false, length, none, some, arith,
}
use i_tan_reclaim_space.Base.Results.{ok}
use i_tan_reclaim_space.Fs.Path.{FilePath}
use i_tan_reclaim_space.Fs.State.{has_dir, has_parent}
use i_tan_reclaim_space.Fs.Table.{find, bind, names}
use i_tan_reclaim_space.Fs.World.{World, M, calm, unix, ◌>>=◌, attempt}
use i_tan_reclaim_space.Fs.Runs.{>>=-ok, map_err-ok, attempt-eq, metadata-calm, branch_some}
use i_tan_reclaim_space.Fs.Runs.Files.{there, with_mode, with_table, has_parent-dirs}
use i_tan_reclaim_space.Linkage.{
  LinkError, LinkResult, linked, sibling_tmp_link, can_strip_target_readonly, swap_in,
  link_to_master,
}
use i_tan_reclaim_space.Linkage.Outcome.{sealed_mode, swap_in-linked}
use i_tan_reclaim_space.Permissions.{readonly, strip_read_only}
use i_tan_reclaim_space.Permissions.Modes.{strip_read_only-calm}
use i_tan_reclaim_space.RetryJob.{RetryJob}
use i_tan_reclaim_space.RetryQueue.{Channel}
use i_tan_reclaim_space.Store.{CasStore, SlotRef}
use i_tan_reclaim_space.Store.Hex.{hex_encode}
use i_tan_reclaim_space.Store.Hex.Laws.{IsDigest, parse_digest_from_hex-hex_encode}
use i_tan_reclaim_space.Store.Lookup.{acquire_slot_room}
use i_tan_reclaim_space.Store.Slots.{shard_of, slot_path, slot_ref}

-- The first slot of a digest.
abbrev pub master_of : CasStore → Bytes → SlotRef
master_of s d = slot_ref (hex_encode d) 0 (slot_path (shard_of s (hex_encode d)) (hex_encode d) 0)

-- The world in which the target has lost its protection, if it was read-only.
abbrev pub unprotected : Bool → ℕ → World → World
unprotected true j w = with_mode j 0o644 w
unprotected false j w = calm w

-- The world in which the target is a name of the master's inode, sealed.
abbrev pub relinked : FilePath → ℕ → World → World
relinked target i w =
    with_mode i (sealed_mode (w.fs.inode i).mode) (with_table (bind target i w.fs.table) w)

-- The target and its master are there as different inodes, the master takes one more link, and the
-- temporary link can be made and put in the place of the target.
pub record CanLink (s : CasStore) (d : Bytes) (target : FilePath) (i j : ℕ) (w : World)
    : Type 0 where
  pub os : w.os ≡ unix
  pub digest : IsDigest d
  pub shard_there : there (shard_of s (hex_encode d)) w.fs ≡ true
  pub master_there : find (master_of s d).path w.fs.table ≡ some i
  pub room : names i w.fs.table < s.max_links_per_slot
  pub target_there : find target w.fs.table ≡ some j
  pub distinct : i ≢ j
  pub link_free : find (sibling_tmp_link target) w.fs.table ≡ none
  pub no_link_dir : has_dir (sibling_tmp_link target) w.fs.dirs ≡ false
  pub link_parent : has_parent (sibling_tmp_link target) w.fs ≡ true
  pub no_target_dir : has_dir target w.fs.dirs ≡ false
  pub target_parent : has_parent target w.fs ≡ true

module _ (channel : Channel RetryJob) (s : CasStore) (d : Bytes) (target : FilePath) (i j : ℕ)
    (w : World) (c : CanLink s d target i j w) where
  can_strip-calm :
      can_strip_target_readonly target (calm w) ≡ (ok (readonly (w.fs.inode j).mode), calm w)
  unfolding can_strip_target_readonly
  can_strip-calm =
      >>=-ok _ _ (calm w) _ (calm w)
        (map_err-ok _ _ (calm w) _ (calm w) (metadata-calm target j w c.target_there))

  swapped :
      (b : Bool) (size : ℕ)
      → swap_in channel target (master_of s d) size (unprotected b j w)
        ≡ (ok (linked target (master_of s d) size), relinked target i (unprotected b j w))
  swapped true size =
      swap_in-linked channel target (master_of s d) size i j (with_mode j 0o644 w) c.os
        c.master_there c.target_there c.distinct c.link_free c.no_link_dir
        (has_parent-dirs (sibling_tmp_link target) _ w.fs refl ∙ c.link_parent) c.no_target_dir
        (has_parent-dirs target _ w.fs refl ∙ c.target_parent)
  swapped false size =
      swap_in-linked channel target (master_of s d) size i j w c.os c.master_there c.target_there
        c.distinct c.link_free c.no_link_dir c.link_parent c.no_target_dir c.target_parent

  -- The two branches on the protection of the target.
  stripped :
      (b : Bool) (size : ℕ)
      → (elim b as (λ _. M LinkError LinkResult) [
        | true ↦ attempt {F = LinkError} (strip_read_only target) >>= λ _.
            swap_in channel target (master_of s d) size
        | false ↦ swap_in channel target (master_of s d) size
      ])
          (calm w)
        ≡ (ok (linked target (master_of s d) size), relinked target i (unprotected b j w))
  stripped true size =
      >>=-ok _ _ (calm w) _ (with_mode j 0o644 w) (
        attempt-eq _ (calm w) (ok tt) (with_mode j 0o644 w)
          (strip_read_only-calm target j w c.os c.target_there))
      ∙ swapped true size
  stripped false size = swapped false size

  pub link_to_master-calm : link_to_master channel s target (master_of s d) (calm w) ≡ (
    ok (linked target (master_of s d) (length (w.fs.inode j).content)),
    relinked target i (unprotected (readonly (w.fs.inode j).mode) j w),
  )
  unfolding link_to_master
  link_to_master-calm =
      >>=-ok _ _ (calm w) _ (calm w)
        (attempt-eq _ (calm w) _ (calm w) (metadata-calm target j w c.target_there))
      ∙ branch_some _ _ _ (calm w) d (parse_digest_from_hex-hex_encode d c.digest)
      ∙ >>=-ok _ _ (calm w) (master_of s d) (calm w) (
          map_err-ok _ _ (calm w) _ (calm w)
            (acquire_slot_room s d i w c.digest c.os c.shard_there c.master_there c.room))
      ∙ >>=-ok _ _ (calm w) _ (calm w) (attempt-eq _ (calm w) _ (calm w) can_strip-calm)
      ∙ stripped (readonly (w.fs.inode j).mode) (length (w.fs.inode j).content)

unprotected-table : (b : Bool) (j : ℕ) (w : World) → (unprotected b j w).fs.table ≡ w.fs.table
unprotected-table true j w = refl
unprotected-table false j w = refl

unprotected-content :
    (b : Bool) (j k : ℕ) (w : World)
    → ((unprotected b j w).fs.inode k).content ≡ (w.fs.inode k).content
unprotected-content true j k w = ground arith
unprotected-content false j k w = refl

-- Which names and contents a relinking leaves.
pub relinked-table :
    (target : FilePath) (b : Bool) (i j : ℕ) (w : World)
    → (relinked target i (unprotected b j w)).fs.table ≡ bind target i w.fs.table
relinked-table target b i j w = ap (bind target i) (unprotected-table b j w)

pub relinked-content :
    (target : FilePath) (b : Bool) (i j k : ℕ) (w : World)
    → ((relinked target i (unprotected b j w)).fs.inode k).content ≡ (w.fs.inode k).content
relinked-content target b i j k w = ground (arith, unprotected-content b j k w)
