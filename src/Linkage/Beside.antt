-- ===== src/Linkage/Beside.antt =====
-- Another file, on a volume on which a master has just been published: it can be linked to the master.
use mathlib.Core.Path.{subst}
use i_tan_reclaim_space.Base.{
  ℕ, ◌<◌, ◌≡◌, ◌≢◌, refl, ap, ◌∙◌, Bytes, true, false, [], ◌∷◌, none, some, All, codes, arith,
}
use i_tan_reclaim_space.Capability.{VolumeCapability}
use i_tan_reclaim_space.Fs.Path.{Name, text, opaque, FilePath}
use i_tan_reclaim_space.Fs.Runs.Dirs.{has_dir_made, has_dir_kept, has_dir_other}
use i_tan_reclaim_space.Fs.Runs.Files.{dir_there, absent_there, has_parent-cons}
use i_tan_reclaim_space.Fs.State.{Fs, has_dir, has_parent, ancestors_in, create}
use i_tan_reclaim_space.Fs.Table.{
  find, names, names-bind, find-bind_same, find-bind_ne, find-bind_other,
}
use i_tan_reclaim_space.Fs.World.{World}
use i_tan_reclaim_space.Linkage.{sibling_tmp_link}
use i_tan_reclaim_space.Linkage.Duplicate.{CanLink}
use i_tan_reclaim_space.Linkage.Names.{InStore, sibling_tmp_link-directory}
use i_tan_reclaim_space.Linkage.Publish.{CanPublish, published, first, shard}
use i_tan_reclaim_space.Store.{cas_store}
use i_tan_reclaim_space.Store.Content.{Bounded, Bounded-find}
use i_tan_reclaim_space.Store.Slots.{directory, slot_path}
use i_tan_reclaim_space.Store.Spill.{names-Bounded}

has_parent-sibling_tmp_link :
    (n : Name) (dir : FilePath) (fs : Fs)
    → has_parent (sibling_tmp_link (n ∷ dir)) fs ≡ has_dir dir fs.dirs
unfolding has_parent sibling_tmp_link
has_parent-sibling_tmp_link (text s) dir fs = refl
has_parent-sibling_tmp_link (opaque s) dir fs = refl

-- A file outside of the store that can be replaced, on a volume whose store is open.
pub record IsBeside (root : FilePath) (cap : VolumeCapability) (n : Name) (dir : FilePath) (j : ℕ)
    (w : World) : Type 0 where
  pub away : InStore root dir → ⊥
  pub bounded : Bounded w.fs.next_ino w.fs.table
  pub objects_there :
      All (λ a. has_dir a w.fs.dirs ≡ true) (ancestors_in (cas_store root cap).objects_dir)
  pub some_links : 1 < cap.max_links
  pub file_there : find (n ∷ dir) w.fs.table ≡ some j
  pub link_free : find (sibling_tmp_link (n ∷ dir)) w.fs.table ≡ none
  pub no_link_dir : has_dir (sibling_tmp_link (n ∷ dir)) w.fs.dirs ≡ false
  pub no_file_dir : has_dir (n ∷ dir) w.fs.dirs ≡ false
  pub dir_there : has_dir dir w.fs.dirs ≡ true

module _ (root : FilePath) (cap : VolumeCapability) (d : Bytes) (source : FilePath) (i : ℕ)
    (w : World) (c : CanPublish root cap d source i w) (n : Name) (dir : FilePath) (j : ℕ)
    (b : IsBeside root cap n dir j w) where
  abbrev file : FilePath
  file = n ∷ dir

  abbrev after : World
  after = published root cap d source i w

  abbrev master_path : FilePath
  master_path = first root cap d source i w

  master_free : find master_path w.fs.table ≡ none
  master_free = (absent_there master_path w.fs c.absent).0

  -- A path whose directory is not in the store is none of it.
  elsewhere : (q : FilePath) → (InStore root (directory q) → ⊥) → q ≢ master_path
  unfolding slot_path
  elsewhere q a e = a (_ ∷ text (codes "objects") ∷ [], ap directory e)

  not_shard : (q : FilePath) → (InStore root (directory q) → ⊥) → q ≢ shard root cap d source i w
  not_shard q a e = a (text (codes "objects") ∷ [], ap directory e)

  beside_away : InStore root (directory (sibling_tmp_link file)) → ⊥
  beside_away s = b.away (subst (InStore root) (sibling_tmp_link-directory n dir) s)

  same_dir :
      (q : FilePath)
      → (InStore root (directory q) → ⊥)
      → has_dir q after.fs.dirs ≡ has_dir q w.fs.dirs
  same_dir q a = has_dir_other _ _ q w.fs.dirs b.objects_there (not_shard q a)

  young : j < w.fs.next_ino
  young = Bounded-find _ file j w.fs.table b.bounded b.file_there

  one_name : names w.fs.next_ino after.fs.table ≡ 1
  one_name = ground (
    arith,
    names-Bounded w.fs.next_ino w.fs.table b.bounded,
    names-bind master_path w.fs.next_ino w.fs.next_ino w.fs.table master_free,
  )

  pub published-CanLink : CanLink (cas_store root cap) d file w.fs.next_ino j after
  published-CanLink = record {
    os = c.os;
    digest = c.digest;
    shard_there = dir_there _ after.fs (has_dir_made (shard root cap d source i w) w.fs.dirs);
    master_there = find-bind_same master_path w.fs.next_ino w.fs.table;
    room = omega (arith, one_name, b.some_links);
    target_there =
        find-bind_ne master_path file w.fs.next_ino j w.fs.table b.file_there
          (elsewhere file b.away);
    distinct = λ e. omega (arith, young, e);
    link_free =
        find-bind_other master_path (sibling_tmp_link file) w.fs.next_ino w.fs.table
          (elsewhere _ beside_away)
        ∙ b.link_free;
    no_link_dir = same_dir _ beside_away ∙ b.no_link_dir;
    link_parent =
        has_parent-sibling_tmp_link n dir after.fs ∙ has_dir_kept dir _ w.fs.dirs b.dir_there;
    no_target_dir = same_dir file b.away ∙ b.no_file_dir;
    target_parent = has_parent-cons n dir after.fs ∙ has_dir_kept dir _ w.fs.dirs b.dir_there;
  }

module _ (root : FilePath) (cap : VolumeCapability) (d : Bytes) (source : FilePath) (i : ℕ)
    (w : World) where
  -- What the publishing leaves of the files that were there.
  pub content_kept :
      (k : ℕ)
      → k < w.fs.next_ino
      → ((published root cap d source i w).fs.inode k).content ≡ (w.fs.inode k).content
  unfolding create
  content_kept k l = ground (arith, l)

  pub source_kept :
      CanPublish root cap d source i w
      → source ≢ first root cap d source i w
      → find source (published root cap d source i w).fs.table ≡ some i
  source_kept c ne =
      find-bind_ne (first root cap d source i w) source w.fs.next_ino i w.fs.table c.source_there ne
