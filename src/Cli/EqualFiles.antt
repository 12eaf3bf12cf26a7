-- ===== src/Cli/EqualFiles.antt =====
-- What `ingest` makes of two equal files, in a run in which no call fails and no other process interferes.
use mathlib.Core.Path.{subst}
use i_tan_reclaim_space.Base.{
  ℕ, ◌+◌, ◌^◌, ◌≤◌, ◌<◌, ◌≡◌, ◌≢◌, refl, sym, ap, ◌∙◌, Bytes, false, List, ◌∷◌, none, some, length,
  arith,
}
use i_tan_reclaim_space.Base.Results.{ok}
use i_tan_reclaim_space.Capability.{VolumeCapability}
use i_tan_reclaim_space.Cli.Duplicates.{IsCandidate, ingest_file-linked, ingest_file-published}
use i_tan_reclaim_space.Cli.Ingest.{Progress, ingest_file}
use i_tan_reclaim_space.Digest.{Hasher, IsHasher, hash_of}
use i_tan_reclaim_space.Digest.Laws.{sampled}
use i_tan_reclaim_space.Ingest.{InodeCache, cached}
use i_tan_reclaim_space.Ingest.Laws.{with_boundary}
use i_tan_reclaim_space.Permissions.{readonly}
use i_tan_reclaim_space.RetryJob.{RetryJob}
use i_tan_reclaim_space.RetryQueue.{Channel}
use i_tan_reclaim_space.Store.Hex.{hex_encode}
use i_tan_reclaim_space.Whitelist.{whitelisted, classify_path}
use i_tan_reclaim_space.Fs.Path.{Name, FilePath}
use i_tan_reclaim_space.Fs.Runs.{>>=-ok}
use i_tan_reclaim_space.Fs.Runs.Files.{there, absent_there}
use i_tan_reclaim_space.Fs.Table.{find, find-bind_same, find-bind_ne}
use i_tan_reclaim_space.Fs.World.{World, calm, ◌>>=◌}
use i_tan_reclaim_space.Linkage.Duplicate.{
  CanLink, unprotected, relinked, relinked-table, relinked-content,
}
use i_tan_reclaim_space.Linkage.Publish.{CanPublish, published, first, publish_new_master-lookup}
use i_tan_reclaim_space.Store.{CasStore, cas_store}
use i_tan_reclaim_space.Store.Content.{Bounded-find}
use i_tan_reclaim_space.Store.Slots.{shard_of, slot_path}
use i_tan_reclaim_space.Linkage.Beside.{IsBeside, published-CanLink, content_kept, source_kept}

-- The world after the second of two files was linked to the master that the first one became.
abbrev pub both_done :
    FilePath → VolumeCapability → Bytes → FilePath → ℕ → World → FilePath → ℕ → World
both_done root cap d source i w other j =
    let between : World = published root cap d source i w in
    relinked other w.fs.next_ino (unprotected (readonly (between.fs.inode j).mode) j between)

module _ (h : Hasher) (granted : ℕ → ℕ) (keys : InodeCache → List ℕ) (channel : Channel RetryJob)
    (root : FilePath) (cap : VolumeCapability) (law : IsHasher h) (source : FilePath) (i : ℕ)
    (w : World) (p : Progress) (n : Name) (dir : FilePath) (j : ℕ) where
  abbrev s : CasStore
  s = cas_store root cap

  abbrev d : Bytes
  d = hash_of h (w.fs.inode i).content

  abbrev other : FilePath
  other = n ∷ dir

  abbrev master : FilePath
  master = first root cap d source i w

  abbrev between : World
  between = published root cap d source i w

  abbrev first_done : Progress
  first_done = record p {
    total_files = p.total_files + 1;
    unique = p.unique + 1;
    pipeline = with_boundary (hash_of h (sampled (w.fs.inode i).content)) p.pipeline;
  }

  abbrev final : World
  final = both_done root cap d source i w other j

  -- Of two equal files, `ingest` copies the first to be the master of their digest and puts a hard link to this master
  -- in the place of the second, whose length counts as saved; the first file stays as it is, and no content changes. Both
  -- are whitelisted, shorter than 2⁶³ bytes and at least 4 KiB long, their inodes are not in the cache, and the
  -- digest has no slot yet. The store is open, and the directories and the names for the staging file and the temporary
  -- link are free; on a Unix system, in a run in which no call fails and no other process interferes.
  pub ingest_file_equal :
      IsCandidate h granted keys channel cap s law source i w p
      → CanPublish root cap d source i w
      → there (slot_path (shard_of s (hex_encode d)) (hex_encode d) 1) w.fs ≡ false
      → (b : IsBeside root cap n dir j w) → (w.fs.inode j).content ≡ (w.fs.inode i).content
      → classify_path other ≡ whitelisted
      → cached j p.pipeline.inode_cache ≡ false
      → source ≢ other
      → (q : Progress) × ((ingest_file h granted keys channel cap s false source p
              >>= ingest_file h granted keys channel cap s false other)
            (calm w)
          ≡ (ok q, final))
        × (q.total_files ≡ p.total_files + 2)
        × (q.unique ≡ p.unique + 1)
        × (q.linked ≡ p.linked + 1)
        × (q.total_saved ≡ p.total_saved + length (w.fs.inode j).content)
        × (find other final.fs.table ≡ some w.fs.next_ino)
        × (find master final.fs.table ≡ some w.fs.next_ino)
        × (find source final.fs.table ≡ some i)
        × ((final.fs.inode w.fs.next_ino).content ≡ (w.fs.inode j).content)
        × ((final.fs.inode i).content ≡ (w.fs.inode i).content)
  ingest_file_equal c l a b e class new distinct =
      let free : find master w.fs.table ≡ none = (absent_there master w.fs l.absent).0 in
      let published_lem = publish_new_master-lookup root cap d source i w l in
      let kept : (between.fs.inode j).content ≡ (w.fs.inode i).content =
        content_kept root cap d source i w j
          (Bounded-find _ other j w.fs.table b.bounded b.file_there)
        ∙ e in
      let can : CanLink s (hash_of h (between.fs.inode j).content) other w.fs.next_ino j between =
        subst (λ x. CanLink s (hash_of h x) other w.fs.next_ino j between) (sym kept)
          (published-CanLink root cap d source i w l n dir j b) in
      let candidate : IsCandidate h granted keys channel cap s law other j between first_done =
        record {
          opened = c.opened;
          named = can.target_there;
          class = class;
          large = subst (λ x. 4_096 ≤ length x) (sym kept) c.large;
          short = subst (λ x. length x < 2 ^ 63) (sym kept) c.short;
          new = new;
        } in
      (
        _,
        >>=-ok _ _ (calm w) first_done between
              (ingest_file-published h granted keys channel root cap law source i w p c l a)
            ∙ ingest_file-linked h granted keys channel cap s law other j between first_done
                candidate w.fs.next_ino can,
        omega arith,
        refl,
        refl,
        ap (λ x. p.total_saved + length x) (kept ∙ sym e),
        find-bind_same other w.fs.next_ino _,
        ap (find master) (relinked-table other _ w.fs.next_ino j between)
            ∙ find-bind_ne other master w.fs.next_ino w.fs.next_ino _ published_lem.2
                (λ g. cc (g, b.file_there, free)),
        ap (find source) (relinked-table other _ w.fs.next_ino j between)
            ∙ find-bind_ne other source w.fs.next_ino i _
                (source_kept root cap d source i w l (λ g. cc (g, l.source_there, free))) distinct,
        relinked-content other _ w.fs.next_ino j w.fs.next_ino between ∙ published_lem.3 ∙ sym e,
        relinked-content other _ w.fs.next_ino j i between
            ∙ content_kept root cap d source i w i
                (Bounded-find _ source i w.fs.table b.bounded l.source_there),
      )
