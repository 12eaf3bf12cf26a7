-- ===== src/Cli/Duplicates.antt =====
-- What `ingest` does with one file, from the verdict to the volume and the counters, in a run in which
-- no call fails and no other process interferes.
use i_tan_reclaim_space.Base.{
  ℕ, ◌+◌, ◌^◌, ◌≤◌, ◌<◌, ◌≡◌, refl, ap, ◌∙◌, Bytes, false, List, Option, none, some, Bool-cases,
  inl, inr, length,
}
use i_tan_reclaim_space.Base.Results.{Result, ok}
use i_tan_reclaim_space.Capability.{VolumeCapability}
use i_tan_reclaim_space.Cli.{CliError}
use i_tan_reclaim_space.Cli.Ingest.{Progress, count_result, link_file, act_on, ingest_file}
use i_tan_reclaim_space.Cli.Laws.{parse_hex_digest-hex_encode}
use i_tan_reclaim_space.Digest.{Hasher, IsHasher, hash_of}
use i_tan_reclaim_space.Digest.Laws.{sampled, full_cas_digest-hash_of}
use i_tan_reclaim_space.Fs.Path.{FilePath}
use i_tan_reclaim_space.Fs.Runs.{>>=-ok, attempt-eq}
use i_tan_reclaim_space.Fs.Runs.Files.{there, there_found}
use i_tan_reclaim_space.Fs.Table.{find}
use i_tan_reclaim_space.Fs.World.{World, calm, unix, attempt}
use i_tan_reclaim_space.Ingest.{InodeCache, cached, evaluate}
use i_tan_reclaim_space.Ingest.Laws.{pipeline_of, with_boundary, verdict_of, evaluate-lookup}
use i_tan_reclaim_space.Linkage.{LinkError, LinkResult, apply}
use i_tan_reclaim_space.Linkage.Duplicate.{
  master_of, CanLink, unprotected, relinked, link_to_master-calm,
}
use i_tan_reclaim_space.Linkage.Publish.{CanPublish, published, publish_new_master-lookup}
use i_tan_reclaim_space.Permissions.{readonly}
use i_tan_reclaim_space.RetryJob.{RetryJob}
use i_tan_reclaim_space.RetryQueue.{Channel}
use i_tan_reclaim_space.Store.{CasStore, SlotRef, cas_store}
use i_tan_reclaim_space.Store.Hex.{hex_encode}
use i_tan_reclaim_space.Store.Hex.Laws.{IsDigest}
use i_tan_reclaim_space.Store.Lookup.{lookup_lem}
use i_tan_reclaim_space.Store.Slots.{shard_of, slot_path, lookup}
use i_tan_reclaim_space.Verdict.{IngestVerdict, unique, duplicate}
use i_tan_reclaim_space.Whitelist.{whitelisted, classify_path}

module _ (h : Hasher) (granted : ℕ → ℕ) (keys : InodeCache → List ℕ) (channel : Channel RetryJob)
    (cap : VolumeCapability) (s : CasStore) (law : IsHasher h) (path : FilePath) (j : ℕ) (w : World)
    (p : Progress) where
  abbrev content : Bytes
  content = (w.fs.inode j).content

  abbrev digest : Bytes
  digest = hash_of h content

  abbrev boundary : Bytes
  boundary = hash_of h (sampled content)

  -- A file that is not passed by, in a system with short files only.
  pub record IsCandidate : Type 0 where
    pub opened : p.pipeline.store ≡ s
    pub named : find path w.fs.table ≡ some j
    pub class : classify_path path ≡ whitelisted
    pub large : 4_096 ≤ length content
    pub short : length content < 2 ^ 63
    pub new : cached j p.pipeline.inode_cache ≡ false

  pub link_file-calm :
      (verdict : IngestVerdict) (d : Bytes) (q : Progress) (r : Result LinkError LinkResult)
      (v : World)
      → apply channel s path verdict d (calm w) ≡ (r, v)
      → link_file h granted keys channel cap s false path verdict (some d) q (calm w)
        ≡ (ok (count_result r q), v)
  unfolding link_file
  link_file-calm verdict d q r v e = >>=-ok _ _ (calm w) r v (attempt-eq _ (calm w) r v e)

  module _ (c : IsCandidate) where
    pub evaluated :
        (r : Option SlotRef)
        → w.os ≡ unix
        → lookup s digest (calm w) ≡ (ok r, calm w)
        → attempt {F = CliError} (evaluate keys h granted path p.pipeline) (calm w) ≡ (
          ok (ok (verdict_of r, pipeline_of keys j boundary r (with_boundary boundary p.pipeline))),
          calm w,
        )
    evaluated r u e = attempt-eq _ (calm w) _ (calm w) (
        evaluate-lookup keys h granted law path j w c.named c.short p.pipeline r u c.class c.large
          c.new (ap (λ x. lookup x digest (calm w)) c.opened ∙ e))

    -- A duplicate becomes a name of its master, as `link_to_master` does it, and its length counts as saved.
    pub ingest_file-linked :
        (i : ℕ)
        → CanLink s digest path i j w
        → ingest_file h granted keys channel cap s false path p (calm w) ≡ (
          ok (record p {
            total_files = p.total_files + 1;
            linked = p.linked + 1;
            total_saved = p.total_saved + length content;
            pipeline =
                pipeline_of keys j boundary
                  (some (master_of s digest))
                  (with_boundary boundary p.pipeline);
          }),
          relinked path i (unprotected (readonly (w.fs.inode j).mode) j w),
        )
    unfolding ingest_file act_on apply
    ingest_file-linked i l =
        >>=-ok _ _ (calm w) _ (calm w) (
          evaluated (some (master_of s digest)) l.os (
            lookup_lem s digest w l.digest
            ∙ rw (l.shard_there, there_found _ i w.fs l.master_there) refl))
        ∙ ap
            (λ o.
              link_file h granted keys channel cap s false path (duplicate (master_of s digest)) o
                (record p {
                  total_files = p.total_files + 1;
                  pipeline =
                      pipeline_of keys j boundary (some (master_of s digest))
                        (with_boundary boundary p.pipeline);
                })
                (calm w))
            (parse_hex_digest-hex_encode digest l.digest)
        ∙ link_file-calm (duplicate (master_of s digest)) digest _ _ _
            (link_to_master-calm channel s digest path i j w l)

module _ (h : Hasher) (granted : ℕ → ℕ) (keys : InodeCache → List ℕ) (channel : Channel RetryJob)
    (root : FilePath) (cap : VolumeCapability) (law : IsHasher h) (path : FilePath) (j : ℕ)
    (w : World) (p : Progress) where
  abbrev s : CasStore
  s = cas_store root cap

  abbrev d : Bytes
  d = hash_of h (w.fs.inode j).content

  abbrev boundary_of : Bytes
  boundary_of = hash_of h (sampled (w.fs.inode j).content)

  no_slot :
      IsDigest d
      → there (slot_path (shard_of s (hex_encode d)) (hex_encode d) 0) w.fs ≡ false
      → there (slot_path (shard_of s (hex_encode d)) (hex_encode d) 1) w.fs ≡ false
      → lookup s d (calm w) ≡ (ok none, calm w)
  no_slot v a b =
      lookup_lem s d w v
      ∙ rw (a, b)
          (elim (Bool-cases (there (shard_of s (hex_encode d)) w.fs)) [
            | inl e ↦ rw e refl
            | inr e ↦ rw e refl
          ])

  -- A file that is the first of its digest is copied to be the master, and counts as unique.
  pub ingest_file-published :
      IsCandidate h granted keys channel cap s law path j w p
      → CanPublish root cap d path j w
      → there (slot_path (shard_of s (hex_encode d)) (hex_encode d) 1) w.fs ≡ false
      → ingest_file h granted keys channel cap s false path p (calm w) ≡ (
        ok (record p {
          total_files = p.total_files + 1;
          unique = p.unique + 1;
          pipeline = with_boundary boundary_of p.pipeline;
        }),
        published root cap d path j w,
      )
  unfolding ingest_file act_on apply
  ingest_file-published c l b =
      >>=-ok _ _ (calm w) _ (calm w) (
        evaluated h granted keys channel cap s law path j w p c none l.os
          (no_slot l.digest l.absent b))
      ∙ >>=-ok _ _ (calm w) (ok d) (calm w) (
          attempt-eq _ (calm w) _ (calm w)
            (full_cas_digest-hash_of h granted law path cap.strategy j w c.named c.short))
      ∙ link_file-calm h granted keys channel cap s law path j w p unique d _ _ _
          (>>=-ok _ _ (calm w) _ _ (publish_new_master-lookup root cap d path j w l).0)
