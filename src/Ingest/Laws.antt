-- ===== src/Ingest/Laws.antt =====
-- What the verdicts and the caches are.
use i_tan_reclaim_space.Base.{
  ℕ, ◌^◌, ◌≤◌, ◌<◌, ◌≡◌, refl, ◌∙◌, Bytes, Bool, true, false, List, [], ◌∷◌, Option, none, some,
  leb, ltb, ◌==◌, ap, ◌&&◌, if◌then◌else◌, length, take, any, arith, leb→le, leb→lt,
}
use i_tan_reclaim_space.Base.Results.{ok}
use i_tan_reclaim_space.Fs.Path.{FilePath}
use i_tan_reclaim_space.Fs.Table.{find}
use i_tan_reclaim_space.Fs.State.{file_metadata}
use i_tan_reclaim_space.Fs.World.{World, unix, calm, platform, ◌>>=◌}
use i_tan_reclaim_space.Fs.Runs.{branch, >>=-ok, map_err-ok, metadata-calm}
use i_tan_reclaim_space.Digest.{Hasher, IsHasher, hash_of}
use i_tan_reclaim_space.Digest.Laws.{sampled, boundary_hash-hash_of, full_cas_digest-hash_of}
use i_tan_reclaim_space.Store.{SlotRef}
use i_tan_reclaim_space.Store.Slots.{lookup}
use i_tan_reclaim_space.Verdict.{IngestVerdict, unique, duplicate}
use i_tan_reclaim_space.Whitelist.{whitelisted, classify_path}
use i_tan_reclaim_space.Ingest.{
  InodeCache, cached, uncache, uncache_all, insert, cache_inode, max_inode_cache_entries,
  IngestPipeline, resolve, push_all, platform_inode, meta_link_count, hash_and_resolve,
  evaluate_file, evaluate,
}

-- `HashMap::keys` hands out the keys of the map, each once, in some order.
pub record IsKeys (keys : InodeCache → List ℕ) : Type 0 where
  pub each_once : (cache : InodeCache) → length (keys cache) ≡ length cache
  pub listed : (k : ℕ) (cache : InodeCache) → any (k ==◌) (keys cache) ≡ cached k cache

length-uncache : (k : ℕ) (cache : InodeCache) → length (uncache k cache) ≤ length cache
unfolding uncache
length-uncache k [] = omega arith
length-uncache k ((j, s) ∷ cache) = ground (arith, length-uncache k cache)

length-uncache-cached :
    (k : ℕ) (cache : InodeCache) → cached k cache ≡ true → length (uncache k cache) < length cache
unfolding uncache cached
length-uncache-cached k [] e = ground arith
length-uncache-cached k ((j, s) ∷ cache) e =
    ground (arith, length-uncache k cache, length-uncache-cached k cache)

length-uncache_all :
    (ks : List ℕ) (cache : InodeCache) → length (uncache_all ks cache) ≤ length cache
unfolding uncache_all
length-uncache_all [] cache = omega arith
length-uncache_all (k ∷ ks) cache =
    omega (arith, length-uncache k cache, length-uncache_all ks (uncache k cache))

-- Some key of a cache that is not empty is among the victims.
length-uncache_all_first :
    (ks : List ℕ) (cache : InodeCache)
    → length ks ≡ length cache
    → ((k : ℕ) → any (k ==◌) ks ≡ cached k cache)
    → 0 < length cache
    → length (uncache_all (take 50_000 ks) cache) < length cache
unfolding uncache_all
length-uncache_all_first [] cache l m p = absurd (omega arith)
length-uncache_all_first (k ∷ ks) cache l m p = omega (
  arith,
  length-uncache-cached k cache (ground (arith, m k)),
  length-uncache_all (take 49_999 ks) (uncache k cache),
)

length-if :
    (b : Bool) (x y : InodeCache) (n : ℕ)
    → (b ≡ true → length x < n)
    → (b ≡ false → length y < n)
    → length (if b then x else y) < n
length-if true x y n f g = f refl
length-if false x y n f g = g refl

-- However the hash map orders its keys, the inode cache never outgrows its bound, and an inode that was
-- put in is found again.
pub cache_inode-bound :
    (keys : InodeCache → List ℕ)
    → IsKeys keys
    → (inode : ℕ) (slot_ref : SlotRef) (cache : InodeCache) → length cache ≤ max_inode_cache_entries
    → (length (cache_inode keys inode slot_ref cache) ≤ max_inode_cache_entries)
      × (cached inode (cache_inode keys inode slot_ref cache) ≡ true)
unfolding cache_inode insert cached
cache_inode-bound keys law inode slot_ref cache l = (
  omega (
    arith,
    length-uncache inode (if full then evicted else cache),
    length-if full evicted cache max_inode_cache_entries
        (λ e. omega (
          arith,
          leb→le _ _ e,
          length-uncache_all_first (keys cache) cache (law.each_once cache)
              (λ k. law.listed k cache) (omega (arith, leb→le _ _ e)),
        ))
        (λ e. leb→lt _ _ e),
  ),
  ground arith,
)
  where
    full : Bool
    full = leb max_inode_cache_entries (length cache)

    evicted : InodeCache
    evicted = uncache_all (take 50_000 (keys cache)) cache

-- The verdict that a lookup stands for.
abbrev pub verdict_of : Option SlotRef → IngestVerdict
verdict_of none = unique
verdict_of (some slot) = duplicate slot

-- The pipeline after it.
abbrev pub pipeline_of :
    (InodeCache → List ℕ) → ℕ → Bytes → Option SlotRef → IngestPipeline → IngestPipeline
pipeline_of keys inode b_hash none pl = pl
pipeline_of keys inode b_hash (some slot) pl = record pl {
  inode_cache = cache_inode keys inode slot pl.inode_cache;
  boundary_cache = push_all b_hash (slot ∷ []) pl.boundary_cache;
}

abbrev pub with_boundary : Bytes → IngestPipeline → IngestPipeline
with_boundary b_hash pl = record pl { boundary_cache = push_all b_hash [] pl.boundary_cache }

module _ (keys : InodeCache → List ℕ) (h : Hasher) (granted : ℕ → ℕ) (law : IsHasher h)
    (path : FilePath) (i : ℕ) (w : World) (bound : find path w.fs.table ≡ some i)
    (short : length (w.fs.inode i).content < 2 ^ 63) where
  abbrev boundary : Bytes
  boundary = hash_of h (sampled (w.fs.inode i).content)

  resolve-calm :
      (b_hash : Bytes) (pl : IngestPipeline) (r : Option SlotRef)
      → lookup pl.store (hash_of h (w.fs.inode i).content) (calm w) ≡ (ok r, calm w)
      → resolve keys h granted path i b_hash pl (calm w)
        ≡ (ok (verdict_of r, pipeline_of keys i b_hash r pl), calm w)
  unfolding resolve
  resolve-calm b_hash pl none e =
      >>=-ok _ _ (calm w) _ (calm w) (
        map_err-ok _ _ (calm w) _ (calm w)
          (full_cas_digest-hash_of h granted law path pl.strategy i w bound short))
      ∙ >>=-ok _ _ (calm w) none (calm w) (map_err-ok _ _ (calm w) none (calm w) e)
  resolve-calm b_hash pl (some slot) e =
      >>=-ok _ _ (calm w) _ (calm w) (
        map_err-ok _ _ (calm w) _ (calm w)
          (full_cas_digest-hash_of h granted law path pl.strategy i w bound short))
      ∙ >>=-ok _ _ (calm w) (some slot) (calm w) (map_err-ok _ _ (calm w) (some slot) (calm w) e)

  hash_and_resolve-calm :
      (pl : IngestPipeline) (r : Option SlotRef)
      → lookup pl.store (hash_of h (w.fs.inode i).content) (calm w) ≡ (ok r, calm w)
      → hash_and_resolve keys h granted path i pl (calm w)
        ≡ (ok (verdict_of r, pipeline_of keys i boundary r (with_boundary boundary pl)), calm w)
  unfolding hash_and_resolve
  hash_and_resolve-calm pl r e =
      >>=-ok _ _ (calm w) _ (calm w)
        (map_err-ok _ _ (calm w) _ (calm w) (boundary_hash-hash_of h path i w law bound))
      ∙ resolve-calm boundary (with_boundary boundary pl) r e

  and_false : (a b : Bool) → a ≡ false → (a && b) ≡ true → ⊥
  and_false a b e f = ground arith

  evaluate_file-calm :
      (pl : IngestPipeline) (r : Option SlotRef)
      → w.os ≡ unix
      → 4_096 ≤ length (w.fs.inode i).content
      → cached i pl.inode_cache ≡ false
      → lookup pl.store (hash_of h (w.fs.inode i).content) (calm w) ≡ (ok r, calm w)
      → evaluate_file keys h granted path (file_metadata i w.fs) pl (calm w)
        ≡ (ok (verdict_of r, pipeline_of keys i boundary r (with_boundary boundary pl)), calm w)
  unfolding evaluate_file platform_inode meta_link_count platform ◌>>=◌
  evaluate_file-calm pl r u l n e =
      branch (ltb (length (w.fs.inode i).content) 4_096) _ _ (calm w) _ (λ b. absurd (ground arith))
        (λ b.
          branch (cached k pl.inode_cache && ltb 1 (meta_link_count w.os (file_metadata i w.fs))) _
            _ (calm w) _
            (λ b'. absurd (and_false _ _ (ap (λ j. cached j pl.inode_cache) same ∙ n) b'))
            (λ b'.
              ap (λ j. hash_and_resolve keys h granted path j pl (calm w)) same
              ∙ hash_and_resolve-calm pl r e))
    where
      k : ℕ
      k = platform_inode w.os (file_metadata i w.fs)

      same : k ≡ i
      same = rw (u, platform_inode) refl

  -- A whitelisted file of at least 4 KiB whose inode is not in the cache gets the verdict of the lookup
  -- of the hash of its whole content; the boundary hash only goes into the caches, and the volume does
  -- not change. The file is shorter than 2⁶³ bytes, on a Unix system, in a run in which no call fails
  -- and no other process interferes.
  pub evaluate-lookup :
      (pl : IngestPipeline) (r : Option SlotRef)
      → w.os ≡ unix
      → classify_path path ≡ whitelisted
      → 4_096 ≤ length (w.fs.inode i).content
      → cached i pl.inode_cache ≡ false
      → lookup pl.store (hash_of h (w.fs.inode i).content) (calm w) ≡ (ok r, calm w)
      → evaluate keys h granted path pl (calm w)
        ≡ (ok (verdict_of r, pipeline_of keys i boundary r (with_boundary boundary pl)), calm w)
  unfolding evaluate
  evaluate-lookup pl r u c l n e =
      rw (c, evaluate)
        (>>=-ok _ _ (calm w) _ (calm w)
            (map_err-ok _ _ (calm w) _ (calm w) (metadata-calm path i w bound))
          ∙ evaluate_file-calm pl r u l n e)
