-- ===== src/Ingest.antt =====
-- crates/itan-core/src/ingest.rs: the verdict on a file, tier by tier. The order in which a hash map
-- hands out its keys is a parameter.
pub mod Keeps
pub mod Laws
pub mod Verdicts
use i_tan_reclaim_space.Base.{
  ℕ, ◌+◌, ◌/◌, Bytes, Bool, true, false, List, [], ◌∷◌, ◌++◌, Option, none, some, ltb, leb, ◌==◌,
  if◌then◌else◌, length, take, ◌&&◌,
}
use i_tan_reclaim_space.Base.Results.{Result, ok, err}
use i_tan_reclaim_space.Fs.Path.{FilePath}
use i_tan_reclaim_space.Fs.State.{IoError, Metadata}
use i_tan_reclaim_space.Fs.World.{
  Platform, unix, windows, other, M, pure, throw, ◌>>=◌, map_err, platform,
}
use i_tan_reclaim_space.Fs.Calls.{metadata}
use i_tan_reclaim_space.Text.{str_eq}
use i_tan_reclaim_space.Capability.{LinkStrategy}
use i_tan_reclaim_space.Digest.{DigestError, Hasher, min_file_size, boundary_hash, full_cas_digest}
use i_tan_reclaim_space.Store.{CasStore, SlotRef, StoreError}
use i_tan_reclaim_space.Store.Slots.{lookup, platform_link_count}
use i_tan_reclaim_space.Verdict.{
  IngestVerdict, bypass, unique, duplicate, too_small, already_ingested, BypassReason, unknown_type,
}
use i_tan_reclaim_space.Whitelist.{FileClass, whitelisted, prohibited, unknown, classify_path}

pub data IngestError : Type 0 where
  metadata_failed : FilePath → IoError → IngestError
  digest_failed : DigestError → IngestError
  store_failed : StoreError → IngestError

abbrev pub max_inode_cache_entries : ℕ
max_inode_cache_entries = 100_000

-- `HashMap<u64, SlotRef>`, as a list that has each key once.
abbrev pub InodeCache : Type 0
InodeCache = List (ℕ × SlotRef)

unfoldable pub cached : ℕ → InodeCache → Bool
cached k [] = false
cached k ((j, s) ∷ cache) = if k == j then true else cached k cache

unfoldable pub uncache : ℕ → InodeCache → InodeCache
uncache k [] = []
uncache k ((j, s) ∷ cache) = if k == j then uncache k cache else (j, s) ∷ uncache k cache

unfoldable pub uncache_all : List ℕ → InodeCache → InodeCache
unfolding uncache
uncache_all [] cache = cache
uncache_all (k ∷ ks) cache = uncache_all ks (uncache k cache)

-- `HashMap::insert`
unfoldable pub insert : ℕ → SlotRef → InodeCache → InodeCache
unfolding uncache
insert k s cache = (k, s) ∷ uncache k cache

-- `HashMap<[u8; 32], Vec<SlotRef>>`
abbrev pub BoundaryCache : Type 0
BoundaryCache = List (Bytes × List SlotRef)

-- `entry(k).or_default()`, and what is pushed on it.
unfoldable pub push_all : Bytes → List SlotRef → BoundaryCache → BoundaryCache
unfolding str_eq
push_all k slots [] = (k, slots) ∷ []
push_all k slots ((j, old) ∷ cache) =
    if str_eq k j then (j, old ++ slots) ∷ cache else (j, old) ∷ push_all k slots cache

pub record IngestPipeline : Type 0 where
  pub store : CasStore
  pub strategy : LinkStrategy
  pub inode_cache : InodeCache
  pub boundary_cache : BoundaryCache

abbrev pub new_pipeline : CasStore → LinkStrategy → IngestPipeline
new_pipeline s strategy = record {
  store = s;
  strategy = strategy;
  inode_cache = [];
  boundary_cache = [];
}

-- `platform_inode`
unfoldable pub platform_inode : Platform → Metadata → ℕ
platform_inode unix meta = meta.ino
platform_inode windows meta = 0
platform_inode other meta = 0

-- `meta_link_count`
unfoldable pub meta_link_count : Platform → Metadata → ℕ
meta_link_count unix meta = meta.nlink
meta_link_count windows meta = 1
meta_link_count other meta = 1

module _ (keys : InodeCache → List ℕ) where
  unfoldable pub cache_inode : ℕ → SlotRef → InodeCache → InodeCache
  unfolding uncache_all insert
  cache_inode inode slot_ref cache =
      let victims = take (max_inode_cache_entries / 2) (keys cache) in
      insert inode slot_ref
        (if leb max_inode_cache_entries (length cache) then uncache_all victims cache else cache)

  module _ (h : Hasher) (granted : ℕ → ℕ) where
    -- The verdict with the pipeline that is left, also in an error.
    abbrev pub Evaluation : Type 0
    Evaluation = M (IngestError × IngestPipeline) (IngestVerdict × IngestPipeline)

    abbrev boundary_known : Bytes → IngestPipeline → IngestPipeline
    boundary_known b_hash pl = record pl { boundary_cache = push_all b_hash [] pl.boundary_cache }

    abbrev resolved : ℕ → Bytes → SlotRef → IngestPipeline → IngestPipeline
    resolved inode b_hash slot_ref pl = record pl {
      inode_cache = cache_inode inode slot_ref pl.inode_cache;
      boundary_cache = push_all b_hash (slot_ref ∷ []) pl.boundary_cache;
    }

    -- Tier 2, with the boundary hash of tier 1.
    unfoldable pub resolve : FilePath → ℕ → Bytes → IngestPipeline → Evaluation
    unfolding cache_inode
    resolve path inode b_hash pl = do
      cas_digest ← map_err (λ e. (digest_failed e, pl)) (full_cas_digest h granted path pl.strategy)
      found ← map_err (λ e. (store_failed e, pl)) (lookup pl.store cas_digest)
      elim found [
        | some slot_ref ↦ pure (duplicate slot_ref, resolved inode b_hash slot_ref pl)
        | none ↦ pure (unique, pl)
      ]

    -- Tiers 1 and 2, for a file that tier 0 lets pass.
    unfoldable pub hash_and_resolve : FilePath → ℕ → IngestPipeline → Evaluation
    unfolding resolve push_all
    hash_and_resolve path inode pl = do
      b_hash ← map_err (λ e. (digest_failed e, pl)) (boundary_hash h path)
      resolve path inode b_hash (boundary_known b_hash pl)

    -- Tier 0b: the size and the inode.
    unfoldable pub evaluate_file : FilePath → Metadata → IngestPipeline → Evaluation
    unfolding hash_and_resolve cached platform_inode meta_link_count
    evaluate_file path meta pl = elim (ltb meta.len min_file_size) [
      | true ↦ pure (bypass too_small, pl)
      | false ↦ do
        os ← platform
        let inode = platform_inode os meta
        elim (cached inode pl.inode_cache && ltb 1 (meta_link_count os meta)) [
          | true ↦ pure (bypass already_ingested, pl)
          | false ↦ hash_and_resolve path inode pl
        ]
    ]

    unfoldable pub evaluate : FilePath → IngestPipeline → Evaluation
    unfolding evaluate_file
    evaluate path pl = elim (classify_path path) [
      | prohibited ↦ pure (bypass BypassReason.prohibited, pl)
      | unknown ↦ pure (bypass unknown_type, pl)
      | whitelisted ↦ do
        meta ← map_err (λ e. (metadata_failed path e, pl)) (metadata path)
        evaluate_file path meta pl
    ]
