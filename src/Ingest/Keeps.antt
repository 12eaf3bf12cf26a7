-- ===== src/Ingest/Keeps.antt =====
-- Evaluating a file only reads.
use i_tan_reclaim_space.Base.{
  ℕ, zero, suc, ◌+◌, ◌^◌, Bytes, List, Option, none, some, ltb, ◌==◌, length, ◌&&◌,
}
use i_tan_reclaim_space.Fs.Handles.{file_open}
use i_tan_reclaim_space.Fs.Path.{FilePath}
use i_tan_reclaim_space.Fs.State.{Fs, Metadata}
use i_tan_reclaim_space.Fs.World.{Platform, unix, windows, other, M}
use i_tan_reclaim_space.Fs.Ensures.{
  Ensures, Keeps, >>=-Ensures, map_err-Ensures, pure-Keeps, throw-Ensures, Bool-Ensures,
  metadata-Keeps, query-Keeps, platform-Keeps, exists-Keeps,
}
use i_tan_reclaim_space.Capability.{LinkStrategy}
use i_tan_reclaim_space.Digest.{
  Hasher, boundary_hash, full_cas_digest, open_file_for_read, open_on,
  open_file_with_sequential_hint, read_to_end, read_exact, seek, whole_hash, ends_hash, read_block,
  digest_rounds, boundary_full_read_limit,
}
use i_tan_reclaim_space.Store.{CasStore}
use i_tan_reclaim_space.Store.Hex.{hex_encode, validate_digest_hex}
use i_tan_reclaim_space.Store.Slots.{lookup, lookup_from}
use i_tan_reclaim_space.Whitelist.{FileClass, whitelisted, prohibited, unknown, classify_path}
use i_tan_reclaim_space.Ingest.{
  InodeCache, IngestPipeline, cached, platform_inode, meta_link_count, resolve, hash_and_resolve,
  evaluate_file, evaluate,
}

module _ (P : Fs → Type 0) where
  open_file_for_read-Keeps : (path : FilePath) → Keeps P (open_file_for_read path)
  unfolding open_file_for_read file_open
  open_file_for_read-Keeps path = map_err-Ensures _ _ (query-Keeps _)

  open_on-Keeps : (os : Platform) (path : FilePath) → Keeps P (open_on os path)
  unfolding open_on
  open_on-Keeps unix path =
      >>=-Ensures _ _ (open_file_for_read-Keeps path) λ _ _. open_file_for_read-Keeps path
  open_on-Keeps windows path = open_file_for_read-Keeps path
  open_on-Keeps other path = open_file_for_read-Keeps path

  module _ (h : Hasher) where
    pub boundary_hash-Keeps : (path : FilePath) → Keeps P (boundary_hash h path)
    unfolding boundary_hash whole_hash ends_hash read_to_end read_exact seek
    boundary_hash-Keeps path = >>=-Ensures _ _ (map_err-Ensures _ _ (metadata-Keeps path)) λ meta _.
        >>=-Ensures _ _ (open_file_for_read-Keeps path) λ file _.
          Bool-Ensures (ltb meta.len boundary_full_read_limit) _ _
            (>>=-Ensures _ _ (map_err-Ensures _ _ (query-Keeps _)) λ _ _. pure-Keeps _)
            (>>=-Ensures _ _ (map_err-Ensures _ _ (query-Keeps _)) λ _ _.
              >>=-Ensures _ _ (map_err-Ensures _ _ (query-Keeps _))
                λ _ _. >>=-Ensures _ _ (map_err-Ensures _ _ (query-Keeps _)) λ _ _. pure-Keeps _)

    module _ (granted : ℕ → ℕ) where
      digest_rounds-Keeps :
          (rounds : ℕ) (path : FilePath) (file offset : ℕ) (hasher : h.State)
          → Keeps P (digest_rounds h granted rounds path file offset hasher)
      unfolding digest_rounds read_block
      digest_rounds-Keeps zero path file offset hasher = pure-Keeps _
      digest_rounds-Keeps (suc rounds) path file offset hasher =
          >>=-Ensures _ _ (map_err-Ensures _ _ (query-Keeps _)) λ block _.
            Bool-Ensures (length block == 0) _ _ (pure-Keeps _)
              (digest_rounds-Keeps rounds path file _ _)

      full_cas_digest-Keeps :
          (path : FilePath) (strategy : LinkStrategy)
          → Keeps P (full_cas_digest h granted path strategy)
      unfolding full_cas_digest open_file_with_sequential_hint
      full_cas_digest-Keeps path strategy =
          >>=-Ensures _ _ (>>=-Ensures _ _ platform-Keeps λ os _. open_on-Keeps os path)
            λ file _. digest_rounds-Keeps (2 ^ 63) path file 0 h.new

  lookup_from-Keeps :
      (rounds k : ℕ) (shard : FilePath) (hex : Bytes) → Keeps P (lookup_from rounds k shard hex)
  unfolding lookup_from
  lookup_from-Keeps zero k shard hex = pure-Keeps _
  lookup_from-Keeps (suc rounds) k shard hex = >>=-Ensures _ _ (exists-Keeps _) λ here _.
      Bool-Ensures here _ _ (pure-Keeps _)
        (Bool-Ensures (ltb 0 k) _ _ (pure-Keeps _) (lookup_from-Keeps rounds (k + 1) shard hex))

  lookup-Keeps : (s : CasStore) (digest : Bytes) → Keeps P (lookup s digest)
  unfolding lookup
  lookup-Keeps s digest =
      Bool-Ensures (validate_digest_hex (hex_encode digest)) _ _
        (>>=-Ensures _ _ (exists-Keeps _)
          λ there _. Bool-Ensures there _ _ (lookup_from-Keeps (2 ^ 32) 0 _ _) (pure-Keeps _))
        (throw-Ensures _)

  module _ (keys : InodeCache → List ℕ) (h : Hasher) (granted : ℕ → ℕ) where
    resolved-Keeps :
        {E A : Type 0} {B : Type 0} (r : Option A) (n : M E B) (f : A → M E B)
        → Keeps P n
        → ((a : A) → Keeps P (f a))
        → Keeps P (elim r as (λ _. M E B) [ none ↦ n | some a ↦ f a ])
    resolved-Keeps none n f k l = k
    resolved-Keeps (some a) n f k l = l a

    evaluate_file-Keeps :
        (path : FilePath) (meta : Metadata) (pl : IngestPipeline)
        → Keeps P (evaluate_file keys h granted path meta pl)
    unfolding evaluate_file hash_and_resolve resolve
    evaluate_file-Keeps path meta pl = Bool-Ensures (ltb meta.len 4_096) _ _ (pure-Keeps _) (
        >>=-Ensures _ _ platform-Keeps λ os _.
          Bool-Ensures
            (cached (platform_inode os meta) pl.inode_cache && ltb 1 (meta_link_count os meta)) _ _
            (pure-Keeps _)
            (>>=-Ensures _ _ (map_err-Ensures _ _ (boundary_hash-Keeps h path)) λ b _.
              >>=-Ensures _ _ (map_err-Ensures _ _ (full_cas_digest-Keeps h granted path _)) λ d _.
                >>=-Ensures _ _ (map_err-Ensures _ _ (lookup-Keeps _ d))
                  λ r _. resolved-Keeps r _ _ (pure-Keeps _) (λ _. pure-Keeps _)))

    pub FileClass-Ensures :
        {E B : Type 0} {Q : B → Type 0} (c : FileClass) (m n o : M E B)
        → Ensures P Q m
        → Ensures P Q n
        → Ensures P Q o
        → Ensures P Q (elim c as (λ _. M E B) [ prohibited ↦ m | unknown ↦ n | whitelisted ↦ o ])
    FileClass-Ensures prohibited m n o x y z = x
    FileClass-Ensures unknown m n o x y z = y
    FileClass-Ensures whitelisted m n o x y z = z

    pub evaluate-Keeps :
        (path : FilePath) (pl : IngestPipeline) → Keeps P (evaluate keys h granted path pl)
    unfolding evaluate
    evaluate-Keeps path pl =
        FileClass-Ensures (classify_path path) _ _ _ (pure-Keeps _) (pure-Keeps _) (
          >>=-Ensures _ _ (map_err-Ensures _ _ (metadata-Keeps path))
            λ meta _. evaluate_file-Keeps path meta pl)
