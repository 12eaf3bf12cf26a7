-- ===== src/Ingest/Verdicts.antt =====
-- What the verdict on a file says of it, on a volume that stays the same, whatever calls fail.
use i_tan_reclaim_space.Base.{
  ℕ, zero, suc, ◌+◌, ◌^◌, ◌≡◌, refl, Bytes, List, Option, none, some, ltb, ◌&&◌,
}
use i_tan_reclaim_space.Fs.Delivers.{Same}
use i_tan_reclaim_space.Fs.Ensures.{
  Ensures, >>=-Ensures, map_err-Ensures, pure-Ensures, throw-Ensures, Bool-Ensures, exists-Keeps,
  metadata-Keeps, platform-Keeps,
}
use i_tan_reclaim_space.Fs.Path.{FilePath}
use i_tan_reclaim_space.Fs.State.{Fs, Metadata}
use i_tan_reclaim_space.Fs.Table.{find}
use i_tan_reclaim_space.Fs.World.{pure}
use i_tan_reclaim_space.Digest.{Hasher}
use i_tan_reclaim_space.Digest.Reads.{full_cas_digest-Ensures}
use i_tan_reclaim_space.Digest.Rounds.{digest_of}
use i_tan_reclaim_space.Ingest.{
  InodeCache, IngestPipeline, cached, platform_inode, meta_link_count, resolve, hash_and_resolve,
  evaluate_file, evaluate,
}
use i_tan_reclaim_space.Ingest.Keeps.{boundary_hash-Keeps, FileClass-Ensures}
use i_tan_reclaim_space.Store.{CasStore, SlotRef}
use i_tan_reclaim_space.Store.Hex.{hex_encode, validate_digest_hex}
use i_tan_reclaim_space.Store.Slots.{lookup, lookup_from}
use i_tan_reclaim_space.Verdict.{IngestVerdict, bypass, unique, duplicate}
use i_tan_reclaim_space.Whitelist.{classify_path}

-- A slot that was found carries the digest.
abbrev Found : Bytes → Option SlotRef → Type 0
Found d none = Unit {0}
Found d (some slot) = slot.digest_hex ≡ hex_encode d

module _ {P : Fs → Type 0} where
  lookup_from-Ensures :
      (rounds k : ℕ) (shard : FilePath) (d : Bytes)
      → Ensures P (Found d) (lookup_from rounds k shard (hex_encode d))
  unfolding lookup_from
  lookup_from-Ensures zero k shard d = pure-Ensures _ tt
  lookup_from-Ensures (suc rounds) k shard d = >>=-Ensures _ _ (exists-Keeps _) λ here _.
      Bool-Ensures here _ _ (pure-Ensures _ refl) (
        Bool-Ensures (ltb 0 k) _ _ (pure-Ensures _ tt) (lookup_from-Ensures rounds (k + 1) shard d))

  lookup-Ensures : (s : CasStore) (d : Bytes) → Ensures P (Found d) (lookup s d)
  unfolding lookup
  lookup-Ensures s d =
      Bool-Ensures (validate_digest_hex (hex_encode d)) _ _
        (>>=-Ensures _ _ (exists-Keeps _) λ there _.
          Bool-Ensures there _ _ (lookup_from-Ensures (2 ^ 32) 0 _ d) (pure-Ensures _ tt))
        (throw-Ensures _)

module _ (keys : InodeCache → List ℕ) (h : Hasher) (granted : ℕ → ℕ) (fs : Fs)
    (path : FilePath) where
  -- A digest that the file has.
  abbrev pub HasDigest : Bytes → Type 0
  HasDigest d =
      (i : ℕ) × (find path fs.table ≡ some i) × (d ≡ digest_of h granted (fs.inode i).content)

  -- A duplicate has the digest that its slot carries.
  abbrev pub Says : IngestVerdict → Type 0
  Says (bypass reason) = Unit {0}
  Says unique = Unit {0}
  Says (duplicate slot) = (d : Bytes) × HasDigest d × (slot.digest_hex ≡ hex_encode d)

  resolved-Ensures :
      {E : Type 0} (d : Bytes) (o : Option SlotRef) (pl : IngestPipeline)
      (next : SlotRef → IngestPipeline)
      → HasDigest d
      → Found d o
      → Ensures {E = E}
          (Same fs)
          (λ (v : IngestVerdict × IngestPipeline). Says v.0)
          (elim o [ some slot ↦ pure (duplicate slot, next slot) | none ↦ pure (unique, pl) ])
  resolved-Ensures d none pl next e f = pure-Ensures _ tt
  resolved-Ensures d (some slot) pl next e f = pure-Ensures _ (d, e, f)

  evaluate_file-Ensures :
      (meta : Metadata) (pl : IngestPipeline)
      → Ensures (Same fs) (λ v. Says v.0) (evaluate_file keys h granted path meta pl)
  unfolding evaluate_file hash_and_resolve resolve
  evaluate_file-Ensures meta pl = Bool-Ensures (ltb meta.len 4_096) _ _ (pure-Ensures _ tt) (
      >>=-Ensures _ _ platform-Keeps λ os _.
        Bool-Ensures
          (cached (platform_inode os meta) pl.inode_cache && ltb 1 (meta_link_count os meta)) _ _
          (pure-Ensures _ tt)
          (>>=-Ensures _ _ (map_err-Ensures _ _ (boundary_hash-Keeps (Same fs) h path)) λ b _.
            >>=-Ensures _ _ (map_err-Ensures _ _ (full_cas_digest-Ensures fs h granted path _))
              λ d e.
                >>=-Ensures _ _ (map_err-Ensures _ _ (lookup-Ensures _ d))
                  λ o f. resolved-Ensures d o _ _ e f))

  pub evaluate-Ensures :
      (pl : IngestPipeline) → Ensures (Same fs) (λ v. Says v.0) (evaluate keys h granted path pl)
  unfolding evaluate
  evaluate-Ensures pl =
      FileClass-Ensures (Same fs) keys h granted (classify_path path) _ _ _ (pure-Ensures _ tt)
        (pure-Ensures _ tt)
        (>>=-Ensures _ _ (map_err-Ensures _ _ (metadata-Keeps path))
          λ meta _. evaluate_file-Ensures meta pl)
