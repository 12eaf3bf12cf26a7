-- ===== src/Cli.antt =====
-- crates/itan-cli/src/main.rs: the commands. What they print is their result.
pub mod Commands
pub mod Duplicates
pub mod EqualFiles
pub mod Ingest
pub mod Laws
pub mod Opening
pub mod Sessions
pub mod Traversal
pub mod Workspace
use i_tan_reclaim_space.Base.{
  ℕ, zero, suc, ◌+◌, ◌-◌, Bytes, Bool, true, false, List, [], ◌∷◌, ◌++◌, Option, none, some, ◌==◌,
  if◌then◌else◌, length, replicate, codes,
}
use i_tan_reclaim_space.Base.Results.{Result, ok, err}
use i_tan_reclaim_space.Fs.Path.{Name, text, opaque, FilePath}
use i_tan_reclaim_space.Fs.State.{IoError, Metadata}
use i_tan_reclaim_space.Fs.World.{M, pure, throw, ◌>>=◌, ◌>>◌, map_err, attempt}
use i_tan_reclaim_space.Fs.Calls.{metadata, exists, is_dir, read_dir, next_entry}
use i_tan_reclaim_space.Text.{str_eq}
use i_tan_reclaim_space.Capability.{LinkStrategy, VolumeCapability}
use i_tan_reclaim_space.Capability.Probe.{ProbeError, probe_volume}
use i_tan_reclaim_space.Digest.{DigestError, Hasher, full_cas_digest}
use i_tan_reclaim_space.Gc.{
  GcError, GcStats, with_default_cooldown, sweep_objects, sweep_quarantine,
}
use i_tan_reclaim_space.Ingest.{IngestPipeline, InodeCache, IngestError, new_pipeline, evaluate}
use i_tan_reclaim_space.Linkage.{
  LinkError, LinkResult, linked, skipped, master_published, queued, apply,
}
use i_tan_reclaim_space.Recovery.{SweepReport, with_default_threshold, sweep_stale_tmp}
use i_tan_reclaim_space.RetryJob.{RetryJob}
use i_tan_reclaim_space.RetryQueue.{Channel}
use i_tan_reclaim_space.Store.{CasStore, StoreError, open_store}
use i_tan_reclaim_space.Store.Hex.{parse_chunks}
use i_tan_reclaim_space.Verdict.{IngestVerdict, bypass, unique, duplicate}

pub data CliError : Type 0 where
  probe_failed : ProbeError → CliError
  open_failed : StoreError → CliError
  sweep_failed : GcError → CliError

-- The volume's capability and its opened store.
unfoldable pub with_store : FilePath → M CliError (VolumeCapability × CasStore)
unfolding probe_volume open_store
with_store volume_root = do
  cap ← map_err probe_failed (probe_volume volume_root)
  store ← map_err open_failed (open_store volume_root cap)
  pure (cap, store)

unfoldable pub cmd_probe : FilePath → M CliError VolumeCapability
unfolding probe_volume
cmd_probe volume_root = map_err probe_failed (probe_volume volume_root)

unfoldable pub cmd_recover : FilePath → M CliError SweepReport
unfolding with_store sweep_stale_tmp
cmd_recover volume_root = do
  opened ← with_store volume_root
  sweep_stale_tmp (with_default_threshold opened.1)

unfoldable pub cmd_gc : FilePath → M CliError (GcStats × GcStats)
unfolding with_store sweep_objects sweep_quarantine
cmd_gc volume_root = do
  opened ← with_store volume_root
  obj_stats ← map_err sweep_failed (sweep_objects (with_default_cooldown opened.1))
  quar_stats ← map_err sweep_failed (sweep_quarantine (with_default_cooldown opened.1))
  pure (obj_stats, quar_stats)

unfoldable pub verdict_label : IngestVerdict → Bytes
verdict_label (duplicate slot) = codes "Duplicate"
verdict_label unique = codes "Unique"
verdict_label (bypass reason) = codes "Bypass"

-- An error of `parse_hex_digest` is `none`.
unfoldable pub parse_hex_digest : Bytes → Option Bytes
unfolding parse_chunks
parse_hex_digest hex = if length hex == 64 then parse_chunks 0 hex (replicate 32 0) else none

-- The loops of `count_objects`, over the slots of a shard and over the shards.
unfoldable pub count_slots : {E : Type 0} → FilePath → List Name → ℕ × ℕ → M E (ℕ × ℕ)
count_slots shard [] counts = pure counts
count_slots shard (n ∷ rest) counts = do
  slot ← attempt (next_entry n)
  elim slot [
    | err e ↦ count_slots shard rest counts
    | ok name ↦ do
      found ← attempt (metadata (name ∷ shard))
      elim found [
        | err e ↦ count_slots shard rest counts
        | ok meta ↦ count_slots shard rest (counts.0 + 1, counts.1 + meta.len)
      ]
  ]

unfoldable pub count_shards : {E : Type 0} → FilePath → List Name → ℕ × ℕ → M E (ℕ × ℕ)
unfolding count_slots
count_shards objects_dir [] counts = pure counts
count_shards objects_dir (n ∷ rest) counts = do
  shard ← attempt (next_entry n)
  elim shard [
    | err e ↦ count_shards objects_dir rest counts
    | ok name ↦ do
      slots ← attempt (read_dir (name ∷ objects_dir))
      elim slots [
        | err e ↦ count_shards objects_dir rest counts
        | ok names ↦ do
          after ← count_slots (name ∷ objects_dir) names counts
          count_shards objects_dir rest after
      ]
  ]

unfoldable pub count_objects : {E : Type 0} → FilePath → M E (ℕ × ℕ)
unfolding count_shards
count_objects objects_dir = do
  shards ← attempt (read_dir objects_dir)
  elim shards [ err e ↦ pure (0, 0) | ok names ↦ count_shards objects_dir names (0, 0) ]

unfoldable pub count_dir_entries : {E : Type 0} → FilePath → M E ℕ
count_dir_entries dir = do
  entries ← attempt (read_dir dir)
  elim entries [ err e ↦ pure 0 | ok names ↦ pure (length names) ]

pub record Status : Type 0 where
  pub slot_count : ℕ
  pub total_bytes : ℕ
  pub quarantine_count : ℕ
  pub tmp_count : ℕ

-- Nothing stands for a volume without a store.
unfoldable pub cmd_status : FilePath → M CliError (Option Status)
unfolding count_objects count_dir_entries
cmd_status volume_root = do
  let store_root = text (codes ".itan_store") ∷ volume_root
  there ← exists store_root
  elim there [
    | false ↦ pure none
    | true ↦ do
      counts ← count_objects (text (codes "objects") ∷ store_root)
      quarantine_count ← count_dir_entries (text (codes "quarantine") ∷ store_root)
      tmp_count ← count_dir_entries (text (codes "tmp") ∷ store_root)
      pure (
          some (record {
            slot_count = counts.0;
            total_bytes = counts.1;
            quarantine_count = quarantine_count;
            tmp_count = tmp_count;
          }))
  ]
