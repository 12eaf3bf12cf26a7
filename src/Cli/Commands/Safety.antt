-- ===== src/Cli/Commands/Safety.antt =====
-- Which commands leave the files of the workspace alone.
use i_tan_reclaim_space.Base.{
  ℕ, ◌≡◌, ◌≢◌, true, false, List, [], ◌∷◌, Option, none, some, codes, arith,
}
use i_tan_reclaim_space.Fs.Path.{Name, text, FilePath}
use i_tan_reclaim_space.Fs.State.{Fs}
use i_tan_reclaim_space.Fs.World.{World}
use i_tan_reclaim_space.Fs.Ensures.{
  Keeps, >>=-Ensures, map_err-Ensures, attempt-Ensures, pure-Keeps, Bool-Ensures, Result-Ensures,
  metadata-Keeps, next_entry-Keeps, read_dir-Keeps, exists-Keeps,
}
use i_tan_reclaim_space.Fs.Undisturbed.{Undisturbed}
use i_tan_reclaim_space.Cli.{
  cmd_probe, cmd_status, count_slots, count_shards, count_objects, count_dir_entries,
}
use i_tan_reclaim_space.Cli.Commands.{Command, probe, recover, gc, status, ingest, run}
use i_tan_reclaim_space.Cli.Ingest.{started, cmd_ingest, store_root_of}
use i_tan_reclaim_space.Cli.Laws.{ingest_dirs-dry_run-Keeps}
use i_tan_reclaim_space.Cli.Opening.{
  Harmless, probe_volume-Keeps, with_store-Ensures, swept-Keeps, cmd_gc-Keeps, cmd_recover-Keeps,
}
use i_tan_reclaim_space.Digest.{Hasher}
use i_tan_reclaim_space.Ingest.{InodeCache, new_pipeline}
use i_tan_reclaim_space.RetryJob.{RetryJob}
use i_tan_reclaim_space.RetryQueue.{Channel}

-- Where the command finds the store.
abbrev pub volume_of : Command → FilePath
volume_of (probe volume_root) = volume_root
volume_of (recover volume_root) = volume_root
volume_of (gc volume_root) = volume_root
volume_of (status volume_root) = volume_root
volume_of (ingest workspace none workers dry_run) = workspace
volume_of (ingest workspace (some volume) workers dry_run) = volume

-- Any command but `ingest` without `--dry-run`.
abbrev pub IsTame : Command → Type 0
IsTame (ingest workspace store_volume workers dry_run) = dry_run ≡ true
IsTame _ = Unit {0}

module _ (P : Fs → Type 0) where
  count_slots-Keeps :
      {E : Type 0} (shard : FilePath) (names : List Name) (counts : ℕ × ℕ)
      → Keeps {E = E} P (count_slots shard names counts)
  unfolding count_slots
  count_slots-Keeps shard [] counts = pure-Keeps _
  count_slots-Keeps shard (n ∷ rest) counts =
      >>=-Ensures _ _ (attempt-Ensures _ (next_entry-Keeps n)) λ r _.
        Result-Ensures r _ _
          (λ name. >>=-Ensures _ _ (attempt-Ensures _ (metadata-Keeps (name ∷ shard))) λ found _.
            Result-Ensures found _ _ (λ meta. count_slots-Keeps shard rest _)
              (λ e. count_slots-Keeps shard rest counts))
          (λ e. count_slots-Keeps shard rest counts)

  count_shards-Keeps :
      {E : Type 0} (objects_dir : FilePath) (names : List Name) (counts : ℕ × ℕ)
      → Keeps {E = E} P (count_shards objects_dir names counts)
  unfolding count_shards
  count_shards-Keeps objects_dir [] counts = pure-Keeps _
  count_shards-Keeps objects_dir (n ∷ rest) counts =
      >>=-Ensures _ _ (attempt-Ensures _ (next_entry-Keeps n)) λ r _.
        Result-Ensures r _ _
          (λ name.
            >>=-Ensures _ _ (attempt-Ensures _ (read_dir-Keeps (name ∷ objects_dir))) λ slots _.
              Result-Ensures slots _ _
                (λ names.
                  >>=-Ensures _ _ (count_slots-Keeps (name ∷ objects_dir) names counts)
                    λ after _. count_shards-Keeps objects_dir rest after)
                (λ e. count_shards-Keeps objects_dir rest counts))
          (λ e. count_shards-Keeps objects_dir rest counts)

  count_objects-Keeps :
      {E : Type 0} (objects_dir : FilePath) → Keeps {E = E} P (count_objects objects_dir)
  unfolding count_objects
  count_objects-Keeps objects_dir =
      >>=-Ensures _ _ (attempt-Ensures _ (read_dir-Keeps objects_dir)) λ r _.
        Result-Ensures r _ _ (λ names. count_shards-Keeps objects_dir names _) (λ e. pure-Keeps _)

  count_dir_entries-Keeps : {E : Type 0} (dir : FilePath) → Keeps {E = E} P (count_dir_entries dir)
  unfolding count_dir_entries
  count_dir_entries-Keeps dir =
      >>=-Ensures _ _ (attempt-Ensures _ (read_dir-Keeps dir))
        λ r _. Result-Ensures r _ _ (λ names. pure-Keeps _) (λ e. pure-Keeps _)

  cmd_status-Keeps : (volume_root : FilePath) → Keeps P (cmd_status volume_root)
  unfolding cmd_status
  cmd_status-Keeps volume_root = >>=-Ensures _ _ (exists-Keeps _) λ there _.
      Bool-Ensures there _ _
        (>>=-Ensures _ _ (count_objects-Keeps _) λ counts _.
          >>=-Ensures _ _ (count_dir_entries-Keeps _)
            λ _ _. >>=-Ensures _ _ (count_dir_entries-Keeps _) λ _ _. pure-Keeps _)
        (pure-Keeps _)

-- The path is in none of the directories of the store of the volume.
pub record IsOutside (root p : FilePath) : Type 0 where
  pub no_object :
      (m n : Name) → p ≢ m ∷ n ∷ text (codes "objects") ∷ text (codes ".itan_store") ∷ root
  pub no_entry : (n : Name) → p ≢ n ∷ text (codes "quarantine") ∷ text (codes ".itan_store") ∷ root
  pub no_stage : (n : Name) → p ≢ n ∷ text (codes "tmp") ∷ text (codes ".itan_store") ∷ root

module _ (h : Hasher) (granted : ℕ → ℕ) (keys : InodeCache → List ℕ) (channel : Channel RetryJob)
    (rounds : ℕ) (P : Fs → Type 0) where
  dry_run-Keeps :
      (workspace : FilePath) (store_volume : Option FilePath)
      → Harmless (store_root_of h granted keys channel workspace store_volume) P
      → Keeps P (cmd_ingest h granted keys channel rounds workspace store_volume true)
  unfolding cmd_ingest
  dry_run-Keeps workspace store_volume v =
      let root = store_root_of h granted keys channel workspace store_volume in
      >>=-Ensures _ _ (with_store-Ensures root P v.tended.made) λ o e.
        >>=-Ensures _ _ (swept-Keeps root P v.removed o.0 o.1 e) λ _ _.
          ingest_dirs-dry_run-Keeps P h granted keys channel o.0 o.1 rounds (workspace ∷ [])
            (started (new_pipeline o.1 o.0.strategy))

  pub run-Keeps :
      (cmd : Command)
      → Harmless (volume_of cmd) P
      → IsTame cmd
      → Keeps P (run h granted keys channel rounds cmd)
  unfolding run cmd_probe
  run-Keeps (probe r) v t =
      >>=-Ensures _ _ (map_err-Ensures _ _ (probe_volume-Keeps r P v.tended.made))
        λ _ _. pure-Keeps _
  run-Keeps (recover r) v t = >>=-Ensures _ _ (cmd_recover-Keeps r P v) λ _ _. pure-Keeps _
  run-Keeps (gc r) v t = >>=-Ensures _ _ (cmd_gc-Keeps r P v) λ _ _. pure-Keeps _
  run-Keeps (status r) v t = >>=-Ensures _ _ (cmd_status-Keeps P r) λ _ _. pure-Keeps _
  run-Keeps (ingest workspace none workers true) v t =
      >>=-Ensures _ _ (dry_run-Keeps workspace none v) λ _ _. pure-Keeps _
  run-Keeps (ingest workspace (some volume) workers true) v t =
      >>=-Ensures _ _ (dry_run-Keeps workspace (some volume) v) λ _ _. pure-Keeps _
  run-Keeps (ingest workspace store_volume workers false) v t = absurd (ground (arith, t))
