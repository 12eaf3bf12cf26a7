-- ===== src/Cli/Ingest.antt =====
-- crates/itan-cli/src/main.rs: the command `ingest`. The hasher, the reads, the order of a hash map's keys
-- and the channel of the retry queue are parameters.
use i_tan_reclaim_space.Base.{
  ℕ, zero, suc, ◌+◌, Bytes, Bool, true, false, List, [], ◌∷◌, Option, none, some, codes,
}
use i_tan_reclaim_space.Base.Results.{Result, ok, err}
use i_tan_reclaim_space.Fs.Path.{Name, text, opaque, FilePath}
use i_tan_reclaim_space.Fs.World.{M, pure, ◌>>=◌, attempt}
use i_tan_reclaim_space.Fs.Calls.{is_dir, read_dir, next_entry}
use i_tan_reclaim_space.Text.{str_eq}
use i_tan_reclaim_space.Capability.{VolumeCapability}
use i_tan_reclaim_space.Cli.{CliError, with_store, parse_hex_digest}
use i_tan_reclaim_space.Digest.{Hasher, full_cas_digest}
use i_tan_reclaim_space.Ingest.{IngestPipeline, InodeCache, new_pipeline, evaluate}
use i_tan_reclaim_space.Linkage.{
  LinkError, LinkResult, linked, skipped, master_published, queued, apply,
}
use i_tan_reclaim_space.Recovery.{with_default_threshold, sweep_stale_tmp}
use i_tan_reclaim_space.RetryJob.{RetryJob}
use i_tan_reclaim_space.RetryQueue.{Channel}
use i_tan_reclaim_space.Store.{CasStore}
use i_tan_reclaim_space.Verdict.{IngestVerdict, bypass, unique, duplicate}

-- The counters of the command, and the pipeline's state.
pub record Progress : Type 0 where
  pub total_files : ℕ
  pub total_saved : ℕ
  pub linked : ℕ
  pub unique : ℕ
  pub skipped : ℕ
  pub pipeline : IngestPipeline

abbrev pub started : IngestPipeline → Progress
started pl = record {
  total_files = 0;
  total_saved = 0;
  linked = 0;
  unique = 0;
  skipped = 0;
  pipeline = pl;
}

abbrev pub count_result : Result LinkError LinkResult → Progress → Progress
count_result (ok (linked target slot bytes_saved)) p = record p {
  linked = p.linked + 1;
  total_saved = p.total_saved + bytes_saved;
}
count_result (ok (master_published slot)) p = record p { unique = p.unique + 1 }
count_result (ok skipped) p = record p { skipped = p.skipped + 1 }
count_result (ok queued) p = p
count_result (err e) p = p

abbrev pub is_store_dir : Name → Bool
is_store_dir (text n) = str_eq n (codes ".itan_store")
is_store_dir (opaque n) = false

abbrev some_ok : Result CliError Bytes → Option Bytes
some_ok (ok d) = some d
some_ok (err e) = none

module _ (h : Hasher) (granted : ℕ → ℕ) (keys : InodeCache → List ℕ) (channel : Channel RetryJob)
    (cap : VolumeCapability) (store : CasStore) (dry_run : Bool) where
  -- Linking, with the digest that was computed or read from the verdict, if any.
  unfoldable pub link_file :
      FilePath → IngestVerdict → Option Bytes → Progress → M CliError Progress
  unfolding apply
  link_file path verdict none p = pure p
  link_file path verdict (some digest) p = do
    result ← attempt (apply channel store path verdict digest)
    pure (count_result result p)

  -- What follows a verdict.
  unfoldable pub act_on : FilePath → IngestVerdict → Progress → M CliError Progress
  unfolding link_file parse_hex_digest full_cas_digest
  act_on path (bypass reason) p = pure (record p { skipped = p.skipped + 1 })
  act_on path (duplicate slot) p =
      link_file path (duplicate slot) (parse_hex_digest slot.digest_hex) p
  act_on path unique p = do
    digest ← attempt (full_cas_digest h granted path cap.strategy)
    elim digest [ err e ↦ pure p | ok d ↦ link_file path unique (some d) p ]

  -- What is done with one file.
  unfoldable pub ingest_file : FilePath → Progress → M CliError Progress
  unfolding act_on evaluate
  ingest_file path p = do
    verdict ← attempt (evaluate keys h granted path p.pipeline)
    elim verdict [
      | err e ↦ pure (record p { total_files = p.total_files + 1; pipeline = e.1 })
      | ok v ↦ elim dry_run [
        | true ↦ pure (record p { total_files = p.total_files + 1; pipeline = v.1 })
        | false ↦ act_on path v.0 (record p { total_files = p.total_files + 1; pipeline = v.1 })
      ]
    ]

  -- The loop over the entries of a directory, with the directories that are still to be visited; the
  -- last one pushed is the first of the list.
  unfoldable pub ingest_entries :
      FilePath → List Name → List FilePath → Progress → M CliError (List FilePath × Progress)
  unfolding ingest_file str_eq
  ingest_entries dir [] dirs p = pure (dirs, p)
  ingest_entries dir (n ∷ rest) dirs p = do
    entry ← attempt (next_entry n)
    elim entry [
      | err e ↦ ingest_entries dir rest dirs p
      | ok name ↦ do
        directory ← is_dir (name ∷ dir)
        elim directory [
          | true ↦ elim (is_store_dir name) [
            | true ↦ ingest_entries dir rest dirs p
            | false ↦ ingest_entries dir rest ((name ∷ dir) ∷ dirs) p
          ]
          | false ↦ do next ← ingest_file (name ∷ dir) p; ingest_entries dir rest dirs next
        ]
    ]

  -- The loop over the directories, for so many of them; nothing stands for a loop cut short.
  unfoldable pub ingest_dirs : ℕ → List FilePath → Progress → M CliError (Option Progress)
  unfolding ingest_entries
  ingest_dirs rounds [] p = pure (some p)
  ingest_dirs zero (dir ∷ dirs) p = pure none
  ingest_dirs (suc rounds) (dir ∷ dirs) p = do
    entries ← attempt (read_dir dir)
    elim entries [
      | err e ↦ ingest_dirs rounds dirs p
      | ok names ↦ do
        visited ← ingest_entries dir names dirs p
        ingest_dirs rounds visited.0 visited.1
    ]

module _ (h : Hasher) (granted : ℕ → ℕ) (keys : InodeCache → List ℕ)
    (channel : Channel RetryJob) where
  abbrev pub store_root_of : FilePath → Option FilePath → FilePath
  store_root_of workspace none = workspace
  store_root_of workspace (some volume) = volume

  unfoldable pub cmd_ingest : ℕ → FilePath → Option FilePath → Bool → M CliError (Option Progress)
  unfolding with_store sweep_stale_tmp ingest_dirs
  cmd_ingest rounds workspace store_volume dry_run = do
    opened ← with_store (store_root_of workspace store_volume)
    sweep_report ← sweep_stale_tmp (with_default_threshold opened.1)
    ingest_dirs h granted keys channel opened.0 opened.1 dry_run rounds (workspace ∷ [])
        (started (new_pipeline opened.1 opened.0.strategy))
