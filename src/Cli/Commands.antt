-- ===== src/Cli/Commands.antt =====
-- crates/itan-cli/src/main.rs: the dispatch of the commands and the exit code. What a command prints is its output.
pub mod Safety
use i_tan_reclaim_space.Base.{ℕ, Bool, List, Option}
use i_tan_reclaim_space.Base.Results.{Result, ok, err}
use i_tan_reclaim_space.Fs.Path.{FilePath}
use i_tan_reclaim_space.Fs.World.{World, M, pure, ◌>>=◌}
use i_tan_reclaim_space.Capability.{VolumeCapability}
use i_tan_reclaim_space.Cli.{CliError, Status, cmd_probe, cmd_recover, cmd_gc, cmd_status}
use i_tan_reclaim_space.Cli.Ingest.{Progress, cmd_ingest}
use i_tan_reclaim_space.Digest.{Hasher}
use i_tan_reclaim_space.Gc.{GcStats}
use i_tan_reclaim_space.Ingest.{InodeCache}
use i_tan_reclaim_space.Recovery.{SweepReport}
use i_tan_reclaim_space.RetryJob.{RetryJob}
use i_tan_reclaim_space.RetryQueue.{Channel}

-- The number of workers is read and not used.
pub data Command : Type 0 where
  probe recover gc status : FilePath → Command
  ingest : FilePath → Option FilePath → Option ℕ → Bool → Command

pub data Output : Type 0 where
  probed : VolumeCapability → Output
  recovered : SweepReport → Output
  ingested : Option Progress → Output
  collected : GcStats × GcStats → Output
  counted : Option Status → Output

module _ (h : Hasher) (granted : ℕ → ℕ) (keys : InodeCache → List ℕ) (channel : Channel RetryJob)
    (rounds : ℕ) where
  unfoldable pub run : Command → M CliError Output
  unfolding cmd_probe cmd_recover cmd_ingest cmd_gc cmd_status
  run (probe volume_root) = do cap ← cmd_probe volume_root; pure (probed cap)
  run (recover volume_root) = do report ← cmd_recover volume_root; pure (recovered report)
  run (ingest workspace store_volume workers dry_run) = do
    progress ← cmd_ingest h granted keys channel rounds workspace store_volume dry_run
    pure (ingested progress)
  run (gc volume_root) = do stats ← cmd_gc volume_root; pure (collected stats)
  run (status volume_root) = do counts ← cmd_status volume_root; pure (counted counts)

  abbrev exit_of : Result CliError Output → ℕ
  exit_of (ok o) = 0
  exit_of (err e) = 1

  -- The exit code of a run, with the world that it leaves.
  unfoldable pub exit_code : Command → World → ℕ × World
  unfolding run
  exit_code cmd w = let r = run cmd w in (exit_of r.0, r.1)
