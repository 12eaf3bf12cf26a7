-- ===== src/Tests/Sealing.antt =====
-- Protecting and sealing a file, and the return of a deferred job.
use i_tan_reclaim_space.Base.{◌≡◌, refl, [], ◌∷◌, ◌++◌, some, true, false, arith, ℕ_discrete}
use i_tan_reclaim_space.Base.Results.{ok}
use i_tan_reclaim_space.Fs.Path.{path_dec}
use i_tan_reclaim_space.Fs.Table.{find}
use i_tan_reclaim_space.Fs.State.{IoError}
use i_tan_reclaim_space.Fs.World.{World, calm}
use i_tan_reclaim_space.Fs.Runs.Files.{with_mode}
use i_tan_reclaim_space.Linkage.{seal}
use i_tan_reclaim_space.Linkage.Sealing.{sealed, seal-is_executable}
use i_tan_reclaim_space.Permissions.{readonly, is_executable, enforce_read_only, strip_read_only}
use i_tan_reclaim_space.Permissions.Modes.{executable, enforce_read_only-strip_read_only}
use i_tan_reclaim_space.RetryJob.{RetryJob}
use i_tan_reclaim_space.RetryQueue.{enqueue, drain_ready}
use i_tan_reclaim_space.RetryQueue.Delivery.{at_time, enqueue-drain_ready}
use i_tan_reclaim_space.RetryQueue.Drain.{due, waiting, with_queue}
use i_tan_reclaim_space.Tests.Values.{target, digest, volume, world, a_channel, a_channel-IsChannel}

abbrev writable : World
writable = world 5 (volume digest ((target, 1) ∷ []) []) []

target_there : find target writable.fs.table ≡ some 1
unfolding find path_dec ℕ_discrete
target_there = refl

abbrev guarded : World
guarded = with_mode 1 0o555 writable

enforce_read_only-strip_read_only_example :
    (enforce_read_only target true (calm writable) ≡ (ok tt, guarded))
    × (readonly (guarded.fs.inode 1).mode ≡ true)
    × (is_executable target guarded ≡ (ok true, guarded))
    × (strip_read_only target guarded ≡ (ok tt, with_mode 1 0o644 guarded))
    × (readonly ((with_mode 1 0o644 guarded).fs.inode 1).mode ≡ false)
enforce_read_only-strip_read_only_example =
    enforce_read_only-strip_read_only target 1 true writable refl target_there

seal-is_executable_example :
    (seal target (calm writable) ≡ (ok tt, sealed 1 writable))
    × (readonly ((sealed 1 writable).fs.inode 1).mode ≡ true)
    × (is_executable target (sealed 1 writable) ≡ (ok (executable 0o644), sealed 1 writable))
    × (seal target (sealed 1 writable) ≡ (ok tt, sealed 1 (sealed 1 writable)))
    × (((sealed 1 (sealed 1 writable)).fs.inode 1).mode ≡ ((sealed 1 writable).fs.inode 1).mode)
seal-is_executable_example = seal-is_executable target 1 writable refl target_there

abbrev first_job : RetryJob
first_job = record { target = target; slot_path = []; attempts = 1; retry_after = 900 }

abbrev deferred : RetryJob
deferred = record { target = target; slot_path = []; attempts = 0; retry_after = 105 }

abbrev queueing : World
queueing = world 5 (volume digest [] []) (first_job ∷ [])

enqueue-drain_ready_example :
    drain_ready a_channel {E = IoError} (at_time 200 (enqueue a_channel deferred queueing).1) ≡ (
      ok (due 200 queueing.queue ++ (deferred ∷ [])),
      with_queue (waiting 200 queueing.queue) (at_time 200 queueing),
    )
enqueue-drain_ready_example =
    enqueue-drain_ready a_channel a_channel-IsChannel IoError deferred 200 queueing (omega arith)
      (omega arith)
