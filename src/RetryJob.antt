-- ===== src/RetryJob.antt =====
-- crates/itan-core/src/retry_queue.rs: the job that the retry queue carries. A clock reading, here
-- and everywhere, is a number of milliseconds.
use i_tan_reclaim_space.Base.{ℕ}
use i_tan_reclaim_space.Fs.Path.{FilePath}

pub record RetryJob : Type 0 where
  pub target : FilePath
  pub slot_path : FilePath
  pub attempts : ℕ
  pub retry_after : ℕ
