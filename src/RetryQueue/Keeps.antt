-- ===== src/RetryQueue/Keeps.antt =====
-- The retry queue leaves the volume alone.
use i_tan_reclaim_space.Base.{refl, [], List, Option, none, some}
use i_tan_reclaim_space.Fs.Path.{FilePath}
use i_tan_reclaim_space.Fs.State.{Fs}
use i_tan_reclaim_space.Fs.World.{World}
use i_tan_reclaim_space.Fs.Ensures.{Inv, Holds, Since, Keeps, >>=-Ensures, clock-Keeps, pure-Keeps}
use i_tan_reclaim_space.RetryJob.{RetryJob}
use i_tan_reclaim_space.RetryQueue.{Channel, queue_full, queue_capacity, new_job, enqueue, sent}

module _ {P : Fs → Type 0} where
  pub new_job-Keeps :
      {E : Type 0} (target slot_path : FilePath) → Keeps {E = E} P (new_job target slot_path)
  unfolding new_job
  new_job-Keeps target slot_path = >>=-Ensures _ _ clock-Keeps (λ now _. pure-Keeps _)

  pub enqueue-Keeps : (c : Channel RetryJob) (job : RetryJob) → Keeps P (enqueue c job)
  unfolding enqueue
  enqueue-Keeps c job = record {
    run = λ w i. go (c.try_send queue_capacity w.queue job) w i;
    since = λ w i. rest (c.try_send queue_capacity w.queue job) w;
  }
    where
      rest : (o : Option (List RetryJob)) (w : World) → Since (sent (queue_full job.target) o w).1 w
      rest none w = (([], refl), refl)
      rest (some l) w = (([], refl), refl)

      go :
          (o : Option (List RetryJob)) (w : World)
          → Inv P w
          → Inv P (sent (queue_full job.target) o w).1
            × Holds (λ _. Unit {0}) (sent (queue_full job.target) o w).0
      go none w i = (i, tt)
      go (some q) w i = (i, tt)
