-- ===== src/RetryQueue/Delivery.antt =====
-- A deferred job comes back.
use i_tan_reclaim_space.Base.{
  ℕ, ◌<◌, ◌≤◌, ◌≡◌, refl, ap, ◌∙◌, List, [], ◌∷◌, ◌++◌, length, length-append, le→leb, append-nil,
  arith,
}
use i_tan_reclaim_space.Base.Results.{ok}
use i_tan_reclaim_space.Fs.World.{World}
use i_tan_reclaim_space.RetryJob.{RetryJob}
use i_tan_reclaim_space.RetryQueue.{Channel, IsChannel, enqueue, drain_ready, queue_capacity}
use i_tan_reclaim_space.RetryQueue.Drain.{due, waiting, with_queue, enqueue_lem, drain_ready_lem}

due-append :
    (now : ℕ) (jobs more : List RetryJob) → due now (jobs ++ more) ≡ due now jobs ++ due now more
due-append now [] more = refl
due-append now (job ∷ jobs) more = ground (arith, due-append now jobs more)

waiting-append :
    (now : ℕ) (jobs more : List RetryJob)
    → waiting now (jobs ++ more) ≡ waiting now jobs ++ waiting now more
waiting-append now [] more = refl
waiting-append now (job ∷ jobs) more = ground (arith, waiting-append now jobs more)

-- The world as it is at a later time.
abbrev pub at_time : ℕ → World → World
at_time now w = record w { now = now }

-- A job that is put into a queue with room comes back with the first draining at its time or later, as the last of the
-- due jobs; only the jobs that are not due by then are left.
pub enqueue-drain_ready :
    (c : Channel RetryJob)
    → IsChannel c
    → (E : Type 0) (job : RetryJob) (now : ℕ) (w : World) → length w.queue < queue_capacity
    → job.retry_after ≤ now
    → drain_ready c {E = E} (at_time now (enqueue c job w).1)
      ≡ (ok (due now w.queue ++ (job ∷ [])), with_queue (waiting now w.queue) (at_time now w))
enqueue-drain_ready c law E job now w l d =
    ap (λ r. drain_ready c {E = E} (at_time now r.1)) (enqueue_lem c law job w l)
    ∙ drain_ready_lem c law E (at_time now (with_queue queue w))
        (omega (arith, l, length-append w.queue (job ∷ [])))
    ∙ rw
        (
          due-append now w.queue (job ∷ []),
          waiting-append now w.queue (job ∷ []),
          le→leb job.retry_after now d,
          append-nil (waiting now w.queue),
        )
        refl
  where
    queue : List RetryJob
    queue = w.queue ++ (job ∷ [])
