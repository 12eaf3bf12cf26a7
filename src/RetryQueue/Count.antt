-- ===== src/RetryQueue/Count.antt =====
-- What the queue says of the number of its jobs.
use i_tan_reclaim_space.Base.{
  suc, ◌<◌, ◌≤◌, ◌≡◌, ap, ◌∙◌, true, [], ◌∷◌, length, length-append, arith,
}
use i_tan_reclaim_space.Base.Results.{ok}
use i_tan_reclaim_space.Fs.World.{World}
use i_tan_reclaim_space.RetryJob.{RetryJob}
use i_tan_reclaim_space.RetryQueue.{
  Channel, IsChannel, new_queue, enqueue, drain_ready, queue_len, queue_is_empty, queue_capacity,
}
use i_tan_reclaim_space.RetryQueue.Drain.{waiting, with_queue, enqueue_lem, drain_ready_lem}

module _ (c : Channel RetryJob) (law : IsChannel c) {E : Type 0} where
  queue_len_lem : (w : World) → (queue_len c {E = E} w).0 ≡ ok (length w.queue)
  unfolding queue_len
  queue_len_lem w = ap ok (law.count w.queue)

  queue_is_empty-new_queue :
      (w : World) → (queue_is_empty c {E = E} (with_queue (new_queue c) w)).0 ≡ ok true
  unfolding queue_is_empty new_queue
  queue_is_empty-new_queue w = ap ok (ap c.is_empty (law.first queue_capacity) ∙ law.count_none [])

  -- A job that fits into the queue counts.
  queue_len-enqueue :
      (job : RetryJob) (w : World)
      → length w.queue < queue_capacity
      → (queue_len c {E = E} (enqueue c job w).1).0 ≡ ok (suc (length w.queue))
  queue_len-enqueue job w l =
      queue_len_lem (enqueue c job w).1
      ∙ ap (λ r. ok (length r.1.queue)) (enqueue_lem c law job w l)
      ∙ ap ok (omega (arith, length-append w.queue (job ∷ [])))

  -- The jobs that are not due yet still count after draining.
  queue_len-drain_ready :
      (w : World)
      → length w.queue ≤ queue_capacity
      → (queue_len c {E = E} (drain_ready c {E = E} w).1).0 ≡ ok (length (waiting w.now w.queue))
  queue_len-drain_ready w l =
      queue_len_lem (drain_ready c {E = E} w).1
      ∙ ap (λ r. ok (length r.1.queue)) (drain_ready_lem c law E w l)
