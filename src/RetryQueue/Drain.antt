-- ===== src/RetryQueue/Drain.antt =====
-- What draining the queue returns and what it leaves.
use mathlib.Core.Path.{ap₂}
use i_tan_reclaim_space.Base.{
  ℕ, zero, suc, ◌+◌, ◌<◌, ◌≤◌, ◌≡◌, refl, ap, ◌∙◌, sym, List, [], ◌∷◌, ◌++◌, none, some, leb,
  lt→ltb, if◌then◌else◌, length, length-append, append_assoc, append-nil, arith,
}
use i_tan_reclaim_space.Base.Results.{ok}
use i_tan_reclaim_space.Fs.World.{World, ◌>>=◌, clock}
use i_tan_reclaim_space.Fs.Runs.{branch, >>=-ok, attempt-eq}
use i_tan_reclaim_space.RetryJob.{RetryJob}
use i_tan_reclaim_space.RetryQueue.{
  queue_full, Channel, IsChannel, is_ready, enqueue, try_recv, drain, put_back, drain_rounds,
  drain_ready, queue_capacity, sent,
}

-- The jobs that are due at a time, and those that are not, each in their order.
abbrev pub due : ℕ → List RetryJob → List RetryJob
due now [] = []
due now (job ∷ jobs) = if leb job.retry_after now then job ∷ due now jobs else due now jobs

abbrev pub waiting : ℕ → List RetryJob → List RetryJob
waiting now [] = []
waiting now (job ∷ jobs) =
    if leb job.retry_after now then waiting now jobs else job ∷ waiting now jobs

length-waiting : (now : ℕ) (jobs : List RetryJob) → length (waiting now jobs) ≤ length jobs
length-waiting now [] = omega arith
length-waiting now (job ∷ jobs) = ground (arith, length-waiting now jobs)

abbrev pub with_queue : List RetryJob → World → World
with_queue q w = record w { queue = q }

pub enqueue_lem :
    (c : Channel RetryJob)
    → IsChannel c
    → (job : RetryJob) (w : World) → length w.queue < queue_capacity
    → enqueue c job w ≡ (ok tt, with_queue (w.queue ++ (job ∷ [])) w)
unfolding enqueue
enqueue_lem c law job w l = ap (λ r. sent (queue_full job.target) r w) fits
  where
    fits : c.try_send queue_capacity w.queue job ≡ some (w.queue ++ (job ∷ []))
    fits = law.send queue_capacity w.queue job ∙ rw (lt→ltb (length w.queue) queue_capacity l) refl

module _ (c : Channel RetryJob) (law : IsChannel c) {E : Type 0} where
  try_recv_nil : (w : World) → try_recv c {E = E} (with_queue [] w) ≡ (ok none, with_queue [] w)
  unfolding try_recv
  try_recv_nil w = rw (law.recv_nil, try_recv) refl

  try_recv_cons :
      (job : RetryJob) (q : List RetryJob) (w : World)
      → try_recv c {E = E} (with_queue (job ∷ q) w) ≡ (ok (some job), with_queue q w)
  unfolding try_recv
  try_recv_cons job q w = rw (law.recv_cons job q, try_recv) refl

  is_ready_lem :
      (job : RetryJob) (w : World) → is_ready {E = E} job w ≡ (ok (leb job.retry_after w.now), w)
  unfolding is_ready ◌>>=◌ clock
  is_ready_lem job w = refl

  drain_lem :
      (rounds : ℕ) (q ready requeue : List RetryJob) (w : World)
      → length q < rounds
      → drain c {E = E} rounds ready requeue (with_queue q w)
        ≡ (ok (ready ++ due w.now q, requeue ++ waiting w.now q), with_queue [] w)
  unfolding drain
  drain_lem zero q ready requeue w l = absurd (omega arith)
  drain_lem (suc rounds) [] ready requeue w l =
      >>=-ok _ _ (with_queue [] w) none (with_queue [] w) (try_recv_nil w)
      ∙ ap₂ (λ a b. (ok (a, b), with_queue [] w)) (sym (append-nil ready))
          (sym (append-nil requeue))
  drain_lem (suc rounds) (job ∷ q) ready requeue w l =
      >>=-ok _ _ (with_queue (job ∷ q) w) (some job) (with_queue q w) (try_recv_cons job q w)
      ∙ >>=-ok _ _ (with_queue q w) (leb job.retry_after w.now) (with_queue q w)
          (is_ready_lem job (with_queue q w))
      ∙ branch (leb job.retry_after w.now) _ _ (with_queue q w) _
          (λ e.
            drain_lem rounds q (ready ++ (job ∷ [])) requeue w (omega arith)
            ∙ rw (e, append_assoc ready (job ∷ []) (due w.now q)) refl)
          (λ e.
            drain_lem rounds q ready (requeue ++ (job ∷ [])) w (omega arith)
            ∙ rw (e, append_assoc requeue (job ∷ []) (waiting w.now q)) refl)

  put_back_lem :
      (jobs q : List RetryJob) (w : World)
      → length q + length jobs ≤ queue_capacity
      → put_back c {E = E} jobs (with_queue q w) ≡ (ok tt, with_queue (q ++ jobs) w)
  unfolding put_back
  put_back_lem [] q w l = ap (λ r. (ok tt, with_queue r w)) (sym (append-nil q))
  put_back_lem (job ∷ jobs) q w l =
      >>=-ok _ _ (with_queue q w) (ok tt) (with_queue (q ++ (job ∷ [])) w) (
        attempt-eq _ (with_queue q w) (ok tt) (with_queue (q ++ (job ∷ [])) w)
          (enqueue_lem c law job (with_queue q w) (omega arith)))
      ∙ put_back_lem jobs (q ++ (job ∷ [])) w (omega (arith, length-append q (job ∷ [])))
      ∙ ap (λ r. (ok tt, with_queue r w)) (append_assoc q (job ∷ []) jobs)

-- Draining a queue within its capacity returns exactly the jobs that are due, in the order in which
-- they were queued, and leaves exactly the others, in theirs: no job is lost or doubled.
pub drain_ready_lem :
    (c : Channel RetryJob)
    → IsChannel c
    → (E : Type 0) (w : World) → length w.queue ≤ queue_capacity
    → drain_ready c {E = E} w ≡ (ok (due w.now w.queue), record w { queue = waiting w.now w.queue })
unfolding drain_ready drain_rounds
drain_ready_lem c law E w l =
    >>=-ok _ _ w _ (with_queue [] w)
      (drain_lem c law (suc (length w.queue)) w.queue [] [] w (omega arith))
    ∙ >>=-ok _ _ (with_queue [] w) tt (with_queue (waiting w.now w.queue) w) (
        put_back_lem c law (waiting w.now w.queue) [] w
          (omega (arith, length-waiting w.now w.queue)))
