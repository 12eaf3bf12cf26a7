-- ===== src/RetryQueue.antt =====
-- crates/itan-core/src/retry_queue.rs: the queue of linkage jobs that wait for a retry. The bounded
-- channel of crossbeam is a parameter; arithmetic wraps, as in a release build.
pub mod Attempts
pub mod Count
pub mod Delivery
pub mod Drain
pub mod Keeps
use i_tan_reclaim_space.Base.{
  ℕ, zero, suc, ◌+◌, ◌*◌, ◌%◌, ◌^◌, ◌≡◌, Bool, true, false, List, [], ◌∷◌, ◌++◌, Option, none, some,
  leb, ltb, ◌==◌, if◌then◌else◌, length,
}
use i_tan_reclaim_space.Base.Results.{ok, err}
use i_tan_reclaim_space.Fs.Path.{FilePath}
use i_tan_reclaim_space.Fs.World.{M, pure, ◌>>=◌, ◌>>◌, attempt, clock}
use i_tan_reclaim_space.RetryJob.{RetryJob}

abbrev pub max_retry_attempts : ℕ
max_retry_attempts = 3

abbrev pub base_backoff_ms : ℕ
base_backoff_ms = 100

abbrev pub queue_capacity : ℕ
queue_capacity = 4_096

pub data RetryQueueError : Type 0 where
  queue_full : FilePath → RetryQueueError

-- A bounded channel of crossbeam, by the messages that it holds, the oldest first.
pub record Channel (A : Type 0) : Type 0 where
  pub bounded : ℕ → List A
  pub try_send : ℕ → List A → A → Option (List A)
  pub try_recv : List A → Option (A × List A)
  pub len : List A → ℕ
  pub is_empty : List A → Bool

-- What its documentation promises: a channel has no message at first, a message is sent unless the capacity is
-- reached, the messages are received in the order in which they were sent, and their number is that of those sent and
-- not yet received.
pub record IsChannel {A : Type 0} (c : Channel A) : Type 0 where
  pub first : (cap : ℕ) → c.bounded cap ≡ []
  pub send :
      (cap : ℕ) (q : List A) (a : A)
      → c.try_send cap q a ≡ (if ltb (length q) cap then some (q ++ (a ∷ [])) else none)
  pub recv_nil : c.try_recv [] ≡ none
  pub recv_cons : (a : A) (q : List A) → c.try_recv (a ∷ q) ≡ some (a, q)
  pub count : (q : List A) → c.len q ≡ length q
  pub count_none : (q : List A) → c.is_empty q ≡ (length q == 0)

unfoldable pub backoff_for : ℕ → ℕ
backoff_for attempt = base_backoff_ms * (2 ^ (attempt % 64)) % 2 ^ 64

-- `RetryJob::new`
unfoldable pub new_job : {E : Type 0} → FilePath → FilePath → M E RetryJob
unfolding backoff_for
new_job target slot_path = do
  now ← clock
  pure (record {
    target = target;
    slot_path = slot_path;
    attempts = 0;
    retry_after = now + backoff_for 0;
  })

unfoldable pub next_attempt : {E : Type 0} → RetryJob → M E (Option RetryJob)
unfolding backoff_for
next_attempt job =
    let next = (job.attempts + 1) % 256 in
    elim (leb max_retry_attempts next) [
      | true ↦ pure none
      | false ↦ do
        now ← clock
        pure (some (record job { attempts = next; retry_after = now + backoff_for next }))
    ]

unfoldable pub is_ready : {E : Type 0} → RetryJob → M E Bool
is_ready job = do now ← clock; pure (leb job.retry_after now)

-- The outcome of `try_send`.
abbrev pub sent : {E : Type 0} → E → Option (List RetryJob) → M E (Unit {0})
sent e none w = (err e, w)
sent e (some q) w = (ok tt, record w { queue = q })

module _ (c : Channel RetryJob) where
  -- `DeferRetryQueue::new`: the messages of the new channel.
  unfoldable pub new_queue : List RetryJob
  new_queue = c.bounded queue_capacity

  -- `DeferRetryQueue::len` and `DeferRetryQueue::is_empty`
  unfoldable pub queue_len : {E : Type 0} → M E ℕ
  queue_len w = (ok (c.len w.queue), w)

  unfoldable pub queue_is_empty : {E : Type 0} → M E Bool
  queue_is_empty w = (ok (c.is_empty w.queue), w)

  unfoldable pub enqueue : RetryJob → M RetryQueueError (Unit {0})
  enqueue job w = sent (queue_full job.target) (c.try_send queue_capacity w.queue job) w

  unfoldable pub try_recv : {E : Type 0} → M E (Option RetryJob)
  try_recv w = elim (c.try_recv w.queue) [
    | none ↦ (ok none, w)
    | some (job, q) ↦ (ok (some job), record w { queue = q })
  ]

  -- The loop that empties the queue, with what it has set aside so far.
  unfoldable pub drain :
      {E : Type 0} → ℕ → List RetryJob → List RetryJob → M E (List RetryJob × List RetryJob)
  unfolding try_recv is_ready
  drain zero ready requeue = pure (ready, requeue)
  drain (suc rounds) ready requeue = do
    next ← try_recv
    elim next [
      | none ↦ pure (ready, requeue)
      | some job ↦ do
        due ← is_ready job
        elim due [
          | true ↦ drain rounds (ready ++ (job ∷ [])) requeue
          | false ↦ drain rounds ready (requeue ++ (job ∷ []))
        ]
    ]

  -- The loop that puts the jobs back; one that does not fit is dropped.
  unfoldable pub put_back : {E : Type 0} → List RetryJob → M E (Unit {0})
  unfolding enqueue
  put_back [] = pure tt
  put_back (job ∷ jobs) = do _ ← attempt (enqueue job); put_back jobs

  -- Both loops, with a bound on the rounds of the first.
  unfoldable pub drain_rounds : {E : Type 0} → ℕ → M E (List RetryJob)
  unfolding drain put_back
  drain_rounds rounds = do sorted ← drain rounds [] []; put_back sorted.1; pure sorted.0

  -- One round for each job in the queue, and one that finds it empty.
  unfoldable pub drain_ready : {E : Type 0} → M E (List RetryJob)
  unfolding drain_rounds
  drain_ready w = drain_rounds (suc (length w.queue)) w
