-- ===== src/RetryQueue/Attempts.antt =====
-- How often a job is retried, and how long it waits.
use i_tan_reclaim_space.Base.{
  ℕ, suc, ◌+◌, ◌≤◌, ◌<◌, ◌≡◌, refl, sym, ap, ◌∙◌, none, some, ltb, if◌then◌else◌, arith,
}
use i_tan_reclaim_space.Base.Results.{ok}
use i_tan_reclaim_space.Fs.World.{World, ◌>>=◌, clock}
use i_tan_reclaim_space.RetryJob.{RetryJob}
use i_tan_reclaim_space.RetryQueue.{RetryQueueError, backoff_for, next_attempt}

abbrev pub retried : ℕ → RetryJob → RetryJob
retried now job = record job {
  attempts = suc job.attempts;
  retry_after = now + backoff_for (suc job.attempts);
}

pub next_attempt_lem :
    (job : RetryJob) (w : World)
    → job.attempts ≤ 2
    → next_attempt {E = RetryQueueError} job w
      ≡ (ok (if ltb job.attempts 2 then some (retried w.now job) else none), w)
unfolding next_attempt ◌>>=◌ clock
next_attempt_lem job w h = ground arith

-- A job after so many retries, each at a time of its own.
pub data Retries (job : RetryJob) : ℕ → RetryJob → Type 0 where
  first : Retries job 0 job
  again :
      {n : ℕ} {j k : RetryJob}
      → Retries job n j
      → (w : World) → (next_attempt {E = RetryQueueError} j w).0 ≡ ok (some k)
      → Retries job (suc n) k

-- What one retry says of the job that it makes.
next_attempt-inverse :
    (j k : RetryJob) (w : World)
    → j.attempts ≤ 2
    → (next_attempt {E = RetryQueueError} j w).0 ≡ ok (some k)
    → (j.attempts < 2) × (k ≡ retried w.now j)
next_attempt-inverse j k w h e =
    let e' : ok (if ltb j.attempts 2 then some (retried w.now j) else none) ≡ ok (some k) =
      sym (ap (λ r. r.0) (next_attempt_lem j w h)) ∙ e in
    ground (arith, e')

-- A job that starts without attempts is retried at most twice, whenever its retries happen; after each it has
-- counted them, and it is for the same target and slot.
pub Retries-bound :
    {job k : RetryJob} {n : ℕ}
    → Retries job n k
    → job.attempts ≡ 0
    → (n ≤ 2) × (k.attempts ≡ n) × (k.target ≡ job.target) × (k.slot_path ≡ job.slot_path)
Retries-bound first z = (omega arith, z, refl, refl)
Retries-bound (again {n} {j} {k} r w e) z =
    let (_, a, t, p) = Retries-bound r z in
    let (l, q) = next_attempt-inverse j k w (omega (arith, a, (Retries-bound r z).0)) e in
    (
      omega (arith, a, l),
      ap (λ x. x.attempts) q ∙ ap suc a,
      ap (λ x. x.target) q ∙ t,
      ap (λ x. x.slot_path) q ∙ p,
    )
