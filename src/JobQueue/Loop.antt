-- ===== src/JobQueue/Loop.antt =====
-- process.ts and worker.ts: what a worker does with a claim, and its loop.
use systems_engineering_lab.Prelude.{
  ℕ, zero, suc, Bool, Option, none, some, List, [], ◌∷◌, ◌++◌, if◌then◌else◌,
}
use systems_engineering_lab.JobQueue.{ClaimedJob, JobRow, Queue, claim_job, complete_job, fail_job}

-- `processJob`: whether it throws, and the message.
unfoldable pub process_job : JobRow → Option ℕ
process_job job = if job.should_fail then some 1 else none

pub record WorkerRunResult : Type 0 where
  pub claimed_job_ids : List ℕ
  pub completed_job_ids : List ℕ
  pub failed_attempt_job_ids : List ℕ

-- What the loop does with one claim, once `process` has returned or thrown a message.
unfoldable pub settle_outcome :
    Option ℕ → ClaimedJob → WorkerRunResult × Queue → WorkerRunResult × Queue
settle_outcome none c (r, q) = (
  record r {
    claimed_job_ids = r.claimed_job_ids ++ c.job_id ∷ [];
    completed_job_ids = r.completed_job_ids ++ c.job_id ∷ [];
  },
  complete_job c.job_id c.attempt_id q,
)
settle_outcome (some message) c (r, q) = (
  record r {
    claimed_job_ids = r.claimed_job_ids ++ c.job_id ∷ [];
    failed_attempt_job_ids = r.failed_attempt_job_ids ++ c.job_id ∷ [];
  },
  (fail_job c.job_id c.attempt_id message q).1,
)

unfoldable pub settle_claim :
    (JobRow → Option ℕ) → ClaimedJob → WorkerRunResult × Queue → WorkerRunResult × Queue
unfolding settle_outcome
settle_claim process c w = settle_outcome (process c.job) c w

pub record RunWorkerOptions : Type 0 where
  pub worker_id : ℕ
  pub lease_ms : ℕ
  pub process : JobRow → Option ℕ
  -- The database's clock, and the rows that others hold, at the n-th call of `claimJob`.
  pub clock : ℕ → ℕ
  pub locked : ℕ → ℕ → Bool

abbrev pub after_claim :
    (JobRow → Option ℕ)
    → (WorkerRunResult × Queue → Option (WorkerRunResult × Queue))
    → WorkerRunResult
    → Option ClaimedJob × Queue
    → Option (WorkerRunResult × Queue)
after_claim process loop r (none, q) = some (r, q)
after_claim process loop r (some c, q) = loop (settle_claim process c (r, q))

-- `runWorkerUntilEmpty`; `none` means that the fuel ran out.
unfoldable pub run_worker_until_empty :
    RunWorkerOptions → ℕ → ℕ → WorkerRunResult × Queue → Option (WorkerRunResult × Queue)
run_worker_until_empty o zero n (r, q) = none
run_worker_until_empty o (suc fuel) n (r, q) =
    after_claim o.process (run_worker_until_empty o fuel (suc n)) r
      (claim_job (o.clock n) (o.locked n) o.worker_id o.lease_ms q)
