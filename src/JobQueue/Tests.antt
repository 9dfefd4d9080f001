-- ===== src/JobQueue/Tests.antt =====
-- Runs of the job queue at concrete inputs.
use systems_engineering_lab.Prelude.{
  ℕ, ◌≡◌, ◌⊎◌, refl, Bool, true, false, none, some, [], ◌∷◌, arith,
}
use systems_engineering_lab.Prelude.Table.{lookup}
use systems_engineering_lab.JobQueue.{
  JobStatus, AttemptStatus, JobRow, Queue, candidate, claim_row, claim_job, complete_job, fail_job,
  expire_claims,
}
use systems_engineering_lab.JobQueue.Loop.{
  WorkerRunResult, RunWorkerOptions, process_job, run_worker_until_empty, settle_claim,
}
use systems_engineering_lab.JobQueue.Holders.{
  Inv, completes, here, next, live, expected, Reach-one_claim,
}
use systems_engineering_lab.JobQueue.Stale.{stale_fail_doubles}
use systems_engineering_lab.JobQueue.Worker.{single_worker_settles_all}

abbrev good : JobRow
good = record {
  should_fail = false;
  status = JobStatus.pending;
  attempts = 0;
  max_attempts = 3;
  locked_by = none;
  locked_until = none;
  last_error = none;
  created_at = 20;
}

abbrev bad : JobRow
bad = record good { should_fail = true; max_attempts = 2; created_at = 10 }

abbrev queue : Queue
queue = record { jobs = (1, good) ∷ (2, bad) ∷ []; job_attempts = []; next_attempt = 1 }

abbrev nobody : ℕ → Bool
nobody k = false

abbrev empty_result : WorkerRunResult
empty_result = record { claimed_job_ids = []; completed_job_ids = []; failed_attempt_job_ids = [] }

abbrev alone : RunWorkerOptions
alone = record {
  worker_id = 7;
  lease_ms = 1000;
  process = process_job;
  clock = λ n. n;
  locked = λ n k. false;
}

claims_bad_first : candidate 0 nobody queue.jobs ≡ some (2, bad)
unfolding candidate
claims_bad_first = refl

-- The failing job is claimed first, and twice; then the other.
runs_to_empty :
    (r : WorkerRunResult × Queue) × (run_worker_until_empty alone 6 0 (empty_result, queue)
      ≡ some r)
    × (r.0.claimed_job_ids ≡ 2 ∷ 2 ∷ 1 ∷ [])
    × (r.0.completed_job_ids ≡ 1 ∷ [])
unfolding run_worker_until_empty claim_job candidate claim_row settle_claim complete_job fail_job
    expire_claims process_job
runs_to_empty = (_, refl, refl, refl)

-- Worker 7's lease on job 2 has run out, and worker 8 has reclaimed it.
abbrev reclaimed : Queue
reclaimed = record {
  jobs =
      (
        2,
        record bad {
          status = JobStatus.processing;
          attempts = 1;
          max_attempts = 5;
          locked_by = some 8;
          locked_until = some 3000;
        },
      )
      ∷ [];
  job_attempts =
      (
        1,
        record {
          job_id = 2;
          worker_id = 7;
          attempt_number = 1;
          status = AttemptStatus.expired;
          error = none;
        },
      )
      ∷ (
        2,
        record {
          job_id = 2;
          worker_id = 8;
          attempt_number = 2;
          status = AttemptStatus.claimed;
          error = none;
        },
      )
      ∷ [];
  next_attempt = 3;
}

reclaimed-Inv : Inv reclaimed
reclaimed-Inv = record {
  distinct = (refl, tt);
  numbers = omega arith;
  one_claim = λ k. ground arith;
}

Reach-one_claim_example :
    live 2 (complete_job 2 2 reclaimed).job_attempts
    ≡ expected (lookup 2 (complete_job 2 2 reclaimed).jobs)
Reach-one_claim_example =
    Reach-one_claim reclaimed-Inv (next here (completes 2 2 (_, refl, refl, refl) refl)) 2

abbrev picked : ℕ × JobRow
picked = (2, record bad { attempts = 1; max_attempts = 5; last_error = some 9 })

stale_fail_doubles_example :
    live 2 (claim_row 2500 9 1000 picked (fail_job 2 1 9 reclaimed).1).1.job_attempts ≡ 2
unfolding fail_job claim_job candidate claim_row
stale_fail_doubles_example =
    stale_fail_doubles reclaimed (claim_row 2500 9 1000 picked (fail_job 2 1 9 reclaimed).1).1 2 1 9
      2500 9 1000 nobody _ _ (claim_row 2500 9 1000 picked (fail_job 2 1 9 reclaimed).1).0
      reclaimed-Inv refl refl (omega arith) refl refl refl refl

single_worker_settles_all_example :
    (r' : WorkerRunResult) × (q' : Queue) × (run_worker_until_empty alone 6 0 (empty_result, queue)
      ≡ some (r', q'))
    × ((k : ℕ) (v : JobRow)
        → lookup k q'.jobs ≡ some v
        → (v.status ≡ JobStatus.completed) ⊎ (v.status ≡ JobStatus.failed))
single_worker_settles_all_example =
    single_worker_settles_all alone empty_result queue (refl, (refl, tt)) (λ n k. refl)
      (λ k v e. ground arith)
