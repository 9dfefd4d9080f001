-- ===== src/JobQueue.antt =====
-- The job queue of labs/14-job-queue-skip-locked/src/queue: claim.ts and types.ts.
-- A row's number is its place in the identity column. `now` is the database's clock at a call, and
-- `locked` says which job rows other open transactions hold, which `SKIP LOCKED` passes over.
-- Rows that were created at the same time are taken in table order. Workers are numbers. Of the
-- timestamps only those are kept that a condition reads.
pub mod Claims
pub mod Holders
pub mod Loop
pub mod Stale
pub mod Worker
mod Tests
use systems_engineering_lab.Prelude.{
  ℕ, zero, suc, ◌+◌, Bool, true, false, not, ◌&&◌, ◌||◌, Option, none, some, List, [], ◌∷◌, ◌++◌,
  map, ltb, leb, ◌==◌, if◌then◌else◌,
}
use systems_engineering_lab.Prelude.Table.{Table, lookup, modify}

pub data JobStatus : Type 0 where
  pending processing completed failed : JobStatus

-- `should_fail` is `payload.shouldFail === true`.
pub record JobRow : Type 0 where
  pub should_fail : Bool
  pub status : JobStatus
  pub attempts : ℕ
  pub max_attempts : ℕ
  pub locked_by : Option ℕ
  pub locked_until : Option ℕ
  pub last_error : Option ℕ
  pub created_at : ℕ

pub data AttemptStatus : Type 0 where
  claimed completed failed expired : AttemptStatus

pub record JobAttempt : Type 0 where
  pub job_id : ℕ
  pub worker_id : ℕ
  pub attempt_number : ℕ
  pub status : AttemptStatus
  pub error : Option ℕ

pub record Queue : Type 0 where
  pub jobs : Table JobRow
  pub job_attempts : Table JobAttempt
  pub next_attempt : ℕ

pub record ClaimedJob : Type 0 where
  pub job_id : ℕ
  pub job : JobRow
  pub attempt_id : ℕ
  pub reclaimed : Bool

abbrev pub is_processing : JobStatus → Bool
is_processing JobStatus.processing = true
is_processing _ = false

-- `locked_until < now()`; a null is never less.
abbrev pub lease_over : ℕ → Option ℕ → Bool
lease_over now none = false
lease_over now (some until) = ltb until now

-- WHERE status = 'pending' OR (status = 'processing' AND locked_until < now())
abbrev pub is_claimable : ℕ → JobStatus → Option ℕ → Bool
is_claimable now JobStatus.pending until = true
is_claimable now JobStatus.processing until = lease_over now until
is_claimable now JobStatus.completed until = false
is_claimable now JobStatus.failed until = false

abbrev earlier : ℕ × JobRow → Option (ℕ × JobRow) → ℕ × JobRow
earlier c none = c
earlier c (some d) = if leb (c.1.created_at) (d.1.created_at) then c else d

-- The claim query: ORDER BY created_at FOR UPDATE SKIP LOCKED LIMIT 1
unfoldable pub candidate : ℕ → (ℕ → Bool) → Table JobRow → Option (ℕ × JobRow)
candidate now locked [] = none
candidate now locked ((id, job) ∷ jobs) =
    let rest = candidate now locked jobs in
    if is_claimable now job.status job.locked_until && not (locked id)
    then some (earlier (id, job) rest)
    else rest

-- UPDATE jobs SET status = 'processing', …
abbrev pub taken : ℕ → ℕ → ℕ → JobRow → JobRow
taken now worker_id lease_ms job = record job {
  status = JobStatus.processing;
  locked_by = some worker_id;
  locked_until = some (now + lease_ms);
  attempts = job.attempts + 1;
}

abbrev pub is_claimed : AttemptStatus → Bool
is_claimed AttemptStatus.claimed = true
is_claimed _ = false

-- UPDATE job_attempts SET status = 'expired' WHERE job_id = $1 AND status = 'claimed'
unfoldable pub expire_claims : ℕ → Table JobAttempt → Table JobAttempt
expire_claims job_id [] = []
expire_claims job_id ((k, a) ∷ rows) =
    (
      k,
      (if (a.job_id == job_id) && is_claimed a.status
          then record a { status = AttemptStatus.expired }
          else a),
    )
    ∷ expire_claims job_id rows

-- `claimJob` once the query has found a row.
unfoldable pub claim_row : ℕ → ℕ → ℕ → ℕ × JobRow → Queue → ClaimedJob × Queue
unfolding expire_claims
claim_row now worker_id lease_ms (id, row) q =
    let reclaimed = is_processing row.status in
    let job = taken now worker_id lease_ms row in
    let released = if reclaimed then expire_claims id q.job_attempts else q.job_attempts in
    let attempt : JobAttempt = record {
      job_id = id;
      worker_id = worker_id;
      attempt_number = job.attempts;
      status = AttemptStatus.claimed;
      error = none;
    } in
    (
      record { job_id = id; job = job; attempt_id = q.next_attempt; reclaimed = reclaimed },
      record {
        jobs = modify id (taken now worker_id lease_ms) q.jobs;
        job_attempts = released ++ (q.next_attempt, attempt) ∷ [];
        next_attempt = suc q.next_attempt;
      },
    )

abbrev pub found : ClaimedJob × Queue → Option ClaimedJob × Queue
found (c, q) = (some c, q)

unfoldable pub claim_job : ℕ → (ℕ → Bool) → ℕ → ℕ → Queue → Option ClaimedJob × Queue
claim_job now locked worker_id lease_ms q = elim (candidate now locked q.jobs) [
  | none ↦ (none, q)
  | some row ↦ found (claim_row now worker_id lease_ms row q)
]

abbrev pub done : JobRow → JobRow
done job = record job { status = JobStatus.completed; locked_by = none; locked_until = none }

abbrev pub attempt_done : JobAttempt → JobAttempt
attempt_done a = record a { status = AttemptStatus.completed }

unfoldable pub complete_job : ℕ → ℕ → Queue → Queue
complete_job job_id attempt_id q = record q {
  jobs = modify job_id done q.jobs;
  job_attempts = modify attempt_id attempt_done q.job_attempts;
}

pub record FailResult : Type 0 where
  pub terminal : Bool
  pub attempts : ℕ
  pub max_attempts : ℕ

abbrev pub is_terminal : JobRow → Bool
is_terminal row = leb row.max_attempts row.attempts

abbrev pub given_up : Bool → ℕ → JobRow → JobRow
given_up terminal error_message job = record job {
  status = if terminal then JobStatus.failed else JobStatus.pending;
  locked_by = none;
  locked_until = none;
  last_error = some error_message;
}

abbrev pub attempt_failed : ℕ → JobAttempt → JobAttempt
attempt_failed error_message a = record a {
  status = AttemptStatus.failed;
  error = some error_message;
}

-- `none` is the throw `job … does not exist`, after which the transaction is rolled back.
unfoldable pub fail_job : ℕ → ℕ → ℕ → Queue → Option FailResult × Queue
fail_job job_id attempt_id error_message q = elim (lookup job_id q.jobs) [
  | none ↦ (none, q)
  | some row ↦ (
    some (record {
      terminal = is_terminal row;
      attempts = row.attempts;
      max_attempts = row.max_attempts;
    }),
    record q {
      jobs = modify job_id (given_up (is_terminal row) error_message) q.jobs;
      job_attempts = modify attempt_id (attempt_failed error_message) q.job_attempts;
    },
  )
]
