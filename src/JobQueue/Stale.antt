-- ===== src/JobQueue/Stale.antt =====
-- queue/claim.ts: a failure that is reported by a worker whose lease is over.
use systems_engineering_lab.Prelude.{
  ℕ, ◌+◌, ◌<◌, ◌≡◌, refl, Bool, false, none, some, [], ◌∷◌, arith, inl, inr, sym, subst, ap, ◌∙◌,
}
use systems_engineering_lab.Prelude.Table.{lookup, lookup-modify, Distinct, modify-Distinct}
use systems_engineering_lab.JobQueue.{
  JobStatus, AttemptStatus, JobRow, JobAttempt, Queue, ClaimedJob, candidate, claim_row, claim_job,
  is_processing, is_claimed, fail_job, attempt_failed, given_up, is_terminal,
}
use systems_engineering_lab.JobQueue.Claims.{found-eq, claim_job-cases, candidate-lookup}
use systems_engineering_lab.JobQueue.Holders.{live, live-append, live-modify, Inv}

claim_row-live :
    (now worker_id lease_ms id : ℕ) (row : JobRow) (q : Queue)
    → is_processing row.status ≡ false
    → live id (claim_row now worker_id lease_ms (id, row) q).1.job_attempts
      ≡ live id q.job_attempts + 1
unfolding claim_row
claim_row-live now worker_id lease_ms id row q h =
    let attempt : JobAttempt = record {
      job_id = id;
      worker_id = worker_id;
      attempt_number = row.attempts + 1;
      status = AttemptStatus.claimed;
      error = none;
    } in
    ground (arith, live-append id q.job_attempts ((q.next_attempt, attempt) ∷ []))

-- A claim of a job that is pending adds one attempt that is `claimed`.
claim_job-live :
    (now : ℕ) (locked : ℕ → Bool) (worker_id lease_ms : ℕ) (q q' : Queue) (c : ClaimedJob)
    (row : JobRow)
    → Distinct q.jobs
    → lookup c.job_id q.jobs ≡ some row
    → is_processing row.status ≡ false
    → claim_job now locked worker_id lease_ms q ≡ (some c, q')
    → live c.job_id q'.job_attempts ≡ live c.job_id q.job_attempts + 1
claim_job-live now locked worker_id lease_ms q q' c row d there idle e =
    elim (claim_job-cases now locked worker_id lease_ms q) [
      | inl (nobody, r) ↦ absurd (ground (arith, r))
      | inr (picked, is, r) ↦
          claimed picked is (found-eq (claim_row now worker_id lease_ms picked q) c q' (sym r ∙ e))
    ]
  where
    claimed :
        (picked : ℕ × JobRow)
        → candidate now locked q.jobs ≡ some picked
        → claim_row now worker_id lease_ms picked q ≡ (c, q')
        → live c.job_id q'.job_attempts ≡ live c.job_id q.job_attempts + 1
    claimed (id, v) is same =
        let found_v = candidate-lookup now locked q.jobs id v d is in
        let own : id ≡ c.job_id = unfold claim_row in ap (λ p. p.0.job_id) same in
        let idle_v : is_processing v.status ≡ false = ground (arith, found_v, there, own) in
        subst (λ k. live k q'.job_attempts ≡ live k q.job_attempts + 1) own
          (subst (λ p. live id p.1.job_attempts ≡ live id q.job_attempts + 1) same
            (claim_row-live now worker_id lease_ms id v q idle_v))

-- `failJob` does not ask who holds the job. If a worker whose lease has run out fails a job that
-- another worker has reclaimed, and tries are left, the job is pending again while the other
-- worker's attempt is still `claimed`; the next claim of it makes that two.
pub stale_fail_doubles :
    (q q' : Queue) (id stale message now worker_id lease_ms : ℕ) (locked : ℕ → Bool) (row : JobRow)
    (a : JobAttempt) (c : ClaimedJob)
    → Inv q
    → lookup id q.jobs ≡ some row
    → row.status ≡ JobStatus.processing
    → row.attempts < row.max_attempts
    → lookup stale q.job_attempts ≡ some a
    → is_claimed a.status ≡ false
    → claim_job now locked worker_id lease_ms (fail_job id stale message q).1 ≡ (some c, q')
    → c.job_id ≡ id
    → live id q'.job_attempts ≡ 2
unfolding fail_job
stale_fail_doubles q q' id stale message now worker_id lease_ms locked row a c v e p h es ns ec ei =
    let u = (fail_job id stale message q).1 in
    let after : lookup id u.jobs ≡ some (given_up false message row) =
      ground (arith, lookup-modify id id (given_up (is_terminal row) message) q.jobs) in
    let kept : live id u.job_attempts ≡ 1 = ground (
      arith,
      live-modify id stale (attempt_failed message) q.job_attempts a (λ b. ground arith) es,
      v.one_claim id,
    ) in
    let distinct : Distinct u.jobs = ground (
      arith,
      v.distinct,
      modify-Distinct id (given_up (is_terminal row) message) q.jobs v.distinct,
    ) in
    let two =
      claim_job-live now locked worker_id lease_ms u q' c (given_up false message row) distinct
        (rw ei after) refl ec in
    ground (arith, two, kept, ei)
