-- ===== src/JobQueue/Holders.antt =====
-- The audit trail: how many attempts of a job stand as `claimed`.
use systems_engineering_lab.Prelude.{
  ℕ, ◌+◌, ◌≡◌, Bool, true, ◌&&◌, Option, none, some, [], ◌∷◌, ◌++◌, arith, ◌==◌, if◌then◌else◌,
  Option-cases, Bool-cases, inl, inr,
}
use systems_engineering_lab.Prelude.Table.{
  Table, lookup, modify, lookup-modify, Distinct, modify-Distinct, Below, modify-Below,
  append_new-Below,
}
use systems_engineering_lab.JobQueue.{
  AttemptStatus, JobRow, JobAttempt, Queue, candidate, claim_row, claim_job, taken, is_processing,
  is_claimed, expire_claims, complete_job, fail_job, attempt_done, attempt_failed, done, given_up,
  is_terminal,
}
use systems_engineering_lab.JobQueue.Claims.{claim_job-cases, candidate-lookup, candidate-is_free}

abbrev pub live_row : ℕ → JobAttempt → ℕ
live_row k a = if (a.job_id == k) && is_claimed a.status then 1 else 0

-- How many attempts of job `k` are `claimed`.
abbrev pub live : ℕ → Table JobAttempt → ℕ
live k [] = 0
live k ((id, a) ∷ rows) = live_row k a + live k rows

pub live-append : (k : ℕ) (t u : Table JobAttempt) → live k (t ++ u) ≡ live k t + live k u
live-append k [] u = omega arith
live-append k (e ∷ t) u = omega (arith, live-append k t u)

pub live-expire :
    (k j : ℕ) (t : Table JobAttempt) → live k (expire_claims j t) ≡ (if j == k then 0 else live k t)
unfolding expire_claims
live-expire k j [] = ground arith
live-expire k j (e ∷ t) = ground (arith, live-expire k j t)

expire-Below : (n j : ℕ) (t : Table JobAttempt) → Below n t → Below n (expire_claims j t)
unfolding expire_claims
expire-Below n j [] b = tt
expire-Below n j (e ∷ t) b = (b.0, expire-Below n j t b.1)

pub live-modify :
    (k id : ℕ) (f : JobAttempt → JobAttempt) (t : Table JobAttempt) (a : JobAttempt)
    → ((b : JobAttempt) → live_row k (f b) ≡ 0)
    → lookup id t ≡ some a
    → live k (modify id f t) + live_row k a ≡ live k t
live-modify k id f [] a h e = cc
live-modify k id f ((j, b) ∷ t) a h e = elim (Bool-cases (j == id)) [
  | inl here ↦ ground (arith, h b)
  | inr there ↦ ground (arith, live-modify k id f t a h)
]

-- What a job's row calls for.
abbrev pub expected : Option JobRow → ℕ
expected none = 0
expected (some job) = if is_processing job.status then 1 else 0

pub record Inv (q : Queue) : Type 0 where
  pub distinct : Distinct q.jobs
  pub numbers : Below q.next_attempt q.job_attempts
  pub one_claim : (k : ℕ) → live k q.job_attempts ≡ expected (lookup k q.jobs)

-- The attempt is the job's, and it stands as `claimed`.
abbrev pub Holds : Queue → ℕ → ℕ → Type 0
Holds q job_id attempt_id =
    (a : JobAttempt) × (lookup attempt_id q.job_attempts ≡ some a)
    × (a.job_id ≡ job_id)
    × (is_claimed a.status ≡ true)

claim_row-Inv :
    (now worker_id lease_ms id : ℕ) (row : JobRow) (locked : ℕ → Bool) (q : Queue)
    → candidate now locked q.jobs ≡ some (id, row)
    → Inv q
    → Inv (claim_row now worker_id lease_ms (id, row) q).1
unfolding claim_row
claim_row-Inv now worker_id lease_ms id row locked q e v =
    let there = candidate-lookup now locked q.jobs id row v.distinct e in
    let free = candidate-is_free now locked q.jobs id row e in
    let attempt : JobAttempt = record {
      job_id = id;
      worker_id = worker_id;
      attempt_number = row.attempts + 1;
      status = AttemptStatus.claimed;
      error = none;
    } in
    let rest : Table JobAttempt = (q.next_attempt, attempt) ∷ [] in
    record {
      distinct = modify-Distinct id (taken now worker_id lease_ms) q.jobs v.distinct;
      numbers = ground (
        arith,
        append_new-Below q.next_attempt attempt (expire_claims id q.job_attempts)
            (expire-Below q.next_attempt id q.job_attempts v.numbers),
        append_new-Below q.next_attempt attempt q.job_attempts v.numbers,
      );
      one_claim = λ k. ground (
        arith,
        v.one_claim k,
        v.one_claim id,
        live-expire k id q.job_attempts,
        lookup-modify id k (taken now worker_id lease_ms) q.jobs,
        live-append k q.job_attempts rest,
        live-append k (expire_claims id q.job_attempts) rest,
        there,
        free,
      );
    }

complete_job-Inv :
    (id attempt_id : ℕ) (q : Queue)
    → Holds q id attempt_id
    → Inv q
    → Inv (complete_job id attempt_id q)
unfolding complete_job
complete_job-Inv id attempt_id q (a, there, own, claim) v = record {
  distinct = modify-Distinct id done q.jobs v.distinct;
  numbers = modify-Below q.next_attempt attempt_id attempt_done q.job_attempts v.numbers;
  one_claim = λ k. ground (
    arith,
    v.one_claim k,
    lookup-modify id k done q.jobs,
    live-modify k attempt_id attempt_done q.job_attempts a (λ b. ground arith) there,
  );
}

failed_job-Inv :
    (id attempt_id message : ℕ) (terminal : Bool) (q : Queue)
    → Holds q id attempt_id
    → Inv q
    → Inv (record q {
      jobs = modify id (given_up terminal message) q.jobs;
      job_attempts = modify attempt_id (attempt_failed message) q.job_attempts;
    })
failed_job-Inv id attempt_id message terminal q (a, there, own, claim) v = record {
  distinct = modify-Distinct id (given_up terminal message) q.jobs v.distinct;
  numbers =
      modify-Below q.next_attempt attempt_id (attempt_failed message) q.job_attempts v.numbers;
  one_claim = λ k. ground (
    arith,
    v.one_claim k,
    lookup-modify id k (given_up terminal message) q.jobs,
    live-modify k attempt_id (attempt_failed message) q.job_attempts a (λ b. ground arith) there,
  );
}

fail_job-Inv :
    (id attempt_id message : ℕ) (q : Queue)
    → Holds q id attempt_id
    → Inv q
    → Inv (fail_job id attempt_id message q).1
unfolding fail_job
fail_job-Inv id attempt_id message q h v = elim (Option-cases (lookup id q.jobs)) [
  | inl e ↦ rw (e, fail_job) v
  | inr (row, e) ↦ rw (e, fail_job) (failed_job-Inv id attempt_id message (is_terminal row) q h v)
]

claim_job-Inv :
    (now : ℕ) (locked : ℕ → Bool) (worker_id lease_ms : ℕ) (q : Queue)
    → Inv q
    → Inv (claim_job now locked worker_id lease_ms q).1
claim_job-Inv now locked worker_id lease_ms q v =
    elim (claim_job-cases now locked worker_id lease_ms q) [
      | inl (nobody, r) ↦ rw r v
      | inr (row, is, r) ↦ rw r (claim_row-Inv now worker_id lease_ms row.0 row.1 locked q is v)
    ]

-- One transaction of a worker: any worker claims, or one that still holds an attempt settles it.
pub data Step (q : Queue) (u : Queue) : Type 0 where
  claims :
      (now : ℕ) (locked : ℕ → Bool) (worker_id lease_ms : ℕ)
      → u ≡ (claim_job now locked worker_id lease_ms q).1
      → Step q u
  completes :
      (id attempt_id : ℕ) → Holds q id attempt_id → u ≡ complete_job id attempt_id q → Step q u
  fails :
      (id attempt_id message : ℕ)
      → Holds q id attempt_id
      → u ≡ (fail_job id attempt_id message q).1
      → Step q u

pub data Reach (q : Queue) : Queue → Type 0 where
  here : Reach q q
  next : {u v : Queue} → Reach q u → Step u v → Reach q v

Step-Inv : {q u : Queue} → Step q u → Inv q → Inv u
Step-Inv {q} (claims now locked w l e) v = rw e (claim_job-Inv now locked w l q v)
Step-Inv {q} (completes id a h e) v = rw e (complete_job-Inv id a q h v)
Step-Inv {q} (fails id a m h e) v = rw e (fail_job-Inv id a m q h v)

Reach-Inv : {q u : Queue} → Inv q → Reach q u → Inv u
Reach-Inv v here = v
Reach-Inv v (next r st) = Step-Inv st (Reach-Inv v r)

-- As long as only workers that still hold an attempt settle it, any interleaving of claims,
-- completions and failures, at any times and with any rows held, keeps the audit trail right: a job
-- that is `processing` has exactly one attempt that is `claimed`, and any other job has none.
pub Reach-one_claim :
    {q u : Queue} → Inv q → Reach q u → (k : ℕ) → live k u.job_attempts ≡ expected (lookup k u.jobs)
Reach-one_claim v r = (Reach-Inv v r).one_claim
