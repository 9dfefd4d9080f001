-- ===== src/JobQueue/Worker.antt =====
-- `runWorkerUntilEmpty` ends, and what it leaves behind.
use systems_engineering_lab.Prelude.{
  ℕ, zero, suc, ◌+◌, ◌-◌, ◌<◌, ◌≡◌, ◌≢◌, max, Bool, true, false, Option, none, some, [], ◌∷◌, arith,
  ◌==◌, Option-cases, Bool-cases, inl, inr, ◌⊎◌,
}
use systems_engineering_lab.Prelude.Table.{
  Table, lookup, modify, lookup-modify, Distinct, modify-Distinct,
}
use systems_engineering_lab.JobQueue.{
  JobStatus, JobRow, Queue, claim_row, taken, complete_job, fail_job, done, given_up, is_terminal,
}
use systems_engineering_lab.JobQueue.Loop.{
  WorkerRunResult, RunWorkerOptions, settle_claim, run_worker_until_empty,
}
use systems_engineering_lab.JobQueue.Claims.{
  is_free, candidate-none, claim_job-cases, candidate-lookup, candidate-is_free,
}

-- How many claims a job can still have: its tries left, and one at least while it is not settled.
abbrev pub tries : JobStatus → ℕ → ℕ
tries JobStatus.pending left = max 1 left
tries JobStatus.processing left = max 1 left
tries JobStatus.completed left = 0
tries JobStatus.failed left = 0

abbrev pub claims_left : JobRow → ℕ
claims_left job = tries job.status (job.max_attempts - job.attempts)

abbrev pub total_claims : Table JobRow → ℕ
total_claims [] = 0
total_claims ((id, job) ∷ jobs) = claims_left job + total_claims jobs

total_claims-modify :
    (id : ℕ) (f : JobRow → JobRow) (t : Table JobRow) (row : JobRow)
    → lookup id t ≡ some row
    → total_claims (modify id f t) + claims_left row ≡ total_claims t + claims_left (f row)
total_claims-modify id f [] row e = cc
total_claims-modify id f ((j, b) ∷ t) row e = elim (Bool-cases (j == id)) [
  | inl here ↦ ground (arith, here)
  | inr there ↦ ground (arith, there, total_claims-modify id f t row)
]

abbrev is_active : JobStatus → Bool
is_active JobStatus.pending = true
is_active JobStatus.processing = true
is_active _ = false

-- What settling a claim does to the row of the claimed `job`.
abbrev settles : Option ℕ → JobRow → JobRow → JobRow
settles none job = done
settles (some message) job = given_up (is_terminal job) message

settles-lt :
    (now w l : ℕ) (m : Option ℕ) (row : JobRow)
    → is_active row.status ≡ true
    → claims_left (settles m (taken now w l row) (taken now w l row)) < claims_left row
settles-lt now w l none row h = ground arith
settles-lt now w l (some m) row h = ground arith

settles-done : (m : Option ℕ) (job : JobRow) → (settles m job job).status ≢ JobStatus.processing
settles-done none job e = cc
settles-done (some m) job e = ground arith

module _ (process : JobRow → Option ℕ) (now w l : ℕ) where
  -- The queue after one round of the loop.
  abbrev round : ℕ × JobRow → WorkerRunResult → Queue → WorkerRunResult × Queue
  round picked r q = let (c, q') = claim_row now w l picked q in settle_claim process c (r, q')

  round-jobs :
      (id : ℕ) (row : JobRow) (r : WorkerRunResult) (q : Queue)
      → lookup id q.jobs ≡ some row
      → (round (id, row) r q).1.jobs
        ≡ modify id
            (settles (process (taken now w l row)) (taken now w l row))
            (modify id (taken now w l) q.jobs)
  unfolding claim_row settle_claim complete_job fail_job
  round-jobs id row r q e = elim (Option-cases (process (taken now w l row))) [
    | inl fine ↦ rw fine
    | inr (m, bad) ↦ rw bad (ground (arith, lookup-modify id id (taken now w l) q.jobs))
  ]

  round-claims :
      (id : ℕ) (row : JobRow) (r : WorkerRunResult) (q : Queue)
      → lookup id q.jobs ≡ some row
      → is_active row.status ≡ true
      → total_claims (round (id, row) r q).1.jobs < total_claims q.jobs
  round-claims id row r q e h =
      let m = process (taken now w l row) in
      rw (round-jobs id row r q e) (
        omega (
          arith,
          total_claims-modify id (taken now w l) q.jobs row e,
          total_claims-modify id (settles m (taken now w l row)) (modify id (taken now w l) q.jobs)
              (taken now w l row) (taken_there id row q e),
          settles-lt now w l m row h,
        ))
    where
      taken_there :
          (id : ℕ) (row : JobRow) (q : Queue)
          → lookup id q.jobs ≡ some row
          → lookup id (modify id (taken now w l) q.jobs) ≡ some (taken now w l row)
      taken_there id row q e = ground (arith, lookup-modify id id (taken now w l) q.jobs)

  round-Distinct :
      (id : ℕ) (row : JobRow) (r : WorkerRunResult) (q : Queue)
      → lookup id q.jobs ≡ some row
      → Distinct q.jobs
      → Distinct (round (id, row) r q).1.jobs
  round-Distinct id row r q e d = rw (round-jobs id row r q e) (
      modify-Distinct id _ (modify id (taken now w l) q.jobs)
        (modify-Distinct id (taken now w l) q.jobs d))

  round-settled :
      (id : ℕ) (row : JobRow) (r : WorkerRunResult) (q : Queue) (k : ℕ) (v : JobRow)
      → lookup id q.jobs ≡ some row
      → ((u : JobRow) → lookup k q.jobs ≡ some u → u.status ≢ JobStatus.processing)
      → lookup k (round (id, row) r q).1.jobs ≡ some v
      → v.status ≢ JobStatus.processing
  round-settled id row r q k v e idle there =
      let m = process (taken now w l row) in
      let f = settles m (taken now w l row) in
      let law = lookup-modify id k f (modify id (taken now w l) q.jobs) in
      let law' = lookup-modify id k (taken now w l) q.jobs in
      let there' : lookup k (modify id f (modify id (taken now w l) q.jobs)) ≡ some v =
        rw (round-jobs id row r q e) at there in
      elim (Bool-cases (id == k)) [
        | inl own ↦ ground (arith, law, law', own, settles-done m (taken now w l row))
        | inr other ↦ idle v (ground (arith, law, law', other))
      ]

-- No job in the queue is `processing`.
abbrev pub Idle : Queue → Type 0
Idle q = (k : ℕ) (v : JobRow) → lookup k q.jobs ≡ some v → v.status ≢ JobStatus.processing

-- The loop came to an end at a call of `claimJob` that found nothing.
abbrev pub Ends : RunWorkerOptions → Queue → Option (WorkerRunResult × Queue) → Type 0
Ends o q result =
    (r' : WorkerRunResult) × (q' : Queue) × (last : ℕ) × (result ≡ some (r', q'))
    × ((k : ℕ) (v : JobRow)
        → lookup k q'.jobs ≡ some v
        → is_free (o.clock last) (o.locked last) k v ≡ false)
    × (Idle q → Idle q')

active_of_free :
    (now : ℕ) (locked : ℕ → Bool) (id : ℕ) (row : JobRow)
    → is_free now locked id row ≡ true
    → is_active row.status ≡ true
active_of_free now locked id row h = ground arith

run_loop :
    (o : RunWorkerOptions) (fuel n : ℕ) (r : WorkerRunResult) (q : Queue)
    → Distinct q.jobs
    → total_claims q.jobs < fuel
    → Ends o q (run_worker_until_empty o fuel n (r, q))
unfolding run_worker_until_empty
run_loop o zero n r q d h = absurd (omega arith)
run_loop o (suc fuel) n r q d h =
    elim (claim_job-cases (o.clock n) (o.locked n) o.worker_id o.lease_ms q) [
      | inl (nobody, e) ↦ (
        r,
        q,
        n,
        rw (e, run_worker_until_empty),
        λ k v l. candidate-none (o.clock n) (o.locked n) q.jobs k v nobody l,
        λ i. i,
      )
      | inr ((id, row), is, e) ↦
          let there = candidate-lookup (o.clock n) (o.locked n) q.jobs id row d is in
          let active =
            active_of_free (o.clock n) (o.locked n) id row
              (candidate-is_free (o.clock n) (o.locked n) q.jobs id row is) in
          let s = round o.process (o.clock n) o.worker_id o.lease_ms (id, row) r q in
          let (r', q', last, same, free, idle) =
            run_loop o fuel (suc n) s.0 s.1
              (round-Distinct o.process (o.clock n) o.worker_id o.lease_ms id row r q there d)
              (omega (
                arith,
                round-claims o.process (o.clock n) o.worker_id o.lease_ms id row r q there active,
              )) in
          (
            r',
            q',
            last,
            rw (e, run_worker_until_empty) same,
            free,
            λ i. idle (λ k v l.
                round-settled o.process (o.clock n) o.worker_id o.lease_ms id row r q k v there
                  (i k) l),
          )
    ]

-- `runWorkerUntilEmpty` ends, whatever `process` does with a job and however the clock goes: it
-- needs no more rounds than the claims that its jobs can still have, and one. When it ends, there
-- is no job left that it could claim, and it leaves no job `processing` if it found none so.
pub run_worker_until_empty-Ends :
    (o : RunWorkerOptions) (r : WorkerRunResult) (q : Queue)
    → Distinct q.jobs
    → Ends o q (run_worker_until_empty o (suc (total_claims q.jobs)) 0 (r, q))
run_worker_until_empty-Ends o r q d = run_loop o (suc (total_claims q.jobs)) 0 r q d (omega arith)

-- A single worker, with no job `processing` at the start and no row held by others, brings every
-- job of the queue to `completed` or `failed`.
pub single_worker_settles_all :
    (o : RunWorkerOptions) (r : WorkerRunResult) (q : Queue)
    → Distinct q.jobs
    → ((n k : ℕ) → o.locked n k ≡ false)
    → Idle q
    → (r' : WorkerRunResult) × (q' : Queue) × (run_worker_until_empty o
          (suc (total_claims q.jobs))
          0
          (r, q)
        ≡ some (r', q'))
      × ((k : ℕ) (v : JobRow)
          → lookup k q'.jobs ≡ some v
          → (v.status ≡ JobStatus.completed) ⊎ (v.status ≡ JobStatus.failed))
single_worker_settles_all o r q d alone idle =
    let (r', q', last, same, free, left) = run_worker_until_empty-Ends o r q d in
    (r', q', same, λ k v l. over last k v (alone last k) (free k v l) (left idle k v l))
  where
    over :
        (last k : ℕ) (v : JobRow)
        → o.locked last k ≡ false
        → is_free (o.clock last) (o.locked last) k v ≡ false
        → v.status ≢ JobStatus.processing
        → (v.status ≡ JobStatus.completed) ⊎ (v.status ≡ JobStatus.failed)
    over last k v a f i = ground arith
