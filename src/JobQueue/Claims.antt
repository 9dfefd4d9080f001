-- ===== src/JobQueue/Claims.antt =====
-- What the claim query selects, and what a claim changes.
use systems_engineering_lab.Prelude.{
  ℕ, ◌≤◌, ◌≡◌, refl, Bool, true, false, not, ◌&&◌, Option, none, some, [], ◌∷◌, arith, ◌==◌,
  if◌then◌else◌, Option-cases, inl, inr, ◌⊎◌, sym, subst, ap, ◌∙◌,
}
use systems_engineering_lab.Prelude.Table.{Table, lookup, lookup-modify, Distinct, modify-Distinct}
use systems_engineering_lab.JobQueue.{
  JobRow, Queue, ClaimedJob, is_claimable, candidate, claim_row, claim_job, taken, is_processing,
  found,
}

-- A row that the claim query may select.
abbrev pub is_free : ℕ → (ℕ → Bool) → ℕ → JobRow → Bool
is_free now locked id job = is_claimable now job.status job.locked_until && not (locked id)

module _ (now : ℕ) (locked : ℕ → Bool) where
  pub candidate-is_free :
      (jobs : Table JobRow) (id : ℕ) (job : JobRow)
      → candidate now locked jobs ≡ some (id, job)
      → is_free now locked id job ≡ true
  unfolding candidate
  candidate-is_free [] id job e = cc
  candidate-is_free ((j, row) ∷ jobs) id job e = ground (arith, candidate-is_free jobs id job)

  pub candidate-lookup :
      (jobs : Table JobRow) (id : ℕ) (job : JobRow)
      → Distinct jobs
      → candidate now locked jobs ≡ some (id, job)
      → lookup id jobs ≡ some job
  unfolding candidate
  candidate-lookup [] id job d e = cc
  candidate-lookup ((j, row) ∷ jobs) id job d e = ground (arith, candidate-lookup jobs id job d.1)

  pub candidate-none :
      (jobs : Table JobRow) (k : ℕ) (v : JobRow)
      → candidate now locked jobs ≡ none
      → lookup k jobs ≡ some v
      → is_free now locked k v ≡ false
  unfolding candidate
  candidate-none [] k v e l = cc
  candidate-none ((j, row) ∷ jobs) k v e l = ground (arith, candidate-none jobs k v)

  candidate-earliest :
      (jobs : Table JobRow) (id : ℕ) (job : JobRow) (k : ℕ) (v : JobRow)
      → candidate now locked jobs ≡ some (id, job)
      → lookup k jobs ≡ some v
      → is_free now locked k v ≡ true
      → job.created_at ≤ v.created_at
  unfolding candidate
  candidate-earliest [] id job k v e l f = cc
  candidate-earliest ((j, row) ∷ jobs) id job k v e l f =
      elim (Option-cases (candidate now locked jobs)) [
        | inl nobody ↦ ground (arith, candidate-none jobs k v nobody)
        | inr (c, some_row) ↦ ground (arith, candidate-earliest jobs c.0 c.1 k v some_row)
      ]

-- What a claim of `row` in `q` has done.
pub record Claimed (now : ℕ) (locked : ℕ → Bool) (worker_id lease_ms : ℕ) (q : Queue)
    (c : ClaimedJob) (q' : Queue) : Type 0 where
  pub row : JobRow
  pub is_there : lookup c.job_id q.jobs ≡ some row
  pub was_free : is_free now locked c.job_id row ≡ true
  pub gives : c.job ≡ taken now worker_id lease_ms row
  pub flags : c.reclaimed ≡ is_processing row.status
  pub earliest :
      (k : ℕ) (v : JobRow)
      → lookup k q.jobs ≡ some v
      → is_free now locked k v ≡ true
      → row.created_at ≤ v.created_at
  pub updates : (k : ℕ) → lookup k q'.jobs ≡ (if c.job_id == k then some c.job else lookup k q.jobs)

claim_row-Claimed :
    (now : ℕ) (locked : ℕ → Bool) (worker_id lease_ms id : ℕ) (row : JobRow) (q : Queue)
    → Distinct q.jobs
    → candidate now locked q.jobs ≡ some (id, row)
    → let (c, q') = claim_row now worker_id lease_ms (id, row) q in
      Claimed now locked worker_id lease_ms q c q'
unfolding claim_row
claim_row-Claimed now locked worker_id lease_ms id row q d e =
    let there = candidate-lookup now locked q.jobs id row d e in
    record {
      row = row;
      is_there = there;
      was_free = candidate-is_free now locked q.jobs id row e;
      gives = refl;
      flags = refl;
      earliest = λ k v. candidate-earliest now locked q.jobs id row k v e;
      updates = λ k. ground (arith, lookup-modify id k (taken now worker_id lease_ms) q.jobs);
    }

-- The two ways of `claimJob`.
pub claim_job-cases :
    (now : ℕ) (locked : ℕ → Bool) (worker_id lease_ms : ℕ) (q : Queue)
    → ((candidate now locked q.jobs ≡ none)
        × (claim_job now locked worker_id lease_ms q ≡ (none, q)))
      ⊎ ((row : ℕ × JobRow) × (candidate now locked q.jobs ≡ some row)
          × (claim_job now locked worker_id lease_ms q
              ≡ found (claim_row now worker_id lease_ms row q)))
claim_job-cases now locked worker_id lease_ms q =
    elim (Option-cases (candidate now locked q.jobs)) [
      | inl e ↦ inl (e, unfold claim_job in rw (e, claim_job))
      | inr (row, e) ↦ inr (row, e, unfold claim_job in rw (e, claim_job))
    ]

pub found-eq :
    (p : ClaimedJob × Queue) (c : ClaimedJob) (q' : Queue) → found p ≡ (some c, q') → p ≡ (c, q')
found-eq p c q' e = ground arith

-- A claim takes a row that was pending or whose lease had run out, that nobody holds, and that is
-- the earliest such row. It gives that row as it is then stored, with the new lease and one more
-- attempt, says rightly whether it was reclaimed, and changes no other job.
pub claim_job-Claimed :
    (now : ℕ) (locked : ℕ → Bool) (worker_id lease_ms : ℕ) (q q' : Queue) (c : ClaimedJob)
    → Distinct q.jobs
    → claim_job now locked worker_id lease_ms q ≡ (some c, q')
    → Claimed now locked worker_id lease_ms q c q'
claim_job-Claimed now locked worker_id lease_ms q q' c d e =
    elim (claim_job-cases now locked worker_id lease_ms q) [
      | inl (nobody, r) ↦ absurd (none_is_some (sym r ∙ e))
      | inr (row, is, r) ↦
          subst (λ p. Claimed now locked worker_id lease_ms q p.0 p.1)
            (found-eq (claim_row now worker_id lease_ms row q) c q' (sym r ∙ e))
            (claim_row-Claimed now locked worker_id lease_ms row.0 row.1 q d is)
    ]
  where
    none_is_some : ◌≡◌ {A = Option ClaimedJob × Queue} (none, q) (some c, q') → ⊥
    none_is_some h = ground arith

-- If a claim finds nothing, it changes nothing, and no row in the queue was pending or had run out
-- of its lease, except rows that somebody holds.
pub claim_job-none :
    (now : ℕ) (locked : ℕ → Bool) (worker_id lease_ms : ℕ) (q q' : Queue)
    → claim_job now locked worker_id lease_ms q ≡ (none, q')
    → (q' ≡ q) × ((k : ℕ) (v : JobRow) → lookup k q.jobs ≡ some v → is_free now locked k v ≡ false)
claim_job-none now locked worker_id lease_ms q q' e =
    elim (claim_job-cases now locked worker_id lease_ms q) [
      | inl (nobody, r) ↦
          (sym (ap (λ p. p.1) (sym r ∙ e)), λ k v l. candidate-none now locked q.jobs k v nobody l)
      | inr (row, is, r) ↦ absurd (some_is_none row (sym r ∙ e))
    ]
  where
    some_is_none :
        (row : ℕ × JobRow) → found (claim_row now worker_id lease_ms row q) ≡ (none, q') → ⊥
    some_is_none row h = ground arith

pub claim_job-Distinct :
    (now : ℕ) (locked : ℕ → Bool) (worker_id lease_ms : ℕ) (q : Queue)
    → Distinct q.jobs
    → Distinct (claim_job now locked worker_id lease_ms q).1.jobs
claim_job-Distinct now locked worker_id lease_ms q d =
    elim (claim_job-cases now locked worker_id lease_ms q) [
      | inl (nobody, r) ↦ rw r d
      | inr (row, is, r) ↦
          rw r (unfold claim_row in modify-Distinct row.0 (taken now worker_id lease_ms) q.jobs d)
    ]
