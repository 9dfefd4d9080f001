-- ===== src/Overload/Backlog.antt =====
-- The capacity of the bounded queue, under any interleaving of producers and workers.
use systems_engineering_lab.Prelude.{
  ℕ, zero, suc, ◌+◌, ◌-◌, ◌≤◌, ◌≡◌, refl, Bool, true, Option, none, some, [], ◌∷◌, ◌++◌, arith, ltb,
  ◌==◌, Bool-cases, inl, inr, ap, sym, ◌∙◌, subst,
}
use systems_engineering_lab.Prelude.Table.{
  Table, lookup, modify, Below, Distinct, modify-Below, modify-Distinct, append_new-Below,
  lookup-append_new,
}
use systems_engineering_lab.Overload.Queue.{
  JobStatus, JobRow, QueueState, Db, pending, processing, completed, enqueue, enqueue_at, candidate,
  claim_one_job, claim_at, complete_job, finished, started, new_job, reset_queue_state, is_pending,
}

-- Jobs that take up the queue's capacity: pending or processing.
abbrev pub open_job : JobStatus → ℕ
open_job pending = 1
open_job processing = 1
open_job completed = 0

abbrev pub open_jobs : Table JobRow → ℕ
open_jobs [] = 0
open_jobs ((id, job) ∷ jobs) = open_job job.status + open_jobs jobs

open_jobs-append : (js ks : Table JobRow) → open_jobs (js ++ ks) ≡ open_jobs js + open_jobs ks
open_jobs-append [] ks = omega arith
open_jobs-append (j ∷ js) ks = omega (arith, open_jobs-append js ks)

pub record Inv (n : ℕ) (db : Db) : Type 0 where
  pub state : QueueState
  pub has_state : db.queue_state ≡ some state
  pub same_capacity : state.capacity ≡ n
  pub counted : state.pending_count ≡ open_jobs db.jobs
  pub within : state.pending_count ≤ n
  pub below : Below db.next_id db.jobs
  pub distinct : Distinct db.jobs

-- A producer, a worker's claim, and the end of the work on a job that is being processed.
pub data Step (db : Db) (u : Db) : Type 0 where
  enqueues : (now : ℕ) → u ≡ (enqueue now db).1 → Step db u
  claims :
      (locked : ℕ → Bool) (worker_id : ℕ) → u ≡ (claim_one_job locked worker_id db).1 → Step db u
  completes :
      (id : ℕ) (job : JobRow)
      → lookup id db.jobs ≡ some job
      → job.status ≡ processing
      → u ≡ complete_job id db
      → Step db u

pub data Reach (db : Db) : Db → Type 0 where
  here : Reach db db
  next : {u v : Db} → Reach db u → Step u v → Reach db v

candidate-pending :
    (locked : ℕ → Bool) (id : ℕ) (job : JobRow) (jobs : Table JobRow)
    → candidate locked jobs ≡ some (id, job)
    → is_pending job.status ≡ true
unfolding candidate
candidate-pending locked id job [] e = cc
candidate-pending locked id job ((j, row) ∷ jobs) e =
    ground (arith, candidate-pending locked id job jobs)

candidate-lookup :
    (locked : ℕ → Bool) (id : ℕ) (job : JobRow) (jobs : Table JobRow)
    → Distinct jobs
    → candidate locked jobs ≡ some (id, job)
    → lookup id jobs ≡ some job
unfolding candidate
candidate-lookup locked id job [] d e = cc
candidate-lookup locked id job ((j, row) ∷ jobs) d e =
    ground (arith, candidate-lookup locked id job jobs d.1)

append_new-Distinct :
    (n : ℕ) (v : JobRow) (t : Table JobRow) → Below n t → Distinct t → Distinct (t ++ (n, v) ∷ [])
append_new-Distinct n v [] b d = (refl, tt)
append_new-Distinct n v (e ∷ t) b d =
    (ground (arith, lookup-append_new n e.0 v t b.1, d.0, b.0), append_new-Distinct n v t b.1 d.1)

the : {A : Type 0} → A → Option A → A
the a none = a
the a (some b) = b

some_same : {A : Type 0} {a b : A} → some a ≡ some b → a ≡ b
unfolding the
some_same {A} {a} e = ap (the a) e

pending_open : (st : JobStatus) → is_pending st ≡ true → open_job st ≡ 1
pending_open pending e = refl
pending_open processing e = refl
pending_open completed e = ground (arith, e)

open_jobs-modify :
    (id : ℕ) (f : JobRow → JobRow) (job : JobRow) (jobs : Table JobRow)
    → lookup id jobs ≡ some job
    → open_jobs (modify id f jobs) + open_job job.status ≡ open_jobs jobs + open_job (f job).status
open_jobs-modify id f job [] e = ground (arith, e)
open_jobs-modify id f job ((j, row) ∷ jobs) e = elim (Bool-cases (j == id)) [
  | inl found ↦ ground (arith, found, e)
  | inr other ↦ ground (arith, other, e, open_jobs-modify id f job jobs)
]

enqueue_at-Inv :
    (n now : ℕ) (db : Db) (o : Option QueueState)
    → db.queue_state ≡ o
    → Inv n db
    → Inv n (enqueue_at now db o).1
enqueue_at-Inv n now db none e v = v
enqueue_at-Inv n now db (some st) e v = elim (Bool-cases (ltb st.pending_count st.capacity)) [
  | inl room ↦
      let same = some_same (sym v.has_state ∙ e) in
      rw room (record {
        state = record st { pending_count = st.pending_count + 1 };
        has_state = refl;
        same_capacity = ap (λ x. x.capacity) (sym same) ∙ v.same_capacity;
        counted = ground (
          arith,
          ap (λ x. x.pending_count) same,
          v.counted,
          open_jobs-append db.jobs ((db.next_id, new_job now) ∷ []),
        );
        within = ground (arith, room, ap (λ x. x.capacity) same, v.same_capacity);
        below = append_new-Below db.next_id (new_job now) db.jobs v.below;
        distinct = append_new-Distinct db.next_id (new_job now) db.jobs v.below v.distinct;
      })
  | inr full ↦ rw full v
]

enqueue-Inv : (n now : ℕ) (db : Db) → Inv n db → Inv n (enqueue now db).1
unfolding enqueue
enqueue-Inv n now db v = enqueue_at-Inv n now db db.queue_state refl v

claim_at-Inv :
    (n worker_id : ℕ) (locked : ℕ → Bool) (db : Db) (c : Option (ℕ × JobRow))
    → candidate locked db.jobs ≡ c
    → Inv n db
    → Inv n (claim_at worker_id db c).1
claim_at-Inv n w locked db none e v = v
claim_at-Inv n w locked db (some (id, job)) e v =
    let found = candidate-lookup locked id job db.jobs v.distinct e in
    let was = pending_open job.status (candidate-pending locked id job db.jobs e) in
    record {
      state = v.state;
      has_state = v.has_state;
      same_capacity = v.same_capacity;
      counted = ground (arith, v.counted, was, open_jobs-modify id (started w) job db.jobs found);
      within = v.within;
      below = modify-Below db.next_id id (started w) db.jobs v.below;
      distinct = modify-Distinct id (started w) db.jobs v.distinct;
    }

complete_job-Inv :
    (n id : ℕ) (job : JobRow) (db : Db)
    → lookup id db.jobs ≡ some job
    → job.status ≡ processing
    → Inv n db
    → Inv n (complete_job id db)
unfolding complete_job
complete_job-Inv n id job db found p v = record {
  state = record v.state { pending_count = v.state.pending_count - 1 };
  has_state = rw v.has_state refl;
  same_capacity = v.same_capacity;
  counted =
      ground (arith, v.counted, ap open_job p, open_jobs-modify id finished job db.jobs found);
  within = omega (arith, v.within);
  below = modify-Below db.next_id id finished db.jobs v.below;
  distinct = modify-Distinct id finished db.jobs v.distinct;
}

Step-Inv : {n : ℕ} {db u : Db} → Step db u → Inv n db → Inv n u
unfolding claim_one_job
Step-Inv {n} {db} (enqueues now e) v = rw e (enqueue-Inv n now db v)
Step-Inv {n} {db} (claims locked w e) v =
    rw e (claim_at-Inv n w locked db (candidate locked db.jobs) refl v)
Step-Inv {n} {db} (completes id job l p e) v = rw e (complete_job-Inv n id job db l p v)

Reach-Inv : {n : ℕ} {db u : Db} → Reach db u → Inv n db → Inv n u
Reach-Inv here v = v
Reach-Inv (next r s) v = Step-Inv s (Reach-Inv r v)

reset_queue_state-Inv : (n : ℕ) (db start : Db) → reset_queue_state n db ≡ some start → Inv n start
unfolding reset_queue_state
reset_queue_state-Inv zero db start e = ground (arith, e)
reset_queue_state-Inv (suc c) db start e = subst (Inv (suc c)) (some_same e) (record {
  state = record { capacity = suc c; pending_count = 0 };
  has_state = refl;
  same_capacity = refl;
  counted = refl;
  within = omega arith;
  below = tt;
  distinct = tt;
})

enqueue_decides :
    (n now : ℕ) (db : Db) → Inv n db → (enqueue now db).0.accepted ≡ ltb (open_jobs db.jobs) n
unfolding enqueue
enqueue_decides n now db v = rw v.has_state (ground (arith, v.counted, v.same_capacity))

-- From a reset of the queue to capacity `n`, whatever the order in which producers enqueue, workers
-- claim under SKIP LOCKED, and jobs that are being processed are completed: the jobs that are
-- pending or processing are never more than `n`, and the next `enqueue` is accepted exactly when
-- they are fewer than `n`.
pub Reach-capacity :
    (n now : ℕ) (db start u : Db)
    → reset_queue_state n db ≡ some start
    → Reach start u
    → (open_jobs u.jobs ≤ n) × ((enqueue now u).0.accepted ≡ ltb (open_jobs u.jobs) n)
Reach-capacity n now db start u e r =
    let v = Reach-Inv r (reset_queue_state-Inv n db start e) in
    (omega (arith, v.within, v.counted), enqueue_decides n now u v)
