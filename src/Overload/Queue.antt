-- ===== src/Overload/Queue.antt =====
-- backpressure/bounded-queue.ts and the tables of db/schema.ts that it uses. Each function is one
-- transaction; the row of `queue_state` may be missing. The rows that other transactions hold are
-- an argument of the claim, and the time is one of `enqueue`.
use systems_engineering_lab.Prelude.{
  ℕ, zero, suc, ◌+◌, ◌-◌, Bool, true, false, not, ◌&&◌, Option, none, some, [], ◌∷◌, ◌++◌, ltb, leb,
  if◌then◌else◌,
}
use systems_engineering_lab.Prelude.Table.{Table, modify}

pub data JobStatus : Type 0 where
  pending : JobStatus
  processing : JobStatus
  completed : JobStatus

pub record JobRow : Type 0 where
  pub status : JobStatus
  pub worker_id : Option ℕ
  pub submitted_at : ℕ

pub record QueueState : Type 0 where
  pub capacity : ℕ
  pub pending_count : ℕ

pub record Db : Type 0 where
  pub queue_state : Option QueueState
  pub jobs : Table JobRow
  pub next_id : ℕ

-- The table's check refuses a capacity of 0.
unfoldable pub reset_queue_state : ℕ → Db → Option Db
reset_queue_state zero db = none
reset_queue_state (suc c) db =
    some
      (record db { queue_state = some (record { capacity = suc c; pending_count = 0 }); jobs = [] })

pub record EnqueueResult : Type 0 where
  pub accepted : Bool
  pub public_id : Option ℕ
  pub pending_count : ℕ
  pub capacity : ℕ

abbrev pub new_job : ℕ → JobRow
new_job now = record { status = pending; worker_id = none; submitted_at = now }

-- `enqueue`, by the row of `queue_state`. The identity of the new job stands for its public id.
abbrev pub enqueue_at : ℕ → Db → Option QueueState → EnqueueResult × Db
enqueue_at now db none =
    (record { accepted = false; public_id = none; pending_count = 0; capacity = 0 }, db)
enqueue_at now db (some st) =
    if ltb st.pending_count st.capacity
    then (
      record {
        accepted = true;
        public_id = some db.next_id;
        pending_count = st.pending_count + 1;
        capacity = st.capacity;
      },
      record {
        queue_state = some (record st { pending_count = st.pending_count + 1 });
        jobs = db.jobs ++ (db.next_id, new_job now) ∷ [];
        next_id = suc db.next_id;
      },
    )
    else (
      record {
        accepted = false;
        public_id = none;
        pending_count = st.pending_count;
        capacity = st.capacity;
      },
      db,
    )

unfoldable pub enqueue : ℕ → Db → EnqueueResult × Db
enqueue now db = enqueue_at now db db.queue_state

abbrev pub is_pending : JobStatus → Bool
is_pending pending = true
is_pending processing = false
is_pending completed = false

abbrev earlier : ℕ × JobRow → Option (ℕ × JobRow) → ℕ × JobRow
earlier c none = c
earlier c (some d) = if leb (c.1.submitted_at) (d.1.submitted_at) then c else d

-- WHERE status = 'pending' ORDER BY submitted_at FOR UPDATE SKIP LOCKED LIMIT 1
unfoldable pub candidate : (ℕ → Bool) → Table JobRow → Option (ℕ × JobRow)
candidate locked [] = none
candidate locked ((id, job) ∷ jobs) =
    let rest = candidate locked jobs in
    if is_pending job.status && not (locked id) then some (earlier (id, job) rest) else rest

abbrev pub started : ℕ → JobRow → JobRow
started worker_id job = record job { status = processing; worker_id = some worker_id }

abbrev pub claim_at : ℕ → Db → Option (ℕ × JobRow) → Option ℕ × Db
claim_at worker_id db none = (none, db)
claim_at worker_id db (some (id, job)) =
    (some id, record db { jobs = modify id (started worker_id) db.jobs })

unfoldable pub claim_one_job : (ℕ → Bool) → ℕ → Db → Option ℕ × Db
unfolding candidate
claim_one_job locked worker_id db = claim_at worker_id db (candidate locked db.jobs)

abbrev pub finished : JobRow → JobRow
finished job = record job { status = completed }

abbrev pub freed : Option QueueState → Option QueueState
freed none = none
freed (some st) = some (record st { pending_count = st.pending_count - 1 })

unfoldable pub complete_job : ℕ → Db → Db
complete_job job_id db = record db {
  queue_state = freed db.queue_state;
  jobs = modify job_id finished db.jobs;
}

-- What a worker meets: its id, `shouldStop`, the rows that others hold, and what others do to the
-- tables before each round, by the number of rounds that are left.
pub record Surroundings : Type 0 where
  pub worker_id : ℕ
  pub should_stop : ℕ → Bool
  pub locked : ℕ → ℕ → Bool
  pub others : ℕ → Db → Db

-- One round of the loop: whether it goes on, with the jobs processed so far.
abbrev pub round : Bool → ℕ → Option ℕ × Db → Bool × ℕ × Db
round stop processed_count (none, db) = (not stop, processed_count, db)
round stop processed_count (some id, db) = (true, processed_count + 1, complete_job id db)

abbrev pub go_on : (ℕ → Db → Option ℕ × Db) → Bool × ℕ × Db → Option ℕ × Db
go_on next (true, processed_count, db) = next processed_count db
go_on next (false, processed_count, db) = (some processed_count, db)

-- `runBoundedQueueWorker`, on fuel: none when the rounds are used up.
unfoldable pub run_bounded_queue_worker : Surroundings → ℕ → ℕ → Db → Option ℕ × Db
unfolding claim_one_job complete_job
run_bounded_queue_worker w zero processed_count db = (none, db)
run_bounded_queue_worker w (suc left) processed_count db = go_on (run_bounded_queue_worker w left) (
    round (w.should_stop left) processed_count
      (claim_one_job (w.locked left) w.worker_id (w.others left db)))
