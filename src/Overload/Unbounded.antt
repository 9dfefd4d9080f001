-- ===== src/Overload/Unbounded.antt =====
-- labs/36-rate-limiting-and-backpressure/src/backpressure/unbounded-inprocess-queue.ts: the queue
-- without a capacity, and its consumer, which awaits once in each round of its loop.
use systems_engineering_lab.Prelude.{
  ℕ, zero, suc, ◌+◌, ◌-◌, Bool, Option, none, some, List, [], ◌∷◌, ◌++◌, if◌then◌else◌, length,
}

pub record QueueTask : Type 0 where
  pub id : ℕ
  pub submitted_at : ℕ

pub record UnboundedQueue : Type 0 where
  pub items : List QueueTask

abbrev pub queue_length : UnboundedQueue → ℕ
queue_length q = length q.items

abbrev pub push : QueueTask → UnboundedQueue → UnboundedQueue
push task q = record { items = q.items ++ task ∷ [] }

abbrev pub shifted : List QueueTask → Option QueueTask × UnboundedQueue
shifted [] = (none, record { items = [] })
shifted (task ∷ items) = (some task, record { items = items })

abbrev pub shift : UnboundedQueue → Option QueueTask × UnboundedQueue
shift q = shifted q.items

pub record ConsumerStats : Type 0 where
  pub processed_count : ℕ
  pub wait_times_ms : List ℕ

-- What goes on around the consumer: the tasks that producers push during the n-th await, whether
-- `shouldStop` says so in the n-th round, and the clock after the n-th await.
pub record Producers : Type 0 where
  pub pushes : ℕ → List QueueTask
  pub should_stop : ℕ → Bool
  pub clock : ℕ → ℕ

abbrev pub push_all : List QueueTask → UnboundedQueue → UnboundedQueue
push_all [] q = q
push_all (task ∷ tasks) q = push_all tasks (push task q)

abbrev pub task_processed : ℕ → QueueTask → ConsumerStats → ConsumerStats
task_processed now task stats = record {
  processed_count = stats.processed_count + 1;
  wait_times_ms = stats.wait_times_ms ++ (now - task.submitted_at) ∷ [];
}

-- A round once `shift` has answered.
abbrev pub consume :
    Producers
    → ℕ
    → (ConsumerStats → UnboundedQueue → Option (ConsumerStats × UnboundedQueue))
    → ConsumerStats
    → Option QueueTask × UnboundedQueue
    → Option (ConsumerStats × UnboundedQueue)
consume w n rest stats (none, q) =
    let again = rest stats (push_all (w.pushes n) q) in
    if w.should_stop n then some (stats, q) else again
consume w n rest stats (some task, q) =
    rest (task_processed (w.clock n) task stats) (push_all (w.pushes n) q)

-- `runSlowConsumer` from round `n` on; none when its rounds are used up.
unfoldable pub run_slow_consumer :
    ℕ → Producers → ℕ → ConsumerStats → UnboundedQueue → Option (ConsumerStats × UnboundedQueue)
run_slow_consumer zero w n stats q = none
run_slow_consumer (suc rounds) w n stats q =
    consume w n (run_slow_consumer rounds w (suc n)) stats (shift q)
