-- ===== src/Overload/Drained.antt =====
-- That the consumer of the unbounded queue gets through what it is given.
use systems_engineering_lab.Prelude.{
  ℕ, zero, suc, ◌+◌, ◌<◌, ◌≡◌, refl, true, false, Option, none, some, List, [], ◌∷◌, arith, length,
  length-append,
}
use systems_engineering_lab.Overload.Unbounded.{
  QueueTask, UnboundedQueue, queue_length, push, ConsumerStats, Producers, push_all, task_processed,
  run_slow_consumer,
}

-- The tasks that are pushed in the rounds from `n` on, of which there are `left`.
abbrev pub pushed : Producers → ℕ → ℕ → ℕ
pushed w n zero = 0
pushed w n (suc left) = length (w.pushes n) + pushed w (suc n) left

-- The producers push nothing and the consumer is told to stop from round `n` on.
abbrev pub Quiet : Producers → ℕ → Type 0
Quiet w n = (m : ℕ) → (w.pushes (n + m) ≡ []) × (w.should_stop (n + m) ≡ true)

-- Before that, for `left` rounds, it is not told to stop.
abbrev pub Busy : Producers → ℕ → ℕ → Type 0
Busy w n zero = Quiet w n
Busy w n (suc left) = (w.should_stop n ≡ false) × Busy w (suc n) left

abbrev pub Drained : ℕ → Option (ConsumerStats × UnboundedQueue) → Type 0
Drained count none = ⊥
Drained count (some (stats, q)) = (stats.processed_count ≡ count) × (q.items ≡ [])

push_all-length :
    (tasks : List QueueTask) (q : UnboundedQueue)
    → queue_length (push_all tasks q) ≡ length tasks + queue_length q
push_all-length [] q = omega arith
push_all-length (task ∷ tasks) q =
    omega (arith, push_all-length tasks (push task q), length-append q.items (task ∷ []))

Quiet-suc : (w : Producers) (n : ℕ) → Quiet w n → Quiet w (suc n)
Quiet-suc w n h m = let e : suc n + m ≡ n + suc m = omega arith in rw e (h (suc m))

Quiet-here : (w : Producers) (n : ℕ) → Quiet w n → (w.pushes n ≡ []) × (w.should_stop n ≡ true)
Quiet-here w n h = let e : n ≡ n + 0 = omega arith in rw e (h 0)

Quiet-Drained :
    (rounds : ℕ) (w : Producers) (n count : ℕ) (stats : ConsumerStats) (items : List QueueTask)
    → Quiet w n
    → length items < rounds
    → stats.processed_count + length items ≡ count
    → Drained count (run_slow_consumer rounds w n stats (record { items = items }))
unfolding run_slow_consumer
Quiet-Drained zero w n count stats items q h e = absurd (omega arith)
Quiet-Drained (suc rounds) w n count stats [] q h e =
    rw ((Quiet-here w n q).1) (omega (arith, e), refl)
Quiet-Drained (suc rounds) w n count stats (task ∷ items) q h e = rw ((Quiet-here w n q).0) (
    Quiet-Drained rounds w (suc n) count (task_processed (w.clock n) task stats) items
      (Quiet-suc w n q) (omega (arith, h)) (omega (arith, e)))

Busy-Drained :
    (rounds : ℕ) (w : Producers) (n left count : ℕ) (stats : ConsumerStats) (items : List QueueTask)
    → Busy w n left
    → left + length items + pushed w n left < rounds
    → stats.processed_count + length items + pushed w n left ≡ count
    → Drained count (run_slow_consumer rounds w n stats (record { items = items }))
unfolding run_slow_consumer
Busy-Drained rounds w n zero count stats items b h e =
    Quiet-Drained rounds w n count stats items b (omega (arith, h)) (omega (arith, e))
Busy-Drained zero w n (suc left) count stats items b h e = absurd (omega arith)
Busy-Drained (suc rounds) w n (suc left) count stats [] b h e =
    let more = push_all-length (w.pushes n) (record { items = [] }) in
    rw (b.0) (
      Busy-Drained rounds w (suc n) left count stats
        (push_all (w.pushes n) (record { items = [] })).items b.1 (omega (arith, h, more))
        (omega (arith, e, more)))
Busy-Drained (suc rounds) w n (suc left) count stats (task ∷ items) b h e =
    let more = push_all-length (w.pushes n) (record { items = items }) in
    Busy-Drained rounds w (suc n) left count (task_processed (w.clock n) task stats)
      (push_all (w.pushes n) (record { items = items })).items b.1 (omega (arith, h, more))
      (omega (arith, e, more))

-- Let producers push whatever they like for `left` rounds, and nothing after, when the consumer is
-- told to stop. With more rounds than those and the tasks that are there or pushed, the consumer of
-- the unbounded queue returns, has processed each of these tasks, and leaves the queue empty.
pub run_slow_consumer-Drained :
    (rounds : ℕ) (w : Producers) (left : ℕ) (q : UnboundedQueue)
    → Busy w 0 left
    → left + queue_length q + pushed w 0 left < rounds
    → Drained
        (queue_length q + pushed w 0 left)
        (run_slow_consumer rounds w 0 (record { processed_count = 0; wait_times_ms = [] }) q)
run_slow_consumer-Drained rounds w left q b h =
    Busy-Drained rounds w 0 left (queue_length q + pushed w 0 left)
      (record { processed_count = 0; wait_times_ms = [] }) q.items b h (omega arith)
