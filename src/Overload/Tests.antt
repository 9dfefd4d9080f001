-- ===== src/Overload/Tests.antt =====
-- Runs of the bounded queue, the bounded resource and the token bucket.
use systems_engineering_lab.Prelude.{
  ℕ, ◌+◌, ◌*◌, ◌≤◌, ◌≡◌, ◌⊎◌, refl, Bool, true, false, none, some, [], ◌∷◌, arith, ltb, leb,
  if◌then◌else◌, length, keep,
}
use systems_engineering_lab.Overload.Queue.{
  Db, Surroundings, reset_queue_state, enqueue, claim_one_job, complete_job,
  run_bounded_queue_worker, candidate,
}
use systems_engineering_lab.Overload.Backlog.{
  here, next, enqueues, claims, open_jobs, Reach-capacity,
}
use systems_engineering_lab.Overload.Slots.{
  acquire, release, time_out, constructor, in_flight_count, waiting_count,
}
use systems_engineering_lab.Overload.Handover
use systems_engineering_lab.Overload.Handover.{
  World, init, Reach-slots, acquires, releases, times_out,
}
use systems_engineering_lab.Overload.TokenBucket.{TokenBucketConfig, Bucket, check, check_all}
use systems_engineering_lab.Overload.Unbounded.{QueueTask, Producers, run_slow_consumer}
use systems_engineering_lab.Overload.Drained.{Drained, run_slow_consumer-Drained}
use systems_engineering_lab.Overload.SlidingWindow
use systems_engineering_lab.Overload.Window
use systems_engineering_lab.Overload.Admitted.{sum, check_all_bounded}

abbrev old : Db
old = record { queue_state = none; jobs = []; next_id = 5 }

abbrev start : Db
start = record {
  queue_state = some (record { capacity = 1; pending_count = 0 });
  jobs = [];
  next_id = 5;
}

abbrev nobody : ℕ → Bool
nobody k = false

-- One job fills the queue, also while a worker has it.
Reach-capacity_example :
    let u = (claim_one_job nobody 7 (enqueue 10 start).1).1 in
    (open_jobs u.jobs ≤ 1) × ((enqueue 11 u).0.accepted ≡ ltb (open_jobs u.jobs) 1)
unfolding reset_queue_state
Reach-capacity_example =
    Reach-capacity 1 11 old start (claim_one_job nobody 7 (enqueue 10 start).1).1 refl
      (next (next here (enqueues 10 refl)) (claims nobody 7 refl))

abbrev alone : Surroundings
alone = record {
  worker_id = 7;
  should_stop = λ left. true;
  locked = λ left. nobody;
  others = λ left db. db;
}

drains : (run_bounded_queue_worker alone 2 0 (enqueue 10 start).1).0 ≡ some 1
unfolding run_bounded_queue_worker enqueue claim_one_job complete_job candidate
drains = refl

abbrev full : World
full = record {
  resource = record { capacity = 1; available_slots = 0; wait_queue = 2 ∷ 3 ∷ [] };
  holders = 1 ∷ [];
}

reaches_full : Handover.Reach (init 1) full
unfolding init constructor acquire
reaches_full =
    Handover.next (Handover.next (Handover.next Handover.here (acquires 1 refl)) (acquires 2 refl))
      (acquires 3 refl)

Reach-slots_example :
    (in_flight_count full.resource ≡ length full.holders)
    × (length full.holders ≤ 1)
    × ((waiting_count full.resource ≡ 0) ⊎ (length full.holders ≡ 1))
Reach-slots_example = Reach-slots 1 full reaches_full

first_come_first_served :
    release (time_out 2 full.resource)
    ≡ (some 3, record { capacity = 1; available_slots = 0; wait_queue = [] })
unfolding release time_out
first_come_first_served = refl

abbrev config : TokenBucketConfig
config = record { capacity = 2; refill_per_second = 10; cost = 1 }

-- Three requests at once and a fourth after 100 ms: three pass.
check_all_bounded_example :
    (check_all config 5000 (0 ∷ 0 ∷ 0 ∷ 100 ∷ []) none).0 * (config.cost * 1000)
    ≤ config.capacity * 1000 + sum (0 ∷ 0 ∷ 0 ∷ 100 ∷ []) * config.refill_per_second
check_all_bounded_example = check_all_bounded config 5000 (0 ∷ 0 ∷ 0 ∷ 100 ∷ []) (omega arith)

lets_three_pass : (check_all config 5000 (0 ∷ 0 ∷ 0 ∷ 100 ∷ []) none).0 ≡ 3
unfolding check
lets_three_pass = refl

abbrev idle : Bucket
idle = record { tokens = 0; last_refill_ms = 5000; expires_at = 65000 }

-- A caller whose clock is a second behind takes the time of the last refill back, and the time
-- since then is credited again: the next caller is let through on the clock that refused it.
slow_clock_refills_again :
    let empty : Bucket = record { tokens = 0; last_refill_ms = 5000; expires_at = 65000 } in
    let behind = check config 5000 4000 (some empty) in
    ((check config 5000 5000 (some empty)).0.allowed ≡ false)
    × (behind.0.allowed ≡ false)
    × ((check config 5000 5000 (some behind.1)).0.allowed ≡ true)
unfolding check
slow_clock_refills_again = (refl, refl, refl)

abbrev two_per_second : SlidingWindow.SlidingWindowConfig
two_per_second = record { window_ms = 1000; limit = 2 }

check_all_within_example :
    length (
      keep
        (SlidingWindow.in_window 1000 2400)
        (Window.check_all two_per_second
          (0 ∷ 500 ∷ 300 ∷ 1000 ∷ 200 ∷ [])
          (Window.begin two_per_second 300)).admitted)
    ≤ 2
unfolding SlidingWindow.check
check_all_within_example =
    Window.check_all_within two_per_second 300 (0 ∷ 500 ∷ 300 ∷ 1000 ∷ 200 ∷ []) 2400 (omega arith)

lets_four_pass :
    (Window.check_all two_per_second
      (0 ∷ 500 ∷ 300 ∷ 1000 ∷ 200 ∷ [])
      (Window.begin two_per_second 300)).admitted
    ≡ 2300 ∷ 2100 ∷ 800 ∷ 300 ∷ []
unfolding SlidingWindow.check
lets_four_pass = refl

abbrev task : ℕ → QueueTask
task n = record { id = n; submitted_at = 10 * n }

-- Two rounds in which a task is pushed; then the consumer is told to stop.
abbrev two_pushes : Producers
two_pushes = record {
  pushes = λ n. if ltb n 2 then task n ∷ [] else [];
  should_stop = λ n. leb 2 n;
  clock = λ n. 100 * n;
}

run_slow_consumer-Drained_example : Drained 3 (
    run_slow_consumer 6 two_pushes 0
      (record { processed_count = 0; wait_times_ms = [] })
      (record { items = task 9 ∷ [] }))
run_slow_consumer-Drained_example =
    run_slow_consumer-Drained 6 two_pushes 2 (record { items = task 9 ∷ [] })
      (refl, (refl, λ m. (ground arith, ground arith))) (omega arith)
