-- ===== src/Lib.antt =====
-- A verification library for the labs of this repository: small TypeScript systems, each with its
-- tables in PostgreSQL or its keys in Redis, that show one mechanism of a distributed system.
--
-- The parts, each in the directory of its name under this file:
--
-- - JobQueue: labs/14-job-queue-skip-locked/src/queue, the files types.ts, claim.ts, process.ts and
--   worker.ts. `Queue` is the tables `jobs` and `job_attempts`; `claimJob`, `completeJob` and
--   `failJob` are `claim_job`, `complete_job` and `fail_job`, one transaction each, and
--   `runWorkerUntilEmpty` is `run_worker_until_empty`. A worker claims a job for a lease, processes
--   it and reports; a job whose lease is over can be claimed again.
-- - Saga: labs/20-sagas-and-distributed-workflows/src, the order saga. Db has the tables, the log
--   and the monad of actions on them; RunStep is `runStep`, under which Steps and Compensating
--   have the forward and compensating steps of domain/; Orchestrator is `runOrderSaga`;
--   Choreography is the event bus with its registered handlers and `runChoreographedOrderSaga`.
--   Spec says what a saga is meant to do to the business tables, with no log and no events, and
--   Refinement is about both ways of running it and that. Restores is about the stock after a
--   compensated saga.
-- - Lease: labs/22-redis-leases-and-distributed-locks/src/redis-lock: `acquireLock`, `releaseLock`,
--   `releaseLockUnsafeGetThenDel`, `renewLock`, `acquireLockWithFencingToken` and the fenced write
--   of `resource_state`. Redis is an interface, the record `Redis` in Lease/Redis.antt, with the
--   commands that the code calls and what Redis documents of them; Lease/Memory.antt is an instance.
-- - Overload: labs/36-rate-limiting-and-backpressure/src: the bounded queue (Queue, Backlog), the
--   unbounded one (Unbounded, Drained), the `BoundedResource` of downstream/slow-downstream.ts (Slots,
--   Handover), the token bucket (TokenBucket, Admitted) and the sliding window (SlidingWindow, Window).
-- - Breaker, Downstream and Retry: labs/37-retries-timeouts-and-circuit-breakers/src. Breaker is the
--   class `CircuitBreaker`, with `execute` split at its await into `begin` and `settle`; Downstream
--   is the simulated dependency with its idempotent charges and its generator of random numbers;
--   Retry is `retryWithBackoff`, `exponentialCap` and `withTimeout`.
-- - Capstone: labs/40-production-capstone/src: the reservation of a seat, the checkout under an
--   idempotency key and the naive one (Checkout), and the claims of the outbox (Outbox). Steps has
--   any order of these transactions, Cases how they end.
-- - Tickets: labs/12-ticket-reservation-system/src/scenarios: the conditional reservation and the one
--   under a row lock, the expiry of holds, and the payment. Rows says what each does to one row.
-- - Cache: labs/21-cache-aside-and-cache-stampede/src/cache/request-coalescing.ts, `getProduct` by
--   its awaits; Steps has any order of calls and replies.
-- - Relay: labs/17-outbox-workers-skip-locked/src/queue. Claims has `claimNextEvent`, `markPublished`,
--   `markPublishFailed` and `claimAndPublish`; Broker is `createSimulatedBroker`; Consumer is
--   `consumeIdempotently`. Steps has publishers that run at once, by their awaits, and Turns puts a
--   turn of `claimAndPublish` together from them.
-- - Intents: labs/16-transactional-outbox/src: `performTransactionalOrderCreation`, the two naive dual
--   writes, and (Drain) `drainOutbox`. Paired is about the orders and their events, Once and Emptied
--   about one drain after another.
-- - Deadlock: labs/32-deadlocks-and-lock-debugging/src/lib: `planLeg`, the statements of
--   `runLegAttempt` under row locks (Steps), who waits for whom, the barrier of sync.ts,
--   `isTwoCycleBetween` and `runLegWithRetry` (Retries). Ordered, Progress and Ended are about the
--   consistent order, Naive and Barrier about what goes wrong without it, Money about the balances.
-- - Emails: packages/data-generators/src/unique-email.ts, `toUniqueEmail` on strings of code units.
-- - Inbox: labs/18-inbox-pattern-and-idempotent-consumers/src/scenarios: the consumers of credit
--   messages. `Tables` is `accounts` and the keys of `processed_messages`; `applyIdempotent`,
--   `applyNaive` and `applyRacy` are `apply_idempotent`, `apply_naive` and the two steps
--   `racy_check` and `racy_write`.
-- - Delivery: labs/19-message-delivery-semantics/src: `sendOnce` and `sendWithRetry` over a scripted
--   network, the two receivers, and the scenarios that put a sender and a receiver together.
-- - Pages: labs/34-pagination-at-scale/src/scenarios/pagination-lib.ts: `runOffsetPage`,
--   `runKeysetPage` and `getCursorAtOffset`, over a table that may change between two pages.
-- - Backfill: labs/30-large-table-backfills/src/scenarios: `backfillLoyaltyPoints`, a batch at a
--   time, with its simulated crash, and the one UPDATE of `runNaiveGiantUpdate`.
-- - Prelude: what the parts share. Prelude/Table.antt is the table of a database,
--   Prelude/Unique.antt a column with a unique constraint.
--
-- How the code is modelled:
--
-- - An asynchronous function is split at each await during which other calls may run; the parts are
--   the steps of a relation wherever an order matters (Breaker/Interleaving, JobQueue/Holders,
--   Overload/Backlog, Overload/Handover, Capstone/Steps, Cache/Steps, Relay/Steps, Deadlock/Steps).
-- - A transaction is one function on the tables. A conditional UPDATE of one row is `modify`. The
--   rows that SKIP LOCKED passes over, because other transactions hold them, are an argument, and
--   so is the clock. Timestamps that no test reads, details and log lines are left out.
-- - Errors are values: a step of a saga succeeds or fails with an error, an attempt returns or
--   throws, an acquisition is refused.
-- - Identities, tokens and callers are natural numbers, since the code only compares them. Numbers
--   do not overflow: the counters of the tables are far below the range of an int4. Fractions are
--   kept exact: a delay is a number of units of 2^-32 of its cap, a rate is in percent, the tokens
--   of a bucket are in thousandths. The generator of random numbers keeps its 32-bit wrap-around.
-- - Logs that the code appends to (the saga log, the breaker's changes, the call log) stand newest
--   first.
-- - The row lock of PostgreSQL is: one transaction has it until it ends, others that ask for it wait,
--   and one transaction of a cycle of waiting ones may be aborted. The orders of lab 16 and
--   the transfers of lab 32 refuse an amount that the integer column cannot hold.
--
-- Bounds: `retry_from` recurs on the rounds that are left, `maxAttempts` at first. The nesting of
-- `publish` in the choreographed saga is limited by an argument of `run_choreographed_order_saga`;
-- the handlers publish one event each, and the longest cascade of them is seven deep.
-- `run_worker_until_empty` runs on fuel; a claim uses up one of the attempts that a job has left,
-- so the attempts left in the table, and one more round, are enough. `run_bounded_queue_worker`
-- runs on fuel too, and gives none when it is used up, since a worker polls for as long as it is
-- not told to stop. `run_slow_consumer` has an argument of rounds; a round processes a task or
-- waits, so the tasks, the rounds until it is told to stop, and one more round, are enough.
-- `send_from` recurs on the attempts that are left, `maxAttempts` at first.
-- `backfill_loyalty_points` has an argument of rounds; each batch fills a row, so the rows without
-- points, and one more round, are enough. `retry_leg` recurs on the attempts that are left.
-- `first_free` has an argument of rounds; the suffixes it tries give different emails, so more
-- rounds than there are used emails are enough. `decimal_from` recurs on the digits that may be
-- left, more than the number has.
--
-- Not modelled: the scenario scripts, seeds, migrations and clients, which only set up, time and
-- log runs of the code above; lost connections; the explained and timed queries of lab 34; the
-- publisher loops of lab 40; the naive reservation of lab 12; the other caches of lab 21; the
-- payments of lab 15; the catalog queries of lab 32; and the other labs, most of which are SQL
-- scripts that show a behaviour of PostgreSQL itself.
pub mod Prelude
pub mod Breaker
pub mod Retry
pub mod Downstream
pub mod Saga
pub mod JobQueue
pub mod Lease
pub mod Overload
pub mod Delivery
pub mod Inbox
pub mod Pages
pub mod Backfill
pub mod Capstone
pub mod Tickets
pub mod Cache
pub mod Relay
pub mod Intents
pub mod Deadlock
pub mod Emails
