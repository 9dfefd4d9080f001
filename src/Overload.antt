-- ===== src/Overload.antt =====
-- Rate limiting and backpressure: labs/36-rate-limiting-and-backpressure/src, the files
-- backpressure/bounded-queue.ts, backpressure/unbounded-inprocess-queue.ts,
-- downstream/slow-downstream.ts, rate-limit/token-bucket.ts and rate-limit/sliding-window.ts.
pub mod Queue
pub mod Backlog
pub mod Slots
pub mod Handover
pub mod TokenBucket
pub mod Admitted
pub mod Unbounded
pub mod Drained
pub mod SlidingWindow
pub mod Window
mod Tests
