-- ===== src/Saga.antt =====
-- The order saga of labs/20-sagas-and-distributed-workflows/src: its steps, each one transaction
-- (domain/), the coordinator that calls them (orchestration/), and the same steps as reactions to
-- events (choreography/).
pub mod Db
pub mod RunStep
pub mod Steps
pub mod Compensating
pub mod Orchestrator
pub mod Choreography
pub mod Spec
pub mod Refinement
pub mod Restores
mod Tests
