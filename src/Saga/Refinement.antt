-- ===== src/Saga/Refinement.antt =====
-- Each mechanism carries out the specification `order_saga`, step by step; so both mechanisms do the
-- same to the business tables.
mod Rules
mod Orchestrated
mod Compensations
mod Choreographed
pub use Rules.{NumbersBelow}
pub use Orchestrated.{run_order_saga_refines}
pub use Choreographed.{run_choreographed_order_saga_refines, handle_of}
