-- ===== src/Saga/Restores.antt =====
-- What a saga leaves in the tables when it does not complete.
mod Inventory
pub use Inventory.{compensated_restores_stock}
