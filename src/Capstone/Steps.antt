-- ===== src/Capstone/Steps.antt =====
-- Any order of the shop's transactions: reservations, checkouts under a key, and the publishers'.
use systems_engineering_lab.Prelude.{ℕ, Bool}
use systems_engineering_lab.Capstone.{Db, reserve_seat}
use systems_engineering_lab.Capstone.Checkout.{CheckoutInput, checkout_idempotent}
use systems_engineering_lab.Capstone.Outbox.{claim_next_event, mark_published, mark_publish_failed}

pub data Step (db : Db) : Db → Type 0 where
  reserving :
      (now token seat_id customer_id hold_minutes : ℕ)
      → Step db (reserve_seat now token seat_id customer_id hold_minutes db).1
  checking_out : (now key : ℕ) (i : CheckoutInput) → Step db (checkout_idempotent now key i db).1
  claiming :
      (now : ℕ) (locked : ℕ → Bool) (worker_id lease_ms : ℕ)
      → Step db (claim_next_event now locked worker_id lease_ms db).1
  publishing : (id worker_id : ℕ) → Step db (mark_published id worker_id db)
  failing : (id worker_id : ℕ) → Step db (mark_publish_failed id worker_id db)

-- Some steps, one after the other.
pub data Steps (db : Db) : Db → Type 0 where
  start : Steps db db
  after_step : {middle end : Db} → Steps db middle → Step middle end → Steps db end
