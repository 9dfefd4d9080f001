-- ===== src/Saga/Orchestrator.antt =====
-- The orchestrated saga: orchestration/orchestrator.ts and orchestration/compensation.ts.
use systems_engineering_lab.Prelude.{ℕ, Bool, true, false, Option, some}
use systems_engineering_lab.Saga.Db.{
  StepName, create_order, reserve_inventory, capture_payment, create_shipment, orchestration, Error,
  Action, pure, ◌>>=◌, ◌>>◌,
}
use systems_engineering_lab.Saga.Steps.{
  OrderSagaInput, OrderRef, ReservationRef, PaymentRef, create_order_step, reserve_inventory_step,
  capture_payment_step, create_shipment_step, complete_order_step,
}
use systems_engineering_lab.Saga.RunStep.{StepOutcome, succeeded, failed}
use systems_engineering_lab.Saga.Compensating.{
  refund_payment_step, release_inventory_step, cancel_order_step,
}

-- `opts.failAtStep === name`
abbrev pub is_step : StepName → Option StepName → Bool
is_step create_order (some create_order) = true
is_step reserve_inventory (some reserve_inventory) = true
is_step capture_payment (some capture_payment) = true
is_step create_shipment (some create_shipment) = true
is_step _ _ = false

pub data SagaResult : Type 0 where
  completed : OrderRef → SagaResult
  compensated : OrderRef → StepName → Error → SagaResult
  aborted : Error → SagaResult

unfoldable pub refund_payment : ℕ → PaymentRef → Action (StepOutcome (Unit {0}))
refund_payment = refund_payment_step orchestration

unfoldable pub release_inventory : ℕ → ReservationRef → Action (StepOutcome (Unit {0}))
release_inventory = release_inventory_step orchestration

unfoldable pub cancel_order : ℕ → Action (StepOutcome (Unit {0}))
cancel_order = cancel_order_step orchestration

-- `runOrderSaga` from the result of `createShipment` on.
unfoldable pub after_shipment {ℓ} :
    {A : Type ℓ} → OrderRef → ReservationRef → PaymentRef → StepOutcome A → Action SagaResult
unfolding refund_payment release_inventory cancel_order
after_shipment order reservation payment (failed reason) = do
  refund_payment order.id payment
  release_inventory order.id reservation
  cancel_order order.id
  pure (compensated order create_shipment reason)
after_shipment order reservation payment (succeeded shipment) = do
  complete_order_step orchestration order.id
  pure (completed order)

unfoldable pub after_payment :
    Option StepName → OrderRef → ReservationRef → StepOutcome PaymentRef → Action SagaResult
unfolding release_inventory cancel_order
after_payment fail_at order reservation (failed reason) = do
  release_inventory order.id reservation
  cancel_order order.id
  pure (compensated order capture_payment reason)
after_payment fail_at order reservation (succeeded payment) = do
  shipment_result ← create_shipment_step orchestration order (is_step create_shipment fail_at)
  after_shipment order reservation payment shipment_result

unfoldable pub after_reserve :
    OrderSagaInput → Option StepName → OrderRef → StepOutcome ReservationRef → Action SagaResult
unfolding cancel_order
after_reserve input fail_at order (failed reason) = do
  cancel_order order.id
  pure (compensated order reserve_inventory reason)
after_reserve input fail_at order (succeeded reservation) = do
  payment_result ←
      capture_payment_step orchestration order input.amount_cents (is_step capture_payment fail_at)
  after_payment fail_at order reservation payment_result

unfoldable pub after_create :
    OrderSagaInput → Option StepName → StepOutcome OrderRef → Action SagaResult
after_create input fail_at (failed reason) = pure (aborted reason)
after_create input fail_at (succeeded order) = do
  reserve_result ←
      reserve_inventory_step orchestration order input.item_sku input.quantity
        (is_step reserve_inventory fail_at)
  after_reserve input fail_at order reserve_result

unfoldable pub run_order_saga : OrderSagaInput → Option StepName → Action SagaResult
run_order_saga input fail_at = do
  create_result ← create_order_step orchestration input (is_step create_order fail_at)
  after_create input fail_at create_result
