-- ===== src/Saga/Spec.antt =====
-- What a saga is to do to the business tables, with no log, no exception and no mechanism: each
-- step is attempted once, and the compensations are plain updates. Both mechanisms are measured
-- against `order_saga`.
use systems_engineering_lab.Prelude.{ℕ, Bool, true, false, Option}
use systems_engineering_lab.Saga.Db.{
  StepName, create_order, reserve_inventory, capture_payment, create_shipment, LogName, step,
  completed, cancelled, Tables, saga_step_error, Result, ok, throws, Work,
}
use systems_engineering_lab.Saga.Steps.{
  OrderSagaInput, OrderRef, ReservationRef, PaymentRef, ShipmentRef, insert_order, reserve_work,
  capture_work, shipment_work, set_order_status,
}
use systems_engineering_lab.Saga.RunStep.{StepOutcome, succeeded, failed}
use systems_engineering_lab.Saga.Compensating.{refund_work, release_work}
use systems_engineering_lab.Saga.Orchestrator.{SagaResult, compensated, aborted, is_step}
use systems_engineering_lab.Saga.Orchestrator

abbrev pub keep_numbers {ℓ} : {A : Type ℓ} → Tables → Result A × Tables → StepOutcome A × Tables
keep_numbers before (ok a, t) = (succeeded a, t)
keep_numbers before (throws e, t) = (failed e, record before { sequences = t.sequences })

-- All of a step's statements, or none of them: a failed attempt leaves only its drawn numbers.
unfoldable pub attempt {ℓ} :
    {A : Type ℓ} → Bool → LogName → Work A → Tables → StepOutcome A × Tables
attempt true name work t = (failed (saga_step_error name), t)
attempt false name work t = keep_numbers t (work t)

abbrev pub cancel : ℕ → Tables → Tables
cancel id t = (set_order_status cancelled id t).1

abbrev pub release : ReservationRef → Tables → Tables
release r t = (release_work r t).1

abbrev pub refund : PaymentRef → Tables → Tables
refund p t = (refund_work p t).1

abbrev pub complete : ℕ → Tables → Tables
complete id t = (set_order_status completed id t).1

unfoldable pub shipped :
    OrderRef → ReservationRef → PaymentRef → StepOutcome ShipmentRef × Tables → SagaResult × Tables
shipped order r p (failed reason, t) =
    (compensated order create_shipment reason, cancel order.id (release r (refund p t)))
shipped order r p (succeeded shipment, t) = (Orchestrator.completed order, complete order.id t)

unfoldable pub paid :
    Option StepName
    → OrderRef
    → ReservationRef
    → StepOutcome PaymentRef × Tables
    → SagaResult × Tables
unfolding shipped
paid fail_at order r (failed reason, t) =
    (compensated order capture_payment reason, cancel order.id (release r t))
paid fail_at order r (succeeded p, t) =
    shipped order r p
      (attempt (is_step create_shipment fail_at) (step create_shipment) (shipment_work order.id) t)

unfoldable pub stocked :
    OrderSagaInput
    → Option StepName
    → OrderRef
    → StepOutcome ReservationRef × Tables
    → SagaResult × Tables
unfolding paid
stocked input fail_at order (failed reason, t) =
    (compensated order reserve_inventory reason, cancel order.id t)
stocked input fail_at order (succeeded r, t) = paid fail_at order r (
    attempt (is_step capture_payment fail_at) (step capture_payment)
      (capture_work order.id input.amount_cents) t)

unfoldable pub ordered :
    OrderSagaInput → Option StepName → StepOutcome OrderRef × Tables → SagaResult × Tables
unfolding stocked
ordered input fail_at (failed reason, t) = (aborted reason, t)
ordered input fail_at (succeeded order, t) = stocked input fail_at order (
    attempt (is_step reserve_inventory fail_at) (step reserve_inventory)
      (reserve_work order.id input.item_sku input.quantity) t)

unfoldable pub order_saga : OrderSagaInput → Option StepName → Tables → SagaResult × Tables
unfolding ordered attempt
order_saga input fail_at t = ordered input fail_at (
    attempt (is_step create_order fail_at) (step create_order)
      (insert_order input.customer_name input.amount_cents) t)
