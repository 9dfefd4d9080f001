-- ===== src/Saga/Compensating.antt =====
-- domain/compensating-steps.ts.
use systems_engineering_lab.Prelude.{ℕ, ◌+◌, false, none, some}
use systems_engineering_lab.Prelude.Table.{lookup, modify}
use systems_engineering_lab.Saga.Db.{
  cancelled, released, refunded, Mechanism, compensate, refund_payment, release_inventory,
  cancel_order, order_does_not_exist, ok, throws, Action, Work,
}
use systems_engineering_lab.Saga.RunStep.{StepOutcome, run_step}
use systems_engineering_lab.Saga.Steps.{
  OrderRef, ReservationRef, PaymentRef, params, set_order_status,
}

-- `fetchOrderById`
unfoldable pub fetch_order_by_id : ℕ → Action OrderRef
fetch_order_by_id order_id db = elim (lookup order_id db.tables.orders) [
  | none ↦ (throws order_does_not_exist, db)
  | some o ↦ (ok (record { id = order_id; public_id = o.public_id }), db)
]

unfoldable pub refund_work : PaymentRef → Work (Unit {0})
refund_work payment t = (
  ok tt,
  record t {
    payments = modify payment.payment_id (λ p. record p { status = refunded }) t.payments;
  },
)

unfoldable pub refund_payment_step : Mechanism → ℕ → PaymentRef → Action (StepOutcome (Unit {0}))
refund_payment_step mechanism order_id payment =
    run_step (params order_id mechanism refund_payment compensate false) (refund_work payment)

unfoldable pub release_work : ReservationRef → Work (Unit {0})
release_work r t = (
  ok tt,
  record t {
    inventory_items =
        modify r.item_id (λ i. record i { available_quantity = i.available_quantity + r.quantity })
          t.inventory_items;
    inventory_reservations =
        modify r.reservation_id (λ v. record v { status = released }) t.inventory_reservations;
  },
)

unfoldable pub release_inventory_step :
    Mechanism → ℕ → ReservationRef → Action (StepOutcome (Unit {0}))
release_inventory_step mechanism order_id reservation =
    run_step (params order_id mechanism release_inventory compensate false)
      (release_work reservation)

unfoldable pub cancel_order_step : Mechanism → ℕ → Action (StepOutcome (Unit {0}))
cancel_order_step mechanism order_id =
    run_step (params order_id mechanism cancel_order compensate false)
      (set_order_status cancelled order_id)
