-- ===== src/Saga/Steps.antt =====
-- domain/types.ts and domain/steps.ts.
use Prim.Native.String.{String}
use systems_engineering_lab.Prelude.{
  ℕ, suc, ◌-◌, Bool, false, none, some, [], ◌∷◌, ◌++◌, if◌then◌else◌, ltb, not,
}
use systems_engineering_lab.Prelude.Table.{modify}
use systems_engineering_lab.Saga.Db.{
  Order, OrderStatus, pending, completed, InventoryItem, InventoryReservation, reserved, Payment,
  captured, Tables, create_order, reserve_inventory, capture_payment, create_shipment, Mechanism,
  Direction, forward, LogName, step, complete_order, success, failure, Db, saga_step_error,
  unknown_sku, insufficient_inventory, check_violation, foreign_key_violation, Result, ok, throws,
  Action, Work, references_order, insert_saga_log, find_item, pure, ◌>>=◌, ◌>>◌,
}
use systems_engineering_lab.Saga.RunStep.{
  StepOutcome, succeeded, failed, RunStepParams, log_row, roll_back, throw_if, run_work, run_step,
}

pub record OrderSagaInput : Type 0 where
  pub customer_name : String
  pub amount_cents : ℕ
  pub item_sku : String
  pub quantity : ℕ

pub record OrderRef : Type 0 where
  pub id : ℕ
  pub public_id : String

pub record ReservationRef : Type 0 where
  pub reservation_id : ℕ
  pub item_id : ℕ
  pub quantity : ℕ

pub record PaymentRef : Type 0 where
  pub payment_id : ℕ

pub record ShipmentRef : Type 0 where
  pub shipment_id : ℕ

-- INSERT INTO orders … RETURNING id, public_id; the column's check wants a positive amount.
unfoldable pub insert_order : String → ℕ → Work OrderRef
insert_order customer_name amount_cents t =
    let id = t.sequences.next_order in
    let public_id = t.sequences.public_id_of id in
    let drawn : Tables = record t { sequences = record (t.sequences) { next_order = suc id } } in
    let order : Order = record {
      public_id = public_id;
      customer_name = customer_name;
      amount_cents = amount_cents;
      status = pending;
    } in
    if ltb 0 amount_cents
    then (
      ok (record { id = id; public_id = public_id }),
      record drawn { orders = t.orders ++ (id, order) ∷ [] },
    )
    else (throws check_violation, drawn)

create_order_body : Mechanism → OrderSagaInput → Bool → Action OrderRef
unfolding insert_order insert_saga_log
create_order_body mechanism input simulate_failure = do
  throw_if simulate_failure (saga_step_error (step create_order))
  row ← run_work (insert_order input.customer_name input.amount_cents)
  insert_saga_log (log_row (some row.id) mechanism (step create_order) forward success)
  pure row

create_order_ended : Mechanism → Db → Result OrderRef × Db → Result (StepOutcome OrderRef) × Db
unfolding insert_saga_log
create_order_ended mechanism before (ok row, db) = (ok (succeeded row), db)
create_order_ended mechanism before (throws reason, db) =
    (insert_saga_log (log_row none mechanism (step create_order) forward failure)
        >> pure (failed reason))
      (roll_back before db)

unfoldable pub create_order_step : Mechanism → OrderSagaInput → Bool → Action (StepOutcome OrderRef)
unfolding create_order_body create_order_ended
create_order_step mechanism input simulate_failure db =
    create_order_ended mechanism db (create_order_body mechanism input simulate_failure db)

-- The statements of `reserveInventoryStep` once the item is found.
unfoldable pub reserve_item : ℕ → ℕ → ℕ × InventoryItem → Work ReservationRef
reserve_item order_id quantity (item_id, item) t =
    let id = t.sequences.next_reservation in
    let updated : Tables = record t {
      inventory_items =
          modify item_id (λ i. record i { available_quantity = i.available_quantity - quantity })
            t.inventory_items;
      sequences = record (t.sequences) { next_reservation = suc id };
    } in
    let reservation : InventoryReservation = record {
      order_id = order_id;
      item_id = item_id;
      quantity = quantity;
      status = reserved;
    } in
    if ltb item.available_quantity quantity
    then (throws insufficient_inventory, t)
    else if not (ltb 0 quantity)
    then (throws check_violation, updated)
    else if not (references_order (some order_id) t)
    then (throws foreign_key_violation, updated)
    else (
      ok (record { reservation_id = id; item_id = item_id; quantity = quantity }),
      record updated {
        inventory_reservations = t.inventory_reservations ++ (id, reservation) ∷ [];
      },
    )

unfoldable pub reserve_work : ℕ → String → ℕ → Work ReservationRef
unfolding reserve_item
reserve_work order_id item_sku quantity t = elim (find_item item_sku t.inventory_items) [
  | none ↦ (throws unknown_sku, t)
  | some found ↦ reserve_item order_id quantity found t
]

abbrev pub params : ℕ → Mechanism → LogName → Direction → Bool → RunStepParams
params order_id mechanism step_name direction simulate_failure = record {
  order_id = order_id;
  mechanism = mechanism;
  step_name = step_name;
  direction = direction;
  simulate_failure = simulate_failure;
}

unfoldable pub reserve_inventory_step :
    Mechanism → OrderRef → String → ℕ → Bool → Action (StepOutcome ReservationRef)
reserve_inventory_step mechanism order item_sku quantity simulate_failure =
    run_step (params order.id mechanism (step reserve_inventory) forward simulate_failure)
      (reserve_work order.id item_sku quantity)

unfoldable pub capture_work : ℕ → ℕ → Work PaymentRef
capture_work order_id amount_cents t =
    let id = t.sequences.next_payment in
    let drawn : Tables = record t { sequences = record (t.sequences) { next_payment = suc id } } in
    let payment : Payment = record {
      order_id = order_id;
      amount_cents = amount_cents;
      status = captured;
    } in
    if not (ltb 0 amount_cents)
    then (throws check_violation, drawn)
    else if not (references_order (some order_id) t)
    then (throws foreign_key_violation, drawn)
    else (
      ok (record { payment_id = id }),
      record drawn { payments = t.payments ++ (id, payment) ∷ [] },
    )

unfoldable pub capture_payment_step :
    Mechanism → OrderRef → ℕ → Bool → Action (StepOutcome PaymentRef)
capture_payment_step mechanism order amount_cents simulate_failure =
    run_step (params order.id mechanism (step capture_payment) forward simulate_failure)
      (capture_work order.id amount_cents)

unfoldable pub shipment_work : ℕ → Work ShipmentRef
shipment_work order_id t =
    let id = t.sequences.next_shipment in
    let drawn : Tables = record t { sequences = record (t.sequences) { next_shipment = suc id } } in
    if not (references_order (some order_id) t) then (throws foreign_key_violation, drawn) else (
      ok (record { shipment_id = id }),
      record drawn { shipments = t.shipments ++ (id, record { order_id = order_id }) ∷ [] },
    )

unfoldable pub create_shipment_step : Mechanism → OrderRef → Bool → Action (StepOutcome ShipmentRef)
create_shipment_step mechanism order simulate_failure =
    run_step (params order.id mechanism (step create_shipment) forward simulate_failure)
      (shipment_work order.id)

-- UPDATE orders SET status = $2 WHERE id = $1
unfoldable pub set_order_status : OrderStatus → ℕ → Work (Unit {0})
set_order_status status order_id t =
    (ok tt, record t { orders = modify order_id (λ o. record o { status = status }) t.orders })

unfoldable pub complete_order_step : Mechanism → ℕ → Action (StepOutcome (Unit {0}))
complete_order_step mechanism order_id =
    run_step (params order_id mechanism complete_order forward false)
      (set_order_status completed order_id)
