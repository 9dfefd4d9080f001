-- ===== src/Saga/Tests.antt =====
-- Runs of both sagas at concrete inputs.
use systems_engineering_lab.Prelude.{◌≡◌, refl, some, [], ◌∷◌, length}
use systems_engineering_lab.Prelude.Table.{lookup}
use systems_engineering_lab.Saga.Db.{
  Db, Tables, OrderStatus, ReservationStatus, PaymentStatus, create_shipment, step, saga_step_error,
  ok, insert_saga_log,
}
use systems_engineering_lab.Saga.Steps.{
  OrderSagaInput, create_order_step, reserve_inventory_step, capture_payment_step,
  create_shipment_step, insert_order, reserve_work, capture_work, shipment_work, set_order_status,
}
use systems_engineering_lab.Saga.RunStep.{run_step}
use systems_engineering_lab.Saga.Compensating.{
  refund_payment_step, refund_work, release_inventory_step, release_work, cancel_order_step,
  fetch_order_by_id,
}
use systems_engineering_lab.Saga.Orchestrator.{
  run_order_saga, after_create, after_reserve, after_payment, after_shipment, refund_payment,
  release_inventory, cancel_order,
}
use systems_engineering_lab.Saga.Choreography.{
  run_choreographed_order_saga, after_created, publish, subscriptions, handle, deliver,
}
use systems_engineering_lab.Saga.Spec.{order_saga}
use systems_engineering_lab.Saga.Refinement.{
  run_order_saga_refines, run_choreographed_order_saga_refines, handle_of,
}
use systems_engineering_lab.Saga.Restores.{compensated_restores_stock}

abbrev shop : Tables
shop = record {
  orders = [];
  inventory_items = (1, record { sku = "SKU-A"; available_quantity = 10 }) ∷ [];
  inventory_reservations = [];
  payments = [];
  shipments = [];
  sequences = record {
    next_order = 1;
    next_reservation = 1;
    next_payment = 1;
    next_shipment = 1;
    public_id_of = λ n. "uuid";
  };
}

abbrev input : OrderSagaInput
input = record { customer_name = "Ada"; amount_cents = 4999; item_sku = "SKU-A"; quantity = 3 }

abbrev fresh : Db
fresh = record { tables = shop; saga_log = [] }

abbrev cancelled_run : Tables
cancelled_run = record shop {
  orders =
      (
        1,
        record {
          public_id = "uuid";
          customer_name = "Ada";
          amount_cents = 4999;
          status = OrderStatus.cancelled;
        },
      )
      ∷ [];
  inventory_reservations =
      (1, record { order_id = 1; item_id = 1; quantity = 3; status = ReservationStatus.released })
      ∷ [];
  payments =
      (1, record { order_id = 1; amount_cents = 4999; status = PaymentStatus.refunded }) ∷ [];
  sequences = record (shop.sequences) { next_order = 2; next_reservation = 2; next_payment = 2 };
}

-- Seven rows of the log for the orchestrated saga, and twenty for the choreographed one.
orchestrated_run :
    let m = run_order_saga input (some create_shipment) fresh in
    (m.1.tables ≡ cancelled_run) × (length m.1.saga_log ≡ 7)
unfolding run_order_saga after_create after_reserve after_payment after_shipment create_order_step
    reserve_inventory_step capture_payment_step create_shipment_step run_step insert_order
    reserve_work capture_work shipment_work set_order_status refund_payment_step refund_work
    release_inventory_step release_work cancel_order_step refund_payment release_inventory
    cancel_order insert_saga_log
orchestrated_run = (refl, refl)

choreographed_run :
    let m = run_choreographed_order_saga input (some create_shipment) 7 fresh in
    (m.1.tables ≡ cancelled_run) × (length m.1.saga_log ≡ 20)
unfolding run_choreographed_order_saga after_created publish subscriptions handle deliver
    create_order_step reserve_inventory_step capture_payment_step create_shipment_step run_step
    insert_order reserve_work capture_work shipment_work set_order_status refund_payment_step
    refund_work release_inventory_step release_work cancel_order_step fetch_order_by_id
    insert_saga_log
choreographed_run = (refl, refl)

run_order_saga_refines_example :
    ((run_order_saga input (some create_shipment) fresh).0
      ≡ ok (order_saga input (some create_shipment) shop).0)
    × ((run_order_saga input (some create_shipment) fresh).1.tables
        ≡ (order_saga input (some create_shipment) shop).1)
run_order_saga_refines_example = run_order_saga_refines input (some create_shipment) fresh tt

run_choreographed_order_saga_refines_example :
    let m = run_choreographed_order_saga input (some create_shipment) 9 fresh in
    (m.0 ≡ ok (handle_of (order_saga input (some create_shipment) shop).0))
    × (m.1.tables ≡ (order_saga input (some create_shipment) shop).1)
run_choreographed_order_saga_refines_example =
    run_choreographed_order_saga_refines input (some create_shipment) 2 fresh tt

compensated_restores_stock_example :
    lookup 1 (run_order_saga input (some create_shipment) fresh).1.tables.inventory_items
    ≡ lookup 1 shop.inventory_items
unfolding run_order_saga after_create after_reserve after_payment after_shipment create_order_step
    reserve_inventory_step capture_payment_step create_shipment_step run_step insert_order
    reserve_work capture_work shipment_work set_order_status refund_payment_step refund_work
    release_inventory_step release_work cancel_order_step refund_payment release_inventory
    cancel_order insert_saga_log
compensated_restores_stock_example =
    compensated_restores_stock input (some create_shipment) 1 fresh tt (refl, tt)
      (record { id = 1; public_id = "uuid" }) create_shipment
      (saga_step_error (step create_shipment)) refl
