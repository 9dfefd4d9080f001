-- ===== src/Saga/Choreography.antt =====
-- The choreographed saga: choreography/event-bus.ts, choreography/handlers.ts and
-- choreography/run.ts. `publish` calls handlers that call `publish`; the model gives the nesting
-- a limit, past which it throws `too_deep`. A cascade nests seven deep at most.
use Prim.Native.String.{String}
use systems_engineering_lab.Prelude.{ℕ, zero, suc, true, Option, some, List, [], ◌∷◌}
use systems_engineering_lab.Saga.Db.{
  StepName, create_order, reserve_inventory, capture_payment, create_shipment, choreography,
  Direction, forward, compensate, EventName, order_created, inventory_reserved, payment_captured,
  shipment_created, inventory_reservation_failed, payment_failed, shipment_failed, payment_refunded,
  inventory_released, order_cancelled, event, published, consumed, Error, too_deep, Action, pure,
  ◌>>=◌, ◌>>◌, insert_saga_log,
}
use systems_engineering_lab.Saga.Steps.{
  OrderSagaInput, OrderRef, ReservationRef, PaymentRef, ShipmentRef, create_order_step,
  reserve_inventory_step, capture_payment_step, create_shipment_step, complete_order_step,
}
use systems_engineering_lab.Saga.RunStep.{StepOutcome, succeeded, failed, log_row, throw_if}
use systems_engineering_lab.Saga.Compensating.{
  refund_payment_step, release_inventory_step, cancel_order_step, fetch_order_by_id,
}
use systems_engineering_lab.Saga.Orchestrator.{is_step}

-- A `DomainEvent`'s name with the payload of that name.
pub data Payload : Type 0 where
  order_created_payload : String → ℕ → ℕ → Payload
  inventory_reserved_payload : ReservationRef → ℕ → Payload
  payment_captured_payload : PaymentRef → ReservationRef → Payload
  shipment_created_payload : ShipmentRef → Payload
  inventory_reservation_failed_payload : Error → Payload
  payment_failed_payload : Error → ReservationRef → Payload
  shipment_failed_payload : Error → PaymentRef → ReservationRef → Payload
  payment_refunded_payload : ReservationRef → Payload
  inventory_released_payload : Payload
  order_cancelled_payload : Payload

abbrev pub name_of : Payload → EventName
name_of (order_created_payload item_sku quantity amount_cents) = order_created
name_of (inventory_reserved_payload reservation amount_cents) = inventory_reserved
name_of (payment_captured_payload payment reservation) = payment_captured
name_of (shipment_created_payload shipment) = shipment_created
name_of (inventory_reservation_failed_payload reason) = inventory_reservation_failed
name_of (payment_failed_payload reason reservation) = payment_failed
name_of (shipment_failed_payload reason payment reservation) = shipment_failed
name_of (payment_refunded_payload reservation) = payment_refunded
name_of inventory_released_payload = inventory_released
name_of order_cancelled_payload = order_cancelled

pub record DomainEvent : Type 0 where
  pub order_id : ℕ
  pub payload : Payload

-- `bus.publish`, as a handler is given it.
abbrev pub Publish : Type 0
Publish = DomainEvent → Direction → Action (Unit {0})

pub record Subscription : Type 0 where
  pub direction : Direction
  pub handler : Publish → DomainEvent → Action (Unit {0})

abbrev pub on : ℕ → Payload → DomainEvent
on order_id payload = record { order_id = order_id; payload = payload }

-- The handler of `OrderCreated`, from the step's outcome on; so for the next two.
unfoldable pub publish_reserved : Publish → ℕ → ℕ → StepOutcome ReservationRef → Action (Unit {0})
publish_reserved publish order_id amount_cents (failed reason) =
    publish (on order_id (inventory_reservation_failed_payload reason)) compensate
publish_reserved publish order_id amount_cents (succeeded reservation) =
    publish (on order_id (inventory_reserved_payload reservation amount_cents)) forward

unfoldable pub publish_captured :
    Publish → ℕ → ReservationRef → StepOutcome PaymentRef → Action (Unit {0})
publish_captured publish order_id reservation (failed reason) =
    publish (on order_id (payment_failed_payload reason reservation)) compensate
publish_captured publish order_id reservation (succeeded payment) =
    publish (on order_id (payment_captured_payload payment reservation)) forward

unfoldable pub publish_shipped :
    Publish → ℕ → PaymentRef → ReservationRef → StepOutcome ShipmentRef → Action (Unit {0})
publish_shipped publish order_id payment reservation (failed reason) =
    publish (on order_id (shipment_failed_payload reason payment reservation)) compensate
publish_shipped publish order_id payment reservation (succeeded shipment) =
    publish (on order_id (shipment_created_payload shipment)) forward

-- `registerHandlers`: for each name the one handler that `bus.on` registers, if any.
unfoldable pub handle : Option StepName → Publish → ℕ → Payload → Action (Unit {0})
unfolding publish_reserved publish_captured publish_shipped
handle fail_at publish id (order_created_payload item_sku quantity amount_cents) = do
  order ← fetch_order_by_id id
  result ←
      reserve_inventory_step choreography order item_sku quantity
        (is_step reserve_inventory fail_at)
  publish_reserved publish id amount_cents result
handle fail_at publish id (inventory_reserved_payload reservation amount_cents) = do
  order ← fetch_order_by_id id
  result ← capture_payment_step choreography order amount_cents (is_step capture_payment fail_at)
  publish_captured publish id reservation result
handle fail_at publish id (payment_captured_payload payment reservation) = do
  order ← fetch_order_by_id id
  result ← create_shipment_step choreography order (is_step create_shipment fail_at)
  publish_shipped publish id payment reservation result
handle fail_at publish id (shipment_created_payload shipment) = do
  complete_order_step choreography id
  pure tt
handle fail_at publish id (inventory_reservation_failed_payload reason) = do
  cancel_order_step choreography id
  publish (on id order_cancelled_payload) compensate
handle fail_at publish id (payment_failed_payload reason reservation) = do
  release_inventory_step choreography id reservation
  publish (on id inventory_released_payload) compensate
handle fail_at publish id (shipment_failed_payload reason payment reservation) = do
  refund_payment_step choreography id payment
  publish (on id (payment_refunded_payload reservation)) compensate
handle fail_at publish id (payment_refunded_payload reservation) = do
  release_inventory_step choreography id reservation
  publish (on id inventory_released_payload) compensate
handle fail_at publish id inventory_released_payload = do
  cancel_order_step choreography id
  publish (on id order_cancelled_payload) compensate
handle fail_at publish id order_cancelled_payload = pure tt

-- The direction under which the handler of each name is registered.
abbrev pub direction_of : EventName → Direction
direction_of order_created = forward
direction_of inventory_reserved = forward
direction_of payment_captured = forward
direction_of shipment_created = forward
direction_of _ = compensate

-- The subscriptions of `registerHandlers`; nothing subscribes to `OrderCancelled`.
unfoldable pub subscriptions : Option StepName → EventName → List Subscription
unfolding handle
subscriptions fail_at order_cancelled = []
subscriptions fail_at name =
    record {
      direction = direction_of name;
      handler = λ publish e. handle fail_at publish e.order_id e.payload;
    }
    ∷ []

-- The loop of `publish` over the subscribers.
unfoldable pub deliver : Publish → DomainEvent → List Subscription → Action (Unit {0})
deliver publish e [] = pure tt
deliver publish e (s ∷ ss) = do
  insert_saga_log
      (log_row (some e.order_id) choreography (event (name_of e.payload)) s.direction consumed)
  s.handler publish e
  deliver publish e ss

unfoldable pub publish : (EventName → List Subscription) → ℕ → Publish
unfolding deliver
publish subs zero e direction = throw_if true too_deep
publish subs (suc depth) e direction =
    insert_saga_log
      (log_row (some e.order_id) choreography (event (name_of e.payload)) direction published)
    >> deliver (publish subs depth) e (subs (name_of e.payload))

pub data ChoreographedSagaHandle : Type 0 where
  aborted : ChoreographedSagaHandle
  created : OrderRef → ChoreographedSagaHandle

unfoldable pub after_created :
    OrderSagaInput → Option StepName → ℕ → StepOutcome OrderRef → Action ChoreographedSagaHandle
after_created input fail_at depth (failed reason) = pure aborted
after_created input fail_at depth (succeeded order) = do
  publish (subscriptions fail_at) depth
      (on order.id (order_created_payload input.item_sku input.quantity input.amount_cents)) forward
  pure (created order)

-- `runChoreographedOrderSaga`, with a limit on the nesting of `publish`.
unfoldable pub run_choreographed_order_saga :
    OrderSagaInput → Option StepName → ℕ → Action ChoreographedSagaHandle
run_choreographed_order_saga input fail_at depth = do
  create_result ← create_order_step choreography input (is_step create_order fail_at)
  after_created input fail_at depth create_result
