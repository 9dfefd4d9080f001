-- ===== src/Saga/Refinement/Choreographed.antt =====
-- choreography/handlers.ts and event-bus.ts against the specification: each event's cascade.
use systems_engineering_lab.Prelude.{ℕ, Option, ◌≡◌, refl, arith, suc, ◌+◌, ap, sym, subst, ◌∙◌}
use systems_engineering_lab.Saga.Db.{
  step, StepName, create_order, capture_payment, create_shipment, reserve_inventory, Db, Tables, ok,
  choreography, ◌>>=◌, Direction, forward, compensate,
}
use systems_engineering_lab.Saga.Steps.{
  OrderSagaInput, OrderRef, ReservationRef, PaymentRef, ShipmentRef, create_order_step,
  insert_order, create_shipment_step, capture_payment_step, reserve_inventory_step, shipment_work,
  capture_work,
}
use systems_engineering_lab.Saga.RunStep.{StepOutcome, succeeded, failed}
use systems_engineering_lab.Saga.Orchestrator.{is_step, SagaResult}
use systems_engineering_lab.Saga.Orchestrator
use systems_engineering_lab.Saga.Choreography.{
  order_created_payload, inventory_reserved_payload, payment_captured_payload, handle,
  subscriptions, publish, publish_reserved, publish_captured, publish_shipped,
  ChoreographedSagaHandle, aborted, created, after_created, run_choreographed_order_saga,
}
use systems_engineering_lab.Saga.Spec.{shipped, paid, stocked, ordered, order_saga, attempt}
use systems_engineering_lab.Saga.Refinement.Rules.{
  >>=-Refines, pure-Refines, reserve-Refines, capture-Refines, shipment-Refines, Exists,
  NumbersBelow, create_order_lem, >>=-runs,
}
use systems_engineering_lab.Saga.Refinement.Compensations.{
  Does, fetch-Refines, publish-Does, publishes, shipment_failed-Does, payment_failed-Does,
  reservation_failed-Does, shipment_created-Does,
}

-- The forward chain. `four d` levels are left below a handler of `PaymentCaptured`, and so on.
abbrev four : ℕ → ℕ
four d = suc (suc (suc (suc d)))

module _ (fail_at : Option StepName) (order : OrderRef) (d : ℕ) where
  publish_shipped-Does :
      (p : PaymentRef) (r : ReservationRef) (o : StepOutcome ShipmentRef)
      → Does order.id
          (publish_shipped (publish (subscriptions fail_at) (four d)) order.id p r o)
          (λ t. (shipped order r p (o, t)).1)
  unfolding publish_shipped shipped
  publish_shipped-Does p r (failed e) = shipment_failed-Does fail_at order d compensate e p r
  publish_shipped-Does p r (succeeded s) =
      shipment_created-Does fail_at order (suc (suc (suc d))) forward s

  payment_captured-Does :
      (dir : Direction) (p : PaymentRef) (r : ReservationRef)
      → Does order.id
          (publishes fail_at order (suc (four d)) (payment_captured_payload p r) dir)
          (λ t.
            (shipped order r p (
              attempt
                (is_step create_shipment fail_at)
                (step create_shipment)
                (shipment_work order.id)
                t)).1)
  unfolding subscriptions handle
  payment_captured-Does dir p r = publish-Does fail_at (four d) order.id dir _ forward _ refl (
      fetch-Refines order.id
        (λ o.
          create_shipment_step choreography o (is_step create_shipment fail_at)
          >>= publish_shipped (publish (subscriptions fail_at) (four d)) order.id p r)
        _
        (λ name.
          >>=-Refines
            (shipment-Refines choreography (record { id = order.id; public_id = name })
              (is_step create_shipment fail_at))
            (publish_shipped-Does p r)))

  publish_captured-Does :
      (r : ReservationRef) (o : StepOutcome PaymentRef)
      → Does order.id
          (publish_captured (publish (subscriptions fail_at) (suc (four d))) order.id r o)
          (λ t. (paid fail_at order r (o, t)).1)
  unfolding publish_captured paid
  publish_captured-Does r (failed e) =
      payment_failed-Does fail_at order (suc (suc d)) compensate e r
  publish_captured-Does r (succeeded p) = payment_captured-Does forward p r

  inventory_reserved-Does :
      (dir : Direction) (r : ReservationRef) (amount : ℕ)
      → Does order.id
          (publishes fail_at order (suc (suc (four d))) (inventory_reserved_payload r amount) dir)
          (λ t.
            (paid fail_at order r (
              attempt
                (is_step capture_payment fail_at)
                (step capture_payment)
                (capture_work order.id amount)
                t)).1)
  unfolding subscriptions handle
  inventory_reserved-Does dir r amount =
      publish-Does fail_at (suc (four d)) order.id dir _ forward _ refl (
        fetch-Refines order.id
          (λ o.
            capture_payment_step choreography o amount (is_step capture_payment fail_at)
            >>= publish_captured (publish (subscriptions fail_at) (suc (four d))) order.id r)
          _
          (λ name.
            >>=-Refines
              (capture-Refines choreography (record { id = order.id; public_id = name })
                (is_step capture_payment fail_at) amount)
              (publish_captured-Does r)))

  publish_reserved-Does :
      (input : OrderSagaInput) (o : StepOutcome ReservationRef)
      → Does order.id
          (publish_reserved
            (publish (subscriptions fail_at) (suc (suc (four d))))
            order.id
            input.amount_cents
            o)
          (λ t. (stocked input fail_at order (o, t)).1)
  unfolding publish_reserved stocked
  publish_reserved-Does input (failed e) =
      reservation_failed-Does fail_at order (four d) compensate e
  publish_reserved-Does input (succeeded r) = inventory_reserved-Does forward r input.amount_cents

  order_created-Does :
      (dir : Direction) (input : OrderSagaInput)
      → Does order.id
          (publishes fail_at order
            (suc (suc (suc (four d))))
            (order_created_payload input.item_sku input.quantity input.amount_cents)
            dir)
          (λ t. (ordered input fail_at (succeeded order, t)).1)
  unfolding subscriptions handle ordered
  order_created-Does dir input =
      publish-Does fail_at (suc (suc (four d))) order.id dir _ forward _ refl (
        fetch-Refines order.id
          (λ o.
            reserve_inventory_step choreography o input.item_sku input.quantity
              (is_step reserve_inventory fail_at)
            >>= publish_reserved (publish (subscriptions fail_at) (suc (suc (four d)))) order.id
                input.amount_cents)
          _
          (λ name.
            >>=-Refines
              (reserve-Refines choreography (record { id = order.id; public_id = name })
                (is_step reserve_inventory fail_at) input.item_sku input.quantity)
              (publish_reserved-Does input)))

-- The handle that the caller gets, from the specification's result.
abbrev pub handle_of : SagaResult → ChoreographedSagaHandle
handle_of (Orchestrator.completed order) = created order
handle_of (Orchestrator.compensated order name reason) = created order
handle_of (Orchestrator.aborted reason) = aborted

ordered-order :
    (input : OrderSagaInput) (fail_at : Option StepName) (order : OrderRef) (t : Tables)
    → handle_of (ordered input fail_at (succeeded order, t)).0 ≡ created order
unfolding ordered stocked paid shipped
ordered-order input fail_at order t = ground arith

after_created_runs :
    (input : OrderSagaInput) (fail_at : Option StepName) (d : ℕ) (o : StepOutcome OrderRef)
    (db : Db)
    → Exists o db.tables
    → let m = after_created input fail_at (suc (suc (suc (four d)))) o db in
      (m.0 ≡ ok (handle_of (ordered input fail_at (o, db.tables)).0))
      × (m.1.tables ≡ (ordered input fail_at (o, db.tables)).1)
unfolding after_created
after_created_runs input fail_at d (failed reason) db e = unfold ordered in (refl, refl)
after_created_runs input fail_at d (succeeded order) db e =
    let r =
      >>=-Refines (order_created-Does fail_at order d forward input)
        (λ _. pure-Refines order.id (created order)) in
    (r.returns db e ∙ ap ok (sym (ordered-order input fail_at order db.tables)), r.writes db e)

-- If the order numbers come from their sequence, then with room for seven nested calls of
-- `publish` the event cascade throws nothing and ends, the caller gets the handle of the order (or
-- the abort) that the specification `order_saga` names, and the business tables are exactly those
-- of the specification.
pub run_choreographed_order_saga_refines :
    (input : OrderSagaInput) (fail_at : Option StepName) (extra : ℕ) (db : Db)
    → NumbersBelow db.tables
    → let m = run_choreographed_order_saga input fail_at (7 + extra) db in
      (m.0 ≡ ok (handle_of (order_saga input fail_at db.tables).0))
      × (m.1.tables ≡ (order_saga input fail_at db.tables).1)
unfolding run_choreographed_order_saga order_saga
run_choreographed_order_saga_refines input fail_at extra db b =
    let seven : 7 + extra ≡ suc (suc (suc (four extra))) = omega arith in
    rw seven (
      let (r, w, x) = create_order_lem choreography input (is_step create_order fail_at) db b in
      let o =
        (attempt (is_step create_order fail_at) (step create_order)
          (insert_order input.customer_name input.amount_cents) db.tables).0 in
      let begun = (create_order_step choreography input (is_step create_order fail_at) db).1 in
      let q =
        >>=-runs (create_order_step choreography input (is_step create_order fail_at))
          (after_created input fail_at (suc (suc (suc (four extra))))) db r in
      let runs = after_created_runs input fail_at extra o begun (subst (Exists o) (sym w) x) in
      let same = ap (λ t. ordered input fail_at (o, t)) w in
      (
        ap (λ c. c.0) q ∙ runs.0 ∙ ap (λ p. ok (handle_of p.0)) same,
        ap (λ c. c.1.tables) q ∙ runs.1 ∙ ap (λ p. p.1) same,
      ))
