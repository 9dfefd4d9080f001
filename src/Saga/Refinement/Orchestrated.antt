-- ===== src/Saga/Refinement/Orchestrated.antt =====
-- orchestration/orchestrator.ts against the specification.
use systems_engineering_lab.Prelude.{Option, ◌≡◌, refl, ap, sym, subst, ◌∙◌}
use systems_engineering_lab.Saga.Db.{
  step, StepName, create_order, capture_payment, create_shipment, reserve_inventory, Db, ok,
  orchestration,
}
use systems_engineering_lab.Saga.Steps.{
  OrderSagaInput, OrderRef, ReservationRef, PaymentRef, ShipmentRef, create_order_step,
  insert_order,
}
use systems_engineering_lab.Saga.RunStep.{StepOutcome, succeeded, failed}
use systems_engineering_lab.Saga.Orchestrator.{
  is_step, after_shipment, after_payment, after_reserve, after_create, run_order_saga,
}
use systems_engineering_lab.Saga.Spec.{shipped, paid, stocked, ordered, order_saga, attempt}
use systems_engineering_lab.Saga.Refinement.Rules.{
  Refines, >>=-Refines, pure-Refines, refund-Refines, release-Refines, cancel-Refines,
  complete-Refines, reserve-Refines, capture-Refines, shipment-Refines, Exists, NumbersBelow,
  create_order_lem, >>=-runs,
}

after_shipment-Refines :
    (order : OrderRef) (r : ReservationRef) (p : PaymentRef) (o : StepOutcome ShipmentRef)
    → Refines order.id (after_shipment order r p o) (λ t. shipped order r p (o, t))
unfolding after_shipment shipped
after_shipment-Refines order r p (failed reason) =
    >>=-Refines (refund-Refines order.id orchestration p) (λ _.
      >>=-Refines (release-Refines order.id orchestration r)
        (λ _. >>=-Refines (cancel-Refines order.id orchestration) (λ _. pure-Refines order.id _)))
after_shipment-Refines order r p (succeeded s) =
    >>=-Refines (complete-Refines order.id orchestration) (λ _. pure-Refines order.id _)

after_payment-Refines :
    (fail_at : Option StepName) (order : OrderRef) (r : ReservationRef) (o : StepOutcome PaymentRef)
    → Refines order.id (after_payment fail_at order r o) (λ t. paid fail_at order r (o, t))
unfolding after_payment paid
after_payment-Refines fail_at order r (failed reason) =
    >>=-Refines (release-Refines order.id orchestration r)
      (λ _. >>=-Refines (cancel-Refines order.id orchestration) (λ _. pure-Refines order.id _))
after_payment-Refines fail_at order r (succeeded p) =
    >>=-Refines (shipment-Refines orchestration order (is_step create_shipment fail_at))
      (after_shipment-Refines order r p)

after_reserve-Refines :
    (input : OrderSagaInput) (fail_at : Option StepName) (order : OrderRef)
    (o : StepOutcome ReservationRef)
    → Refines order.id
        (after_reserve input fail_at order o)
        (λ t. stocked input fail_at order (o, t))
unfolding after_reserve stocked
after_reserve-Refines input fail_at order (failed reason) =
    >>=-Refines (cancel-Refines order.id orchestration) (λ _. pure-Refines order.id _)
after_reserve-Refines input fail_at order (succeeded r) =
    >>=-Refines
      (capture-Refines orchestration order (is_step capture_payment fail_at) input.amount_cents)
      (after_payment-Refines fail_at order r)

after_create-Refines :
    (input : OrderSagaInput) (fail_at : Option StepName) (order : OrderRef)
    → Refines order.id
        (after_create input fail_at (succeeded order))
        (λ t. ordered input fail_at (succeeded order, t))
unfolding after_create ordered
after_create-Refines input fail_at order =
    >>=-Refines
      (reserve-Refines orchestration order (is_step reserve_inventory fail_at) input.item_sku
        input.quantity)
      (after_reserve-Refines input fail_at order)

after_create_runs :
    (input : OrderSagaInput) (fail_at : Option StepName) (o : StepOutcome OrderRef) (db : Db)
    → Exists o db.tables
    → ((after_create input fail_at o db).0 ≡ ok (ordered input fail_at (o, db.tables)).0)
      × ((after_create input fail_at o db).1.tables ≡ (ordered input fail_at (o, db.tables)).1)
unfolding after_create ordered
after_create_runs input fail_at (failed reason) db e = (refl, refl)
after_create_runs input fail_at (succeeded order) db e =
    let r = after_create-Refines input fail_at order in (r.returns db e, r.writes db e)

-- If the order numbers come from their sequence, `runOrderSaga` throws nothing, and it returns and
-- does to the business tables exactly what the specification `order_saga` says: every step is
-- tried in turn, and the first failure undoes the steps before it in reverse order.
pub run_order_saga_refines :
    (input : OrderSagaInput) (fail_at : Option StepName) (db : Db)
    → NumbersBelow db.tables
    → ((run_order_saga input fail_at db).0 ≡ ok (order_saga input fail_at db.tables).0)
      × ((run_order_saga input fail_at db).1.tables ≡ (order_saga input fail_at db.tables).1)
unfolding run_order_saga order_saga
run_order_saga_refines input fail_at db b =
    let (r, w, x) = create_order_lem orchestration input (is_step create_order fail_at) db b in
    let o =
      (attempt (is_step create_order fail_at) (step create_order)
        (insert_order input.customer_name input.amount_cents) db.tables).0 in
    let created = (create_order_step orchestration input (is_step create_order fail_at) db).1 in
    let q =
      >>=-runs (create_order_step orchestration input (is_step create_order fail_at))
        (after_create input fail_at) db r in
    let runs = after_create_runs input fail_at o created (subst (Exists o) (sym w) x) in
    let same = ap (λ t. ordered input fail_at (o, t)) w in
    (
      ap (λ c. c.0) q ∙ runs.0 ∙ ap (λ p. ok p.0) same,
      ap (λ c. c.1.tables) q ∙ runs.1 ∙ ap (λ p. p.1) same,
    )
