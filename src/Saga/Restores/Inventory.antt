-- ===== src/Saga/Restores/Inventory.antt =====
-- The stock of every item, before and after a saga.
use Prim.Native.String.{String}
use systems_engineering_lab.Prelude.{
  ℕ, Bool, true, false, Option, none, some, ◌≡◌, refl, arith, ◌+◌, ◌-◌, ◌≤◌, ap, sym, subst, ◌∙◌,
  [], ◌∷◌, ◌==◌, if◌then◌else◌, Bool-cases, inl, inr, ltb, ltb-false→le,
}
use systems_engineering_lab.Prelude.Table.{Distinct, Table, lookup, modify, lookup-modify, map_some}
use systems_engineering_lab.Saga.Db.{
  step, StepName, create_order, capture_payment, create_shipment, reserve_inventory, Db, Tables,
  InventoryItem, Error, find_item, is_some, ok,
}
use systems_engineering_lab.Saga.Steps.{
  OrderSagaInput, OrderRef, ReservationRef, PaymentRef, ShipmentRef, insert_order, shipment_work,
  capture_work, reserve_work, reserve_item, set_order_status,
}
use systems_engineering_lab.Saga.RunStep.{StepOutcome, succeeded, failed}
use systems_engineering_lab.Saga.Compensating.{release_work, refund_work}
use systems_engineering_lab.Saga.Orchestrator.{
  is_step, SagaResult, compensated, aborted, run_order_saga,
}
use systems_engineering_lab.Saga.Orchestrator
use systems_engineering_lab.Saga.Spec.{
  keep_numbers, shipped, paid, stocked, ordered, order_saga, attempt, release,
}
use systems_engineering_lab.Saga.Refinement.{run_order_saga_refines, NumbersBelow}

find_item-lookup :
    (sku : String) (items : Table InventoryItem) (id : ℕ) (item : InventoryItem)
    → Distinct items
    → find_item sku items ≡ some (id, item)
    → lookup id items ≡ some item
find_item-lookup sku [] id item d e = cc
find_item-lookup sku ((j, i) ∷ items) id item d e =
    ground (arith, find_item-lookup sku items id item d.1)

-- What a reservation does to an item's row.
abbrev pub taken : ℕ → InventoryItem → InventoryItem
taken quantity i = record i { available_quantity = i.available_quantity - quantity }

abbrev given : ℕ → InventoryItem → InventoryItem
given quantity i = record i { available_quantity = i.available_quantity + quantity }

given-taken : (q : ℕ) (i : InventoryItem) → q ≤ i.available_quantity → given q (taken q i) ≡ i
given-taken q i h = ground arith

-- Taken from a row that has enough, and given back.
restocked :
    (k id q : ℕ) (items : Table InventoryItem) (i : InventoryItem)
    → lookup id items ≡ some i
    → q ≤ i.available_quantity
    → lookup k (modify id (given q) (modify id (taken q) items)) ≡ lookup k items
restocked k id q items i e h = ground (
  arith,
  lookup-modify id k (given q) (modify id (taken q) items),
  lookup-modify id k (taken q) items,
  given-taken q i h,
)

-- Whether a saga ended without completing.
abbrev pub is_compensated : SagaResult → Bool
is_compensated (compensated order name reason) = true
is_compensated (Orchestrator.completed order) = false
is_compensated (aborted reason) = false

abbrev stock : ℕ → Tables → Option InventoryItem
stock k t = lookup k t.inventory_items

shipped-stock :
    (k : ℕ) (order : OrderRef) (r : ReservationRef) (p : PaymentRef) (o : StepOutcome ShipmentRef)
    (t : Tables)
    → stock k (shipped order r p (o, t)).1
      ≡ (if is_compensated (shipped order r p (o, t)).0 then stock k (release r t) else stock k t)
unfolding shipped release_work refund_work set_order_status
shipped-stock k order r p (failed e) t = refl
shipped-stock k order r p (succeeded s) t = refl

attempt_shipment-stock :
    (b : Bool) (id : ℕ) (t : Tables)
    → (attempt b (step create_shipment) (shipment_work id) t).1.inventory_items ≡ t.inventory_items
unfolding attempt shipment_work
attempt_shipment-stock b id t = ground arith

attempt_capture-stock :
    (b : Bool) (id amount : ℕ) (t : Tables)
    → (attempt b (step capture_payment) (capture_work id amount) t).1.inventory_items
      ≡ t.inventory_items
unfolding attempt capture_work
attempt_capture-stock b id amount t = ground arith

release-stock :
    (k : ℕ) (r : ReservationRef) (t u : Tables)
    → t.inventory_items ≡ u.inventory_items
    → stock k (release r t) ≡ stock k (release r u)
unfolding release_work
release-stock k r t u e = rw e

paid-stock :
    (fail_at : Option StepName) (k : ℕ) (order : OrderRef) (r : ReservationRef)
    (o : StepOutcome PaymentRef) (t : Tables)
    → stock k (paid fail_at order r (o, t)).1 ≡ (
        if is_compensated (paid fail_at order r (o, t)).0 then stock k (release r t) else stock k t)
unfolding paid
paid-stock fail_at k order r (failed e) t = unfold set_order_status release_work in refl
paid-stock fail_at k order r (succeeded p) t =
    let a =
      attempt (is_step create_shipment fail_at) (step create_shipment) (shipment_work order.id) t in
    let e = attempt_shipment-stock (is_step create_shipment fail_at) order.id t in
    ground (arith, shipped-stock k order r p a.0 a.1, release-stock k r a.1 t e, e)

-- What was reserved can be given back.
Took : ℕ → ℕ → Tables → StepOutcome ReservationRef × Tables → Type 0
Took k quantity t (failed e, t') = stock k t' ≡ stock k t
Took k quantity t (succeeded r, t') =
    (stock k (release r t') ≡ stock k t)
    × (stock k t' ≡ (if r.item_id == k then map_some (taken quantity) (stock k t) else stock k t))

reserve_item-Took :
    (k order_id quantity : ℕ) (id : ℕ) (item : InventoryItem) (t : Tables)
    → lookup id t.inventory_items ≡ some item
    → Took k quantity t (keep_numbers t (reserve_item order_id quantity (id, item) t))
unfolding Took reserve_item release_work
reserve_item-Took k order_id quantity id item t e =
    elim (Bool-cases (ltb item.available_quantity quantity)) [
      | inl short ↦ rw short refl
      | inr enough ↦ elim (Bool-cases (ltb 0 quantity)) [
        | inr none_wanted ↦ rw (enough, none_wanted) refl
        | inl wanted ↦ elim (Bool-cases (is_some (lookup order_id t.orders))) [
          | inr missing ↦ rw (enough, wanted, missing) refl
          | inl known ↦
              rw (enough, wanted, known)
                (
                  restocked k id quantity t.inventory_items item e (ltb-false→le _ _ enough),
                  lookup-modify id k (taken quantity) t.inventory_items,
                )
        ]
      ]
    ]

attempt_reserve-Took :
    (b : Bool) (k order_id : ℕ) (sku : String) (quantity : ℕ) (t : Tables)
    → Distinct t.inventory_items
    → Took k quantity t (attempt b (step reserve_inventory) (reserve_work order_id sku quantity) t)
unfolding attempt reserve_work Took
attempt_reserve-Took true k order_id sku quantity t d = refl
attempt_reserve-Took false k order_id sku quantity t d =
    found (find_item sku t.inventory_items) refl
  where
    found :
        (f : Option (ℕ × InventoryItem))
        → find_item sku t.inventory_items ≡ f
        → Took k quantity t (keep_numbers t (reserve_work order_id sku quantity t))
    found none e = rw (e, reserve_work) refl
    found (some (id, item)) e =
        rw (e, reserve_work)
          (reserve_item-Took k order_id quantity id item t
            (find_item-lookup sku t.inventory_items id item d e))

attempt_create-items :
    (b : Bool) (input : OrderSagaInput) (t : Tables)
    → (attempt b
        (step create_order)
        (insert_order input.customer_name input.amount_cents)
        t).1.inventory_items
      ≡ t.inventory_items
unfolding attempt insert_order
attempt_create-items b input t = ground arith

is_compensated_ok :
    {s : SagaResult} {order : OrderRef} {name : StepName} {reason : Error}
    → ok s ≡ ok (compensated order name reason)
    → is_compensated s ≡ true
is_compensated_ok e = ground arith

-- The whole saga on the stock of item `k`.
stocked-stock :
    (input : OrderSagaInput) (fail_at : Option StepName) (k : ℕ) (order : OrderRef) (t0 : Tables)
    (o : StepOutcome ReservationRef) (t : Tables)
    → Took k input.quantity t0 (o, t)
    → is_compensated (stocked input fail_at order (o, t)).0 ≡ true
    → stock k (stocked input fail_at order (o, t)).1 ≡ stock k t0
unfolding stocked Took
stocked-stock input fail_at k order t0 (failed e) t took c = unfold set_order_status in took
stocked-stock input fail_at k order t0 (succeeded r) t took c =
    let a =
      attempt (is_step capture_payment fail_at) (step capture_payment)
        (capture_work order.id input.amount_cents) t in
    let e = attempt_capture-stock (is_step capture_payment fail_at) order.id input.amount_cents t in
    ground (arith, paid-stock fail_at k order r a.0 a.1, release-stock k r a.1 t e)

order_saga-stock :
    (input : OrderSagaInput) (fail_at : Option StepName) (k : ℕ) (t : Tables)
    → Distinct t.inventory_items
    → is_compensated (order_saga input fail_at t).0 ≡ true
    → stock k (order_saga input fail_at t).1 ≡ stock k t
unfolding order_saga ordered
order_saga-stock input fail_at k t d c =
    created
      (attempt (is_step create_order fail_at) (step create_order)
        (insert_order input.customer_name input.amount_cents) t)
      (attempt_create-items (is_step create_order fail_at) input t) c
  where
    created :
        (o : StepOutcome OrderRef × Tables)
        → o.1.inventory_items ≡ t.inventory_items
        → is_compensated (ordered input fail_at o).0 ≡ true
        → stock k (ordered input fail_at o).1 ≡ stock k t
    created (failed e, t') same comp = absurd (cc)
    created (succeeded order, t') same comp =
        let a =
          attempt (is_step reserve_inventory fail_at) (step reserve_inventory)
            (reserve_work order.id input.item_sku input.quantity) t' in
        let took =
          attempt_reserve-Took (is_step reserve_inventory fail_at) k order.id input.item_sku
            input.quantity t' (subst Distinct (sym same) d) in
        stocked-stock input fail_at k order t' a.0 a.1 took comp ∙ ap (lookup k) same

-- A saga that `runOrderSaga` reports as compensated leaves every item with exactly the row, and so
-- the available quantity, that it had before, if the order numbers come from their sequence and
-- no two items have one number.
pub compensated_restores_stock :
    (input : OrderSagaInput) (fail_at : Option StepName) (k : ℕ) (db : Db)
    → NumbersBelow db.tables
    → Distinct db.tables.inventory_items
    → (order : OrderRef) (name : StepName) (reason : Error)
    → (run_order_saga input fail_at db).0 ≡ ok (compensated order name reason)
    → lookup k (run_order_saga input fail_at db).1.tables.inventory_items
      ≡ lookup k db.tables.inventory_items
compensated_restores_stock input fail_at k db b d order name reason e =
    let (r, w) = run_order_saga_refines input fail_at db b in
    let c : is_compensated (order_saga input fail_at db.tables).0 ≡ true =
      is_compensated_ok (sym r ∙ e) in
    ap (λ t. lookup k t.inventory_items) w ∙ order_saga-stock input fail_at k db.tables d c
