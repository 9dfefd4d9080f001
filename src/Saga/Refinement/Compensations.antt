-- ===== src/Saga/Refinement/Compensations.antt =====
-- choreography/handlers.ts: the handlers of the failures, and what follows each of them.
use Prim.Native.String.{String}
use systems_engineering_lab.Prelude.Table.{lookup}
use systems_engineering_lab.Prelude.{ℕ, true, Option, none, some, ◌≡◌, refl, suc, ap, ◌∙◌, [], ◌∷◌}
use systems_engineering_lab.Saga.Db.{
  StepName, Order, Db, Tables, ok, choreography, references_order, Action, ◌>>=◌, Direction,
  forward, compensate, Error,
}
use systems_engineering_lab.Saga.Steps.{OrderRef, ReservationRef, PaymentRef, ShipmentRef}
use systems_engineering_lab.Saga.Compensating.{fetch_order_by_id}
use systems_engineering_lab.Saga.Choreography.{
  Payload, shipment_created_payload, inventory_reservation_failed_payload, payment_failed_payload,
  shipment_failed_payload, payment_refunded_payload, inventory_released_payload,
  order_cancelled_payload, name_of, on, handle, subscriptions, deliver, publish,
}
use systems_engineering_lab.Saga.Spec.{cancel, complete, release, refund}
use systems_engineering_lab.Saga.Refinement.Rules.{
  Refines, >>=-Refines, pure-Refines, log-Refines, refund-Refines, release-Refines, cancel-Refines,
  complete-Refines, >>=-at,
}

-- The action only changes the tables.
abbrev pub Does : ℕ → Action (Unit {0}) → (Tables → Tables) → Type 0
Does id m f = Refines id m (λ t. (tt, f t))

-- A handler has the order's number from the event, and the rest of the order from the table.
pub fetch_runs :
    (id : ℕ) (db : Db)
    → references_order (some id) db.tables ≡ true
    → (name : String) × (fetch_order_by_id id db ≡ (ok (record { id = id; public_id = name }), db))
unfolding fetch_order_by_id
fetch_runs id db h = found (lookup id db.tables.orders) refl
  where
    found :
        (o : Option Order)
        → lookup id db.tables.orders ≡ o
        → (name : String) × (fetch_order_by_id id db
            ≡ (ok (record { id = id; public_id = name }), db))
    found none e = absurd (cc)
    found (some o) e = (o.public_id, rw (e, fetch_order_by_id))

pub fetch-Refines {ℓ} :
    {A : Type ℓ} (id : ℕ) (k : OrderRef → Action A) (g : Tables → A × Tables)
    → ((name : String) → Refines id (k (record { id = id; public_id = name })) g)
    → Refines id (fetch_order_by_id id >>= k) g
fetch-Refines id k g r = record {
  returns = λ db h.
      let (name, e) = fetch_runs id db h in
      ap (λ c. c.0) (>>=-at (fetch_order_by_id id) k db e) ∙ (r name).returns db h;
  writes = λ db h.
      let (name, e) = fetch_runs id db h in
      ap (λ c. c.1.tables) (>>=-at (fetch_order_by_id id) k db e) ∙ (r name).writes db h;
  keeps = (r "").keeps;
}

-- One published event: two log rows, and what its one handler does.
module _ (fail_at : Option StepName) (depth : ℕ) (id : ℕ) (direction : Direction) where
  pub publish-Does :
      (p : Payload) (own : Direction) (f : Tables → Tables)
      → subscriptions fail_at (name_of p)
        ≡ record {
          direction = own;
          handler = λ publish e. handle fail_at publish e.order_id e.payload;
        }
          ∷ []
      → Does id (handle fail_at (publish (subscriptions fail_at) depth) id p) f
      → Does id (publish (subscriptions fail_at) (suc depth) (on id p) direction) f
  unfolding publish deliver
  publish-Does p own f e r = rw e (
      >>=-Refines (log-Refines id _ refl)
        (λ _. >>=-Refines (log-Refines id _ refl) (λ _. >>=-Refines r (λ _. pure-Refines id tt))))

module _ (fail_at : Option StepName) (order : OrderRef) where
  -- An event of this order, published with a limit on the nesting.
  abbrev pub publishes : ℕ → Payload → Direction → Action (Unit {0})
  publishes depth p direction = publish (subscriptions fail_at) depth (on order.id p) direction

  pub cancelled-Does :
      (d : ℕ) (dir : Direction)
      → Does order.id (publishes (suc d) order_cancelled_payload dir) (λ t. t)
  unfolding publish deliver subscriptions
  cancelled-Does d dir = >>=-Refines (log-Refines order.id _ refl) (λ _. pure-Refines order.id tt)

  pub released-Does :
      (d : ℕ) (dir : Direction)
      → Does order.id (publishes (suc (suc d)) inventory_released_payload dir) (cancel order.id)
  unfolding subscriptions handle
  released-Does d dir =
      publish-Does fail_at (suc d) order.id dir _ compensate _ refl
        (>>=-Refines (cancel-Refines order.id choreography) (λ _. cancelled-Does d compensate))

  pub refunded-Does :
      (d : ℕ) (dir : Direction) (r : ReservationRef)
      → Does order.id
          (publishes (suc (suc (suc d))) (payment_refunded_payload r) dir)
          (λ t. cancel order.id (release r t))
  unfolding subscriptions handle
  refunded-Does d dir r =
      publish-Does fail_at (suc (suc d)) order.id dir _ compensate _ refl
        (>>=-Refines (release-Refines order.id choreography r) (λ _. released-Does d compensate))

  pub shipment_failed-Does :
      (d : ℕ) (dir : Direction) (e : Error) (p : PaymentRef) (r : ReservationRef)
      → Does order.id
          (publishes (suc (suc (suc (suc d)))) (shipment_failed_payload e p r) dir)
          (λ t. cancel order.id (release r (refund p t)))
  unfolding subscriptions handle
  shipment_failed-Does d dir e p r =
      publish-Does fail_at (suc (suc (suc d))) order.id dir _ compensate _ refl
        (>>=-Refines (refund-Refines order.id choreography p) (λ _. refunded-Does d compensate r))

  pub payment_failed-Does :
      (d : ℕ) (dir : Direction) (e : Error) (r : ReservationRef)
      → Does order.id
          (publishes (suc (suc (suc d))) (payment_failed_payload e r) dir)
          (λ t. cancel order.id (release r t))
  unfolding subscriptions handle
  payment_failed-Does d dir e r =
      publish-Does fail_at (suc (suc d)) order.id dir _ compensate _ refl
        (>>=-Refines (release-Refines order.id choreography r) (λ _. released-Does d compensate))

  pub reservation_failed-Does :
      (d : ℕ) (dir : Direction) (e : Error)
      → Does order.id
          (publishes (suc (suc d)) (inventory_reservation_failed_payload e) dir)
          (cancel order.id)
  unfolding subscriptions handle
  reservation_failed-Does d dir e =
      publish-Does fail_at (suc d) order.id dir _ compensate _ refl
        (>>=-Refines (cancel-Refines order.id choreography) (λ _. cancelled-Does d compensate))

  pub shipment_created-Does :
      (d : ℕ) (dir : Direction) (s : ShipmentRef)
      → Does order.id (publishes (suc d) (shipment_created_payload s) dir) (complete order.id)
  unfolding subscriptions handle
  shipment_created-Does d dir s =
      publish-Does fail_at d order.id dir _ forward _ refl
        (>>=-Refines (complete-Refines order.id choreography) (λ _. pure-Refines order.id tt))
