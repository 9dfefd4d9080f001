-- ===== src/Saga/Refinement/Rules.antt =====
-- When a function of the program does to the tables what a function of the specification does,
-- the rules by which that is shown for a `do` block, and the steps.
use systems_engineering_lab.Prelude.{ℕ, Bool, true, false, some, ◌≡◌, refl, arith, ap, ◌∙◌}
use systems_engineering_lab.Prelude.Table.{lookup-modify, Below, lookup-append_new}
use Prim.Native.String.{String}
use systems_engineering_lab.Saga.Db.{
  create_order, reserve_inventory, capture_payment, create_shipment, step, completed, cancelled,
  Tables, Db, ok, Work, Action, pure, ◌>>=◌, references_order, insert_saga_log, SagaLogInput,
  OrderStatus, Mechanism, Order, pending,
}
use systems_engineering_lab.Saga.Steps.{
  OrderSagaInput, OrderRef, ReservationRef, PaymentRef, insert_order, reserve_work, capture_work,
  shipment_work, set_order_status, complete_order_step, reserve_inventory_step,
  capture_payment_step, create_shipment_step, create_order_step,
}
use systems_engineering_lab.Saga.RunStep.{StepOutcome, succeeded, failed, run_step, RunStepParams}
use systems_engineering_lab.Saga.Compensating.{
  refund_work, release_work, refund_payment_step, release_inventory_step, cancel_order_step,
}
use systems_engineering_lab.Saga.Spec.{attempt, cancel, complete, release, refund}

-- In every state in which order `id` exists, `m` returns and does to the tables what `f` does, and
-- the order still exists.
pub record Refines {ℓ} {A : Type ℓ} (id : ℕ) (m : Action A) (f : Tables → A × Tables) : Type ℓ where
  pub returns :
      (db : Db) → references_order (some id) db.tables ≡ true → (m db).0 ≡ ok (f db.tables).0
  pub writes :
      (db : Db) → references_order (some id) db.tables ≡ true → (m db).1.tables ≡ (f db.tables).1
  pub keeps :
      (t : Tables) → references_order (some id) t ≡ true → references_order (some id) (f t).1 ≡ true

pub run_step-Refines {ℓ} :
    {A : Type ℓ} (p : RunStepParams) (work : Work A)
    → ((t : Tables)
        → references_order (some p.order_id) t ≡ true
        → references_order (some p.order_id) (work t).1 ≡ true)
    → Refines p.order_id (run_step p work) (attempt p.simulate_failure p.step_name work)
unfolding run_step attempt insert_saga_log
run_step-Refines p work k = record {
  returns = λ db h. ground (arith, k db.tables h);
  writes = λ db h. ground (arith, k db.tables h);
  keeps = λ t h. ground (arith, k t h);
}

pub pure-Refines {ℓ} : {A : Type ℓ} (id : ℕ) (a : A) → Refines id (pure a) (λ t. (a, t))
pure-Refines id a = record { returns = λ db h. refl; writes = λ db h. refl; keeps = λ t h. h }

pub >>=-Refines {ℓ κ} :
    {A : Type ℓ} {B : Type κ} {id : ℕ} {m : Action A} {k : A → Action B} {f : Tables → A × Tables}
    {g : A → Tables → B × Tables}
    → Refines id m f
    → ((a : A) → Refines id (k a) (g a))
    → Refines id (m >>= k) (λ t. g (f t).0 (f t).1)
>>=-Refines {id} {m} {k} {f} {g} rm rk = record {
  returns = λ db h. ground (
    arith,
    rm.returns db h,
    rm.writes db h,
    rm.keeps db.tables h,
    (rk (f db.tables).0).returns (m db).1,
  );
  writes = λ db h. ground (
    arith,
    rm.returns db h,
    rm.writes db h,
    rm.keeps db.tables h,
    (rk (f db.tables).0).writes (m db).1,
  );
  keeps = λ t h. (rk (f t).0).keeps (f t).1 (rm.keeps t h);
}

pub log-Refines :
    (id : ℕ) (input : SagaLogInput)
    → input.order_id ≡ some id
    → Refines id (insert_saga_log input) (λ t. (tt, t))
unfolding insert_saga_log
log-Refines id input e = record {
  returns = λ db h. ground arith;
  writes = λ db h. ground arith;
  keeps = λ t h. h;
}

references-modify :
    (id : ℕ) (status : OrderStatus) (j : ℕ) (t : Tables)
    → references_order (some id) t ≡ true
    → references_order (some id) (set_order_status status j t).1 ≡ true
unfolding set_order_status
references-modify id status j t h =
    ground (arith, lookup-modify j id (λ o. record o { status = status }) t.orders)

pub set_order_status-Refines :
    (id : ℕ) (p : RunStepParams) (status : OrderStatus)
    → p.order_id ≡ id
    → p.simulate_failure ≡ false
    → Refines id
        (run_step p (set_order_status status id))
        (λ t. (succeeded tt, (set_order_status status id t).1))
unfolding run_step attempt insert_saga_log set_order_status
set_order_status-Refines id p status e simulated = record {
  returns = λ db h. ground (arith, references-modify id status id db.tables h);
  writes = λ db h. ground (arith, references-modify id status id db.tables h);
  keeps = λ t h. references-modify id status id t h;
}

pub refund-Refines :
    (id : ℕ) (mechanism : Mechanism) (r : PaymentRef)
    → Refines id (refund_payment_step mechanism id r) (λ t. (succeeded tt, refund r t))
unfolding refund_payment_step refund_work attempt
refund-Refines id mechanism r = run_step-Refines _ (refund_work r) (λ t h. h)

pub release-Refines :
    (id : ℕ) (mechanism : Mechanism) (r : ReservationRef)
    → Refines id (release_inventory_step mechanism id r) (λ t. (succeeded tt, release r t))
unfolding release_inventory_step release_work attempt
release-Refines id mechanism r = run_step-Refines _ (release_work r) (λ t h. h)

pub cancel-Refines :
    (id : ℕ) (mechanism : Mechanism)
    → Refines id (cancel_order_step mechanism id) (λ t. (succeeded tt, cancel id t))
unfolding cancel_order_step
cancel-Refines id mechanism = set_order_status-Refines id _ cancelled refl refl

pub complete-Refines :
    (id : ℕ) (mechanism : Mechanism)
    → Refines id (complete_order_step mechanism id) (λ t. (succeeded tt, complete id t))
unfolding complete_order_step
complete-Refines id mechanism = set_order_status-Refines id _ completed refl refl

module _ (mechanism : Mechanism) (order : OrderRef) (simulate_failure : Bool) where
  pub reserve-Refines :
      (sku : String) (quantity : ℕ)
      → Refines order.id
          (reserve_inventory_step mechanism order sku quantity simulate_failure)
          (attempt simulate_failure (step reserve_inventory) (reserve_work order.id sku quantity))
  unfolding reserve_inventory_step reserve_work
  reserve-Refines sku quantity =
      run_step-Refines _ (reserve_work order.id sku quantity) (λ t h. ground arith)

  pub capture-Refines :
      (amount : ℕ)
      → Refines order.id
          (capture_payment_step mechanism order amount simulate_failure)
          (attempt simulate_failure (step capture_payment) (capture_work order.id amount))
  unfolding capture_payment_step capture_work
  capture-Refines amount = run_step-Refines _ (capture_work order.id amount) (λ t h. ground arith)

  pub shipment-Refines :
      Refines order.id
        (create_shipment_step mechanism order simulate_failure)
        (attempt simulate_failure (step create_shipment) (shipment_work order.id))
  unfolding create_shipment_step shipment_work
  shipment-Refines = run_step-Refines _ (shipment_work order.id) (λ t h. ground arith)

-- The order table's numbers come from its sequence.
abbrev pub NumbersBelow : Tables → Type 0
NumbersBelow t = Below t.sequences.next_order t.orders

-- The new order can be referenced.
abbrev pub Exists : StepOutcome OrderRef → Tables → Type 0
Exists (failed reason) t = Unit
Exists (succeeded order) t = references_order (some order.id) t ≡ true

pub create_order_lem :
    (mechanism : Mechanism) (input : OrderSagaInput) (simulate_failure : Bool) (db : Db)
    → NumbersBelow db.tables
    → let (o, t) =
        attempt simulate_failure
          (step create_order)
          (insert_order input.customer_name input.amount_cents)
          db.tables in
      ((create_order_step mechanism input simulate_failure db).0 ≡ ok o)
      × ((create_order_step mechanism input simulate_failure db).1.tables ≡ t)
      × Exists o t
unfolding create_order_step attempt insert_order insert_saga_log
create_order_lem mechanism input true db b = (refl, refl, tt)
create_order_lem mechanism input false db b =
    let n = db.tables.sequences.next_order in
    let order : Order = record {
      public_id = db.tables.sequences.public_id_of n;
      customer_name = input.customer_name;
      amount_cents = input.amount_cents;
      status = pending;
    } in
    ground (arith, lookup-append_new n n order db.tables.orders b)

pub >>=-runs {ℓ κ} :
    {A : Type ℓ} {B : Type κ} (m : Action A) (k : A → Action B) (db : Db) {a : A}
    → (m db).0 ≡ ok a
    → (m >>= k) db ≡ k a (m db).1
>>=-runs m k db e = rw (e, ◌>>=◌)

pub >>=-at {ℓ κ} :
    {A : Type ℓ} {B : Type κ} (m : Action A) (k : A → Action B) (db : Db) {a : A} {db' : Db}
    → m db ≡ (ok a, db')
    → (m >>= k) db ≡ k a db'
>>=-at m k db {a} e = >>=-runs m k db (ap (λ c. c.0) e) ∙ ap (λ c. k a c.1) e
