-- ===== src/Saga/Db.antt =====
-- The tables of labs/20-sagas-and-distributed-workflows/src/db/schema.ts, the types of
-- domain/types.ts, and the log of domain/saga-log.ts. The identity columns count up, and
-- a rolled-back transaction does not give its numbers back. Texts that only describe (names in
-- `inventory_items`, `detail`, timestamps) are left out. A reason is a value of `Error`.
use text.Mathlib.Text.{◌==◌ as str_eq}
use Prim.Native.String.{String}
use systems_engineering_lab.Prelude.{
  ℕ, Bool, true, false, Option, none, some, List, [], ◌∷◌, if◌then◌else◌,
}
use systems_engineering_lab.Prelude.Table.{Table, lookup}

pub data OrderStatus : Type 0 where
  pending completed cancelled : OrderStatus

pub record Order : Type 0 where
  pub public_id : String
  pub customer_name : String
  pub amount_cents : ℕ
  pub status : OrderStatus

pub record InventoryItem : Type 0 where
  pub sku : String
  pub available_quantity : ℕ

pub data ReservationStatus : Type 0 where
  reserved released : ReservationStatus

pub record InventoryReservation : Type 0 where
  pub order_id : ℕ
  pub item_id : ℕ
  pub quantity : ℕ
  pub status : ReservationStatus

pub data PaymentStatus : Type 0 where
  captured refunded : PaymentStatus

pub record Payment : Type 0 where
  pub order_id : ℕ
  pub amount_cents : ℕ
  pub status : PaymentStatus

pub record Shipment : Type 0 where
  pub order_id : ℕ

-- The next value of each identity column, and of `gen_random_uuid()` for each order.
pub record Sequences : Type 0 where
  pub next_order : ℕ
  pub next_reservation : ℕ
  pub next_payment : ℕ
  pub next_shipment : ℕ
  pub public_id_of : ℕ → String

pub record Tables : Type 0 where
  pub orders : Table Order
  pub inventory_items : Table InventoryItem
  pub inventory_reservations : Table InventoryReservation
  pub payments : Table Payment
  pub shipments : Table Shipment
  pub sequences : Sequences

pub data StepName : Type 0 where
  create_order reserve_inventory capture_payment create_shipment : StepName

pub data Mechanism : Type 0 where
  orchestration choreography : Mechanism

pub data Direction : Type 0 where
  forward compensate : Direction

pub data EventName : Type 0 where
  order_created inventory_reserved payment_captured shipment_created : EventName
  inventory_reservation_failed payment_failed shipment_failed : EventName
  payment_refunded inventory_released order_cancelled : EventName

-- `step_name` of a log row: a forward step, one of the other steps, or an event.
pub data LogName : Type 0 where
  step : StepName → LogName
  complete_order refund_payment release_inventory cancel_order : LogName
  event : EventName → LogName

pub data LogOutcome : Type 0 where
  success failure published consumed : LogOutcome

pub record SagaLogInput : Type 0 where
  pub order_id : Option ℕ
  pub mechanism : Mechanism
  pub step_name : LogName
  pub direction : Direction
  pub outcome : LogOutcome

pub record Db : Type 0 where
  pub tables : Tables
  -- newest first
  pub saga_log : List SagaLogInput

-- What a step or a handler throws.
pub data Error : Type 0 where
  saga_step_error : LogName → Error
  unknown_sku insufficient_inventory : Error
  order_does_not_exist : Error
  check_violation foreign_key_violation : Error
  too_deep : Error

pub data Result {ℓ} (A : Type ℓ) : Type ℓ where
  ok : A → Result A
  throws : Error → Result A

-- A function of the program on the database: what is committed stays after a throw.
abbrev pub Action {ℓ} : Type ℓ → Type ℓ
Action A = Db → Result A × Db

infixl 5 ◌>>=◌ ◌>>◌
abbrev pub ◌>>=◌ {ℓ κ} : {A : Type ℓ} {B : Type κ} → Action A → (A → Action B) → Action B
◌>>=◌ m f db = let (r, db') = m db in elim r [ ok a ↦ f a db' | throws e ↦ (throws e, db') ]

abbrev pub ◌>>◌ {ℓ κ} : {A : Type ℓ} {B : Type κ} → Action A → Action B → Action B
m >> k = m >>= λ _. k

abbrev pub pure {ℓ} : {A : Type ℓ} → A → Action A
pure a db = (ok a, db)

-- The statements of one transaction act on the tables.
abbrev pub Work {ℓ} : Type ℓ → Type ℓ
Work A = Tables → Result A × Tables

abbrev pub is_some {ℓ} : {A : Type ℓ} → Option A → Bool
is_some none = false
is_some (some a) = true

-- The foreign key `order_id`, which may be null in `saga_log` alone.
abbrev pub references_order : Option ℕ → Tables → Bool
references_order none t = true
references_order (some id) t = is_some (lookup id t.orders)

-- `insertSagaLog`
unfoldable pub insert_saga_log : SagaLogInput → Action (Unit {0})
insert_saga_log input db =
    if references_order input.order_id db.tables
    then (ok tt, record db { saga_log = input ∷ db.saga_log })
    else (throws foreign_key_violation, db)

-- SELECT id, … FROM inventory_items WHERE sku = $1
abbrev pub find_item : String → Table InventoryItem → Option (ℕ × InventoryItem)
find_item sku [] = none
find_item sku ((id, item) ∷ items) =
    if str_eq item.sku sku then some (id, item) else find_item sku items
