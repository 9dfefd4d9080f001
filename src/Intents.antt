-- ===== src/Intents.antt =====
-- labs/16-transactional-outbox/src: an order and the intent to publish it, written together or
-- apart, and the script that publishes the intents.
pub mod Paired
pub mod Drain
pub mod Once
pub mod Emptied
mod Tests
use systems_engineering_lab.Prelude.{
  ℕ, ◌+◌, Bool, true, false, ◌&&◌, Option, none, some, List, [], ◌∷◌, ◌++◌, ltb, leb, if◌then◌else◌,
}
use systems_engineering_lab.Prelude.Table.{Table}

-- A number of cents, which a caller may give as negative.
pub data Cents : Type 0 where
  plus : ℕ → Cents
  minus : ℕ → Cents

pub record Order : Type 0 where
  pub customer_name : ℕ
  pub amount_cents : Cents

-- { orderId, amountCents } and { customerName, amountCents }
pub data Payload : Type 0 where
  of_order : ℕ → Cents → Payload
  of_customer : ℕ → Cents → Payload

pub data EventType : Type 0 where
  order_created : EventType
  order_created_typo_bug : EventType

-- `aggregate_type` is always 'order'.
pub record OutboxEvent : Type 0 where
  pub aggregate_id : ℕ
  pub event_type : EventType
  pub payload : Payload
  pub created_at : ℕ
  pub published_at : Option ℕ

-- The two tables, each with the next number of its identity column, newest row first.
pub record Db : Type 0 where
  pub orders : Table Order
  pub next_order : ℕ
  pub outbox_events : Table OutboxEvent
  pub next_event : ℕ

pub record BrokerEvent : Type 0 where
  pub kind : EventType
  pub subject : ℕ
  pub body : Payload

abbrev pub max_int4 : ℕ
max_int4 = 2147483647

abbrev pub magnitude : Cents → ℕ
magnitude (plus n) = n
magnitude (minus n) = n

-- The integer column takes the number.
abbrev pub in_int4 : Cents → Bool
in_int4 (plus n) = leb n max_int4
in_int4 (minus n) = leb n (max_int4 + 1)

-- CHECK (amount_cents > 0)
abbrev pub is_positive : Cents → Bool
is_positive (plus n) = ltb 0 n
is_positive (minus n) = false

-- INSERT INTO orders: the number of the row, if it does not throw. A refused row has used its number.
unfoldable pub insert_order : ℕ → Cents → Db → Option ℕ × Db
insert_order customer_name amount_cents db =
    if in_int4 amount_cents
    then if is_positive amount_cents
      then (
        some db.next_order,
        record db {
          orders =
              (db.next_order, record { customer_name = customer_name; amount_cents = amount_cents })
              ∷ db.orders;
          next_order = db.next_order + 1;
        },
      )
      else (none, record db { next_order = db.next_order + 1 })
    else (none, db)

-- event_type in ('OrderCreated')
abbrev pub is_allowed : EventType → Bool
is_allowed order_created = true
is_allowed order_created_typo_bug = false

-- INSERT INTO outbox_events.
unfoldable pub insert_event : ℕ → EventType → ℕ → Cents → Db → Option ℕ × Db
insert_event now event_type order_id amount_cents db =
    if is_allowed event_type
    then (
      some db.next_event,
      record db {
        outbox_events =
            (
              db.next_event,
              record {
                aggregate_id = order_id;
                event_type = event_type;
                payload = of_order order_id amount_cents;
                created_at = now;
                published_at = none;
              },
            )
            ∷ db.outbox_events;
        next_event = db.next_event + 1;
      },
    )
    else (none, record db { next_event = db.next_event + 1 })

-- ROLLBACK: the rows are those before the transaction; the numbers stay used.
abbrev pub rolled_back : Db → Db → Db
rolled_back before db = record db { orders = before.orders; outbox_events = before.outbox_events }

pub record TransactionalOutboxOptions : Type 0 where
  pub customer_name : ℕ
  pub amount_cents : Cents
  pub inject_outbox_insert_failure : Bool

pub data TransactionalOutboxResult : Type 0 where
  committed : ℕ → ℕ → TransactionalOutboxResult
  not_committed : TransactionalOutboxResult

abbrev pub with_event : Db → ℕ → Option ℕ × Db → TransactionalOutboxResult × Db
with_event before order_id (none, db) = (not_committed, rolled_back before db)
with_event before order_id (some event_id, db) = (committed order_id event_id, db)

abbrev pub with_order :
    ℕ → TransactionalOutboxOptions → Db → Option ℕ × Db → TransactionalOutboxResult × Db
unfolding insert_event
with_order now opts before (none, db) = (not_committed, rolled_back before db)
with_order now opts before (some order_id, db) = with_event before order_id (
    insert_event now
      (if opts.inject_outbox_insert_failure then order_created_typo_bug else order_created) order_id
      opts.amount_cents db)

unfoldable pub perform_transactional_order_creation :
    ℕ → TransactionalOutboxOptions → Db → TransactionalOutboxResult × Db
unfolding insert_order
perform_transactional_order_creation now opts db =
    with_order now opts db (insert_order opts.customer_name opts.amount_cents db)

-- The broker of the scenarios: what it has received, and whether every call fails.
pub data FailureMode : Type 0 where
  always : FailureMode
  never : FailureMode

unfoldable pub publish_to_broker :
    FailureMode → BrokerEvent → List BrokerEvent → Bool × List BrokerEvent
publish_to_broker always e sent = (false, sent)
publish_to_broker never e sent = (true, sent ++ e ∷ [])

-- What the naive ways return; `threw` is an error that reaches the caller.
pub data NaiveResult : Type 0 where
  order_and_broker : ℕ → Bool → NaiveResult
  broker_and_order : Option ℕ → NaiveResult
  threw : NaiveResult

abbrev pub then_publish :
    Cents → List BrokerEvent → Option ℕ × Db → NaiveResult × Db × List BrokerEvent
unfolding publish_to_broker
then_publish amount_cents sent (none, db) = (threw, db, sent)
then_publish amount_cents sent (some order_id, db) =
    let p =
      publish_to_broker always
        (record { kind = order_created; subject = order_id; body = of_order order_id amount_cents })
        sent in
    (order_and_broker order_id p.0, db, p.1)

unfoldable pub perform_naive_order_then_broker_publish :
    ℕ → Cents → Db → List BrokerEvent → NaiveResult × Db × List BrokerEvent
unfolding insert_order
perform_naive_order_then_broker_publish customer_name amount_cents db sent =
    then_publish amount_cents sent (insert_order customer_name amount_cents db)

-- -Math.abs(n)
abbrev pub minus_abs : Cents → Cents
minus_abs a = minus (magnitude a)

-- The event is published before an order exists, under the number 0.
unfoldable pub perform_naive_broker_publish_then_order :
    ℕ → Cents → Db → List BrokerEvent → NaiveResult × Db × List BrokerEvent
unfolding publish_to_broker insert_order
perform_naive_broker_publish_then_order customer_name amount_cents db sent =
    let p =
      publish_to_broker never
        (record {
          kind = order_created;
          subject = 0;
          body = of_customer customer_name amount_cents;
        })
        sent in
    let o = insert_order customer_name (minus_abs amount_cents) db in
    (broker_and_order o.0, o.1, p.1)
