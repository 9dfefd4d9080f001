-- ===== src/Capstone/Checkout.antt =====
-- labs/40-production-capstone/src/checkout: checkout-idempotent.ts and checkout-naive.ts, each one
-- transaction. What a transaction rolls back does not take back the number that the identity
-- column of `orders` has given.
use systems_engineering_lab.Prelude.{
  ℕ, suc, Bool, false, ◌&&◌, ◌||◌, Option, none, some, [], ◌∷◌, ◌==◌, ltb, if◌then◌else◌,
}
use systems_engineering_lab.Prelude.Table.{Table, lookup, modify}
use systems_engineering_lab.Capstone.{
  SeatStatus, Seat, Order, EventStatus, OutboxEvent, Db, is_reserved, is_sold, equals,
}

pub record CheckoutInput : Type 0 where
  pub seat_id : ℕ
  pub customer_id : ℕ
  pub customer_email : ℕ
  pub amount_cents : ℕ
  pub reservation_token : ℕ
  pub correlation_id : ℕ

pub data CheckoutResult : Type 0 where
  created duplicate : ℕ → CheckoutResult
  rejected : CheckoutResult
  -- a constraint fails, and the error is thrown after the rollback
  thrown : CheckoutResult

-- SELECT … FROM orders WHERE idempotency_key = $1
abbrev pub find_order : ℕ → Table Order → Option ℕ
find_order key [] = none
find_order key ((id, o) ∷ orders) =
    if o.idempotency_key == key then some id else find_order key orders

abbrev pub order_of : ℕ → CheckoutInput → Order
order_of key i = record {
  idempotency_key = key;
  seat_id = i.seat_id;
  customer_id = i.customer_id;
  customer_email = i.customer_email;
  amount_cents = i.amount_cents;
  correlation_id = i.correlation_id;
}

abbrev pub order_confirmed : ℕ → ℕ → CheckoutInput → OutboxEvent
order_confirmed now order_id i = record {
  payload = record {
    order_public_id = order_id;
    correlation_id = i.correlation_id;
    customer_email = i.customer_email;
    amount_cents = i.amount_cents;
  };
  status = EventStatus.pending;
  locked_by = none;
  locked_until = none;
  attempts = 0;
  max_attempts = 3;
  created_at = now;
}

abbrev pub sold_seat : ℕ → Seat → Seat
sold_seat customer_id seat = record seat { status = SeatStatus.sold; sold_to = some customer_id }

-- The tables after the insert into `orders` and the insert into `outbox_events`.
abbrev pub with_order : ℕ → ℕ → CheckoutInput → Table Seat → Db → Db
with_order now key i seats db = record {
  seats = seats;
  orders = (db.next_order, order_of key i) ∷ db.orders;
  next_order = suc db.next_order;
  outbox_events = (db.next_event, order_confirmed now db.next_order i) ∷ db.outbox_events;
  next_event = suc db.next_event;
}

-- The tables after a rollback that comes after the insert into `orders`.
abbrev pub number_used : Db → Db
number_used db = record db { next_order = suc db.next_order }

abbrev pub later_than : ℕ → Option ℕ → Bool
later_than now none = false
later_than now (some until) = ltb now until

-- The condition of the UPDATE of `seats`.
abbrev pub is_held : ℕ → CheckoutInput → Seat → Bool
is_held now i seat =
    is_reserved seat.status
    && equals i.customer_id seat.reserved_by
    && equals i.reservation_token seat.reservation_token
    && later_than now seat.reserved_until

-- After the insert of an order with a new key, by the row of the seat; `orders` references it.
abbrev pub inserted_order : ℕ → ℕ → CheckoutInput → Db → Option Seat → CheckoutResult × Db
inserted_order now key i db none = (thrown, number_used db)
inserted_order now key i db (some seat) =
    if is_held now i seat
    then (
      created db.next_order,
      with_order now key i (modify i.seat_id (sold_seat i.customer_id) db.seats) db,
    )
    else (rejected, number_used db)

-- By the order that has the key already, which is what the SELECT after a conflict reads.
abbrev pub insert_order : ℕ → ℕ → CheckoutInput → Db → Option ℕ → CheckoutResult × Db
insert_order now key i db none = inserted_order now key i db (lookup i.seat_id db.seats)
insert_order now key i db (some id) = (duplicate id, number_used db)

unfoldable pub checkout_idempotent : ℕ → ℕ → CheckoutInput → Db → CheckoutResult × Db
checkout_idempotent now key i db =
    if ltb 0 i.amount_cents
    then insert_order now key i db (find_order key db.orders)
    else (thrown, number_used db)

abbrev pub held_by_me : CheckoutInput → Seat → Bool
held_by_me i seat =
    is_reserved seat.status
    && equals i.customer_id seat.reserved_by
    && equals i.reservation_token seat.reservation_token

abbrev pub already_sold_to_me : CheckoutInput → Seat → Bool
already_sold_to_me i seat = is_sold seat.status && equals i.customer_id seat.sold_to

-- The insert with a key of its own; one that is there already breaks the unique constraint.
abbrev pub naive_insert : ℕ → ℕ → CheckoutInput → Table Seat → Db → Option ℕ → CheckoutResult × Db
naive_insert now key i seats db none =
    if ltb 0 i.amount_cents
    then (created db.next_order, with_order now key i seats db)
    else (thrown, number_used db)
naive_insert now key i seats db (some id) = (thrown, number_used db)

abbrev pub naive_row : ℕ → ℕ → CheckoutInput → Db → Option Seat → CheckoutResult × Db
naive_row now key i db none = (rejected, db)
naive_row now key i db (some seat) =
    if held_by_me i seat || already_sold_to_me i seat
    then naive_insert now key i
        (if held_by_me i seat
          then modify i.seat_id (sold_seat i.customer_id) db.seats
          else db.seats)
        db (find_order key db.orders)
    else (rejected, db)

-- `fresh_key` is the random key of the call.
unfoldable pub checkout_naive : ℕ → ℕ → CheckoutInput → Db → CheckoutResult × Db
checkout_naive now fresh_key i db = naive_row now fresh_key i db (lookup i.seat_id db.seats)
