-- ===== src/Capstone.antt =====
-- The ticket shop of labs/40-production-capstone/src: the tables of db/schema.ts that the checkout and
-- the outbox use, and the reservation of a seat, seats/reserve-seat.ts.
-- A `public_id`, a token, a key, a customer and a correlation id are numbers, since the code only
-- compares them; an order's number stands for both of its identities. Times are in milliseconds.
-- The tables stand with their newest row first.
pub mod Checkout
pub mod Outbox
pub mod Steps
pub mod Cases
pub mod Orders
pub mod Retries
pub mod Naive
pub mod Sales
pub mod Events
pub mod Published
mod Tests
use systems_engineering_lab.Prelude.{
  ℕ, ◌+◌, ◌*◌, Bool, true, false, Option, none, some, List, ◌==◌, ltb, if◌then◌else◌,
}
use systems_engineering_lab.Prelude.Table.{Table, lookup, modify}

pub data SeatStatus : Type 0 where
  available reserved sold : SeatStatus

pub record Seat : Type 0 where
  pub status : SeatStatus
  pub reservation_token : Option ℕ
  pub reserved_by : Option ℕ
  pub reserved_until : Option ℕ
  pub sold_to : Option ℕ

pub record Order : Type 0 where
  pub idempotency_key : ℕ
  pub seat_id : ℕ
  pub customer_id : ℕ
  pub customer_email : ℕ
  pub amount_cents : ℕ
  pub correlation_id : ℕ

pub data EventStatus : Type 0 where
  pending processing published failed : EventStatus

pub record Payload : Type 0 where
  pub order_public_id : ℕ
  pub correlation_id : ℕ
  pub customer_email : ℕ
  pub amount_cents : ℕ

pub record OutboxEvent : Type 0 where
  pub payload : Payload
  pub status : EventStatus
  pub locked_by : Option ℕ
  pub locked_until : Option ℕ
  pub attempts : ℕ
  pub max_attempts : ℕ
  pub created_at : ℕ

pub record Db : Type 0 where
  pub seats : Table Seat
  pub orders : Table Order
  pub next_order : ℕ
  pub outbox_events : Table OutboxEvent
  pub next_event : ℕ

abbrev pub is_available : SeatStatus → Bool
is_available SeatStatus.available = true
is_available SeatStatus.reserved = false
is_available SeatStatus.sold = false

abbrev pub is_reserved : SeatStatus → Bool
is_reserved SeatStatus.available = false
is_reserved SeatStatus.reserved = true
is_reserved SeatStatus.sold = false

abbrev pub is_sold : SeatStatus → Bool
is_sold SeatStatus.available = false
is_sold SeatStatus.reserved = false
is_sold SeatStatus.sold = true

-- A column that may be NULL, against a value.
abbrev pub equals : ℕ → Option ℕ → Bool
equals k none = false
equals k (some j) = j == k

pub data ReservationOutcome : Type 0 where
  seat_reserved : ℕ → ReservationOutcome
  seat_unavailable : ReservationOutcome

abbrev pub held_for : ℕ → ℕ → ℕ → ℕ → Seat → Seat
held_for now token customer_id hold_minutes seat = record seat {
  status = SeatStatus.reserved;
  reservation_token = some token;
  reserved_by = some customer_id;
  reserved_until = some (now + hold_minutes * 60000);
}

-- The UPDATE, and what is answered, by the row of the seat.
abbrev pub reserve_row : ℕ → ℕ → ℕ → ℕ → ℕ → Db → Option Seat → ReservationOutcome × Db
reserve_row now token seat_id customer_id hold_minutes db none = (seat_unavailable, db)
reserve_row now token seat_id customer_id hold_minutes db (some seat) =
    if is_available seat.status
    then (
      seat_reserved token,
      record db { seats = modify seat_id (held_for now token customer_id hold_minutes) db.seats },
    )
    else (seat_unavailable, db)

-- `token` is the random `reservationToken`.
unfoldable pub reserve_seat : ℕ → ℕ → ℕ → ℕ → ℕ → Db → ReservationOutcome × Db
reserve_seat now token seat_id customer_id hold_minutes db =
    reserve_row now token seat_id customer_id hold_minutes db (lookup seat_id db.seats)

abbrev freed_seat : Seat
freed_seat = record {
  status = SeatStatus.available;
  reservation_token = none;
  reserved_by = none;
  reserved_until = none;
  sold_to = none;
}

unfoldable pub reset_seat_to_available : ℕ → Db → Db
reset_seat_to_available seat_id db = record db { seats = modify seat_id (λ s. freed_seat) db.seats }
