-- ===== src/Tickets.antt =====
-- The seats of labs/12-ticket-reservation-system/src: scenarios/conditional-reservation.ts,
-- row-lock-reservation.ts, expire-reservations.ts and complete-payment.ts on the table of db/schema.ts.
-- Tokens and buyers are numbers. Times are in milliseconds: `reservedUntilFromNow` takes the
-- caller's clock, and `now` is that of the database.
pub mod Rows
pub mod Sales
pub mod Holds
mod Tests
use systems_engineering_lab.Prelude.{
  ℕ, ◌+◌, ◌*◌, Bool, true, false, ◌&&◌, Option, none, some, List, [], ◌∷◌, ◌==◌, ltb, if◌then◌else◌,
  length,
}
use systems_engineering_lab.Prelude.Table.{Table, lookup, modify}

pub data SeatStatus : Type 0 where
  available reserved sold : SeatStatus

pub record Seat : Type 0 where
  pub status : SeatStatus
  pub reservation_token : Option ℕ
  pub reserved_by : Option ℕ
  pub reserved_until : Option ℕ

abbrev pub is_available : SeatStatus → Bool
is_available SeatStatus.available = true
is_available SeatStatus.reserved = false
is_available SeatStatus.sold = false

abbrev pub is_reserved : SeatStatus → Bool
is_reserved SeatStatus.available = false
is_reserved SeatStatus.reserved = true
is_reserved SeatStatus.sold = false

abbrev pub reserved_until_from_now : ℕ → ℕ → ℕ
reserved_until_from_now clock hold_minutes = clock + hold_minutes * 60000

-- Of a reservation: the seat, its buyer, the random token, and the end of the hold.
pub record Attempt : Type 0 where
  pub seat_id : ℕ
  pub buyer : ℕ
  pub token : ℕ
  pub clock : ℕ
  pub hold_minutes : ℕ

pub data ReservationOutcome : Type 0 where
  seat_reserved : ℕ → ReservationOutcome
  seat_unavailable : ReservationOutcome

abbrev pub held : Attempt → Seat → Seat
held a s = record {
  status = SeatStatus.reserved;
  reservation_token = some a.token;
  reserved_by = some a.buyer;
  reserved_until = some (reserved_until_from_now a.clock a.hold_minutes);
}

-- The UPDATE under its condition, and the answer by its row count.
abbrev pub conditional_update : Attempt → Table Seat → Option Seat → ReservationOutcome × Table Seat
conditional_update a t none = (seat_unavailable, t)
conditional_update a t (some s) =
    if is_available s.status
    then (seat_reserved a.token, modify a.seat_id (held a) t)
    else (seat_unavailable, t)

unfoldable pub attempt_conditional_reservation :
    Attempt → Table Seat → ReservationOutcome × Table Seat
attempt_conditional_reservation a t = conditional_update a t (lookup a.seat_id t)

-- What SELECT … FOR UPDATE has read; the lock is held until the transaction ends.
abbrev pub status_available : Option Seat → Bool
status_available none = false
status_available (some s) = is_available s.status

unfoldable pub attempt_row_lock_reservation : Attempt → Table Seat → ReservationOutcome × Table Seat
attempt_row_lock_reservation a t =
    if status_available (lookup a.seat_id t)
    then (seat_reserved a.token, modify a.seat_id (held a) t)
    else (seat_unavailable, t)

abbrev pub freed : Seat → Seat
freed s = record {
  status = SeatStatus.available;
  reservation_token = none;
  reserved_by = none;
  reserved_until = none;
}

abbrev pub before : ℕ → Option ℕ → Bool
before now none = false
before now (some until) = ltb until now

-- WHERE status = 'RESERVED' AND reserved_until < now()
abbrev pub is_expired : ℕ → Seat → Bool
is_expired now s = is_reserved s.status && before now s.reserved_until

-- The numbers of the seats that have expired, and the table.
unfoldable pub expire_reservations : ℕ → Table Seat → List ℕ × Table Seat
expire_reservations now [] = ([], [])
expire_reservations now ((id, s) ∷ t) =
    let rest = expire_reservations now t in
    if is_expired now s then (id ∷ rest.0, (id, freed s) ∷ rest.1) else (rest.0, (id, s) ∷ rest.1)

abbrev pub equals : ℕ → Option ℕ → Bool
equals k none = false
equals k (some j) = j == k

abbrev pub later_than : ℕ → Option ℕ → Bool
later_than now none = false
later_than now (some until) = ltb now until

-- WHERE status = 'RESERVED' AND reservation_token = $2 AND reserved_until > now()
abbrev pub is_payable : ℕ → ℕ → Seat → Bool
is_payable now token s =
    is_reserved s.status && equals token s.reservation_token && later_than now s.reserved_until

abbrev pub paid : Seat → Seat
paid s = record s { status = SeatStatus.sold }

-- Whether the outcome is `sold`, and the table.
abbrev pub payment_update : ℕ → ℕ → ℕ → Table Seat → Option Seat → Bool × Table Seat
payment_update now seat_id token t none = (false, t)
payment_update now seat_id token t (some s) =
    if is_payable now token s then (true, modify seat_id paid t) else (false, t)

unfoldable pub complete_payment : ℕ → ℕ → ℕ → Table Seat → Bool × Table Seat
complete_payment now seat_id token t = payment_update now seat_id token t (lookup seat_id t)
