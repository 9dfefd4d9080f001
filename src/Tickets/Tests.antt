-- ===== src/Tickets/Tests.antt =====
-- Runs of the ticket transactions on a small table.
use systems_engineering_lab.Prelude.{◌+◌, ◌≤◌, ◌≡◌, refl, true, none, List, [], ◌∷◌, arith}
use systems_engineering_lab.Prelude.Table.{Table, lookup}
use systems_engineering_lab.Tickets.{
  SeatStatus, Seat, Attempt, attempt_conditional_reservation, attempt_row_lock_reservation,
  expire_reservations, complete_payment,
}
use systems_engineering_lab.Tickets.Rows.{Action, reserving, locking, expiring, paying}
use systems_engineering_lab.Tickets.Sales.{act_all, sales, sold_count, sold_at_most_once}
use systems_engineering_lab.Tickets.Holds.{hold_is_honoured}

abbrev free : Seat
free = record {
  status = SeatStatus.available;
  reservation_token = none;
  reserved_by = none;
  reserved_until = none;
}

abbrev seats : Table Seat
seats = (1, free) ∷ (2, free) ∷ []

-- Two buyers want seat 1 for a minute.
abbrev alice : Attempt
alice = record { seat_id = 1; buyer = 7; token = 40; clock = 1000; hold_minutes = 1 }

abbrev bob : Attempt
bob = record { seat_id = 1; buyer = 8; token = 41; clock = 1200; hold_minutes = 1 }

-- Alice's hold is over before she pays, and Bob takes the seat.
abbrev late : List Action
late =
    reserving alice
    ∷ locking bob
    ∷ expiring 61001
    ∷ locking bob
    ∷ paying 61100 1 40
    ∷ paying 61150 1 41
    ∷ []

late-sales : sales 1 late seats ≡ 1
unfolding attempt_conditional_reservation attempt_row_lock_reservation expire_reservations
    complete_payment
late-sales = refl

sold_at_most_once_example :
    (sales 1 late seats + sold_count (lookup 1 seats) ≡ sold_count (lookup 1 (act_all late seats)))
    × (sales 1 late seats + sold_count (lookup 1 seats) ≤ 1)
sold_at_most_once_example = sold_at_most_once 1 late seats

hold_is_honoured_example :
    (complete_payment 60999 1 40 (
      act_all
        (locking bob ∷ expiring 60000 ∷ paying 60500 1 41 ∷ [])
        (attempt_conditional_reservation alice seats).1)).0
    ≡ true
unfolding attempt_conditional_reservation
hold_is_honoured_example =
    hold_is_honoured alice (locking bob ∷ expiring 60000 ∷ paying 60500 1 41 ∷ []) seats 60999 refl
      (omega arith, (refl, tt)) (omega arith)
