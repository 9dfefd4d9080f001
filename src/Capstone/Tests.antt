-- ===== src/Capstone/Tests.antt =====
-- Runs of the shop on small tables.
use systems_engineering_lab.Prelude.{◌≡◌, refl, false, none, some, [], ◌∷◌, arith}
use systems_engineering_lab.Prelude.Table.{lookup}
use systems_engineering_lab.Capstone.{SeatStatus, Seat, EventStatus, OutboxEvent, Db, reserve_seat}
use systems_engineering_lab.Capstone.Checkout.{CheckoutInput, checkout_idempotent}
use systems_engineering_lab.Capstone.Outbox.{
  claim_next_event, candidate, mark_published, mark_publish_failed,
}
use systems_engineering_lab.Capstone.Steps.{
  reserving, checking_out, claiming, publishing, failing, Steps, start, after_step,
}
use systems_engineering_lab.Capstone.Orders.{Inv}
use systems_engineering_lab.Capstone.Sales.{Steps-Inv}
use systems_engineering_lab.Capstone.Published.{published_is_final}

abbrev free_seat : Seat
free_seat = record {
  status = SeatStatus.available;
  reservation_token = none;
  reserved_by = none;
  reserved_until = none;
  sold_to = none;
}

abbrev opened : Db
opened = record {
  seats = (1, free_seat) ∷ (2, free_seat) ∷ [];
  orders = [];
  next_order = 1;
  outbox_events = [];
  next_event = 1;
}

-- Customer 7 takes seat 1 with token 40.
abbrev request : CheckoutInput
request = record {
  seat_id = 1;
  customer_id = 7;
  customer_email = 70;
  amount_cents = 4500;
  reservation_token = 40;
  correlation_id = 3;
}

abbrev held : Db
held = (reserve_seat 100 40 1 7 10 opened).1

abbrev bought : Db
bought = (checkout_idempotent 200 900 request held).1

abbrev notified : Db
notified = mark_published 1 5 (claim_next_event 300 (λ id. false) 5 5000 bought).1

-- The publisher reports, another customer tries the seat, the request comes again.
abbrev later_steps : Steps bought notified
later_steps = after_step (after_step start (claiming 300 (λ id. false) 5 5000)) (publishing 1 5)

Steps-Inv_example : Inv notified
Steps-Inv_example = Steps-Inv refl refl (
    after_step
      (after_step
        (after_step (after_step start (reserving 100 40 1 7 10)) (checking_out 200 900 request))
        (claiming 300 (λ id. false) 5 5000))
      (publishing 1 5))

abbrev notice : OutboxEvent
notice = record {
  payload = record {
    order_public_id = 1;
    correlation_id = 3;
    customer_email = 70;
    amount_cents = 4500;
  };
  status = EventStatus.published;
  locked_by = none;
  locked_until = none;
  attempts = 1;
  max_attempts = 3;
  created_at = 200;
}

-- One order has been notified; another one is to come.
abbrev shop : Db
shop = record {
  seats = (1, free_seat) ∷ [];
  orders = [];
  next_order = 2;
  outbox_events = (1, notice) ∷ [];
  next_event = 2;
}

notified_events : notified.outbox_events ≡ shop.outbox_events
unfolding mark_published claim_next_event candidate checkout_idempotent reserve_seat
notified_events = refl

published_is_final_example :
    lookup 1 (mark_publish_failed 1 5 (checkout_idempotent 500 901 request shop).1).outbox_events
    ≡ some notice
published_is_final_example =
    published_is_final 1 notice
      (record { below = (omega arith, tt); distinct = (refl, tt); consistent = (refl, tt) }) refl
      refl (after_step (after_step start (checking_out 500 901 request)) (failing 1 5))
