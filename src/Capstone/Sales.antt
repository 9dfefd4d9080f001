-- ===== src/Capstone/Sales.antt =====
-- That every step of the shop keeps what Capstone/Orders.antt asks of the orders.
use systems_engineering_lab.Prelude.{
  ℕ, ◌+◌, ◌≤◌, ◌≡◌, refl, Option, none, some, [], ◌∷◌, arith, ◌==◌, if◌then◌else◌, Bool-cases, inl,
  inr, sym, ap, ◌∙◌, subst, ==→eq, ==_refl,
}
use systems_engineering_lab.Prelude.Table.{Table, lookup, modify, lookup-modify}
use systems_engineering_lab.Capstone.{
  Seat, Order, OutboxEvent, Db, reserve_seat, ReservationOutcome, seat_reserved, seat_unavailable,
  held_for,
}
use systems_engineering_lab.Capstone.Checkout.{
  CheckoutInput, CheckoutResult, created, duplicate, rejected, thrown, number_used,
  checkout_idempotent, sold_seat,
}
use systems_engineering_lab.Capstone.Cases.{
  Checked, Created, checkout_idempotent-Checked, Reserved, reserve_seat-Reserved,
}
use systems_engineering_lab.Capstone.Outbox.{
  candidate, taken, claim_row, claim_next_event, row_published, mark_published, row_failed,
  mark_publish_failed,
}
use systems_engineering_lab.Capstone.Orders.{
  ids, confirmed, orders_for, orders_under, sold_count, buyer, Inv, modify-confirmed, unused_key,
  Bought-same, Bought-others, unsold, unsold_held,
}
use systems_engineering_lab.Capstone.Steps.{
  Step, reserving, checking_out, claiming, publishing, failing, Steps, start, after_step,
}

same_orders : (db : Db) → Inv db → Inv (number_used db)
same_orders db inv = record {
  events = inv.events;
  one_for_seat = inv.one_for_seat;
  buyers = inv.buyers;
  one_under_key = inv.one_under_key;
}

event_modified :
    (k : ℕ) (f : OutboxEvent → OutboxEvent) (db : Db)
    → ((e : OutboxEvent) → (f e).payload ≡ e.payload)
    → Inv db
    → Inv (record db { outbox_events = modify k f db.outbox_events })
event_modified k f db h inv = record {
  events = modify-confirmed k f db.outbox_events h ∙ inv.events;
  one_for_seat = inv.one_for_seat;
  buyers = inv.buyers;
  one_under_key = inv.one_under_key;
}

row_published-payload : (w : ℕ) (e : OutboxEvent) → (row_published w e).payload ≡ e.payload
row_published-payload w e = ground arith

row_failed-payload : (w : ℕ) (e : OutboxEvent) → (row_failed w e).payload ≡ e.payload
row_failed-payload w e = ground arith

held_for-buyer :
    (now token customer_id hold_minutes k s : ℕ) (seats : Table Seat)
    → buyer (lookup s (modify k (held_for now token customer_id hold_minutes) seats))
      ≡ buyer (lookup s seats)
held_for-buyer now token customer_id hold_minutes k s seats =
    ground (arith, lookup-modify k s (held_for now token customer_id hold_minutes) seats)

-- A seat of which nothing was sold may change as it likes.
room :
    (k s : ℕ) (f : Seat → Seat) (seat : Seat) (seats : Table Seat) (os : Table Order)
    → lookup k seats ≡ some seat
    → sold_count (some seat) ≡ 0
    → orders_for s os ≤ sold_count (lookup s seats)
    → orders_for s os ≤ sold_count (lookup s (modify k f seats))
room k s f seat seats os l z h = rw (lookup-modify k s f seats) (elim (Bool-cases (k == s)) [
  | inl here ↦
      let e : sold_count (lookup s seats) ≡ 0 =
        ap (λ x. sold_count (lookup x seats)) (sym (==→eq k s here)) ∙ ap sold_count l ∙ z in
      omega (arith, h, e)
  | inr there ↦ rw there h
])

reserving-Inv :
    (now token seat_id customer_id hold_minutes : ℕ) (db : Db) (ended : ReservationOutcome × Db)
    → Reserved now token seat_id customer_id hold_minutes db ended
    → Inv db
    → Inv ended.1
reserving-Inv now token seat_id customer_id hold_minutes db (seat_reserved t, db') r inv =
    let f = held_for now token customer_id hold_minutes in
    subst Inv (sym r.3) (record {
      events = inv.events;
      one_for_seat =
          λ s. room seat_id s f r.0 db.seats db.orders r.1 (unsold r.0 r.2) (inv.one_for_seat s);
      buyers =
          Bought-same db.seats (modify seat_id f db.seats) db.orders
            (λ s. held_for-buyer now token customer_id hold_minutes seat_id s db.seats) inv.buyers;
      one_under_key = inv.one_under_key;
    })
reserving-Inv now token seat_id customer_id hold_minutes db (seat_unavailable, db') r inv =
    subst Inv (sym r) inv

-- With the new order its seat is sold, and no other order is for it.
sold_room :
    (k s c : ℕ) (seat : Seat) (seats : Table Seat) (os : Table Order)
    → lookup k seats ≡ some seat
    → orders_for k os ≡ 0
    → orders_for s os ≤ sold_count (lookup s seats)
    → (if k == s then 1 else 0) + orders_for s os
      ≤ sold_count (lookup s (modify k (sold_seat c) seats))
sold_room k s c seat seats os l z h =
    rw (lookup-modify k s (sold_seat c) seats) (elim (Bool-cases (k == s)) [
      | inl here ↦
          let e : k ≡ s = ==→eq k s here in
          let none_yet : orders_for s os ≡ 0 = subst (λ x. orders_for x os ≡ 0) e z in
          let row : lookup s seats ≡ some seat = subst (λ x. lookup x seats ≡ some seat) e l in
          rw here (rw row (omega (arith, none_yet)))
      | inr there ↦ rw there (omega (arith, h))
    ])

new_buyer :
    (k c : ℕ) (seat : Seat) (seats : Table Seat)
    → lookup k seats ≡ some seat
    → buyer (lookup k (modify k (sold_seat c) seats)) ≡ some c
new_buyer k c seat seats l = rw (lookup-modify k k (sold_seat c) seats) (rw (==_refl k) (rw l refl))

one_more :
    (key k : ℕ) (os : Table Order)
    → orders_under key os ≡ 0
    → orders_under k os ≤ 1
    → (if key == k then 1 else 0) + orders_under k os ≤ 1
one_more key k os z h = elim (Bool-cases (key == k)) [
  | inl here ↦
      let none_yet : orders_under k os ≡ 0 =
        subst (λ x. orders_under x os ≡ 0) (==→eq key k here) z in
      rw here (omega (arith, none_yet))
  | inr there ↦ rw there (omega (arith, h))
]

Created-Inv :
    (now key : ℕ) (i : CheckoutInput) (db db' : Db) (order_id : ℕ)
    → Created now key i db order_id db'
    → Inv db
    → Inv db'
Created-Inv now key i db db' order_id c inv =
    let none_yet : orders_for i.seat_id db.orders ≡ 0 =
      let h = inv.one_for_seat i.seat_id in
      let e : sold_count (lookup i.seat_id db.seats) ≡ 0 =
        ap sold_count c.row ∙ unsold_held now i c.seat c.held in
      omega (arith, h, e) in
    subst Inv (sym c.after) (record {
      events = ap (λ l. db.next_order ∷ l) inv.events;
      one_for_seat = λ s.
          sold_room i.seat_id s i.customer_id c.seat db.seats db.orders c.row none_yet
            (inv.one_for_seat s);
      buyers = (
        new_buyer i.seat_id i.customer_id c.seat db.seats c.row,
        Bought-others i.seat_id (sold_seat i.customer_id) db.seats db.orders none_yet inv.buyers,
      );
      one_under_key =
          λ k. one_more key k db.orders (unused_key key db.orders c.new_key) (inv.one_under_key k);
    })

checking_out-Inv :
    (now key : ℕ) (i : CheckoutInput) (db : Db) (ended : CheckoutResult × Db)
    → Checked now key i db ended
    → Inv db
    → Inv ended.1
checking_out-Inv now key i db (created n, db') c inv = Created-Inv now key i db db' n c inv
checking_out-Inv now key i db (duplicate n, db') c inv = subst Inv (sym c.1) (same_orders db inv)
checking_out-Inv now key i db (rejected, db') c inv = subst Inv (sym c) (same_orders db inv)
checking_out-Inv now key i db (thrown, db') c inv = subst Inv (sym c) (same_orders db inv)

claim_row-Inv :
    (now w lease_ms : ℕ) (db : Db) (o : Option (ℕ × OutboxEvent))
    → Inv db
    → Inv (claim_row now w lease_ms db o).1
claim_row-Inv now w lease_ms db none inv = inv
claim_row-Inv now w lease_ms db (some (j, d)) inv =
    event_modified j (taken now w lease_ms) db (λ e. refl) inv

Step-Inv : {db db' : Db} → Step db db' → Inv db → Inv db'
unfolding claim_next_event mark_published mark_publish_failed
Step-Inv {db} (reserving now token seat_id customer_id hold_minutes) inv =
    reserving-Inv now token seat_id customer_id hold_minutes db
      (reserve_seat now token seat_id customer_id hold_minutes db)
      (reserve_seat-Reserved now token seat_id customer_id hold_minutes db) inv
Step-Inv {db} (checking_out now key i) inv =
    checking_out-Inv now key i db (checkout_idempotent now key i db)
      (checkout_idempotent-Checked now key i db) inv
Step-Inv {db} (claiming now locked w lease_ms) inv =
    claim_row-Inv now w lease_ms db (candidate now locked db.outbox_events) inv
Step-Inv {db} (publishing j w) inv =
    event_modified j (row_published w) db (row_published-payload w) inv
Step-Inv {db} (failing j w) inv = event_modified j (row_failed w) db (row_failed-payload w) inv

-- From a shop without orders and events, in any order of reservations, checkouts under a key,
-- claims and reports: the events are about the orders, one for each and in their order; a seat has
-- at most one order, and none if it is not sold; the seat of each order is sold to its customer;
-- and no two orders are under one key.
pub Steps-Inv : {db db' : Db} → db.orders ≡ [] → db.outbox_events ≡ [] → Steps db db' → Inv db'
Steps-Inv {db} no_orders no_events start = record {
  events = ap confirmed no_events ∙ sym (ap ids no_orders);
  one_for_seat = λ s. rw no_orders (omega arith);
  buyers = rw no_orders tt;
  one_under_key = λ k. rw no_orders (omega arith);
}
Steps-Inv no_orders no_events (after_step before step) =
    Step-Inv step (Steps-Inv no_orders no_events before)
