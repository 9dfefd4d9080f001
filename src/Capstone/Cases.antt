-- ===== src/Capstone/Cases.antt =====
-- The ways that a reservation and a checkout under a key end.
use systems_engineering_lab.Prelude.{
  ℕ, ◌≡◌, refl, true, Option, none, some, ltb, Bool-cases, inl, inr,
}
use systems_engineering_lab.Prelude.Table.{lookup, modify}
use systems_engineering_lab.Capstone.{
  Seat, Db, ReservationOutcome, seat_reserved, seat_unavailable, is_available, held_for,
  reserve_row, reserve_seat,
}
use systems_engineering_lab.Capstone.Checkout.{
  CheckoutInput, CheckoutResult, created, duplicate, rejected, thrown, find_order, sold_seat,
  with_order, number_used, is_held, inserted_order, insert_order, checkout_idempotent,
}

-- The seat is free and is now held, or nothing has changed.
abbrev pub Reserved : ℕ → ℕ → ℕ → ℕ → ℕ → Db → ReservationOutcome × Db → Type 0
Reserved now token seat_id customer_id hold_minutes db (seat_reserved t, db') =
    (seat : Seat) × (lookup seat_id db.seats ≡ some seat)
    × (is_available seat.status ≡ true)
    × (db' ≡ record db {
      seats = modify seat_id (held_for now token customer_id hold_minutes) db.seats;
    })
Reserved now token seat_id customer_id hold_minutes db (seat_unavailable, db') = db' ≡ db

reserve_row-Reserved :
    (now token seat_id customer_id hold_minutes : ℕ) (db : Db) (o : Option Seat)
    → lookup seat_id db.seats ≡ o
    → Reserved now token seat_id customer_id hold_minutes db
        (reserve_row now token seat_id customer_id hold_minutes db o)
reserve_row-Reserved now token seat_id customer_id hold_minutes db none e = refl
reserve_row-Reserved now token seat_id customer_id hold_minutes db (some seat) e =
    elim (Bool-cases (is_available seat.status)) [
      | inl free ↦ rw free (seat, e, free, refl)
      | inr taken ↦ rw taken refl
    ]

pub reserve_seat-Reserved :
    (now token seat_id customer_id hold_minutes : ℕ) (db : Db)
    → Reserved now token seat_id customer_id hold_minutes db
        (reserve_seat now token seat_id customer_id hold_minutes db)
unfolding reserve_seat
reserve_seat-Reserved now token seat_id customer_id hold_minutes db =
    reserve_row-Reserved now token seat_id customer_id hold_minutes db (lookup seat_id db.seats)
      refl

-- What is so where an order is created.
pub record Created (now key : ℕ) (i : CheckoutInput) (db : Db) (id : ℕ) (db' : Db) : Type 0 where
  pub new_key : find_order key db.orders ≡ none
  pub number : id ≡ db.next_order
  pub seat : Seat
  pub row : lookup i.seat_id db.seats ≡ some seat
  pub held : is_held now i seat ≡ true
  pub after : db' ≡ with_order now key i (modify i.seat_id (sold_seat i.customer_id) db.seats) db

abbrev pub Checked : ℕ → ℕ → CheckoutInput → Db → CheckoutResult × Db → Type 0
Checked now key i db (created id, db') = Created now key i db id db'
Checked now key i db (duplicate id, db') =
    (find_order key db.orders ≡ some id) × (db' ≡ number_used db)
Checked now key i db (rejected, db') = db' ≡ number_used db
Checked now key i db (thrown, db') = db' ≡ number_used db

inserted_order-Checked :
    (now key : ℕ) (i : CheckoutInput) (db : Db) (o : Option Seat)
    → find_order key db.orders ≡ none
    → lookup i.seat_id db.seats ≡ o
    → Checked now key i db (inserted_order now key i db o)
inserted_order-Checked now key i db none k e = refl
inserted_order-Checked now key i db (some s) k e = elim (Bool-cases (is_held now i s)) [
  | inl ok ↦
      rw ok (record { new_key = k; number = refl; seat = s; row = e; held = ok; after = refl })
  | inr bad ↦ rw bad refl
]

insert_order-Checked :
    (now key : ℕ) (i : CheckoutInput) (db : Db) (o : Option ℕ)
    → find_order key db.orders ≡ o
    → Checked now key i db (insert_order now key i db o)
insert_order-Checked now key i db none k =
    inserted_order-Checked now key i db (lookup i.seat_id db.seats) k refl
insert_order-Checked now key i db (some id) k = (k, refl)

pub checkout_idempotent-Checked :
    (now key : ℕ) (i : CheckoutInput) (db : Db)
    → Checked now key i db (checkout_idempotent now key i db)
unfolding checkout_idempotent
checkout_idempotent-Checked now key i db = elim (Bool-cases (ltb 0 i.amount_cents)) [
  | inl positive ↦ rw positive (insert_order-Checked now key i db (find_order key db.orders) refl)
  | inr zero_cents ↦ rw zero_cents refl
]
