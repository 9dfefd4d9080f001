-- ===== src/Capstone/Naive.antt =====
-- A checkout that is sent again without a key: checkout/checkout-naive.ts of
-- labs/40-production-capstone/src.
use systems_engineering_lab.Prelude.{
  ℕ, suc, ◌+◌, ◌<◌, ◌≡◌, refl, Bool, true, false, ◌||◌, Option, none, some, List, [], ◌∷◌, arith,
  lt→ltb, if◌then◌else◌, Bool-cases, inl, inr, sym, subst, ==_refl, length,
}
use systems_engineering_lab.Prelude.Table.{Table, lookup, modify, lookup-modify}
use systems_engineering_lab.Prelude.Unique.{contains}
use systems_engineering_lab.Capstone.{Seat, Order, Db}
use systems_engineering_lab.Capstone.Orders.{orders_for}
use systems_engineering_lab.Capstone.Checkout.{
  CheckoutInput, created, with_order, sold_seat, order_of, find_order, checkout_naive, held_by_me,
  already_sold_to_me, naive_row,
}

-- The calls of a client that sends its request again and again, each under the key drawn for it.
abbrev pub send_all : ℕ → List ℕ → CheckoutInput → Db → Db
send_all now [] i db = db
send_all now (key ∷ keys) i db = send_all now keys i (checkout_naive now key i db).1

-- The keys are new, and no two are the same.
abbrev pub AllFresh : List ℕ → Table Order → Type 0
AllFresh [] orders = Unit
AllFresh (key ∷ keys) orders =
    (find_order key orders ≡ none) × (contains keys key ≡ false) × AllFresh keys orders

abbrev mine : CheckoutInput → Option Seat → Bool
mine i none = false
mine i (some seat) = held_by_me i seat || already_sold_to_me i seat

AllFresh-order :
    (k n : ℕ) (i : CheckoutInput) (keys : List ℕ) (os : Table Order)
    → contains keys k ≡ false
    → AllFresh keys os
    → AllFresh keys ((n, order_of k i) ∷ os)
AllFresh-order k n i [] os c f = tt
AllFresh-order k n i (key ∷ keys) os c f =
    (ground (arith, c, f.0), f.1, AllFresh-order k n i keys os (ground (arith, c)) f.2)

sold_is_mine :
    (i : CheckoutInput) (seat : Seat) → mine i (some (sold_seat i.customer_id seat)) ≡ true
sold_is_mine i seat = ground arith

naive_row-Sent :
    (now key : ℕ) (i : CheckoutInput) (db : Db) (o : Option Seat)
    → lookup i.seat_id db.seats ≡ o
    → mine i o ≡ true
    → find_order key db.orders ≡ none
    → 0 < i.amount_cents
    → (seats : Table Seat) × (naive_row now key i db o
        ≡ (created db.next_order, with_order now key i seats db))
      × (mine i (lookup i.seat_id seats) ≡ true)
naive_row-Sent now key i db none l m f p = ground (arith, m)
naive_row-Sent now key i db (some s) l m f p =
    let may : (held_by_me i s || already_sold_to_me i s) ≡ true = m in
    (
      if held_by_me i s then modify i.seat_id (sold_seat i.customer_id) db.seats else db.seats,
      rw may (rw f (rw (lt→ltb 0 i.amount_cents p) refl)),
      elim (Bool-cases (held_by_me i s)) [
        | inl held ↦ rw held (
            rw (lookup-modify i.seat_id i.seat_id (sold_seat i.customer_id) db.seats)
              (rw (==_refl i.seat_id) (rw l (sold_is_mine i s))))
        | inr before ↦ rw before (rw l m)
      ],
    )

-- So many more orders for the seat, and events.
abbrev pub Sold : ℕ → ℕ → Db → Db → Type 0
Sold n seat_id db db' =
    (orders_for seat_id db'.orders ≡ n + orders_for seat_id db.orders)
    × (length db'.outbox_events ≡ n + length db.outbox_events)

one-Sold :
    (now key : ℕ) (i : CheckoutInput) (seats : Table Seat) (db : Db)
    → Sold 1 i.seat_id db (with_order now key i seats db)
one-Sold now key i seats db = (rw (==_refl i.seat_id) refl, omega arith)

all-Sold :
    (now : ℕ) (keys : List ℕ) (i : CheckoutInput) (db : Db)
    → mine i (lookup i.seat_id db.seats) ≡ true
    → 0 < i.amount_cents
    → AllFresh keys db.orders
    → Sold (length keys) i.seat_id db (send_all now keys i db)
unfolding checkout_naive
all-Sold now [] i db m p f = (omega arith, omega arith)
all-Sold now (key ∷ keys) i db m p f =
    let (seats, e, still) = naive_row-Sent now key i db (lookup i.seat_id db.seats) refl m f.0 p in
    let db' = with_order now key i seats db in
    let one = one-Sold now key i seats db in
    let more =
      all-Sold now keys i db' still p (AllFresh-order key db.next_order i keys db.orders f.1 f.2) in
    subst (λ x. Sold (suc (length keys)) i.seat_id db (send_all now keys i x.1)) (sym e)
      (omega (arith, one.0, more.0), omega (arith, one.1, more.1))

-- Each call of the naive checkout, for a seat that the customer holds by the token or that is sold to
-- the customer, with a positive amount and a key of its own that is new, creates one more order for
-- the one seat, and one more event.
pub send_all_sells_again :
    (now : ℕ) (keys : List ℕ) (i : CheckoutInput) (db : Db) (seat : Seat)
    → lookup i.seat_id db.seats ≡ some seat
    → (held_by_me i seat || already_sold_to_me i seat) ≡ true
    → 0 < i.amount_cents
    → AllFresh keys db.orders
    → Sold (length keys) i.seat_id db (send_all now keys i db)
send_all_sells_again now keys i db seat l m p f = all-Sold now keys i db (rw l m) p f
