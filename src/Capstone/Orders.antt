-- ===== src/Capstone/Orders.antt =====
-- The orders, their seats, their keys and their events: labs/40-production-capstone/src, the checkout
-- under a key with the reservations and the publishers.
use systems_engineering_lab.Prelude.{
  ℕ, ◌+◌, ◌≤◌, ◌≡◌, refl, true, Option, none, some, List, [], ◌∷◌, arith, ◌==◌, if◌then◌else◌,
  Bool-cases, inl, inr, ap, ◌∙◌,
}
use systems_engineering_lab.Prelude.Table.{Table, lookup, modify, lookup-modify}
use systems_engineering_lab.Capstone.{Seat, Order, Payload, OutboxEvent, Db, is_sold, is_available}
use systems_engineering_lab.Capstone.Checkout.{CheckoutInput, find_order, is_held}

abbrev pub ids {ℓ} : {V : Type ℓ} → Table V → List ℕ
ids [] = []
ids ((id, v) ∷ t) = id ∷ ids t

-- The orders that the events are about.
abbrev pub confirmed : Table OutboxEvent → List ℕ
confirmed [] = []
confirmed ((id, e) ∷ rows) = e.payload.order_public_id ∷ confirmed rows

abbrev pub orders_for : ℕ → Table Order → ℕ
orders_for s [] = 0
orders_for s ((id, o) ∷ os) = (if o.seat_id == s then 1 else 0) + orders_for s os

abbrev pub orders_under : ℕ → Table Order → ℕ
orders_under k [] = 0
orders_under k ((id, o) ∷ os) = (if o.idempotency_key == k then 1 else 0) + orders_under k os

abbrev pub sold_count : Option Seat → ℕ
sold_count none = 0
sold_count (some seat) = if is_sold seat.status then 1 else 0

abbrev pub buyer : Option Seat → Option ℕ
buyer none = none
buyer (some seat) = seat.sold_to

-- Each order is of the customer that its seat is sold to.
abbrev pub Bought : Table Seat → Table Order → Type 0
Bought seats [] = Unit
Bought seats ((id, o) ∷ os) =
    (buyer (lookup o.seat_id seats) ≡ some o.customer_id) × Bought seats os

-- One event for each order, in their order; at most one order for a seat, and none for one that is
-- not sold; and at most one order under a key.
pub record Inv (db : Db) : Type 0 where
  pub events : confirmed db.outbox_events ≡ ids db.orders
  pub one_for_seat : (s : ℕ) → orders_for s db.orders ≤ sold_count (lookup s db.seats)
  pub buyers : Bought db.seats db.orders
  pub one_under_key : (k : ℕ) → orders_under k db.orders ≤ 1

pub modify-confirmed :
    (k : ℕ) (f : OutboxEvent → OutboxEvent) (t : Table OutboxEvent)
    → ((e : OutboxEvent) → (f e).payload ≡ e.payload)
    → confirmed (modify k f t) ≡ confirmed t
modify-confirmed k f [] h = refl
modify-confirmed k f ((j, e) ∷ t) h = elim (Bool-cases (j == k)) [
  | inl here ↦ rw here (ap (λ (p : Payload). p.order_public_id ∷ confirmed t) (h e))
  | inr there ↦ rw there (ap (λ l. e.payload.order_public_id ∷ l) (modify-confirmed k f t h))
]

pub unused_key : (k : ℕ) (os : Table Order) → find_order k os ≡ none → orders_under k os ≡ 0
unused_key k [] h = refl
unused_key k ((id, o) ∷ os) h = ground (arith, h, unused_key k os)

pub Bought-same :
    (seats seats' : Table Seat) (os : Table Order)
    → ((s : ℕ) → buyer (lookup s seats') ≡ buyer (lookup s seats))
    → Bought seats os
    → Bought seats' os
Bought-same seats seats' [] h b = tt
Bought-same seats seats' ((id, o) ∷ os) h b = (h o.seat_id ∙ b.0, Bought-same seats seats' os h b.1)

pub Bought-others :
    (s : ℕ) (f : Seat → Seat) (seats : Table Seat) (os : Table Order)
    → orders_for s os ≡ 0
    → Bought seats os
    → Bought (modify s f seats) os
Bought-others s f seats [] z b = tt
Bought-others s f seats ((id, o) ∷ os) z b =
    ground (arith, z, b.0, lookup-modify s o.seat_id f seats, Bought-others s f seats os)

pub unsold : (seat : Seat) → is_available seat.status ≡ true → sold_count (some seat) ≡ 0
unsold seat h = ground (arith, h)

pub unsold_held :
    (now : ℕ) (i : CheckoutInput) (seat : Seat)
    → is_held now i seat ≡ true
    → sold_count (some seat) ≡ 0
unsold_held now i seat h = ground (arith, h)
