-- ===== src/Tickets/Sales.antt =====
-- The sales of a seat: labs/12-ticket-reservation-system/src/scenarios/complete-payment.ts among the
-- other transactions.
use systems_engineering_lab.Prelude.{
  ℕ, ◌+◌, ◌≤◌, ◌≡◌, refl, Bool, true, false, ◌&&◌, Option, none, some, List, [], ◌∷◌, arith, ◌==◌,
  if◌then◌else◌, Bool-cases, inl, inr, ap, ◌∙◌, ==→eq,
}
use systems_engineering_lab.Prelude.Table.{Table, lookup, map_some}
use systems_engineering_lab.Tickets.{SeatStatus, Seat, is_payable, payment_update, complete_payment}
use systems_engineering_lab.Tickets.Rows.{
  Action, reserving, locking, expiring, paying, act, row_after, act-lookup,
}

abbrev pub is_sold : SeatStatus → Bool
is_sold SeatStatus.available = false
is_sold SeatStatus.reserved = false
is_sold SeatStatus.sold = true

abbrev pub sold_count : Option Seat → ℕ
sold_count none = 0
sold_count (some s) = if is_sold s.status then 1 else 0

abbrev pub act_all : List Action → Table Seat → Table Seat
act_all [] t = t
act_all (x ∷ xs) t = act_all xs (act x t)

-- Whether the action is a payment for seat `k` that is answered with `sold`.
abbrev pub sale : ℕ → Action → Table Seat → ℕ
sale k (reserving a) t = 0
sale k (locking a) t = 0
sale k (expiring now) t = 0
sale k (paying now seat_id token) t =
    if (seat_id == k) && (complete_payment now seat_id token t).0 then 1 else 0

-- The sales of seat `k` that the actions are answered with.
abbrev pub sales : ℕ → List Action → Table Seat → ℕ
sales k [] t = 0
sales k (x ∷ xs) t = sale k x t + sales k xs (act x t)

abbrev pays : ℕ → ℕ → Option Seat → Bool
pays now token none = false
pays now token (some s) = is_payable now token s

answer :
    (now seat_id token : ℕ) (t : Table Seat) (o : Option Seat)
    → (payment_update now seat_id token t o).0 ≡ pays now token o
answer now seat_id token t none = refl
answer now seat_id token t (some s) = elim (Bool-cases (is_payable now token s)) [
  | inl e ↦ rw e refl
  | inr e ↦ rw e refl
]

-- A sale of the seat, by its row.
abbrev gained : ℕ → Action → Option Seat → ℕ
gained k (reserving a) o = 0
gained k (locking a) o = 0
gained k (expiring now) o = 0
gained k (paying now seat_id token) o = if (seat_id == k) && pays now token o then 1 else 0

sale-gained : (k : ℕ) (x : Action) (t : Table Seat) → sale k x t ≡ gained k x (lookup k t)
unfolding complete_payment
sale-gained k (reserving a) t = refl
sale-gained k (locking a) t = refl
sale-gained k (expiring now) t = refl
sale-gained k (paying now seat_id token) t = elim (Bool-cases (seat_id == k)) [
  | inl here ↦
      let e = ==→eq seat_id k here in
      let a =
        answer now seat_id token t (lookup seat_id t) ∙ ap (λ j. pays now token (lookup j t)) e in
      rw here (rw a refl)
  | inr there ↦ rw there refl
]

row_sale :
    (k : ℕ) (x : Action) (o : Option Seat)
    → gained k x o + sold_count o ≡ sold_count (map_some (row_after x k) o)
row_sale k (reserving a) none = omega arith
row_sale k (reserving a) (some s) = ground arith
row_sale k (locking a) none = omega arith
row_sale k (locking a) (some s) = ground arith
row_sale k (expiring now) none = omega arith
row_sale k (expiring now) (some s) = ground arith
row_sale k (paying now seat_id token) none = ground arith
row_sale k (paying now seat_id token) (some s) = ground arith

sale_counts :
    (k : ℕ) (x : Action) (t : Table Seat)
    → sale k x t + sold_count (lookup k t) ≡ sold_count (lookup k (act x t))
sale_counts k x t = rw (act-lookup x k t) (rw (sale-gained k x t) (row_sale k x (lookup k t)))

sales_counted :
    (k : ℕ) (xs : List Action) (t : Table Seat)
    → sales k xs t + sold_count (lookup k t) ≡ sold_count (lookup k (act_all xs t))
sales_counted k [] t = omega arith
sales_counted k (x ∷ xs) t = omega (arith, sale_counts k x t, sales_counted k xs (act x t))

at_most_one : (o : Option Seat) → sold_count o ≤ 1
at_most_one none = omega arith
at_most_one (some s) = ground arith

-- Under any reservations, expirations and payments: a seat is sold in the end exactly if it was sold
-- before or a payment for it was answered with `sold`; and no two payments for it are, nor one if it
-- was sold before.
pub sold_at_most_once :
    (k : ℕ) (xs : List Action) (t : Table Seat)
    → (sales k xs t + sold_count (lookup k t) ≡ sold_count (lookup k (act_all xs t)))
      × (sales k xs t + sold_count (lookup k t) ≤ 1)
sold_at_most_once k xs t =
    let e = sales_counted k xs t in (e, omega (arith, e, at_most_one (lookup k (act_all xs t))))
