-- ===== src/Tickets/Holds.antt =====
-- A hold until it is paid or over: labs/12-ticket-reservation-system/src/scenarios.
use systems_engineering_lab.Prelude.{
  ℕ, ◌≤◌, ◌<◌, ◌≡◌, refl, true, false, Option, none, some, List, [], ◌∷◌, arith, ◌==◌, Bool-cases,
  inl, inr, ap, ◌∙◌, ==_refl, lt→ltb,
}
use systems_engineering_lab.Prelude.Table.{Table, lookup, lookup-modify, map_some}
use systems_engineering_lab.Tickets.{
  Seat, Attempt, seat_reserved, reserved_until_from_now, is_available, held, conditional_update,
  attempt_conditional_reservation, payment_update, complete_payment,
}
use systems_engineering_lab.Tickets.Rows.{
  Action, reserving, locking, expiring, paying, act, row_after, act-lookup,
}
use systems_engineering_lab.Tickets.Sales.{act_all}

-- Any reservations; expirations until the hold is over; payments with other tokens.
abbrev pub Others : ℕ → ℕ → List Action → Type 0
Others token until [] = Unit
Others token until (reserving a ∷ xs) = Others token until xs
Others token until (locking a ∷ xs) = Others token until xs
Others token until (expiring now ∷ xs) = (now ≤ until) × Others token until xs
Others token until (paying now seat_id u ∷ xs) = ((token == u) ≡ false) × Others token until xs

abbrev pub until_of : Attempt → ℕ
until_of a = reserved_until_from_now a.clock a.hold_minutes

module _ (a : Attempt) (k : ℕ) where
  left_as_held :
      (x : Action) (xs : List Action) (s : Seat)
      → Others a.token (until_of a) (x ∷ xs)
      → row_after x k (held a s) ≡ held a s
  left_as_held (reserving b) xs s o = ground arith
  left_as_held (locking b) xs s o = ground arith
  left_as_held (expiring now) xs s o = ground (arith, o.0)
  left_as_held (paying now seat_id u) xs s o = ground (arith, o.0)

  Others-rest :
      (x : Action) (xs : List Action)
      → Others a.token (until_of a) (x ∷ xs)
      → Others a.token (until_of a) xs
  Others-rest (reserving b) xs o = o
  Others-rest (locking b) xs o = o
  Others-rest (expiring now) xs o = o.1
  Others-rest (paying now seat_id u) xs o = o.1

  still_held :
      (xs : List Action) (s : Seat) (t : Table Seat)
      → Others a.token (until_of a) xs
      → lookup k t ≡ some (held a s)
      → lookup k (act_all xs t) ≡ some (held a s)
  still_held [] s t o h = h
  still_held (x ∷ xs) s t o h =
      still_held xs s (act x t) (Others-rest x xs o)
        (act-lookup x k t ∙ ap (map_some (row_after x k)) h ∙ ap some (left_as_held x xs s o))

held_row :
    (a : Attempt) (t : Table Seat) (o : Option Seat)
    → lookup a.seat_id t ≡ o
    → (conditional_update a t o).0 ≡ seat_reserved a.token
    → (s : Seat) × (lookup a.seat_id (conditional_update a t o).1 ≡ some (held a s))
held_row a t none l e = cc
held_row a t (some s) l e = elim (Bool-cases (is_available s.status)) [
  | inl free ↦ (
    s,
    rw free (
        lookup-modify a.seat_id a.seat_id (held a) t
        ∙ rw (==_refl a.seat_id) (ap (map_some (held a)) l)),
  )
  | inr taken ↦ absurd (ground (arith, e, taken))
]

held_pays :
    (a : Attempt) (now : ℕ) (s : Seat) (t : Table Seat)
    → now < until_of a
    → (payment_update now a.seat_id a.token t (some (held a s))).0 ≡ true
held_pays a now s t h = rw (==_refl a.token) (rw (lt→ltb now (until_of a) h) refl)

-- A hold is honoured: after a reservation that was answered with its token, whatever else is
-- reserved or locked, expired until the hold is over, or paid with other tokens, a payment with the
-- token before the hold is over is answered with `sold`.
pub hold_is_honoured :
    (a : Attempt) (xs : List Action) (t : Table Seat) (now : ℕ)
    → (attempt_conditional_reservation a t).0 ≡ seat_reserved a.token
    → Others a.token (until_of a) xs
    → now < until_of a
    → (complete_payment now a.seat_id a.token
        (act_all xs (attempt_conditional_reservation a t).1)).0
      ≡ true
unfolding attempt_conditional_reservation complete_payment
hold_is_honoured a xs t now e o h =
    let (s, first) = held_row a t (lookup a.seat_id t) refl e in
    let t' = act_all xs (conditional_update a t (lookup a.seat_id t)).1 in
    let there : lookup a.seat_id t' ≡ some (held a s) =
      still_held a a.seat_id xs s (conditional_update a t (lookup a.seat_id t)).1 o first in
    ap (λ r. (payment_update now a.seat_id a.token t' r).0) there ∙ held_pays a now s t' h
