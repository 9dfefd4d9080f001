-- ===== src/Tickets/Rows.antt =====
-- What the transactions of the seats do to one row.
use systems_engineering_lab.Prelude.{
  ℕ, ◌≡◌, refl, Bool, true, false, ◌&&◌, Option, none, some, [], ◌∷◌, arith, ◌==◌, if◌then◌else◌,
  Bool-cases, inl, inr, Option-cases, ap, ◌∙◌, subst, ==→eq,
}
use systems_engineering_lab.Prelude.Table.{Table, lookup, modify, map_some, lookup-modify}
use systems_engineering_lab.Tickets.{
  Seat, Attempt, is_available, held, conditional_update, attempt_conditional_reservation,
  attempt_row_lock_reservation, freed, is_expired, expire_reservations, is_payable, paid,
  payment_update, complete_payment,
}

-- A transaction of the shop.
pub data Action : Type 0 where
  reserving locking : Attempt → Action
  expiring : ℕ → Action
  paying : (now seat_id token : ℕ) → Action

abbrev pub act : Action → Table Seat → Table Seat
act (reserving a) t = (attempt_conditional_reservation a t).1
act (locking a) t = (attempt_row_lock_reservation a t).1
act (expiring now) t = (expire_reservations now t).1
act (paying now seat_id token) t = (complete_payment now seat_id token t).1

-- What an action makes of the row of seat `k`.
abbrev pub row_after : Action → ℕ → Seat → Seat
row_after (reserving a) k s = if (a.seat_id == k) && is_available s.status then held a s else s
row_after (locking a) k s = if (a.seat_id == k) && is_available s.status then held a s else s
row_after (expiring now) k s = if is_expired now s then freed s else s
row_after (paying now seat_id token) k s =
    if (seat_id == k) && is_payable now token s then paid s else s

-- Holding the row's lock from the read to the write makes the two reservations the same.
pub row_lock_same :
    (a : Attempt) (t : Table Seat)
    → attempt_row_lock_reservation a t ≡ attempt_conditional_reservation a t
unfolding attempt_row_lock_reservation attempt_conditional_reservation
row_lock_same a t = elim (Option-cases (lookup a.seat_id t)) [
  | inl nobody ↦ rw nobody refl
  | inr (s, there) ↦ rw there refl
]

expire-lookup :
    (now k : ℕ) (t : Table Seat)
    → lookup k (expire_reservations now t).1 ≡ map_some (row_after (expiring now) k) (lookup k t)
unfolding expire_reservations
expire-lookup now k [] = refl
expire-lookup now k ((id, s) ∷ t) = ground (arith, expire-lookup now k t)

-- Whether a row is there and meets the condition of an UPDATE.
abbrev met : (Seat → Bool) → Option Seat → Bool
met p none = false
met p (some s) = p s

abbrev row_update : Bool → (Seat → Bool) → (Seat → Seat) → Seat → Seat
row_update here p f r = if here && p r then f r else r

changed_row :
    (p : Seat → Bool) (f : Seat → Seat) (o : Option Seat)
    → met p o ≡ true
    → map_some f o ≡ map_some (row_update true p f) o
changed_row p f none e = refl
changed_row p f (some s) e = rw e refl

kept_row :
    (p : Seat → Bool) (f : Seat → Seat) (o : Option Seat)
    → met p o ≡ false
    → o ≡ map_some (row_update true p f) o
kept_row p f none e = refl
kept_row p f (some s) e = rw e refl

other_row :
    (p : Seat → Bool) (f : Seat → Seat) (o : Option Seat) → o ≡ map_some (row_update false p f) o
other_row p f none = refl
other_row p f (some s) = refl

-- An UPDATE of the row `j` under a condition, seen at the row `k`.
conditional_lookup :
    (j k : ℕ) (p : Seat → Bool) (f : Seat → Seat) (t : Table Seat)
    → lookup k (if met p (lookup j t) then modify j f t else t)
      ≡ map_some (row_update (j == k) p f) (lookup k t)
conditional_lookup j k p f t = elim (Bool-cases (j == k)) [
  | inl here ↦
      let e : j ≡ k = ==→eq j k here in
      rw here (elim (Bool-cases (met p (lookup j t))) [
        | inl yes_row ↦
            let m : met p (lookup k t) ≡ true = subst (λ x. met p (lookup x t) ≡ true) e yes_row in
            rw yes_row (lookup-modify j k f t ∙ rw here (changed_row p f (lookup k t) m))
        | inr no_row ↦
            let m : met p (lookup k t) ≡ false = subst (λ x. met p (lookup x t) ≡ false) e no_row in
            rw no_row (kept_row p f (lookup k t) m)
      ])
  | inr there ↦ rw there (elim (Bool-cases (met p (lookup j t))) [
    | inl yes_row ↦ rw yes_row (lookup-modify j k f t ∙ rw there (other_row p f (lookup k t)))
    | inr no_row ↦ rw no_row (other_row p f (lookup k t))
  ])
]

reserved_table :
    (a : Attempt) (t : Table Seat) (o : Option Seat)
    → (conditional_update a t o).1
      ≡ (if met (λ s. is_available s.status) o then modify a.seat_id (held a) t else t)
reserved_table a t none = refl
reserved_table a t (some s) = elim (Bool-cases (is_available s.status)) [
  | inl e ↦ rw e refl
  | inr e ↦ rw e refl
]

paid_table :
    (now seat_id token : ℕ) (t : Table Seat) (o : Option Seat)
    → (payment_update now seat_id token t o).1
      ≡ (if met (is_payable now token) o then modify seat_id paid t else t)
paid_table now seat_id token t none = refl
paid_table now seat_id token t (some s) = elim (Bool-cases (is_payable now token s)) [
  | inl e ↦ rw e refl
  | inr e ↦ rw e refl
]

reserving_lookup :
    (a : Attempt) (k : ℕ) (t : Table Seat)
    → lookup k (attempt_conditional_reservation a t).1
      ≡ map_some (row_after (reserving a) k) (lookup k t)
unfolding attempt_conditional_reservation
reserving_lookup a k t =
    ap (lookup k) (reserved_table a t (lookup a.seat_id t))
    ∙ conditional_lookup a.seat_id k (λ s. is_available s.status) (held a) t

-- The row of a seat after an action is a function of its row before.
pub act-lookup :
    (x : Action) (k : ℕ) (t : Table Seat)
    → lookup k (act x t) ≡ map_some (row_after x k) (lookup k t)
unfolding complete_payment
act-lookup (reserving a) k t = reserving_lookup a k t
act-lookup (locking a) k t = ap (λ r. lookup k r.1) (row_lock_same a t) ∙ reserving_lookup a k t
act-lookup (expiring now) k t = expire-lookup now k t
act-lookup (paying now seat_id token) k t =
    ap (lookup k) (paid_table now seat_id token t (lookup seat_id t))
    ∙ conditional_lookup seat_id k (is_payable now token) paid t
