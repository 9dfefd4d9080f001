-- ===== src/Delivery/Replay.antt =====
-- What attempts make of the row of a message: delivery/receiver.ts under the attempts of a sender.
use systems_engineering_lab.Prelude.{
  ℕ, ◌+◌, ◌≤◌, ◌≡◌, refl, Bool, true, false, some, List, [], ◌∷◌, arith, min, if◌then◌else◌,
  Bool-cases, inl, inr, ◌∙◌, sym, ap,
}
use systems_engineering_lab.Prelude.Table.{Table, lookup, modify, lookup-modify}
use systems_engineering_lab.Prelude.Unique.{contains, contains_here, insert_new}
use systems_engineering_lab.Delivery.{
  NetworkOutcome, DeliveryAttempt, DeliveryOutcome, sent_lost, delivered_ack_lost, delivered_acked,
  SendWithRetryOptions, is_acked,
}
use systems_engineering_lab.Delivery.Attempts.{reached, any_acked, made, replay}
use systems_engineering_lab.Delivery.Receiver.{
  Notification, Db, counted, naive_process_message, idempotent_process_message, options,
}

-- How many of the attempts reached the receiver.
abbrev pub arrivals : List DeliveryAttempt → ℕ
arrivals [] = 0
arrivals (a ∷ more) = (if reached a.outcome then 1 else 0) + arrivals more

pub acked_arrived : (o : DeliveryOutcome) → is_acked o ≡ true → reached o ≡ true
acked_arrived sent_lost e = cc
acked_arrived delivered_ack_lost e = refl
acked_arrived delivered_acked e = refl

pub acked-le-arrivals : (xs : List DeliveryAttempt) → (if any_acked xs then 1 else 0) ≤ arrivals xs
acked-le-arrivals [] = omega arith
acked-le-arrivals (a ∷ more) = ground (arith, acked_arrived a.outcome, acked-le-arrivals more)

abbrev pub plus : ℕ → Notification → Notification
plus k n = record n { receiver_processed_count = n.receiver_processed_count + k }

pub one_arrival : (xs : List DeliveryAttempt) → any_acked xs ≡ true → min 1 (arrivals xs) ≡ 1
one_arrival xs e = ground (arith, acked-le-arrivals xs, e)

pub plus_zero : (n : Notification) → plus 0 n ≡ n
plus_zero n = ground arith

pub plus-plus : (j k : ℕ) (n : Notification) → plus k (plus j n) ≡ plus (j + k) n
plus-plus j k n = ground arith

pub counted_row :
    (id : ℕ) (n : Notification) (t : Table Notification)
    → lookup id t ≡ some n
    → lookup id (modify id counted t) ≡ some (plus 1 n)
counted_row id n t e = ground (arith, lookup-modify id id counted t, e)

abbrev pub one_if : Bool → ℕ
one_if b = if b then 1 else 0

-- How often the receiver that remembers its messages acts on so many arrivals.
abbrev pub once : Bool → ℕ → ℕ
once true k = 0
once false k = min 1 k

pub once_again :
    (c b : Bool) (m : ℕ)
    → once c (one_if b) + once (if b then true else c) m ≡ once c (one_if b + m)
once_again true true m = omega arith
once_again true false m = omega arith
once_again false true m = omega arith
once_again false false m = omega arith

module _ (script : List NetworkOutcome) (max_attempts id : ℕ) where
  abbrev pub naive : SendWithRetryOptions Db
  naive = options script max_attempts naive_process_message id

  abbrev pub idempotent : SendWithRetryOptions Db
  idempotent = options script max_attempts (λ k db. (idempotent_process_message k db).1) id

  pub naive_made :
      (b : Bool) (db : Db) (n : Notification)
      → lookup id db.notifications ≡ some n
      → lookup id (if b then naive_process_message id db else db).notifications
        ≡ some (plus (one_if b) n)
  unfolding naive_process_message
  naive_made true db n e = counted_row id n db.notifications e
  naive_made false db n e = e ∙ ap some (sym (plus_zero n))

  pub naive-replay :
      (xs : List DeliveryAttempt) (db : Db) (n : Notification)
      → lookup id db.notifications ≡ some n
      → lookup id (replay naive xs db).notifications ≡ some (plus (arrivals xs) n)
  naive-replay [] db n e = e ∙ ap some (sym (plus_zero n))
  naive-replay (x ∷ xs) db n e =
      naive-replay xs (made naive x db) (plus (one_if (reached x.outcome)) n)
        (naive_made (reached x.outcome) db n e)
      ∙ ap some (plus-plus (one_if (reached x.outcome)) (arrivals xs) n)

  pub idempotent_made :
      (b : Bool) (db : Db) (n : Notification)
      → lookup id db.notifications ≡ some n
      → let db' = if b then (idempotent_process_message id db).1 else db in
        (lookup id db'.notifications
          ≡ some (plus (once (contains db.processed_message_ids id) (one_if b)) n))
        × (contains db'.processed_message_ids id
            ≡ (if b then true else contains db.processed_message_ids id))
  unfolding idempotent_process_message insert_new
  idempotent_made true db n e = elim (Bool-cases (contains db.processed_message_ids id)) [
    | inl known ↦ rw known (e ∙ ap some (sym (plus_zero n)), known)
    | inr new ↦
        rw new (counted_row id n db.notifications e, contains_here id db.processed_message_ids)
  ]
  idempotent_made false db n e = elim (Bool-cases (contains db.processed_message_ids id)) [
    | inl known ↦ rw known (e ∙ ap some (sym (plus_zero n)), refl)
    | inr new ↦ rw new (e ∙ ap some (sym (plus_zero n)), refl)
  ]

  pub idempotent-replay :
      (xs : List DeliveryAttempt) (db : Db) (n : Notification)
      → lookup id db.notifications ≡ some n
      → lookup id (replay idempotent xs db).notifications
        ≡ some (plus (once (contains db.processed_message_ids id) (arrivals xs)) n)
  idempotent-replay [] db n e = elim (Bool-cases (contains db.processed_message_ids id)) [
    | inl known ↦ rw known (e ∙ ap some (sym (plus_zero n)))
    | inr new ↦ rw new (e ∙ ap some (sym (plus_zero n)))
  ]
  idempotent-replay (x ∷ xs) db n e =
      let b = reached x.outcome in
      let c = contains db.processed_message_ids id in
      let once_made = idempotent_made b db n e in
      idempotent-replay xs (made idempotent x db) (plus (once c (one_if b)) n) once_made.0
      ∙ ap (λ d. some (plus (once d (arrivals xs)) (plus (once c (one_if b)) n))) once_made.1
      ∙ ap some (plus-plus (once c (one_if b)) (once (if b then true else c) (arrivals xs)) n)
      ∙ ap (λ k. some (plus k n)) (once_again c b (arrivals xs))
