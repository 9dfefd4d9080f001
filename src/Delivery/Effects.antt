-- ===== src/Delivery/Effects.antt =====
-- How often the receiver's effect happens under each way of sending.
use systems_engineering_lab.Prelude.{
  ℕ, suc, ◌+◌, ◌≤◌, ◌<◌, ◌≡◌, refl, Bool, true, false, Option, some, List, ◌∷◌, arith, min, length,
  if◌then◌else◌, ◌∙◌, sym, ap,
}
use systems_engineering_lab.Prelude.Table.{lookup, Below, lookup-modify, lookup-append_new}
use systems_engineering_lab.Prelude.Unique.{contains}
use systems_engineering_lab.Delivery.{
  NetworkOutcome, message_lost, ack_lost, success, SendWithRetryResult, outcome_for_attempt,
}
use systems_engineering_lab.Delivery.Attempts.{replay, send_with_retry-Sent, send_with_retry_acked}
use systems_engineering_lab.Delivery.Receiver.{
  pending, delivered, undelivered, Notification, Db, naive_process_message, insert_notification,
  set_notification_status, run_at_least_once, run_effectively_once, run_at_most_once,
}
use systems_engineering_lab.Delivery.Replay.{
  arrivals, acked-le-arrivals, plus, one_arrival, counted_row, once, naive, idempotent,
  naive-replay, idempotent-replay,
}

-- A message as a scenario leaves it: its mark, and how often it was processed.
abbrev pub left_as : Bool → ℕ → Notification
left_as acked k = record {
  status = if acked then delivered else undelivered;
  receiver_processed_count = k;
}

abbrev fresh : Notification
fresh = record { status = pending; receiver_processed_count = 0 }

inserted :
    (db : Db)
    → Below db.next_id db.notifications
    → lookup db.next_id (insert_notification db).1.notifications ≡ some fresh
inserted db b = ground (arith, lookup-append_new db.next_id db.next_id fresh db.notifications b)

marked_row :
    (id k : ℕ) (acked : Bool) (db : Db)
    → lookup id db.notifications ≡ some (plus k fresh)
    → lookup id
        (set_notification_status id (if acked then delivered else undelivered) db).notifications
      ≡ some (left_as acked k)
marked_row id k acked db e = ground (
  arith,
  lookup-modify id id
      (λ (n : Notification). record n { status = if acked then delivered else undelivered })
      db.notifications,
  e,
)

-- What a run has done: the sender's result, the tables, and how often the message was processed.
pub record Outcome (ran : Option (ℕ × SendWithRetryResult × Db)) (id max_attempts : ℕ)
    (effects : SendWithRetryResult → ℕ) : Type 0 where
  pub result : SendWithRetryResult
  pub after : Db
  pub runs : ran ≡ some (id, result, after)
  pub bounded : length result.attempts ≤ max_attempts
  pub processed : lookup id after.notifications ≡ some (left_as result.acked (effects result))
  pub acked_once : (if result.acked then 1 else 0) ≤ effects result

module _ (o : NetworkOutcome) (os : List NetworkOutcome) (max_attempts : ℕ) (db : Db)
    (below : Below db.next_id db.notifications) where
  -- With a script, the run under retries throws nothing and makes at most `max_attempts` attempts;
  -- the receiver that keeps no memory has processed the message once for each attempt that reached
  -- it, so at least once if the sender was acknowledged; and the message is marked delivered exactly
  -- if it was. All this where no row has a number that the identity column has yet to give.
  pub run_at_least_once_lem :
      Outcome
        (run_at_least_once (o ∷ os) max_attempts db)
        db.next_id
        max_attempts
        (λ r. arrivals r.attempts)
  unfolding run_at_least_once
  run_at_least_once_lem =
      let id = db.next_id in
      let db' = (insert_notification db).1 in
      let sent = send_with_retry-Sent (naive (o ∷ os) max_attempts id) o os db' refl in
      let r = sent.0 in
      let end = replay (naive (o ∷ os) max_attempts id) r.attempts db' in
      record {
        result = r;
        after = set_notification_status id (if r.acked then delivered else undelivered) end;
        runs = rw (sent.1) refl;
        bounded = sent.2;
        processed =
            marked_row id (arrivals r.attempts) r.acked end
              (naive-replay (o ∷ os) max_attempts id r.attempts db' fresh (inserted db below));
        acked_once = rw (sent.3) (acked-le-arrivals r.attempts);
      }

  -- With the same sender and the receiver that remembers the messages it has processed: the message
  -- is processed once if any attempt reached the receiver, and else not at all; so exactly once if
  -- the sender was acknowledged.
  pub run_effectively_once_lem :
      contains db.processed_message_ids db.next_id ≡ false
      → Outcome
          (run_effectively_once (o ∷ os) max_attempts db)
          db.next_id
          max_attempts
          (λ r. min 1 (arrivals r.attempts))
  unfolding run_effectively_once
  run_effectively_once_lem unknown =
      let id = db.next_id in
      let db' = (insert_notification db).1 in
      let sent = send_with_retry-Sent (idempotent (o ∷ os) max_attempts id) o os db' refl in
      let r = sent.0 in
      let end = replay (idempotent (o ∷ os) max_attempts id) r.attempts db' in
      record {
        result = r;
        after = set_notification_status id (if r.acked then delivered else undelivered) end;
        runs = rw (sent.1) refl;
        bounded = sent.2;
        processed = marked_row id (min 1 (arrivals r.attempts)) r.acked end (
            idempotent-replay (o ∷ os) max_attempts id r.attempts db' fresh (inserted db below)
            ∙ ap (λ c. some (plus (once c (arrivals r.attempts)) fresh)) unknown);
        acked_once = rw (sent.3) (ground (arith, acked-le-arrivals r.attempts));
      }

  -- Where the network's script has a success at an attempt `k + 1` that is allowed: the same run
  -- ends with the message marked delivered and processed exactly once, within `k + 1` attempts.
  pub run_effectively_once_delivers :
      (k : ℕ)
      → contains db.processed_message_ids db.next_id ≡ false
      → k < max_attempts
      → outcome_for_attempt (o ∷ os) (1 + k) ≡ some success
      → (r : SendWithRetryResult) × (after : Db) × (run_effectively_once (o ∷ os) max_attempts db
          ≡ some (db.next_id, r, after))
        × (length r.attempts ≤ suc k)
        × (lookup db.next_id after.notifications ≡ some (left_as true 1))
  unfolding run_effectively_once
  run_effectively_once_delivers k unknown l f =
      let id = db.next_id in
      let db' = (insert_notification db).1 in
      let opts = idempotent (o ∷ os) max_attempts id in
      let sent = send_with_retry_acked opts o os db' k refl l f in
      let r = sent.0 in
      let end = replay opts r.attempts db' in
      (
        r,
        set_notification_status id (if r.acked then delivered else undelivered) end,
        rw (sent.1) refl,
        sent.4,
        marked_row id (min 1 (arrivals r.attempts)) r.acked end (
              idempotent-replay (o ∷ os) max_attempts id r.attempts db' fresh (inserted db below)
              ∙ ap (λ c. some (plus (once c (arrivals r.attempts)) fresh)) unknown)
            ∙ ap (λ b. some (left_as b (min 1 (arrivals r.attempts)))) (sent.3)
            ∙ ap (λ j. some (left_as true j)) (one_arrival r.attempts (sym (sent.2) ∙ sent.3)),
      )

-- A message that is sent once and never again is processed at most once, and not at all if the
-- network loses it.
pub run_at_most_once_lem :
    (o : NetworkOutcome) (db : Db)
    → Below db.next_id db.notifications
    → (n : Notification) × (lookup (run_at_most_once o db).0 (run_at_most_once o db).1.notifications
        ≡ some n)
      × (n.receiver_processed_count ≡ (elim o [ message_lost ↦ 0 | _ ↦ 1 ]))
unfolding run_at_most_once naive_process_message
run_at_most_once_lem message_lost db b = (
  left_as false 0,
  marked_row db.next_id 0 false (insert_notification db).1 (inserted db b),
  refl,
)
run_at_most_once_lem ack_lost db b = (
  left_as false 1,
  marked_row db.next_id 1 false (naive_process_message db.next_id (insert_notification db).1)
      (counted_row db.next_id fresh (insert_notification db).1.notifications (inserted db b)),
  refl,
)
run_at_most_once_lem success db b = (
  left_as true 1,
  marked_row db.next_id 1 true (naive_process_message db.next_id (insert_notification db).1)
      (counted_row db.next_id fresh (insert_notification db).1.notifications (inserted db b)),
  refl,
)
