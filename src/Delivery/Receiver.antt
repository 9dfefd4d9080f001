-- ===== src/Delivery/Receiver.antt =====
-- delivery/receiver.ts, and the tables `notifications`, `delivery_log` and `processed_message_ids`;
-- the scenarios, with the network's script and the number of attempts as arguments. A message is
-- inserted before it is sent and is never deleted.
use systems_engineering_lab.Prelude.{
  ℕ, suc, ◌+◌, Bool, Option, none, some, List, [], ◌∷◌, ◌++◌, if◌then◌else◌,
}
use systems_engineering_lab.Prelude.Table.{Table, modify}
use systems_engineering_lab.Prelude.Unique.{insert_new}
use systems_engineering_lab.Delivery.{
  NetworkOutcome, DeliveryAttempt, SendWithRetryOptions, SendWithRetryResult, send_once,
  send_with_retry,
}

pub data NotificationStatus : Type 0 where
  pending delivered undelivered : NotificationStatus

pub record Notification : Type 0 where
  pub status : NotificationStatus
  pub receiver_processed_count : ℕ

pub record Db : Type 0 where
  pub notifications : Table Notification
  pub next_id : ℕ
  -- newest first, each with its message
  pub delivery_log : List (ℕ × DeliveryAttempt)
  pub processed_message_ids : List ℕ

abbrev pub counted : Notification → Notification
counted n = record n { receiver_processed_count = n.receiver_processed_count + 1 }

unfoldable pub naive_process_message : ℕ → Db → Db
naive_process_message message_id db = record db {
  notifications = modify message_id counted db.notifications;
}

-- Whether it was applied.
unfoldable pub idempotent_process_message : ℕ → Db → Bool × Db
unfolding insert_new
idempotent_process_message message_id db =
    let (applied, ids) = insert_new message_id db.processed_message_ids in
    (
      applied,
      record db {
        processed_message_ids = ids;
        notifications =
            if applied then modify message_id counted db.notifications else db.notifications;
      },
    )

-- query-utils.ts
abbrev pub insert_notification : Db → ℕ × Db
insert_notification db = (
  db.next_id,
  record db {
    notifications =
        db.notifications
        ++ (db.next_id, record { status = pending; receiver_processed_count = 0 }) ∷ [];
    next_id = suc db.next_id;
  },
)

abbrev pub record_delivery_attempt : ℕ → DeliveryAttempt → Db → Db
record_delivery_attempt message_id attempt db = record db {
  delivery_log = (message_id, attempt) ∷ db.delivery_log;
}

abbrev pub set_notification_status : ℕ → NotificationStatus → Db → Db
set_notification_status message_id st db = record db {
  notifications = modify message_id (λ n. record n { status = st }) db.notifications;
}

-- The options of the scenarios; `process` is what the receiver does with a message.
abbrev pub options : List NetworkOutcome → ℕ → (ℕ → Db → Db) → ℕ → SendWithRetryOptions Db
options script max_attempts process message_id = record {
  script = script;
  deliver_to_receiver = λ attempt_number. process message_id;
  max_attempts = max_attempts;
  on_attempt = record_delivery_attempt message_id;
}

abbrev pub marked : ℕ → Option (SendWithRetryResult × Db) → Option (ℕ × SendWithRetryResult × Db)
marked message_id none = none
marked message_id (some (r, db)) = some (
  message_id,
  r,
  set_notification_status message_id (if r.acked then delivered else undelivered) db,
)

-- Insert the message, send it, and mark it: the message's number, the sender's result and the tables.
abbrev pub run_with :
    List NetworkOutcome → ℕ → (ℕ → Db → Db) → Db → Option (ℕ × SendWithRetryResult × Db)
run_with script max_attempts process db =
    let (id, db') = insert_notification db in
    marked id (send_with_retry (options script max_attempts process id) db')

-- `runMessageLossThenSuccess` and `runAckLoss`
unfoldable pub run_at_least_once :
    List NetworkOutcome → ℕ → Db → Option (ℕ × SendWithRetryResult × Db)
unfolding send_with_retry naive_process_message
run_at_least_once script max_attempts = run_with script max_attempts naive_process_message

unfoldable pub run_effectively_once :
    List NetworkOutcome → ℕ → Db → Option (ℕ × SendWithRetryResult × Db)
unfolding send_with_retry idempotent_process_message
run_effectively_once script max_attempts =
    run_with script max_attempts (λ id db. (idempotent_process_message id db).1)

-- `runAtMostOnceLost` and `runAtMostOnceClean`
unfoldable pub run_at_most_once : NetworkOutcome → Db → ℕ × Db
unfolding send_once naive_process_message
run_at_most_once network_outcome db =
    let (id, db') = insert_notification db in
    let (attempt, db'') = send_once network_outcome (naive_process_message id) db' in
    (
      id,
      set_notification_status id
          (elim network_outcome [ NetworkOutcome.success ↦ delivered | _ ↦ undelivered ])
          (record_delivery_attempt id attempt db''),
    )
