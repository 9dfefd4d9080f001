-- ===== src/Relay/Consumer.antt =====
-- labs/17-outbox-workers-skip-locked/src/queue/idempotent-consumer.ts
use systems_engineering_lab.Prelude.{ℕ, Bool, true, false, List, [], ◌∷◌}
use systems_engineering_lab.Prelude.Unique.{insert_new}
use systems_engineering_lab.Relay.{BrokerEvent}

-- `processed_events` and the events whose side effect has run, the latest first.
pub record Consumer : Type 0 where
  pub processed_events : List ℕ
  pub applied : List BrokerEvent

pub data ConsumeResult : Type 0 where
  duplicate : ConsumeResult
  fresh : ConsumeResult

abbrev pub after_insert : BrokerEvent → Consumer → Bool × List ℕ → ConsumeResult × Consumer
after_insert e c (false, ids) = (duplicate, c)
after_insert e c (true, ids) = (fresh, record { processed_events = ids; applied = e ∷ c.applied })

unfoldable pub consume_idempotently : BrokerEvent → Consumer → ConsumeResult × Consumer
unfolding insert_new
consume_idempotently e c = after_insert e c (insert_new e.public_id c.processed_events)

-- The consumer takes the broker's deliveries in their order.
unfoldable pub consume_all : List BrokerEvent → Consumer → Consumer
unfolding consume_idempotently
consume_all [] c = c
consume_all (e ∷ es) c = consume_all es (consume_idempotently e c).1
