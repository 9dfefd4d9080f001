-- ===== src/Relay/Broker.antt =====
-- labs/17-outbox-workers-skip-locked/src/queue/broker.ts: the broker that counts its calls.
use systems_engineering_lab.Prelude.{
  ℕ, ◌+◌, Bool, true, false, Option, none, some, List, [], ◌∷◌, ◌++◌, ◌==◌, if◌then◌else◌,
}
use systems_engineering_lab.Prelude.Table.{Table, lookup}
use systems_engineering_lab.Relay.{BrokerEvent}

pub data BrokerMode : Type 0 where
  succeed : BrokerMode
  fail : BrokerMode
  slow : BrokerMode

pub record SimulatedBroker : Type 0 where
  pub calls : ℕ
  pub call_counts : Table ℕ
  pub deliveries : List BrokerEvent

abbrev pub new_broker : SimulatedBroker
new_broker = record { calls = 0; call_counts = []; deliveries = [] }

-- callCounts.get(publicId) ?? 0
abbrev count_or_zero : Option ℕ → ℕ
count_or_zero none = 0
count_or_zero (some n) = n

unfoldable pub call_count_for : ℕ → SimulatedBroker → ℕ
call_count_for public_id b = count_or_zero (lookup public_id b.call_counts)

-- callCounts.set(publicId, n)
abbrev pub set_count : ℕ → ℕ → Table ℕ → Table ℕ
set_count k n [] = (k, n) ∷ []
set_count k n ((j, m) ∷ t) = if j == k then (j, n) ∷ t else (j, m) ∷ set_count k n t

-- A call up to its `await`: it is counted.
unfoldable pub called : BrokerEvent → SimulatedBroker → SimulatedBroker
unfolding call_count_for
called e b = record b {
  calls = b.calls + 1;
  call_counts = set_count e.public_id (call_count_for e.public_id b + 1) b.call_counts;
}

abbrev pub received : BrokerEvent → SimulatedBroker → SimulatedBroker
received e b = record b { deliveries = b.deliveries ++ e ∷ [] }

pub data Answer : Type 0 where
  accepted : Answer
  refused : Answer

-- The rest of a call, after the wait of a slow broker.
abbrev pub answer : Option BrokerMode → BrokerEvent → SimulatedBroker → Answer × SimulatedBroker
answer none e b = (accepted, received e b)
answer (some BrokerMode.succeed) e b = (accepted, received e b)
answer (some BrokerMode.fail) e b = (refused, b)
answer (some BrokerMode.slow) e b = (accepted, received e b)

unfoldable pub publish :
    Option BrokerMode → BrokerEvent → SimulatedBroker → Answer × SimulatedBroker
unfolding called
publish mode e b = answer mode e (called e b)

-- Whether a delivery of this event is among these.
abbrev pub is_delivered : ℕ → List BrokerEvent → Bool
is_delivered public_id [] = false
is_delivered public_id (e ∷ es) =
    if e.public_id == public_id then true else is_delivered public_id es
