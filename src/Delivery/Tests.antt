-- ===== src/Delivery/Tests.antt =====
-- Runs of the senders over scripted networks.
use systems_engineering_lab.Prelude.{
  ◌≡◌, refl, true, false, some, [], ◌∷◌, arith, List, suc, ◌≤◌, length,
}
use systems_engineering_lab.Prelude.Table.{lookup}
use systems_engineering_lab.Delivery.{
  NetworkOutcome, message_lost, ack_lost, success, SendWithRetryResult, outcome_for_attempt,
}
use systems_engineering_lab.Delivery.Receiver.{Db, run_effectively_once, run_at_most_once}
use systems_engineering_lab.Delivery.Effects.{left_as, run_effectively_once_delivers}

abbrev empty : Db
empty = record { notifications = []; next_id = 1; delivery_log = []; processed_message_ids = [] }

-- `runAckLoss` and `runEffectivelyOnce`: the first acknowledgment is lost.
abbrev script : List NetworkOutcome
script = ack_lost ∷ success ∷ []

run_effectively_once_delivers_example :
    (r : SendWithRetryResult) × (after : Db) × (run_effectively_once script 5 empty
      ≡ some (1, r, after))
    × (length r.attempts ≤ suc 1)
    × (lookup 1 after.notifications ≡ some (left_as true 1))
unfolding outcome_for_attempt
run_effectively_once_delivers_example =
    run_effectively_once_delivers ack_lost (success ∷ []) 5 empty tt 1 refl (omega arith) refl

lost_for_ever :
    lookup 1 (run_at_most_once message_lost empty).1.notifications ≡ some (left_as false 0)
unfolding run_at_most_once
lost_for_ever = refl
