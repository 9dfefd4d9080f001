-- ===== src/Delivery.antt =====
-- Messages over a network that loses them: labs/19-message-delivery-semantics/src, the files
-- delivery/network.ts, delivery/sender.ts, delivery/receiver.ts and the scenarios that put them
-- together, scenarios/at-most-once.ts, at-least-once.ts and effectively-once.ts.
-- A sender acts on a state `S` through what it is given: the delivery to the receiver and the
-- record of an attempt. Sleeping between attempts changes nothing.
pub mod Receiver
pub mod Attempts
pub mod Replay
pub mod Effects
mod Tests
use systems_engineering_lab.Prelude.{
  ℕ, zero, suc, ◌+◌, ◌-◌, Bool, true, false, Option, none, some, List, [], ◌∷◌, min, length,
  if◌then◌else◌,
}

pub data NetworkOutcome : Type 0 where
  message_lost ack_lost success : NetworkOutcome

abbrev pub get_elem? {ℓ} : {A : Type ℓ} → List A → ℕ → Option A
get_elem? [] i = none
get_elem? (x ∷ xs) zero = some x
get_elem? (x ∷ xs) (suc i) = get_elem? xs i

-- none where the source throws: the script is empty.
unfoldable pub outcome_for_attempt : List NetworkOutcome → ℕ → Option NetworkOutcome
outcome_for_attempt script attempt_number =
    get_elem? script (min (attempt_number - 1) (length script - 1))

pub data DeliveryOutcome : Type 0 where
  sent_lost delivered_ack_lost delivered_acked : DeliveryOutcome

pub record DeliveryAttempt : Type 0 where
  pub attempt_number : ℕ
  pub outcome : DeliveryOutcome

abbrev pub to_delivery_outcome : NetworkOutcome → DeliveryOutcome
to_delivery_outcome message_lost = sent_lost
to_delivery_outcome ack_lost = delivered_ack_lost
to_delivery_outcome success = delivered_acked

-- Whether the message has arrived at the receiver.
abbrev pub arrives : NetworkOutcome → Bool
arrives message_lost = false
arrives ack_lost = true
arrives success = true

unfoldable pub send_once {ℓ} : {S : Type ℓ} → NetworkOutcome → (S → S) → S → DeliveryAttempt × S
send_once message_lost deliver s = (record { attempt_number = 1; outcome = sent_lost }, s)
send_once network_outcome deliver s =
    (record { attempt_number = 1; outcome = to_delivery_outcome network_outcome }, deliver s)

pub record SendWithRetryOptions (S : Type 0) : Type 0 where
  pub script : List NetworkOutcome
  pub deliver_to_receiver : ℕ → S → S
  pub max_attempts : ℕ
  pub on_attempt : DeliveryAttempt → S → S

pub record SendWithRetryResult : Type 0 where
  pub attempts : List DeliveryAttempt
  pub acked : Bool

abbrev pub is_acked : DeliveryOutcome → Bool
is_acked sent_lost = false
is_acked delivered_ack_lost = false
is_acked delivered_acked = true

module _ {S : Type 0} where
  -- One more attempt in front of those of the rest of the loop.
  abbrev pub with_attempt :
      DeliveryAttempt → Option (SendWithRetryResult × S) → Option (SendWithRetryResult × S)
  with_attempt attempt none = none
  with_attempt attempt (some (r, s)) = some (record r { attempts = attempt ∷ r.attempts }, s)

  -- The loop's body from the push of the attempt on.
  abbrev pub after_attempt :
      SendWithRetryOptions S
      → (S → Option (SendWithRetryResult × S))
      → DeliveryAttempt
      → S
      → Option (SendWithRetryResult × S)
  after_attempt opts rest attempt s =
      if is_acked attempt.outcome
      then some (record { attempts = attempt ∷ []; acked = true }, opts.on_attempt attempt s)
      else with_attempt attempt (rest (opts.on_attempt attempt s))

  abbrev pub attempted :
      SendWithRetryOptions S
      → (S → Option (SendWithRetryResult × S))
      → ℕ
      → S
      → Option NetworkOutcome
      → Option (SendWithRetryResult × S)
  attempted opts rest n s none = none
  attempted opts rest n s (some network_outcome) =
      after_attempt opts rest
        (record { attempt_number = n; outcome = to_delivery_outcome network_outcome })
        (if arrives network_outcome then opts.deliver_to_receiver n s else s)

  -- The loop, with the attempts that are left and the number of the next one.
  unfoldable pub send_from : SendWithRetryOptions S → ℕ → ℕ → S → Option (SendWithRetryResult × S)
  unfolding outcome_for_attempt
  send_from opts zero n s = some (record { attempts = []; acked = false }, s)
  send_from opts (suc left) n s =
      attempted opts (send_from opts left (n + 1)) n s (outcome_for_attempt opts.script n)

  unfoldable pub send_with_retry : SendWithRetryOptions S → S → Option (SendWithRetryResult × S)
  unfolding send_from
  send_with_retry opts s = send_from opts opts.max_attempts 1 s
