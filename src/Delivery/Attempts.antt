-- ===== src/Delivery/Attempts.antt =====
-- What the retry loop of delivery/sender.ts does: its attempts, its end, and its acknowledgment.
use systems_engineering_lab.Prelude.{
  ℕ, zero, suc, ◌+◌, ◌-◌, ◌≤◌, ◌<◌, ◌≡◌, ◌≢◌, refl, Bool, true, false, some, List, [], ◌∷◌, arith,
  min, length, if◌then◌else◌, sym, ap, ◌∙◌,
}
use systems_engineering_lab.Delivery.{
  NetworkOutcome, message_lost, ack_lost, success, outcome_for_attempt, get_elem?, DeliveryOutcome,
  sent_lost, delivered_ack_lost, delivered_acked, DeliveryAttempt, to_delivery_outcome, arrives,
  SendWithRetryOptions, SendWithRetryResult, is_acked, send_from, send_with_retry,
}

abbrev pub reached : DeliveryOutcome → Bool
reached sent_lost = false
reached delivered_ack_lost = true
reached delivered_acked = true

abbrev pub any_acked : List DeliveryAttempt → Bool
any_acked [] = false
any_acked (a ∷ more) = if is_acked a.outcome then true else any_acked more

get_elem?-lt {ℓ} :
    {A : Type ℓ} (x : A) (xs : List A) (i : ℕ)
    → i ≤ length xs
    → (y : A) × (get_elem? (x ∷ xs) i ≡ some y)
get_elem?-lt x xs zero h = (x, refl)
get_elem?-lt x [] (suc i) h = absurd (omega arith)
get_elem?-lt x (y ∷ ys) (suc i) h = get_elem?-lt y ys i (omega arith)

outcome_exists :
    (o : NetworkOutcome) (os : List NetworkOutcome) (n : ℕ)
    → (p : NetworkOutcome) × (outcome_for_attempt (o ∷ os) n ≡ some p)
unfolding outcome_for_attempt
outcome_exists o os n = get_elem?-lt o os (min (n - 1) (suc (length os) - 1)) (omega arith)

not_success :
    (p : NetworkOutcome) → is_acked (to_delivery_outcome p) ≡ false → some p ≢ some success
not_success message_lost e f = cc
not_success ack_lost e f = cc
not_success success e f = cc

module _ {S : Type 0} (opts : SendWithRetryOptions S) where
  abbrev pub made : DeliveryAttempt → S → S
  made a s =
      opts.on_attempt a
        (if reached a.outcome then opts.deliver_to_receiver a.attempt_number s else s)

  -- What the attempts did to the state, in their order.
  abbrev pub replay : List DeliveryAttempt → S → S
  replay [] s = s
  replay (a ∷ more) s = replay more (made a s)

  pub record Sent (left n : ℕ) (s : S) : Type 0 where
    pub result : SendWithRetryResult
    pub runs : send_from opts left n s ≡ some (result, replay result.attempts s)
    pub bounded : length result.attempts ≤ left
    pub acks : result.acked ≡ any_acked result.attempts
    pub in_time :
        (d : ℕ)
        → d < left
        → outcome_for_attempt opts.script (n + d) ≡ some success
        → (result.acked ≡ true) × (length result.attempts ≤ suc d)

  -- The attempt that `network_outcome` makes of the state `s`, and the state after it.
  abbrev attempt_of : ℕ → NetworkOutcome → DeliveryAttempt
  attempt_of n p = record { attempt_number = n; outcome = to_delivery_outcome p }

  abbrev state_after : ℕ → NetworkOutcome → S → S
  state_after n p s =
      opts.on_attempt (attempt_of n p) (if arrives p then opts.deliver_to_receiver n s else s)

  later_success :
      (n : ℕ) (p : NetworkOutcome) (acked : Bool) (k left d : ℕ)
      → outcome_for_attempt opts.script n ≡ some p
      → is_acked (to_delivery_outcome p) ≡ false
      → ((e : ℕ)
          → e < left
          → outcome_for_attempt opts.script (n + 1 + e) ≡ some success
          → (acked ≡ true) × (k ≤ suc e))
      → d < suc left
      → outcome_for_attempt opts.script (n + d) ≡ some success
      → (acked ≡ true) × (suc k ≤ suc d)
  later_success n p acked k left zero e more ih l f =
      let same : n + 0 ≡ n = omega arith in
      absurd (not_success p more (sym e ∙ ap (outcome_for_attempt opts.script) (sym same) ∙ f))
  later_success n p acked k left (suc d) e more ih l f =
      let same : n + suc d ≡ n + 1 + d = omega arith in
      let found = ih d (omega arith) (ap (outcome_for_attempt opts.script) (sym same) ∙ f) in
      (found.0, omega (arith, found.1))

  again :
      (left n : ℕ) (s : S) (p : NetworkOutcome)
      → outcome_for_attempt opts.script n ≡ some p
      → is_acked (to_delivery_outcome p) ≡ false
      → reached (to_delivery_outcome p) ≡ arrives p
      → Sent left (n + 1) (state_after n p s)
      → Sent (suc left) n s
  unfolding send_from
  again left n s p e more same later = record {
    result = record later.result { attempts = attempt_of n p ∷ later.result.attempts };
    runs = rw e (
        rw more (
          rw later.runs (
            ap
              (λ b. some (
                record later.result { attempts = attempt_of n p ∷ later.result.attempts },
                replay later.result.attempts (
                    opts.on_attempt (attempt_of n p)
                      (if b then opts.deliver_to_receiver n s else s)),
              ))
              (sym same))));
    bounded = omega (arith, later.bounded);
    acks = rw more later.acks;
    in_time = λ d l f.
        later_success n p later.result.acked (length later.result.attempts) left d e more
          later.in_time l f;
  }

  ends :
      (left n : ℕ) (s : S) → outcome_for_attempt opts.script n ≡ some success → Sent (suc left) n s
  unfolding send_from
  ends left n s e = record {
    result = record { attempts = attempt_of n success ∷ []; acked = true };
    runs = rw e refl;
    bounded = omega arith;
    acks = refl;
    in_time = λ d l f. (refl, omega arith);
  }

  step :
      (left n : ℕ) (s : S) (p : NetworkOutcome)
      → outcome_for_attempt opts.script n ≡ some p
      → ((t : S) → Sent left (n + 1) t)
      → Sent (suc left) n s
  step left n s message_lost e rest =
      again left n s message_lost e refl refl (rest (state_after n message_lost s))
  step left n s ack_lost e rest =
      again left n s ack_lost e refl refl (rest (state_after n ack_lost s))
  step left n s success e rest = ends left n s e

  send_from-Sent :
      (o : NetworkOutcome) (os : List NetworkOutcome)
      → opts.script ≡ o ∷ os
      → (left n : ℕ) (s : S) → Sent left n s
  unfolding send_from
  send_from-Sent o os e zero n s = record {
    result = record { attempts = []; acked = false };
    runs = refl;
    bounded = omega arith;
    acks = refl;
    in_time = λ d l f. absurd (omega (arith, l));
  }
  send_from-Sent o os e (suc left) n s =
      let found = outcome_exists o os n in
      step left n s found.0 (rw e found.1) (send_from-Sent o os e left (n + 1))

  -- With a script, `sendWithRetry` throws nothing: it makes at most `maxAttempts` attempts, the
  -- state at its end is what those attempts make of it in their order, the receiver having got
  -- exactly those that were not lost, and `acked` says whether one of them was acknowledged.
  pub send_with_retry-Sent :
      (o : NetworkOutcome) (os : List NetworkOutcome) (s : S)
      → opts.script ≡ o ∷ os
      → (r : SendWithRetryResult) × (send_with_retry opts s ≡ some (r, replay r.attempts s))
        × (length r.attempts ≤ opts.max_attempts)
        × (r.acked ≡ any_acked r.attempts)
  unfolding send_with_retry
  send_with_retry-Sent o os s e =
      let sent = send_from-Sent o os e opts.max_attempts 1 s in
      (sent.result, sent.runs, sent.bounded, sent.acks)

  -- Where the script has a success at attempt `k`, and `maxAttempts` allows it, `sendWithRetry` is
  -- acknowledged within `k` attempts.
  pub send_with_retry_acked :
      (o : NetworkOutcome) (os : List NetworkOutcome) (s : S) (k : ℕ)
      → opts.script ≡ o ∷ os
      → k < opts.max_attempts
      → outcome_for_attempt opts.script (1 + k) ≡ some success
      → (r : SendWithRetryResult) × (send_with_retry opts s ≡ some (r, replay r.attempts s))
        × (r.acked ≡ any_acked r.attempts)
        × (r.acked ≡ true)
        × (length r.attempts ≤ suc k)
  unfolding send_with_retry
  send_with_retry_acked o os s k e l f =
      let sent = send_from-Sent o os e opts.max_attempts 1 s in
      let done = sent.in_time k l f in (sent.result, sent.runs, sent.acks, done.0, done.1)
