-- ===== src/Retry.antt =====
-- Retries with backoff and full jitter, `retryWithBackoff` of
-- labs/37-retries-timeouts-and-circuit-breakers/src/lib/retry.ts, and the client-side bound on
-- waiting, `withTimeout` of lib/timeout.ts beside it.
-- A call of `fn` acts on a state `S` of its own and gets the attempt's number. The injected
-- `random()` of attempt k is `random k / unit`, and a delay is kept as the numerator over `unit`,
-- so no float is rounded. `retries` lists what `onRetry` saw and `sleep` waited for, oldest first.
pub mod Attempts
mod Tests
use systems_engineering_lab.Prelude.{
  ℕ, zero, suc, ◌+◌, ◌-◌, ◌*◌, ◌^◌, min, Bool, true, false, not, ◌||◌, Option, none, some, List, [],
  ◌∷◌, ltb, if◌then◌else◌,
}

pub record RetryOptions {ℓ} (E : Type ℓ) : Type ℓ where
  pub max_attempts : ℕ
  pub base_delay_ms : ℕ
  pub max_delay_ms : ℕ
  pub is_retryable : E → Bool
  pub random : ℕ → ℕ

pub data Attempt {ℓ κ} (T : Type ℓ) (E : Type κ) : Type (ℓ ⊔ κ) where
  returned : T → Attempt T E
  threw : E → Attempt T E

pub record RetryInfo {ℓ} (E : Type ℓ) : Type ℓ where
  pub attempt : ℕ
  pub delay : ℕ
  pub error : E

-- How `retryWithBackoff` ends: `exhausted` is the `throw lastError` below the loop.
pub data Outcome {ℓ κ} (T : Type ℓ) (E : Type κ) : Type (ℓ ⊔ κ) where
  result : T → Outcome T E
  failure : E → Outcome T E
  exhausted : Option E → Outcome T E

pub exponential_cap {ℓ} : {E : Type ℓ} → RetryOptions E → ℕ → ℕ
exponential_cap opts attempt = min opts.max_delay_ms (opts.base_delay_ms * 2 ^ (attempt - 1))

abbrev pub Run {ℓ κ μ} : Type ℓ → Type κ → Type μ → Type (ℓ ⊔ κ ⊔ μ)
Run T E S = Outcome T E × S × List (RetryInfo E)

module _ {ℓ κ μ} {T : Type ℓ} {E : Type κ} {S : Type μ} where
  abbrev pub slept : RetryInfo E → Run T E S → Run T E S
  slept info (outcome, s, infos) = (outcome, s, info ∷ infos)

  -- What the loop does with one settled attempt; `rest` is the loop from the next attempt.
  pub after_attempt : RetryOptions E → ℕ → (Option E → S → Run T E S) → Attempt T E × S → Run T E S
  unfolding exponential_cap
  after_attempt opts attempt rest (returned t, s) = (result t, s, [])
  after_attempt opts attempt rest (threw err, s) =
      let attempts_remain = ltb attempt opts.max_attempts in
      let delay_ms = opts.random attempt * exponential_cap opts attempt in
      if not (opts.is_retryable err) || not attempts_remain
      then (failure err, s, [])
      else slept (record { attempt = attempt; delay = delay_ms; error = err }) (rest (some err) s)

  -- `for (let attempt = …; attempt <= opts.maxAttempts; attempt++)`, with the rounds left.
  pub retry_from : RetryOptions E → (ℕ → S → Attempt T E × S) → ℕ → ℕ → Option E → S → Run T E S
  retry_from opts fn zero attempt last_error s = (exhausted last_error, s, [])
  retry_from opts fn (suc left) attempt last_error s =
      after_attempt opts attempt (retry_from opts fn left (attempt + 1)) (fn attempt s)

  unfoldable pub retry_with_backoff : RetryOptions E → (ℕ → S → Attempt T E × S) → S → Run T E S
  unfolding retry_from after_attempt
  retry_with_backoff opts fn s = retry_from opts fn opts.max_attempts 1 none s

  -- `withTimeout`. What `fn` gives for a timer of so many milliseconds says first whether it
  -- settles before that timer fires. Whatever the caller sees, `fn` has acted on `S`.
  pub with_timeout : (ℕ → E) → (ℕ → S → Bool × Attempt T E × S) → ℕ → S → Attempt T E × S
  with_timeout timeout_error fn timeout_ms s =
      let (in_time, outcome, s') = fn timeout_ms s in
      (if in_time then outcome else threw (timeout_error timeout_ms), s')
