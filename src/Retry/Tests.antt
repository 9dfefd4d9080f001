-- ===== src/Retry/Tests.antt =====
-- Runs of the retry loop at concrete inputs.
use systems_engineering_lab.Prelude.{
  ℕ, suc, ◌+◌, ◌≤◌, ◌≡◌, ◌≢◌, ◌⊎◌, refl, Bool, false, Option, [], ◌∷◌, arith, ltb, length,
  if◌then◌else◌,
}
use systems_engineering_lab.Retry.{
  RetryOptions, Attempt, returned, threw, result, failure, exhausted, retry_with_backoff,
  with_timeout,
}
use systems_engineering_lab.Retry.Attempts.{retry_counts}

-- Errors 500 and up are transient. The jitter is 7 sixteenths.
abbrev opts : RetryOptions ℕ
opts = record {
  max_attempts = 3;
  base_delay_ms = 50;
  max_delay_ms = 80;
  is_retryable = λ e. ltb 499 e;
  random = λ k. 7;
}

-- A downstream that counts its calls and answers the third.
abbrev third_time : ℕ → ℕ → Attempt ℕ ℕ × ℕ
third_time k n = (if ltb k 3 then threw 503 else returned 200, suc n)

abbrev invalid : ℕ → ℕ → Attempt ℕ ℕ × ℕ
invalid k n = (threw 422, suc n)

runs_to_success : retry_with_backoff opts third_time 0 ≡ (
  result 200,
  3,
  record { attempt = 1; delay = 350; error = 503 }
      ∷ record { attempt = 2; delay = 560; error = 503 }
      ∷ [],
)
unfolding retry_with_backoff
runs_to_success = refl

invalid_stops : retry_with_backoff opts invalid 0 ≡ (failure 422, 1, [])
unfolding retry_with_backoff
invalid_stops = refl

late : ℕ → ℕ → Bool × Attempt ℕ ℕ × ℕ
late ms n = (ltb 400 ms, returned 200, suc n)

timeout_keeps_effect : with_timeout (λ ms. ms) late 300 4 ≡ (threw 300, 5)
unfolding with_timeout late
timeout_keeps_effect = refl

retry_counts_example :
    let (outcome, s', infos) = retry_with_backoff opts invalid 0 in
    (s' ≡ 0 + length infos + 1)
    × (length infos + 1 ≤ 3)
    × ((last : Option ℕ) → outcome ≢ exhausted last)
    × ((e : ℕ) → outcome ≡ failure e → (ltb 499 e ≡ false) ⊎ (length infos + 1 ≡ 3))
retry_counts_example = retry_counts opts invalid (λ n. n) (λ k n. omega arith) 0 (omega arith)
