-- ===== src/Retry/Attempts.antt =====
-- How often `retryWithBackoff` calls `fn`, when it gives up, and how long it waits.
use systems_engineering_lab.Prelude.{
  ℕ, zero, suc, ◌+◌, ◌*◌, ◌^◌, ◌-◌, ◌≤◌, ◌<◌, ◌≡◌, ◌≢◌, refl, ◌⊎◌, true, false, Option, none, some,
  inl, inr, Bool-cases, ltb, ltb→lt, ltb-false→le, List, [], ◌∷◌, arith, length,
}
use systems_engineering_lab.Retry.{
  RetryOptions, Attempt, returned, threw, RetryInfo, failure, exhausted, exponential_cap, Run,
  slept, after_attempt, retry_from, retry_with_backoff,
}

mul_mono : {a b c d : ℕ} → a ≤ b → c ≤ d → a * c ≤ b * d
mul_mono h k = grind arith

module _ {ℓ κ μ} {T : Type ℓ} {E : Type κ} {S : Type μ} (opts : RetryOptions E)
    (fn : ℕ → S → Attempt T E × S) where
  abbrev info : ℕ → E → RetryInfo E
  info attempt err = record {
    attempt = attempt;
    delay = opts.random attempt * exponential_cap opts attempt;
    error = err;
  }

  -- What the loop has done from `attempt` on; `calls` counts the calls that `S` has seen.
  abbrev Counted : (S → ℕ) → ℕ → S → Run T E S → Type (ℓ ⊔ κ)
  Counted calls attempt s (o, s', infos) =
      (calls s' ≡ calls s + length infos + 1)
      × (attempt + length infos ≤ opts.max_attempts)
      × ((last : Option E) → o ≢ exhausted last)
      × ((e : E)
          → o ≡ failure e
          → (opts.is_retryable e ≡ false) ⊎ (attempt + length infos ≡ opts.max_attempts))

  module _ (calls : S → ℕ)
      (each : (attempt : ℕ) (s : S) → calls (fn attempt s).1 ≡ calls s + 1) where
    slept-Counted :
        (info : RetryInfo E) (attempt : ℕ) (s s' : S) (r : Run T E S)
        → calls s' ≡ calls s + 1
        → Counted calls (attempt + 1) s' r
        → Counted calls attempt s (slept info r)
    slept-Counted info attempt s s' (o, s'', infos) e (c, b, x, g) =
        (omega arith, omega arith, x, λ err eq. g' err (g err eq))
      where
        g' :
            (err : E)
            → (opts.is_retryable err ≡ false) ⊎ (attempt + 1 + length infos ≡ opts.max_attempts)
            → (opts.is_retryable err ≡ false) ⊎ (attempt + suc (length infos) ≡ opts.max_attempts)
        g' err (inl p) = inl p
        g' err (inr p) = inr (omega arith)

    after_attempt-Counted :
        (attempt : ℕ) (rest : Option E → S → Run T E S) (s : S) (o : Attempt T E) (s' : S)
        → calls s' ≡ calls s + 1
        → attempt ≤ opts.max_attempts
        → ((last : Option E)
            → attempt < opts.max_attempts
            → Counted calls (attempt + 1) s' (rest last s'))
        → Counted calls attempt s (after_attempt opts attempt rest (o, s'))
    unfolding after_attempt
    after_attempt-Counted attempt rest s (returned t) s' e h ih =
        (omega arith, omega arith, λ last eq. cc, λ err eq. cc)
    after_attempt-Counted attempt rest s (threw err) s' e h ih =
        elim (Bool-cases (opts.is_retryable err)) [
          | inl again ↦ elim (Bool-cases (ltb attempt opts.max_attempts)) [
            | inl more ↦
                rw (again, more)
                  (slept-Counted (info attempt err) attempt s s' (rest (some err) s') e
                    (ih (some err) (ltb→lt _ _ more)))
            | inr last ↦
                rw (again, last)
                  (
                    omega arith,
                    omega arith,
                    λ l eq. cc,
                    λ er eq. inr (omega (arith, ltb-false→le _ _ last)),
                  )
          ]
          | inr never ↦ rw never (omega arith, omega arith, λ l eq. cc, λ er eq. inl (cc))
        ]

    retry_from-Counted :
        (left attempt : ℕ) (last : Option E) (s : S)
        → attempt + left ≡ opts.max_attempts
        → Counted calls attempt s (retry_from opts fn (suc left) attempt last s)
    unfolding retry_from
    retry_from-Counted zero attempt last s h =
        after_attempt-Counted attempt _ s (fn attempt s).0 (fn attempt s).1 (each attempt s)
          (omega arith) (λ l lt. absurd (omega arith))
    retry_from-Counted (suc left) attempt last s h =
        after_attempt-Counted attempt _ s (fn attempt s).0 (fn attempt s).1 (each attempt s)
          (omega arith)
          (λ l lt. retry_from-Counted left (attempt + 1) l (fn attempt s).1 (omega arith))

    retry_all-Counted :
        (n : ℕ) (s : S)
        → n ≡ opts.max_attempts
        → 1 ≤ n
        → Counted calls 1 s (retry_from opts fn n 1 none s)
    retry_all-Counted zero s e h = absurd (omega arith)
    retry_all-Counted (suc n) s e h = retry_from-Counted n 1 none s (omega arith)

    -- With at least one attempt allowed, `retryWithBackoff` calls `fn` once more than it sleeps
    -- and at most `maxAttempts` times. It never reaches the `throw` below the loop, and it throws
    -- an error only if that error is not retryable or all attempts are used up.
    pub retry_counts :
        (s : S)
        → 1 ≤ opts.max_attempts
        → let (outcome, s', infos) = retry_with_backoff opts fn s in
          (calls s' ≡ calls s + length infos + 1)
          × (length infos + 1 ≤ opts.max_attempts)
          × ((last : Option E) → outcome ≢ exhausted last)
          × ((e : E)
              → outcome ≡ failure e
              → (opts.is_retryable e ≡ false) ⊎ (length infos + 1 ≡ opts.max_attempts))
    unfolding retry_with_backoff
    retry_counts s h =
        let r = retry_from opts fn opts.max_attempts 1 none s in
        let c = retry_all-Counted opts.max_attempts s refl h in
        (c.0, omega arith, c.2, λ e eq. gave_up (length r.2) (c.3 e eq))
      where
        gave_up :
            {P : Type 0} (n : ℕ) → P ⊎ (1 + n ≡ opts.max_attempts) → P ⊎ (n + 1 ≡ opts.max_attempts)
        gave_up n (inl p) = inl p
        gave_up n (inr p) = inr (omega arith)

  module _ (unit : ℕ) (scaled : (k : ℕ) → opts.random k ≤ unit) where
    -- The attempts are numbered upwards, each error is retryable, and each delay is bounded.
    abbrev pub Waits : ℕ → List (RetryInfo E) → Type 0
    Waits attempt [] = Unit
    Waits attempt (i ∷ infos) =
        (i.attempt ≡ attempt)
        × (opts.is_retryable i.error ≡ true)
        × (i.delay ≤ unit * opts.max_delay_ms)
        × (i.delay ≤ unit * (opts.base_delay_ms * 2 ^ (attempt - 1)))
        × Waits (attempt + 1) infos

    after_attempt-Waits :
        (attempt : ℕ) (rest : Option E → S → Run T E S) (o : Attempt T E) (s' : S)
        → ((last : Option E) → Waits (attempt + 1) (rest last s').2)
        → Waits attempt (after_attempt opts attempt rest (o, s')).2
    unfolding after_attempt
    after_attempt-Waits attempt rest (returned t) s' ih = tt
    after_attempt-Waits attempt rest (threw err) s' ih = elim (Bool-cases (opts.is_retryable err)) [
      | inl again ↦ elim (Bool-cases (ltb attempt opts.max_attempts)) [
        | inl more ↦
            rw (again, more)
              (
                refl,
                again,
                mul_mono (scaled attempt) (omega arith),
                mul_mono (scaled attempt) (omega arith),
                ih (some err),
              )
        | inr last ↦ rw (again, last) tt
      ]
      | inr never ↦ rw never tt
    ]

    retry_from-Waits :
        (left attempt : ℕ) (last : Option E) (s : S)
        → Waits attempt (retry_from opts fn left attempt last s).2
    unfolding retry_from
    retry_from-Waits zero attempt last s = tt
    retry_from-Waits (suc left) attempt last s =
        after_attempt-Waits attempt _ (fn attempt s).0 (fn attempt s).1
          (λ l. retry_from-Waits left (attempt + 1) l (fn attempt s).1)

    -- If `random()` stays within [0, 1], every sleep is at most `maxDelayMs` and at most
    -- `baseDelayMs * 2 ** (attempt - 1)`; the attempts that sleep are numbered from 1 on, and
    -- each of them failed with a retryable error.
    pub retry_with_backoff-Waits : (s : S) → Waits 1 (retry_with_backoff opts fn s).2
    unfolding retry_with_backoff
    retry_with_backoff-Waits s = retry_from-Waits opts.max_attempts 1 none s
