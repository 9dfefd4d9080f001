-- ===== src/Breaker/Trips.antt =====
-- What one caller at a time observes: when the breaker trips, what it refuses while open, and how
-- a probe ends.
use systems_engineering_lab.Prelude.{
  ℕ, ◌+◌, ◌≤◌, ◌<◌, ◌≡◌, true, false, List, [], ◌∷◌, ◌++◌, arith, length,
}
use systems_engineering_lab.Breaker.{
  closed, open_circuit, CircuitBreaker, begin, settle, Settled, circuit_open, execute, is_resolved,
}

module _ {ℓ κ μ} {T : Type ℓ} {E : Type κ} {S : Type μ} (fn : S → Settled T E × S) where
  -- While the breaker is open and the cooldown is not over, `execute` throws `CircuitOpenError`,
  -- `fn` is not called (its state stays `s`), and the breaker is unchanged.
  pub execute_rejects :
      (now later : ℕ) (b : CircuitBreaker) (s : S)
      → b.state ≡ open_circuit
      → now < b.opened_at + b.cooldown_ms
      → execute fn now later (b, s) ≡ (circuit_open open_circuit, b, s)
  unfolding execute begin
  execute_rejects now later b s e h = ground arith

  -- After the cooldown an idle breaker lets one probe through, which calls `fn` once and gives
  -- `fn`'s outcome; if `fn` resolved, the breaker closes with its failures forgotten, and if not,
  -- it is open again from the moment the probe settled. Either way no probe is left in flight.
  pub execute_probes :
      (now later : ℕ) (b : CircuitBreaker) (s : S)
      → b.state ≡ open_circuit
      → b.half_open_probe_in_flight ≡ false
      → b.opened_at + b.cooldown_ms ≤ now
      → let (outcome, b', s') = execute fn now later (b, s) in
        (outcome ≡ (fn s).0)
        × (s' ≡ (fn s).1)
        × (b'.half_open_probe_in_flight ≡ false)
        × (is_resolved (fn s).0 ≡ true → (b'.state ≡ closed) × (b'.consecutive_failures ≡ 0))
        × (is_resolved (fn s).0 ≡ false → (b'.state ≡ open_circuit) × (b'.opened_at ≡ later))
  unfolding execute begin settle
  execute_probes now later b s e idle h = ground arith

  -- The calls of one caller after another, each at its two times.
  unfoldable pub execute_all : List (ℕ × ℕ) → CircuitBreaker → S → CircuitBreaker
  execute_all [] b s = b
  execute_all ((now, later) ∷ ts) b s =
      let (outcome, b', s') = execute fn now later (b, s) in execute_all ts b' s'

  module _ (fails : (s : S) → is_resolved (fn s).0 ≡ false) where
    execute_fails :
        (now later : ℕ) (b : CircuitBreaker) (s : S)
        → b.state ≡ closed
        → let (outcome, b', s') = execute fn now later (b, s) in
          (b'.consecutive_failures ≡ b.consecutive_failures + 1)
          × (b'.failure_threshold ≡ b.failure_threshold)
          × (b.consecutive_failures + 1 < b.failure_threshold → b'.state ≡ closed)
          × (b.failure_threshold ≤ b.consecutive_failures + 1
              → (b'.state ≡ open_circuit) × (b'.opened_at ≡ later))
    unfolding execute begin settle
    execute_fails now later b s e = ground (arith, fails s)

    -- Where `fn` always throws, a closed breaker stays closed, and counts every call, as long as
    -- the failures stay under the threshold.
    pub execute_all_below :
        (ts : List (ℕ × ℕ)) (b : CircuitBreaker) (s : S)
        → b.state ≡ closed
        → b.consecutive_failures + length ts < b.failure_threshold
        → ((execute_all ts b s).state ≡ closed)
          × ((execute_all ts b s).consecutive_failures ≡ b.consecutive_failures + length ts)
    unfolding execute_all
    execute_all_below [] b s e h = (e, omega arith)
    execute_all_below ((now, later) ∷ ts) b s e h =
        let (outcome, b', s') = execute fn now later (b, s) in
        ground (arith, execute_fails now later b s e, execute_all_below ts b' s')

    -- Where `fn` always throws, the call that brings a closed breaker's consecutive failures to
    -- the threshold opens it, at the time at which that call settled.
    pub execute_all_trips :
        (ts : List (ℕ × ℕ)) (now later : ℕ) (b : CircuitBreaker) (s : S)
        → b.state ≡ closed
        → b.consecutive_failures + length ts + 1 ≡ b.failure_threshold
        → ((execute_all (ts ++ (now, later) ∷ []) b s).state ≡ open_circuit)
          × ((execute_all (ts ++ (now, later) ∷ []) b s).opened_at ≡ later)
    unfolding execute_all
    execute_all_trips [] now later b s e h = ground (arith, execute_fails now later b s e)
    execute_all_trips ((t, u) ∷ ts) now later b s e h =
        let (outcome, b', s') = execute fn t u (b, s) in
        ground (arith, execute_fails t u b s e, execute_all_trips ts now later b' s')
