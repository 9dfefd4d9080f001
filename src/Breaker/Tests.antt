-- ===== src/Breaker/Tests.antt =====
-- Runs of the circuit breaker at concrete inputs.
use systems_engineering_lab.Prelude.{ℕ, suc, ◌≡◌, refl, true, [], ◌∷◌}
use systems_engineering_lab.Breaker.{
  closed, open_circuit, half_open, CircuitBreakerOptions, CircuitBreaker, constructor, normal,
  begin, settle, Settled, resolved, rejected, execute,
}
use systems_engineering_lab.Breaker.Trips.{execute_all}
use systems_engineering_lab.Breaker.Interleaving.{
  World, begins, settles, Reach, here, next, init, Inv, Reach-Inv,
}

abbrev three : CircuitBreakerOptions
three = record { failure_threshold = 3; cooldown_ms = 100 }

-- A downstream that counts its calls, and always fails, or always answers.
abbrev down : ℕ → Settled ℕ ℕ × ℕ
down n = (rejected 500, suc n)

abbrev up : ℕ → Settled ℕ ℕ × ℕ
up n = (resolved 200, suc n)

abbrev tripped : CircuitBreaker
tripped = record (constructor three) {
  state = open_circuit;
  consecutive_failures = 3;
  opened_at = 40;
  changes = (closed, open_circuit) ∷ [];
}

trips_at_three :
    execute_all down ((10, 12) ∷ (20, 22) ∷ (30, 40) ∷ (50, 60) ∷ []) (constructor three) 0
    ≡ tripped
unfolding execute_all execute begin settle constructor
trips_at_three = refl

-- Two calls begin; the older of them settles first.
abbrev two_calls : World
two_calls = record { breaker = constructor three; in_flight = normal ∷ [] }

run_two : Reach (init three) two_calls
unfolding init begin constructor settle
run_two =
    next (next (next {v = two_calls} here (begins 5 refl)) (begins 6 refl))
      (settles (normal ∷ []) normal [] true 9 refl refl)

Reach-Inv_example : Inv two_calls
Reach-Inv_example = Reach-Inv three run_two

abbrev probing : CircuitBreaker
probing = record tripped { state = half_open; half_open_probe_in_flight = true; changes = [] }
