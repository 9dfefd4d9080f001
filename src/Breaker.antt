-- ===== src/Breaker.antt =====
-- The circuit breaker, class `CircuitBreaker` of
-- labs/37-retries-timeouts-and-circuit-breakers/src/lib/circuit-breaker.ts.
-- `execute` is cut at its one `await`: `begin` runs up to the call of `fn`, `settle` from the
-- moment that `fn` has settled. Other calls of `execute` may run between the two. The clock is
-- an argument, and `onStateChange` appends to `changes`, newest first.
pub mod Trips
pub mod Interleaving
mod Tests
use systems_engineering_lab.Prelude.{ℕ, ◌+◌, Bool, true, false, List, [], ◌∷◌, leb, if◌then◌else◌}

pub data CircuitState : Type 0 where
  closed open_circuit half_open : CircuitState

pub record CircuitBreakerOptions : Type 0 where
  pub failure_threshold : ℕ
  pub cooldown_ms : ℕ

pub record CircuitBreaker : Type 0 where
  pub opts : CircuitBreakerOptions
  pub open opts use *
  pub state : CircuitState
  pub consecutive_failures : ℕ
  pub opened_at : ℕ
  pub half_open_probe_in_flight : Bool
  pub changes : List (CircuitState × CircuitState)

pub constructor : CircuitBreakerOptions → CircuitBreaker
constructor opts = record {
  opts = opts;
  state = closed;
  consecutive_failures = 0;
  opened_at = 0;
  half_open_probe_in_flight = false;
  changes = [];
}

-- `from !== to`
abbrev pub differ : CircuitState → CircuitState → Bool
differ closed closed = false
differ open_circuit open_circuit = false
differ half_open half_open = false
differ _ _ = true

pub transition : CircuitState → CircuitBreaker → CircuitBreaker
transition to b = record b {
  state = to;
  changes = if differ b.state to then (b.state, to) ∷ b.changes else b.changes;
}

-- Which of the two `await fn()` of `execute` a call is at.
pub data Place : Type 0 where
  probe normal : Place

-- What `execute` does up to the call of `fn`.
pub data Admission : Type 0 where
  circuit_open_error : CircuitState → Admission
  calls : Place → Admission

-- The guards after the test of `OPEN`.
admit : CircuitState → CircuitBreaker → Admission × CircuitBreaker
admit half_open b =
    if b.half_open_probe_in_flight
    then (circuit_open_error half_open, b)
    else (calls probe, record b { half_open_probe_in_flight = true })
admit _ b = (calls normal, b)

begin_at : CircuitState → ℕ → CircuitBreaker → Admission × CircuitBreaker
unfolding admit transition
begin_at open_circuit now b =
    if leb (b.opened_at + b.cooldown_ms) now
    then admit half_open (transition half_open b)
    else (circuit_open_error open_circuit, b)
begin_at st now b = admit st b

pub begin : ℕ → CircuitBreaker → Admission × CircuitBreaker
unfolding begin_at
begin now b = begin_at b.state now b

-- The rest of `execute`, by the place of the `await` and whether `fn` resolved.
pub settle : Place → Bool → ℕ → CircuitBreaker → CircuitBreaker
unfolding transition
settle probe true now b = record (transition closed (record b { consecutive_failures = 0 })) {
  half_open_probe_in_flight = false;
}
settle probe false now b = record (transition open_circuit (record b { opened_at = now })) {
  half_open_probe_in_flight = false;
}
settle normal true now b = record b { consecutive_failures = 0 }
settle normal false now b =
    let counted : CircuitBreaker = record b { consecutive_failures = b.consecutive_failures + 1 } in
    if leb b.failure_threshold counted.consecutive_failures
    then transition open_circuit (record counted { opened_at = now })
    else counted

-- How `fn`, and `execute`, can end.
pub data Settled {ℓ κ} (T : Type ℓ) (E : Type κ) : Type (ℓ ⊔ κ) where
  resolved : T → Settled T E
  rejected : E → Settled T E
  circuit_open : CircuitState → Settled T E

abbrev pub is_resolved {ℓ κ} : {T : Type ℓ} {E : Type κ} → Settled T E → Bool
is_resolved (resolved _) = true
is_resolved _ = false

-- One whole call with no other call in between: `fn` acts on a state of its own, it is called at
-- `now` and settles at `later`.
pub execute {ℓ κ μ} :
    {T : Type ℓ} {E : Type κ} {S : Type μ}
    → (S → Settled T E × S)
    → ℕ
    → ℕ
    → CircuitBreaker × S
    → Settled T E × CircuitBreaker × S
execute fn now later (b, s) =
    let (admission, b') = begin now b in
    elim admission [
      | circuit_open_error st ↦ (circuit_open st, b', s)
      | calls place ↦
          let (outcome, s') = fn s in (outcome, settle place (is_resolved outcome) later b', s')
    ]
