-- ===== src/Relay/Turns.antt =====
-- `claimAndPublish` is its steps in a row: labs/17-outbox-workers-skip-locked/src/queue/.
use systems_engineering_lab.Prelude.{ℕ, ◌≡◌}
use systems_engineering_lab.Prelude.Table.{Table}
use systems_engineering_lab.Relay.{OutboxRow}
use systems_engineering_lab.Relay.Broker.{SimulatedBroker}
use systems_engineering_lab.Relay.Claims.{ClaimAndPublishResult}
use systems_engineering_lab.Relay.Steps.{Phase, idle, System, Steps}

-- The steps lead to this table and this broker, and the worker is idle again.
abbrev pub Leads : System → ℕ → ClaimAndPublishResult × Table OutboxRow × SimulatedBroker → Type 0
Leads s w (result, t, b) =
    (phase : ℕ → Phase) × (phase w ≡ idle)
    × Steps s (record { outbox = t; broker = b; phase = phase })
