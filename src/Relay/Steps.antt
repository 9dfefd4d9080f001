-- ===== src/Relay/Steps.antt =====
-- Publishers that run at once: every `await` of `claimAndPublish` is a step of its own
-- (labs/17-outbox-workers-skip-locked/src/queue/claim-and-publish.ts).
use systems_engineering_lab.Prelude.{ℕ, ◌≡◌, Bool, Option, none, some, ◌==◌, if◌then◌else◌}
use systems_engineering_lab.Prelude.Table.{Table}
use systems_engineering_lab.Relay.{OutboxRow, ClaimedEvent}
use systems_engineering_lab.Relay.Broker.{
  BrokerMode, SimulatedBroker, Answer, accepted, refused, called, answer,
}
use systems_engineering_lab.Relay.Claims.{
  claim_next_event, mark_published, mark_publish_failed, to_broker,
}

-- Where a worker's turn stands.
pub data Phase : Type 0 where
  idle : Phase
  claimed : ClaimedEvent → Phase
  calling : ClaimedEvent → Phase
  delivered : ClaimedEvent → Phase
  thrown : ClaimedEvent → Phase

pub record System : Type 0 where
  pub outbox : Table OutboxRow
  pub broker : SimulatedBroker
  pub phase : ℕ → Phase

abbrev pub update : (ℕ → Phase) → ℕ → Phase → ℕ → Phase
update f w p v = if v == w then p else f v

abbrev pub phase_after_claim : Option ClaimedEvent → Phase
phase_after_claim none = idle
phase_after_claim (some e) = claimed e

abbrev pub claim : ℕ → (ℕ → Bool) → ℕ → ℕ → System → System
unfolding claim_next_event
claim now locked w lease_ms s =
    let next = claim_next_event now locked w lease_ms s.outbox in
    record s { outbox = next.1; phase = update s.phase w (phase_after_claim next.0) }

abbrev pub call : ℕ → ClaimedEvent → System → System
call w e s = record s {
  broker = called (to_broker e) s.broker;
  phase = update s.phase w (calling e);
}

abbrev pub phase_after_answer : ClaimedEvent → Answer → Phase
phase_after_answer e accepted = delivered e
phase_after_answer e refused = thrown e

abbrev pub be_answered : Option BrokerMode → ℕ → ClaimedEvent → System → System
be_answered mode w e s =
    let a = answer mode (to_broker e) s.broker in
    record s { broker = a.1; phase = update s.phase w (phase_after_answer e a.0) }

abbrev pub finish : ℕ → ℕ → ClaimedEvent → System → System
unfolding mark_published
finish now w e s = record s {
  outbox = mark_published now e.id w s.outbox;
  phase = update s.phase w idle;
}

abbrev pub give_back : ℕ → ClaimedEvent → System → System
unfolding mark_publish_failed
give_back w e s = record s {
  outbox = mark_publish_failed e.id w s.outbox;
  phase = update s.phase w idle;
}

-- `stopping` is a worker that dies, wherever it stands, or skips the last statement.
pub data Step (s : System) : System → Type 0 where
  claiming :
      (now : ℕ) (locked : ℕ → Bool) (w lease_ms : ℕ)
      → s.phase w ≡ idle
      → Step s (claim now locked w lease_ms s)
  publishing : (w : ℕ) (e : ClaimedEvent) → s.phase w ≡ claimed e → Step s (call w e s)
  answering :
      (mode : Option BrokerMode) (w : ℕ) (e : ClaimedEvent)
      → s.phase w ≡ calling e
      → Step s (be_answered mode w e s)
  finishing : (now w : ℕ) (e : ClaimedEvent) → s.phase w ≡ delivered e → Step s (finish now w e s)
  losing_mark :
      (w : ℕ) (e : ClaimedEvent)
      → s.phase w ≡ delivered e
      → Step s (record s { phase = update s.phase w (thrown e) })
  giving_back : (w : ℕ) (e : ClaimedEvent) → s.phase w ≡ thrown e → Step s (give_back w e s)
  stopping : (w : ℕ) → Step s (record s { phase = update s.phase w idle })

pub data Steps (s : System) : System → Type 0 where
  start : Steps s s
  after_step : {t u : System} → Steps s t → Step t u → Steps s u
