-- ===== src/Relay.antt =====
-- labs/17-outbox-workers-skip-locked/src/db/schema.ts and the types of queue/: the outbox whose
-- rows workers claim, publish and mark.
pub mod Broker
pub mod Claims
pub mod Consumer
pub mod Steps
pub mod Kept
pub mod Invariant
pub mod Delivered
pub mod Turns
pub mod Applied
mod Tests
use systems_engineering_lab.Prelude.{ℕ, Option}

pub data OutboxStatus : Type 0 where
  pending : OutboxStatus
  processing : OutboxStatus
  published : OutboxStatus
  failed : OutboxStatus

-- A row of `outbox_events`. The texts and the payload are numbers, which are only compared.
pub record OutboxRow : Type 0 where
  pub public_id : ℕ
  pub event_type : ℕ
  pub payload : ℕ
  pub status : OutboxStatus
  pub locked_by : Option ℕ
  pub locked_until : Option ℕ
  pub attempts : ℕ
  pub max_attempts : ℕ
  pub published_at : Option ℕ
  pub created_at : ℕ

-- What a claim returns.
pub record ClaimedEvent : Type 0 where
  pub id : ℕ
  pub public_id : ℕ
  pub event_type : ℕ
  pub payload : ℕ
  pub attempts : ℕ
  pub max_attempts : ℕ
  pub locked_until : ℕ

pub record BrokerEvent : Type 0 where
  pub public_id : ℕ
  pub event_type : ℕ
  pub payload : ℕ
