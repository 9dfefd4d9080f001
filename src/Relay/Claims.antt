-- ===== src/Relay/Claims.antt =====
-- labs/17-outbox-workers-skip-locked/src/queue/claim-and-publish.ts: the claim, the two ways to
-- finish it, and one turn of a publisher.
use systems_engineering_lab.Prelude.{
  ℕ, ◌+◌, Bool, true, false, not, ◌&&◌, ◌||◌, Option, none, some, [], ◌∷◌, ◌==◌, ltb, leb,
  if◌then◌else◌,
}
use systems_engineering_lab.Prelude.Table.{Table, modify}
use systems_engineering_lab.Relay.{OutboxStatus, OutboxRow, ClaimedEvent, BrokerEvent}
use systems_engineering_lab.Relay.Broker.{
  BrokerMode, SimulatedBroker, Answer, accepted, refused, publish,
}

abbrev pub default_lease_ms : ℕ
default_lease_ms = 5000

-- locked_until < now()
abbrev lease_over : ℕ → Option ℕ → Bool
lease_over now none = false
lease_over now (some until) = ltb until now

-- status = 'pending' OR (status = 'processing' AND locked_until < now())
abbrev pub open_for_claim : ℕ → OutboxStatus → Option ℕ → Bool
open_for_claim now OutboxStatus.pending until = true
open_for_claim now OutboxStatus.processing until = lease_over now until
open_for_claim now OutboxStatus.published until = false
open_for_claim now OutboxStatus.failed until = false

-- ORDER BY created_at, id
abbrev pub sorts_before : ℕ × OutboxRow → ℕ × OutboxRow → Bool
sorts_before (i, d) (j, e) =
    ltb d.created_at e.created_at || ((d.created_at == e.created_at) && ltb i j)

abbrev pub older_of : ℕ × OutboxRow → Option (ℕ × OutboxRow) → ℕ × OutboxRow
older_of c none = c
older_of c (some d) = if sorts_before d c then d else c

-- `locked` are the rows that the query skips, since other transactions hold them.
unfoldable pub oldest_open : ℕ → (ℕ → Bool) → Table OutboxRow → Option (ℕ × OutboxRow)
oldest_open now locked [] = none
oldest_open now locked ((id, r) ∷ rows) =
    let rest = oldest_open now locked rows in
    if open_for_claim now r.status r.locked_until && not (locked id)
    then some (older_of (id, r) rest)
    else rest

abbrev pub claimed_row : ℕ → ℕ → ℕ → OutboxRow → OutboxRow
claimed_row now worker lease_ms r = record r {
  status = OutboxStatus.processing;
  locked_by = some worker;
  locked_until = some (now + lease_ms);
  attempts = r.attempts + 1;
}

abbrev pub claimed_event : ℕ → ℕ → ℕ → OutboxRow → ClaimedEvent
claimed_event now lease_ms id r = record {
  id = id;
  public_id = r.public_id;
  event_type = r.event_type;
  payload = r.payload;
  attempts = r.attempts + 1;
  max_attempts = r.max_attempts;
  locked_until = now + lease_ms;
}

abbrev pub claim_candidate :
    ℕ → ℕ → ℕ → Table OutboxRow → Option (ℕ × OutboxRow) → Option ClaimedEvent × Table OutboxRow
claim_candidate now worker lease_ms t none = (none, t)
claim_candidate now worker lease_ms t (some (id, r)) =
    (some (claimed_event now lease_ms id r), modify id (claimed_row now worker lease_ms) t)

unfoldable pub claim_next_event :
    ℕ → (ℕ → Bool) → ℕ → ℕ → Table OutboxRow → Option ClaimedEvent × Table OutboxRow
unfolding oldest_open
claim_next_event now locked worker lease_ms t =
    claim_candidate now worker lease_ms t (oldest_open now locked t)

-- locked_by = worker
abbrev pub held_by : ℕ → OutboxRow → Bool
held_by worker r = holds r.locked_by
  where
    holds : Option ℕ → Bool
    holds none = false
    holds (some w) = w == worker

abbrev pub published_row : ℕ → ℕ → OutboxRow → OutboxRow
published_row now worker r =
    if held_by worker r
    then record r {
      status = OutboxStatus.published;
      published_at = some now;
      locked_by = none;
      locked_until = none;
    }
    else r

unfoldable pub mark_published : ℕ → ℕ → ℕ → Table OutboxRow → Table OutboxRow
mark_published now id worker t = modify id (published_row now worker) t

abbrev pub failed_row : ℕ → OutboxRow → OutboxRow
failed_row worker r =
    if held_by worker r
    then record r {
      status =
          (if leb r.max_attempts r.attempts then OutboxStatus.failed else OutboxStatus.pending);
      locked_by = none;
      locked_until = none;
    }
    else r

unfoldable pub mark_publish_failed : ℕ → ℕ → Table OutboxRow → Table OutboxRow
mark_publish_failed id worker t = modify id (failed_row worker) t

abbrev pub to_broker : ClaimedEvent → BrokerEvent
to_broker e = record { public_id = e.public_id; event_type = e.event_type; payload = e.payload }

pub data ClaimAndPublishResult : Type 0 where
  not_claimed : ClaimAndPublishResult
  was_published : ClaimedEvent → ClaimAndPublishResult
  not_published : ClaimedEvent → ClaimAndPublishResult

-- What one turn meets: the rows that others lock, the times of its statements, the broker's mode,
-- and whether the statement that marks the row as published throws.
pub record Turn : Type 0 where
  pub locked : ℕ → Bool
  pub claimed_at : ℕ
  pub finished_at : ℕ
  pub lease_ms : ℕ
  pub mode : Option BrokerMode
  pub skip_finalize : Bool
  pub mark_throws : Bool

abbrev pub after_publish :
    Turn
    → ℕ
    → ClaimedEvent
    → Table OutboxRow
    → Answer × SimulatedBroker
    → ClaimAndPublishResult × Table OutboxRow × SimulatedBroker
unfolding mark_published mark_publish_failed
after_publish turn worker e t (accepted, b) =
    if turn.skip_finalize
    then (was_published e, t, b)
    else if turn.mark_throws
    then (not_published e, mark_publish_failed e.id worker t, b)
    else (was_published e, mark_published turn.finished_at e.id worker t, b)
after_publish turn worker e t (refused, b) = (not_published e, mark_publish_failed e.id worker t, b)

abbrev pub after_claim :
    Turn
    → ℕ
    → SimulatedBroker
    → Option ClaimedEvent × Table OutboxRow
    → ClaimAndPublishResult × Table OutboxRow × SimulatedBroker
unfolding publish
after_claim turn worker b (none, t) = (not_claimed, t, b)
after_claim turn worker b (some e, t) =
    after_publish turn worker e t (publish turn.mode (to_broker e) b)

unfoldable pub claim_and_publish :
    Turn
    → ℕ
    → Table OutboxRow
    → SimulatedBroker
    → ClaimAndPublishResult × Table OutboxRow × SimulatedBroker
unfolding claim_next_event
claim_and_publish turn worker t b =
    after_claim turn worker b (claim_next_event turn.claimed_at turn.locked worker turn.lease_ms t)
