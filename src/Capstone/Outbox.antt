-- ===== src/Capstone/Outbox.antt =====
-- labs/40-production-capstone/src/outbox/claim.ts: the claims of the publishers.
use systems_engineering_lab.Prelude.{
  ℕ, ◌+◌, Bool, true, false, not, ◌&&◌, ◌||◌, Option, none, some, [], ◌∷◌, ◌==◌, ltb, leb,
  if◌then◌else◌, count_by,
}
use systems_engineering_lab.Prelude.Table.{Table, modify}
use systems_engineering_lab.Capstone.{EventStatus, OutboxEvent, Db, equals}

abbrev pub is_processing : EventStatus → Bool
is_processing EventStatus.pending = false
is_processing EventStatus.processing = true
is_processing EventStatus.published = false
is_processing EventStatus.failed = false

abbrev pub is_pending : EventStatus → Bool
is_pending EventStatus.pending = true
is_pending EventStatus.processing = false
is_pending EventStatus.published = false
is_pending EventStatus.failed = false

-- locked_until < now()
abbrev pub lapsed : ℕ → Option ℕ → Bool
lapsed now none = false
lapsed now (some until) = ltb until now

abbrev pub is_claimable : ℕ → OutboxEvent → Bool
is_claimable now e = is_pending e.status || (is_processing e.status && lapsed now e.locked_until)

-- ORDER BY created_at, id
abbrev pub precedes : ℕ × OutboxEvent → ℕ × OutboxEvent → Bool
precedes (i, d) (j, e) =
    ltb d.created_at e.created_at || ((d.created_at == e.created_at) && ltb i j)

abbrev pub earlier : ℕ × OutboxEvent → Option (ℕ × OutboxEvent) → ℕ × OutboxEvent
earlier c none = c
earlier c (some d) = if precedes d c then d else c

-- The claim query. `locked` are the rows that it skips, since other transactions hold them.
unfoldable pub candidate : ℕ → (ℕ → Bool) → Table OutboxEvent → Option (ℕ × OutboxEvent)
candidate now locked [] = none
candidate now locked ((id, e) ∷ rows) =
    let rest = candidate now locked rows in
    if is_claimable now e && not (locked id) then some (earlier (id, e) rest) else rest

abbrev pub taken : ℕ → ℕ → ℕ → OutboxEvent → OutboxEvent
taken now worker_id lease_ms e = record e {
  status = EventStatus.processing;
  locked_by = some worker_id;
  locked_until = some (now + lease_ms);
  attempts = e.attempts + 1;
}

abbrev pub claim_row : ℕ → ℕ → ℕ → Db → Option (ℕ × OutboxEvent) → Option (ℕ × OutboxEvent) × Db
claim_row now worker_id lease_ms db none = (none, db)
claim_row now worker_id lease_ms db (some (id, e)) = (
  some (id, taken now worker_id lease_ms e),
  record db { outbox_events = modify id (taken now worker_id lease_ms) db.outbox_events },
)

unfoldable pub claim_next_event : ℕ → (ℕ → Bool) → ℕ → ℕ → Db → Option (ℕ × OutboxEvent) × Db
unfolding candidate
claim_next_event now locked worker_id lease_ms db =
    claim_row now worker_id lease_ms db (candidate now locked db.outbox_events)

abbrev pub row_published : ℕ → OutboxEvent → OutboxEvent
row_published worker_id e =
    if equals worker_id e.locked_by
    then record e { status = EventStatus.published; locked_by = none; locked_until = none }
    else e

unfoldable pub mark_published : ℕ → ℕ → Db → Db
mark_published id worker_id db = record db {
  outbox_events = modify id (row_published worker_id) db.outbox_events;
}

abbrev pub row_failed : ℕ → OutboxEvent → OutboxEvent
row_failed worker_id e =
    if equals worker_id e.locked_by
    then record e {
      status = (if leb e.max_attempts e.attempts then EventStatus.failed else EventStatus.pending);
      locked_by = none;
      locked_until = none;
    }
    else e

unfoldable pub mark_publish_failed : ℕ → ℕ → Db → Db
mark_publish_failed id worker_id db = record db {
  outbox_events = modify id (row_failed worker_id) db.outbox_events;
}

abbrev is_unfinished : ℕ × OutboxEvent → Bool
is_unfinished (id, e) = is_pending e.status || is_processing e.status

unfoldable pub pending_outbox_count : Db → ℕ
pending_outbox_count db = count_by is_unfinished db.outbox_events
