-- ===== src/Intents/Drain.antt =====
-- labs/16-transactional-outbox/src/scripts/drain-outbox.ts
use systems_engineering_lab.Prelude.{
  ℕ, ◌+◌, Bool, true, false, not, ◌&&◌, Option, none, some, List, [], ◌∷◌, ltb, take, length,
  if◌then◌else◌,
}
use systems_engineering_lab.Prelude.Table.{Table, modify}
use systems_engineering_lab.Intents.{OutboxEvent, Db, BrokerEvent}

abbrev pub is_unpublished : Option ℕ → Bool
is_unpublished none = true
is_unpublished (some at) = false

-- ORDER BY created_at. Rows of one time come in the order of the table, one of those that the query
-- allows.
abbrev pub by_created_at : ℕ × OutboxEvent → Table OutboxEvent → Table OutboxEvent
by_created_at (i, e) [] = (i, e) ∷ []
by_created_at (i, e) ((j, d) ∷ rows) =
    if ltb d.created_at e.created_at
    then (j, d) ∷ by_created_at (i, e) rows
    else (i, e) ∷ (j, d) ∷ rows

-- WHERE published_at IS NULL ORDER BY created_at
unfoldable pub unpublished_rows : Table OutboxEvent → Table OutboxEvent
unpublished_rows [] = []
unpublished_rows ((i, e) ∷ rows) =
    let rest = unpublished_rows rows in
    if is_unpublished e.published_at then by_created_at (i, e) rest else rest

abbrev pub to_publish : OutboxEvent → BrokerEvent
to_publish e = record { kind = e.event_type; subject = e.aggregate_id; body = e.payload }

abbrev pub mark_at : ℕ → OutboxEvent → OutboxEvent
mark_at now e = record e { published_at = some now }

pub record DrainOutboxResult : Type 0 where
  pub attempted : ℕ
  pub published_ids : List ℕ
  pub failed_ids : List ℕ

-- What the drain meets at each row: `publish` that the caller may give, and the update.
pub record Outcomes : Type 0 where
  pub publish_throws : ℕ → BrokerEvent → Bool
  pub update_throws : ℕ → Bool
  pub update_at : ℕ → ℕ

pub record Drained : Type 0 where
  pub published : List ℕ
  pub failed : List ℕ
  pub rows : Table OutboxEvent

-- The loop over the rows that were selected; `n` counts them.
unfoldable pub drain_rows : Outcomes → ℕ → Table OutboxEvent → Table OutboxEvent → Drained
drain_rows o n [] t = record { published = []; failed = []; rows = t }
drain_rows o n ((i, e) ∷ selected) t =
    let done = not (o.publish_throws n (to_publish e)) && not (o.update_throws n) in
    let rest =
      drain_rows o (n + 1) selected (if done then modify i (mark_at (o.update_at n)) t else t) in
    if done
    then record rest { published = i ∷ rest.published }
    else record rest { failed = i ∷ rest.failed }

abbrev pub default_limit : ℕ
default_limit = 100

unfoldable pub drain_outbox : Outcomes → ℕ → Db → DrainOutboxResult × Db
unfolding unpublished_rows drain_rows
drain_outbox o limit db =
    let selected = take limit (unpublished_rows db.outbox_events) in
    let d = drain_rows o 0 selected db.outbox_events in
    (
      record { attempted = length selected; published_ids = d.published; failed_ids = d.failed },
      record db { outbox_events = d.rows },
    )
