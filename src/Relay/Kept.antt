-- ===== src/Relay/Kept.antt =====
-- What the statements of a publisher leave of the table `outbox_events`: every row's event, and the
-- rows that are published.
use systems_engineering_lab.Prelude.{ℕ, ◌≡◌, refl, Bool, Option, none, some, [], ◌∷◌, arith}
use systems_engineering_lab.Prelude.Table.{Table, lookup, modify, Distinct, map_some}
use systems_engineering_lab.Relay.{OutboxStatus, OutboxRow}
use systems_engineering_lab.Relay.Claims.{oldest_open, claimed_row, published_row, failed_row}

-- Row `id` is there and is of this event.
abbrev pub Tells : ℕ → Option OutboxRow → Type 0
Tells public_id none = ⊥
Tells public_id (some r) = r.public_id ≡ public_id

-- The event of the row, if it has been published.
abbrev pub published_id : Option OutboxRow → Option ℕ
published_id none = none
published_id (some r) = of_status r.status r.public_id
  where
    of_status : OutboxStatus → ℕ → Option ℕ
    of_status OutboxStatus.pending p = none
    of_status OutboxStatus.processing p = none
    of_status OutboxStatus.published p = some p
    of_status OutboxStatus.failed p = none

pub modify-Tells :
    (k j p : ℕ) (f : OutboxRow → OutboxRow) (t : Table OutboxRow)
    → ((r : OutboxRow) → (f r).public_id ≡ r.public_id)
    → Tells p (lookup j t)
    → Tells p (lookup j (modify k f t))
modify-Tells k j p f [] h b = b
modify-Tells k j p f ((i, r) ∷ t) h b = ground (arith, h r, modify-Tells k j p f t h)

module _ (now : ℕ) (locked : ℕ → Bool) where
  pub oldest_open-lookup :
      (t : Table OutboxRow) (id : ℕ) (r : OutboxRow)
      → Distinct t
      → oldest_open now locked t ≡ some (id, r)
      → lookup id t ≡ some r
  unfolding oldest_open
  oldest_open-lookup [] id r d h = cc
  oldest_open-lookup ((j, q) ∷ t) id r d h = ground (arith, oldest_open-lookup t id r d.1)

pub claimed_row-unpublished :
    (now w lease_ms : ℕ) (o : Option OutboxRow)
    → published_id (map_some (claimed_row now w lease_ms) o) ≡ none
claimed_row-unpublished now w lease_ms none = refl
claimed_row-unpublished now w lease_ms (some r) = refl

pub published_row-event :
    (now w : ℕ) (r : OutboxRow) → (published_row now w r).public_id ≡ r.public_id
published_row-event now w r = ground arith

pub failed_row-event : (w : ℕ) (r : OutboxRow) → (failed_row w r).public_id ≡ r.public_id
failed_row-event w r = ground arith

-- A mark as failed publishes nothing.
pub failed_row-published :
    (w p : ℕ) (r : OutboxRow)
    → published_id (some (failed_row w r)) ≡ some p
    → published_id (some r) ≡ some p
failed_row-published w p r h = ground (arith, h)
