-- ===== src/Backfill.antt =====
-- The backfill in batches: labs/30-large-table-backfills/src/scenarios/batched-resumable-backfill.ts,
-- with the one UPDATE of naive-giant-update.ts. The table `orders` is its rows in the order of their
-- ids; nothing else writes to it during the backfill.
pub mod Batches
pub mod Resumed
mod Tests
use systems_engineering_lab.Prelude.{
  ℕ, zero, suc, ◌+◌, ◌/◌, Bool, true, false, not, Option, none, some, List, [], ◌∷◌, leb, ◌==◌,
  if◌then◌else◌,
}

pub record OrderRow : Type 0 where
  pub id : ℕ
  pub amount_cents : ℕ
  pub loyalty_points : Option ℕ

abbrev pub is_null : Option ℕ → Bool
is_null none = true
is_null (some p) = false

-- SET loyalty_points = floor(amount_cents / 100.0)
abbrev pub filled : OrderRow → OrderRow
filled o = record o { loyalty_points = some (o.amount_cents / 100) }

-- The UPDATE of a batch: of the rows without points the first `n`. With it the number of rows.
unfoldable pub batch : ℕ → List OrderRow → ℕ × List OrderRow
batch zero rows = (0, rows)
batch (suc n) [] = (0, [])
batch (suc n) (o ∷ rows) =
    let later = batch (suc n) rows in
    let next = batch n rows in
    if is_null o.loyalty_points then (next.0 + 1, filled o ∷ next.1) else (later.0, o ∷ later.1)

-- The one UPDATE over all rows without points.
unfoldable pub giant_update : List OrderRow → List OrderRow
giant_update [] = []
giant_update (o ∷ rows) = (if is_null o.loyalty_points then filled o else o) ∷ giant_update rows

pub record BackfillOptions : Type 0 where
  pub batch_size : ℕ
  pub max_batches : Option ℕ

pub record BackfillResult : Type 0 where
  pub batches : ℕ
  pub rows_backfilled : ℕ

-- How a run ends: it returns, or it throws when it has made `maxBatches` batches. A run on fuel may
-- also use up its rounds.
pub data Ended : Type 0 where
  returned : BackfillResult → Ended
  crashed : ℕ → Ended
  out_of_rounds : Ended

abbrev pub reaches : ℕ → Option ℕ → Bool
reaches batches none = false
reaches batches (some m) = leb m batches

-- The loop's body after its UPDATE.
abbrev pub after_batch :
    BackfillOptions
    → (BackfillResult → List OrderRow → Ended × List OrderRow)
    → BackfillResult
    → ℕ × List OrderRow
    → Ended × List OrderRow
after_batch options rest r (zero, rows) = (returned r, rows)
after_batch options rest r (suc n, rows) =
    let r' : BackfillResult = record {
      batches = r.batches + 1;
      rows_backfilled = r.rows_backfilled + suc n;
    } in
    if reaches r'.batches options.max_batches then (crashed r'.batches, rows) else rest r' rows

unfoldable pub backfill_from :
    ℕ → BackfillOptions → BackfillResult → List OrderRow → Ended × List OrderRow
unfolding batch
backfill_from zero options r rows = (out_of_rounds, rows)
backfill_from (suc left) options r rows =
    after_batch options (backfill_from left options) r (batch options.batch_size rows)

-- `backfillLoyaltyPoints`, in so many rounds.
unfoldable pub backfill_loyalty_points : ℕ → BackfillOptions → List OrderRow → Ended × List OrderRow
unfolding backfill_from
backfill_loyalty_points rounds options rows =
    backfill_from rounds options (record { batches = 0; rows_backfilled = 0 }) rows
