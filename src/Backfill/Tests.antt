-- ===== src/Backfill/Tests.antt =====
-- Runs of the backfill on a small table.
use systems_engineering_lab.Prelude.{ℕ, ◌≡◌, refl, Option, none, some, List, [], ◌∷◌, arith}
use systems_engineering_lab.Backfill.{
  OrderRow, batch, giant_update, BackfillOptions, returned, crashed, backfill_from,
  backfill_loyalty_points,
}
use systems_engineering_lab.Backfill.Resumed.{after_runs, Returned, backfill_loyalty_points_resumes}

abbrev order : ℕ → ℕ → Option ℕ → OrderRow
order i cents points = record { id = i; amount_cents = cents; loyalty_points = points }

abbrev rows : List OrderRow
rows = order 1 250 none ∷ order 2 1999 (some 19) ∷ order 3 99 none ∷ order 4 700 none ∷ []

abbrev limited : BackfillOptions
limited = record { batch_size = 2; max_batches = some 1 }

abbrev unlimited : BackfillOptions
unlimited = record { batch_size = 2; max_batches = none }

limited_run : backfill_loyalty_points 4 limited rows ≡ (
  crashed 1,
  order 1 250 (some 2) ∷ order 2 1999 (some 19) ∷ order 3 99 (some 0) ∷ order 4 700 none ∷ [],
)
unfolding backfill_loyalty_points backfill_from batch
limited_run = refl

unlimited_run :
    backfill_loyalty_points 4 unlimited rows
    ≡ (returned (record { batches = 2; rows_backfilled = 3 }), giant_update rows)
unfolding backfill_loyalty_points backfill_from batch giant_update
unlimited_run = refl

backfill_loyalty_points_resumes_example :
    Returned
      (giant_update rows)
      (backfill_loyalty_points 4 unlimited (after_runs 4 (limited ∷ []) rows))
backfill_loyalty_points_resumes_example =
    backfill_loyalty_points_resumes 4 (limited ∷ []) unlimited rows (omega arith, tt) (omega arith)
      refl (omega arith)
