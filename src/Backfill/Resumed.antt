-- ===== src/Backfill/Resumed.antt =====
-- Runs that crash, and the run after them that goes on with what is left:
-- labs/30-large-table-backfills/src/scenarios/batched-resumable-backfill.ts.
use systems_engineering_lab.Prelude.{
  ℕ, ◌≤◌, ◌<◌, ◌≡◌, refl, true, false, none, List, [], ◌∷◌, arith, ap, sym, ◌∙◌,
}
use systems_engineering_lab.Backfill.{
  OrderRow, giant_update, BackfillOptions, BackfillResult, Ended, returned, crashed, out_of_rounds,
  reaches, backfill_loyalty_points,
}
use systems_engineering_lab.Backfill.Batches.{
  nulls, Ends, giant_update_idle, backfill_loyalty_points-Ends,
}

-- The table that runs leave, one after the other.
abbrev pub after_runs : ℕ → List BackfillOptions → List OrderRow → List OrderRow
after_runs rounds [] rows = rows
after_runs rounds (o ∷ os) rows = after_runs rounds os (backfill_loyalty_points rounds o rows).1

abbrev pub AllPositive : List BackfillOptions → Type 0
AllPositive [] = Unit
AllPositive (o ∷ os) = (0 < o.batch_size) × AllPositive os

-- The run has returned, with the table as given.
abbrev pub Returned : List OrderRow → Ended × List OrderRow → Type 0
Returned goal (returned r, rows) = rows ≡ goal
Returned goal (crashed k, rows) = ⊥
Returned goal (out_of_rounds, rows) = ⊥

abbrev pub initial : BackfillResult
initial = record { batches = 0; rows_backfilled = 0 }

giant_update-nulls : (rows : List OrderRow) → nulls (giant_update rows) ≡ 0
unfolding giant_update
giant_update-nulls [] = refl
giant_update-nulls (o ∷ rows) = ground (arith, giant_update-nulls rows)

giant_update_twice : (rows : List OrderRow) → giant_update (giant_update rows) ≡ giant_update rows
giant_update_twice rows = giant_update_idle (giant_update rows) (giant_update-nulls rows)

Ends-table :
    (o : BackfillOptions) (rows : List OrderRow) (end : Ended × List OrderRow)
    → Ends o initial rows end
    → (giant_update end.1 ≡ giant_update rows) × (nulls end.1 ≤ nulls rows)
Ends-table o rows (returned r, l) h = (
  ap giant_update h.1 ∙ giant_update_twice rows,
  let e : nulls l ≡ 0 = ap nulls h.1 ∙ giant_update-nulls rows in omega (arith, e),
)
Ends-table o rows (crashed k, l) h = (h.1, omega (arith, h.2))
Ends-table o rows (out_of_rounds, l) h = absurd h

after_runs-table :
    (rounds : ℕ) (os : List BackfillOptions) (rows : List OrderRow)
    → AllPositive os
    → nulls rows < rounds
    → (giant_update (after_runs rounds os rows) ≡ giant_update rows)
      × (nulls (after_runs rounds os rows) ≤ nulls rows)
after_runs-table rounds [] rows p h = (refl, omega arith)
after_runs-table rounds (o ∷ os) rows p h =
    let first =
      Ends-table o rows (backfill_loyalty_points rounds o rows)
        (backfill_loyalty_points-Ends rounds o rows p.0 h) in
    let more =
      after_runs-table rounds os (backfill_loyalty_points rounds o rows).1 p.1
        (omega (arith, first.1, h)) in
    (more.0 ∙ first.0, omega (arith, first.1, more.1))

Ends-Returned :
    (o : BackfillOptions) (rows goal : List OrderRow) (end : Ended × List OrderRow)
    → o.max_batches ≡ none
    → giant_update rows ≡ goal
    → Ends o initial rows end
    → Returned goal end
Ends-Returned o rows goal (returned r, l) e g h = h.1 ∙ g
Ends-Returned o rows goal (crashed k, l) e g h =
    let no : false ≡ true = ap (reaches k) (sym e) ∙ h.0 in ground (arith, no)
Ends-Returned o rows goal (out_of_rounds, l) e g h = h

-- After any number of runs, each of which may have crashed after some batches, a run with no limit
-- on its batches returns, and the table is as the one UPDATE of the first table would have left it;
-- all runs with batches of at least one row and more rounds than the first table has rows without
-- points.
pub backfill_loyalty_points_resumes :
    (rounds : ℕ) (os : List BackfillOptions) (options : BackfillOptions) (rows : List OrderRow)
    → AllPositive os
    → 0 < options.batch_size
    → options.max_batches ≡ none
    → nulls rows < rounds
    → Returned
        (giant_update rows)
        (backfill_loyalty_points rounds options (after_runs rounds os rows))
backfill_loyalty_points_resumes rounds os options rows p pos e h =
    let before = after_runs-table rounds os rows p h in
    Ends-Returned options (after_runs rounds os rows) (giant_update rows)
      (backfill_loyalty_points rounds options (after_runs rounds os rows)) e before.0
      (backfill_loyalty_points-Ends rounds options (after_runs rounds os rows) pos
        (omega (arith, before.1, h)))
