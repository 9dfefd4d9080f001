-- ===== src/Backfill/Batches.antt =====
-- A run of backfillLoyaltyPoints against the one UPDATE of naive-giant-update.ts.
use systems_engineering_lab.Prelude.{
  ℕ, zero, suc, ◌+◌, ◌≤◌, ◌<◌, ◌≡◌, refl, true, List, [], ◌∷◌, arith, count_by, Bool-cases, inl,
  inr, ap, sym, ◌∙◌,
}
use systems_engineering_lab.Backfill.{
  OrderRow, is_null, filled, batch, giant_update, BackfillOptions, BackfillResult, Ended, returned,
  crashed, out_of_rounds, reaches, after_batch, backfill_from, backfill_loyalty_points,
}

-- The rows without points.
abbrev pub nulls : List OrderRow → ℕ
nulls rows = count_by (λ o. is_null o.loyalty_points) rows

pub batch-nulls :
    (n : ℕ) (rows : List OrderRow) → (batch n rows).0 + nulls (batch n rows).1 ≡ nulls rows
unfolding batch
batch-nulls zero rows = omega arith
batch-nulls (suc n) [] = refl
batch-nulls (suc n) (o ∷ rows) = elim (Bool-cases (is_null o.loyalty_points)) [
  | inl e ↦ rw e (omega (arith, batch-nulls n rows))
  | inr e ↦ rw e (let h = batch-nulls (suc n) rows in rw e (omega (arith, h)))
]

pub giant_update-batch :
    (n : ℕ) (rows : List OrderRow) → giant_update (batch n rows).1 ≡ giant_update rows
unfolding batch giant_update
giant_update-batch zero rows = refl
giant_update-batch (suc n) [] = refl
giant_update-batch (suc n) (o ∷ rows) = elim (Bool-cases (is_null o.loyalty_points)) [
  | inl e ↦ rw e (ap (λ l. filled o ∷ l) (giant_update-batch n rows))
  | inr e ↦ rw e (let h = giant_update-batch (suc n) rows in rw e (ap (λ l. o ∷ l) h))
]

batch-progress : (n : ℕ) (rows : List OrderRow) → 0 < n → (batch n rows).0 ≡ 0 → nulls rows ≡ 0
unfolding batch
batch-progress zero rows h e = absurd (omega arith)
batch-progress (suc n) [] h e = refl
batch-progress (suc n) (o ∷ rows) h e = ground (arith, e, batch-progress (suc n) rows)

pub giant_update_idle : (rows : List OrderRow) → nulls rows ≡ 0 → giant_update rows ≡ rows
unfolding giant_update
giant_update_idle [] h = refl
giant_update_idle (o ∷ rows) h = ground (arith, h, giant_update_idle rows)

-- What a run from `rows` on, that has filled `r.rows_backfilled` rows before, ends with: it returns
-- and each row is as the one UPDATE leaves it, or it crashes and has left no row otherwise than the
-- one UPDATE and fewer rows without points, by one for each batch at least.
abbrev pub Ends : BackfillOptions → BackfillResult → List OrderRow → Ended × List OrderRow → Type 0
Ends options r rows (returned s, rows') =
    (s.rows_backfilled ≡ r.rows_backfilled + nulls rows) × (rows' ≡ giant_update rows)
Ends options r rows (crashed k, rows') =
    (reaches k options.max_batches ≡ true)
    × (giant_update rows' ≡ giant_update rows)
    × (nulls rows' + k ≤ nulls rows + r.batches)
Ends options r rows (out_of_rounds, rows') = ⊥

abbrev pub next_result : BackfillResult → ℕ → BackfillResult
next_result r n = record { batches = r.batches + 1; rows_backfilled = r.rows_backfilled + n }

Ends-back :
    (options : BackfillOptions) (r : BackfillResult) (n : ℕ) (rows rows' : List OrderRow)
    → suc n + nulls rows' ≡ nulls rows
    → giant_update rows' ≡ giant_update rows
    → (end : Ended × List OrderRow) → Ends options (next_result r (suc n)) rows' end
    → Ends options r rows end
Ends-back options r n rows rows' e g (returned s, l) h = (omega (arith, e, h.0), h.1 ∙ g)
Ends-back options r n rows rows' e g (crashed k, l) h = (h.0, h.1 ∙ g, omega (arith, e, h.2))
Ends-back options r n rows rows' e g (out_of_rounds, l) h = h

abbrev Loop : Type 0
Loop = BackfillResult → List OrderRow → Ended × List OrderRow

module _ (options : BackfillOptions) (rest : Loop) (r : BackfillResult) (rows : List OrderRow) where
  after_batch-Ends :
      (b : ℕ × List OrderRow)
      → (b.0 ≡ 0 → nulls rows ≡ 0)
      → b.0 + nulls b.1 ≡ nulls rows
      → giant_update b.1 ≡ giant_update rows
      → ((r' : BackfillResult) → nulls b.1 < nulls rows → Ends options r' b.1 (rest r' b.1))
      → Ends options r rows (after_batch options rest r b)
  after_batch-Ends (zero, l) p e g h =
      (omega (arith, p refl), sym (giant_update_idle l (omega (arith, e, p refl))) ∙ g)
  after_batch-Ends (suc n, l) p e g h =
      elim (Bool-cases (reaches (r.batches + 1) options.max_batches)) [
        | inl t ↦ rw t (t, g, omega (arith, e))
        | inr t ↦ rw t (
            Ends-back options r n rows l e g (rest (next_result r (suc n)) l)
              (h (next_result r (suc n)) (omega (arith, e))))
      ]

pub backfill_from-Ends :
    (left : ℕ) (options : BackfillOptions) (r : BackfillResult) (rows : List OrderRow)
    → 0 < options.batch_size
    → nulls rows < left
    → Ends options r rows (backfill_from left options r rows)
unfolding backfill_from
backfill_from-Ends zero options r rows pos h = absurd (omega arith)
backfill_from-Ends (suc left) options r rows pos h =
    after_batch-Ends options (backfill_from left options) r rows (batch options.batch_size rows)
      (batch-progress options.batch_size rows pos) (batch-nulls options.batch_size rows)
      (giant_update-batch options.batch_size rows)
      (λ r' fewer. backfill_from-Ends left options r' _ pos (omega arith))

-- A run that starts with batches of at least one row and more rounds than there are rows without
-- points ends. If it returns, its count is of all those rows and the table is as the one UPDATE
-- leaves it. If it throws, it has made as many batches as the option allows, the one UPDATE of what
-- it leaves is still that of the table before, and each batch has filled at least one row.
pub backfill_loyalty_points-Ends :
    (rounds : ℕ) (options : BackfillOptions) (rows : List OrderRow)
    → 0 < options.batch_size
    → nulls rows < rounds
    → Ends options
        (record { batches = 0; rows_backfilled = 0 })
        rows
        (backfill_loyalty_points rounds options rows)
unfolding backfill_loyalty_points
backfill_loyalty_points-Ends rounds options rows pos h =
    backfill_from-Ends rounds options (record { batches = 0; rows_backfilled = 0 }) rows pos h
