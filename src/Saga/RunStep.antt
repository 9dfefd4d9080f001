-- ===== src/Saga/RunStep.antt =====
-- domain/run-step.ts: one step of a saga, in one transaction, with its row of the log.
use systems_engineering_lab.Prelude.{ℕ, Bool, true, false, Option, some}
use systems_engineering_lab.Saga.Db.{
  Mechanism, Direction, LogName, success, failure, LogOutcome, SagaLogInput, Db, Error,
  saga_step_error, Result, ok, throws, Action, Work, insert_saga_log, pure, ◌>>=◌, ◌>>◌,
}

pub data StepOutcome {ℓ} (A : Type ℓ) : Type ℓ where
  succeeded : A → StepOutcome A
  failed : Error → StepOutcome A

pub record RunStepParams : Type 0 where
  pub order_id : ℕ
  pub mechanism : Mechanism
  pub step_name : LogName
  pub direction : Direction
  pub simulate_failure : Bool

abbrev pub log_row : Option ℕ → Mechanism → LogName → Direction → LogOutcome → SagaLogInput
log_row order_id mechanism step_name direction outcome = record {
  order_id = order_id;
  mechanism = mechanism;
  step_name = step_name;
  direction = direction;
  outcome = outcome;
}

-- ROLLBACK of a transaction that began at `before` and threw at `now`.
abbrev pub roll_back : Db → Db → Db
roll_back before now = record before {
  tables = record (before.tables) { sequences = now.tables.sequences };
}

abbrev pub throw_if : Bool → Error → Action (Unit {0})
throw_if true e db = (throws e, db)
throw_if false e db = (ok tt, db)

abbrev pub run_work {ℓ} : {A : Type ℓ} → Work A → Action A
run_work work db = let (r, t) = work db.tables in (r, record db { tables = t })

module _ {ℓ} {A : Type ℓ} where
  -- The `try` block of `runStep`.
  step_body : RunStepParams → Work A → Action A
  unfolding insert_saga_log
  step_body p work = do
    throw_if p.simulate_failure (saga_step_error p.step_name)
    result ← run_work work
    insert_saga_log (log_row (some p.order_id) p.mechanism p.step_name p.direction success)
    pure result

  -- Its `catch` block.
  step_ended : RunStepParams → Db → Result A × Db → Result (StepOutcome A) × Db
  unfolding insert_saga_log
  step_ended p before (ok result, db) = (ok (succeeded result), db)
  step_ended p before (throws reason, db) =
      (insert_saga_log (log_row (some p.order_id) p.mechanism p.step_name p.direction failure)
          >> pure (failed reason))
        (roll_back before db)

  unfoldable pub run_step : RunStepParams → Work A → Action (StepOutcome A)
  unfolding step_body step_ended
  run_step p work db = step_ended p db (step_body p work db)
