-- ===== src/Inbox.antt =====
-- Credits that arrive more than once: labs/18-inbox-pattern-and-idempotent-consumers/src/scenarios,
-- the consumers of idempotent-consumer.ts, racy-check-then-insert-consumer.ts and naive-consumer.ts.
-- An account's number and a message's are numbers; a balance is in cents.
pub mod Credits
pub mod Races
mod Tests
use systems_engineering_lab.Prelude.{
  ℕ, ◌+◌, Bool, true, false, Option, none, some, List, [], ◌∷◌, ltb, ◌&&◌, if◌then◌else◌,
}
use systems_engineering_lab.Prelude.Table.{Table, lookup, modify, has}
use systems_engineering_lab.Prelude.Unique.{contains, insert_new}

pub record CreditAppliedMessage : Type 0 where
  pub message_id : ℕ
  pub account_id : ℕ
  pub amount_cents : ℕ

pub record Tables : Type 0 where
  pub accounts : Table ℕ
  -- the primary key of `processed_messages`
  pub processed_messages : List ℕ

abbrev pub credited : CreditAppliedMessage → Tables → Tables
credited m t = record t { accounts = modify m.account_id (λ b. b + m.amount_cents) t.accounts }

unfoldable pub apply_naive : CreditAppliedMessage → Tables → Tables
apply_naive m t = credited m t

pub data IdempotentOutcome : Type 0 where
  applied duplicate : IdempotentOutcome
  -- the insert fails by its foreign key or by the check on the amount, and all is rolled back
  failed : IdempotentOutcome

abbrev pub inserted : CreditAppliedMessage → Tables → Bool × List ℕ → IdempotentOutcome × Tables
inserted m t (false, ids) = (duplicate, t)
inserted m t (true, ids) = (applied, credited m (record t { processed_messages = ids }))

abbrev pub referenced : CreditAppliedMessage → Tables → Option ℕ → IdempotentOutcome × Tables
referenced m t none = (if contains t.processed_messages m.message_id then duplicate else failed, t)
referenced m t (some balance) = inserted m t (insert_new m.message_id t.processed_messages)

unfoldable pub apply_idempotent : CreditAppliedMessage → Tables → IdempotentOutcome × Tables
unfolding insert_new
apply_idempotent m t =
    if ltb 0 m.amount_cents then referenced m t (lookup m.account_id t.accounts) else (failed, t)

-- `applyRacy`, by its statements. What the worker has seen is its answer to the first of them.
unfoldable pub racy_check : CreditAppliedMessage → Tables → Bool
racy_check m t = contains t.processed_messages m.message_id

pub data RacyOutcome : Type 0 where
  racy_applied skipped_already_processed applied_but_insert_conflicted : RacyOutcome

-- The UPDATE and the INSERT after it, each on its own.
abbrev pub racy_inserted : Tables → Bool × List ℕ → RacyOutcome × Tables
racy_inserted t (true, ids) = (racy_applied, record t { processed_messages = ids })
racy_inserted t (false, ids) = (applied_but_insert_conflicted, t)

unfoldable pub racy_write : Bool → CreditAppliedMessage → Tables → RacyOutcome × Tables
unfolding insert_new
racy_write true m t = (skipped_already_processed, t)
racy_write false m t = racy_inserted (credited m t) (
    if ltb 0 m.amount_cents && has m.account_id t.accounts
    then insert_new m.message_id t.processed_messages
    else (false, t.processed_messages))
