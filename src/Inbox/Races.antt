-- ===== src/Inbox/Races.antt =====
-- Two workers that consume one message at the same time:
-- scenarios/racy-check-then-insert-consumer.ts.
use systems_engineering_lab.Prelude.{
  ℕ, ◌+◌, ◌<◌, ◌≡◌, refl, true, false, some, arith, lt→ltb, ◌∷◌, ap, ◌∙◌,
}
use systems_engineering_lab.Prelude.Table.{lookup, has, has-modify, lookup-modify, is_there}
use systems_engineering_lab.Prelude.Unique.{contains, contains_here, insert_new}
use systems_engineering_lab.Inbox.{
  CreditAppliedMessage, Tables, credited, racy_check, racy_write, racy_applied,
  skipped_already_processed, applied_but_insert_conflicted,
}

module _ (m : CreditAppliedMessage) (t : Tables) (balance : ℕ)
    (new : contains t.processed_messages m.message_id ≡ false) (pos : 0 < m.amount_cents)
    (there : lookup m.account_id t.accounts ≡ some balance) where
  abbrev first : Tables
  first = record (credited m t) { processed_messages = m.message_id ∷ t.processed_messages }

  account_there : has m.account_id t.accounts ≡ true
  account_there = ap is_there there

  first_writes : racy_write false m t ≡ (racy_applied, first)
  unfolding racy_write insert_new
  first_writes = rw (lt→ltb 0 m.amount_cents pos) (rw account_there (rw new refl))

  credited_row :
      (u : Tables) (b : ℕ)
      → lookup m.account_id u.accounts ≡ some b
      → lookup m.account_id (credited m u).accounts ≡ some (b + m.amount_cents)
  credited_row u b e =
      ground (
        arith,
        lookup-modify m.account_id m.account_id (λ (c : ℕ). c + m.amount_cents) u.accounts,
        e,
      )

  second_writes : racy_write false m first ≡ (applied_but_insert_conflicted, credited m first)
  unfolding racy_write insert_new
  second_writes = rw (lt→ltb 0 m.amount_cents pos) (
      rw (has-modify m.account_id m.account_id (λ b. b + m.amount_cents) t.accounts ∙ account_there)
        (rw (contains_here m.message_id t.processed_messages) refl))

  -- A message that no one has processed, and two workers that both ask before either writes: the
  -- first is told that it applied the message, the second that only its insert failed, and the
  -- account is credited twice. If the second asks after the first has written, it skips the message.
  pub racy_double :
      let one = racy_write (racy_check m t) m t in
      let two = racy_write (racy_check m t) m one.1 in
      (one.0 ≡ racy_applied)
      × (two.0 ≡ applied_but_insert_conflicted)
      × (lookup m.account_id two.1.accounts ≡ some (balance + m.amount_cents + m.amount_cents))
      × (racy_write (racy_check m one.1) m one.1 ≡ (skipped_already_processed, one.1))
  unfolding racy_check racy_write
  racy_double = rw new (
      rw first_writes (
        rw second_writes (
          refl,
          refl,
          credited_row first (balance + m.amount_cents) (credited_row t balance there),
          rw (contains_here m.message_id t.processed_messages) refl,
        )))
