-- ===== src/Capstone/Events.antt =====
-- The table `outbox_events` under the claims of the publishers: labs/40-production-capstone/src/outbox/claim.ts.
use systems_engineering_lab.Prelude.{
  ℕ, ◌≡◌, Bool, true, some, [], ◌∷◌, arith, ◌==◌, Bool-cases, inl, inr,
}
use systems_engineering_lab.Prelude.Table.{
  Table, lookup, modify, Distinct, modify-Distinct, Below, modify-Below, is_there,
}
use systems_engineering_lab.Capstone.{OutboxEvent, Db}
use systems_engineering_lab.Capstone.Outbox.{
  is_processing, is_claimable, candidate, row_published, row_failed,
}

-- An event has a holder exactly while it is being processed.
abbrev pub Consistent : Table OutboxEvent → Type 0
Consistent [] = Unit
Consistent ((id, e) ∷ rows) = (is_there e.locked_by ≡ is_processing e.status) × Consistent rows

pub record OutboxInv (db : Db) : Type 0 where
  pub below : Below db.next_event db.outbox_events
  pub distinct : Distinct db.outbox_events
  pub consistent : Consistent db.outbox_events

modify-Consistent :
    (k : ℕ) (f : OutboxEvent → OutboxEvent) (t : Table OutboxEvent)
    → ((e : OutboxEvent)
        → is_there e.locked_by ≡ is_processing e.status
        → is_there (f e).locked_by ≡ is_processing (f e).status)
    → Consistent t
    → Consistent (modify k f t)
modify-Consistent k f [] h c = tt
modify-Consistent k f ((j, e) ∷ t) h c = elim (Bool-cases (j == k)) [
  | inl here ↦ rw here (h e c.0, c.1)
  | inr there ↦ rw there (c.0, modify-Consistent k f t h c.1)
]

pub lookup-Consistent :
    (k : ℕ) (e : OutboxEvent) (t : Table OutboxEvent)
    → Consistent t
    → lookup k t ≡ some e
    → is_there e.locked_by ≡ is_processing e.status
lookup-Consistent k e [] c l = cc
lookup-Consistent k e ((j, d) ∷ t) c l = ground (arith, lookup-Consistent k e t c.1)

pub modify-OutboxInv :
    (k : ℕ) (f : OutboxEvent → OutboxEvent) (db : Db)
    → ((e : OutboxEvent)
        → is_there e.locked_by ≡ is_processing e.status
        → is_there (f e).locked_by ≡ is_processing (f e).status)
    → OutboxInv db
    → OutboxInv (record db { outbox_events = modify k f db.outbox_events })
modify-OutboxInv k f db h inv = record {
  below = modify-Below db.next_event k f db.outbox_events inv.below;
  distinct = modify-Distinct k f db.outbox_events inv.distinct;
  consistent = modify-Consistent k f db.outbox_events h inv.consistent;
}

module _ (now : ℕ) (locked : ℕ → Bool) where
  pub candidate-is_claimable :
      (t : Table OutboxEvent) (id : ℕ) (e : OutboxEvent)
      → candidate now locked t ≡ some (id, e)
      → is_claimable now e ≡ true
  unfolding candidate
  candidate-is_claimable [] id e h = cc
  candidate-is_claimable ((j, d) ∷ t) id e h = ground (arith, candidate-is_claimable t id e)

  pub candidate-lookup :
      (t : Table OutboxEvent) (id : ℕ) (e : OutboxEvent)
      → Distinct t
      → candidate now locked t ≡ some (id, e)
      → lookup id t ≡ some e
  unfolding candidate
  candidate-lookup [] id e d h = cc
  candidate-lookup ((j, f) ∷ t) id e d h = ground (arith, candidate-lookup t id e d.1)

pub row_published-holder :
    (w : ℕ) (e : OutboxEvent)
    → is_there e.locked_by ≡ is_processing e.status
    → is_there (row_published w e).locked_by ≡ is_processing (row_published w e).status
row_published-holder w e h = ground (arith, h)

pub row_failed-holder :
    (w : ℕ) (e : OutboxEvent)
    → is_there e.locked_by ≡ is_processing e.status
    → is_there (row_failed w e).locked_by ≡ is_processing (row_failed w e).status
row_failed-holder w e h = ground (arith, h)
