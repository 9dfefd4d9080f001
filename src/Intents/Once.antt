-- ===== src/Intents/Once.antt =====
-- No event is drained twice: labs/16-transactional-outbox/src/scripts/drain-outbox.ts.
use systems_engineering_lab.Prelude.{
  ℕ, ◌+◌, ◌≡◌, refl, Bool, true, false, ◌||◌, Option, none, some, List, [], ◌∷◌, arith, take, ◌==◌,
  if◌then◌else◌, Bool-cases, inl, inr, not, ◌&&◌, ◌∙◌, suc, zero,
}
use systems_engineering_lab.Prelude.Table.{
  Table, modify, lookup, lookup-modify, Distinct, lookup-Below, has, has-modify, is_there,
}
use systems_engineering_lab.Prelude.Unique.{contains}
use systems_engineering_lab.Intents.{
  OutboxEvent, Db, TransactionalOutboxOptions, TransactionalOutboxResult, committed, not_committed,
  perform_transactional_order_creation,
}
use systems_engineering_lab.Intents.Drain.{
  is_unpublished, by_created_at, mark_at, Outcomes, unpublished_rows, drain_rows, drain_outbox,
  to_publish,
}
use systems_engineering_lab.Intents.Paired.{
  Inv, Written, creation-Written, Step, creating, draining, Steps, start, after_step, Step-Inv,
  Steps-Inv,
}

-- The row is there and has been published.
abbrev pub published_flag : Option OutboxEvent → Bool
published_flag none = false
published_flag (some e) = not (is_unpublished e.published_at)

abbrev pub ids : Table OutboxEvent → List ℕ
ids [] = []
ids ((i, e) ∷ t) = i ∷ ids t

-- The rows that a loop publishes are from then on published, and no others.
pub drain_rows-published_flag :
    (o : Outcomes) (n id : ℕ) (sel t : Table OutboxEvent)
    → has id t ≡ true
    → published_flag (lookup id (drain_rows o n sel t).rows)
      ≡ (contains (drain_rows o n sel t).published id || published_flag (lookup id t))
unfolding drain_rows
drain_rows-published_flag o n id [] t h = refl
drain_rows-published_flag o n id ((i, e) ∷ sel) t h =
    elim (Bool-cases (not (o.publish_throws n (to_publish e)) && not (o.update_throws n))) [
      | inl done ↦ rw done (
          ground (
            arith,
            h,
            drain_rows-published_flag o (n + 1) id sel (modify i (mark_at (o.update_at n)) t)
                (has-modify i id (mark_at (o.update_at n)) t ∙ h),
            lookup-modify i id (mark_at (o.update_at n)) t,
          ))
      | inr failed ↦ rw failed (drain_rows-published_flag o (n + 1) id sel t h)
    ]

drain_rows-from :
    (o : Outcomes) (n id : ℕ) (sel t : Table OutboxEvent)
    → contains (drain_rows o n sel t).published id ≡ true
    → contains (ids sel) id ≡ true
unfolding drain_rows
drain_rows-from o n id [] t h = h
drain_rows-from o n id ((i, e) ∷ sel) t h =
    elim (Bool-cases (not (o.publish_throws n (to_publish e)) && not (o.update_throws n))) [
      | inl done ↦
          ground (
            arith,
            done,
            h,
            drain_rows-from o (n + 1) id sel (modify i (mark_at (o.update_at n)) t),
          )
      | inr failed ↦ ground (arith, failed, h, drain_rows-from o (n + 1) id sel t)
    ]

take-from :
    (n id : ℕ) (t : Table OutboxEvent)
    → contains (ids (take n t)) id ≡ true
    → contains (ids t) id ≡ true
take-from zero id t h = cc
take-from (suc n) id [] h = h
take-from (suc n) id ((i, e) ∷ t) h = ground (arith, h, take-from n id t)

pub by_created_at-ids :
    (i id : ℕ) (e : OutboxEvent) (t : Table OutboxEvent)
    → contains (ids (by_created_at (i, e) t)) id ≡ (if i == id then true else contains (ids t) id)
by_created_at-ids i id e [] = refl
by_created_at-ids i id e ((j, d) ∷ t) = ground (arith, by_created_at-ids i id e t)

-- The query selects rows that are there and have not been published.
unpublished_rows-flag :
    (id : ℕ) (t : Table OutboxEvent)
    → Distinct t
    → contains (ids (unpublished_rows t)) id ≡ true
    → (has id t ≡ true) × (published_flag (lookup id t) ≡ false)
unfolding unpublished_rows
unpublished_rows-flag id [] d h = cc
unpublished_rows-flag id ((i, e) ∷ t) d h =
    ground
      (arith, h, d.0, by_created_at-ids i id e (unpublished_rows t), unpublished_rows-flag id t d.1)

module _ (id : ℕ) where
  -- What a drain publishes was there unpublished, and is published after it.
  drain_outbox-published :
      (o : Outcomes) (limit : ℕ) (db : Db)
      → Inv db
      → contains (drain_outbox o limit db).0.published_ids id ≡ true
      → (published_flag (lookup id db.outbox_events) ≡ false)
        × (published_flag (lookup id (drain_outbox o limit db).1.outbox_events) ≡ true)
  unfolding drain_outbox
  drain_outbox-published o limit db inv h =
      let sel = take limit (unpublished_rows db.outbox_events) in
      let chosen = unpublished_rows-flag id db.outbox_events inv.distinct (
        take-from limit id (unpublished_rows db.outbox_events)
          (drain_rows-from o 0 id sel db.outbox_events h)) in
      (chosen.1, ground (arith, h, drain_rows-published_flag o 0 id sel db.outbox_events chosen.0))

  flag_is_there : (o : Option OutboxEvent) → published_flag o ≡ true → is_there o ≡ true
  flag_is_there none h = cc
  flag_is_there (some e) h = refl

  drain_outbox-keeps :
      (o : Outcomes) (limit : ℕ) (db : Db)
      → published_flag (lookup id db.outbox_events) ≡ true
      → published_flag (lookup id (drain_outbox o limit db).1.outbox_events) ≡ true
  unfolding drain_outbox
  drain_outbox-keeps o limit db h = ground (
    arith,
    h,
    drain_rows-published_flag o 0 id (take limit (unpublished_rows db.outbox_events))
        db.outbox_events (flag_is_there (lookup id db.outbox_events) h),
  )

  Written-keeps :
      (now : ℕ) (opts : TransactionalOutboxOptions) (db : Db)
      (ended : TransactionalOutboxResult × Db)
      → Written now opts db ended
      → Inv db
      → published_flag (lookup id db.outbox_events) ≡ true
      → published_flag (lookup id ended.1.outbox_events) ≡ true
  Written-keeps now opts db (committed order_id event_id, db') w inv h =
      let unused =
        lookup-Below db.next_event db.next_event db.outbox_events inv.below (omega arith) in
      rw w.1 (ground (arith, h, w.2, unused))
  Written-keeps now opts db (not_committed, db') w inv h = rw w.1 h

  Step-keeps :
      {db db' : Db}
      → Step db db'
      → Inv db
      → published_flag (lookup id db.outbox_events) ≡ true
      → published_flag (lookup id db'.outbox_events) ≡ true
  Step-keeps {db} (creating now opts) inv h =
      Written-keeps now opts db (perform_transactional_order_creation now opts db)
        (creation-Written now opts db) inv h
  Step-keeps {db} (draining o limit) inv h = drain_outbox-keeps o limit db h

  Steps-keeps :
      {db db' : Db}
      → Steps db db'
      → Inv db
      → published_flag (lookup id db.outbox_events) ≡ true
      → published_flag (lookup id db'.outbox_events) ≡ true
  Steps-keeps start inv h = h
  Steps-keeps (after_step before step) inv h =
      Step-keeps step (Steps-Inv before inv) (Steps-keeps before inv h)

-- Two drains with any creations and drains between them, of a table whose events are those of the
-- orders and have different numbers below the next one: what the first has published, whose mark did
-- not fail, the second does not publish.
pub drained_once :
    (o p : Outcomes) (limit limit' id : ℕ) {db later : Db}
    → Inv db
    → Steps (drain_outbox o limit db).1 later
    → contains (drain_outbox o limit db).0.published_ids id ≡ true
    → contains (drain_outbox p limit' later).0.published_ids id ≡ false
drained_once o p limit limit' id {db} {later} inv steps first =
    elim (Bool-cases (contains (drain_outbox p limit' later).0.published_ids id)) [
      | inr other ↦ other
      | inl again ↦
          let there = Step-Inv (draining o limit) inv in
          let marked = drain_outbox-published id o limit db inv first in
          let before = drain_outbox-published id p limit' later (Steps-Inv steps there) again in
          cc (Steps-keeps id steps there marked.1, before.0)
    ]
