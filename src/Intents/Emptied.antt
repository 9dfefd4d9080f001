-- ===== src/Intents/Emptied.antt =====
-- A drain whose calls succeed leaves nothing to publish:
-- labs/16-transactional-outbox/src/scripts/drain-outbox.ts.
use systems_engineering_lab.Prelude.{
  ℕ, ◌+◌, ◌≤◌, ◌≡◌, refl, true, false, [], ◌∷◌, arith, take, sym, ◌∙◌, suc, zero, length, ap,
  ==_refl, Bool-cases, inl, inr, take-nil,
}
use systems_engineering_lab.Prelude.Table.{Table, modify, lookup, Distinct, has, has-modify}
use systems_engineering_lab.Prelude.Unique.{contains}
use systems_engineering_lab.Intents.{OutboxEvent, Db, BrokerEvent}
use systems_engineering_lab.Intents.Drain.{
  by_created_at, mark_at, Outcomes, unpublished_rows, drain_rows, drain_outbox, to_publish,
}
use systems_engineering_lab.Intents.Paired.{Inv, Step-Inv, draining, drain_rows-keeps}
use systems_engineering_lab.Intents.Once.{
  published_flag, ids, drain_rows-published_flag, by_created_at-ids,
}

take_all : (n : ℕ) (t : Table OutboxEvent) → length t ≤ n → take n t ≡ t
take_all zero [] h = refl
take_all zero (e ∷ t) h = absurd (omega (arith, h))
take_all (suc n) [] h = refl
take_all (suc n) (e ∷ t) h = ap (λ l. e ∷ l) (take_all n t (omega (arith, h)))

by_created_at-length :
    (x : ℕ × OutboxEvent) (t : Table OutboxEvent) → length (by_created_at x t) ≡ length t + 1
by_created_at-length x [] = refl
by_created_at-length x (y ∷ t) = ground (arith, by_created_at-length x t)

-- An event that has not been published is selected.
selected :
    (id : ℕ) (t : Table OutboxEvent)
    → has id t ≡ true
    → published_flag (lookup id t) ≡ false
    → contains (ids (unpublished_rows t)) id ≡ true
unfolding unpublished_rows
selected id [] h f = cc
selected id ((i, e) ∷ t) h f =
    ground (arith, h, f, by_created_at-ids i id e (unpublished_rows t), selected id t)

-- If every row has been published, none is selected.
none_selected :
    (t : Table OutboxEvent)
    → Distinct t
    → ((id : ℕ) → has id t ≡ true → published_flag (lookup id t) ≡ true)
    → unpublished_rows t ≡ []
unfolding unpublished_rows
none_selected [] d h = refl
none_selected ((i, e) ∷ t) d h =
    let head = h i (ground (arith, ==_refl i)) in
    let rest = none_selected t d.1 (λ id there. ground (arith, h id, d.0, there)) in
    ground (arith, head, rest, ==_refl i)

module _ (o : Outcomes) (publishes : (n : ℕ) (e : BrokerEvent) → o.publish_throws n e ≡ false)
    (updates : (n : ℕ) → o.update_throws n ≡ false) where
  -- Every row that is selected is published.
  all_drained : (n : ℕ) (sel t : Table OutboxEvent) → (drain_rows o n sel t).published ≡ ids sel
  unfolding drain_rows
  all_drained n [] t = refl
  all_drained n ((i, e) ∷ sel) t = rw (publishes n (to_publish e)) (
      rw (updates n)
        (ap (λ l. i ∷ l) (all_drained (n + 1) sel (modify i (mark_at (o.update_at n)) t))))

  flag_after :
      (id : ℕ) (t : Table OutboxEvent)
      → has id t ≡ true
      → published_flag (lookup id (drain_rows o 0 (unpublished_rows t) t).rows) ≡ true
  flag_after id t there = elim (Bool-cases (published_flag (lookup id t))) [
    | inl before ↦
        ground (arith, before, there, drain_rows-published_flag o 0 id (unpublished_rows t) t there)
    | inr not_yet ↦ ground (
      arith,
      selected id t there not_yet,
      all_drained 0 (unpublished_rows t) t,
      drain_rows-published_flag o 0 id (unpublished_rows t) t there,
    )
  ]

  emptied :
      (t : Table OutboxEvent)
      → Distinct t
      → Distinct (drain_rows o 0 (unpublished_rows t) t).rows
      → unpublished_rows (drain_rows o 0 (unpublished_rows t) t).rows ≡ []
  emptied t d d' = none_selected (drain_rows o 0 (unpublished_rows t) t).rows d' (λ id there.
      flag_after id t (
        sym (
          drain_rows-keeps (λ u. has id u ≡ has id t)
            (λ k now u same. has-modify k id (mark_at now) u ∙ same) o 0 (unpublished_rows t) t
            refl)
        ∙ there))

-- A drain whose calls of the broker and updates all succeed, with a limit that is no less than the
-- events to publish, of a table in which they have different numbers below the next one: it publishes
-- all of them, and the drain after it finds none.
pub drained_empty :
    (o p : Outcomes) (limit limit' : ℕ) (db : Db)
    → ((n : ℕ) (e : BrokerEvent) → o.publish_throws n e ≡ false)
    → ((n : ℕ) → o.update_throws n ≡ false)
    → Inv db
    → length (unpublished_rows db.outbox_events) ≤ limit
    → ((drain_outbox o limit db).0.published_ids ≡ ids (unpublished_rows db.outbox_events))
      × ((drain_outbox p limit' (drain_outbox o limit db).1).0.attempted ≡ 0)
unfolding drain_outbox
drained_empty o p limit limit' db publishes updates inv enough =
    let later = Step-Inv (draining o limit) inv in
    let whole = take_all limit (unpublished_rows db.outbox_events) enough in
    let none_left : unpublished_rows (drain_outbox o limit db).1.outbox_events ≡ [] =
      rw whole
        (emptied o publishes updates db.outbox_events inv.distinct (rw whole at later.distinct)) in
    (
      rw whole
          (all_drained o publishes updates 0 (unpublished_rows db.outbox_events) db.outbox_events),
      rw none_left (ap length (take-nil limit')),
    )
