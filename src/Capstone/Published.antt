-- ===== src/Capstone/Published.antt =====
-- An event that has been published stays as it is: labs/40-production-capstone/src/outbox/claim.ts.
use systems_engineering_lab.Prelude.{
  ℕ, ◌≡◌, refl, Bool, true, false, Option, none, some, arith, ◌==◌, Bool-cases, inl, inr, sym, ap,
  ◌∙◌, subst, ==→eq,
}
use systems_engineering_lab.Prelude.Table.{
  Table, lookup, modify, lookup-modify, Below-suc, lookup-Below, is_there,
}
use systems_engineering_lab.Capstone.{
  EventStatus, OutboxEvent, Db, equals, reserve_seat, ReservationOutcome, seat_reserved,
  seat_unavailable,
}
use systems_engineering_lab.Capstone.Checkout.{
  CheckoutInput, CheckoutResult, created, duplicate, rejected, thrown, number_used,
  checkout_idempotent,
}
use systems_engineering_lab.Capstone.Cases.{
  Checked, Created, checkout_idempotent-Checked, Reserved, reserve_seat-Reserved,
}
use systems_engineering_lab.Capstone.Outbox.{
  is_processing, is_claimable, candidate, taken, claim_row, claim_next_event, row_published,
  mark_published, row_failed, mark_publish_failed,
}
use systems_engineering_lab.Capstone.Events.{
  OutboxInv, lookup-Consistent, modify-OutboxInv, candidate-is_claimable, candidate-lookup,
  row_published-holder, row_failed-holder,
}
use systems_engineering_lab.Capstone.Steps.{
  Step, reserving, checking_out, claiming, publishing, failing, Steps, start, after_step,
}

modified :
    (k id : ℕ) (f : OutboxEvent → OutboxEvent) (e : OutboxEvent) (t : Table OutboxEvent)
    → f e ≡ e
    → lookup id t ≡ some e
    → lookup id (modify k f t) ≡ some e
modified k id f e t same l = rw (lookup-modify k id f t) (
    rw l (elim (Bool-cases (k == id)) [
      | inl here ↦ rw here (ap some same)
      | inr there ↦ rw there refl
    ]))

-- The table has grown or one of its rows has changed, and event `id` is still `e`.
abbrev Kept : ℕ → OutboxEvent → Db → Type 0
Kept id e db = OutboxInv db × (lookup id db.outbox_events ≡ some e)

not_held : (w : ℕ) (e : OutboxEvent) → is_there e.locked_by ≡ false → equals w e.locked_by ≡ false
not_held w e h = ground (arith, h)

claimable_row : ℕ → Option OutboxEvent → Bool
claimable_row now none = false
claimable_row now (some e) = is_claimable now e

not_claimed :
    (now j id : ℕ) (d e : OutboxEvent) (t : Table OutboxEvent)
    → lookup j t ≡ some d
    → lookup id t ≡ some e
    → (j == id) ≡ true
    → is_claimable now d ≡ true
    → e.status ≡ EventStatus.published
    → ⊥
unfolding claimable_row
not_claimed now j id d e t l m same c p =
    let one : some d ≡ some e = sym l ∙ ap (λ x. lookup x t) (==→eq j id same) ∙ m in
    let open_event : is_claimable now e ≡ true = sym (ap (claimable_row now) one) ∙ c in
    ground (arith, open_event, p)

module _ (id : ℕ) (e : OutboxEvent) (final : e.status ≡ EventStatus.published) where
  no_holder : (db : Db) → Kept id e db → is_there e.locked_by ≡ false
  no_holder db k =
      lookup-Consistent id e db.outbox_events k.0.consistent k.1 ∙ ap is_processing final

  publishing-Kept : (j w : ℕ) (db : Db) → Kept id e db → Kept id e (mark_published j w db)
  unfolding mark_published
  publishing-Kept j w db k = (
    modify-OutboxInv j (row_published w) db (row_published-holder w) k.0,
    modified j id (row_published w) e db.outbox_events (rw (not_held w e (no_holder db k)) refl)
        k.1,
  )

  failing-Kept : (j w : ℕ) (db : Db) → Kept id e db → Kept id e (mark_publish_failed j w db)
  unfolding mark_publish_failed
  failing-Kept j w db k = (
    modify-OutboxInv j (row_failed w) db (row_failed-holder w) k.0,
    modified j id (row_failed w) e db.outbox_events (rw (not_held w e (no_holder db k)) refl) k.1,
  )

  claim_row-Kept :
      (now w lease_ms : ℕ) (locked : ℕ → Bool) (db : Db) (o : Option (ℕ × OutboxEvent))
      → candidate now locked db.outbox_events ≡ o
      → Kept id e db
      → Kept id e (claim_row now w lease_ms db o).1
  claim_row-Kept now w lease_ms locked db none h k = k
  claim_row-Kept now w lease_ms locked db (some (j, d)) h k =
      let open_event = candidate-is_claimable now locked db.outbox_events j d h in
      let there = candidate-lookup now locked db.outbox_events j d k.0.distinct h in
      (
        modify-OutboxInv j (taken now w lease_ms) db (λ x p. refl) k.0,
        rw (lookup-modify j id (taken now w lease_ms) db.outbox_events)
            (elim (Bool-cases (j == id)) [
              | inl here ↦
                  absurd (not_claimed now j id d e db.outbox_events there k.1 here open_event final)
              | inr other ↦ rw other (k.1)
            ]),
      )

  claiming-Kept :
      (now : ℕ) (locked : ℕ → Bool) (w lease_ms : ℕ) (db : Db)
      → Kept id e db
      → Kept id e (claim_next_event now locked w lease_ms db).1
  unfolding claim_next_event
  claiming-Kept now locked w lease_ms db k =
      claim_row-Kept now w lease_ms locked db (candidate now locked db.outbox_events) refl k

  -- A number of the orders' identity column concerns no event, nor does a seat.
  same_events : (db : Db) → Kept id e db → Kept id e (number_used db)
  same_events db k =
      (record { below = k.0.below; distinct = k.0.distinct; consistent = k.0.consistent }, k.1)

  reserving-Kept :
      (now token seat_id customer_id hold_minutes : ℕ) (db : Db) (ended : ReservationOutcome × Db)
      → Reserved now token seat_id customer_id hold_minutes db ended
      → Kept id e db
      → Kept id e ended.1
  reserving-Kept now token seat_id customer_id hold_minutes db (seat_reserved t, db') r k =
      subst (Kept id e) (sym r.3)
        (record { below = k.0.below; distinct = k.0.distinct; consistent = k.0.consistent }, k.1)
  reserving-Kept now token seat_id customer_id hold_minutes db (seat_unavailable, db') r k =
      subst (Kept id e) (sym r) k

  with_order-Kept :
      (now key : ℕ) (i : CheckoutInput) (db db' : Db) (order_id : ℕ)
      → Created now key i db order_id db'
      → Kept id e db
      → Kept id e db'
  with_order-Kept now key i db db' order_id c k =
      let unused =
        lookup-Below db.next_event db.next_event db.outbox_events k.0.below (omega arith) in
      subst (Kept id e) (sym c.after) (
        record {
          below = (omega arith, Below-suc db.next_event db.outbox_events k.0.below);
          distinct = (unused, k.0.distinct);
          consistent = (refl, k.0.consistent);
        },
        ground (arith, unused, k.1),
      )

  checking_out-Kept :
      (now key : ℕ) (i : CheckoutInput) (db : Db) (ended : CheckoutResult × Db)
      → Checked now key i db ended
      → Kept id e db
      → Kept id e ended.1
  checking_out-Kept now key i db (created n, db') c k = with_order-Kept now key i db db' n c k
  checking_out-Kept now key i db (duplicate n, db') c k =
      subst (Kept id e) (sym c.1) (same_events db k)
  checking_out-Kept now key i db (rejected, db') c k = subst (Kept id e) (sym c) (same_events db k)
  checking_out-Kept now key i db (thrown, db') c k = subst (Kept id e) (sym c) (same_events db k)

  Step-Kept : {db db' : Db} → Step db db' → Kept id e db → Kept id e db'
  Step-Kept {db} (reserving now token seat_id customer_id hold_minutes) k =
      reserving-Kept now token seat_id customer_id hold_minutes db
        (reserve_seat now token seat_id customer_id hold_minutes db)
        (reserve_seat-Reserved now token seat_id customer_id hold_minutes db) k
  Step-Kept {db} (checking_out now key i) k =
      checking_out-Kept now key i db (checkout_idempotent now key i db)
        (checkout_idempotent-Checked now key i db) k
  Step-Kept {db} (claiming now locked w lease_ms) k = claiming-Kept now locked w lease_ms db k
  Step-Kept {db} (publishing j w) k = publishing-Kept j w db k
  Step-Kept {db} (failing j w) k = failing-Kept j w db k

  Steps-Kept : {db db' : Db} → Steps db db' → Kept id e db → Kept id e db'
  Steps-Kept start k = k
  Steps-Kept (after_step before step) k = Step-Kept step (Steps-Kept before k)

-- In a table whose rows have different numbers below the next one, and a holder exactly where they
-- are processed: an event that is published stays as it is under all later reservations, checkouts,
-- claims and reports, so that no publisher gets it again, and what late publishers report of it
-- changes nothing.
pub published_is_final :
    (id : ℕ) (e : OutboxEvent) {db db' : Db}
    → OutboxInv db
    → lookup id db.outbox_events ≡ some e
    → e.status ≡ EventStatus.published
    → Steps db db'
    → lookup id db'.outbox_events ≡ some e
published_is_final id e inv there final steps = (Steps-Kept id e final steps (inv, there)).1
