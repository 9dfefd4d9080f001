-- ===== src/Intents/Paired.antt =====
-- Every order has its event: labs/16-transactional-outbox/src/scenarios.
use systems_engineering_lab.Prelude.{
  ℕ, ◌+◌, ◌≤◌, ◌≡◌, refl, true, none, List, [], ◌∷◌, arith, take, ◌==◌, Bool-cases, inl, inr, not,
  ◌&&◌,
}
use systems_engineering_lab.Prelude.Table.{
  Table, modify, Below, Distinct, modify-Below, modify-Distinct, lookup-Below,
}
use systems_engineering_lab.Intents.{
  Cents, of_order, order_created, Order, OutboxEvent, Db, BrokerEvent, in_int4, is_positive,
  insert_order, insert_event, TransactionalOutboxOptions, TransactionalOutboxResult, committed,
  not_committed, perform_transactional_order_creation, publish_to_broker,
  perform_naive_order_then_broker_publish,
}
use systems_engineering_lab.Intents.Drain.{
  mark_at, Outcomes, unpublished_rows, drain_rows, drain_outbox, to_publish,
}

-- The orders and the events are the same, one by one: the event names its order and the amount.
abbrev pub Paired : Table Order → Table OutboxEvent → Type 0
Paired [] [] = Unit
Paired [] (e ∷ es) = ⊥
Paired (o ∷ os) [] = ⊥
Paired ((n, o) ∷ os) ((m, e) ∷ es) =
    (e.aggregate_id ≡ n) × (e.payload ≡ of_order n o.amount_cents) × Paired os es

pub record Inv (db : Db) : Type 0 where
  pub paired : Paired db.orders db.outbox_events
  pub below : Below db.next_event db.outbox_events
  pub distinct : Distinct db.outbox_events

modify-Paired :
    (k at : ℕ) (os : Table Order) (es : Table OutboxEvent)
    → Paired os es
    → Paired os (modify k (mark_at at) es)
modify-Paired k at [] [] p = tt
modify-Paired k at [] (e ∷ es) p = absurd p
modify-Paired k at (o ∷ os) [] p = absurd p
modify-Paired k at ((n, o) ∷ os) ((m, e) ∷ es) p = elim (Bool-cases (m == k)) [
  | inl here ↦ rw here p
  | inr there ↦ rw there (p.0, p.1, modify-Paired k at os es p.2)
]

-- What a property of the events keeps, if a mark keeps it, a drain keeps.
pub drain_rows-keeps {ℓ} :
    (P : Table OutboxEvent → Type ℓ)
    → ((k now : ℕ) (t : Table OutboxEvent) → P t → P (modify k (mark_at now) t))
    → (o : Outcomes) (n : ℕ) (sel t : Table OutboxEvent) → P t
    → P (drain_rows o n sel t).rows
unfolding drain_rows
drain_rows-keeps P h o n [] t p = p
drain_rows-keeps P h o n ((i, e) ∷ sel) t p =
    elim (Bool-cases (not (o.publish_throws n (to_publish e)) && not (o.update_throws n))) [
      | inl done ↦ rw done (
          drain_rows-keeps P h o (n + 1) sel (modify i (mark_at (o.update_at n)) t)
            (h i (o.update_at n) t p))
      | inr failed ↦ rw failed (drain_rows-keeps P h o (n + 1) sel t p)
    ]

drain_outbox-Inv : (o : Outcomes) (limit : ℕ) (db : Db) → Inv db → Inv (drain_outbox o limit db).1
unfolding drain_outbox
drain_outbox-Inv o limit db inv =
    let sel = take limit (unpublished_rows db.outbox_events) in
    record {
      paired =
          drain_rows-keeps (Paired db.orders) (λ k now t. modify-Paired k now db.orders t) o 0 sel
            db.outbox_events inv.paired;
      below =
          drain_rows-keeps (Below db.next_event)
            (λ k now t. modify-Below db.next_event k (mark_at now) t) o 0 sel db.outbox_events
            inv.below;
      distinct =
          drain_rows-keeps Distinct (λ k now t. modify-Distinct k (mark_at now) t) o 0 sel
            db.outbox_events inv.distinct;
    }

-- How a creation ends: with both rows, or with neither.
abbrev pub Written : ℕ → TransactionalOutboxOptions → Db → TransactionalOutboxResult × Db → Type 0
Written now opts db (committed order_id event_id, db') =
    (db'.orders
      ≡ (order_id, record { customer_name = opts.customer_name; amount_cents = opts.amount_cents })
        ∷ db.orders)
    × (db'.outbox_events
        ≡ (
          event_id,
          record {
            aggregate_id = order_id;
            event_type = order_created;
            payload = of_order order_id opts.amount_cents;
            created_at = now;
            published_at = none;
          },
        )
          ∷ db.outbox_events)
    × (event_id ≡ db.next_event)
    × (db'.next_event ≡ db.next_event + 1)
Written now opts db (not_committed, db') =
    (db'.orders ≡ db.orders)
    × (db'.outbox_events ≡ db.outbox_events)
    × (db.next_event ≤ db'.next_event)

pub creation-Written :
    (now : ℕ) (opts : TransactionalOutboxOptions) (db : Db)
    → Written now opts db (perform_transactional_order_creation now opts db)
unfolding perform_transactional_order_creation insert_order insert_event
creation-Written now opts db = elim (Bool-cases (in_int4 opts.amount_cents)) [
  | inr wide ↦ rw wide (refl, refl, omega arith)
  | inl fits ↦ elim (Bool-cases (is_positive opts.amount_cents)) [
    | inr refused ↦ rw fits (rw refused (refl, refl, omega arith))
    | inl taken ↦ elim (Bool-cases opts.inject_outbox_insert_failure) [
      | inl bug ↦ rw fits (rw taken (rw bug (refl, refl, omega arith)))
      | inr good ↦ rw fits (rw taken (rw good (refl, refl, refl, refl)))
    ]
  ]
]

Below-le : (n m : ℕ) (t : Table OutboxEvent) → n ≤ m → Below n t → Below m t
Below-le n m [] h b = tt
Below-le n m (e ∷ t) h b = (omega arith, Below-le n m t h b.1)

Written-Inv :
    (now : ℕ) (opts : TransactionalOutboxOptions) (db : Db) (ended : TransactionalOutboxResult × Db)
    → Written now opts db ended
    → Inv db
    → Inv ended.1
Written-Inv now opts db (committed order_id event_id, db') w inv = record {
  paired = rw w.0 (rw w.1 (refl, refl, inv.paired));
  below = rw w.1 (
    omega (arith, w.2, w.3),
    Below-le db.next_event db'.next_event db.outbox_events (omega (arith, w.3)) inv.below,
  );
  distinct = rw w.1 (
      rw w.2 (
        lookup-Below db.next_event db.next_event db.outbox_events inv.below (omega arith),
        inv.distinct,
      ));
}
Written-Inv now opts db (not_committed, db') w inv = record {
  paired = rw w.0 (rw w.1 inv.paired);
  below = rw w.1 (Below-le db.next_event db'.next_event db.outbox_events w.2 inv.below);
  distinct = rw w.1 inv.distinct;
}

pub data Step (db : Db) : Db → Type 0 where
  creating :
      (now : ℕ) (opts : TransactionalOutboxOptions)
      → Step db (perform_transactional_order_creation now opts db).1
  draining : (o : Outcomes) (limit : ℕ) → Step db (drain_outbox o limit db).1

pub data Steps (db : Db) : Db → Type 0 where
  start : Steps db db
  after_step : {db' db'' : Db} → Steps db db' → Step db' db'' → Steps db db''

pub Step-Inv : {db db' : Db} → Step db db' → Inv db → Inv db'
Step-Inv {db} (creating now opts) inv =
    Written-Inv now opts db (perform_transactional_order_creation now opts db)
      (creation-Written now opts db) inv
Step-Inv {db} (draining o limit) inv = drain_outbox-Inv o limit db inv

pub Steps-Inv : {db db' : Db} → Steps db db' → Inv db → Inv db'
Steps-Inv start inv = inv
Steps-Inv (after_step before step) inv = Step-Inv step (Steps-Inv before inv)

abbrev pub empty_db : Db
empty_db = record { orders = []; next_order = 1; outbox_events = []; next_event = 1 }

-- After any creations, refused by a check or not, and drains, whose calls fail or not, of tables
-- that were empty: the orders and the events of the outbox are the same, one by one, in the order of
-- their numbers, so that each order has exactly one event, which names it and its amount.
pub orders-Paired : {db : Db} → Steps empty_db db → Paired db.orders db.outbox_events
orders-Paired steps = (Steps-Inv steps (record { paired = tt; below = tt; distinct = tt })).paired

not_longer :
    (x : ℕ × Order) (os : Table Order) (es : Table OutboxEvent)
    → Paired os es
    → ¬ Paired (x ∷ os) es
not_longer x [] [] p q = q
not_longer x [] (e ∷ es) p q = p
not_longer x (o ∷ os) [] p q = q
not_longer x (o ∷ os) (e ∷ es) p q = not_longer o os es p.2 q.2

-- The naive way, of an order that the table takes: the order is there, the broker has received
-- nothing, and the orders and the events are no longer the same.
pub naive_order-Paired :
    (customer_name : ℕ) (amount_cents : Cents) (db : Db) (sent : List BrokerEvent)
    → in_int4 amount_cents ≡ true
    → is_positive amount_cents ≡ true
    → Paired db.orders db.outbox_events
    → (¬ Paired
        (perform_naive_order_then_broker_publish customer_name amount_cents db sent).1.orders
        (perform_naive_order_then_broker_publish customer_name amount_cents db
          sent).1.outbox_events)
      × ((perform_naive_order_then_broker_publish customer_name amount_cents db sent).2 ≡ sent)
unfolding perform_naive_order_then_broker_publish insert_order publish_to_broker
naive_order-Paired customer_name amount_cents db sent fits taken p = rw fits (
    rw taken (
      not_longer
          (db.next_order, record { customer_name = customer_name; amount_cents = amount_cents })
          db.orders db.outbox_events p,
      refl,
    ))
