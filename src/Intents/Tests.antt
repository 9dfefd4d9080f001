-- ===== src/Intents/Tests.antt =====
-- Three orders, one of them refused by the check on the type of its event.
use systems_engineering_lab.Prelude.{ℕ, ◌≤◌, ◌≡◌, refl, Bool, true, false, none, [], arith, length}
use systems_engineering_lab.Prelude.Unique.{contains}
use systems_engineering_lab.Intents.{
  plus, Db, TransactionalOutboxOptions, insert_order, insert_event,
  perform_transactional_order_creation, perform_naive_broker_publish_then_order, publish_to_broker,
  broker_and_order,
}
use systems_engineering_lab.Intents.Drain.{Outcomes, unpublished_rows, drain_rows, drain_outbox}
use systems_engineering_lab.Intents.Paired.{
  Paired, Inv, empty_db, creating, Steps, start, after_step, Steps-Inv, orders-Paired,
}
use systems_engineering_lab.Intents.Once.{ids, drained_once}
use systems_engineering_lab.Intents.Emptied.{drained_empty}

abbrev order_of : ℕ → Bool → TransactionalOutboxOptions
order_of cents bug = record {
  customer_name = 5;
  amount_cents = plus cents;
  inject_outbox_insert_failure = bug;
}

abbrev first : Db
unfolding perform_transactional_order_creation
first = (perform_transactional_order_creation 10 (order_of 3200 false) empty_db).1

abbrev second : Db
unfolding perform_transactional_order_creation
second = (perform_transactional_order_creation 11 (order_of 3200 true) first).1

abbrev third : Db
unfolding perform_transactional_order_creation
third = (perform_transactional_order_creation 12 (order_of 700 false) second).1

abbrev all_succeed : Outcomes
all_succeed = record {
  publish_throws = λ n e. false;
  update_throws = λ n. false;
  update_at = λ n. 20;
}

orders_made : Steps empty_db third
unfolding perform_transactional_order_creation
orders_made =
    after_step
      (after_step (after_step start (creating 10 (order_of 3200 false)))
        (creating 11 (order_of 3200 true)))
      (creating 12 (order_of 700 false))

third-Inv : Inv third
third-Inv = Steps-Inv orders_made (record { paired = tt; below = tt; distinct = tt })

-- The refused transaction has used one number of each table.
numbers_used : (third.next_order ≡ 4) × (third.next_event ≡ 4) × (length third.orders ≡ 2)
unfolding perform_transactional_order_creation insert_order insert_event
numbers_used = (refl, refl, refl)

-- The broker has an event without an order: the amount was made negative.
phantom :
    (perform_naive_broker_publish_then_order 5 (plus 7500) empty_db []).0 ≡ broker_and_order none
unfolding perform_naive_broker_publish_then_order insert_order publish_to_broker
phantom = refl

orders-Paired_example : Paired third.orders third.outbox_events
orders-Paired_example = orders-Paired orders_made

drained_first : contains (drain_outbox all_succeed 1 third).0.published_ids 1 ≡ true
unfolding drain_outbox drain_rows unpublished_rows perform_transactional_order_creation insert_order
    insert_event
drained_first = refl

drained_once_example :
    contains (drain_outbox all_succeed 100 (drain_outbox all_succeed 1 third).1).0.published_ids 1
    ≡ false
drained_once_example = drained_once all_succeed all_succeed 1 100 1 third-Inv start drained_first

two_to_publish : length (unpublished_rows third.outbox_events) ≤ 100
unfolding unpublished_rows perform_transactional_order_creation insert_order insert_event
two_to_publish = omega arith

drained_empty_example :
    ((drain_outbox all_succeed 100 third).0.published_ids
      ≡ ids (unpublished_rows third.outbox_events))
    × ((drain_outbox all_succeed 100 (drain_outbox all_succeed 100 third).1).0.attempted ≡ 0)
drained_empty_example =
    drained_empty all_succeed all_succeed 100 100 third (λ n e. refl) (λ n. refl) third-Inv
      two_to_publish
