-- ===== src/Relay/Tests.antt =====
-- Two workers on one row, the first of which dies after its call of the broker.
use systems_engineering_lab.Prelude.{
  ℕ, ◌≡◌, refl, Bool, true, false, none, some, [], ◌∷◌, ◌==◌, Bool-cases, inl, inr,
}
use systems_engineering_lab.Prelude.Table.{Table, lookup}
use systems_engineering_lab.Relay.{OutboxStatus, OutboxRow, ClaimedEvent}
use systems_engineering_lab.Relay.Broker.{new_broker, called, call_count_for}
use systems_engineering_lab.Relay.Claims.{oldest_open, claim_next_event, mark_published, Turn}
use systems_engineering_lab.Relay.Consumer.{consume_all}
use systems_engineering_lab.Relay.Steps.{
  idle, System, update, claim, call, be_answered, finish, claiming, publishing, answering,
  finishing, stopping, Steps, start, after_step,
}
use systems_engineering_lab.Relay.Kept.{published_id}
use systems_engineering_lab.Relay.Delivered.{Seeded}
use systems_engineering_lab.Relay.Applied.{times_applied, published_is_applied_once}

abbrev one_row : Table OutboxRow
one_row =
    (
      1,
      record {
        public_id = 77;
        event_type = 0;
        payload = 5;
        status = OutboxStatus.pending;
        locked_by = none;
        locked_until = none;
        attempts = 0;
        max_attempts = 5;
        published_at = none;
        created_at = 10;
      },
    )
    ∷ []

abbrev seeded : System
seeded = record { outbox = one_row; broker = new_broker; phase = λ w. idle }

abbrev crash : Turn
crash = record {
  locked = λ id. false;
  claimed_at = 100;
  finished_at = 120;
  lease_ms = 500;
  mode = none;
  skip_finalize = true;
  mark_throws = false;
}

abbrev no_locks : ℕ → Bool
no_locks id = false

abbrev first_claim : ClaimedEvent
first_claim = record {
  id = 1;
  public_id = 77;
  event_type = 0;
  payload = 5;
  attempts = 1;
  max_attempts = 5;
  locked_until = 600;
}

abbrev second_claim : ClaimedEvent
second_claim = record first_claim { attempts = 2; locked_until = 1250 }

abbrev first_called : System
unfolding claim_next_event called
first_called = call 1 first_claim (claim 100 no_locks 1 500 seeded)

abbrev died : System
unfolding claim_next_event called
died =
    let s = be_answered none 1 first_claim first_called in
    record s { phase = update s.phase 1 idle }

abbrev second_called : System
unfolding claim_next_event called
second_called = call 2 second_claim (claim 750 no_locks 2 500 died)

abbrev finished : System
unfolding claim_next_event called mark_published
finished = finish 760 2 second_claim (be_answered none 2 second_claim second_called)

both_turns : Steps seeded finished
unfolding claim_next_event oldest_open called mark_published
both_turns =
    after_step
      (after_step
        (after_step
          (after_step
            (after_step
              (after_step
                (after_step (after_step start (claiming 100 no_locks 1 500 refl))
                  (publishing 1 first_claim refl))
                (answering none 1 first_claim refl))
              (stopping 1))
            (claiming 750 no_locks 2 500 refl))
          (publishing 2 second_claim refl))
        (answering none 2 second_claim refl))
      (finishing 760 2 second_claim refl)

-- The broker is called twice, and the side effect runs once.
twice_called : call_count_for 77 finished.broker ≡ 2
unfolding call_count_for claim_next_event oldest_open called mark_published
twice_called = refl

unpublished_row : (id : ℕ) → published_id (lookup id seeded.outbox) ≡ none
unpublished_row id = elim (Bool-cases (1 == id)) [
  | inl here ↦ rw here refl
  | inr there ↦ rw there refl
]

seeded-Seeded : Seeded seeded
seeded-Seeded = record { apart = (refl, tt); unpublished = unpublished_row; all_idle = λ w. refl }

is_published : published_id (lookup 1 finished.outbox) ≡ some 77
unfolding claim_next_event oldest_open called mark_published
is_published = refl

published_is_applied_once_example :
    times_applied 77
      (consume_all finished.broker.deliveries (record { processed_events = []; applied = [] }))
    ≡ 1
published_is_applied_once_example =
    published_is_applied_once seeded-Seeded both_turns 1 77 is_published
