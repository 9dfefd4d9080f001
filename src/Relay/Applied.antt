-- ===== src/Relay/Applied.antt =====
-- The consumer of labs/17-outbox-workers-skip-locked/src/queue/idempotent-consumer.ts behind
-- publishers that may deliver an event more than once.
use systems_engineering_lab.Prelude.{
  ℕ, ◌≡◌, refl, Bool, true, some, List, [], ◌∷◌, arith, ◌==◌, if◌then◌else◌, count_by, ◌∙◌, ap,
  Bool-cases, inl, inr,
}
use systems_engineering_lab.Prelude.Table.{lookup}
use systems_engineering_lab.Prelude.Unique.{contains, insert_new}
use systems_engineering_lab.Relay.{BrokerEvent}
use systems_engineering_lab.Relay.Broker.{is_delivered}
use systems_engineering_lab.Relay.Consumer.{Consumer, consume_idempotently, consume_all}
use systems_engineering_lab.Relay.Steps.{System, Steps}
use systems_engineering_lab.Relay.Kept.{published_id}
use systems_engineering_lab.Relay.Delivered.{Seeded, published_was_delivered}

abbrev pub is_of : ℕ → BrokerEvent → Bool
is_of p e = e.public_id == p

abbrev pub times_applied : ℕ → Consumer → ℕ
times_applied p c = count_by (is_of p) c.applied

abbrev one_if : Bool → ℕ
one_if b = if b then 1 else 0

-- The side effect of an event has run once if the table has it, and else not.
abbrev Agrees : ℕ → Consumer → Type 0
Agrees p c = times_applied p c ≡ one_if (contains c.processed_events p)

consumed :
    (p : ℕ) (e : BrokerEvent) (c : Consumer)
    → Agrees p c
    → Agrees p (consume_idempotently e c).1
      × (contains (consume_idempotently e c).1.processed_events p
          ≡ (if is_of p e then true else contains c.processed_events p))
unfolding consume_idempotently insert_new
consumed p e c h = elim (Bool-cases (contains c.processed_events e.public_id)) [
  | inl seen ↦ rw seen (h, ground (arith, seen))
  | inr new ↦ rw new (ground (arith, new, h), refl)
]

consume_all-Agrees :
    (p : ℕ) (es : List BrokerEvent) (c : Consumer)
    → Agrees p c
    → times_applied p (consume_all es c)
      ≡ one_if (if contains c.processed_events p then true else is_delivered p es)
unfolding consume_all
consume_all-Agrees p [] c h = ground (arith, h)
consume_all-Agrees p (e ∷ es) c h =
    let one = consumed p e c h in
    ground (arith, one.1, consume_all-Agrees p es (consume_idempotently e c).1 one.0)

-- Whatever is delivered, how often and in whichever order: the side effect of an event runs exactly
-- once if the event is among the deliveries, and else not at all.
pub consume_all-times_applied :
    (p : ℕ) (es : List BrokerEvent)
    → times_applied p (consume_all es (record { processed_events = []; applied = [] }))
      ≡ (if is_delivered p es then 1 else 0)
consume_all-times_applied p es =
    consume_all-Agrees p es (record { processed_events = []; applied = [] }) refl

-- From a table whose rows have different numbers and none of which is published, and workers that do
-- nothing yet: however their claims, broker calls, marks and crashes come between each other, a new
-- consumer that takes all that the broker has received by then has run the side effect of every
-- event whose row says that it is published exactly once.
pub published_is_applied_once :
    {s t : System}
    → Seeded s
    → Steps s t
    → (id p : ℕ) → published_id (lookup id t.outbox) ≡ some p
    → times_applied p
        (consume_all t.broker.deliveries (record { processed_events = []; applied = [] }))
      ≡ 1
published_is_applied_once {s} {t} seeded steps id p h =
    consume_all-times_applied p t.broker.deliveries
    ∙ ap one_if (published_was_delivered seeded steps id p h)
