-- ===== src/Relay/Delivered.antt =====
-- What the broker has of the published events, while publishers of
-- labs/17-outbox-workers-skip-locked run at once, and what the consumer makes of it.
use systems_engineering_lab.Prelude.{
  ℕ, ◌≡◌, refl, Bool, true, Option, none, some, [], ◌∷◌, ◌++◌, arith, sym, subst,
}
use systems_engineering_lab.Prelude.Table.{lookup, Distinct, map_some}
use systems_engineering_lab.Relay.{OutboxRow, ClaimedEvent}
use systems_engineering_lab.Relay.Broker.{BrokerMode, called, received, is_delivered}
use systems_engineering_lab.Relay.Claims.{
  oldest_open, claimed_row, claimed_event, claim_candidate, claim_next_event, published_row,
  mark_published, failed_row, mark_publish_failed, to_broker,
}
use systems_engineering_lab.Relay.Steps.{
  idle, claimed, calling, delivered, thrown, System, update, phase_after_claim, claim, be_answered,
  Step, claiming, publishing, answering, finishing, losing_mark, giving_back, stopping, Steps,
  start, after_step,
}
use systems_engineering_lab.Relay.Kept.{
  Tells, published_id, modify-Tells, oldest_open-lookup, claimed_row-unpublished,
  published_row-event, failed_row-event, failed_row-published,
}
use systems_engineering_lab.Relay.Invariant.{
  Knows, Inv, update-all, delivered_more, delivered_last, more-Knows, changed, moved,
}

claim_candidate-Inv :
    (now w lease_ms : ℕ) (locked : ℕ → Bool) (s : System) (o : Option (ℕ × OutboxRow))
    → oldest_open now locked s.outbox ≡ o
    → Inv s
    → Inv (record s {
      outbox = (claim_candidate now w lease_ms s.outbox o).1;
      phase = update s.phase w (phase_after_claim (claim_candidate now w lease_ms s.outbox o).0);
    })
claim_candidate-Inv now w lease_ms locked s none h inv = moved w idle s tt inv
claim_candidate-Inv now w lease_ms locked s (some (id, r)) h inv =
    let there = oldest_open-lookup now locked s.outbox id r inv.distinct h in
    changed id w (claimed_row now w lease_ms) (claimed (claimed_event now lease_ms id r)) s
      (λ x. refl) (λ q e. cc (claimed_row-unpublished now w lease_ms (lookup id s.outbox), e))
      (modify-Tells id id r.public_id (claimed_row now w lease_ms) s.outbox (λ x. refl)
        (subst (Tells r.public_id) (sym there) refl))
      inv

claim-Inv :
    (now : ℕ) (locked : ℕ → Bool) (w lease_ms : ℕ) (s : System)
    → Inv s
    → Inv (claim now locked w lease_ms s)
unfolding claim_next_event
claim-Inv now locked w lease_ms s inv =
    claim_candidate-Inv now w lease_ms locked s (oldest_open now locked s.outbox) refl inv

accepted-Inv :
    (w : ℕ) (e : ClaimedEvent) (s : System)
    → Tells e.public_id (lookup e.id s.outbox)
    → Inv s
    → Inv (record s {
      broker = received (to_broker e) s.broker;
      phase = update s.phase w (delivered e);
    })
accepted-Inv w e s told inv = record {
  distinct = inv.distinct;
  known =
      update-all (Knows s.outbox (s.broker.deliveries ++ to_broker e ∷ [])) s.phase w (delivered e)
        (λ v. more-Knows s.outbox s.broker.deliveries (to_broker e) (s.phase v) (inv.known v))
        (told, delivered_last s.broker.deliveries (to_broker e));
  backed = λ id p h. delivered_more p s.broker.deliveries (to_broker e) (inv.backed id p h);
}

be_answered-Inv :
    (mode : Option BrokerMode) (w : ℕ) (e : ClaimedEvent) (s : System)
    → Tells e.public_id (lookup e.id s.outbox)
    → Inv s
    → Inv (be_answered mode w e s)
be_answered-Inv none w e s told inv = accepted-Inv w e s told inv
be_answered-Inv (some BrokerMode.succeed) w e s told inv = accepted-Inv w e s told inv
be_answered-Inv (some BrokerMode.fail) w e s told inv = moved w (thrown e) s told inv
be_answered-Inv (some BrokerMode.slow) w e s told inv = accepted-Inv w e s told inv

published_row-names :
    (now w p q : ℕ) (o : Option OutboxRow)
    → Tells p o
    → published_id (map_some (published_row now w) o) ≡ some q
    → p ≡ q
published_row-names now w p q none b h = absurd b
published_row-names now w p q (some r) b h = ground (arith, b, h)

failed_row-names :
    (w q : ℕ) (o : Option OutboxRow)
    → published_id (map_some (failed_row w) o) ≡ some q
    → published_id o ≡ some q
failed_row-names w q none h = h
failed_row-names w q (some r) h = failed_row-published w q r h

Step-Inv : {s t : System} → Step s t → Inv s → Inv t
unfolding called mark_published mark_publish_failed
Step-Inv {s} (claiming now locked w lease_ms h) inv = claim-Inv now locked w lease_ms s inv
Step-Inv {s} (publishing w e h) inv =
    let told : Tells e.public_id (lookup e.id s.outbox) =
      subst (Knows s.outbox s.broker.deliveries) h (inv.known w) in
    record {
      distinct = inv.distinct;
      known = update-all (Knows s.outbox s.broker.deliveries) s.phase w (calling e) inv.known told;
      backed = inv.backed;
    }
Step-Inv {s} (answering mode w e h) inv =
    be_answered-Inv mode w e s (subst (Knows s.outbox s.broker.deliveries) h (inv.known w)) inv
Step-Inv {s} (finishing now w e h) inv =
    let n : Knows s.outbox s.broker.deliveries (delivered e) =
      subst (Knows s.outbox s.broker.deliveries) h (inv.known w) in
    changed e.id w (published_row now w) idle s (published_row-event now w)
      (λ q p.
        subst (λ x. is_delivered x s.broker.deliveries ≡ true)
          (published_row-names now w e.public_id q (lookup e.id s.outbox) n.0 p) n.1)
      tt inv
Step-Inv {s} (losing_mark w e h) inv =
    let n : Knows s.outbox s.broker.deliveries (delivered e) =
      subst (Knows s.outbox s.broker.deliveries) h (inv.known w) in
    moved w (thrown e) s n.0 inv
Step-Inv {s} (giving_back w e h) inv =
    changed e.id w (failed_row w) idle s (failed_row-event w)
      (λ q p. inv.backed e.id q (failed_row-names w q (lookup e.id s.outbox) p)) tt inv
Step-Inv {s} (stopping w) inv = moved w idle s tt inv

Steps-Inv : {s t : System} → Steps s t → Inv s → Inv t
Steps-Inv start inv = inv
Steps-Inv (after_step before step) inv = Step-Inv step (Steps-Inv before inv)

-- No worker is at work and nothing is published yet: what a seeded table is.
pub record Seeded (s : System) : Type 0 where
  pub apart : Distinct s.outbox
  pub unpublished : (id : ℕ) → published_id (lookup id s.outbox) ≡ none
  pub all_idle : (w : ℕ) → s.phase w ≡ idle

Seeded-Inv : (s : System) → Seeded s → Inv s
Seeded-Inv s h = record {
  distinct = h.apart;
  known = λ w. subst (Knows s.outbox s.broker.deliveries) (sym (h.all_idle w)) tt;
  backed = λ id p e. cc (h.unpublished id, e);
}

-- From a table without published rows, and workers that do nothing yet: however the steps of
-- claims, broker calls, marks, failed marks and crashes of any number of workers come between each
-- other, the broker has received every event whose row says that it is published.
pub published_was_delivered :
    {s t : System}
    → Seeded s
    → Steps s t
    → (id p : ℕ) → published_id (lookup id t.outbox) ≡ some p
    → is_delivered p t.broker.deliveries ≡ true
published_was_delivered {s} seeded steps = (Steps-Inv steps (Seeded-Inv s seeded)).backed
