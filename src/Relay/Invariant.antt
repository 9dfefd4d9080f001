-- ===== src/Relay/Invariant.antt =====
-- What the workers of labs/17-outbox-workers-skip-locked know of the table and of the broker.
use systems_engineering_lab.Prelude.{
  ℕ, ◌≡◌, true, some, List, [], ◌∷◌, ◌++◌, arith, ◌==◌, Bool-cases, inl, inr,
}
use systems_engineering_lab.Prelude.Table.{
  Table, lookup, modify, lookup-modify, Distinct, modify-Distinct, map_some,
}
use systems_engineering_lab.Relay.{OutboxRow, BrokerEvent}
use systems_engineering_lab.Relay.Broker.{is_delivered}
use systems_engineering_lab.Relay.Steps.{
  Phase, idle, claimed, calling, delivered, thrown, System, update,
}
use systems_engineering_lab.Relay.Kept.{Tells, published_id, modify-Tells}

-- What a worker knows of the table and of the broker.
abbrev pub Knows : Table OutboxRow → List BrokerEvent → Phase → Type 0
Knows t ds idle = Unit
Knows t ds (claimed e) = Tells e.public_id (lookup e.id t)
Knows t ds (calling e) = Tells e.public_id (lookup e.id t)
Knows t ds (delivered e) = Tells e.public_id (lookup e.id t) × (is_delivered e.public_id ds ≡ true)
Knows t ds (thrown e) = Tells e.public_id (lookup e.id t)

abbrev pub Backed : Table OutboxRow → List BrokerEvent → Type 0
Backed t ds = (id p : ℕ) → published_id (lookup id t) ≡ some p → is_delivered p ds ≡ true

pub record Inv (s : System) : Type 0 where
  pub distinct : Distinct s.outbox
  pub known : (w : ℕ) → Knows s.outbox s.broker.deliveries (s.phase w)
  pub backed : Backed s.outbox s.broker.deliveries

pub update-all :
    (P : Phase → Type 0) (f : ℕ → Phase) (w : ℕ) (p : Phase)
    → ((v : ℕ) → P (f v))
    → P p
    → (v : ℕ) → P (update f w p v)
update-all P f w p old new v = elim (Bool-cases (v == w)) [
  | inl here ↦ rw here new
  | inr there ↦ rw there (old v)
]

pub modify-Knows :
    (k : ℕ) (f : OutboxRow → OutboxRow) (t : Table OutboxRow) (ds : List BrokerEvent) (p : Phase)
    → ((r : OutboxRow) → (f r).public_id ≡ r.public_id)
    → Knows t ds p
    → Knows (modify k f t) ds p
modify-Knows k f t ds idle h n = tt
modify-Knows k f t ds (claimed e) h n = modify-Tells k e.id e.public_id f t h n
modify-Knows k f t ds (calling e) h n = modify-Tells k e.id e.public_id f t h n
modify-Knows k f t ds (delivered e) h n = (modify-Tells k e.id e.public_id f t h n.0, n.1)
modify-Knows k f t ds (thrown e) h n = modify-Tells k e.id e.public_id f t h n

pub delivered_more :
    (p : ℕ) (ds : List BrokerEvent) (e : BrokerEvent)
    → is_delivered p ds ≡ true
    → is_delivered p (ds ++ e ∷ []) ≡ true
delivered_more p [] e h = cc
delivered_more p (d ∷ ds) e h = ground (arith, delivered_more p ds e)

pub delivered_last :
    (ds : List BrokerEvent) (e : BrokerEvent) → is_delivered e.public_id (ds ++ e ∷ []) ≡ true
delivered_last [] e = ground arith
delivered_last (d ∷ ds) e = ground (arith, delivered_last ds e)

pub more-Knows :
    (t : Table OutboxRow) (ds : List BrokerEvent) (e : BrokerEvent) (p : Phase)
    → Knows t ds p
    → Knows t (ds ++ e ∷ []) p
more-Knows t ds e idle n = tt
more-Knows t ds e (claimed c) n = n
more-Knows t ds e (calling c) n = n
more-Knows t ds e (delivered c) n = (n.0, delivered_more c.public_id ds e n.1)
more-Knows t ds e (thrown c) n = n

-- A statement on one row that publishes nothing unbacked.
pub changed :
    (k w : ℕ) (f : OutboxRow → OutboxRow) (p : Phase) (s : System)
    → ((r : OutboxRow) → (f r).public_id ≡ r.public_id)
    → ((q : ℕ)
        → published_id (map_some f (lookup k s.outbox)) ≡ some q
        → is_delivered q s.broker.deliveries ≡ true)
    → Knows (modify k f s.outbox) s.broker.deliveries p
    → Inv s
    → Inv (record s { outbox = modify k f s.outbox; phase = update s.phase w p })
changed k w f p s same backs new inv = record {
  distinct = modify-Distinct k f s.outbox inv.distinct;
  known =
      update-all (Knows (modify k f s.outbox) s.broker.deliveries) s.phase w p
        (λ v. modify-Knows k f s.outbox s.broker.deliveries (s.phase v) same (inv.known v)) new;
  backed = λ id q h. elim (Bool-cases (k == id)) [
    | inl here ↦ backs q (ground (arith, here, h, lookup-modify k id f s.outbox))
    | inr there ↦ inv.backed id q (ground (arith, there, h, lookup-modify k id f s.outbox))
  ];
}

-- A step of one worker that leaves the table and the deliveries.
pub moved :
    (w : ℕ) (p : Phase) (s : System)
    → Knows s.outbox s.broker.deliveries p
    → Inv s
    → Inv (record s { phase = update s.phase w p })
moved w p s new inv = record {
  distinct = inv.distinct;
  known = update-all (Knows s.outbox s.broker.deliveries) s.phase w p inv.known new;
  backed = inv.backed;
}
