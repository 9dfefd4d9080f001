-- ===== src/Cache/Stampede.antt =====
-- How many calls reach the database: labs/21-cache-aside-and-cache-stampede/src/cache/request-coalescing.ts.
use systems_engineering_lab.Prelude.{
  ℕ, ◌+◌, ◌≤◌, ◌≡◌, refl, Bool, true, false, Option, none, some, [], ◌∷◌, arith, ◌==◌, Bool-cases,
  inl, inr, ap,
}
use systems_engineering_lab.Prelude.Table.{Table, lookup, modify}
use systems_engineering_lab.Cache.{
  Phase, reading, fetching, writing, resolved, thrown, CoalescingCache, joined, get_product,
  goes_on, settles, Reply, reply, failure, got, fetched, stored, after_get_in, after_get,
  after_fetch_in, after_fetch, after_set_in, after_set,
}
use systems_engineering_lab.Cache.Steps.{
  Step, calling, getting, fetching_ends, setting, key_changes, Reach, start, after_step,
}

abbrev pub total : (Phase → ℕ) → Table Phase → ℕ
total w [] = 0
total w ((p, x) ∷ t) = w x + total w t

-- A promise that has not settled.
abbrev pub unsettled : Phase → ℕ
unsettled reading = 1
unsettled fetching = 1
unsettled (writing product) = 1
unsettled (resolved product) = 0
unsettled thrown = 0

abbrev pub settled : Phase → ℕ
settled reading = 0
settled fetching = 0
settled (writing product) = 0
settled (resolved product) = 1
settled thrown = 1

-- A promise that awaits the database.
abbrev pub asking : Phase → ℕ
asking reading = 0
asking fetching = 1
asking (writing product) = 0
asking (resolved product) = 0
asking thrown = 0

-- A promise that is past its reading.
abbrev past : Phase → ℕ
past reading = 0
past fetching = 1
past (writing product) = 1
past (resolved product) = 1
past thrown = 1

abbrev flag : Option ℕ → ℕ
flag none = 0
flag (some p) = 1

record Inv (c : CoalescingCache) : Type 0 where
  one_open : total unsettled c.promises ≡ flag c.in_flight
  calls : c.call_count ≤ total past c.promises

total-modify :
    (w : Phase → ℕ) (p : ℕ) (x y : Phase) (t : Table Phase)
    → lookup p t ≡ some x
    → total w (modify p (λ z. y) t) + w x ≡ total w t + w y
total-modify w p x y [] e = cc
total-modify w p x y ((j, z) ∷ t) e = elim (Bool-cases (j == p)) [
  | inl here ↦ ground (arith, e)
  | inr there ↦ ground (arith, total-modify w p x y t, e)
]

flag-le : (o : Option ℕ) → flag o ≤ 1
flag-le none = omega arith
flag-le (some p) = omega arith

module _ (p : ℕ) (c : CoalescingCache) (inv : Inv c) where
  -- A promise that goes on, and one that settles.
  goes_on-Inv :
      (x y : Phase)
      → lookup p c.promises ≡ some x
      → unsettled x ≡ 1
      → unsettled y ≡ 1
      → (extra : ℕ) → past x + extra ≤ past y
      → Inv (record (goes_on p y c) { call_count = c.call_count + extra })
  goes_on-Inv x y e a b extra k = record {
    one_open = omega (arith, inv.one_open, total-modify unsettled p x y c.promises e, a, b);
    calls = omega (arith, inv.calls, total-modify past p x y c.promises e, k);
  }

  settles-Inv :
      (x y : Phase)
      → lookup p c.promises ≡ some x
      → unsettled x ≡ 1
      → unsettled y ≡ 0
      → past y ≡ 1
      → past x ≤ 1
      → Inv (settles p y c)
  settles-Inv x y e a b h k = record {
    one_open =
        omega (
          arith,
          inv.one_open,
          total-modify unsettled p x y c.promises e,
          a,
          b,
          flag-le c.in_flight,
        );
    calls = omega (arith, inv.calls, total-modify past p x y c.promises e, h, k);
  }

  cached-Inv : (value : Option ℕ) → Inv (record c { cached = value })
  cached-Inv value = record { one_open = inv.one_open; calls = inv.calls }

  got-Inv : (r : Reply) → lookup p c.promises ≡ some reading → Inv (got p r c)
  got-Inv failure e = settles-Inv reading thrown e refl refl refl (omega arith)
  got-Inv (reply (some v)) e = settles-Inv reading (resolved v) e refl refl refl (omega arith)
  got-Inv (reply none) e = goes_on-Inv reading fetching e refl refl 1 (omega arith)

  writing-Inv : (v : ℕ) → lookup p c.promises ≡ some fetching → Inv (goes_on p (writing v) c)
  writing-Inv v e = record {
    one_open =
        omega (arith, inv.one_open, total-modify unsettled p fetching (writing v) c.promises e);
    calls = omega (arith, inv.calls, total-modify past p fetching (writing v) c.promises e);
  }

  fetched-Inv :
      (product : Option ℕ) → lookup p c.promises ≡ some fetching → Inv (fetched p product c)
  fetched-Inv none e = settles-Inv fetching thrown e refl refl refl (omega arith)
  fetched-Inv (some v) e = writing-Inv v e

  stored-Inv :
      (v : ℕ) (replies : Bool) → lookup p c.promises ≡ some (writing v) → Inv (stored p v replies c)
  stored-Inv v true e =
      let i = settles-Inv (writing v) (resolved v) e refl refl refl (omega arith) in
      record { one_open = i.one_open; calls = i.calls }
  stored-Inv v false e = settles-Inv (writing v) thrown e refl refl refl (omega arith)

  after_get_in-Inv :
      (r : Reply) (o : Option Phase) → lookup p c.promises ≡ o → Inv (after_get_in p r c o)
  after_get_in-Inv r none e = inv
  after_get_in-Inv r (some reading) e = got-Inv r e
  after_get_in-Inv r (some fetching) e = inv
  after_get_in-Inv r (some (writing v)) e = inv
  after_get_in-Inv r (some (resolved v)) e = inv
  after_get_in-Inv r (some thrown) e = inv

  after_fetch_in-Inv :
      (product : Option ℕ) (o : Option Phase)
      → lookup p c.promises ≡ o
      → Inv (after_fetch_in p product c o)
  after_fetch_in-Inv product none e = inv
  after_fetch_in-Inv product (some reading) e = inv
  after_fetch_in-Inv product (some fetching) e = fetched-Inv product e
  after_fetch_in-Inv product (some (writing v)) e = inv
  after_fetch_in-Inv product (some (resolved v)) e = inv
  after_fetch_in-Inv product (some thrown) e = inv

  after_set_in-Inv :
      (replies : Bool) (o : Option Phase)
      → lookup p c.promises ≡ o
      → Inv (after_set_in p replies c o)
  after_set_in-Inv replies none e = inv
  after_set_in-Inv replies (some reading) e = inv
  after_set_in-Inv replies (some fetching) e = inv
  after_set_in-Inv replies (some (writing v)) e = stored-Inv v replies e
  after_set_in-Inv replies (some (resolved v)) e = inv
  after_set_in-Inv replies (some thrown) e = inv

joined-Inv : (c : CoalescingCache) (o : Option ℕ) → c.in_flight ≡ o → Inv c → Inv (joined o c).1
joined-Inv c none e inv = record {
  one_open = omega (arith, inv.one_open, ap flag e);
  calls = omega (arith, inv.calls);
}
joined-Inv c (some p) e inv = inv

Step-Inv : {c d : CoalescingCache} → Step c d → Inv c → Inv d
unfolding get_product after_get after_fetch after_set
Step-Inv {c} calling inv = joined-Inv c c.in_flight refl inv
Step-Inv {c} (getting p replies) inv = after_get_in-Inv p c inv _ (lookup p c.promises) refl
Step-Inv {c} (fetching_ends p product) inv =
    after_fetch_in-Inv p c inv product (lookup p c.promises) refl
Step-Inv {c} (setting p replies) inv = after_set_in-Inv p c inv replies (lookup p c.promises) refl
Step-Inv {c} (key_changes value) inv = cached-Inv 0 c inv value

Reach-Inv : {c : CoalescingCache} → Reach c → Inv c
Reach-Inv start = record { one_open = refl; calls = omega arith }
Reach-Inv (after_step before step) = Step-Inv step (Reach-Inv before)

asking-le : (t : Table Phase) → total asking t ≤ total unsettled t
asking-le [] = omega arith
asking-le ((p, reading) ∷ t) = omega (arith, asking-le t)
asking-le ((p, fetching) ∷ t) = omega (arith, asking-le t)
asking-le ((p, writing v) ∷ t) = omega (arith, asking-le t)
asking-le ((p, resolved v) ∷ t) = omega (arith, asking-le t)
asking-le ((p, thrown) ∷ t) = omega (arith, asking-le t)

past-le : (t : Table Phase) → total past t ≤ total settled t + total unsettled t
past-le [] = omega arith
past-le ((p, reading) ∷ t) = omega (arith, past-le t)
past-le ((p, fetching) ∷ t) = omega (arith, past-le t)
past-le ((p, writing v) ∷ t) = omega (arith, past-le t)
past-le ((p, resolved v) ∷ t) = omega (arith, past-le t)
past-le ((p, thrown) ∷ t) = omega (arith, past-le t)

-- However many callers there are, and in whatever order the replies come, the cache's key changes
-- and commands or queries fail: at most one query of the product is under way at a time, and there
-- have been at most as many queries as fetches that have settled, and one more. So callers that
-- come while none settles cost one query together.
pub Reach-one_query :
    {c : CoalescingCache}
    → Reach c
    → (total asking c.promises ≤ 1) × (c.call_count ≤ total settled c.promises + 1)
Reach-one_query {c} r =
    let inv = Reach-Inv r in
    (
      omega (arith, asking-le c.promises, inv.one_open, flag-le c.in_flight),
      omega (arith, past-le c.promises, inv.calls, inv.one_open, flag-le c.in_flight),
    )
