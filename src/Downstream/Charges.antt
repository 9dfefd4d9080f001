-- ===== src/Downstream/Charges.antt =====
-- The idempotency keys of `charge`.
use text.Mathlib.TextEquality.{eq_iff}
use Prim.Native.String.{String}
use systems_engineering_lab.Prelude.{
  ℕ, ◌+◌, ◌≡◌, ◌≢◌, Option, none, some, List, [], ◌∷◌, arith, length,
}
use systems_engineering_lab.Downstream.{
  UnreliableDownstream, ChargeResult, truthy, get, charge, unique_charge_count,
}

-- A second charge under a key that is not empty has no effect on the ledger, whatever amount it
-- names and whenever it comes: it returns the first result, and the total, the number of charges
-- and the keys stay as the first charge left them.
pub charge_again :
    (t u amount other : ℕ) (k : String) (d : UnreliableDownstream)
    → truthy (some k) ≡ some k
    → let (first, _, d') = charge t amount (some k) d in
      let (second, _, d'') = charge u other (some k) d' in
      (second ≡ first)
      × (d''.ledger_total_cents ≡ d'.ledger_total_cents)
      × (d''.charge_counter ≡ d'.charge_counter)
      × (d''.applied_charges ≡ d'.applied_charges)
unfolding charge
charge_again t u amount other k d e = ground (arith, eq_iff k k)

-- Requests one after another, each at its time, with its amount and its key.
pub charge_all : List (ℕ × ℕ × Option String) → UnreliableDownstream → UnreliableDownstream
charge_all [] d = d
charge_all ((at, amount, key) ∷ rs) d =
    let (result, latency, d') = charge at amount key d in charge_all rs d'

-- The amounts of the keyed charges.
abbrev pub total : List (String × ChargeResult) → ℕ
total [] = 0
total ((k, c) ∷ cs) = c.amount_cents + total cs

abbrev pub DistinctKeys : List (String × ChargeResult) → Type 0
DistinctKeys [] = Unit
DistinctKeys ((k, c) ∷ cs) = (get k cs ≡ none) × DistinctKeys cs

abbrev pub Keyed : List (ℕ × ℕ × Option String) → Type 0
Keyed [] = Unit
Keyed ((at, amount, key) ∷ rs) = (truthy key ≢ none) × Keyed rs

pub record Inv (d : UnreliableDownstream) : Type 0 where
  pub once : d.charge_counter ≡ unique_charge_count d
  pub charged : d.ledger_total_cents ≡ total d.applied_charges
  pub distinct : DistinctKeys d.applied_charges

abbrev pub Unkeyed : List (ℕ × ℕ × Option String) → Type 0
Unkeyed [] = Unit
Unkeyed ((at, amount, key) ∷ rs) = (truthy key ≡ none) × Unkeyed rs

abbrev pub amounts : List (ℕ × ℕ × Option String) → ℕ
amounts [] = 0
amounts ((at, amount, key) ∷ rs) = amount + amounts rs

charge_unkeyed :
    (at amount : ℕ) (key : Option String) (d : UnreliableDownstream)
    → truthy key ≡ none
    → let (result, latency, d') = charge at amount key d in
      (d'.charge_counter ≡ d.charge_counter + 1)
      × (d'.ledger_total_cents ≡ d.ledger_total_cents + amount)
unfolding charge
charge_unkeyed at amount key d h = ground arith

-- Requests without a key, or with an empty one, are each charged: every request, a retry like any
-- other, adds its amount to the total and one to the number of charges.
pub charged_each_time :
    (rs : List (ℕ × ℕ × Option String)) (d : UnreliableDownstream)
    → Unkeyed rs
    → ((charge_all rs d).charge_counter ≡ d.charge_counter + length rs)
      × ((charge_all rs d).ledger_total_cents ≡ d.ledger_total_cents + amounts rs)
unfolding charge_all
charged_each_time [] d h = (omega arith, omega arith)
charged_each_time ((at, amount, key) ∷ rs) d h =
    let (a, b) = charged_each_time rs (charge at amount key d).2 h.1 in
    let (c, e) = charge_unkeyed at amount key d h.0 in (omega arith, omega arith)
