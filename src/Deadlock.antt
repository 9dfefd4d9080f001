-- ===== src/Deadlock.antt =====
-- labs/32-deadlocks-and-lock-debugging/src/lib/transfer.ts and sync.ts: the legs of transfers, the
-- rows that they lock, and the barrier of two of them.
pub mod Steps
pub mod Exclusive
pub mod Invariant
pub mod Ordered
pub mod Left
pub mod Progress
pub mod Ended
pub mod Money
pub mod Naive
pub mod Barrier
pub mod Retries
mod Tests
use systems_engineering_lab.Prelude.{
  ℕ, ◌+◌, ◌-◌, Bool, true, false, not, ◌&&◌, ◌||◌, Option, none, some, List, [], ◌∷◌, ◌==◌, ltb,
  leb, if◌then◌else◌, min, max,
}
use systems_engineering_lab.Prelude.Table.{Table, lookup, modify, has}

pub data LockOrderStrategy : Type 0 where
  naive_lock_order : LockOrderStrategy
  consistent_lock_order : LockOrderStrategy

pub record LegPlan : Type 0 where
  pub from_account_id : ℕ
  pub to_account_id : ℕ
  pub amount_cents : ℕ
  pub first_lock_id : ℕ
  pub second_lock_id : ℕ

unfoldable pub plan_leg : LockOrderStrategy → ℕ → ℕ → ℕ → LegPlan
plan_leg naive_lock_order from to amount = record {
  from_account_id = from;
  to_account_id = to;
  amount_cents = amount;
  first_lock_id = from;
  second_lock_id = to;
}
plan_leg consistent_lock_order from to amount = record {
  from_account_id = from;
  to_account_id = to;
  amount_cents = amount;
  first_lock_id = min from to;
  second_lock_id = max from to;
}

pub data Status : Type 0 where
  committed : Status
  deadlock_aborted : Status
  failed : Status

-- Where an attempt stands: it asks for its first lock, waits for its peer with it, asks for its
-- second lock, has both, or has ended.
pub data Phase : Type 0 where
  begun : Phase
  at_barrier : Phase
  first_locked : Phase
  both_locked : Phase
  ended : Status → Phase

pub record Leg : Type 0 where
  pub plan : LegPlan
  pub has_rendezvous : Bool
  pub phase : Phase

-- The transactions under way, the arrivals at their barrier, and the committed balances.
pub record System : Type 0 where
  pub legs : Table Leg
  pub calls : ℕ
  pub accounts : Table ℕ

abbrev pub holds_first : Phase → Bool
holds_first begun = false
holds_first at_barrier = true
holds_first first_locked = true
holds_first both_locked = true
holds_first (ended status) = false

abbrev pub holds_second : Phase → Bool
holds_second begun = false
holds_second at_barrier = false
holds_second first_locked = false
holds_second both_locked = true
holds_second (ended status) = false

-- The leg has the row lock of this account.
abbrev pub holds : ℕ → Leg → Bool
holds id l =
    (holds_first l.phase && (l.plan.first_lock_id == id))
    || (holds_second l.phase && (l.plan.second_lock_id == id))

abbrev pub held_by_other : ℕ → ℕ → Table Leg → Bool
held_by_other k id [] = false
held_by_other k id ((j, l) ∷ t) = (not (j == k) && holds id l) || held_by_other k id t

-- SELECT id FROM accounts WHERE id = $1 FOR UPDATE has to wait.
abbrev pub is_blocked : ℕ → ℕ → System → Bool
is_blocked k id s = has id s.accounts && held_by_other k id s.legs

-- The lock that the leg asks for.
abbrev pub wanted : Leg → Option ℕ
wanted l = of_phase l.phase
  where
    of_phase : Phase → Option ℕ
    of_phase begun = some l.plan.first_lock_id
    of_phase at_barrier = none
    of_phase first_locked = some l.plan.second_lock_id
    of_phase both_locked = none
    of_phase (ended status) = none

abbrev pub with_phase : Phase → Leg → Leg
with_phase p l = record l { phase = p }

abbrev pub max_int4 : ℕ
max_int4 = 2147483647

-- balance_cents = balance_cents - $1, of no row if there is none, with the check of the column
abbrev pub debited : ℕ → ℕ → Table ℕ → Option ℕ → Option (Table ℕ)
debited amount id t none = some t
debited amount id t (some balance) =
    if ltb balance amount then none else some (modify id (λ v. v - amount) t)

-- balance_cents = balance_cents + $1
abbrev pub credited : ℕ → ℕ → Table ℕ → Option ℕ → Option (Table ℕ)
credited amount id t none = some t
credited amount id t (some balance) =
    if ltb max_int4 (balance + amount) then none else some (modify id (λ v. v + amount) t)

abbrev pub after_debit : LegPlan → Option (Table ℕ) → Option (Table ℕ)
after_debit p none = none
after_debit p (some t) = credited p.amount_cents p.to_account_id t (lookup p.to_account_id t)

-- The two updates of an attempt; none if one of them throws.
unfoldable pub apply_transfer : LegPlan → Table ℕ → Option (Table ℕ)
apply_transfer p t =
    if ltb max_int4 p.amount_cents
    then none
    else after_debit p (debited p.amount_cents p.from_account_id t (lookup p.from_account_id t))
