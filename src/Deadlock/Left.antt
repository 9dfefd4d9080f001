-- ===== src/Deadlock/Left.antt =====
-- The statements that the legs have left, and who keeps a leg waiting:
-- labs/32-deadlocks-and-lock-debugging/src/lib/transfer.ts.
use systems_engineering_lab.Prelude.{
  ℕ, ◌+◌, ◌≤◌, ◌≡◌, refl, Bool, true, false, not, ◌&&◌, some, [], ◌∷◌, arith, ◌==◌, Bool-cases, inl,
  inr, max, ==_refl,
}
use systems_engineering_lab.Prelude.Table.{Table, lookup, modify, Distinct}
use systems_engineering_lab.Deadlock.{
  deadlock_aborted, committed, failed, Phase, begun, at_barrier, first_locked, both_locked, ended,
  Leg, holds, held_by_other, with_phase,
}
use systems_engineering_lab.Deadlock.Exclusive.{Each}

abbrev pub is_ended : Phase → Bool
is_ended begun = false
is_ended at_barrier = false
is_ended first_locked = false
is_ended both_locked = false
is_ended (ended status) = true

abbrev pub all_ended : Table Leg → Bool
all_ended [] = true
all_ended ((k, l) ∷ t) = is_ended l.phase && all_ended t

-- The statements that an attempt has left.
abbrev pub left : Phase → ℕ
left begun = 4
left at_barrier = 3
left first_locked = 2
left both_locked = 1
left (ended status) = 0

abbrev pub all_left : Table Leg → ℕ
all_left [] = 0
all_left ((k, l) ∷ t) = left l.phase + all_left t

pub modify-all_left :
    (k : ℕ) (p : Phase) (l : Leg) (t : Table Leg)
    → lookup k t ≡ some l
    → all_left (modify k (with_phase p) t) + left l.phase ≡ all_left t + left p
modify-all_left k p l [] e = cc
modify-all_left k p l ((j, m) ∷ t) e = ground (arith, e, modify-all_left k p l t)

-- The highest second lock.
abbrev pub highest : Table Leg → ℕ
highest [] = 0
highest ((k, l) ∷ t) = max l.plan.second_lock_id (highest t)

pub lookup-highest : (t : Table Leg) → Each (λ l. l.plan.second_lock_id ≤ highest t) t
lookup-highest [] k l e = cc
lookup-highest ((j, m) ∷ t) k l e = ground (arith, e, lookup-highest t k l)

pub not_ended :
    (t : Table Leg)
    → Distinct t
    → all_ended t ≡ false
    → (k : ℕ) × (l : Leg) × (lookup k t ≡ some l) × (is_ended l.phase ≡ false)
not_ended [] d h = cc
not_ended ((j, m) ∷ t) d h = elim (Bool-cases (is_ended m.phase)) [
  | inr open_leg ↦ (j, m, rw (==_refl j) refl, open_leg)
  | inl done ↦
      let (k, l, e, u) = not_ended t d.1 (ground (arith, done, h)) in
      (k, l, ground (arith, e, d.0), u)
]

-- Who keeps a leg waiting.
pub blocker :
    (k id : ℕ) (t : Table Leg)
    → Distinct t
    → held_by_other k id t ≡ true
    → (b : ℕ) × (l : Leg) × (lookup b t ≡ some l) × ((b == k) ≡ false) × (holds id l ≡ true)
blocker k id [] d h = cc
blocker k id ((j, m) ∷ t) d h = elim (Bool-cases (not (j == k) && holds id m)) [
  | inl here ↦ (j, m, rw (==_refl j) refl, ground (arith, here), ground (arith, here))
  | inr there ↦
      let (b, l, e, n, r) = blocker k id t d.1 (ground (arith, there, h)) in
      (b, l, ground (arith, e, d.0), n, r)
]

-- The leg has no barrier and has not been a victim.
abbrev pub is_good : Phase → Bool
is_good begun = true
is_good at_barrier = false
is_good first_locked = true
is_good both_locked = true
is_good (ended committed) = true
is_good (ended deadlock_aborted) = false
is_good (ended failed) = true

abbrev pub Good : Leg → Type 0
Good l = (l.has_rendezvous ≡ false) × (is_good l.phase ≡ true)
