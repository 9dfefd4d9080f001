-- ===== src/Deadlock/Ended.antt =====
-- Legs that lock the lower account first end: labs/32-deadlocks-and-lock-debugging/src/lib/transfer.ts
-- and scenarios/consistent-lock-ordering.ts.
use systems_engineering_lab.Prelude.{
  ℕ, ◌+◌, ◌*◌, ◌≤◌, ◌<◌, ◌≡◌, ◌⊎◌, [], ◌∷◌, length, refl, Bool, true, false, Option, none, some,
  arith, Bool-cases, inl, inr,
}
use systems_engineering_lab.Prelude.Table.{Table, modify}
use systems_engineering_lab.Deadlock.{
  consistent_lock_order, deadlock_aborted, committed, failed, Phase, begun, at_barrier,
  first_locked, both_locked, ended, Leg, System, with_phase, apply_transfer,
}
use systems_engineering_lab.Deadlock.Steps.{
  settle, Step, locking_first, meeting, locking_second, finishing, aborting, Steps, start,
  after_step,
}
use systems_engineering_lab.Deadlock.Exclusive.{Inv, Each, modify-Each}
use systems_engineering_lab.Deadlock.Ordered.{
  LowerFirst, no_cycle, Started, Started-Inv, Steps-Inv, Steps-LowerFirst, Started-LowerFirst,
}
use systems_engineering_lab.Deadlock.Left.{
  all_ended, left, all_left, modify-all_left, is_good, Good,
}
use systems_engineering_lab.Deadlock.Progress.{finish-left, goes_on}

modify-Good :
    (k : ℕ) (p : Phase) (t : Table Leg)
    → is_good p ≡ true
    → Each Good t
    → Each Good (modify k (with_phase p) t)
modify-Good k p t g h = modify-Each Good k p t (λ l e q. (q.0, g)) h

settle-Good :
    (k : ℕ) (s : System) (o : Option (Table ℕ)) → Each Good s.legs → Each Good (settle k o s).legs
settle-Good k s none h = modify-Good k (ended failed) s.legs refl h
settle-Good k s (some t) h = modify-Good k (ended committed) s.legs refl h

Step-Good :
    {s t : System} → Step s t → Inv s → LowerFirst s.legs → Each Good s.legs → Each Good t.legs
unfolding apply_transfer
Step-Good {s} (locking_first k l e b u) inv lower h =
    rw (h k l e).0 (modify-Good k first_locked s.legs refl h)
Step-Good {s} (meeting k l e b c) inv lower h = modify-Good k first_locked s.legs refl h
Step-Good {s} (locking_second k l e b u) inv lower h = modify-Good k both_locked s.legs refl h
Step-Good {s} (finishing k l e b) inv lower h = settle-Good k s (apply_transfer l.plan s.accounts) h
Step-Good {s} (aborting k c) inv lower h = absurd (no_cycle s inv lower c)

abbrev pub is_victim : Phase → Bool
is_victim begun = false
is_victim at_barrier = false
is_victim first_locked = false
is_victim both_locked = false
is_victim (ended committed) = false
is_victim (ended deadlock_aborted) = true
is_victim (ended failed) = false

good_is_no_victim : (p : Phase) → is_good p ≡ true → is_victim p ≡ false
good_is_no_victim begun g = refl
good_is_no_victim at_barrier g = refl
good_is_no_victim first_locked g = refl
good_is_no_victim both_locked g = refl
good_is_no_victim (ended committed) g = refl
good_is_no_victim (ended deadlock_aborted) g = cc
good_is_no_victim (ended failed) g = refl

Steps-Good :
    {s t : System} → Steps s t → Inv s → LowerFirst s.legs → Each Good s.legs → Each Good t.legs
Steps-Good start inv lower h = h
Steps-Good (after_step before step) inv lower h =
    Step-Good step (Steps-Inv before inv) (Steps-LowerFirst before lower)
      (Steps-Good before inv lower h)

-- How many steps there are.
abbrev pub count : {s t : System} → Steps s t → ℕ
count start = 0
count (after_step before step) = count before + 1

-- Each step takes one of the statements that are left.
Step-all_left :
    {s t : System}
    → Step s t
    → Inv s
    → LowerFirst s.legs
    → Each Good s.legs
    → all_left t.legs < all_left s.legs
unfolding apply_transfer
Step-all_left {s} (locking_first k l e b u) inv lower good =
    rw (good k l e).0 (ground (arith, b, modify-all_left k first_locked l s.legs e))
Step-all_left {s} (meeting k l e b c) inv lower good = absurd (ground (arith, b, (good k l e).1))
Step-all_left {s} (locking_second k l e b u) inv lower good =
    ground (arith, b, modify-all_left k both_locked l s.legs e)
Step-all_left {s} (finishing k l e b) inv lower good =
    finish-left k l s (apply_transfer l.plan s.accounts) e b
Step-all_left {s} (aborting k c) inv lower good = absurd (no_cycle s inv lower c)

Steps-all_left :
    {s t : System} (steps : Steps s t)
    → Inv s
    → LowerFirst s.legs
    → Each Good s.legs
    → count steps + all_left t.legs ≤ all_left s.legs
Steps-all_left start inv lower good = omega arith
Steps-all_left (after_step before step) inv lower good = omega (
  arith,
  Steps-all_left before inv lower good,
  Step-all_left step (Steps-Inv before inv) (Steps-LowerFirst before lower)
      (Steps-Good before inv lower good),
)

left-le : (p : Phase) → left p ≤ 4
left-le begun = omega arith
left-le at_barrier = omega arith
left-le first_locked = omega arith
left-le both_locked = omega arith
left-le (ended status) = omega arith

all_left-length : (t : Table Leg) → all_left t ≤ 4 * length t
all_left-length [] = omega arith
all_left-length ((k, l) ∷ t) = omega (arith, left-le l.phase, all_left-length t)

ended_or_next :
    (s : System)
    → Inv s
    → LowerFirst s.legs
    → Each Good s.legs
    → (all_ended s.legs ≡ true) ⊎ ((t : System) × Step s t)
ended_or_next s inv lower good = elim (Bool-cases (all_ended s.legs)) [
  | inl done ↦ inl done
  | inr open_legs ↦ let (t, step, less) = goes_on s inv lower good open_legs in inr (t, step)
]

-- Any number of transfers without a barrier that each lock the lower of their accounts first, from
-- where none has begun and in any order of their statements: no run of them has more steps than four
-- for each transfer; a run after which no step is possible has ended them all; and none is ever the
-- victim of a deadlock.
pub consistent_order_ends :
    {s t : System}
    → Started consistent_lock_order s
    → Each (λ l. l.has_rendezvous ≡ false) s.legs
    → (steps : Steps s t)
    → (count steps ≤ 4 * length s.legs)
      × ((all_ended t.legs ≡ true) ⊎ ((u : System) × Step t u))
      × Each (λ l. is_victim l.phase ≡ false) t.legs
consistent_order_ends {s} {t} h alone steps =
    let inv = Started-Inv consistent_lock_order s h in
    let lower = Started-LowerFirst s h in
    let good : Each Good s.legs = λ k l e. (alone k l e, ground (arith, h.new k l e)) in
    let good_then = Steps-Good steps inv lower good in
    (
      omega (arith, Steps-all_left steps inv lower good, all_left-length s.legs),
      ended_or_next t (Steps-Inv steps inv) (Steps-LowerFirst steps lower) good_then,
      λ k l e. good_is_no_victim l.phase (good_then k l e).1,
    )
