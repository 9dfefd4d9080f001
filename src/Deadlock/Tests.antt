-- ===== src/Deadlock/Tests.antt =====
-- Two accounts with 1000 each, 300 one way and 500 the other.
use systems_engineering_lab.Prelude.{
  ℕ, true, ◌*◌, ◌≤◌, ◌⊎◌, length, ◌≡◌, refl, false, [], ◌∷◌, arith, ◌==◌, inl, inr, if◌then◌else◌,
}
use systems_engineering_lab.Prelude.Table.{Table}
use systems_engineering_lab.Deadlock.{
  consistent_lock_order, plan_leg, first_locked, both_locked, Leg, System, with_phase,
  apply_transfer,
}
use systems_engineering_lab.Deadlock.Steps.{
  Step, Chain, to_phase, take_first, finish, locking_first, locking_second, finishing, Steps, start,
  after_step,
}
use systems_engineering_lab.Deadlock.Exclusive.{Each}
use systems_engineering_lab.Deadlock.Ordered.{Started, consistent_order_has_no_cycle}
use systems_engineering_lab.Deadlock.Ended.{is_victim, count, consistent_order_ends}
use systems_engineering_lab.Deadlock.Left.{all_ended}
use systems_engineering_lab.Deadlock.Money.{total, AccountsThere, transfers_keep_total}
use systems_engineering_lab.Deadlock.Naive.{new_leg, opposite_legs}
use systems_engineering_lab.Deadlock.Barrier.{pair_lookup, opposite_legs-Started}
use systems_engineering_lab.Deadlock.Retries.{
  returned, pg_error, deadlock_detected, IsRun, run_leg_with_retry, run_leg_with_retry-IsRun,
}

abbrev two_accounts : Table ℕ
two_accounts = (1, 1000) ∷ (2, 1000) ∷ []

abbrev both_legs : System
unfolding opposite_legs
both_legs = opposite_legs consistent_lock_order false 1 2 300 500 two_accounts

no_barrier : Each (λ l. l.has_rendezvous ≡ false) both_legs.legs
unfolding opposite_legs plan_leg both_legs
no_barrier k l e =
    elim (pair_lookup k (new_leg false (plan_leg consistent_lock_order 1 2 300))
      (new_leg false (plan_leg consistent_lock_order 2 1 500)) l e) [
        | inl (k0, here) ↦ rw here refl
        | inr (k1, here) ↦ rw here refl
      ]

accounts_there : AccountsThere both_legs.legs both_legs.accounts
unfolding opposite_legs plan_leg both_legs
accounts_there k l e =
    elim (pair_lookup k (new_leg false (plan_leg consistent_lock_order 1 2 300))
      (new_leg false (plan_leg consistent_lock_order 2 1 500)) l e) [
        | inl (k0, here) ↦ rw here (refl, refl)
        | inr (k1, here) ↦ rw here (refl, refl)
      ]

legs-Started : Started consistent_lock_order both_legs
unfolding both_legs
legs-Started = opposite_legs-Started false 1 2 300 500 two_accounts

consistent_order_has_no_cycle_example : ¬ Chain both_legs 0 0
unfolding both_legs
consistent_order_has_no_cycle_example =
    consistent_order_has_no_cycle (opposite_legs-Started false 1 2 300 500 two_accounts) start 0

run_leg_with_retry-IsRun_example :
    IsRun
      (λ n. if n == 1 then pg_error deadlock_detected else returned)
      5
      1
      (run_leg_with_retry (λ n. if n == 1 then pg_error deadlock_detected else returned) 5)
run_leg_with_retry-IsRun_example =
    run_leg_with_retry-IsRun (λ n. if n == 1 then pg_error deadlock_detected else returned) 5
      (omega arith)

abbrev leg_of : Leg
unfolding plan_leg
leg_of = new_leg false (plan_leg consistent_lock_order 1 2 300)

abbrev locked : System
unfolding both_legs leg_of opposite_legs plan_leg
locked = to_phase 0 both_locked (take_first 0 leg_of both_legs)

abbrev transferred : System
unfolding locked leg_of apply_transfer
transferred = finish 0 (with_phase both_locked leg_of) locked

one_leg : Steps both_legs transferred
unfolding both_legs opposite_legs plan_leg leg_of locked transferred apply_transfer
one_leg =
    after_step
      (after_step (after_step start (locking_first 0 leg_of refl refl refl))
        (locking_second 0 (with_phase first_locked leg_of) refl refl refl))
      (finishing 0 (with_phase both_locked leg_of) refl refl)

moved_money : transferred.accounts ≡ (1, 700) ∷ (2, 1300) ∷ []
unfolding both_legs opposite_legs plan_leg leg_of locked transferred apply_transfer
moved_money = refl

transfers_keep_total_example : total transferred.accounts ≡ total both_legs.accounts
transfers_keep_total_example = transfers_keep_total accounts_there one_leg

consistent_order_ends_example :
    (count one_leg ≤ 4 * length both_legs.legs)
    × ((all_ended transferred.legs ≡ true) ⊎ ((u : System) × Step transferred u))
    × Each (λ l. is_victim l.phase ≡ false) transferred.legs
consistent_order_ends_example = consistent_order_ends legs-Started no_barrier one_leg
