-- ===== src/Lease/Tests.antt =====
-- Runs of the locks on a Redis in memory.
use systems_engineering_lab.Prelude.{◌≡◌, refl, some, List, [], ◌∷◌, true, arith, ℕ, ◌<◌}
use systems_engineering_lab.Lease.Redis.{Key, lock_key_for, fencing_counter_key_for}
use systems_engineering_lab.Lease.Locks.{acquire_lock, acquire_lock_with_fencing_token}
use systems_engineering_lab.Lease.Fencing.{
  ResourceStateRow, write_all, write_resource_state_fenced, reset_row, write_resource_state_naive,
  stale_write_refused,
}
use systems_engineering_lab.Lease.Exclusion.{Call, acquire, release, renew}
use systems_engineering_lab.Lease.Races.{paused_token_overtakes}
use systems_engineering_lab.Lease.Memory.{Store, empty, memory}

abbrev key : Key
key = lock_key_for 1

abbrev counter : Key
counter = fencing_counter_key_for 1

abbrev fresh : ResourceStateRow
fresh = record { fencing_token = 40; last_writer = some 3 }

-- A client with token 9 tries everything, on this key and on another.
abbrev rival : List (ℕ × Key × Call)
rival =
    (120, key, acquire 9 50)
    ∷ (130, key, release 9)
    ∷ (140, lock_key_for 2, acquire 9 50)
    ∷ (150, key, renew 9 500)
    ∷ []

abbrev same_store : Store → Store
same_store s = s

-- The second owner has token 2 and writes; the first, which paused after it had token 1, is refused.
stale_write_refused_example :
    let row' =
      write_all ((5, some 2) ∷ []) (write_resource_state_fenced 9 (some 2) (reset_row fresh)).1 in
    (1 < 2) × (write_resource_state_fenced 7 (some 1) row' ≡ (0, row'))
unfolding acquire_lock_with_fencing_token acquire_lock
stale_write_refused_example =
    stale_write_refused memory 0 150 same_store same_store same_store key counter 7 9 100 100 1 2
      empty (λ e. ground (arith, e)) (λ x. omega arith) (λ x. omega arith) refl refl 9 7
      ((5, some 2) ∷ []) (reset_row fresh)

stale_naive_write_wins :
    (write_resource_state_naive 7 (write_resource_state_naive 9 (reset_row fresh)).1).1.last_writer
    ≡ some 7
unfolding write_resource_state_naive reset_row
stale_naive_write_wins = refl

paused_token_overtakes_example :
    let next = acquire_lock_with_fencing_token memory 150 (λ y. y) key counter 9 5000 in
    let held = (acquire_lock memory 0 key 7 100 empty).1 in
    ((next held).0 ≡ record { acquired = true; fencing_token = some 1 })
    × ((acquire_lock_with_fencing_token memory 0 (λ x. (next x).1) key counter 7 100 empty).0
        ≡ record { acquired = true; fencing_token = some 2 })
paused_token_overtakes_example =
    paused_token_overtakes memory 7 9 0 150 100 5000 key counter empty (λ e. ground (arith, e))
      (omega arith) (omega arith) refl (omega arith)
