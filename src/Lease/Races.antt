-- ===== src/Lease/Races.antt =====
-- An owner that is late: its lease is over and another client has the lock.
-- `demonstrateUnsafeCheckThenDeleteRace` of basic-lock.ts.
use systems_engineering_lab.Prelude.{
  ℕ, ◌+◌, ◌≤◌, ◌<◌, ◌≡◌, ◌≢◌, refl, true, false, none, some, arith, ◌∙◌, sym,
}
use systems_engineering_lab.Lease.Redis.{Key, Redis}
use systems_engineering_lab.Lease.Locks.{
  acquire_lock_with_fencing_token, acquire_lock, release_lock, release_lock_unsafe_get_then_del,
  renew_lock,
}
use systems_engineering_lab.Lease.Exclusion.{
  acquire_lock-Holds, call_foreign, release, renew, owner_owns,
}

module _ {Store : Type 0} (R : Redis Store) where
  open R use {get, set_px_nx, del, pexpire}

  -- When the lease time of the last acquisition is over, the next `acquireLock` returns true.
  expired_free :
      (a b t u ttl_ms ttl_ms' : ℕ) (k : Key) (s : Store)
      → 0 < ttl_ms
      → 0 < ttl_ms'
      → get t k s ≡ none
      → t + ttl_ms ≤ u
      → (acquire_lock R u k b ttl_ms' (acquire_lock R t k a ttl_ms s).1).0 ≡ true
  unfolding acquire_lock
  expired_free a b t u ttl_ms ttl_ms' k s pos pos' g late =
      R.set_free u k b ttl_ms' (set_px_nx t k a ttl_ms s).1 pos'
        (R.get-set t u k a ttl_ms s pos g (omega arith) ∙ ground (arith, late))

  -- The client `a` takes a free lock, and after its lease time, at `u`, the client `b` takes it. Until
  -- `b`'s lease time is over, `a`'s `releaseLock` and `renewLock` return false and leave Redis as it is.
  -- But `releaseLockUnsafeGetThenDel`, when its GET was in `a`'s lease time and its DEL comes
  -- after `b`'s acquisition, returns true to `a` and leaves the key free: `b`'s lock is lost.
  pub late_release :
      (a b t u v ttl_ms ttl_ms' : ℕ) (k : Key) (s : Store)
      → b ≢ a
      → 0 < ttl_ms
      → 0 < ttl_ms'
      → get t k s ≡ none
      → (seen : ℕ) → t ≤ seen
      → seen < t + ttl_ms
      → t + ttl_ms ≤ u
      → u ≤ v
      → v < u + ttl_ms'
      → (m : ℕ)
      → let held = (acquire_lock R t k a ttl_ms s).1 in
        let next = acquire_lock R u k b ttl_ms' in
        let unsafe = release_lock_unsafe_get_then_del R seen v (λ x. (next x).1) k a held in
        ((next held).0 ≡ true)
        × (release_lock R v k a (next held).1 ≡ (false, (next held).1))
        × (renew_lock R v k a m (next held).1 ≡ (false, (next held).1))
        × (unsafe.0 ≡ true)
        × (get v k (next held).1 ≡ some b)
        × (get v k unsafe.1 ≡ none)
  unfolding release_lock_unsafe_get_then_del acquire_lock
  late_release a b t u v ttl_ms ttl_ms' k s ne pos pos' g seen ls se late uv vu m =
      let held = (acquire_lock R t k a ttl_ms s).1 in
      let won = expired_free a b t u ttl_ms ttl_ms' k s pos pos' g late in
      let has = acquire_lock-Holds R b u ttl_ms' k held pos' won v uv vu in
      let own =
        acquire_lock-Holds R a t ttl_ms k s pos (R.set_free t k a ttl_ms s pos g) seen ls se in
      let s' = (acquire_lock R u k b ttl_ms' held).1 in
      (
        won,
        call_foreign R b v k (release a) s' has (λ e. ne (sym e)),
        call_foreign R b v k (renew a m) s' has (λ e. ne (sym e)),
        rw own (rw (owner_owns R a) refl),
        has,
        rw own (rw (owner_owns R a) (R.get-del v v k s')),
      )

  -- The client `a` takes a free lock, but pauses between its SET and its INCR until its lease time is
  -- over, when `b` acquires the lock and gets a token. Then both acquisitions return true, and `a`,
  -- whose acquisition was first and whose lease is over, gets the greater token of the two.
  pub paused_token_overtakes :
      (a b t u ttl_ms ttl_ms' : ℕ) (j k : Key) (s : Store)
      → j ≢ k
      → 0 < ttl_ms
      → 0 < ttl_ms'
      → get t j s ≡ none
      → t + ttl_ms ≤ u
      → let next = acquire_lock_with_fencing_token R u (λ y. y) j k b ttl_ms' in
        let held = (acquire_lock R t j a ttl_ms s).1 in
        let n = R.number k s in
        ((next held).0 ≡ record { acquired = true; fencing_token = some (n + 1) })
        × ((acquire_lock_with_fencing_token R t (λ x. (next x).1) j k a ttl_ms s).0
            ≡ record { acquired = true; fencing_token = some (n + 1 + 1) })
  unfolding acquire_lock_with_fencing_token acquire_lock
  paused_token_overtakes a b t u ttl_ms ttl_ms' j k s ne pos pos' g late =
      let held = (set_px_nx t j a ttl_ms s).1 in
      let s' = (set_px_nx u j b ttl_ms' held).1 in
      let won = expired_free a b t u ttl_ms ttl_ms' j s pos pos' g late in
      let own = R.set_free t j a ttl_ms s pos g in
      let same =
        R.number-set u k j b ttl_ms' held (λ e. ne (sym e))
        ∙ R.number-set t k j a ttl_ms s (λ e. ne (sym e)) in
      (
        rw won (rw (R.incr_gives k s') (rw same refl)),
        rw own
            (rw won (rw (R.incr_gives k (R.incr k s').1) (rw (R.number-incr k s') (rw same refl)))),
      )
