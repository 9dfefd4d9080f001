-- ===== src/Lease/Locks.antt =====
-- basic-lock.ts and lease-renewal.ts, and `acquireLockWithFencingToken` of fencing-token.ts.
use systems_engineering_lab.Prelude.{ℕ, Bool, true, false, Option, none, some, ◌==◌, if◌then◌else◌}
use systems_engineering_lab.Lease.Redis.{Key, Redis}

-- `GET key == token`
abbrev pub owns : ℕ → Option ℕ → Bool
owns owner_token none = false
owns owner_token (some v) = v == owner_token

pub record AcquireWithFencingResult : Type 0 where
  pub acquired : Bool
  pub fencing_token : Option ℕ

module _ {Store : Type 0} (R : Redis Store) where
  open R use {get, set_px_nx, del, pexpire, incr}

  unfoldable pub acquire_lock : ℕ → Key → ℕ → ℕ → Store → Bool × Store
  acquire_lock now key owner_token ttl_ms s = set_px_nx now key owner_token ttl_ms s

  -- RELEASE_SCRIPT
  unfoldable pub release_lock : ℕ → Key → ℕ → Store → Bool × Store
  release_lock now key owner_token s =
      if owns owner_token (get now key s) then del now key s else (false, s)

  -- `releaseLockUnsafeGetThenDel`: the GET is at `now` in `s`, and the DEL at `later` in the store
  -- that `between` has made of it.
  unfoldable pub release_lock_unsafe_get_then_del :
      ℕ → ℕ → (Store → Store) → Key → ℕ → Store → Bool × Store
  release_lock_unsafe_get_then_del now later between key owner_token s =
      if owns owner_token (get now key s) then (true, (del later key (between s)).1) else (false, s)

  -- RENEW_SCRIPT
  unfoldable pub renew_lock : ℕ → Key → ℕ → ℕ → Store → Bool × Store
  renew_lock now key owner_token ttl_ms s =
      if owns owner_token (get now key s) then pexpire now key ttl_ms s else (false, s)

  -- `between` is what other clients do between the SET and the INCR.
  unfoldable pub acquire_lock_with_fencing_token :
      ℕ → (Store → Store) → Key → Key → ℕ → ℕ → Store → AcquireWithFencingResult × Store
  unfolding acquire_lock
  acquire_lock_with_fencing_token now between lock_key fencing_counter_key owner_token ttl_ms s =
      let (acquired, s') = acquire_lock now lock_key owner_token ttl_ms s in
      let (fencing_token, s'') = incr fencing_counter_key (between s') in
      if acquired
      then (record { acquired = true; fencing_token = some fencing_token }, s'')
      else (record { acquired = false; fencing_token = none }, s')
