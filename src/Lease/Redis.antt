-- ===== src/Lease/Redis.antt =====
-- What the code relies on of Redis. A command gets the server's time, in milliseconds.
use systems_engineering_lab.Prelude.{
  ℕ, ◌+◌, ◌≤◌, ◌<◌, ◌≡◌, ◌≢◌, Bool, true, false, Option, none, some, ltb, if◌then◌else◌,
}

-- The keys of one resource: `lockKeyFor` and `fencingCounterKeyFor`.
pub data Key : Type 0 where
  lock_key_for : ℕ → Key
  fencing_counter_key_for : ℕ → Key

pub record Redis (Store : Type 0) : Type 0 where
  -- GET key
  pub get : ℕ → Key → Store → Option ℕ
  -- SET key value PX ttl NX
  pub set_px_nx : ℕ → Key → ℕ → ℕ → Store → Bool × Store
  -- DEL key: whether there was one
  pub del : ℕ → Key → Store → Bool × Store
  -- PEXPIRE key ttl
  pub pexpire : ℕ → Key → ℕ → Store → Bool × Store
  -- INCR key, and the number that stands there
  pub incr : Key → Store → ℕ × Store
  pub number : Key → Store → ℕ
  -- SET NX succeeds on a key that is not there, and does nothing to one that is.
  pub set_free :
      (now : ℕ) (k : Key) (v ttl : ℕ) (s : Store)
      → 0 < ttl
      → get now k s ≡ none
      → (set_px_nx now k v ttl s).0 ≡ true
  pub set_taken :
      (now : ℕ) (k : Key) (v ttl : ℕ) (s : Store) (u : ℕ)
      → get now k s ≡ some u
      → set_px_nx now k v ttl s ≡ (false, s)
  -- A key that was set is there with its value until its time to live is over.
  pub get-set :
      (now t : ℕ) (k : Key) (v ttl : ℕ) (s : Store)
      → 0 < ttl
      → get now k s ≡ none
      → now ≤ t
      → get t k (set_px_nx now k v ttl s).1 ≡ (if ltb t (now + ttl) then some v else none)
  pub get-pexpire :
      (now t : ℕ) (k : Key) (ttl : ℕ) (s : Store) (v : ℕ)
      → get now k s ≡ some v
      → now ≤ t
      → get t k (pexpire now k ttl s).1 ≡ (if ltb t (now + ttl) then some v else none)
  pub pexpire_there :
      (now : ℕ) (k : Key) (ttl : ℕ) (s : Store) (v : ℕ)
      → get now k s ≡ some v
      → (pexpire now k ttl s).0 ≡ true
  pub get-del : (now t : ℕ) (k : Key) (s : Store) → get t k (del now k s).1 ≡ none
  pub del_there :
      (now : ℕ) (k : Key) (s : Store) (v : ℕ) → get now k s ≡ some v → (del now k s).0 ≡ true
  -- A command touches its own key alone.
  pub get-set_ne :
      (now t : ℕ) (j k : Key) (v ttl : ℕ) (s : Store)
      → j ≢ k
      → get t j (set_px_nx now k v ttl s).1 ≡ get t j s
  pub get-del_ne : (now t : ℕ) (j k : Key) (s : Store) → j ≢ k → get t j (del now k s).1 ≡ get t j s
  pub get-pexpire_ne :
      (now t : ℕ) (j k : Key) (ttl : ℕ) (s : Store)
      → j ≢ k
      → get t j (pexpire now k ttl s).1 ≡ get t j s
  -- INCR gives the next number.
  pub incr_gives : (k : Key) (s : Store) → (incr k s).0 ≡ number k s + 1
  pub number-incr : (k : Key) (s : Store) → number k (incr k s).1 ≡ number k s + 1
  pub number-set :
      (now : ℕ) (j k : Key) (v ttl : ℕ) (s : Store)
      → j ≢ k
      → number j (set_px_nx now k v ttl s).1 ≡ number j s
