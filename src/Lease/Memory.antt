-- ===== src/Lease/Memory.antt =====
-- A Redis in memory: each key's value with the time at which it expires, and the counters.
use systems_engineering_lab.Prelude.{
  ℕ, ◌+◌, ◌≡◌, ◌≢◌, refl, Bool, true, false, Option, none, some, ltb, ◌==◌, if◌then◌else◌, arith,
}
use systems_engineering_lab.Lease.Redis.{Key, Redis, lock_key_for, fencing_counter_key_for}

abbrev same : Key → Key → Bool
same (lock_key_for m) (lock_key_for n) = m == n
same (lock_key_for m) (fencing_counter_key_for n) = false
same (fencing_counter_key_for m) (lock_key_for n) = false
same (fencing_counter_key_for m) (fencing_counter_key_for n) = m == n

pub same_refl : (k : Key) → same k k ≡ true
same_refl (lock_key_for m) = ground arith
same_refl (fencing_counter_key_for m) = ground arith

pub same_ne : (j k : Key) → j ≢ k → same j k ≡ false
same_ne (lock_key_for m) (lock_key_for n) h = ground (arith, h)
same_ne (lock_key_for m) (fencing_counter_key_for n) h = refl
same_ne (fencing_counter_key_for m) (lock_key_for n) h = refl
same_ne (fencing_counter_key_for m) (fencing_counter_key_for n) h = ground (arith, h)

pub record Store : Type 0 where
  pub values : Key → Option (ℕ × ℕ)
  pub counters : Key → ℕ

abbrev pub empty : Store
empty = record { values = λ k. none; counters = λ k. 0 }

abbrev put : {A : Type 0} → Key → A → (Key → A) → Key → A
put k v f j = if same j k then v else f j

abbrev live : ℕ → Option (ℕ × ℕ) → Option ℕ
live now none = none
live now (some (v, e)) = if ltb now e then some v else none

abbrev set_on : ℕ → Key → ℕ → ℕ → Store → Option ℕ → Bool × Store
set_on now k v ttl s (some u) = (false, s)
set_on now k v ttl s none = (true, record s { values = put k (some (v, now + ttl)) s.values })

abbrev expire_on : ℕ → Key → ℕ → Store → Option ℕ → Bool × Store
expire_on now k ttl s none = (false, s)
expire_on now k ttl s (some v) = (true, record s { values = put k (some (v, now + ttl)) s.values })

abbrev there : Option ℕ → Bool
there none = false
there (some v) = true

pub set_on_ne :
    (now t : ℕ) (j k : Key) (v ttl : ℕ) (s : Store)
    → j ≢ k
    → (o : Option ℕ) → live t ((set_on now k v ttl s o).1.values j) ≡ live t (s.values j)
set_on_ne now t j k v ttl s h none = rw (same_ne j k h) refl
set_on_ne now t j k v ttl s h (some u) = refl

pub expire_on_ne :
    (now t : ℕ) (j k : Key) (ttl : ℕ) (s : Store)
    → j ≢ k
    → (o : Option ℕ) → live t ((expire_on now k ttl s o).1.values j) ≡ live t (s.values j)
expire_on_ne now t j k ttl s h none = refl
expire_on_ne now t j k ttl s h (some v) = rw (same_ne j k h) refl

pub set_on_counters :
    (now : ℕ) (j k : Key) (v ttl : ℕ) (s : Store) (o : Option ℕ)
    → (set_on now k v ttl s o).1.counters j ≡ s.counters j
set_on_counters now j k v ttl s none = refl
set_on_counters now j k v ttl s (some u) = refl

abbrev pub memory : Redis Store
memory = record {
  get = λ now k s. live now (s.values k);
  set_px_nx = λ now k v ttl s. set_on now k v ttl s (live now (s.values k));
  del = λ now k s. (there (live now (s.values k)), record s { values = put k none s.values });
  pexpire = λ now k ttl s. expire_on now k ttl s (live now (s.values k));
  incr = λ k s. (s.counters k + 1, record s { counters = put k (s.counters k + 1) s.counters });
  number = λ k s. s.counters k;
  set_free = λ now k v ttl s pos g. rw g refl;
  set_taken = λ now k v ttl s u g. rw g refl;
  get-set = λ now t k v ttl s pos g l. rw g (rw (same_refl k) refl);
  get-pexpire = λ now t k ttl s v g l. rw g (rw (same_refl k) refl);
  pexpire_there = λ now k ttl s v g. rw g refl;
  get-del = λ now t k s. rw (same_refl k) refl;
  del_there = λ now k s v g. rw g refl;
  get-set_ne = λ now t j k v ttl s h. set_on_ne now t j k v ttl s h (live now (s.values k));
  get-del_ne = λ now t j k s h. rw (same_ne j k h) refl;
  get-pexpire_ne = λ now t j k ttl s h. expire_on_ne now t j k ttl s h (live now (s.values k));
  incr_gives = λ k s. refl;
  number-incr = λ k s. rw (same_refl k) refl;
  number-set = λ now j k v ttl s h. set_on_counters now j k v ttl s (live now (s.values k));
}
