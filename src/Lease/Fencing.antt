-- ===== src/Lease/Fencing.antt =====
-- The writes to `resource_state`, in support.ts, and what fencing tokens make of their order.
use systems_engineering_lab.Prelude.{
  ℕ, ◌≤◌, ◌<◌, ◌≡◌, refl, Option, none, some, List, [], ◌∷◌, arith, ltb, max, if◌then◌else◌, ◌+◌,
  ◌≢◌, Bool-cases, inl, inr, sym,
}
use systems_engineering_lab.Lease.Redis.{Key, Redis}
use systems_engineering_lab.Lease.Locks.{acquire_lock, acquire_lock_with_fencing_token}

pub record ResourceStateRow : Type 0 where
  pub fencing_token : ℕ
  pub last_writer : Option ℕ

-- UPDATE resource_state SET last_writer = $1 WHERE name = $2, on the row of that name.
unfoldable pub write_resource_state_naive : ℕ → ResourceStateRow → ℕ × ResourceStateRow
write_resource_state_naive writer_id row = (1, record row { last_writer = some writer_id })

-- … WHERE name = $3 AND fencing_token < $1; the caller's `fencingToken ?? -1` is below every number.
pub write_resource_state_fenced : ℕ → Option ℕ → ResourceStateRow → ℕ × ResourceStateRow
write_resource_state_fenced writer_id none row = (0, row)
write_resource_state_fenced writer_id (some fencing_token) row =
    if ltb row.fencing_token fencing_token
    then (1, record { fencing_token = fencing_token; last_writer = some writer_id })
    else (0, row)

-- The row part of `resetScenarioState`.
unfoldable pub reset_row : ResourceStateRow → ResourceStateRow
reset_row row = record { fencing_token = 0; last_writer = none }

-- Writes in the order in which they reach the database.
pub write_all : List (ℕ × Option ℕ) → ResourceStateRow → ResourceStateRow
write_all [] row = row
write_all ((writer_id, token) ∷ ws) row =
    write_all ws (write_resource_state_fenced writer_id token row).1

-- The highest of the tokens, and of the row's.
abbrev pub highest : ℕ → List (ℕ × Option ℕ) → ℕ
highest n [] = n
highest n ((w, none) ∷ ws) = highest n ws
highest n ((w, some t) ∷ ws) = highest (max n t) ws

-- After any writes in any order the row carries the highest token that any of them carried, if
-- that is above the token it had.
pub fencing_token-write_all :
    (ws : List (ℕ × Option ℕ)) (row : ResourceStateRow)
    → (write_all ws row).fencing_token ≡ highest row.fencing_token ws
unfolding write_all write_resource_state_fenced
fencing_token-write_all [] row = refl
fencing_token-write_all ((w, none) ∷ ws) row = fencing_token-write_all ws row
fencing_token-write_all ((w, some t) ∷ ws) row = ground (
  arith,
  fencing_token-write_all ws row,
  fencing_token-write_all ws (record { fencing_token = t; last_writer = some w }),
)

write_all_grows :
    (ws : List (ℕ × Option ℕ)) (row : ResourceStateRow)
    → row.fencing_token ≤ (write_all ws row).fencing_token
unfolding write_all write_resource_state_fenced
write_all_grows [] row = omega arith
write_all_grows ((w, none) ∷ ws) row = write_all_grows ws row
write_all_grows ((w, some t) ∷ ws) row = ground (
  arith,
  write_all_grows ws row,
  write_all_grows ws (record { fencing_token = t; last_writer = some w }),
)

refused :
    (w t : ℕ) (row : ResourceStateRow)
    → t ≤ row.fencing_token
    → write_resource_state_fenced w (some t) row ≡ (0, row)
unfolding write_resource_state_fenced
refused w t row l = ground (arith, l)

written_token :
    (w t : ℕ) (row : ResourceStateRow)
    → t ≤ (write_resource_state_fenced w (some t) row).1.fencing_token
unfolding write_resource_state_fenced
written_token w t row = ground arith

below_next : (m n a b c : ℕ) → m ≤ a → b ≡ a → b ≤ c → n ≡ c + 1 → m < n
below_next m n a b c l e h f = omega arith

below_written : (m n a b : ℕ) → m < n → n ≤ a → a ≤ b → m ≤ b
below_written m n a b l h g = omega arith

module _ {Store : Type 0} (R : Redis Store) where
  open R use {set_px_nx, incr, number}

  -- The token of an acquisition is the counter's next number.
  token_given :
      (now : ℕ) (between : Store → Store) (j k : Key) (a ttl_ms n : ℕ) (s : Store)
      → (acquire_lock_with_fencing_token R now between j k a ttl_ms s).0.fencing_token ≡ some n
      → let s' = (acquire_lock R now j a ttl_ms s).1 in
        (n ≡ number k (between s') + 1)
        × (number k (acquire_lock_with_fencing_token R now between j k a ttl_ms s).1 ≡ n)
  unfolding acquire_lock_with_fencing_token acquire_lock
  token_given now between j k a ttl_ms n s e =
      let s' = between (set_px_nx now j a ttl_ms s).1 in
      let given = R.incr_gives k s' in
      let counted = R.number-incr k s' in
      elim (Bool-cases (set_px_nx now j a ttl_ms s).0) [
        | inl taken ↦ ground (arith, taken, e, given, counted)
        | inr not_taken ↦ ground (arith, not_taken, e)
      ]

  lock_keeps_counter :
      (u : ℕ) (j k : Key) (b ttl_ms : ℕ) (s : Store)
      → k ≢ j
      → number k (acquire_lock R u j b ttl_ms s).1 ≡ number k s
  unfolding acquire_lock
  lock_keeps_counter u j k b ttl_ms s h = R.number-set u k j b ttl_ms s h

  -- Two acquisitions with fencing tokens, in this order, with anything between their commands and
  -- between the two that does not lower the counter: the later token is greater. So once the later
  -- owner has written, a write of the earlier owner that arrives after it, and after any other
  -- writes, changes no row.
  pub stale_write_refused :
      (t u : ℕ) (f g h : Store → Store) (j k : Key) (a b ttl_ms ttl_ms' m n : ℕ) (s : Store)
      → j ≢ k
      → ((x : Store) → number k x ≤ number k (g x))
      → ((x : Store) → number k x ≤ number k (h x))
      → let first = acquire_lock_with_fencing_token R t f j k a ttl_ms s in
        let second = acquire_lock_with_fencing_token R u h j k b ttl_ms' (g first.1) in
        first.0.fencing_token ≡ some m
        → second.0.fencing_token ≡ some n
        → (writer late : ℕ) (ws : List (ℕ × Option ℕ)) (row : ResourceStateRow)
        → let row' = write_all ws (write_resource_state_fenced writer (some n) row).1 in
          (m < n) × (write_resource_state_fenced late (some m) row' ≡ (0, row'))
  stale_write_refused t u f g h j k a b ttl_ms ttl_ms' m n s ne gg gh em en writer late ws row =
      let s' = g (acquire_lock_with_fencing_token R t f j k a ttl_ms s).1 in
      let s'' = (acquire_lock R u j b ttl_ms' s').1 in
      let older = token_given t f j k a ttl_ms m s em in
      let newer = token_given u h j k b ttl_ms' n s' en in
      let kept = lock_keeps_counter u j k b ttl_ms' s' (λ e. ne (sym e)) in
      let above =
        below_next m n (number k s') (number k s'') (number k (h s''))
          (rw (sym older.1) (gg (acquire_lock_with_fencing_token R t f j k a ttl_ms s).1)) kept
          (gh s'') newer.0 in
      let written = write_resource_state_fenced writer (some n) row in
      (
        above,
        refused late m (write_all ws written.1) (
            below_written m n written.1.fencing_token (write_all ws written.1).fencing_token above
              (written_token writer n row) (write_all_grows ws written.1)),
      )
