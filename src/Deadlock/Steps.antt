-- ===== src/Deadlock/Steps.antt =====
-- Legs that run at once, each statement a step (labs/32-deadlocks-and-lock-debugging/src/lib/transfer.ts,
-- `runLegAttempt`), and which leg waits for which.
use systems_engineering_lab.Prelude.{
  ℕ, ◌+◌, ◌≡◌, true, false, Option, none, some, ◌==◌, leb, if◌then◌else◌,
}
use systems_engineering_lab.Prelude.Table.{Table, lookup, modify, has}
use systems_engineering_lab.Deadlock.{
  committed, deadlock_aborted, failed, Phase, begun, at_barrier, first_locked, both_locked, ended,
  Leg, System, holds, is_blocked, wanted, with_phase, apply_transfer,
}

-- Leg `a` asks for a lock that leg `b` has.
pub record WaitsOn (s : System) (a b : ℕ) : Type 0 where
  pub waiter : Leg
  pub holder : Leg
  pub lock : ℕ
  pub waits : lookup a s.legs ≡ some waiter
  pub blocks : lookup b s.legs ≡ some holder
  pub wants : wanted waiter ≡ some lock
  pub has_it : holds lock holder ≡ true
  pub exists : has lock s.accounts ≡ true
  pub other : (b == a) ≡ false

pub data Chain (s : System) : ℕ → ℕ → Type 0 where
  edge : {a b : ℕ} → WaitsOn s a b → Chain s a b
  longer : {a b c : ℕ} → WaitsOn s a b → Chain s b c → Chain s a c

abbrev pub to_phase : ℕ → Phase → System → System
to_phase k p s = record s { legs = modify k (with_phase p) s.legs }

-- The first lock is taken; with a barrier, the leg arrives at it.
abbrev pub take_first : ℕ → Leg → System → System
take_first k l s =
    if l.has_rendezvous
    then record s { legs = modify k (with_phase at_barrier) s.legs; calls = s.calls + 1 }
    else to_phase k first_locked s

abbrev pub settle : ℕ → Option (Table ℕ) → System → System
settle k none s = to_phase k (ended failed) s
settle k (some t) s = record s {
  legs = modify k (with_phase (ended committed)) s.legs;
  accounts = t;
}

-- The updates and COMMIT, or ROLLBACK.
abbrev pub finish : ℕ → Leg → System → System
unfolding apply_transfer
finish k l s = settle k (apply_transfer l.plan s.accounts) s

-- The barrier lets its callers go on once there are two. PostgreSQL aborts one of the transactions
-- of a cycle.
pub data Step (s : System) : System → Type 0 where
  locking_first :
      (k : ℕ) (l : Leg)
      → lookup k s.legs ≡ some l
      → l.phase ≡ begun
      → is_blocked k l.plan.first_lock_id s ≡ false
      → Step s (take_first k l s)
  meeting :
      (k : ℕ) (l : Leg)
      → lookup k s.legs ≡ some l
      → l.phase ≡ at_barrier
      → leb 2 s.calls ≡ true
      → Step s (to_phase k first_locked s)
  locking_second :
      (k : ℕ) (l : Leg)
      → lookup k s.legs ≡ some l
      → l.phase ≡ first_locked
      → is_blocked k l.plan.second_lock_id s ≡ false
      → Step s (to_phase k both_locked s)
  finishing :
      (k : ℕ) (l : Leg) → lookup k s.legs ≡ some l → l.phase ≡ both_locked → Step s (finish k l s)
  aborting : (k : ℕ) → Chain s k k → Step s (to_phase k (ended deadlock_aborted) s)

pub data Steps (s : System) : System → Type 0 where
  start : Steps s s
  after_step : {t u : System} → Steps s t → Step t u → Steps s u
