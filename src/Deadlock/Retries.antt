-- ===== src/Deadlock/Retries.antt =====
-- labs/32-deadlocks-and-lock-debugging/src/lib/transfer.ts: `runLegSingleAttempt` and `runLegWithRetry`.
use systems_engineering_lab.Prelude.{
  ℕ, suc, zero, ◌+◌, ◌≤◌, ◌<◌, ◌≡◌, refl, Bool, true, false, ◌&&◌, arith, ltb, if◌then◌else◌,
  Bool-cases, inl, inr, subst,
}
use systems_engineering_lab.Deadlock.{Status, committed, deadlock_aborted, failed}

pub data SqlState : Type 0 where
  deadlock_detected : SqlState
  other_state : ℕ → SqlState

-- How `runLegAttempt` ends: it returns, or throws an error of PostgreSQL or another.
pub data AttemptEnd : Type 0 where
  returned : AttemptEnd
  pg_error : SqlState → AttemptEnd
  other_error : AttemptEnd

pub record LegOutcome : Type 0 where
  pub status : Status
  pub attempts : ℕ

-- The outcome, or the error that reaches the caller.
pub data Run : Type 0 where
  outcome : LegOutcome → Run
  threw : Run

abbrev pub status_of : SqlState → Status
status_of deadlock_detected = deadlock_aborted
status_of (other_state code) = failed

abbrev pub to_outcome : ℕ → SqlState → LegOutcome
to_outcome attempts code = record { status = status_of code; attempts = attempts }

unfoldable pub run_leg_single_attempt : AttemptEnd → Run
run_leg_single_attempt returned = outcome (record { status = committed; attempts = 1 })
run_leg_single_attempt (pg_error code) = outcome (to_outcome 1 code)
run_leg_single_attempt other_error = threw

abbrev pub is_deadlock : SqlState → Bool
is_deadlock deadlock_detected = true
is_deadlock (other_state code) = false

abbrev pub after_attempt : ℕ → ℕ → Run → AttemptEnd → Run
after_attempt max_attempts attempt rest returned =
    outcome (record { status = committed; attempts = attempt })
after_attempt max_attempts attempt rest (pg_error code) =
    if is_deadlock code && ltb attempt max_attempts then rest else outcome (to_outcome attempt code)
after_attempt max_attempts attempt rest other_error = threw

-- The loop from this attempt on, with the rounds that are left.
unfoldable pub retry_leg : (ℕ → AttemptEnd) → ℕ → ℕ → ℕ → Run
retry_leg ends max_attempts attempt zero = threw
retry_leg ends max_attempts attempt (suc rounds) =
    let rest = retry_leg ends max_attempts (attempt + 1) rounds in
    after_attempt max_attempts attempt rest (ends attempt)

abbrev pub default_max_attempts : ℕ
default_max_attempts = 5

unfoldable pub run_leg_with_retry : (ℕ → AttemptEnd) → ℕ → Run
unfolding retry_leg
run_leg_with_retry ends max_attempts = retry_leg ends max_attempts 1 max_attempts

-- All attempts from `i` up to `n` were victims of a deadlock.
abbrev pub Victims : (ℕ → AttemptEnd) → ℕ → ℕ → Type 0
Victims ends i n = (j : ℕ) → i ≤ j → j < n → ends j ≡ pg_error deadlock_detected

-- How an attempt ended that was the last.
abbrev pub Last : ℕ → AttemptEnd → LegOutcome → Type 0
Last max_attempts returned o = o.status ≡ committed
Last max_attempts (pg_error deadlock_detected) o =
    (o.status ≡ deadlock_aborted) × (o.attempts ≡ max_attempts)
Last max_attempts (pg_error (other_state code)) o = o.status ≡ failed
Last max_attempts other_error o = ⊥

-- The run from attempt `i` on: victims up to the last attempt, which decides.
abbrev pub IsRun : (ℕ → AttemptEnd) → ℕ → ℕ → Run → Type 0
IsRun ends max_attempts i (outcome o) =
    (i ≤ o.attempts)
    × (o.attempts ≤ max_attempts)
    × Victims ends i o.attempts
    × Last max_attempts (ends o.attempts) o
IsRun ends max_attempts i threw =
    (n : ℕ) × (i ≤ n) × (n ≤ max_attempts) × Victims ends i n × (ends n ≡ other_error)

one_more :
    (ends : ℕ → AttemptEnd) (i n : ℕ)
    → ends i ≡ pg_error deadlock_detected
    → Victims ends (i + 1) n
    → Victims ends i n
one_more ends i n e v j h k = elim (Bool-cases (ltb i j)) [
  | inl later ↦ v j (ground (arith, later)) k
  | inr here ↦
      let same : i ≡ j = ground (arith, here, h) in
      subst (λ x. ends x ≡ pg_error deadlock_detected) same e
]

empty-Victims : (ends : ℕ → AttemptEnd) (i : ℕ) → Victims ends i i
empty-Victims ends i j h k = absurd (omega (arith, h, k))

longer :
    (ends : ℕ → AttemptEnd) (m i : ℕ) (r : Run)
    → ends i ≡ pg_error deadlock_detected
    → IsRun ends m (i + 1) r
    → IsRun ends m i r
longer ends m i (outcome o) e h = (omega (arith, h.0), h.1, one_more ends i o.attempts e h.2, h.3)
longer ends m i threw e h =
    let (n, low, high, v, last) = h in (n, omega (arith, low), high, one_more ends i n e v, last)

stops :
    (ends : ℕ → AttemptEnd) (m i : ℕ) (a : AttemptEnd) (rest : Run)
    → ends i ≡ a
    → i ≤ m
    → (i < m → IsRun ends m (i + 1) rest)
    → IsRun ends m i (after_attempt m i rest a)
stops ends m i returned rest e h more = (omega arith, h, empty-Victims ends i, rw e refl)
stops ends m i (pg_error (other_state code)) rest e h more =
    (omega arith, h, empty-Victims ends i, rw e refl)
stops ends m i other_error rest e h more = (i, omega arith, h, empty-Victims ends i, e)
stops ends m i (pg_error deadlock_detected) rest e h more = elim (Bool-cases (ltb i m)) [
  | inl again ↦ rw again (longer ends m i rest e (more (ground (arith, again))))
  | inr done ↦ rw done (omega arith, h, empty-Victims ends i, rw e (refl, ground (arith, done, h)))
]

retry_leg-IsRun :
    (ends : ℕ → AttemptEnd) (m i rounds : ℕ)
    → i ≤ m
    → m + 1 ≤ i + rounds
    → IsRun ends m i (retry_leg ends m i rounds)
unfolding retry_leg
retry_leg-IsRun ends m i zero h enough = absurd (omega (arith, h, enough))
retry_leg-IsRun ends m i (suc rounds) h enough =
    stops ends m i (ends i) (retry_leg ends m (i + 1) rounds) refl h
      (λ less. retry_leg-IsRun ends m (i + 1) rounds (omega (arith, less)) (omega (arith, enough)))

-- With at least one attempt allowed: the first attempt that is not the victim of a deadlock decides
-- whether the outcome is committed or failed or an error reaches the caller; if the allowed attempts
-- are all victims, the outcome says so after the last of them; and no more attempts are made than are
-- allowed.
pub run_leg_with_retry-IsRun :
    (ends : ℕ → AttemptEnd) (max_attempts : ℕ)
    → 1 ≤ max_attempts
    → IsRun ends max_attempts 1 (run_leg_with_retry ends max_attempts)
unfolding run_leg_with_retry
run_leg_with_retry-IsRun ends max_attempts h =
    retry_leg-IsRun ends max_attempts 1 max_attempts h (omega arith)
