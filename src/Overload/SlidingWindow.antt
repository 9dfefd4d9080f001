-- ===== src/Overload/SlidingWindow.antt =====
-- rate-limit/sliding-window.ts, for one client. The members of the sorted set are unique, so a list
-- of their scores stands for it; the key expires a window after the last check, on the server's clock.
use systems_engineering_lab.Prelude.{
  ℕ, ◌+◌, Bool, true, false, List, [], ◌∷◌, leb, ltb, if◌then◌else◌, keep, length,
}

pub record SlidingWindowConfig : Type 0 where
  pub window_ms : ℕ
  pub limit : ℕ

pub record RateLimitDecision : Type 0 where
  pub allowed : Bool
  pub detail : ℕ

pub record RequestLog : Type 0 where
  pub scores : List ℕ
  pub expires_at : ℕ

-- The scores that the key has: none once it has expired.
abbrev pub read : ℕ → RequestLog → List ℕ
read server_ms log = if leb log.expires_at server_ms then [] else log.scores

-- What ZREMRANGEBYSCORE -inf … now_ms - window_ms leaves.
abbrev pub in_window : ℕ → ℕ → ℕ → Bool
in_window window_ms now_ms score = ltb now_ms (score + window_ms)

abbrev pub admit : SlidingWindowConfig → ℕ → ℕ → List ℕ → RateLimitDecision × RequestLog
admit config server_ms now_ms scores =
    let count = length scores in
    let expires_at = server_ms + config.window_ms in
    if ltb count config.limit
    then (
      record { allowed = true; detail = count + 1 },
      record { scores = now_ms ∷ scores; expires_at = expires_at },
    )
    else (
      record { allowed = false; detail = count },
      record { scores = scores; expires_at = expires_at },
    )

-- `check`: the script, at the server's time and at the caller's.
unfoldable pub check : SlidingWindowConfig → ℕ → ℕ → RequestLog → RateLimitDecision × RequestLog
check config server_ms now_ms log =
    admit config server_ms now_ms (keep (in_window config.window_ms now_ms) (read server_ms log))
