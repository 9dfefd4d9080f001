-- ===== src/Overload/TokenBucket.antt =====
-- rate-limit/token-bucket.ts. Tokens are counted in thousandths, so that a whole number of tokens
-- per second refills that many thousandths per millisecond, exactly. `refillPerSecond` is positive.
use systems_engineering_lab.Prelude.{
  ℕ, ◌+◌, ◌-◌, ◌*◌, ◌/◌, Bool, Option, none, some, List, [], ◌∷◌, min, max, leb, if◌then◌else◌,
}

pub record TokenBucketConfig : Type 0 where
  pub capacity : ℕ
  pub refill_per_second : ℕ
  pub cost : ℕ

-- The hash under the client's key, with the server's time at which it expires.
pub record Bucket : Type 0 where
  pub tokens : ℕ
  pub last_refill_ms : ℕ
  pub expires_at : ℕ

pub record RateLimitDecision : Type 0 where
  pub allowed : Bool
  pub detail : ℕ

-- HMGET: nothing once the key has expired.
abbrev pub read : ℕ → Option Bucket → Option Bucket
read server_ms none = none
read server_ms (some b) = if leb b.expires_at server_ms then none else some b

-- Math.max(60, Math.ceil((capacity / refillPerSecond) * 4))
abbrev pub ttl_seconds : TokenBucketConfig → ℕ
ttl_seconds config =
    max 60 ((config.capacity * 4 + (config.refill_per_second - 1)) / config.refill_per_second)

abbrev pub full : TokenBucketConfig → ℕ
full config = config.capacity * 1000

-- The tokens before the request is charged: all of them in a new bucket.
abbrev pub refilled : TokenBucketConfig → ℕ → Option Bucket → ℕ
refilled config now_ms none = full config
refilled config now_ms (some b) =
    min (full config) (b.tokens + (now_ms - b.last_refill_ms) * config.refill_per_second)

abbrev pub spend : TokenBucketConfig → ℕ → ℕ → ℕ → RateLimitDecision × Bucket
spend config server_ms now_ms tokens =
    let allowed = leb (config.cost * 1000) tokens in
    let left = if allowed then tokens - config.cost * 1000 else tokens in
    (
      record { allowed = allowed; detail = left },
      record {
        tokens = left;
        last_refill_ms = now_ms;
        expires_at = server_ms + ttl_seconds config * 1000;
      },
    )

-- `check`: the script, at the server's time and at the caller's.
unfoldable pub check : TokenBucketConfig → ℕ → ℕ → Option Bucket → RateLimitDecision × Bucket
check config server_ms now_ms stored =
    spend config server_ms now_ms (refilled config now_ms (read server_ms stored))

-- One client's calls, each so many milliseconds after the one before it, on one clock: how many
-- were allowed, and the bucket.
abbrev pub check_all : TokenBucketConfig → ℕ → List ℕ → Option Bucket → ℕ × Option Bucket
check_all config now [] stored = (0, stored)
check_all config now (d ∷ ds) stored =
    let (decision, bucket) = check config (now + d) (now + d) stored in
    let rest = check_all config (now + d) ds (some bucket) in
    ((if decision.allowed then 1 else 0) + rest.0, rest.1)
