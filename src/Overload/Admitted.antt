-- ===== src/Overload/Admitted.antt =====
-- How many requests the token bucket of rate-limit/token-bucket.ts lets through.
use native.Mathlib.Nat.{lt-div-mul-add, mul-le-mul_right, add-mul, mul_right_comm}
use systems_engineering_lab.Prelude.{
  ℕ, ◌+◌, ◌-◌, ◌*◌, ◌/◌, ◌≤◌, ◌<◌, ◌≡◌, refl, Bool, true, false, Option, none, some, List, [], ◌∷◌,
  leb, if◌then◌else◌, arith, Bool-cases, inl, inr, sym, ap,
}
use systems_engineering_lab.Overload.TokenBucket.{
  TokenBucketConfig, Bucket, read, ttl_seconds, full, refilled, spend, check, check_all,
}

abbrev pub sum : List ℕ → ℕ
sum [] = 0
sum (d ∷ ds) = d + sum ds

-- In the time that an idle bucket is kept, it fills up.
ttl_fills :
    (config : TokenBucketConfig)
    → 0 < config.refill_per_second
    → full config ≤ ttl_seconds config * 1000 * config.refill_per_second
ttl_fills config pos =
    let r = config.refill_per_second in
    let q = (config.capacity * 4 + (r - 1)) / r in
    let above : config.capacity * 4 + (r - 1) < q * r + r = lt-div-mul-add pos in
    let longest : q * 1000 ≤ ttl_seconds config * 1000 = omega arith in
    let grows : q * 1000 * r ≤ ttl_seconds config * 1000 * r = mul-le-mul_right r longest in
    omega (arith, above, grows, mul_right_comm q 1000 r, pos)

-- A bucket that a check at `now` has left.
abbrev pub Kept : TokenBucketConfig → ℕ → Option Bucket → Type 0
Kept config now none = Unit
Kept config now (some b) =
    (b.last_refill_ms ≡ now) × (b.expires_at ≡ now + ttl_seconds config * 1000)

abbrev credit : TokenBucketConfig → Option Bucket → ℕ
credit config none = full config
credit config (some b) = b.tokens

long_idle :
    (config : TokenBucketConfig) (now d e : ℕ)
    → 0 < config.refill_per_second
    → e ≡ now + ttl_seconds config * 1000
    → e ≤ now + d
    → full config ≤ d * config.refill_per_second
long_idle config now d e pos h l =
    let waited : ttl_seconds config * 1000 ≤ d = omega (arith, h, l) in
    omega (arith, ttl_fills config pos, mul-le-mul_right config.refill_per_second waited)

leb_le : {a b : ℕ} → leb a b ≡ true → a ≤ b
leb_le {a} {b} e = ground (arith, e)

le_leb : {a b : ℕ} → a ≤ b → leb a b ≡ true
le_leb {a} {b} l = ground (arith, l)

since : (now d l : ℕ) → l ≡ now → now + d - l ≡ d
since now d l e = omega (arith, e)

refilled_le :
    (config : TokenBucketConfig) (now d : ℕ) (stored : Option Bucket)
    → 0 < config.refill_per_second
    → Kept config now stored
    → refilled config (now + d) (read (now + d) stored)
      ≤ credit config stored + d * config.refill_per_second
refilled_le config now d none pos k = omega arith
refilled_le config now d (some b) pos k =
    let r = config.refill_per_second in
    elim (Bool-cases (leb b.expires_at (now + d))) [
      | inl gone ↦
          rw gone (omega (arith, long_idle config now d b.expires_at pos k.1 (leb_le gone)))
      | inr there ↦ rw there (rw (since now d b.last_refill_ms k.0) (omega arith))
    ]

-- One step of the tally: `t` tokens before the charge, at most `credit` and the refill of `d`.
tally_step :
    (allowed : Bool) (t cost c d s r n : ℕ)
    → allowed ≡ leb cost t
    → t ≤ c + d * r
    → n * cost ≤ (if allowed then t - cost else t) + s * r
    → ((if allowed then 1 else 0) + n) * cost ≤ c + (d + s) * r
tally_step true t cost c d s r n e l h =
    omega (arith, add-mul 1 n cost, add-mul d s r, l, h, leb_le (sym e))
tally_step false t cost c d s r n e l h = omega (arith, add-mul d s r, l, h)

tally :
    (config : TokenBucketConfig) (now : ℕ) (ds : List ℕ) (stored : Option Bucket)
    → 0 < config.refill_per_second
    → Kept config now stored
    → (check_all config now ds stored).0 * (config.cost * 1000)
      ≤ credit config stored + sum ds * config.refill_per_second
unfolding check
tally config now [] stored pos k = omega arith
tally config now (d ∷ ds) stored pos k =
    let t = refilled config (now + d) (read (now + d) stored) in
    tally_step (leb (config.cost * 1000) t) t (config.cost * 1000) (credit config stored) d (sum ds)
      config.refill_per_second
      (check_all config (now + d) ds (some (check config (now + d) (now + d) stored).1)).0 refl
      (refilled_le config now d stored pos k)
      (tally config (now + d) ds (some (check config (now + d) (now + d) stored).1) pos
        (refl, refl))

-- With a positive refill rate and one clock: of a new client's requests, at whatever times, the
-- bucket lets through at most as many as its capacity and the refill of the time since `now` pay
-- for, although Redis drops the bucket's key when it is idle and the next request finds it full.
pub check_all_bounded :
    (config : TokenBucketConfig) (now : ℕ) (ds : List ℕ)
    → 0 < config.refill_per_second
    → (check_all config now ds none).0 * (config.cost * 1000)
      ≤ config.capacity * 1000 + sum ds * config.refill_per_second
check_all_bounded config now ds pos = tally config now ds none pos tt

-- When a bucket's key has expired since the check that left it, the next check on the same clock
-- decides as it would with the bucket still there, and leaves the same tokens.
pub check_expired :
    (config : TokenBucketConfig) (now d : ℕ) (b : Bucket)
    → 0 < config.refill_per_second
    → Kept config now (some b)
    → b.expires_at ≤ now + d
    → check config (now + d) (now + d) (some b)
      ≡ spend config (now + d) (now + d) (refilled config (now + d) (some b))
unfolding check
check_expired config now d b pos k l = ap (spend config (now + d) (now + d)) (
    rw (le_leb l) (
      rw (since now d b.last_refill_ms k.0)
        (omega (arith, long_idle config now d b.expires_at pos k.1 l))))
