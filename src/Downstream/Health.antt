-- ===== src/Downstream/Health.antt =====
-- What each health makes of a call, and how long a call can take.
use systems_engineering_lab.Prelude.{
  ℕ, ◌+◌, ◌-◌, ◌*◌, ◌≤◌, ◌<◌, ◌≡◌, ◌≢◌, ◌⊎◌, inr, none, refl, arith,
}
use Prim.Native.String.{String}
use systems_engineering_lab.Downstream.{
  DownstreamHealth, logged, settle_by, word, mulberry32_next, healthy, degraded, down_fail_fast,
  down_hang, UnreliableDownstream, pick_latency, next_random, range_ms, fast, slow, Kind, ok,
  transient_downstream_error, non_transient_downstream_error, call, Answer, degraded_answer,
}

-- Every number that the generator draws, and every state that it goes to, is a 32-bit word.
pub mulberry32_next-lt-word :
    (a : ℕ) → ((mulberry32_next a).0 < word) × ((mulberry32_next a).1 < word)
unfolding mulberry32_next
mulberry32_next-lt-word a = omega arith

weighted :
    (a k s r : ℕ) → ((s + r) * a ≤ s * a + r * (a + k)) × (s * a + r * (a + k) ≤ (s + r) * (a + k))
weighted a k s r = (omega arith, omega arith)

between :
    (a b w r : ℕ) → a ≤ b → r ≤ w → (w * a ≤ (w - r) * a + r * b) × ((w - r) * a + r * b ≤ w * b)
between a b w r h lt =
    let eb : a + (b - a) ≡ b = omega arith in
    let ew : w - r + r ≡ w = omega arith in rw eb at (rw ew at (weighted a (b - a) (w - r) r))

pick_latency_bounds :
    (k : Kind) (d : UnreliableDownstream)
    → (range_ms k d.opts).0 ≤ (range_ms k d.opts).1
    → (word * (range_ms k d.opts).0 ≤ (pick_latency k d).0)
      × ((pick_latency k d).0 ≤ word * (range_ms k d.opts).1)
unfolding pick_latency
pick_latency_bounds k d h =
    between _ _ word (mulberry32_next d.random).1 h
      (omega (arith, mulberry32_next-lt-word d.random))

-- What a caller may see of a call in each health: the answers, and the bounds of the time.
abbrev pub Allowed : UnreliableDownstream → Answer → ℕ → Type 0
Allowed d ok latency =
    ((word * d.opts.fast_latency_range_ms.0 ≤ latency)
      × (latency ≤ word * d.opts.fast_latency_range_ms.1)
      × (d.opts.health ≢ down_fail_fast)
      × (d.opts.health ≢ down_hang))
    ⊎ ((word * d.opts.slow_latency_range_ms.0 ≤ latency)
        × (latency ≤ word * d.opts.slow_latency_range_ms.1)
        × (d.opts.health ≡ degraded))
    ⊎ ((d.opts.health ≡ down_hang) × (latency ≡ d.opts.hang_ms * word))
Allowed d transient_downstream_error latency =
    (word * d.opts.fast_latency_range_ms.0 ≤ latency)
    × (latency ≤ word * d.opts.fast_latency_range_ms.1)
    × ((d.opts.health ≡ down_fail_fast) ⊎ (d.opts.health ≡ degraded))
Allowed d non_transient_downstream_error latency =
    (word * d.opts.fast_latency_range_ms.0 ≤ latency)
    × (latency ≤ word * d.opts.fast_latency_range_ms.1)
    × (d.opts.health ≡ degraded)

degraded-Allowed :
    (r : ℕ) (d : UnreliableDownstream)
    → d.opts.fast_latency_range_ms.0 ≤ d.opts.fast_latency_range_ms.1
    → d.opts.slow_latency_range_ms.0 ≤ d.opts.slow_latency_range_ms.1
    → d.opts.health ≡ degraded
    → let (a, latency, d') = degraded_answer r d in Allowed d a latency
unfolding degraded_answer
degraded-Allowed r d hf hs e =
    ground (arith, pick_latency_bounds fast d hf, pick_latency_bounds slow d hs)

settle_by-Allowed :
    (h : DownstreamHealth) (d : UnreliableDownstream)
    → d.opts.fast_latency_range_ms.0 ≤ d.opts.fast_latency_range_ms.1
    → d.opts.slow_latency_range_ms.0 ≤ d.opts.slow_latency_range_ms.1
    → d.opts.health ≡ h
    → let (a, latency, d') = settle_by h d in Allowed d a latency
unfolding settle_by
settle_by-Allowed healthy d hf hs e = ground (arith, pick_latency_bounds fast d hf)
settle_by-Allowed down_fail_fast d hf hs e = ground (arith, pick_latency_bounds fast d hf)
settle_by-Allowed down_hang d hf hs e = inr (inr (e, refl))
settle_by-Allowed degraded d hf hs e = degraded-Allowed (next_random d).0 (next_random d).1 hf hs e

-- With latency ranges that are in order, a call in `healthy` answers within the fast range; in
-- `down-fail-fast` it fails with a transient error within the fast range; in `down-hang` it
-- answers after exactly `hangMs`; in `degraded` it answers within the fast or the slow range, or
-- fails with either error within the fast range. In no other health is there a rejection.
pub call-Allowed :
    (at : ℕ) (label : String) (d : UnreliableDownstream)
    → d.opts.fast_latency_range_ms.0 ≤ d.opts.fast_latency_range_ms.1
    → d.opts.slow_latency_range_ms.0 ≤ d.opts.slow_latency_range_ms.1
    → let (a, latency, d') = call at label d in Allowed d a latency
unfolding call
call-Allowed at label d hf hs = settle_by-Allowed d.opts.health (logged at label none d) hf hs refl
