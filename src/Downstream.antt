-- ===== src/Downstream.antt =====
-- The simulated unreliable downstream, class `UnreliableDownstream` of
-- labs/37-retries-timeouts-and-circuit-breakers/src/downstream/unreliable-downstream.ts, and the
-- generator `mulberry32` of lib/random.ts beside it.
-- A call is its part before the `sleep`: the new state, the time that it sleeps, and how it settles
-- afterwards. `random()` is a numerator over 2 ^ 32, a rate is in percent, and a latency is a
-- numerator over 2 ^ 32 milliseconds.
pub mod Charges
pub mod Health
mod Tests
use text.Mathlib.Text.{◌==◌ as str_eq}
use Prim.Native.String.{String}
use Prim.Native.Nat.{bit_xor, bit_or}
use systems_engineering_lab.Prelude.{
  ℕ, suc, ◌+◌, ◌-◌, ◌*◌, ◌/◌, ◌%◌, ◌^◌, Bool, true, false, not, Option, none, some, List, [], ◌∷◌,
  ltb, length, if◌then◌else◌,
}

abbrev pub word : ℕ
word = 2 ^ 32

-- `Math.imul`, on bit patterns.
imul : ℕ → ℕ → ℕ
imul a b = (a * b) % word

-- One call of the closure that `mulberry32` returns: the closure's next `a`, and the number.
pub mulberry32_next : ℕ → ℕ × ℕ
unfolding imul
mulberry32_next a0 =
    let a = (a0 + 0x6d2b79f5) % word in
    let t = imul (bit_xor a (a / 2 ^ 15)) (bit_or 1 a) in
    let u = bit_xor ((t + imul (bit_xor t (t / 2 ^ 7)) (bit_or 61 t)) % word) t in
    (a, bit_xor u (u / 2 ^ 14) % word)

pub data DownstreamHealth : Type 0 where
  healthy degraded down_fail_fast down_hang : DownstreamHealth

pub record UnreliableDownstreamOptions : Type 0 where
  pub seed : ℕ
  pub health : DownstreamHealth
  pub transient_error_rate : ℕ
  pub non_transient_error_rate : ℕ
  pub slow_rate : ℕ
  pub fast_latency_range_ms : ℕ × ℕ
  pub slow_latency_range_ms : ℕ × ℕ
  pub hang_ms : ℕ

-- `DEFAULTS`, with the caller's seed and health.
pub defaults : ℕ → DownstreamHealth → UnreliableDownstreamOptions
defaults seed health = record {
  seed = seed;
  health = health;
  transient_error_rate = 45;
  non_transient_error_rate = 10;
  slow_rate = 15;
  fast_latency_range_ms = (5, 30);
  slow_latency_range_ms = (400, 900);
  hang_ms = 5000;
}

pub record CallLogEntry : Type 0 where
  pub at_ms : ℕ
  pub label : String
  pub idempotency_key : Option String

-- `charge_number` is the n of the chargeId `ch_n`.
pub record ChargeResult : Type 0 where
  pub charge_number : ℕ
  pub amount_cents : ℕ
  pub idempotency_key : Option String

pub record UnreliableDownstream : Type 0 where
  pub opts : UnreliableDownstreamOptions
  pub call_log : List CallLogEntry
  pub random : ℕ
  pub ledger_total_cents : ℕ
  pub charge_counter : ℕ
  pub applied_charges : List (String × ChargeResult)

pub constructor : UnreliableDownstreamOptions → UnreliableDownstream
constructor opts = record {
  opts = opts;
  call_log = [];
  random = opts.seed % word;
  ledger_total_cents = 0;
  charge_counter = 0;
  applied_charges = [];
}

pub unique_charge_count : UnreliableDownstream → ℕ
unique_charge_count d = length d.applied_charges

pub set_health : DownstreamHealth → UnreliableDownstream → UnreliableDownstream
set_health health d = record d { opts = record (d.opts) { health = health } }

-- `this.random()`
pub next_random : UnreliableDownstream → ℕ × UnreliableDownstream
next_random d = let (a, r) = mulberry32_next d.random in (r, record d { random = a })

pub data Kind : Type 0 where
  fast slow : Kind

range_ms : Kind → UnreliableDownstreamOptions → ℕ × ℕ
range_ms fast opts = opts.fast_latency_range_ms
range_ms slow opts = opts.slow_latency_range_ms

-- `min + random() * (max - min)`, as `(1 - random()) * min + random() * max`.
pub pick_latency : Kind → UnreliableDownstream → ℕ × UnreliableDownstream
unfolding range_ms next_random
pick_latency kind d =
    let (min, max) = range_ms kind d.opts in
    let (r, d') = next_random d in ((word - r) * min + r * max, d')

-- How a call settles after its sleep.
pub data Answer : Type 0 where
  ok transient_downstream_error non_transient_downstream_error : Answer

abbrev answers : Answer → ℕ × UnreliableDownstream → Answer × ℕ × UnreliableDownstream
answers a (latency_ms, d) = (a, latency_ms, d)

-- The branch of `degraded`, from the drawn `r`.
degraded_answer : ℕ → UnreliableDownstream → Answer × ℕ × UnreliableDownstream
unfolding pick_latency
degraded_answer r d =
    let transient = d.opts.transient_error_rate * word in
    let non_transient = (d.opts.transient_error_rate + d.opts.non_transient_error_rate) * word in
    let slow_limit =
      (d.opts.transient_error_rate + d.opts.non_transient_error_rate + d.opts.slow_rate) * word in
    if ltb (r * 100) transient
    then answers transient_downstream_error (pick_latency fast d)
    else if ltb (r * 100) non_transient
    then answers non_transient_downstream_error (pick_latency fast d)
    else if ltb (r * 100) slow_limit
    then answers ok (pick_latency slow d)
    else answers ok (pick_latency fast d)

settle_by : DownstreamHealth → UnreliableDownstream → Answer × ℕ × UnreliableDownstream
unfolding degraded_answer pick_latency next_random
settle_by healthy d = answers ok (pick_latency fast d)
settle_by down_fail_fast d = answers transient_downstream_error (pick_latency fast d)
settle_by down_hang d = (ok, d.opts.hang_ms * word, d)
settle_by degraded d = let (r, d') = next_random d in degraded_answer r d'

pub settle_generic : UnreliableDownstream → Answer × ℕ × UnreliableDownstream
unfolding settle_by
settle_generic d = settle_by d.opts.health d

logged : ℕ → String → Option String → UnreliableDownstream → UnreliableDownstream
logged at label key d = record d {
  call_log = record { at_ms = at; label = label; idempotency_key = key } ∷ d.call_log;
}

pub call : ℕ → String → UnreliableDownstream → Answer × ℕ × UnreliableDownstream
unfolding logged settle_generic
call at label d = settle_generic (logged at label none d)

-- `if (idempotencyKey)`: a missing key and an empty one are both falsy.
pub truthy : Option String → Option String
truthy none = none
truthy (some k) = if str_eq k "" then none else some k

pub get : String → List (String × ChargeResult) → Option ChargeResult
get k [] = none
get k ((j, c) ∷ cs) = if str_eq j k then some c else get k cs

-- The part of `charge` from the comment "The side effect commits durably right here" on.
pub apply_charge :
    ℕ → Option String → UnreliableDownstream → ChargeResult × ℕ × UnreliableDownstream
unfolding truthy pick_latency
apply_charge amount_cents idempotency_key d =
    let result : ChargeResult = record {
      charge_number = d.charge_counter + 1;
      amount_cents = amount_cents;
      idempotency_key = idempotency_key;
    } in
    let charged : UnreliableDownstream = record d {
      charge_counter = d.charge_counter + 1;
      ledger_total_cents = d.ledger_total_cents + amount_cents;
      applied_charges = elim (truthy idempotency_key) [
        | none ↦ d.applied_charges
        | some k ↦ (k, result) ∷ d.applied_charges
      ];
    } in
    let (latency_ms, d') = pick_latency slow charged in (result, latency_ms, d')

abbrev returns_existing :
    ChargeResult → ℕ × UnreliableDownstream → ChargeResult × ℕ × UnreliableDownstream
returns_existing c (latency_ms, d) = (c, latency_ms, d)

pub charge : ℕ → ℕ → Option String → UnreliableDownstream → ChargeResult × ℕ × UnreliableDownstream
unfolding logged truthy get apply_charge pick_latency
charge at amount_cents idempotency_key d0 =
    let d = logged at "charge" idempotency_key d0 in
    elim (truthy idempotency_key) [
      | none ↦ apply_charge amount_cents idempotency_key d
      | some k ↦ elim (get k d.applied_charges) [
        | some existing ↦ returns_existing existing (pick_latency fast d)
        | none ↦ apply_charge amount_cents idempotency_key d
      ]
    ]
